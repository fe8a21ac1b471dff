-- ===== src/Fs/Dispatch/Opens.antt =====
-- What a client has after a successful `serve_open` of oslab6/fs/serv.c.
use operating_systems_lab.Base.{
  ℕ, ◌+◌, ◌%◌, ◌^◌, ◌%◌, ◌==◌, ◌≡◌, refl, sym, ap, ◌∙◌, update, arith, some, inl, inr, Bool-cases,
}
use mathlib.Core.Path.{subst}
use operating_systems_lab.Kern.State.{Result, ok}
use operating_systems_lab.Fs.Disk.{FilePtr}
use operating_systems_lab.Fs.OpenFiles.{OpenFile, Server, openfile_lookup}
use operating_systems_lab.Fs.OpenFiles.Slots.{openfile_lookup_iff}
use operating_systems_lab.Fs.Serve.{Reply, Served}
use operating_systems_lab.Fs.Serve.Table.{
  answers, stops, Reissued, Handed, TableOutcome, kept, reissued, handle-Outcome,
}
use operating_systems_lab.Fs.Dispatch.{answered, serve_round}
use operating_systems_lab.Fs.Dispatch.Steps.{sends}
use operating_systems_lab.Fs.Dispatch.Run.{IsSafe, Step-IsSafe}

-- After the receiver has mapped the page at `va`.
abbrev pub mapped_once_more : ℕ → Server → Server
mapped_once_more va u = record u { refs = update u.refs va ((u.refs va + 1) % 2 ^ 16) }

-- The page at `va` names an open file, at its start.
pub record NamesOpen (va : ℕ) (t : Server) : Type 0 where
  pub entry : ℕ
  pub id_found : openfile_lookup (t.fd_page va).fd_file_id t ≡ ok entry
  pub its_page : (t.opentab entry).o_fd ≡ va
  pub its_file : (f : FilePtr) × ((t.opentab entry).o_file ≡ some f)
  pub at_start : (t.fd_page va).fd_offset ≡ 0

names_open :
    (i : ℕ) (o : OpenFile) (a : Reply) (s u : Server)
    → IsSafe (mapped_once_more o.o_fd u)
    → Reissued i 1 o s u
    → Handed o a u
    → NamesOpen o.o_fd (mapped_once_more o.o_fd u)
names_open i o a s u h r out =
    let here : u.opentab i ≡ o = ap (λ tab. tab i) r.entry ∙ ground arith in
    let page : (u.opentab i).o_fd ≡ o.o_fd = ap (λ e. e.o_fd) here in
    let count : u.refs o.o_fd ≡ 1 = ap (λ f. f o.o_fd) r.counts ∙ ground (arith, r.same_page) in
    record {
      entry = i;
      id_found =
          (openfile_lookup_iff (u.fd_page o.o_fd).fd_file_id i (mapped_once_more o.o_fd u)
              h.table).1
            (r.in_table, ap (λ e. e.o_fileid) here ∙ sym out.names_entry, ground arith);
      its_page = page;
      its_file = let (f, q) = out.with_file in (f, ap (λ e. e.o_file) here ∙ q);
      at_start = out.at_start;
    }

sent_names :
    {s u : Server} {r : Served} {a : Reply} {va : ℕ}
    → TableOutcome s r
    → answered r ≡ some (some a, u)
    → a.pg ≡ some va
    → IsSafe (mapped_once_more va u)
    → NamesOpen va (mapped_once_more va u)
sent_names (kept stops) e p h = absurd (cc e)
sent_names {a = b} (kept (answers a v tab refs pg)) e p h = absurd (cc e)
sent_names {a = b} (reissued i o a v r (inl pg)) e p h = absurd (cc e)
sent_names {s} {u} {a = b} {va} (reissued i o a v r (inr out)) e p h =
    let q : v ≡ u = cc e in
    let k : o.o_fd ≡ va = cc (e, out.page_sent) in
    subst (λ w. NamesOpen w (mapped_once_more w u)) k
      (subst (λ w. NamesOpen o.o_fd (mapped_once_more o.o_fd w)) q
        (names_open i o a s v
          (subst (λ w. IsSafe (mapped_once_more w v)) (sym k)
            (subst (λ w. IsSafe (mapped_once_more va w)) (sym q) h))
          r out))

-- When the entries have their own pages and ids and files where clients have their pages, and a
-- request is answered with a page, then after the client has mapped this page the id on it finds an
-- entry, with this page and a file, and the offset on the page is 0.
pub open-NamesOpen :
    (alloc : Result (Unit {0})) (perm req : ℕ) (page : ℕ → ℕ) (a : Reply) (s u : Server) (va : ℕ)
    → IsSafe s
    → serve_round alloc perm req page s ≡ some (some a, u)
    → a.pg ≡ some va
    → NamesOpen va (mapped_once_more va u)
unfolding serve_round
open-NamesOpen alloc perm req page a s u va h e p =
    let safe : IsSafe (mapped_once_more va u) =
      Step-IsSafe h (sends alloc perm req page a u va e p refl) in
    elim (Bool-cases (perm % 2 == 0)) [
      | inl no_page ↦ absurd (ground arith)
      | inr paged ↦
          sent_names {u = u} {a = a} (handle-Outcome alloc req page s) (ground arith) p safe
    ]
