-- ===== src/Fs/Serve/Table.antt =====
-- What requests do to the table of open files of oslab6/fs/serv.c.
use operating_systems_lab.Base.{drop}
use operating_systems_lab.Kern.State.{pgsize}
use operating_systems_lab.Base.{
  ℕ, ◌+◌, ◌%◌, ◌^◌, ◌<◌, ◌≡◌, refl, ap, ◌∙◌, update, arith, leb, Bool-cases, ◌==◌, length,
}
use operating_systems_lab.Base.{
  if◌then◌else◌, Option, none, some, ◌⊎◌, inl, inr, List, Bool, true, false,
}
use mathlib.Core.Path.{fun_ext}
use operating_systems_lab.Fs.Dispatch.{handle}
use operating_systems_lab.Kern.State.{Result, ok, err}
use operating_systems_lab.Fs.Disk.{Disk, FilePtr}
use operating_systems_lab.Fs.OpenFiles.{OpenFile, Server, maxopen}
use operating_systems_lab.Fs.OpenFiles.Slots.{
  Held, Opened, no_page, all_held, opened, openfile_alloc-Opened,
}
use operating_systems_lab.Fs.Serve.{
  Body, Reply, Served, fill_open, serve_open_at, serve_open, on_file, set_size_reply,
  serve_set_size, overrun, long_reply, read_reply, serve_read, write_reply, serve_write, serve_stat,
  serve_flush, serve_sync, find_file, advance,
}

-- The entries and the counts are kept, and no page is sent.
pub data Kept (s : Server) : Served → Type 0 where
  stops : Kept s none
  answers :
      (a : Reply) (t : Server)
      → t.opentab ≡ s.opentab
      → t.refs ≡ s.refs
      → a.pg ≡ none
      → Kept s (some (a, t))

on_file-Kept :
    (f : OpenFile → FilePtr → Served) (r : Result ℕ) (s : Server)
    → ((o : OpenFile) (p : FilePtr) → Kept s (f o p))
    → Kept s (on_file f r s)
unfolding on_file
on_file-Kept f (err e) s h = answers _ _ refl refl refl
on_file-Kept f (ok i) s h = pointed (s.opentab i).o_file
  where
    pointed : (p : Option FilePtr) → Kept s (elim p [ none ↦ none | some q ↦ f (s.opentab i) q ])
    pointed none = stops
    pointed (some q) = h (s.opentab i) q

set_size_reply-Kept : (r : Option Disk) (s : Server) → Kept s (set_size_reply r s)
unfolding set_size_reply
set_size_reply-Kept none s = stops
set_size_reply-Kept (some d) s = answers _ _ refl refl refl

long_reply-Kept :
    (o : OpenFile) (xs : List ℕ) (r : Option Disk) (s : Server) → Kept s (long_reply o xs r s)
unfolding long_reply
long_reply-Kept o xs none s = stops
long_reply-Kept o xs (some d) s = answers _ _ refl refl refl

read_reply-Kept :
    (o : OpenFile) (r : Option (Result (List ℕ) × Disk)) (s : Server) → Kept s (read_reply o r s)
unfolding read_reply
read_reply-Kept o none s = stops
read_reply-Kept o (some (err e, d)) s = answers _ _ refl refl refl
read_reply-Kept o (some (ok xs, d)) s = fits _
  where
    fits :
        (b : Bool)
        → Kept s (
            if b
            then long_reply o xs (overrun (drop pgsize xs) d) s
            else some (
              record { r = ok (length xs); body = Body.bytes xs; pg = none },
              advance o (length xs) (record s { disk = d }),
            ))
    fits true = long_reply-Kept o xs (overrun (drop pgsize xs) d) s
    fits false = answers _ _ refl refl refl

write_reply-Kept :
    (o : OpenFile) (n : ℕ) (r : Option (Result (Unit {0}) × Disk)) (s : Server)
    → Kept s (write_reply o n r s)
unfolding write_reply
write_reply-Kept o n none s = stops
write_reply-Kept o n (some (err e, d)) s = answers _ _ refl refl refl
write_reply-Kept o n (some (ok _, d)) s = answers _ _ refl refl refl

update-update {ℓ} :
    {A : Type ℓ} (f : ℕ → A) (i : ℕ) (a b : A) → update (update f i a) i b ≡ update f i b
update-update f i a b = fun_ext λ j. ground arith

-- Entry `i`, whose page no client has, is handed out as `o`, and its page gets `n` references.
pub record Reissued (i n : ℕ) (o : OpenFile) (s t : Server) : Type 0 where
  pub in_table : i < maxopen
  pub was_free : ¬ Held i s
  pub entry : t.opentab ≡ update s.opentab i o
  pub counts : t.refs ≡ update s.refs (s.opentab i).o_fd n
  pub same_page : o.o_fd ≡ (s.opentab i).o_fd
  pub next_id : o.o_fileid ≡ ((s.opentab i).o_fileid + maxopen) % 2 ^ 32

-- The page of an entry that is handed out names it, and stands at the start of the file.
pub record Handed (o : OpenFile) (a : Reply) (t : Server) : Type 0 where
  pub page_sent : a.pg ≡ some o.o_fd
  pub with_file : (f : FilePtr) × (o.o_file ≡ some f)
  pub names_entry : (t.fd_page o.o_fd).fd_file_id ≡ o.o_fileid
  pub at_start : (t.fd_page o.o_fd).fd_offset ≡ 0

-- The outcome of a request for the table.
pub data TableOutcome (s : Server) : Served → Type 0 where
  kept : {r : Served} → Kept s r → TableOutcome s r
  reissued :
      (i : ℕ) (o : OpenFile) (a : Reply) (t : Server)
      → Reissued i 1 o s t
      → (a.pg ≡ none) ⊎ Handed o a t
      → TableOutcome s (some (a, t))

fill_open-Outcome :
    (i omode : ℕ) (o : OpenFile) (r : Option (Result FilePtr × Disk)) (s t : Server)
    → Reissued i 1 o s t
    → (t.fd_page o.o_fd).fd_offset ≡ 0
    → TableOutcome s (fill_open i omode r t)
unfolding fill_open
fill_open-Outcome i omode o none s t h z = kept stops
fill_open-Outcome i omode o (some (err e, d)) s t h z =
    reissued i o _ _
      (record {
        in_table = h.in_table;
        was_free = h.was_free;
        entry = h.entry;
        counts = h.counts;
        same_page = h.same_page;
        next_id = h.next_id;
      })
      (inl refl)
fill_open-Outcome i omode o (some (ok f, d)) s t h z =
    let here : t.opentab i ≡ o = ap (λ tab. tab i) h.entry ∙ ground arith in
    reissued i (record (t.opentab i) { o_file = some f; o_mode = omode }) _ _
      (record {
        in_table = h.in_table;
        was_free = h.was_free;
        entry =
            ap (λ tab. update tab i (record (t.opentab i) { o_file = some f; o_mode = omode }))
              h.entry
            ∙ update-update s.opentab i o _;
        counts = h.counts;
        same_page = ap (λ e. e.o_fd) here ∙ h.same_page;
        next_id = ap (λ e. e.o_fileid) here ∙ h.next_id;
      })
      (inr (record {
        page_sent = refl;
        with_file = (f, refl);
        names_entry = ground arith;
        at_start = ground (arith, ap (λ e. e.o_fd) here);
      }))

serve_open_at-Outcome :
    {alloc : Result (Unit {0})} (omode : ℕ) (path : List ℕ) (s : Server) {r : Result ℕ × Server}
    → Opened alloc 0 s r
    → TableOutcome s (serve_open_at omode path r)
unfolding serve_open_at
serve_open_at-Outcome omode path s (no_page e q) = kept (answers _ _ refl refl refl)
serve_open_at-Outcome omode path s (all_held h) = kept (answers _ _ refl refl refl)
serve_open_at-Outcome omode path s (opened i t le lt free held tab refs page disk) =
    let h : Reissued i 1
        (record (s.opentab i) { o_fileid = ((s.opentab i).o_fileid + maxopen) % 2 ^ 32 }) s t =
      record {
        in_table = lt;
        was_free = free;
        entry = tab;
        counts = refs;
        same_page = refl;
        next_id = refl;
      } in
    elim (Bool-cases (leb (2 ^ 31) (t.opentab i).o_fileid)) [
      | inl big ↦ rw big (reissued i _ _ t h (inl refl))
      | inr small ↦ rw small (
          fill_open-Outcome i omode _ (find_file omode path t.disk) s t h
            (ap (λ g. (g (s.opentab i).o_fd).fd_offset) page ∙ ground arith))
    ]

serve_open-Outcome :
    (alloc : Result (Unit {0})) (path : List ℕ) (omode : ℕ) (s : Server)
    → TableOutcome s (serve_open alloc path omode s)
unfolding serve_open
serve_open-Outcome alloc path omode s =
    serve_open_at-Outcome omode path s (openfile_alloc-Opened alloc s)

set_size-Kept : (fileid size : ℕ) (s : Server) → Kept s (serve_set_size fileid size s)
unfolding serve_set_size
set_size-Kept fileid size s = on_file-Kept _ _ s (λ o p. set_size_reply-Kept _ s)

read-Kept : (fileid n : ℕ) (s : Server) → Kept s (serve_read fileid n s)
unfolding serve_read
read-Kept fileid n s = on_file-Kept _ _ s (λ o p. read_reply-Kept o _ s)

write-Kept : (fileid : ℕ) (xs : List ℕ) (s : Server) → Kept s (serve_write fileid xs s)
unfolding serve_write
write-Kept fileid xs s = on_file-Kept _ _ s (λ o p. write_reply-Kept o _ _ s)

stat-Kept : (fileid : ℕ) (s : Server) → Kept s (serve_stat fileid s)
unfolding serve_stat
stat-Kept fileid s = on_file-Kept _ _ s (λ o p. answers _ _ refl refl refl)

flush-Kept : (fileid : ℕ) (s : Server) → Kept s (serve_flush fileid s)
unfolding serve_flush
flush-Kept fileid s = on_file-Kept _ _ s (λ o p. set_size_reply-Kept _ s)

sync-Kept : (s : Server) → Kept s (serve_sync s)
unfolding serve_sync
sync-Kept s = answers _ _ refl refl refl

choose :
    {s : Server} {a b : Served} (t : Bool)
    → TableOutcome s a
    → TableOutcome s b
    → TableOutcome s (if t then a else b)
choose true h k = h
choose false h k = k

-- Whatever the request, the table is kept, or one entry whose page no client has is handed out.
pub handle-Outcome :
    (alloc : Result (Unit {0})) (req : ℕ) (page : ℕ → ℕ) (s : Server)
    → TableOutcome s (handle alloc req page s)
unfolding handle
handle-Outcome alloc req page s = choose (req == 1) (serve_open-Outcome alloc _ _ s) (
    choose (req == 2) (kept (set_size-Kept _ _ s)) (
      choose (req == 3) (kept (read-Kept _ _ s)) (
        choose (req == 4) (kept (write-Kept _ _ s)) (
          choose (req == 5) (kept (stat-Kept _ s)) (
            choose (req == 6) (kept (flush-Kept _ s))
              (choose (req == 8) (kept (sync-Kept s)) (kept (answers _ _ refl refl refl))))))))
