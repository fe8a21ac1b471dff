-- ===== src/Fs/Dispatch/Steps.antt =====
-- The steps of the file server of oslab6/fs/serv.c and its clients: requests, and what the clients
-- do with the pages that they were sent. `pp_ref` of oslab6/inc/memlayout.h has 16 bits: one more
-- reference after 65535 makes it 0, and the page is free for the server and the kernel.
use operating_systems_lab.Base.{
  ℕ, ◌+◌, ◌-◌, ◌%◌, ◌^◌, ◌<◌, ◌≡◌, refl, ap, update, arith, inl, inr, ◌⊎◌,
}
use mathlib.Core.Path.{fun_ext}
use operating_systems_lab.Base.{Option, some, Bool-cases, ◌==◌}
use operating_systems_lab.Kern.State.{Result}
use operating_systems_lab.Fs.Disk.{FilePtr}
use operating_systems_lab.Fs.OpenFiles.{OpenFile, Server, Fd}
use operating_systems_lab.Fs.Serve.{Reply, Served}
use operating_systems_lab.Fs.Serve.Table.{
  answers, stops, Reissued, TableOutcome, kept, reissued, handle-Outcome,
}
use operating_systems_lab.Fs.Dispatch.{answered, serve_round}

-- A step of the server and its clients.
pub data Step (s t : Server) : Type 0 where
  -- A request. The client takes no page, or none is sent.
  serves :
      (alloc : Result (Unit {0})) (perm req : ℕ) (page : ℕ → ℕ) (a : Option Reply)
      → serve_round alloc perm req page s ≡ some (a, t)
      → Step s t
  -- A request whose reply carries a page, which the client maps.
  sends :
      (alloc : Result (Unit {0})) (perm req : ℕ) (page : ℕ → ℕ) (a : Reply) (u : Server) (va : ℕ)
      → serve_round alloc perm req page s ≡ some (some a, u)
      → a.pg ≡ some va
      → t ≡ record u { refs = update u.refs va ((u.refs va + 1) % 2 ^ 16) }
      → Step s t
  -- A client that has a page maps it once more, or shares it with another.
  shares :
      (va : ℕ)
      → 1 < s.refs va
      → t ≡ record s { refs = update s.refs va ((s.refs va + 1) % 2 ^ 16) }
      → Step s t
  -- A client unmaps a page.
  drops :
      (va : ℕ) → 1 < s.refs va → t ≡ record s { refs = update s.refs va (s.refs va - 1) } → Step s t
  -- A client writes to a page.
  writes :
      (va : ℕ) (fd : Fd)
      → 1 < s.refs va
      → t ≡ record s { fd_page = update s.fd_page va fd }
      → Step s t

-- What a step does to the table and the counts.
pub data Change (s t : Server) : Type 0 where
  same : t.opentab ≡ s.opentab → t.refs ≡ s.refs → Change s t
  recounts :
      (va n : ℕ) → 1 < s.refs va → t.opentab ≡ s.opentab → t.refs ≡ update s.refs va n → Change s t
  reissues :
      (i n : ℕ) (o : OpenFile)
      → Reissued i n o s t
      → (n ≡ 1) ⊎ ((f : FilePtr) × (o.o_file ≡ some f))
      → Change s t

served :
    {s t : Server} {r : Served} {a : Option Reply}
    → TableOutcome s r
    → answered r ≡ some (a, t)
    → Change s t
served (kept stops) e = absurd (cc e)
served {s} {t} (kept (answers a u tab refs pg)) e =
    let q : u ≡ t = cc e in same (rw (← q) tab) (rw (← q) refs)
served {s} {t} (reissued i o a u h pg) e =
    let q : u ≡ t = cc e in reissues i 1 o (rw (← q) h) (inl refl)

Reissued-sent :
    (i : ℕ) (o : OpenFile) (s u : Server) (va : ℕ)
    → Reissued i 1 o s u
    → o.o_fd ≡ va
    → Reissued i 2 o s (record u { refs = update u.refs va ((u.refs va + 1) % 2 ^ 16) })
Reissued-sent i o s u va h e = record {
  in_table = h.in_table;
  was_free = h.was_free;
  entry = h.entry;
  counts =
      fun_ext λ v. ground (arith, ap (λ f. f v) h.counts, ap (λ f. f va) h.counts, h.same_page);
  same_page = h.same_page;
  next_id = h.next_id;
}

sent :
    {s u : Server} {r : Served} {a : Reply} {va : ℕ}
    → TableOutcome s r
    → answered r ≡ some (some a, u)
    → a.pg ≡ some va
    → Change s (record u { refs = update u.refs va ((u.refs va + 1) % 2 ^ 16) })
sent (kept stops) e p = absurd (cc e)
sent {a = b} (kept (answers a v tab refs pg)) e p = absurd (cc e)
sent {a = b} (reissued i o a v h (inl pg)) e p = absurd (cc e)
sent {s} {u} {a = b} {va} (reissued i o a v h (inr out)) e p =
    let q : v ≡ u = cc e in
    let k : o.o_fd ≡ va = cc (e, out.page_sent) in
    rw (← q) (reissues i 2 o (Reissued-sent i o s v va h k) (inr out.with_file))

round_served :
    (alloc : Result (Unit {0})) (perm req : ℕ) (page : ℕ → ℕ) (a : Option Reply) (s t : Server)
    → serve_round alloc perm req page s ≡ some (a, t)
    → Change s t
unfolding serve_round
round_served alloc perm req page a s t e = elim (Bool-cases (perm % 2 == 0)) [
  | inl no_page ↦ let q : s ≡ t = ground arith in rw (← q) (same refl refl)
  | inr paged ↦ served {a = a} (handle-Outcome alloc req page s) (ground arith)
]

round_sent :
    (alloc : Result (Unit {0})) (perm req : ℕ) (page : ℕ → ℕ) (a : Reply) (s u : Server) (va : ℕ)
    → serve_round alloc perm req page s ≡ some (some a, u)
    → a.pg ≡ some va
    → Change s (record u { refs = update u.refs va ((u.refs va + 1) % 2 ^ 16) })
unfolding serve_round
round_sent alloc perm req page a s u va e p = elim (Bool-cases (perm % 2 == 0)) [
  | inl no_page ↦ absurd (ground arith)
  | inr paged ↦ sent {u = u} {a = a} (handle-Outcome alloc req page s) (ground arith) p
]

pub Step-Change : {s t : Server} → Step s t → Change s t
Step-Change {s} {t} (serves alloc perm req page a e) = round_served alloc perm req page a s t e
Step-Change {s} (sends alloc perm req page a u va e p q) =
    rw q (round_sent alloc perm req page a s u va e p)
Step-Change (shares va h q) = rw q (recounts va _ h refl refl)
Step-Change (drops va h q) = rw q (recounts va _ h refl refl)
Step-Change (writes va fd h q) = rw q (same refl refl)
