-- ===== src/Fs/Dispatch/Ids.antt =====
-- How long the ids of open files that oslab6/fs/serv.c gives to clients are good.
use operating_systems_lab.Base.{
  ℕ, suc, ◌+◌, ◌*◌, ◌%◌, ◌^◌, ◌<◌, ◌≤◌, ◌≡◌, ◌≢◌, refl, ap, ◌∙◌, arith,
}
use operating_systems_lab.Kern.State.{ok, err, Error}
use operating_systems_lab.Fs.OpenFiles.{Server, maxopen, openfile_lookup, serve_init}
use operating_systems_lab.Fs.OpenFiles.Slots.{
  Held, openfile_lookup_iff, openfile_lookup-other, serve_init-IsTable,
}
use operating_systems_lab.Fs.Dispatch.Steps.{Step}
use operating_systems_lab.Fs.Dispatch.Run.{
  IsSafe, Step-IsSafe, EntryChange, stays, renewed, Step-entry,
}

pub data Run (s : Server) : Server → Type 0 where
  here : Run s s
  next : {t u : Server} → Run s t → Step t u → Run s u

pub serve_init-IsSafe : (s : Server) → ((va : ℕ) → s.refs va ≤ 1) → IsSafe (serve_init s)
unfolding serve_init
serve_init-IsSafe s fresh = record {
  table = serve_init-IsTable s;
  opened = λ i lt held. absurd (omega (arith, fresh ((serve_init s).opentab i).o_fd));
}

-- A run in which some client has the page of entry `i` all along.
pub data HeldRun (i : ℕ) (s : Server) : Server → Type 0 where
  starts : Held i s → HeldRun i s s
  goes_on : {t u : Server} → HeldRun i s t → Step t u → Held i u → HeldRun i s u

HeldRun-Held : {i : ℕ} {s t : Server} → HeldRun i s t → Held i t
HeldRun-Held (starts h) = h
HeldRun-Held (goes_on r st h) = h

HeldRun-IsSafe : {i : ℕ} {s t : Server} → IsSafe s → HeldRun i s t → IsSafe t
HeldRun-IsSafe h (starts _) = h
HeldRun-IsSafe h (goes_on r st _) = Step-IsSafe (HeldRun-IsSafe h r) st

Held-kept : {i : ℕ} {s t : Server} → Held i s → EntryChange i s t → t.opentab i ≡ s.opentab i
Held-kept held (stays e) = e.same_entry
Held-kept held (renewed e) = absurd (e.free_before held)

HeldRun-entry :
    {i : ℕ} {s t : Server} → IsSafe s → i < maxopen → HeldRun i s t → t.opentab i ≡ s.opentab i
HeldRun-entry h lt (starts _) = refl
HeldRun-entry {i} h lt (goes_on r st _) =
    Held-kept (HeldRun-Held r) (Step-entry (HeldRun-IsSafe h r).table st i lt)
    ∙ HeldRun-entry h lt r

-- As long as the count of references of the page of an open file, of 16 bits, shows that some client
-- has the page, whatever the clients do, its id finds its entry, and the entry is what it was.
pub held_id-found :
    (i : ℕ) {s t : Server}
    → IsSafe s
    → i < maxopen
    → HeldRun i s t
    → (openfile_lookup (s.opentab i).o_fileid t ≡ ok i) × (t.opentab i ≡ s.opentab i)
held_id-found i {s} {t} h lt r =
    let e = HeldRun-entry h lt r in
    (
      (openfile_lookup_iff (s.opentab i).o_fileid i t (HeldRun-IsSafe h r).table).1
          (lt, ap (λ o. o.o_fileid) e, HeldRun-Held r),
      e,
    )

-- A run in which entry `i` is handed out `k` times.
pub data Issues (i : ℕ) (s : Server) : ℕ → Server → Type 0 where
  none_yet : Issues i s 0 s
  keeps :
      {k : ℕ} {t u : Server}
      → Issues i s k t
      → Step t u
      → (u.opentab i).o_fileid ≡ (t.opentab i).o_fileid
      → Issues i s k u
  issues :
      {k : ℕ} {t u : Server}
      → Issues i s k t
      → Step t u
      → (u.opentab i).o_fileid ≢ (t.opentab i).o_fileid
      → Issues i s (suc k) u

Issues-IsSafe : {i : ℕ} {s : Server} {k : ℕ} {t : Server} → IsSafe s → Issues i s k t → IsSafe t
Issues-IsSafe h none_yet = h
Issues-IsSafe h (keeps r st _) = Step-IsSafe (Issues-IsSafe h r) st
Issues-IsSafe h (issues r st _) = Step-IsSafe (Issues-IsSafe h r) st

issued_id :
    {i : ℕ} {s t : Server}
    → EntryChange i s t
    → (t.opentab i).o_fileid ≢ (s.opentab i).o_fileid
    → (t.opentab i).o_fileid ≡ ((s.opentab i).o_fileid + maxopen) % 2 ^ 32
issued_id (stays e) ne = absurd (ne (ap (λ o. o.o_fileid) e.same_entry))
issued_id (renewed e) ne = e.new_id

Issues-id :
    {i : ℕ} {s : Server} {k : ℕ} {t : Server}
    → IsSafe s
    → i < maxopen
    → (s.opentab i).o_fileid < 2 ^ 32
    → Issues i s k t
    → (t.opentab i).o_fileid ≡ ((s.opentab i).o_fileid + maxopen * k) % 2 ^ 32
Issues-id h lt small none_yet = omega arith
Issues-id h lt small (keeps r st e) = e ∙ Issues-id h lt small r
Issues-id {i} h lt small (issues r st ne) =
    omega
      (arith, issued_id (Step-entry (Issues-IsSafe h r).table st i lt) ne, Issues-id h lt small r)

-- After an entry has been handed out anew, at least once and less than 2 ^ 22 times, its old id is
-- refused.
pub old_id-refused :
    (i k : ℕ) {s t : Server}
    → IsSafe s
    → i < maxopen
    → (s.opentab i).o_fileid < 2 ^ 32
    → 0 < k
    → k < 2 ^ 22
    → Issues i s k t
    → openfile_lookup (s.opentab i).o_fileid t ≡ err Error.inval
old_id-refused i k {s} {t} h lt small pos few r =
    openfile_lookup-other (s.opentab i).o_fileid i t (h.table.own_id i lt)
      (λ e. absurd (omega (arith, Issues-id h lt small r)))
