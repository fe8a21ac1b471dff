-- ===== src/Fs/OpenFiles/Slots.antt =====
-- Which entry `openfile_alloc` of oslab6/fs/serv.c hands out, and what it leaves alone.
use operating_systems_lab.Base.{
  ℕ, zero, suc, ◌+◌, ◌*◌, ◌%◌, ◌^◌, ◌<◌, ◌≤◌, ◌==◌, ◌≡◌, ◌≢◌, refl, arith, Bool-cases, inl, inr,
  update, leb, ltb, ◌&&◌, if◌then◌else◌, ap, sym, ◌∙◌, ◌↔◌,
}
use mathlib.Core.Path.{fun_ext}
use native.Mathlib.Decide.{ℕ_discrete}
use operating_systems_lab.Kern.State.{Result, ok, err, Error, pgsize}
use operating_systems_lab.Fs.OpenFiles.{
  OpenFile, Server, maxopen, fileva, init_from, serve_init, new_fd, open_fresh, search_free,
  openfile_alloc, openfile_lookup,
}

-- Every entry has its own page, and an id that names its place.
pub record IsTable (s : Server) : Type 0 where
  pub own_page : (i : ℕ) → i < maxopen → (s.opentab i).o_fd ≡ fileva + i * pgsize
  pub own_id : (i : ℕ) → i < maxopen → (s.opentab i).o_fileid % maxopen ≡ i

-- A client has the page of entry `i`.
abbrev pub Held : ℕ → Server → Type 0
Held i s = 1 < s.refs (s.opentab i).o_fd

init_from-entry :
    (n i va : ℕ) (t : ℕ → OpenFile) (j : ℕ)
    → va ≡ fileva + i * pgsize
    → init_from n i va t j ≡ (
        if leb i j && ltb j (i + n)
        then record (t j) { o_fileid = j; o_fd = fileva + j * pgsize }
        else t j)
unfolding init_from
init_from-entry zero i va t j e = ground arith
init_from-entry (suc n) i va t j e =
    init_from-entry n (i + 1) (va + pgsize) (update t i (record (t i) { o_fileid = i; o_fd = va }))
      j (omega arith)
    ∙ ground arith

-- After `serve_init` every entry has its own page and its place as its id.
pub serve_init-IsTable : (s : Server) → IsTable (serve_init s)
unfolding serve_init
serve_init-IsTable s = record {
  own_page =
      λ i h. ap (λ o. o.o_fd) (init_from-entry maxopen 0 fileva s.opentab i refl) ∙ ground arith;
  own_id = λ i h.
      ap (λ o. o.o_fileid % maxopen) (init_from-entry maxopen 0 fileva s.opentab i refl)
      ∙ ground arith;
}

-- The outcome of the search for an entry from `lo` on.
pub data Opened (alloc : Result (Unit {0})) (lo : ℕ) (s : Server) : Result ℕ × Server → Type 0 where
  no_page : (e : Error) → alloc ≡ err e → Opened alloc lo s (err e, s)
  all_held : ((j : ℕ) → lo ≤ j → j < maxopen → Held j s) → Opened alloc lo s (err Error.max_open, s)
  opened :
      (i : ℕ) (t : Server)
      → lo ≤ i
      → i < maxopen
      → ¬ Held i s
      → ((j : ℕ) → lo ≤ j → j < i → Held j s)
      → t.opentab
        ≡ update s.opentab i
            (record (s.opentab i) { o_fileid = ((s.opentab i).o_fileid + maxopen) % 2 ^ 32 })
      → t.refs ≡ update s.refs (s.opentab i).o_fd 1
      → t.fd_page ≡ update s.fd_page (s.opentab i).o_fd new_fd
      → t.disk ≡ s.disk
      → Opened alloc lo s (ok i, t)

extend :
    (i hi : ℕ) (s : Server)
    → Held i s
    → ((j : ℕ) → i + 1 ≤ j → j < hi → Held j s)
    → (j : ℕ) → i ≤ j
    → j < hi
    → Held j s
extend i hi s here above j le lt = elim (ℕ_discrete i j) [
  | yes e ↦ rw (← e) here
  | no ne ↦ above j (omega arith) lt
]

Opened-skip :
    {alloc : Result (Unit {0})} (i : ℕ) (s : Server) {r : Result ℕ × Server}
    → Held i s
    → Opened alloc (i + 1) s r
    → Opened alloc i s r
Opened-skip i s here (no_page e q) = no_page e q
Opened-skip i s here (all_held h) = all_held (extend i maxopen s here h)
Opened-skip i s here (opened k t le lt free held tab refs page disk) =
    opened k t (omega arith) lt free (extend i k s here held) tab refs page disk

same_refs : (s : Server) (va : ℕ) → s.refs va ≡ 1 → s.refs ≡ update s.refs va 1
same_refs s va e =
    fun_ext λ v. elim (ℕ_discrete va v) [ yes q ↦ rw (← q) (ground arith) | no ne ↦ ground arith ]

open_fresh-Opened :
    (alloc : Result (Unit {0})) (i : ℕ) (s : Server)
    → i < maxopen
    → s.refs (s.opentab i).o_fd ≡ 0
    → Opened alloc i s (open_fresh alloc i s)
unfolding open_fresh
open_fresh-Opened (err e) i s lt h = no_page e refl
open_fresh-Opened (ok _) i s lt h =
    opened i _ (omega arith) lt (λ held. absurd (omega arith)) (λ j a b. absurd (omega arith)) refl
      refl refl refl

search_free-Opened :
    (alloc : Result (Unit {0})) (n i : ℕ) (s : Server)
    → i + n ≡ maxopen
    → Opened alloc i s (search_free alloc n i s)
unfolding search_free
search_free-Opened alloc zero i s e = all_held (λ j a b. absurd (omega arith))
search_free-Opened alloc (suc n) i s e = elim (Bool-cases (s.refs (s.opentab i).o_fd == 0)) [
  | inl z ↦ rw z (open_fresh-Opened alloc i s (omega arith) (ground arith))
  | inr nz ↦ elim (Bool-cases (s.refs (s.opentab i).o_fd == 1)) [
    | inl one ↦
        rw (nz, one)
          (opened i _ (omega arith) (omega arith) (λ held. absurd (ground arith))
            (λ j a b. absurd (omega arith)) refl (same_refs s (s.opentab i).o_fd (ground arith))
            refl refl)
    | inr more ↦
        rw (nz, more)
          (Opened-skip i s (ground arith) (search_free-Opened alloc n (i + 1) s (omega arith)))
  ]
]

-- `openfile_alloc` hands out the first entry whose page no client has, with the next id of its
-- place, a cleared page and one reference, and changes nothing else; or it fails and changes
-- nothing, with `max_open` when clients have all 1024 pages, else when no page can be mapped.
pub openfile_alloc-Opened :
    (alloc : Result (Unit {0})) (s : Server) → Opened alloc 0 s (openfile_alloc alloc s)
unfolding openfile_alloc
openfile_alloc-Opened alloc s = search_free-Opened alloc maxopen 0 s refl

found :
    (fileid i : ℕ) (s : Server)
    → openfile_lookup fileid s ≡ ok i
    → (fileid % maxopen ≡ i)
      × ((s.opentab (fileid % maxopen)).o_fileid ≡ fileid)
      × Held (fileid % maxopen) s
unfolding openfile_lookup
found fileid i s e = ground arith

find :
    (fileid j : ℕ) (s : Server)
    → fileid % maxopen ≡ j
    → (s.opentab j).o_fileid ≡ fileid
    → Held j s
    → openfile_lookup fileid s ≡ ok j
unfolding openfile_lookup
find fileid j s e q h = rw e (ground arith)

-- In a table whose entries have their own pages and ids, an id finds an entry exactly when it is
-- the id of this entry and a client has its page.
pub openfile_lookup_iff :
    (fileid i : ℕ) (s : Server)
    → IsTable s
    → (openfile_lookup fileid s ≡ ok i)
      ↔ ((i < maxopen) × ((s.opentab i).o_fileid ≡ fileid) × Held i s)
openfile_lookup_iff fileid i s h = (
  λ e.
      let (here, id, held) = found fileid i s e in
      (rw (← here) (omega arith), rw (← here) id, rw (← here) held),
  λ q. find fileid i s (ap (λ n. n % maxopen) (sym q.1) ∙ h.own_id i q.0) q.1 q.2,
)

pub openfile_lookup-other :
    (fileid i : ℕ) (s : Server)
    → fileid % maxopen ≡ i
    → (s.opentab i).o_fileid ≢ fileid
    → openfile_lookup fileid s ≡ err Error.inval
unfolding openfile_lookup
openfile_lookup-other fileid i s e ne = elim (Bool-cases ((s.opentab i).o_fileid == fileid)) [
  | inl q ↦ absurd (ground arith)
  | inr q ↦ rw (e, q) (ground arith)
]
