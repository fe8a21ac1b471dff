-- ===== src/User/Descriptors/Least.antt =====
-- `fd_alloc` and `fd_lookup` of oslab6/lib/fd.c agree on which descriptors are in use.
use operating_systems_lab.Base.{
  ℕ, zero, suc, ◌+◌, ◌<◌, ◌≤◌, ◌≡◌, refl, arith, Bool, true, false, Bool-cases, inl, inr,
}
use native.Mathlib.Decide.{ℕ_discrete}
use operating_systems_lab.Kern.State.{Result, ok, err, Error}
use operating_systems_lab.User.Descriptors.{maxfd, index2fd, fd_alloc_from, fd_alloc, fd_lookup}

-- Every descriptor from `lo` on and below `hi` is in use.
abbrev AllOpen : ℕ → ℕ → (ℕ → Bool) → Type 0
AllOpen lo hi mapped = (j : ℕ) → lo ≤ j → j < hi → fd_lookup j mapped ≡ ok (index2fd j)

-- The outcome of a search from `lo` on.
pub data Free (lo : ℕ) (mapped : ℕ → Bool) : Result ℕ → Type 0 where
  all_open : AllOpen lo maxfd mapped → Free lo mapped (err Error.max_open)
  least :
      (i : ℕ)
      → lo ≤ i
      → i < maxfd
      → fd_lookup i mapped ≡ err Error.inval
      → AllOpen lo i mapped
      → Free lo mapped (ok (index2fd i))

open_here :
    (i : ℕ) (mapped : ℕ → Bool)
    → i < maxfd
    → mapped (index2fd i) ≡ true
    → fd_lookup i mapped ≡ ok (index2fd i)
unfolding fd_lookup
open_here i mapped lt h = ground arith

closed_here :
    (i : ℕ) (mapped : ℕ → Bool) → mapped (index2fd i) ≡ false → fd_lookup i mapped ≡ err Error.inval
unfolding fd_lookup
closed_here i mapped h = ground arith

extend :
    (i hi : ℕ) (mapped : ℕ → Bool)
    → fd_lookup i mapped ≡ ok (index2fd i)
    → AllOpen (i + 1) hi mapped
    → AllOpen i hi mapped
extend i hi mapped here above j le lt = elim (ℕ_discrete i j) [
  | yes e ↦ rw (← e) here
  | no ne ↦ above j (omega arith) lt
]

Free-skip :
    (i : ℕ) (mapped : ℕ → Bool) {r : Result ℕ}
    → fd_lookup i mapped ≡ ok (index2fd i)
    → Free (i + 1) mapped r
    → Free i mapped r
Free-skip i mapped here (all_open all) = all_open (extend i maxfd mapped here all)
Free-skip i mapped here (least b le lt closed below) =
    least b (omega arith) lt closed (extend i b mapped here below)

fd_alloc_from-Free :
    (n i : ℕ) (mapped : ℕ → Bool) → i + n ≡ maxfd → Free i mapped (fd_alloc_from n i mapped)
unfolding fd_alloc_from
fd_alloc_from-Free zero i mapped e = all_open (λ j a b. absurd (omega arith))
fd_alloc_from-Free (suc n) i mapped e = elim (Bool-cases (mapped (index2fd i))) [
  | inl h ↦ rw h (
      Free-skip i mapped (open_here i mapped (omega arith) h)
        (fd_alloc_from-Free n (i + 1) mapped (omega arith)))
  | inr h ↦
      rw h (
        least i (omega arith) (omega arith) (closed_here i mapped h)
          (λ j a b. absurd (omega arith)))
]

-- `fd_alloc` returns the page of the least descriptor that `fd_lookup` refuses, or `max_open` when
-- `fd_lookup` finds all 32.
pub fd_alloc-Free : (mapped : ℕ → Bool) → Free 0 mapped (fd_alloc mapped)
unfolding fd_alloc
fd_alloc-Free mapped = fd_alloc_from-Free maxfd 0 mapped refl
