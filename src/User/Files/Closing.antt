-- ===== src/User/Files/Closing.antt =====
-- What `close` and `close_all` of oslab6/lib/fd.c leave open.
use operating_systems_lab.Base.{
  ℕ, zero, suc, ◌+◌, ◌<◌, ◌≤◌, ◌==◌, ◌≡◌, refl, sym, ap, ◌∙◌, arith, leb, Bool-cases, inl, inr, ◌⊎◌,
}
use operating_systems_lab.Base.{Bool, true, false, List}
use mathlib.Core.Path.{subst}
use native.Mathlib.Decide.{ℕ_discrete}
use operating_systems_lab.Kern.State.{Result, ok, err, Error}
use operating_systems_lab.User.Descriptors.{maxfd, index2fd, fd2num, fd_lookup}
use operating_systems_lab.User.Files.{
  Files, Dev, mapped, fd_at, unmap, dev_lookup, close_dev, close_found, close_number, fd_close,
  close, close_from, close_all,
}

-- Descriptor `n` is not open.
abbrev pub IsClosed : {World : Type 0} → ℕ → Files World → Type 0
IsClosed n s = fd_lookup n (mapped s) ≡ err Error.inval

pub data Lookup (n : ℕ) (m : ℕ → Bool) : Result ℕ → Type 0 where
  refused : (leb maxfd n ≡ true) ⊎ (m (index2fd n) ≡ false) → Lookup n m (err Error.inval)
  open_at : n < maxfd → m (index2fd n) ≡ true → Lookup n m (ok (index2fd n))

pub fd_lookup-Lookup : (n : ℕ) (m : ℕ → Bool) → Lookup n m (fd_lookup n m)
unfolding fd_lookup
fd_lookup-Lookup n m = elim (Bool-cases (leb maxfd n)) [
  | inl e ↦ rw e (refused (inl e))
  | inr ne ↦ elim (Bool-cases (m (index2fd n))) [
    | inl e ↦ rw (ne, e) (open_at (ground arith) e)
    | inr no_page ↦ rw (ne, no_page) (refused (inr no_page))
  ]
]

pub closed_of : (n : ℕ) (m : ℕ → Bool) → m (index2fd n) ≡ false → fd_lookup n m ≡ err Error.inval
unfolding fd_lookup
closed_of n m h = ground (arith, h)

pub open_of :
    (n : ℕ) (m : ℕ → Bool) → n < maxfd → m (index2fd n) ≡ true → fd_lookup n m ≡ ok (index2fd n)
unfolding fd_lookup
open_of n m lt h = ground (arith, h)

pub no_page_of :
    (n : ℕ) (m : ℕ → Bool) → n < maxfd → fd_lookup n m ≡ err Error.inval → m (index2fd n) ≡ false
no_page_of n m lt e = elim (Bool-cases (m (index2fd n))) [
  | inl here ↦ absurd (cc (e, open_of n m lt here))
  | inr gone ↦ gone
]

pub number : (n : ℕ) → fd2num (index2fd n) ≡ n
number n = omega arith

module _ {World : Type 0} (devtab : List (Dev World)) (n : ℕ) (s : Files World) where
  -- The state after the device has closed the descriptor.
  abbrev after_dev : Files World
  after_dev = (close_dev (dev_lookup devtab (fd_at s (index2fd n)).fd_dev_id) (index2fd n) s).1

  fd_close-ok :
      (close_found devtab (index2fd n) true (ok (index2fd n)) s).1 ≡ unmap (index2fd n) after_dev
  unfolding close_found
  fd_close-ok = let same : (index2fd n == index2fd n) ≡ true = ground arith in rw same refl

  close-ok :
      fd_lookup n (mapped s) ≡ ok (index2fd n) → (close devtab n s).1 ≡ unmap (index2fd n) after_dev
  unfolding close fd_close close_number
  close-ok e =
      ap (λ r. (close_number devtab r s).1) e
      ∙ ap (λ r. (close_found devtab (index2fd n) true r s).1)
          (ap (λ m. fd_lookup m (mapped s)) (number n) ∙ e)
      ∙ fd_close-ok

  pub close-err : fd_lookup n (mapped s) ≡ err Error.inval → (close devtab n s).1 ≡ s
  unfolding close close_number
  close-err e = ap (λ r. (close_number devtab r s).1) e

  -- `close` leaves the descriptor closed.
  pub close-IsClosed : IsClosed n (close devtab n s).1
  close-IsClosed = by_lookup (fd_lookup-Lookup n (mapped s)) refl
    where
      by_lookup :
          {r : Result ℕ}
          → Lookup n (mapped s) r
          → fd_lookup n (mapped s) ≡ r
          → IsClosed n (close devtab n s).1
      by_lookup (refused h) e = subst (λ t. IsClosed n t) (sym (close-err e)) e
      by_lookup (open_at lt h) e =
          subst (λ t. IsClosed n t) (sym (close-ok e)) (closed_of n _ (ground arith))

-- Closing a descriptor maps no page of the table of descriptors.
pub record ClosesOnly {World : Type 0} (devtab : List (Dev World)) : Type 0 where
  pub no_new_page :
      (id fd : ℕ) (s : Files World) (va : ℕ)
      → mapped s va ≡ false
      → mapped (close_dev (dev_lookup devtab id) fd s).1 va ≡ false

module _ {World : Type 0} (devtab : List (Dev World)) (h : ClosesOnly devtab) where
  stays-IsClosed :
      (n j : ℕ) (s : Files World) → j < maxfd → IsClosed j s → IsClosed j (close devtab n s).1
  stays-IsClosed n j s lt e = by_lookup (fd_lookup-Lookup n (mapped s)) refl
    where
      by_lookup :
          {r : Result ℕ}
          → Lookup n (mapped s) r
          → fd_lookup n (mapped s) ≡ r
          → IsClosed j (close devtab n s).1
      by_lookup (refused _) q = subst (λ t. IsClosed j t) (sym (close-err devtab n s q)) e
      by_lookup (open_at _ _) q =
          let gone =
            h.no_new_page (fd_at s (index2fd n)).fd_dev_id (index2fd n) s (index2fd j)
              (no_page_of j (mapped s) lt e) in
          subst (λ t. IsClosed j t) (sym (close-ok devtab n s q))
            (closed_of j _ (ground (arith, gone)))

  close_from-IsClosed :
      (n i j : ℕ) (s : Files World)
      → j < maxfd
      → IsClosed j s ⊎ ((i ≤ j) × (j < i + n))
      → IsClosed j (close_from devtab n i s)
  unfolding close_from
  close_from-IsClosed zero i j s lt (inl e) = e
  close_from-IsClosed zero i j s lt (inr q) = absurd (omega arith)
  close_from-IsClosed (suc n) i j s lt (inl e) =
      close_from-IsClosed n (i + 1) j (close devtab i s).1 lt (inl (stays-IsClosed i j s lt e))
  close_from-IsClosed (suc n) i j s lt (inr q) = elim (ℕ_discrete i j) [
    | yes e ↦
        close_from-IsClosed n (i + 1) j (close devtab i s).1 lt
          (inl (subst (λ m. IsClosed m (close devtab i s).1) e (close-IsClosed devtab i s)))
    | no ne ↦
        close_from-IsClosed n (i + 1) j (close devtab i s).1 lt (inr (omega arith, omega arith))
  ]

  -- Where the devices map no page of the descriptors when they close one, no descriptor is open
  -- after `close_all`.
  pub close_all-IsClosed : (j : ℕ) (s : Files World) → j < maxfd → IsClosed j (close_all devtab s)
  unfolding close_all
  close_all-IsClosed j s lt = close_from-IsClosed maxfd 0 j s lt (inr (omega arith, omega arith))
