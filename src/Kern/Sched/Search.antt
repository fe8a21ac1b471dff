-- ===== src/Kern/Sched/Search.antt =====
-- The search of `sched_yield` of oslab6/kern/sched.c for an environment that can run.
use operating_systems_lab.Base.{ℕ, zero, suc, ◌+◌, ◌%◌, ◌<◌, ◌≤◌, ◌≡◌, refl, arith, inl, inr}
use operating_systems_lab.Base.{true, false, Option, none, some, Bool-cases}
use native.Mathlib.Decide.{ℕ_discrete}
use operating_systems_lab.Kern.State.{Kernel}
use operating_systems_lab.Kern.Env.{nenv}
use operating_systems_lab.Kern.Sched.{is_runnable, first_runnable}

abbrev pub Runnable : Kernel → ℕ → Type 0
Runnable k j = is_runnable (k.envs j).env_status ≡ true

-- What the search from round `i` on finds, with `n` rounds left.
pub data Found (k : Kernel) (start i n : ℕ) : Option ℕ → Type 0 where
  nobody :
      {r : Option ℕ}
      → r ≡ none
      → ((d : ℕ) → i ≤ d → d < i + n → ¬ Runnable k ((start + d) % nenv))
      → Found k start i n r
  at :
      {r : Option ℕ} (d : ℕ)
      → r ≡ some ((start + d) % nenv)
      → (i ≤ d) × (d < i + n)
      → Runnable k ((start + d) % nenv)
      → ((e : ℕ) → i ≤ e → e < d → ¬ Runnable k ((start + e) % nenv))
      → Found k start i n r

Runnable-now :
    (n start i : ℕ) (k : Kernel)
    → Runnable k ((start + i) % nenv)
    → first_runnable (suc n) start i k ≡ some ((start + i) % nenv)
unfolding first_runnable
Runnable-now n start i k e = rw e

Runnable-later :
    (n start i : ℕ) (k : Kernel)
    → is_runnable (k.envs ((start + i) % nenv)).env_status ≡ false
    → first_runnable (suc n) start i k ≡ first_runnable n start (i + 1) k
unfolding first_runnable
Runnable-later n start i k e = rw e

skip :
    (k : Kernel) (start i e : ℕ)
    → is_runnable (k.envs ((start + i) % nenv)).env_status ≡ false
    → i ≤ e
    → (i + 1 ≤ e → ¬ Runnable k ((start + e) % nenv))
    → ¬ Runnable k ((start + e) % nenv)
skip k start i e not_here le later = elim (ℕ_discrete i e) [
  | yes q ↦ rw (← q) (λ z. cc)
  | no ne ↦ later (omega arith)
]

Found-skip :
    (k : Kernel) (start i n : ℕ) (r : Option ℕ)
    → is_runnable (k.envs ((start + i) % nenv)).env_status ≡ false
    → Found k start (i + 1) n r
    → Found k start i (suc n) r
Found-skip k start i n r not_here (nobody e all) =
    nobody e (λ d a b. skip k start i d not_here a (λ c. all d c (omega arith)))
Found-skip k start i n r not_here (at d e a here before) =
    at d e (omega arith) here (λ q b c. skip k start i q not_here b (λ z. before q z c))

none_left : (start i : ℕ) (k : Kernel) → first_runnable zero start i k ≡ none
unfolding first_runnable
none_left start i k = refl

pub first_runnable-Found :
    (n start i : ℕ) (k : Kernel) → Found k start i n (first_runnable n start i k)
first_runnable-Found zero start i k = nobody (none_left start i k) (λ d a b. absurd (omega arith))
first_runnable-Found (suc n) start i k =
    elim (Bool-cases (is_runnable (k.envs ((start + i) % nenv)).env_status)) [
      | inl e ↦ at i (Runnable-now n start i k e) (omega arith) e (λ q b c. absurd (omega arith))
      | inr e ↦
          rw (Runnable-later n start i k e)
            (Found-skip k start i n _ e (first_runnable-Found n start (i + 1) k))
    ]
