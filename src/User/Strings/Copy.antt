-- ===== src/User/Strings/Copy.antt =====
-- `strcpy` and `strlcpy` of oslab6/lib/string.c between strings that do not overlap.
use operating_systems_lab.Base.{ℕ, zero, suc, ◌+◌, ◌<◌, ◌≤◌, ◌≡◌, ◌⊎◌, arith, ◌∙◌, update, length}
use operating_systems_lab.Base.{some, inl, inr, List, [], ◌∷◌}
use operating_systems_lab.User.Strings.{Memory, strcpy}
use operating_systems_lab.User.Strings.Compare.{Text}

Text-frame :
    (m m' : Memory) (s : ℕ) (xs : List ℕ)
    → ((j : ℕ) → s ≤ j → j ≤ s + length xs → m' j ≡ m j)
    → Text m s xs
    → Text m' s xs
Text-frame m m' s [] same h = same s (omega arith) (omega arith) ∙ h
Text-frame m m' s (x ∷ xs) same h = (
  same s (omega arith) (omega arith) ∙ h.0,
  h.1,
  Text-frame m m' (s + 1) xs (λ j a b. same j (omega arith) (omega arith)) h.2,
)

-- The places of two strings of `n` bytes do not meet.
abbrev pub Apart : ℕ → ℕ → ℕ → Type 0
Apart dst src n = (dst + n < src) ⊎ (src + n < dst)

-- `m'` has `xs` at `dst`, and else what `m` has.
pub record Copied (dst : ℕ) (xs : List ℕ) (m m' : Memory) : Type 0 where
  pub text : Text m' dst xs
  pub elsewhere : (j : ℕ) → (j < dst) ⊎ (dst + length xs < j) → m' j ≡ m j

Copied-cons :
    (dst x : ℕ) (xs : List ℕ) (m m' : Memory)
    → (0 < x) × (x < 256)
    → Copied (dst + 1) xs (update m dst x) m'
    → Copied dst (x ∷ xs) m m'
Copied-cons dst x xs m m' hx c = record {
  text = (c.elsewhere dst (inl (omega arith)) ∙ ground arith, hx, c.text);
  elsewhere = λ j out. elim out [
    | inl a ↦ c.elsewhere j (inl (omega arith)) ∙ ground arith
    | inr a ↦ c.elsewhere j (inr (omega arith)) ∙ ground arith
  ];
}

Text-later :
    (dst src x : ℕ) (xs : List ℕ) (m : Memory)
    → Apart dst src (suc (length xs))
    → Text m (src + 1) xs
    → Text (update m dst x) (src + 1) xs
Text-later dst src x xs m apart h =
    Text-frame m (update m dst x) (src + 1) xs
      (λ j a b. elim apart [ inl p ↦ ground arith | inr p ↦ ground arith ]) h

strcpy-next :
    (fuel dst src x : ℕ) (m m' : Memory)
    → m src ≡ x
    → 0 < x
    → strcpy fuel (dst + 1) (src + 1) (update m dst x) ≡ some m'
    → strcpy (suc fuel) dst src m ≡ some m'
unfolding strcpy
strcpy-next fuel dst src x m m' e pos run = rw e (ground (arith, run, pos))

strcpy_step :
    (fuel dst src x : ℕ) (xs : List ℕ) (m : Memory)
    → m src ≡ x
    → (0 < x) × (x < 256)
    → ((m' : Memory) × (strcpy fuel (dst + 1) (src + 1) (update m dst x) ≡ some m')
        × Copied (dst + 1) xs (update m dst x) m')
    → (m' : Memory) × (strcpy (suc fuel) dst src m ≡ some m') × Copied dst (x ∷ xs) m m'
strcpy_step fuel dst src x xs m e hx (m', run, c) =
    (m', strcpy-next fuel dst src x m m' e hx.0 run, Copied-cons dst x xs m m' hx c)

-- `strcpy` returns, leaves the string at the destination, and changes nothing but its place.
pub strcpy-Copied :
    (fuel dst src : ℕ) (m : Memory) (xs : List ℕ)
    → Text m src xs
    → Apart dst src (length xs)
    → length xs < fuel
    → (m' : Memory) × (strcpy fuel dst src m ≡ some m') × Copied dst xs m m'
unfolding strcpy
strcpy-Copied zero dst src m xs h apart lt = absurd (omega arith)
strcpy-Copied (suc fuel) dst src m [] h apart lt = (
  update m dst (m src),
  ground (arith, h),
  record {
    text = ground (arith, h);
    elsewhere = λ j out. elim out [ inl a ↦ ground arith | inr a ↦ ground arith ];
  },
)
strcpy-Copied (suc fuel) dst src m (x ∷ xs) h apart lt = strcpy_step fuel dst src x xs m h.0 h.1 (
    strcpy-Copied fuel (dst + 1) (src + 1) (update m dst x) xs (Text-later dst src x xs m apart h.2)
      (elim apart [ inl p ↦ inl (omega arith) | inr p ↦ inr (omega arith) ]) (omega arith))
