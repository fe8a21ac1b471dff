-- ===== src/User/Format/RoundTrip.antt =====
-- `strtol` of oslab6/lib/string.c reads back what `printnum` of oslab6/lib/printfmt.c prints.
use mathlib.Core.Path.{subst}
use operating_systems_lab.Base.{
  ℕ, zero, suc, ◌+◌, ◌-◌, ◌/◌, ◌%◌, ◌^◌, ◌<◌, ◌≤◌, ◌≡◌, sym, ap, ◌∙◌, arith, leb, length,
  length-append, replicate, Bool-cases, inl, inr, All,
}
use operating_systems_lab.Base.{Option, none, some, List, [], ◌∷◌, ◌++◌, if◌then◌else◌, false}
use operating_systems_lab.User.Strings.{
  Memory, digit_of, skip_space, sign_at, prefix_at, digits_from, digits_at, signed_at, negated,
  strtol,
}
use operating_systems_lab.User.Strings.Compare.{Text}
use operating_systems_lab.User.Format.{digit, printnum, most_digits}
use operating_systems_lab.User.Format.Digits.{
  digits, printnum-padded, length-replicate, Holds, Holds-append, Reads-digits,
}

Text-Holds :
    (m : Memory) (s : ℕ) (xs : List ℕ) → Text m s xs → Holds m s xs × (m (s + length xs) ≡ 0)
Text-Holds m s [] h = (tt, ap m (omega arith) ∙ h)
Text-Holds m s (x ∷ xs) h =
    let (front, end) = Text-Holds m (s + 1) xs h.2 in ((h.0, front), ap m (omega arith) ∙ end)

-- From '0' to 'f'.
abbrev InDigits : ℕ → Type 0
InDigits c = (b'0' ≤ c) × (c ≤ b'f')

All-append {ℓ κ} :
    {A : Type ℓ} (P : A → Type κ) (xs ys : List A) → All P xs → All P ys → All P (xs ++ ys)
All-append P [] ys h k = k
All-append P (x ∷ xs) ys h k = (h.0, All-append P xs ys h.1 k)

digit-InDigits : (base num : ℕ) → 2 ≤ base → base ≤ 16 → All InDigits (digit (num % base) ∷ [])
digit-InDigits base num low high =
    let lt : num % base < base = grind arith in ((ground arith, ground arith), tt)

digits-InDigits : (fuel base num : ℕ) → 2 ≤ base → base ≤ 16 → All InDigits (digits fuel num base)
unfolding printnum
digits-InDigits zero base num low high = digit-InDigits base num low high
digits-InDigits (suc fuel) base num low high = elim (Bool-cases (leb base num)) [
  | inl more ↦ rw more (
      All-append InDigits (digits fuel (num / base) base) (digit (num % base) ∷ [])
        (digits-InDigits fuel base (num / base) low high) (digit-InDigits base num low high))
  | inr last ↦ rw last (digit-InDigits base num low high)
]

plus_none : (s : ℕ) → s ≡ s + 0
plus_none s = omega arith

one_more : (s p : ℕ) → s + suc p ≡ s + 1 + p
one_more s p = omega arith

stop : (k : ℕ) (m : Memory) (s : ℕ) → b'0' ≤ m s → skip_space (suc k) m s ≡ some s
unfolding skip_space
stop k m s h = ground arith

skip : (k : ℕ) (m : Memory) (s : ℕ) → m s ≡ b' ' → skip_space (suc k) m s ≡ skip_space k m (s + 1)
unfolding skip_space
skip k m s h = ground (arith, h)

digits-pos : (fuel num base : ℕ) → 0 < length (digits fuel num base)
unfolding printnum
digits-pos zero num base = omega arith
digits-pos (suc fuel) num base = omega (
  arith,
  length-append {0} (if leb base num then digits fuel (num / base) base else [])
      (digit (num % base) ∷ []),
)

skip_space-spaces :
    (p k : ℕ) (m : Memory) (s : ℕ)
    → Holds m s (replicate p b' ')
    → b'0' ≤ m (s + p)
    → skip_space (p + suc k) m s ≡ some (s + p)
skip_space-spaces zero k m s h at =
    ap (λ n. skip_space n m s) (omega arith)
    ∙ stop k m s (omega (arith, ap m (plus_none s)))
    ∙ ap some (plus_none s)
skip_space-spaces (suc p) k m s h at =
    ap (λ n. skip_space n m s) (omega arith)
    ∙ skip (p + suc k) m s h.0
    ∙ skip_space-spaces p k m (s + 1) h.1 (omega (arith, ap m (one_more s p)))
    ∙ ap some (sym (one_more s p))

no_prefix_at :
    (m : Memory) (base s : ℕ)
    → 2 ≤ base
    → b'0' ≤ m s
    → m (s + 1) ≤ b'f'
    → (sign_at m s ≡ (false, s)) × (prefix_at m base s ≡ (base, s))
no_prefix_at m base s low first second = (ground arith, ground arith)

-- At digits and the null after them there is no sign and no prefix.
no_prefix :
    (m : Memory) (base s : ℕ) (xs : List ℕ)
    → 2 ≤ base
    → All InDigits xs
    → Holds m s xs
    → m (s + length xs) ≡ 0
    → 0 < length xs
    → (b'0' ≤ m s) × (sign_at m s ≡ (false, s)) × (prefix_at m base s ≡ (base, s))
no_prefix m base s [] low h at end pos = absurd (omega arith)
no_prefix m base s (x ∷ []) low h at end pos =
    let (sign, prefix) =
      no_prefix_at m base s low (omega (arith, at.0, h.0)) (omega (arith, end)) in
    (omega (arith, at.0, h.0), sign, prefix)
no_prefix m base s (x ∷ y ∷ ys) low h at end pos =
    let (sign, prefix) =
      no_prefix_at m base s low (omega (arith, at.0, h.0)) (omega (arith, at.1, h.1)) in
    (omega (arith, at.0, h.0), sign, prefix)

strtol-parts :
    (fuel base s t num e : ℕ) (m : Memory)
    → skip_space fuel m s ≡ some t
    → (sign_at m t ≡ (false, t)) × (prefix_at m base t ≡ (base, t))
    → digits_from fuel m base t 0 ≡ some (num, e)
    → strtol fuel m s base ≡ some (num, e)
unfolding strtol
strtol-parts fuel base s t num e m space start read =
    ap (λ (r : Option ℕ). elim r [ none ↦ none | some a ↦ signed_at fuel m base (sign_at m a) ])
      space
    ∙ ap (λ r. signed_at fuel m base r) start.0
    ∙ ap (λ r. negated false (digits_at fuel m r)) start.1
    ∙ ap (λ r. negated false r) read

digits_stop : (k base s v : ℕ) (m : Memory) → m s ≡ 0 → digits_from (suc k) m base s v ≡ some (v, s)
unfolding digits_from digit_of
digits_stop k base s v m e = ground (arith, e)

-- In a base from 2 to 16 and any field that is padded with spaces, `strtol` with enough rounds reads
-- back the number of 32 bits that `printnum` printed, and all its characters.
pub strtol-printnum :
    (fuel num base width s : ℕ) (m : Memory)
    → 2 ≤ base
    → base ≤ 16
    → num < 2 ^ 32
    → Text m s (printnum most_digits num base width b' ')
    → length (printnum most_digits num base width b' ') < fuel
    → strtol fuel m s base ≡ some (num, s + length (printnum most_digits num base width b' '))
strtol-printnum fuel num base width s m low high small text enough =
    let ds = digits most_digits num base in
    let p = width - length ds in
    let whole = printnum-padded most_digits num base width b' ' in
    let count : length (printnum most_digits num base width b' ') ≡ p + length ds =
      ap length whole
      ∙ length-append (replicate p b' ') ds
      ∙ omega (arith, length-replicate {A = ℕ} p b' ') in
    let (chars, end) = Text-Holds m s _ text in
    let (pad, at) =
      Holds-append m s (replicate p b' ') ds (subst (λ xs. Holds m s xs) whole chars) in
    let at' : Holds m (s + p) ds =
      subst (λ n. Holds m (s + n) ds) (length-replicate {A = ℕ} p b' ') at in
    let end' : m (s + p + length ds) ≡ 0 = ap m (omega (arith, count)) ∙ end in
    let (first, sign, prefix) =
      no_prefix m base (s + p) ds low (digits-InDigits most_digits base num low high) at' end'
        (digits-pos most_digits num base) in
    strtol-parts fuel base s (s + p) num _ m
      (ap (λ n. skip_space n m s) (omega (arith, count))
        ∙ skip_space-spaces p (fuel - p - 1) m s pad first)
      (sign, prefix)
      (ap (λ n. digits_from n m base (s + p) 0) (omega (arith, count))
        ∙ Reads-digits most_digits base num (s + p) m low high small (omega arith) at'
            (suc (fuel - length ds - 1))
        ∙ digits_stop (fuel - length ds - 1) base (s + p + length ds) num m end'
        ∙ ap (λ n. some (num, n)) (omega (arith, count)))
