-- ===== src/User/Format/Digits.antt =====
-- `printnum` of oslab6/lib/printfmt.c against `strtol` of oslab6/lib/string.c.
use operating_systems_lab.Base.{
  ℕ, zero, suc, ◌+◌, ◌-◌, ◌*◌, ◌/◌, ◌%◌, ◌^◌, ◌<◌, ◌≤◌, ◌≡◌, refl, sym, ap, ◌∙◌, arith, leb, max,
  length, length-append, replicate, Bool-cases, inl, inr,
}
use mathlib.Core.Path.{subst}
use native.Mathlib.Nat.{pow-suc}
use native.Mathlib.Decide.{dec_lt}
use mathlib.Core.List.{append_assoc}
use operating_systems_lab.Base.{some, List, [], ◌∷◌, ◌++◌, true, false}
use operating_systems_lab.User.Strings.{Memory, digit_of, digits_from}
use operating_systems_lab.User.Format.{digit, printnum}

-- The digits of a number, without a field.
abbrev pub digits : ℕ → ℕ → ℕ → List ℕ
digits fuel num base = printnum fuel num base 0 b' '

pub length-replicate {ℓ} : {A : Type ℓ} (n : ℕ) (x : A) → length (replicate n x) ≡ n
length-replicate zero x = omega arith
length-replicate (suc n) x = omega (arith, length-replicate n x)

-- A number in a field is its digits, with pad characters in front up to the width.
pub printnum-padded :
    (fuel num base width padc : ℕ)
    → printnum fuel num base width padc
      ≡ replicate (width - length (digits fuel num base)) padc ++ digits fuel num base
unfolding printnum
printnum-padded zero num base width padc = refl
printnum-padded (suc fuel) num base width padc = elim (Bool-cases (leb base num)) [
  | inl more ↦ rw more (
      let front = digits fuel (num / base) base in
      let last = digit (num % base) ∷ [] in
      let same_pad : width - 1 - length front ≡ width - length (front ++ last) =
        omega (arith, length-append {0} front last) in
      ap (λ l. l ++ last) (printnum-padded fuel (num / base) base (width - 1) padc)
      ∙ append_assoc (replicate (width - 1 - length front) padc) front last
      ∙ ap (λ n. replicate n padc ++ (front ++ last)) same_pad)
  | inr last ↦ rw last refl
]

-- The number of characters is the width or the number of digits, whichever is more.
pub length-printnum :
    (fuel num base width padc : ℕ)
    → length (printnum fuel num base width padc) ≡ max width (length (digits fuel num base))
length-printnum fuel num base width padc =
    let pad = width - length (digits fuel num base) in
    ap length (printnum-padded fuel num base width padc)
    ∙ length-append (replicate pad padc) (digits fuel num base)
    ∙ omega (arith, length-replicate pad padc)

-- The characters `xs` lie at `s`.
abbrev pub Holds : Memory → ℕ → List ℕ → Type 0
Holds m s [] = Unit
Holds m s (x ∷ xs) = (m s ≡ x) × Holds m (s + 1) xs

plus_none : (s : ℕ) → s ≡ s + 0
plus_none s = omega arith

pub Holds-append :
    (m : Memory) (s : ℕ) (xs ys : List ℕ)
    → Holds m s (xs ++ ys)
    → Holds m s xs × Holds m (s + length xs) ys
Holds-append m s [] ys h = (tt, subst (λ a. Holds m a ys) (plus_none s) h)
Holds-append m s (x ∷ xs) ys h =
    let (front, back) = Holds-append m (s + 1) xs ys h.1 in
    let shift : s + 1 + length xs ≡ s + suc (length xs) = omega arith in
    ((h.0, front), subst (λ a. Holds m a ys) shift back)

digit_of-digit : (d : ℕ) → d < 16 → digit_of (digit d) ≡ some d
unfolding digit_of
digit_of-digit d h = ground arith

digits_round :
    (k base dig s v : ℕ) (m : Memory)
    → digit_of (m s) ≡ some dig
    → dig < base
    → digits_from (suc k) m base s v ≡ digits_from k m base (s + 1) ((v * base + dig) % 2 ^ 32)
unfolding digits_from
digits_round k base dig s v m e lt = ground (arith, e)

-- The loop reads the characters `xs` at `s` as the number `num`.
abbrev pub Reads : Memory → ℕ → ℕ → List ℕ → ℕ → Type 0
Reads m base s xs num =
    (k : ℕ) → digits_from (length xs + k) m base s 0 ≡ digits_from k m base (s + length xs) num

digit_value :
    (base num : ℕ) → 2 ≤ base → num < 2 ^ 32 → (num / base * base + num % base) % 2 ^ 32 ≡ num
digit_value base num low small = grind arith

-- A round at the last digit of `num`, after those before it.
last_digit :
    (k base num s : ℕ) (m : Memory)
    → 2 ≤ base
    → base ≤ 16
    → num < 2 ^ 32
    → m s ≡ digit (num % base)
    → digits_from (suc k) m base s (num / base) ≡ digits_from k m base (s + 1) num
last_digit k base num s m low high small at =
    let d_lt : num % base < base = grind arith in
    digits_round k base (num % base) s (num / base) m
      (ap digit_of at ∙ digit_of-digit (num % base) (omega arith)) d_lt
    ∙ ap (λ v. digits_from k m base (s + 1) v) (digit_value base num low small)

Reads-one :
    (base num s : ℕ) (m : Memory)
    → 2 ≤ base
    → base ≤ 16
    → num < 2 ^ 32
    → num < base
    → m s ≡ digit (num % base)
    → Reads m base s (digit (num % base) ∷ []) num
Reads-one base num s m low high small lt at k =
    let front : 0 ≡ num / base = grind arith in
    let count : 1 + k ≡ suc k = omega arith in
    ap (λ n. digits_from n m base s 0) count
    ∙ ap (λ v. digits_from (suc k) m base s v) front
    ∙ last_digit k base num s m low high small at

Reads-more :
    (base num s : ℕ) (m : Memory) (front : List ℕ)
    → 2 ≤ base
    → base ≤ 16
    → num < 2 ^ 32
    → Reads m base s front (num / base)
    → m (s + length front) ≡ digit (num % base)
    → Reads m base s (front ++ digit (num % base) ∷ []) num
Reads-more base num s m front low high small reads at k =
    let count : length (front ++ digit (num % base) ∷ []) + k ≡ length front + suc k =
      omega (arith, length-append {0} front (digit (num % base) ∷ [])) in
    let place : s + length front + 1 ≡ s + length (front ++ digit (num % base) ∷ []) =
      omega (arith, length-append {0} front (digit (num % base) ∷ [])) in
    ap (λ n. digits_from n m base s 0) count
    ∙ reads (suc k)
    ∙ last_digit k base num (s + length front) m low high small at
    ∙ ap (λ a. digits_from k m base a num) place

digits-last : (fuel num base : ℕ) → num < base → digits fuel num base ≡ digit (num % base) ∷ []
unfolding printnum
digits-last zero num base lt = refl
digits-last (suc fuel) num base lt = let e : leb base num ≡ false = ground arith in rw e refl

digits-more :
    (fuel num base : ℕ)
    → base ≤ num
    → digits (suc fuel) num base ≡ digits fuel (num / base) base ++ digit (num % base) ∷ []
unfolding printnum
digits-more fuel num base le = let e : leb base num ≡ true = ground arith in rw e refl

double : (fuel : ℕ) → 2 ^ suc fuel ≡ 2 * 2 ^ fuel
double fuel = simp (pow-suc) (omega arith)

twice-div-le : (base num : ℕ) → 2 ≤ base → num / base * 2 ≤ num
twice-div-le base num low = grind arith

div-lt-half : (fuel base num : ℕ) → 2 ≤ base → num < 2 ^ suc fuel → num / base < 2 ^ fuel
div-lt-half fuel base num low few = omega (arith, twice-div-le base num low, double fuel)

pub Reads-digits :
    (fuel base num s : ℕ) (m : Memory)
    → 2 ≤ base
    → base ≤ 16
    → num < 2 ^ 32
    → num < 2 ^ suc fuel
    → Holds m s (digits fuel num base)
    → Reads m base s (digits fuel num base) num
Reads-digits zero base num s m low high small few h =
    let lt : num < base = omega arith in
    let e = digits-last 0 num base lt in
    subst (λ xs. Reads m base s xs num) (sym e)
      (Reads-one base num s m low high small lt (subst (λ xs. Holds m s xs) e h).0)
Reads-digits (suc fuel) base num s m low high small few h = elim (dec_lt num base) [
  | yes lt ↦
      let e = digits-last (suc fuel) num base lt in
      subst (λ xs. Reads m base s xs num) (sym e)
        (Reads-one base num s m low high small lt (subst (λ xs. Holds m s xs) e h).0)
  | no ge ↦
      let e = digits-more fuel num base (ground arith) in
      let (front, back) =
        Holds-append m s (digits fuel (num / base) base) (digit (num % base) ∷ [])
          (subst (λ xs. Holds m s xs) e h) in
      subst (λ xs. Reads m base s xs num) (sym e)
        (Reads-more base num s m (digits fuel (num / base) base) low high small
          (Reads-digits fuel base (num / base) s m low high (grind arith)
            (div-lt-half (suc fuel) base num low few) front)
          back.0)
]
