-- ===== src/User/Strings/Compare.antt =====
-- What the string routines of oslab6/lib/string.c say of strings in memory.
use operating_systems_lab.Base.{ℕ, zero, suc, ◌+◌, ◌<◌, ◌≡◌, ◌↔◌, refl, ap, arith, ◌∙◌, min, length}
use operating_systems_lab.Base.{some, List, [], ◌∷◌}
use native.Mathlib.Decide.{ℕ_discrete}
use operating_systems_lab.User.Strings.{Memory, strlen_from, strlen, strnlen, strcmp, byte_diff}

-- The string `xs`, and a null after it, lie at `s`.
abbrev pub Text : Memory → ℕ → List ℕ → Type 0
Text m s [] = m s ≡ 0
Text m s (x ∷ xs) = (m s ≡ x) × ((0 < x) × (x < 256)) × Text m (s + 1) xs

strlen_from-Text :
    (fuel : ℕ) (m : Memory) (s n : ℕ) (xs : List ℕ)
    → Text m s xs
    → length xs < fuel
    → strlen_from fuel m s n ≡ some (n + length xs)
unfolding strlen_from
strlen_from-Text zero m s n xs h lt = absurd (omega arith)
strlen_from-Text (suc fuel) m s n [] h lt = ground (arith, h)
strlen_from-Text (suc fuel) m s n (x ∷ xs) h lt =
    let ih = strlen_from-Text fuel m (s + 1) (n + 1) xs h.2 (omega arith) in
    ground (arith, ih, h.0, h.1)

-- With as many rounds as the string has bytes and one more, `strlen` returns its length.
pub strlen-Text :
    (fuel : ℕ) (m : Memory) (s : ℕ) (xs : List ℕ)
    → Text m s xs
    → length xs < fuel
    → strlen fuel m s ≡ some (length xs)
unfolding strlen
strlen-Text fuel m s xs h lt = strlen_from-Text fuel m s 0 xs h lt ∙ ap some (omega arith)

-- `strnlen` is the length cut off at the size.
pub strnlen-Text :
    (size : ℕ) (m : Memory) (s : ℕ) (xs : List ℕ)
    → Text m s xs
    → strnlen m s size ≡ min size (length xs)
unfolding strnlen
strnlen-Text zero m s xs h = omega arith
strnlen-Text (suc size) m s [] h = ground (arith, h)
strnlen-Text (suc size) m s (x ∷ xs) h =
    let ih = strnlen-Text size m (s + 1) xs h.2 in ground (arith, ih, h.0, h.1)

-- `strcmp` returns on two strings, and 0 exactly if they are equal.
pub strcmp-Text :
    (fuel : ℕ) (m : Memory) (p q : ℕ) (xs ys : List ℕ)
    → Text m p xs
    → Text m q ys
    → length xs < fuel
    → (r : ℕ) × (strcmp fuel m p q ≡ some r) × ((r ≡ 0) ↔ (xs ≡ ys))
unfolding strcmp
strcmp-Text zero m p q xs ys hx hy lt = absurd (omega arith)
strcmp-Text (suc fuel) m p q [] [] hx hy lt = (0, ground (arith, hx, hy), (λ e. refl, λ e. refl))
strcmp-Text (suc fuel) m p q [] (y ∷ ys) hx hy lt = (
  byte_diff 0 y,
  ground (arith, hx, hy.0),
  (λ e. absurd (omega (arith, hy.1)), λ e. absurd (cc e)),
)
strcmp-Text (suc fuel) m p q (x ∷ xs) [] hx hy lt = (
  byte_diff x 0,
  ground (arith, hx.0, hx.1, hy),
  (λ e. absurd (omega (arith, hx.1)), λ e. absurd (cc e)),
)
strcmp-Text (suc fuel) m p q (x ∷ xs) (y ∷ ys) hx hy lt = elim (ℕ_discrete x y) [
  | yes e ↦
      let (r, run, iff) = strcmp-Text fuel m (p + 1) (q + 1) xs ys hx.2 hy.2 (omega arith) in
      (
        r,
        ground (arith, run, hx.0, hx.1, hy.0, e),
        (λ z. ap (λ h. h ∷ xs) e ∙ ap (λ t. y ∷ t) (iff.0 z), λ z. iff.1 (cc z)),
      )
  | no ne ↦ (
    byte_diff x y,
    ground (arith, hx.0, hx.1, hy.0, ne),
    (λ z. absurd (ne (omega (arith, hx.1, hy.1))), λ z. absurd (ne (cc z))),
  )
]
