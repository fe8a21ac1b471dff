-- ===== src/User/Strings/Find.antt =====
-- `strfind` of oslab6/lib/string.c.
use operating_systems_lab.Base.{
  ℕ, zero, suc, ◌+◌, ◌<◌, ◌≤◌, ◌≡◌, ◌≢◌, ◌⊎◌, ◌==◌, ap, arith, Bool-cases, inl, inr, some,
}
use operating_systems_lab.User.Strings.{Memory, strfind}

-- `strfind` stops at the first character that is `c` or ends the string.
pub strfind-first :
    (fuel : ℕ) (m : Memory) (s c d : ℕ)
    → s ≤ d
    → d < s + fuel
    → m d ≡ 0
    → (e : ℕ) × (strfind fuel m s c ≡ some e)
      × (s ≤ e)
      × ((m e ≡ 0) ⊎ (m e ≡ c))
      × ((i : ℕ) → s ≤ i → i < e → (m i ≢ 0) × (m i ≢ c))
unfolding strfind
strfind-first zero m s c d from lt z = absurd (omega arith)
strfind-first (suc fuel) m s c d from lt z = elim (Bool-cases (m s == 0)) [
  | inl h ↦ (s, ground arith, omega arith, inl (ground arith), λ i x y. absurd (omega arith))
  | inr h ↦ elim (Bool-cases (m s == c)) [
    | inl g ↦ (s, ground arith, omega arith, inr (ground arith), λ i x y. absurd (omega arith))
    | inr g ↦
        let beyond : s ≢ d = λ q. ground (arith, ap m q) in
        let (e, r, le, stop, all) =
          strfind-first fuel m (s + 1) c d (omega arith) (omega arith) z in
        (
          e,
          rw (h, g) r,
          omega arith,
          stop,
          λ i x y. elim (Bool-cases (i == s)) [
            | inl q ↦ let same : i ≡ s = ground arith in rw same (ground arith, ground arith)
            | inr q ↦ all i (ground arith) y
          ],
        )
  ]
]
