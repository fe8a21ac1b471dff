-- ===== src/Kern/Debug/Finds.antt =====
-- The loops of `stab_binsearch` of oslab6/kern/kdebug.c over stabs of one type.
use operating_systems_lab.Base.{
  ℕ, zero, suc, ◌<◌, ◌≤◌, ◌≡◌, ◌==◌, refl, arith, ltb, if◌then◌else◌, true, false, none, some, ◌&&◌,
  not, Bool-cases, inl, inr, Option, Bool,
}
use operating_systems_lab.Kern.Debug.{Stab, of_type, last_match, rightmost}

-- Between `l` and `n`, `m` is the last stab of the type, or there is none.
pub data IsLast (stabs : ℕ → Stab) (type l n : ℕ) : Option ℕ → Type 0 where
  no_match : ((i : ℕ) → l ≤ i → i < n → of_type stabs type i ≡ false) → IsLast stabs type l n none
  match_at :
      (m : ℕ)
      → l ≤ m
      → m < n
      → of_type stabs type m ≡ true
      → ((i : ℕ) → m < i → i < n → of_type stabs type i ≡ false)
      → IsLast stabs type l n (some m)

module _ (stabs : ℕ → Stab) (type : ℕ) where
  one_more :
      (m l i : ℕ)
      → l ≤ i
      → i < suc m
      → of_type stabs type m ≡ false
      → (i < m → of_type stabs type i ≡ false)
      → of_type stabs type i ≡ false
  one_more m l i a b here below = elim (Bool-cases (i == m)) [
    | inl e ↦ let same : i ≡ m = ground arith in rw same here
    | inr e ↦ below (ground arith)
  ]

  pub last_match-IsLast : (l n : ℕ) → IsLast stabs type l n (last_match stabs type l n)
  unfolding last_match
  last_match-IsLast l zero = no_match (λ i a b. absurd (omega arith))
  last_match-IsLast l (suc m) =
      let ih = last_match-IsLast l m in
      elim (Bool-cases (ltb m l)) [
        | inl e ↦ rw e (no_match (λ i a b. absurd (ground arith)))
        | inr e ↦ elim (Bool-cases (of_type stabs type m)) [
          | inl h ↦
              rw (e, h) (match_at m (ground arith) (omega arith) h (λ i a b. absurd (omega arith)))
          | inr h ↦ rw (e, h) (add_one l m h ih)
        ]
      ]
    where
      add_one :
          (l m : ℕ) {r : Option ℕ}
          → of_type stabs type m ≡ false
          → IsLast stabs type l m r
          → IsLast stabs type l (suc m) r
      add_one l m h (no_match all) = no_match (λ i a b. one_more m l i a b h (λ lt. all i a lt))
      add_one l m h (match_at p a b t all) =
          match_at p a (omega arith) t
            (λ i c d. one_more m (suc p) i (omega arith) d h (λ lt. all i c lt))

  -- The last loop stops at the last stab of the type, if there is one.
  pub rightmost-last :
      (left n p : ℕ)
      → left ≤ p
      → p < n
      → of_type stabs type p ≡ true
      → ((i : ℕ) → p < i → i < n → of_type stabs type i ≡ false)
      → rightmost stabs type left n ≡ suc p
  unfolding rightmost
  rightmost-last left zero p a b t all = absurd (omega arith)
  rightmost-last left (suc l) p a b t all = elim (Bool-cases (l == p)) [
    | inl e ↦
        let same : l ≡ p = ground arith in
        rw same (rw t (at_left (ltb left p) (rightmost stabs type left p) p))
    | inr e ↦
        let below : p < l = ground arith in
        let more : (ltb left l && not (of_type stabs type l)) ≡ true =
          ground (arith, all l below (omega arith)) in
        rw more (rightmost-last left l p a below t (λ i c d. all i c (omega arith)))
  ]
    where
      at_left : (b : Bool) (x p : ℕ) → (if b && false then x else suc p) ≡ suc p
      at_left true x p = refl
      at_left false x p = refl
