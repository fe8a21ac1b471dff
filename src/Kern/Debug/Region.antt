-- ===== src/Kern/Debug/Region.antt =====
-- What `stab_binsearch` of oslab6/kern/kdebug.c finds.
use operating_systems_lab.Base.{
  ℕ, suc, ◌+◌, ◌-◌, ◌*◌, ◌/◌, ◌^◌, ◌<◌, ◌≤◌, ◌≡◌, ◌≢◌, ◌==◌, ◌⊎◌, refl, arith, ltb, true, false,
  Bool-cases, inl, inr,
}
use operating_systems_lab.Kern.Debug.{Stab, Search, of_type}

abbrev pub value : (ℕ → Stab) → ℕ → ℕ
value stabs i = (stabs i).n_value

-- The stabs of the type from `left` on, before `n`, are in order of their values, and none has the
-- value after `addr`.
pub record IsTable (stabs : ℕ → Stab) (type left n addr : ℕ) : Type 0 where
  pub in_order :
      (i j : ℕ)
      → left ≤ i
      → i < j
      → j < n
      → of_type stabs type i ≡ true
      → of_type stabs type j ≡ true
      → value stabs i ≤ value stabs j
  pub not_next : (i : ℕ) → left ≤ i → i < n → of_type stabs type i ≡ true → value stabs i ≢ addr + 1
  pub word : addr + 1 < 2 ^ 32

-- What holds before each round.
pub record Inv (stabs : ℕ → Stab) (type left n addr : ℕ) (s : Search) : Type 0 where
  pub addr_ge : addr ≤ s.addr
  pub addr_le : s.addr ≤ addr + 1
  pub same_end : s.right_end ≡ s.r_end
  pub l_ge : left ≤ s.l
  pub end_le : s.r_end ≤ n
  pub left_ok :
      (s.region_left ≡ left)
      ⊎ ((left ≤ s.region_left)
          × (s.region_left < n)
          × (of_type stabs type s.region_left ≡ true)
          × (value stabs s.region_left ≤ addr))
  pub end_ok : (s.r_end ≡ n) ⊎ ((of_type stabs type s.r_end ≡ true) × (addr < value stabs s.r_end))
  pub before : (i : ℕ) → left ≤ i → i < s.l → of_type stabs type i ≡ true → value stabs i ≤ addr
  pub after : (i : ℕ) → s.r_end ≤ i → i < n → of_type stabs type i ≡ true → addr < value stabs i
  pub unmatched :
      s.any_matches ≡ false
      → (s.r_end ≡ n) × ((i : ℕ) → left ≤ i → i < s.l → of_type stabs type i ≡ false)

-- Each round makes this smaller.
abbrev pub measure : ℕ → Search → ℕ
measure addr s = 2 * (s.r_end - s.l) + (addr + 1 - s.addr)

module _ (stabs : ℕ → Stab) (type left n addr : ℕ) (table : IsTable stabs type left n addr) where
  module _ (s : Search) (inv : Inv stabs type left n addr s) (go : s.l < s.r_end) where
    abbrev pub mid : ℕ
    mid = (s.l + (s.r_end - 1)) / 2

    pub mid_ge : s.l ≤ mid
    mid_ge = omega arith

    pub mid_lt : mid < s.r_end
    mid_lt = omega arith

    -- No stab of the type in the lower half.
    module _ (all : (i : ℕ) → s.l ≤ i → i < mid + 1 → of_type stabs type i ≡ false) where
      skip_before :
          (i : ℕ) → left ≤ i → i < mid + 1 → of_type stabs type i ≡ true → value stabs i ≤ addr
      skip_before i a b t = elim (Bool-cases (ltb i s.l)) [
        | inl e ↦ inv.before i a (ground arith) t
        | inr e ↦ absurd (ground (arith, all i))
      ]

      skip_unmatched :
          s.any_matches ≡ false
          → (s.r_end ≡ n) × ((i : ℕ) → left ≤ i → i < mid + 1 → of_type stabs type i ≡ false)
      skip_unmatched h = (
        (inv.unmatched h).0,
        λ i a b. elim (Bool-cases (ltb i s.l)) [
          | inl e ↦ (inv.unmatched h).1 i a (ground arith)
          | inr e ↦ all i (ground arith) b
        ],
      )

      pub skip-Inv : Inv stabs type left n addr (record s { l = mid + 1 })
      skip-Inv =
          let ge = inv.l_ge in
          record {
            addr_ge = inv.addr_ge;
            addr_le = inv.addr_le;
            same_end = inv.same_end;
            l_ge = omega arith;
            end_le = inv.end_le;
            left_ok = inv.left_ok;
            end_ok = inv.end_ok;
            before = skip_before;
            after = inv.after;
            unmatched = skip_unmatched;
          }

    -- A stab `m` of the type, and none after it in the lower half.
    module _ (m : ℕ) (from : s.l ≤ m) (to : m < mid + 1) (here : of_type stabs type m ≡ true)
        (all : (i : ℕ) → m < i → i < mid + 1 → of_type stabs type i ≡ false) where
      pub m_in : (left ≤ m) × (m < n)
      m_in = let a = inv.l_ge in let b = inv.end_le in let c = mid_lt in omega arith

      -- Those up to `m` are not above a bound on the value of `m`.
      up_to :
          value stabs m ≤ addr
          → (i : ℕ) → left ≤ i
          → i < suc m
          → of_type stabs type i ≡ true
          → value stabs i ≤ addr
      up_to le i a b t = elim (Bool-cases (i == m)) [
        | inl e ↦ let same : i ≡ m = ground arith in rw same le
        | inr e ↦
            let lt : i < m = ground arith in
            let o = table.in_order i m a lt m_in.1 t here in omega arith
      ]

      lower_before :
          value stabs m ≤ addr
          → (i : ℕ) → left ≤ i
          → i < mid + 1
          → of_type stabs type i ≡ true
          → value stabs i ≤ addr
      lower_before le i a b t = elim (Bool-cases (ltb m i)) [
        | inl e ↦ absurd (ground (arith, all i))
        | inr e ↦ up_to le i a (ground arith) t
      ]

      pub lower-Inv :
          value stabs m ≤ addr
          → Inv stabs type left n addr
              (record s { region_left = m; l = mid + 1; any_matches = true })
      lower-Inv le =
          let ge = inv.l_ge in
          let w = m_in in
          record {
            addr_ge = inv.addr_ge;
            addr_le = inv.addr_le;
            same_end = inv.same_end;
            l_ge = omega arith;
            end_le = inv.end_le;
            left_ok = inr (w.0, w.1, here, le);
            end_ok = inv.end_ok;
            before = lower_before le;
            after = inv.after;
            unmatched = λ h. absurd (ground (arith, h));
          }

      upper_after :
          addr < value stabs m
          → (i : ℕ) → m ≤ i
          → i < n
          → of_type stabs type i ≡ true
          → addr < value stabs i
      upper_after lt i a b t = elim (Bool-cases (i == m)) [
        | inl e ↦ let same : i ≡ m = ground arith in rw same lt
        | inr e ↦ let o = table.in_order m i m_in.0 (ground arith) b here t in omega arith
      ]

      pub upper-Inv :
          addr < value stabs m
          → Inv stabs type left n addr (record s { right_end = m; r_end = m; any_matches = true })
      upper-Inv lt =
          let w = m_in in
          record {
            addr_ge = inv.addr_ge;
            addr_le = inv.addr_le;
            same_end = refl;
            l_ge = inv.l_ge;
            end_le = omega arith;
            left_ok = inv.left_ok;
            end_ok = inr (here, lt);
            before = inv.before;
            after = upper_after lt;
            unmatched = λ h. absurd (ground (arith, h));
          }

      pub exact-Inv :
          value stabs m ≡ addr
          → Inv stabs type left n addr
              (record s { region_left = m; l = m; addr = addr + 1; any_matches = true })
      exact-Inv e =
          let w = m_in in
          let le : value stabs m ≤ addr = omega arith in
          record {
            addr_ge = omega arith;
            addr_le = omega arith;
            same_end = inv.same_end;
            l_ge = w.0;
            end_le = inv.end_le;
            left_ok = inr (w.0, w.1, here, le);
            end_ok = inv.end_ok;
            before = λ i a b t. up_to le i a (omega arith) t;
            after = inv.after;
            unmatched = λ h. absurd (ground (arith, h));
          }
