-- ===== src/Kern/Debug/Contains.antt =====
-- `stab_binsearch` of oslab6/kern/kdebug.c returns the stab that contains an address.
use operating_systems_lab.Base.{
  ℕ, zero, suc, ◌+◌, ◌-◌, ◌*◌, ◌<◌, ◌≤◌, ◌≡◌, ◌≢◌, ◌⊎◌, refl, arith, ltb, true, false, Bool-cases,
  inl, inr, Option,
}
use operating_systems_lab.Kern.State.{u32}
use operating_systems_lab.Kern.Debug.{
  Stab, Search, of_type, rightmost, narrow, round, search_from, region, stab_binsearch,
}
use operating_systems_lab.Kern.Debug.Finds.{
  IsLast, no_match, match_at, last_match-IsLast, rightmost-last,
}
use operating_systems_lab.Kern.Debug.Region.{
  value, IsTable, Inv, measure, mid, mid_ge, mid_lt, skip-Inv, lower-Inv, upper-Inv, exact-Inv,
}

-- The stab at `p` is the last one of the type whose value is not above `addr`, and `e` is where the
-- next one is, or the end.
pub record Contains (stabs : ℕ → Stab) (type left n addr p e : ℕ) : Type 0 where
  pub in_range : (left ≤ p) × (p < e) × (e ≤ n)
  pub right_type : of_type stabs type p ≡ true
  pub starts : value stabs p ≤ addr
  pub none_between : (i : ℕ) → p < i → i < e → of_type stabs type i ≡ false
  pub ends : (e ≡ n) ⊎ ((of_type stabs type e ≡ true) × (addr < value stabs e))
  pub all_above : (i : ℕ) → e ≤ i → i < n → of_type stabs type i ≡ true → addr < value stabs i

module _ (stabs : ℕ → Stab) (type left n addr : ℕ) (table : IsTable stabs type left n addr) where
  -- A round keeps the invariant and makes the measure smaller.
  abbrev Better : Search → Search → Type 0
  Better s s' = Inv stabs type left n addr s' × (measure addr s' < measure addr s)

  module _ (s : Search) (inv : Inv stabs type left n addr s) (go : s.l < s.r_end) where
    abbrev half : ℕ
    half = mid stabs type left n addr table s inv go

    narrow-Better :
        {r : Option ℕ} → IsLast stabs type s.l (half + 1) r → Better s (narrow stabs type half r s)
    unfolding narrow
    narrow-Better (no_match all) =
        let a = mid_ge stabs type left n addr table s inv go in
        let b = mid_lt stabs type left n addr table s inv go in
        (skip-Inv stabs type left n addr table s inv go all, omega arith)
    narrow-Better (match_at m from to here all) =
        let a = mid_ge stabs type left n addr table s inv go in
        let b = mid_lt stabs type left n addr table s inv go in
        let le = inv.addr_le in
        let ge = inv.addr_ge in
        let next : value stabs m ≢ addr + 1 =
          table.not_next m (let c = inv.l_ge in omega arith) (let c = inv.end_le in omega arith)
            here in
        elim (Bool-cases (ltb (stabs m).n_value s.addr)) [
          | inl below ↦
              let low : value stabs m ≤ addr = ground arith in
              rw below (
                lower-Inv stabs type left n addr table s inv go m from to here all low,
                omega arith,
              )
          | inr not_below ↦ elim (Bool-cases (ltb s.addr (stabs m).n_value)) [
            | inl above ↦
                let high : addr < value stabs m = ground arith in
                rw (not_below, above)
                  (
                    upper-Inv stabs type left n addr table s inv go m from to here all high,
                    omega arith,
                  )
            | inr not_above ↦
                let equal : value stabs m ≡ s.addr = ground arith in
                let found : value stabs m ≡ addr = omega arith in
                let w = table.word in
                let next_addr : u32 (s.addr + 1) ≡ addr + 1 = omega arith in
                rw (not_below, not_above, next_addr)
                  (
                    exact-Inv stabs type left n addr table s inv go m from to here all found,
                    omega arith,
                  )
          ]
        ]

    round-Better : Better s (round stabs type s)
    unfolding round
    round-Better = narrow-Better (last_match-IsLast stabs type s.l (half + 1))

  -- With enough rounds the loop ends by its test.
  search_from-Inv :
      (fuel : ℕ) (s : Search)
      → Inv stabs type left n addr s
      → measure addr s < fuel
      → Inv stabs type left n addr (search_from stabs type fuel s)
        × ((search_from stabs type fuel s).r_end ≤ (search_from stabs type fuel s).l)
  unfolding search_from
  search_from-Inv zero s inv lt = absurd (omega arith)
  search_from-Inv (suc fuel) s inv lt = elim (Bool-cases (ltb s.l s.r_end)) [
    | inl e ↦
        let (inv', less) = round-Better s inv (ground arith) in
        rw e (search_from-Inv fuel (round stabs type s) inv' (omega arith))
    | inr e ↦ rw e (inv, ground arith)
  ]

  module _ (s : Search) (inv : Inv stabs type left n addr s) (over : s.r_end ≤ s.l) (w : ℕ)
      (from : left ≤ w) (to : w < n) (here : of_type stabs type w ≡ true)
      (low : value stabs w ≤ addr) where
    -- A stab that does not start after `addr` lies before the end.
    before_end : (i : ℕ) → i < n → of_type stabs type i ≡ true → value stabs i ≤ addr → i < s.r_end
    before_end i lt t le = elim (Bool-cases (ltb i s.r_end)) [
      | inl e ↦ ground arith
      | inr e ↦ absurd (let h = inv.after i (ground arith) lt t in omega arith)
    ]

    some_matched : s.any_matches ≡ true
    some_matched = elim (Bool-cases s.any_matches) [
      | inl e ↦ e
      | inr e ↦
          let b = before_end w to here low in
          absurd (ground (arith, (inv.unmatched e).1 w from (omega arith)))
    ]

    left_le :
        (p : ℕ)
        → left ≤ p
        → ((i : ℕ) → p < i → i < s.r_end → of_type stabs type i ≡ false)
        → s.region_left ≤ p
    left_le p a all = elim inv.left_ok [
      | inl e ↦ omega arith
      | inr h ↦ elim (Bool-cases (ltb p s.region_left)) [
        | inl lt ↦
            let b = before_end s.region_left h.1 h.2 h.3 in
            absurd (ground (arith, all s.region_left, h.2))
        | inr ge ↦ ground arith
      ]
    ]

    found :
        {r : Option ℕ}
        → IsLast stabs type left s.r_end r
        → (p : ℕ) × (e : ℕ) × (region stabs type s ≡ (suc p, e))
          × Contains stabs type left n addr p e
    unfolding region
    found (no_match all) = absurd (let b = before_end w to here low in ground (arith, all w))
    found (match_at p a b t all) =
        let se = inv.same_end in
        let stop : rightmost stabs type s.region_left s.r_end ≡ suc p =
          rightmost-last stabs type s.region_left s.r_end p (left_le p a all) b t all in
        (
          p,
          s.r_end,
          rw (some_matched, se, stop) refl,
          record {
            in_range = (a, b, inv.end_le);
            right_type = t;
            starts = inv.before p a (omega arith) t;
            none_between = all;
            ends = inv.end_ok;
            all_above = inv.after;
          },
        )

  start-Inv :
      left ≤ n
      → Inv stabs type left n addr (record {
        region_left = left;
        right_end = n;
        l = left;
        r_end = n;
        addr = addr;
        any_matches = false;
      })
  start-Inv le = record {
    addr_ge = omega arith;
    addr_le = omega arith;
    same_end = refl;
    l_ge = omega arith;
    end_le = omega arith;
    left_ok = inl refl;
    end_ok = inl refl;
    before = λ i a b t. absurd (omega arith);
    after = λ i a b t. absurd (omega arith);
    unmatched = λ h. (refl, λ i a b. absurd (omega arith));
  }

  -- In a table whose stabs of the type are in order, and none of which has the value `addr + 1`,
  -- where some stab of the type does not start after `addr`, `stab_binsearch` with the rounds that it
  -- is given returns the last such stab, and the end at which the next stab of the type starts.
  pub stab_binsearch-Contains :
      (w : ℕ)
      → left ≤ w
      → w < n
      → of_type stabs type w ≡ true
      → value stabs w ≤ addr
      → (p : ℕ) × (e : ℕ) × (stab_binsearch stabs type left n addr ≡ (suc p, e))
        × Contains stabs type left n addr p e
  unfolding stab_binsearch
  stab_binsearch-Contains w from to here low =
      let s : Search = record {
        region_left = left;
        right_end = n;
        l = left;
        r_end = n;
        addr = addr;
        any_matches = false;
      } in
      let (inv, over) =
        search_from-Inv (2 * (n - left) + 2) s (start-Inv (omega arith)) (omega arith) in
      found (search_from stabs type (2 * (n - left) + 2) s) inv over w from to here low
        (last_match-IsLast stabs type left (search_from stabs type (2 * (n - left) + 2) s).r_end)
