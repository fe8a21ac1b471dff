-- ===== src/Kern/Debug/Parts.antt =====
-- The searches and loops of `debuginfo_eip` of oslab6/kern/kdebug.c.
use operating_systems_lab.Base.{
  ℕ, zero, suc, ◌+◌, ◌-◌, ◌<◌, ◌≤◌, ◌≡◌, ◌≢◌, ◌⊎◌, ◌==◌, refl, sym, ap, ◌∙◌, arith, ltb, leb, true,
  false, Bool-cases, inl, inr, Option, none, some,
}
use mathlib.Core.Path.{subst}
use operating_systems_lab.Kern.Debug.{Stab, of_type, stab_binsearch}
use operating_systems_lab.Kern.Debug.Region.{value, IsTable}
use operating_systems_lab.Kern.Debug.Contains.{Contains, stab_binsearch-Contains}
use operating_systems_lab.Kern.Debug.Info.{
  n_psym, Tables, bad_strings, name_at, name_length, source_name, names_source, count_args, narg,
}
use operating_systems_lab.User.Strings.Find.{strfind-first}

module _ (stabs : ℕ → Stab) (type left n addr : ℕ) where
  -- A stab of the type that does not start after the address is not after the one that contains it.
  last_one :
      (p e w : ℕ)
      → Contains stabs type left n addr p e
      → w < n
      → of_type stabs type w ≡ true
      → value stabs w ≤ addr
      → w ≤ p
  last_one p e w c lt here low = elim (Bool-cases (leb w p)) [
    | inl a ↦ ground arith
    | inr a ↦ elim (Bool-cases (ltb w e)) [
      | inl b ↦ absurd (ground (arith, here, c.none_between w (ground arith) (ground arith)))
      | inr b ↦ absurd (let h = c.all_above w (ground arith) lt here in omega arith)
    ]
  ]

  same_end_le :
      (p e e' : ℕ)
      → Contains stabs type left n addr p e
      → Contains stabs type left n addr p e'
      → e' ≤ e
  same_end_le p e e' c d = elim (Bool-cases (leb e' e)) [
    | inl a ↦ ground arith
    | inr a ↦
        let below : e < e' = ground arith in
        let (x, y, z) = d.in_range in
        let (x', y', z') = c.in_range in
        elim c.ends [
          | inl q ↦ absurd (omega arith)
          | inr h ↦ absurd (ground (arith, h.0, d.none_between e y' below))
        ]
  ]

  -- Only one stab contains an address, and `stab_binsearch` returns it.
  pub search_returns :
      (p e : ℕ)
      → IsTable stabs type left n addr
      → Contains stabs type left n addr p e
      → stab_binsearch stabs type left n addr ≡ (suc p, e)
  search_returns p e table c =
      let (a, b, d) = c.in_range in
      let (p', e', runs, c') =
        stab_binsearch-Contains stabs type left n addr table p a (omega arith) c.right_type
          c.starts in
      let (a', b', d') = c'.in_range in
      let one = last_one p e p' c (omega arith) c'.right_type c'.starts in
      let two = last_one p' e' p c' (omega arith) c.right_type c.starts in
      let same : p' ≡ p = omega arith in
      let c2 : Contains stabs type left n addr p e' =
        subst (λ q. Contains stabs type left n addr q e') same c' in
      let three = same_end_le p e e' c c2 in
      let four = same_end_le p e' e c2 c in
      let same_end : e' ≡ e = omega arith in
      runs ∙ ap (λ v. (suc v, e')) same ∙ ap (λ v. (suc p, v)) same_end

-- `n` arguments in a row after the stab `l - 1`, before the stab `last`.
pub record AreArgs (t : Tables) (l last n : ℕ) : Type 0 where
  pub fit : (n ≡ 0) ⊎ (l + n ≤ last)
  pub all_args : (i : ℕ) → i < n → of_type t.stabs n_psym (l + i) ≡ true
  pub no_more : (last ≤ l + n) ⊎ (of_type t.stabs n_psym (l + n) ≡ false)

module _ (t : Tables) where
  more_args :
      (n l k : ℕ)
      → of_type t.stabs n_psym l ≡ true
      → AreArgs t (l + 1) (l + 1 + n) k
      → AreArgs t l (l + suc n) (suc k)
  more_args n l k h args = record {
    fit = elim args.fit [ inl a ↦ inr (omega arith) | inr a ↦ inr (omega arith) ];
    all_args = λ i a. elim (Bool-cases (i == 0)) [
      | inl q ↦ let same : l + i ≡ l = ground arith in ap (of_type t.stabs n_psym) same ∙ h
      | inr q ↦
          let same : l + i ≡ l + 1 + (i - 1) = ground arith in
          ap (of_type t.stabs n_psym) same ∙ args.all_args (i - 1) (ground arith)
    ];
    no_more = elim args.no_more [
      | inl a ↦ inl (omega arith)
      | inr a ↦
          let same : l + suc k ≡ l + 1 + k = omega arith in
          inr (ap (of_type t.stabs n_psym) same ∙ a)
    ];
  }

  count_args-AreArgs : (n l : ℕ) → AreArgs t l (l + n) (count_args t n l)
  unfolding count_args
  count_args-AreArgs zero l = record {
    fit = inl refl;
    all_args = λ i a. absurd (omega arith);
    no_more = inl (omega arith);
  }
  count_args-AreArgs (suc n) l = elim (Bool-cases (of_type t.stabs n_psym l)) [
    | inl h ↦ rw h (more_args n l (count_args t n (l + 1)) h (count_args-AreArgs n (l + 1)))
    | inr h ↦ rw h (record {
      fit = inl refl;
      all_args = λ i a. absurd (omega arith);
      no_more = inr (ground (arith, h));
    })
  ]

  pub narg-AreArgs : (lfun e : ℕ) → AreArgs t (lfun + 1) (e - 1) (narg t lfun e)
  unfolding narg
  narg-AreArgs lfun e = elim (Bool-cases (ltb (lfun + 1) e)) [
    | inl h ↦
        let last : lfun + 1 + (e - 1 - (lfun + 1)) ≡ e - 1 = ground arith in
        rw h (
          subst (λ q. AreArgs t (lfun + 1) q (count_args t (e - 1 - (lfun + 1)) (lfun + 1))) last
            (count_args-AreArgs (e - 1 - (lfun + 1)) (lfun + 1)))
    | inr h ↦ rw h (record {
      fit = inl refl;
      all_args = λ i a. absurd (omega arith);
      no_more = inl (ground arith);
    })
  ]

  -- The name at `x` has `len` characters: then the string ends, or there is a colon.
  pub record IsName (x len : ℕ) : Type 0 where
    pub stops : (t.stabstr (x + len) ≡ 0) ⊎ (t.stabstr (x + len) ≡ 58)
    pub inside : (i : ℕ) → i < len → (t.stabstr (x + i) ≢ 0) × (t.stabstr (x + i) ≢ 58)

  pub name_length-IsName :
      (x : ℕ)
      → bad_strings t ≡ false
      → x < t.size
      → (len : ℕ) × (name_length t (some x) ≡ some len) × IsName x len
  unfolding name_length
  name_length-IsName x good lt =
      let (e, r, le, stop, all) =
        strfind-first t.size t.stabstr x 58 (t.size - 1) (omega arith) (omega arith)
          (ground (arith, good)) in
      let same : x + (e - x) ≡ e = omega arith in
      (
        e - x,
        ap (λ (q : Option ℕ). elim q [ none ↦ none | some e' ↦ some (e' - x) ]) r,
        record { stops = rw same stop; inside = λ i a. all (x + i) (omega arith) (omega arith) },
      )

  -- The last stab up to `lline` that names a source file.
  pub record IsSource (lfile lline l : ℕ) : Type 0 where
    pub in_lines : (lfile ≤ l) × (l ≤ lline)
    pub is_source : names_source t l ≡ true
    pub no_later : (i : ℕ) → l < i → i ≤ lline → names_source t i ≡ false

  pub source_name-IsSource :
      (lfile lline l : ℕ) → IsSource lfile lline l → source_name t lfile (suc lline) ≡ name_at t l
  unfolding source_name
  source_name-IsSource lfile zero l h =
      let (a, b) = h.in_lines in
      let same : l ≡ 0 = omega arith in
      let outside : ltb 0 lfile ≡ false = ground arith in
      let here : names_source t 0 ≡ true = ap (names_source t) (sym same) ∙ h.is_source in
      rw (outside, here) (ap (name_at t) (sym same))
  source_name-IsSource lfile (suc m) l h =
      let (a, b) = h.in_lines in
      let outside : ltb (suc m) lfile ≡ false = ground arith in
      elim (Bool-cases (l == suc m)) [
        | inl e ↦
            let same : l ≡ suc m = ground arith in
            let here : names_source t (suc m) ≡ true =
              ap (names_source t) (sym same) ∙ h.is_source in
            rw (outside, here) (ap (name_at t) (sym same))
        | inr e ↦
            let not_here : names_source t (suc m) ≡ false =
              h.no_later (suc m) (ground arith) (omega arith) in
            rw (outside, not_here)
              (source_name-IsSource lfile m l (record {
                in_lines = (a, ground arith);
                is_source = h.is_source;
                no_later = λ i x y. h.no_later i x (omega arith);
              }))
      ]
