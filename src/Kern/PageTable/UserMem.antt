-- ===== src/Kern/PageTable/UserMem.antt =====
-- `user_mem_check` of oslab6/kern/pmap.c against what it is to decide.
use operating_systems_lab.Base.{
  ℕ, zero, suc, ◌+◌, ◌-◌, ◌*◌, ◌/◌, ◌%◌, ◌^◌, ◌<◌, ◌≤◌, ◌==◌, ◌≡◌, refl, arith, bit_and, ltb,
}
use operating_systems_lab.Base.{
  Bool, true, false, Option, none, some, if◌then◌else◌, ◌&&◌, Bool-cases, inl, inr, ◌⊎◌,
}
use mathlib.Core.Path.{subst, ◌∙◌}
use native.Mathlib.Decide.{dec_lt, ℕ_discrete}
use operating_systems_lab.Kern.State.{
  Kernel, pte_addr, pdx, ptx, ulim, u32, pgsize, roundup, rounddown,
}
use operating_systems_lab.Kern.PageTable.{present, allowed, check_from, user_mem_check}
use operating_systems_lab.Kern.PageTable.Walk.{walk-HasTable, walk-absent}

-- Every page table that the directory names exists, so that no walk panics.
abbrev pub TablesExist : Kernel → ℕ → Type 0
TablesExist k pgdir =
    (va : ℕ) → present (k.phys pgdir (pdx va)) ≡ true → pte_addr (k.phys pgdir (pdx va)) < k.npages

-- User code may use the page at `p` in the ways that `perm` names.
pub record Accessible (k : Kernel) (pgdir perm p : ℕ) : Type 0 where
  pub below_ulim : p < ulim
  pub has_table : present (k.phys pgdir (pdx p)) ≡ true
  pub mapped : present (k.phys (pte_addr (k.phys pgdir (pdx p))) (ptx p)) ≡ true
  pub flags : bit_and (k.phys (pte_addr (k.phys pgdir (pdx p))) (ptx p)) perm ≡ perm

-- The loop ends at once from the end of the range on.
check-done :
    (fuel pgdir perm va i end : ℕ) (k : Kernel)
    → end ≤ i
    → check_from fuel pgdir va perm end i k ≡ some none
unfolding check_from
check-done zero pgdir perm va i end k le = refl
check-done (suc fuel) pgdir perm va i end k le = ground arith

module _ (k : Kernel) (pgdir perm : ℕ) (tables : TablesExist k pgdir) where
  -- The condition of the source on the entry `w` at `p`.
  abbrev passes : ℕ → ℕ → Bool
  passes p w = (ltb p ulim && present w) && (bit_and w perm == perm)

  abbrev entry_at : ℕ → ℕ
  entry_at p = k.phys (pte_addr (k.phys pgdir (pdx p))) (ptx p)

  allowed-present :
      (p : ℕ)
      → present (k.phys pgdir (pdx p)) ≡ true
      → allowed pgdir perm p k ≡ some (passes p (entry_at p))
  unfolding allowed
  allowed-present p e = ground (
    arith,
    walk-HasTable false pgdir p {pt = pte_addr (k.phys pgdir (pdx p))} k
        (record { present_pde = e; names = refl; in_range = tables p e }),
  )

  allowed-absent :
      (p : ℕ) → present (k.phys pgdir (pdx p)) ≡ false → allowed pgdir perm p k ≡ some false
  unfolding allowed
  allowed-absent p e = ground (arith, walk-absent pgdir p k e)

  -- The test of one page decides whether it is accessible.
  allowed-cases :
      (p : ℕ)
      → ((allowed pgdir perm p k ≡ some true) × Accessible k pgdir perm p)
        ⊎ ((allowed pgdir perm p k ≡ some false) × ¬ Accessible k pgdir perm p)
  allowed-cases p = elim (Bool-cases (present (k.phys pgdir (pdx p)))) [
    | inl e ↦ elim (Bool-cases (passes p (entry_at p))) [
      | inl t ↦ inl (rw (allowed-present p e, t), accessible e t)
      | inr f ↦ inr (rw (allowed-present p e, f), λ c. refused f c)
    ]
    | inr e ↦ inr (allowed-absent p e, λ c. ground (arith, c.has_table))
  ]
    where
      accessible :
          present (k.phys pgdir (pdx p)) ≡ true
          → passes p (entry_at p) ≡ true
          → Accessible k pgdir perm p
      accessible e t = ground arith

      refused : passes p (entry_at p) ≡ false → Accessible k pgdir perm p → ⊥
      refused f c = ground arith

  -- What the loop from `i` on may return, for the range that ends at `end` and was asked for at
  -- `va`: nothing, and every page is accessible; or the first address of the range on the first
  -- page that is not.
  pub data Verdict (va i end : ℕ) : Option ℕ → Type 0 where
    fine :
        {r : Option ℕ}
        → r ≡ none
        → ((p : ℕ) → p % 4096 ≡ 0 → i ≤ p → p < end → Accessible k pgdir perm p)
        → Verdict va i end r
    faulty :
        {r : Option ℕ} (p : ℕ)
        → r ≡ some (if ltb p va then va else p)
        → p % 4096 ≡ 0
        → (i ≤ p) × (p < end)
        → ¬ Accessible k pgdir perm p
        → ((q : ℕ) → q % 4096 ≡ 0 → i ≤ q → q < p → Accessible k pgdir perm q)
        → Verdict va i end r

  check-next :
      (fuel va i end : ℕ)
      → i < end
      → allowed pgdir perm i k ≡ some true
      → check_from (suc fuel) pgdir va perm end i k
        ≡ check_from fuel pgdir va perm end (u32 (i + 4096)) k
  unfolding check_from
  check-next fuel va i end lt e = ground arith

  check-bad :
      (fuel va i end : ℕ)
      → i < end
      → allowed pgdir perm i k ≡ some false
      → check_from (suc fuel) pgdir va perm end i k ≡ some (some (if ltb i va then va else i))
  unfolding check_from
  check-bad fuel va i end lt e = ground arith

  here_or_later :
      (p i : ℕ)
      → p % 4096 ≡ 0
      → i % 4096 ≡ 0
      → i ≤ p
      → Accessible k pgdir perm i
      → (i + 4096 ≤ p → Accessible k pgdir perm p)
      → Accessible k pgdir perm p
  here_or_later p i ap ai le good later = elim (ℕ_discrete i p) [
    | yes e ↦ subst (Accessible k pgdir perm) e good
    | no ne ↦ later (omega arith)
  ]

  -- One page further.
  Verdict-next :
      (va i end : ℕ) (r : Option ℕ)
      → i % 4096 ≡ 0
      → Accessible k pgdir perm i
      → Verdict va (i + 4096) end r
      → Verdict va i end r
  Verdict-next va i end r ai good (fine e all) =
      fine e (λ p a b c. here_or_later p i a ai b good (λ q. all p a q c))
  Verdict-next va i end r ai good (faulty p e a b bad all) =
      faulty p e a (omega arith) bad
        (λ q aq lo hi. here_or_later q i aq ai lo good (λ z. all q aq z hi))

  extend :
      (fuel va i end : ℕ)
      → i % 4096 ≡ 0
      → i + 4096 < 2 ^ 32
      → i < end
      → allowed pgdir perm i k ≡ some true
      → Accessible k pgdir perm i
      → (r : Option ℕ) × (check_from fuel pgdir va perm end (i + 4096) k ≡ some r)
        × Verdict va (i + 4096) end r
      → (r : Option ℕ) × (check_from (suc fuel) pgdir va perm end i k ≡ some r) × Verdict va i end r
  extend fuel va i end ai small lt e good (r, p, v) =
      let wrap : u32 (i + 4096) ≡ i + 4096 = omega arith in
      (r, check-next fuel va i end lt e ∙ rw wrap p, Verdict-next va i end r ai good v)

  check_from-Verdict :
      (fuel va i end : ℕ)
      → i % 4096 ≡ 0
      → end % 4096 ≡ 0
      → end < 2 ^ 32
      → end ≤ i + fuel * 4096
      → (r : Option ℕ) × (check_from fuel pgdir va perm end i k ≡ some r) × Verdict va i end r
  unfolding check_from
  check_from-Verdict zero va i end ai ae lt enough =
      (none, refl, fine refl (λ p a b c. absurd (omega arith)))
  check_from-Verdict (suc fuel) va i end ai ae lt enough = elim (dec_lt i end) [
    | no ge ↦ (
      none,
      check-done (suc fuel) pgdir perm va i end k (omega arith),
      fine refl (λ p a b c. absurd (omega arith)),
    )
    | yes le ↦ elim (allowed-cases i) [
      | inr bad ↦ (
        _,
        check-bad fuel va i end le bad.0,
        faulty i refl ai (omega arith) bad.1 (λ q a b c. absurd (omega arith)),
      )
      | inl good ↦
          extend fuel va i end ai (omega arith) le good.0 good.1
            (check_from-Verdict fuel va (i + 4096) end (omega arith) ae lt (omega arith))
    ]
  ]

  -- If the range does not reach the last page of the address space, `user_mem_check` returns, and
  -- decides: it finds no fault exactly when every page with a byte of the range is accessible, and
  -- else reports the range's first address on the first page that is not.
  pub user_mem_check-Verdict :
      (va len : ℕ)
      → va + len + 4096 ≤ 2 ^ 32
      → (r : Option ℕ) × (user_mem_check pgdir va len perm k ≡ some r)
        × Verdict va (rounddown va pgsize) ((va + len + 4095) / 4096 * 4096) r
  unfolding user_mem_check
  user_mem_check-Verdict va len h =
      let e : roundup (u32 (va + len)) pgsize ≡ (va + len + 4095) / 4096 * 4096 = omega arith in
      rw e (
        check_from-Verdict (2 ^ 20) va (rounddown va pgsize) ((va + len + 4095) / 4096 * 4096)
          (omega arith) (omega arith) (omega arith) (omega arith))

-- A range that wraps round the end of the address space to before its own first page is accepted,
-- whatever is mapped.
pub user_mem_check-wraps :
    (k : Kernel) (pgdir va len perm : ℕ)
    → va < 2 ^ 32
    → len < 2 ^ 32
    → 2 ^ 32 ≤ va + len
    → va + len - 2 ^ 32 + 4095 < va / 4096 * 4096
    → user_mem_check pgdir va len perm k ≡ some none
unfolding user_mem_check
user_mem_check-wraps k pgdir va len perm hv hl wraps gap =
    check-done (2 ^ 20) pgdir perm va _ _ k (omega arith)
