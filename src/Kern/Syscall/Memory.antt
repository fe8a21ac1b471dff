-- ===== src/Kern/Syscall/Memory.antt =====
-- The calls of oslab6/kern/syscall.c on address spaces.
use operating_systems_lab.Base.{ℕ, ◌%◌, ◌<◌, ◌≡◌, ◌≢◌, sym, ap, ◌∙◌, ◌^◌, arith, max, bit, bit_and}
use mathlib.Core.Path.{subst}
use operating_systems_lab.Base.{Bool, true, false, some, List, ◌∷◌}
use operating_systems_lab.Kern.State.{Kernel, ok, utop, pgsize, ptx, pdx, pte_addr}
use operating_systems_lab.Kern.Env.{envid2env}
use operating_systems_lab.Kern.PageAlloc.{page_alloc}
use operating_systems_lab.Kern.PageAlloc.FreeList.{FreePages, Given, page_alloc-cons}
use operating_systems_lab.Kern.PageTable.{page_insert, present}
use operating_systems_lab.Kern.PageTable.Walk.{HasTable}
use operating_systems_lab.Kern.PageTable.Remove.{IsUsed, refs}
use operating_systems_lab.Kern.PageTable.Insert.{Inserted, page_insert-Inserted}
use operating_systems_lab.Kern.Syscall.{
  finish, bad_va, bad_perm, map_new_page, alloc_page_for, sys_page_alloc,
}
use operating_systems_lab.Kern.Syscall.Lookup.{with_env-ok, with_dir_of-some}

-- Arguments of the calls: an aligned user address, and permissions for the user.
abbrev pub GoodVa : ℕ → Type 0
GoodVa va = (va < utop) × (va % pgsize ≡ 0)

pub good_va : (va : ℕ) → GoodVa va → bad_va va ≡ false
good_va va g = ground arith

pub good_perm : (perm : ℕ) → bit_and perm 5 ≡ 5 → bad_perm perm ≡ false
good_perm perm g = ground arith

alloc_page_runs :
    (k k1 k2 : Kernel) (i pgdir pg va perm : ℕ)
    → page_alloc true k ≡ some (some pg, k1)
    → (k1.envs i).env_pgdir ≡ some pgdir
    → page_insert pgdir pg va perm k1 ≡ some (ok tt, k2)
    → alloc_page_for i va perm k ≡ finish (ok 0) k2
unfolding alloc_page_for map_new_page
alloc_page_runs k k1 k2 i pgdir pg va perm e1 dir e2 =
    rw (e1, alloc_page_for) (with_dir_of-some i k1 _ dir ∙ rw (e2, map_new_page))

-- A page in use stays so when another one is given out.
pub Given-IsUsed :
    (zero_it : Bool) (x : ℕ) (xs : List ℕ) (k k' : Kernel) (q : ℕ)
    → Given zero_it x xs k k'
    → IsUsed k q × (x ≢ q)
    → IsUsed k' q
Given-IsUsed zero_it x xs k k' q g (u, ne) =
    let e = g.others.0 q ne in
    record {
      counted = subst (λ p. 0 < p.pp_ref) (sym e) u.counted;
      fits = subst (λ p. p.pp_ref < 2 ^ 16) (sym e) u.fits;
      unlinked = ap (λ p. p.pp_link) e ∙ u.unlinked;
      exists = subst (λ n. q < n) (sym g.others.1) u.exists;
    }

-- The same for the rest of the call: the first free page is taken, cleared, and inserted, also over a
-- page in use.
pub page_alloc_inserts :
    (k : Kernel) (envid i pgdir pt pg va perm : ℕ) (ps : List ℕ)
    → envid2env envid true k ≡ ok (some i)
    → GoodVa va
    → bit_and perm 5 ≡ 5
    → perm < 4096
    → FreePages (pg ∷ ps) k
    → (k.envs i).env_pgdir ≡ some pgdir
    → HasTable k pgdir va pt
    → (pt ≢ pgdir) × (pg ≢ pgdir) × (pg ≢ pt)
    → (present (k.phys pt (ptx va)) ≡ true
        → IsUsed k (pte_addr (k.phys pt (ptx va))) × (pg ≢ pte_addr (k.phys pt (ptx va))))
    → (k1 : Kernel) × (k2 : Kernel) × Given true pg ps k k1
      × (sys_page_alloc envid va perm k ≡ finish (ok 0) k2)
      × Inserted pgdir pg va perm pt (k.phys pt (ptx va)) k1 k2
unfolding sys_page_alloc
page_alloc_inserts k envid i pgdir pt pg va perm ps found gva gperm small free dir table apart old =
    let (k1, e1, g) = page_alloc-cons true pg ps k free in
    let w = k.phys pt (ptx va) in
    let pte : k1.phys pt (ptx va) ≡ w = ground (arith, g.memory pt (ptx va)) in
    let (k2, e2, ins) =
      page_insert-Inserted pgdir pg va perm pt k1
        (record {
          present_pde = ground (arith, g.memory pgdir (pdx va));
          names = ground (arith, g.memory pgdir (pdx va));
          in_range = ground arith;
        })
        apart.0 small (ground arith)
        (λ h.
          subst (λ v. IsUsed k1 (pte_addr v)) (sym pte)
            (Given-IsUsed true pg ps k k1 (pte_addr w) g (old (ap present (sym pte) ∙ h)))) in
    (
      k1,
      k2,
      g,
      with_env-ok envid true k _ found
          ∙ rw (good_va va gva, good_perm perm gperm)
              (alloc_page_runs k k1 k2 i pgdir pg va perm e1
                (ap (λ f. (f i).env_pgdir) g.elsewhere.0 ∙ dir) e2),
      subst (λ v. Inserted pgdir pg va perm pt v k1 k2) pte ins,
    )

-- `sys_page_alloc` at an address whose page table exists: the first free page is mapped there,
-- cleared, with the given permissions and one reference.
page_alloc_maps :
    (k : Kernel) (envid i pgdir pt pg va perm : ℕ) (ps : List ℕ)
    → envid2env envid true k ≡ ok (some i)
    → GoodVa va
    → bit_and perm 5 ≡ 5
    → perm < 4096
    → FreePages (pg ∷ ps) k
    → (k.envs i).env_pgdir ≡ some pgdir
    → HasTable k pgdir va pt
    → (pt ≢ pgdir) × (pg ≢ pgdir) × (pg ≢ pt)
    → k.phys pt (ptx va) ≡ 0
    → (k' : Kernel) × (sys_page_alloc envid va perm k ≡ finish (ok 0) k')
      × HasTable k' pgdir va pt
      × (pte_addr (k'.phys pt (ptx va)) ≡ pg)
      × ((j : ℕ) → j < 12 → bit (k'.phys pt (ptx va)) j ≡ max (bit perm j) (bit 1 j))
      × ((j : ℕ) → k'.phys pg j ≡ 0)
      × (refs k' pg ≡ 1)
page_alloc_maps k envid i pgdir pt pg va perm ps found gva gperm small free dir table apart empty =
    let (k1, k2, g, runs, ins) =
      page_alloc_inserts k envid i pgdir pt pg va perm ps found gva gperm small free dir table apart
        (λ h. absurd (ground arith)) in
    (
      k2,
      runs,
      ins.table,
      ins.names_page,
      ins.flags,
      λ j. ground (arith, ins.memory pg j, g.memory pg j),
      ground (arith, ins.counts pg),
    )
