-- ===== src/Kern/PageTable.antt =====
-- Two-level page tables, oslab6/kern/pmap.c: walking, mapping, unmapping, and the check of user
-- pointers. A pointer to an entry is the page that holds it and the index in that page.
pub mod Entry
pub mod Walk
pub mod UserMem
pub mod Remove
pub mod Insert
use operating_systems_lab.Base.{
  ℕ, zero, suc, ◌+◌, ◌*◌, ◌/◌, ◌%◌, ◌^◌, ◌==◌, leb, ltb, bit_or, bit_and,
}
use operating_systems_lab.Base.{Bool, true, false, ◌&&◌, Option, none, some, if◌then◌else◌, ◌∷◌}
use operating_systems_lab.Base.{bit}
use operating_systems_lab.Kern.State.{Kernel, M, pure, ◌>>=◌, ◌>>◌, gets, modify, store}
use operating_systems_lab.Kern.State.{
  pte_p, pdx, ptx, pte_addr, u32, rounddown, roundup, ulim, pgsize,
}
use operating_systems_lab.Kern.State.{Result, ok, err, Error}
use operating_systems_lab.Kern.PageAlloc.{page_alloc, page_decref, incref}

-- `PTE_P | PTE_U | PTE_W`
abbrev pub pde_flags : ℕ
pde_flags = 7

-- `!(pte & PTE_P)` fails.
abbrev pub present : ℕ → Bool
present pte = bit pte pte_p == 1

-- `page2pa(pp) | flags`
abbrev pub entry : ℕ → ℕ → ℕ
entry pp flags = bit_or (pp * 4096) flags

-- The last line of `pgdir_walk`: `KADDR` of the table's address, and the index.
unfoldable pub table_slot : ℕ → ℕ → M (Option (ℕ × ℕ))
table_slot pgdir va k =
    let pt = pte_addr (k.phys pgdir (pdx va)) in
    if leb k.npages pt then none else some (some (pt, ptx va), k)

-- A new page table page, in the branch where the directory entry is not present.
unfoldable pub new_table : ℕ → ℕ → M Bool
unfolding incref
new_table pgdir va k = elim (page_alloc true k) [
  | none ↦ none
  | some (none, k') ↦ some (false, k')
  | some (some pp, k') ↦ some (true, store pgdir (pdx va) (entry pp pde_flags) (incref pp k'))
]

unfoldable pub pgdir_walk : ℕ → ℕ → Bool → M (Option (ℕ × ℕ))
unfolding table_slot new_table
pgdir_walk pgdir va create k =
    if present (k.phys pgdir (pdx va))
    then table_slot pgdir va k
    else if create
    then elim (new_table pgdir va k) [
      | none ↦ none
      | some (false, k') ↦ some (none, k')
      | some (true, k') ↦ table_slot pgdir va k'
    ]
    else some (none, k)

-- `pa2page` panics on a page that is not there. `!(*pte) & PTE_P` is `(!*pte) & 1`: the test is for a zero entry.
unfoldable pub page_lookup : ℕ → ℕ → M (Option (ℕ × ℕ × ℕ))
page_lookup pgdir va k = elim (pgdir_walk pgdir va false k) [
  | none ↦ none
  | some (none, k') ↦ some (none, k')
  | some (some (pt, i), k') ↦
      if k'.phys pt i == 0
      then some (none, k')
      else let q = pte_addr (k'.phys pt i) in
        if leb k'.npages q then none else some (some (q, pt, i), k')
]

abbrev same_pgdir : Option ℕ → ℕ → Bool
same_pgdir none pgdir = false
same_pgdir (some p) pgdir = p == pgdir

abbrev pub in_use_pgdir : Kernel → ℕ → Bool
in_use_pgdir k pgdir = elim k.curenv [
  | none ↦ true
  | some e ↦ same_pgdir (k.envs e).env_pgdir pgdir
]

unfoldable pub tlb_invalidate : ℕ → ℕ → M (Unit {0})
tlb_invalidate pgdir va k =
    some (tt, if in_use_pgdir k pgdir then record k { flushed = va ∷ k.flushed } else k)

unfoldable pub page_remove : ℕ → ℕ → M (Unit {0})
unfolding tlb_invalidate
page_remove pgdir va k = elim (page_lookup pgdir va k) [
  | none ↦ none
  | some (none, k') ↦ some (tt, k')
  | some (some (pp, pt, i), k') ↦ elim (page_decref pp k') [
    | none ↦ none
    | some (_, k1) ↦ tlb_invalidate pgdir va (store pt i 0 k1)
  ]
]

-- The last two writes of `page_insert`.
abbrev pub write_entry : ℕ → ℕ → ℕ → ℕ → ℕ → ℕ → Kernel → Kernel
write_entry pgdir pp va perm pt i k =
    let k' = store pt i (bit_or (entry pp perm) 1) k in
    store pgdir (pdx va) (bit_or (k'.phys pgdir (pdx va)) perm) k'

-- The part of `page_insert` after the walk.
unfoldable pub install : ℕ → ℕ → ℕ → ℕ → ℕ → ℕ → M (Result (Unit {0}))
unfolding incref
install pgdir pp va perm pt i k =
    let k1 = incref pp k in
    if present (k1.phys pt i)
    then elim (page_remove pgdir va k1) [
      | none ↦ none
      | some (_, k2) ↦ some (ok tt, write_entry pgdir pp va perm pt i k2)
    ]
    else some (ok tt, write_entry pgdir pp va perm pt i k1)

unfoldable pub page_insert : ℕ → ℕ → ℕ → ℕ → M (Result (Unit {0}))
page_insert pgdir pp va perm k = elim (pgdir_walk pgdir va true k) [
  | none ↦ none
  | some (none, k') ↦ some (err Error.no_mem, k')
  | some (some (pt, i), k') ↦ install pgdir pp va perm pt i k'
]

-- `boot_map_region`: `pgs` rounds; the addresses wrap at 2 ^ 32.
unfoldable pub map_pages : ℕ → ℕ → ℕ → ℕ → ℕ → M (Unit {0})
map_pages pgdir va zero pa perm k = some (tt, k)
map_pages pgdir va (suc pgs) pa perm k = elim (pgdir_walk pgdir va true k) [
  | none ↦ none
  | some (none, k') ↦ none
  | some (some (pt, i), k') ↦
      map_pages pgdir (u32 (va + pgsize)) pgs (u32 (pa + pgsize)) perm
        (store pt i (bit_or (bit_or pa 1) perm) k')
]

unfoldable pub boot_map_region : ℕ → ℕ → ℕ → ℕ → ℕ → M (Unit {0})
boot_map_region pgdir va size pa perm =
    map_pages pgdir va (if size % pgsize == 0 then size / pgsize else size / pgsize + 1) pa perm

-- The condition on one page in `user_mem_check`, and the loop: `fuel` rounds from `i` on, below
-- `end`. The result is the faulty address that `user_mem_check_addr` is set to, if any.
unfoldable pub allowed : ℕ → ℕ → ℕ → Kernel → Option Bool
allowed pgdir perm i k = elim (pgdir_walk pgdir i false k) [
  | none ↦ none
  | some (none, k') ↦ some false
  | some (some (pt, j), k') ↦
      some ((ltb i ulim && present (k'.phys pt j)) && (bit_and (k'.phys pt j) perm == perm))
]

unfoldable pub check_from : ℕ → ℕ → ℕ → ℕ → ℕ → ℕ → Kernel → Option (Option ℕ)
check_from zero pgdir va perm end i k = some none
check_from (suc fuel) pgdir va perm end i k =
    let rest = check_from fuel pgdir va perm end (u32 (i + pgsize)) k in
    let bad = if ltb i va then va else i in
    let one : Option (Option ℕ) = elim (allowed pgdir perm i k) [
      | none ↦ none
      | some true ↦ rest
      | some false ↦ some (some bad)
    ] in
    if ltb i end then one else some none

-- 2 ^ 20 rounds reach every page of the address space.
unfoldable pub user_mem_check : ℕ → ℕ → ℕ → ℕ → Kernel → Option (Option ℕ)
user_mem_check pgdir va len perm k =
    check_from (2 ^ 20) pgdir va perm (roundup (u32 (va + len)) pgsize) (rounddown va pgsize) k
