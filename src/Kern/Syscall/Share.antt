-- ===== src/Kern/Syscall/Share.antt =====
-- `sys_page_map` of oslab6/kern/syscall.c: one page in two address spaces.
use operating_systems_lab.Base.{
  ℕ, ◌+◌, ◌^◌, ◌<◌, ◌≡◌, ◌≢◌, ◌==◌, refl, sym, ap, ◌∙◌, arith, bit, bit_and,
}
use operating_systems_lab.Base.{true, false, some, ◌&&◌}
use operating_systems_lab.Kern.State.{Kernel, ok, err, Error, ptx, pte_addr, pte_w}
use mathlib.Core.Path.{subst}
use operating_systems_lab.Kern.Env.{envid2env}
use operating_systems_lab.Kern.PageTable.{present, page_lookup, page_insert, page_remove}
use operating_systems_lab.Kern.PageTable.Walk.{HasTable, lookup-entry}
use operating_systems_lab.Kern.PageTable.Remove.{IsUsed, refs, removed, page_remove-removed}
use operating_systems_lab.Kern.PageTable.Insert.{Inserted, page_insert-Inserted}
use operating_systems_lab.Kern.Syscall.{finish, share_page, map_from, sys_page_map, sys_page_unmap}
use operating_systems_lab.Kern.Syscall.Lookup.{with_env-ok, with_dir_of-some}
use operating_systems_lab.Kern.Syscall.Memory.{GoodVa, good_va, good_perm}

-- Environment `i` has the directory `pgdir`, with a table for `va` in page `pt`, and the entry `w`
-- there.
pub record HasEntry (k : Kernel) (i pgdir va pt w : ℕ) : Type 0 where
  pub its_dir : (k.envs i).env_pgdir ≡ some pgdir
  pub its_table : HasTable k pgdir va pt
  pub its_entry : k.phys pt (ptx va) ≡ w

-- The entry names a page that is there.
pub record Maps (k : Kernel) (w : ℕ) : Type 0 where
  pub not_zero : w ≢ 0
  pub exists : pte_addr w < k.npages

share_page-ok :
    (de pg va perm pgdir : ℕ) (k k' : Kernel)
    → (k.envs de).env_pgdir ≡ some pgdir
    → page_insert pgdir pg va perm k ≡ some (ok tt, k')
    → share_page de pg va perm k ≡ finish (ok 0) k'
unfolding share_page
share_page-ok de pg va perm pgdir k k' dir e = with_dir_of-some de k _ dir ∙ rw (e, share_page) refl

module _ (se srcva de dstva perm pgdir pt w : ℕ) (k : Kernel)
    (source : HasEntry k se pgdir srcva pt w) (maps : Maps k w) where
  source_page : page_lookup pgdir srcva k ≡ some (some (pte_addr w, pt, ptx srcva), k)
  source_page =
      let e = source.its_entry in
      let h = maps.exists in
      lookup-entry pgdir srcva k source.its_table (λ z. maps.not_zero (omega arith)) (omega arith)
      ∙ ap (λ v. some (some (pte_addr v, pt, ptx srcva), k)) e

  pub map_from-shares :
      bit_and perm 5 ≡ 5
      → ((bit w pte_w == 0) && (bit perm pte_w == 1)) ≡ false
      → map_from se srcva de dstva perm k ≡ share_page de (pte_addr w) dstva perm k
  unfolding map_from
  map_from-shares g no_more =
      with_dir_of-some se k _ source.its_dir
      ∙ rw (source_page, map_from, good_perm perm g, source.its_entry, no_more) refl

  pub map_from-refuses :
      bit_and perm 5 ≡ 5
      → bit w pte_w ≡ 0
      → bit perm pte_w ≡ 1
      → map_from se srcva de dstva perm k ≡ finish (err Error.inval) k
  unfolding map_from
  map_from-refuses g read_only asks =
      with_dir_of-some se k _ source.its_dir
      ∙ rw (source_page, map_from, good_perm perm g, source.its_entry, read_only, asks) refl

-- After the checks on the environments and the addresses.
pub page_map-checked :
    (k : Kernel) (srcenvid srcva dstenvid dstva perm se de : ℕ)
    → envid2env srcenvid true k ≡ ok (some se)
    → envid2env dstenvid true k ≡ ok (some de)
    → GoodVa srcva
    → GoodVa dstva
    → sys_page_map srcenvid srcva dstenvid dstva perm k ≡ map_from se srcva de dstva perm k
unfolding sys_page_map
page_map-checked k srcenvid srcva dstenvid dstva perm se de src dst gsrc gdst =
    with_env-ok srcenvid true k _ src
    ∙ with_env-ok dstenvid true k _ dst
    ∙ rw (good_va srcva gsrc, good_va dstva gdst) refl

-- `sys_page_map` of a page that the source maps, where the destination has a page table for the
-- address: without asking for more than the source has, the destination gets the page with the
-- permissions asked for, the page gains a reference, and a page that was mapped there loses one; no
-- environment and no other memory but the directory entry changes.
pub page_map_shares :
    (k : Kernel) (srcenvid srcva dstenvid dstva perm se spgdir spt sw de dpgdir dpt dw : ℕ)
    → envid2env srcenvid true k ≡ ok (some se)
    → envid2env dstenvid true k ≡ ok (some de)
    → GoodVa srcva
    → GoodVa dstva
    → (bit_and perm 5 ≡ 5) × (perm < 4096)
    → HasEntry k se spgdir srcva spt sw
    → HasEntry k de dpgdir dstva dpt dw
    → Maps k sw
    → ((bit sw pte_w == 0) && (bit perm pte_w == 1)) ≡ false
    → dpt ≢ dpgdir
    → refs k (pte_addr sw) + 1 < 2 ^ 16
    → (present dw ≡ true → IsUsed k (pte_addr dw))
    → (k' : Kernel) × (sys_page_map srcenvid srcva dstenvid dstva perm k ≡ finish (ok 0) k')
      × Inserted dpgdir (pte_addr sw) dstva perm dpt dw k k'
page_map_shares k srcenvid srcva dstenvid dstva perm se spgdir spt sw de dpgdir dpt dw src dst gsrc
      gdst good source dest maps no_more apart room old =
    let e = dest.its_entry in
    let (k', runs, ins) =
      page_insert-Inserted dpgdir (pte_addr sw) dstva perm dpt k dest.its_table apart good.1 room
        (λ h. subst (λ v. IsUsed k (pte_addr v)) (sym e) (old (ap present (sym e) ∙ h))) in
    (
      k',
      page_map-checked k srcenvid srcva dstenvid dstva perm se de src dst gsrc gdst
          ∙ map_from-shares se srcva de dstva perm spgdir spt sw k source maps good.0 no_more
          ∙ share_page-ok de (pte_addr sw) dstva perm dpgdir k k' dest.its_dir runs,
      subst (λ v. Inserted dpgdir (pte_addr sw) dstva perm dpt v k k') e ins,
    )

-- A page that the source may only read is not given to anyone for writing.
pub page_map-read_only :
    (k : Kernel) (srcenvid srcva dstenvid dstva perm se spgdir spt sw de : ℕ)
    → envid2env srcenvid true k ≡ ok (some se)
    → envid2env dstenvid true k ≡ ok (some de)
    → GoodVa srcva
    → GoodVa dstva
    → bit_and perm 5 ≡ 5
    → HasEntry k se spgdir srcva spt sw
    → Maps k sw
    → bit sw pte_w ≡ 0
    → bit perm pte_w ≡ 1
    → sys_page_map srcenvid srcva dstenvid dstva perm k ≡ finish (err Error.inval) k
page_map-read_only k srcenvid srcva dstenvid dstva perm se spgdir spt sw de src dst gsrc gdst good
      source maps read_only asks =
    page_map-checked k srcenvid srcva dstenvid dstva perm se de src dst gsrc gdst
    ∙ map_from-refuses se srcva de dstva perm spgdir spt sw k source maps good read_only asks

-- `sys_page_unmap` of a page that is mapped.
pub page_unmap-removed :
    (k : Kernel) (envid i pgdir va pt w : ℕ)
    → envid2env envid true k ≡ ok (some i)
    → GoodVa va
    → HasEntry k i pgdir va pt w
    → w ≢ 0
    → IsUsed k (pte_addr w)
    → sys_page_unmap envid va k ≡ finish (ok 0) (removed pgdir va pt (pte_addr w) k)
unfolding sys_page_unmap
page_unmap-removed k envid i pgdir va pt w found gva has ne used =
    let e = has.its_entry in
    let runs : page_remove pgdir va k ≡ some (tt, removed pgdir va pt (pte_addr w) k) =
      subst (λ v. page_remove pgdir va k ≡ some (tt, removed pgdir va pt (pte_addr v) k)) e
        (page_remove-removed pgdir va pt k has.its_table (λ z. ne (sym e ∙ z))
          (subst (λ v. IsUsed k (pte_addr v)) (sym e) used)) in
    with_env-ok envid true k _ found
    ∙ rw (good_va va gva) (with_dir_of-some i k _ has.its_dir ∙ rw runs refl)
