-- ===== src/Kern/PageTable/Insert.antt =====
-- `page_insert` of oslab6/kern/pmap.c: the entry, the reference counts, the free
-- list and the rest of memory.
use operating_systems_lab.Base.{
  ℕ, ◌+◌, ◌^◌, ◌<◌, ◌==◌, ◌≡◌, ◌≢◌, refl, sym, ap, ◌∙◌, max, arith, bit,
}
use operating_systems_lab.Base.{true, false, some, if◌then◌else◌, ◌&&◌, Bool-cases, inl, inr}
use mathlib.Core.Path.{subst}
use operating_systems_lab.Kern.State.{Kernel, pte_addr, pdx, ptx, set_ref, ok}
use operating_systems_lab.Kern.PageTable.{present, page_insert, install, write_entry}
use operating_systems_lab.Kern.PageTable.Entry.{
  pte_addr-map_word, bit-map_word, pte_addr-bit_or, present-bit_or,
}
use operating_systems_lab.Kern.PageTable.Walk.{HasTable, walk-HasTable}
use operating_systems_lab.Kern.PageTable.Remove.{
  refs, IsUsed, SameMachine, dropped, refs-dropped, link-dropped, removed, page_remove-removed,
  removed_frame,
}

-- What `page_insert` leaves when the entry in table `pt` held `w` before.
pub record Inserted (pgdir pp va perm pt w : ℕ) (k k' : Kernel) : Type 0 where
  pub table : HasTable k' pgdir va pt
  pub names_page : pte_addr (k'.phys pt (ptx va)) ≡ pp
  pub flags : (j : ℕ) → j < 12 → bit (k'.phys pt (ptx va)) j ≡ max (bit perm j) (bit 1 j)
  pub memory :
      (m i : ℕ)
      → ((m ≡ pt) × (i ≡ ptx va) → ⊥)
      → ((m ≡ pgdir) × (i ≡ pdx va) → ⊥)
      → k'.phys m i ≡ k.phys m i
  pub counts :
      (m : ℕ)
      → refs k' m + (if present w && (pte_addr w == m) then 1 else 0)
        ≡ refs k m + (if pp == m then 1 else 0)
  pub links : (m : ℕ) → 0 < refs k' m → (k'.pages m).pp_link ≡ (k.pages m).pp_link
  pub only :
      present w ≡ false
      → ((m : ℕ) → pp ≢ m → k'.pages m ≡ k.pages m) × (k'.page_free_list ≡ k.page_free_list)
  pub machine : SameMachine k k'

module _ (pgdir pp va perm pt : ℕ) (k : Kernel) (table : HasTable k pgdir va pt)
    (apart : pt ≢ pgdir) (small : perm < 4096) (fits : refs k pp + 1 < 2 ^ 16) where
  abbrev w : ℕ
  w = k.phys pt (ptx va)

  abbrev counted : Kernel
  counted = set_ref pp (refs k pp + 1) k

  abbrev CountsFor : Kernel → Type 0
  CountsFor k' =
      (m : ℕ)
      → refs k' m + (if present w && (pte_addr w == m) then 1 else 0)
        ≡ refs k m + (if pp == m then 1 else 0)

  abbrev LinksFor : Kernel → Type 0
  LinksFor k' = (m : ℕ) → 0 < refs k' m → (k'.pages m).pp_link ≡ (k.pages m).pp_link

  abbrev OnlyFor : Kernel → Type 0
  OnlyFor k' =
      present w ≡ false
      → ((m : ℕ) → pp ≢ m → k'.pages m ≡ k.pages m) × (k'.page_free_list ≡ k.page_free_list)

  -- The last writes, after whatever was done to the counts and to the entry itself.
  finish :
      (k1 : Kernel)
      → SameMachine k k1
      → ((m i : ℕ) → ((m ≡ pt) × (i ≡ ptx va) → ⊥) → k1.phys m i ≡ k.phys m i)
      → CountsFor k1
      → LinksFor k1
      → OnlyFor k1
      → Inserted pgdir pp va perm pt w k (write_entry pgdir pp va perm pt (ptx va) k1)
  finish k1 e same counts links only =
      let pde : k1.phys pgdir (pdx va) ≡ k.phys pgdir (pdx va) =
        same pgdir (pdx va) (λ q. apart (sym q.0)) in
      record {
        table = record {
          present_pde =
              ground (arith, pde, present-bit_or (k.phys pgdir (pdx va)) perm table.present_pde);
          names = ground (arith, pde, pte_addr-bit_or (k.phys pgdir (pdx va)) perm small);
          in_range = ground arith;
        };
        names_page = ground (arith, pte_addr-map_word pp perm small);
        flags = λ j lt. ground (arith, bit-map_word pp perm j lt);
        memory = λ m i a b. ground (arith, same m i a);
        counts = counts;
        links = links;
        only = only;
        machine = record {
          same_envs = e.same_envs;
          same_curenv = e.same_curenv;
          same_npages = e.same_npages;
        };
      }

  -- The entry was not present: only the new reference is counted.
  insert_fresh :
      present w ≡ false
      → page_insert pgdir pp va perm k
        ≡ some (ok tt, write_entry pgdir pp va perm pt (ptx va) counted)
  unfolding page_insert install
  insert_fresh e = ground (arith, walk-HasTable true pgdir va k table)

  -- The entry was present: its page is dropped after the new reference is counted, so a page
  -- that is mapped again where it was is never freed.
  insert_over :
      present w ≡ true
      → IsUsed counted (pte_addr w)
      → page_insert pgdir pp va perm k
        ≡ some (
          ok tt,
          write_entry pgdir pp va perm pt (ptx va) (removed pgdir va pt (pte_addr w) counted),
        )
  unfolding page_insert install
  insert_over e u = ground (
    arith,
    walk-HasTable true pgdir va k table,
    page_remove-removed pgdir va pt counted
        (record { present_pde = table.present_pde; names = table.names; in_range = table.in_range })
        (λ z. ground arith) u,
  )

  IsUsed-counted : IsUsed k (pte_addr w) → IsUsed counted (pte_addr w)
  IsUsed-counted u = record {
    counted = ground arith;
    fits = ground arith;
    unlinked = ground arith;
    exists = u.exists;
  }

  over_counts :
      present w ≡ true
      → IsUsed k (pte_addr w)
      → CountsFor (removed pgdir va pt (pte_addr w) counted)
  over_counts e u m =
      let facts = removed_frame pgdir va pt (pte_addr w) counted in
      ground (
        arith,
        refs-dropped (pte_addr w) m counted (IsUsed-counted u).counted,
        ap (λ f. (f m).pp_ref) facts.2,
      )

  over_machine : SameMachine k (removed pgdir va pt (pte_addr w) counted)
  over_machine =
      let m = (removed_frame pgdir va pt (pte_addr w) counted).0 in
      record { same_envs = m.same_envs; same_curenv = m.same_curenv; same_npages = m.same_npages }

  over_links : present w ≡ true → LinksFor (removed pgdir va pt (pte_addr w) counted)
  over_links e m here =
      let facts = removed_frame pgdir va pt (pte_addr w) counted in
      let still : 0 < refs (dropped (pte_addr w) counted) m =
        subst (λ f. 0 < (f m).pp_ref) facts.2 here in
      ap (λ f. (f m).pp_link) facts.2 ∙ link-dropped (pte_addr w) m counted still ∙ ground arith

  -- Where the directory has a table for `va` in another page, `perm` has 12 bits, the count of
  -- the new page does not overflow, and a page that is mapped at `va` is in use: `page_insert`
  -- succeeds; the entry names the page with the flags `perm | PTE_P`; the new page gains a
  -- reference, and a page that was mapped there loses one; of the memory, only the entry and the
  -- directory's entry for the table are written, and no environment changes.
  pub page_insert-Inserted :
      (present w ≡ true → IsUsed k (pte_addr w))
      → (k' : Kernel) × (page_insert pgdir pp va perm k ≡ some (ok tt, k'))
        × Inserted pgdir pp va perm pt w k k'
  page_insert-Inserted old = elim (Bool-cases (present w)) [
    | inl e ↦
        let facts = removed_frame pgdir va pt (pte_addr w) counted in
        (
          write_entry pgdir pp va perm pt (ptx va) (removed pgdir va pt (pte_addr w) counted),
          insert_over e (IsUsed-counted (old e)),
          finish (removed pgdir va pt (pte_addr w) counted) over_machine facts.1
              (λ m. over_counts e (old e) m) (λ m here. over_links e m here)
              (λ h. absurd (ground (arith, e, h))),
        )
    | inr e ↦ (
      _,
      insert_fresh e,
      finish counted (record { same_envs = refl; same_curenv = refl; same_npages = refl })
          (λ m i a. refl) (λ m. ground arith) (λ m here. ground arith)
          (λ h. (λ m ne. ground arith, refl)),
    )
  ]
