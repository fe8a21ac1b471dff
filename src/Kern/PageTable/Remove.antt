-- ===== src/Kern/PageTable/Remove.antt =====
-- `page_remove` of oslab6/kern/pmap.c: the entry, the reference counts, the free list and the rest
-- of memory.
use operating_systems_lab.Base.{ℕ, ◌+◌, ◌-◌, ◌^◌, ◌<◌, ◌==◌, ◌≡◌, ◌≢◌, refl, arith}
use operating_systems_lab.Base.{true, false, none, some, ◌∷◌, if◌then◌else◌}
use operating_systems_lab.Kern.State.{Kernel, pte_addr, ptx, set_ref, set_link, store}
use operating_systems_lab.Kern.PageAlloc.{page_decref}
use operating_systems_lab.Kern.PageTable.{page_remove, in_use_pgdir}
use operating_systems_lab.Kern.PageTable.Walk.{HasTable, lookup-entry}

abbrev pub refs : Kernel → ℕ → ℕ
refs k n = (k.pages n).pp_ref

-- A page in use: counted, and on no list.
pub record IsUsed (k : Kernel) (q : ℕ) : Type 0 where
  pub counted : 0 < refs k q
  pub fits : refs k q < 2 ^ 16
  pub unlinked : (k.pages q).pp_link ≡ none
  pub exists : q < k.npages

-- The state after a reference to `q` is dropped.
unfoldable pub dropped : ℕ → Kernel → Kernel
dropped q k = elim (refs k q == 1) [
  | true ↦ record (set_link q k.page_free_list (set_ref q 0 k)) { page_free_list = some q }
  | false ↦ set_ref q (refs k q - 1) k
]

pub page_decref-dropped :
    (q : ℕ) (k : Kernel) → IsUsed k q → page_decref q k ≡ some (tt, dropped q k)
unfolding page_decref dropped
page_decref-dropped q k u = ground arith

-- What belongs to environments, and the size of memory, are the same.
pub record SameMachine (k k' : Kernel) : Type 0 where
  pub same_envs : k'.envs ≡ k.envs
  pub same_curenv : k'.curenv ≡ k.curenv
  pub same_npages : k'.npages ≡ k.npages

dropped_frame : (q : ℕ) (k : Kernel) → SameMachine k (dropped q k) × ((dropped q k).phys ≡ k.phys)
unfolding dropped
dropped_frame q k = ground arith

pub refs-dropped :
    (q m : ℕ) (k : Kernel)
    → 0 < refs k q
    → refs (dropped q k) m + (if q == m then 1 else 0) ≡ refs k m
unfolding dropped
refs-dropped q m k h = ground arith

abbrev pub flushed_for : ℕ → ℕ → Kernel → Kernel
flushed_for pgdir va k = record k {
  flushed = if in_use_pgdir k pgdir then va ∷ k.flushed else k.flushed;
}

pub link-dropped :
    (q m : ℕ) (k : Kernel)
    → 0 < refs (dropped q k) m
    → ((dropped q k).pages m).pp_link ≡ (k.pages m).pp_link
unfolding dropped
link-dropped q m k h = ground arith

pub removed : ℕ → ℕ → ℕ → ℕ → Kernel → Kernel
removed pgdir va pt q k = flushed_for pgdir va (store pt (ptx va) 0 (dropped q k))

-- `page_remove` of a mapped address: the page loses a reference, the entry is cleared, and the
-- TLB entry is flushed if the directory is in use.
pub page_remove-removed :
    (pgdir va pt : ℕ) (k : Kernel)
    → HasTable k pgdir va pt
    → k.phys pt (ptx va) ≢ 0
    → IsUsed k (pte_addr (k.phys pt (ptx va)))
    → page_remove pgdir va k ≡ some (tt, removed pgdir va pt (pte_addr (k.phys pt (ptx va))) k)
unfolding page_remove removed
page_remove-removed pgdir va pt k h ne u = ground (
  arith,
  lookup-entry pgdir va k h ne u.exists,
  page_decref-dropped (pte_addr (k.phys pt (ptx va))) k u,
)

pub removed_frame :
    (pgdir va pt q : ℕ) (k : Kernel)
    → SameMachine k (removed pgdir va pt q k)
      × ((m i : ℕ)
          → ((m ≡ pt) × (i ≡ ptx va) → ⊥)
          → (removed pgdir va pt q k).phys m i ≡ k.phys m i)
      × ((removed pgdir va pt q k).pages ≡ (dropped q k).pages)
unfolding removed
removed_frame pgdir va pt q k =
    (ground (arith, dropped_frame q k), λ m i a. ground (arith, dropped_frame q k), refl)

pub removed-cleared :
    (pgdir va pt q : ℕ) (k : Kernel) → (removed pgdir va pt q k).phys pt (ptx va) ≡ 0
unfolding removed
removed-cleared pgdir va pt q k = ground arith
