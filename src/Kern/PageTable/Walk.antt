-- ===== src/Kern/PageTable/Walk.antt =====
-- `pgdir_walk` and `page_lookup` of oslab6/kern/pmap.c.
use operating_systems_lab.Base.{ℕ, ◌<◌, ◌≡◌, ◌≢◌, refl, arith, bit}
use operating_systems_lab.Base.{Bool, true, false, none, some, List, [], ◌∷◌}
use operating_systems_lab.Kern.State.{Kernel, pte_addr, pdx, ptx, set_ref, store}
use operating_systems_lab.Kern.PageAlloc.{page_alloc}
use operating_systems_lab.Kern.PageAlloc.FreeList.{
  FreePages, SameBut, FreePages-frame, Given, page_alloc-cons, page_alloc-nil,
}
use operating_systems_lab.Kern.PageTable.{entry, present, pde_flags, pgdir_walk, page_lookup}
use operating_systems_lab.Kern.PageTable.Entry.{pte_addr-entry, bit-entry}

-- The directory has a page table for `va`, in page `pt`.
pub record HasTable (k : Kernel) (pgdir va pt : ℕ) : Type 0 where
  pub present_pde : present (k.phys pgdir (pdx va)) ≡ true
  pub names : pte_addr (k.phys pgdir (pdx va)) ≡ pt
  pub in_range : pt < k.npages

-- Where the directory has a table, the walk finds the entry and changes nothing.
pub walk-HasTable :
    (create : Bool) (pgdir va : ℕ) {pt : ℕ} (k : Kernel)
    → HasTable k pgdir va pt
    → pgdir_walk pgdir va create k ≡ some (some (pt, ptx va), k)
unfolding pgdir_walk
walk-HasTable create pgdir va k h = ground arith

pub walk-absent :
    (pgdir va : ℕ) (k : Kernel)
    → present (k.phys pgdir (pdx va)) ≡ false
    → pgdir_walk pgdir va false k ≡ some (none, k)
unfolding pgdir_walk
walk-absent pgdir va k h = rw h

-- Without a table and without free pages, the walk fails and changes nothing.
pub walk-no_mem :
    (pgdir va : ℕ) (k : Kernel)
    → present (k.phys pgdir (pdx va)) ≡ false
    → FreePages [] k
    → pgdir_walk pgdir va true k ≡ some (none, k)
unfolding pgdir_walk
walk-no_mem pgdir va k h f = ground (arith, page_alloc-nil true k f)

-- The state after a walk that made page `pt` a page table.
pub record MadeTable (pt : ℕ) (xs : List ℕ) (pgdir va : ℕ) (k k' : Kernel) : Type 0 where
  pub table : HasTable k' pgdir va pt
  pub user_writable : (bit (k'.phys pgdir (pdx va)) 1 ≡ 1) × (bit (k'.phys pgdir (pdx va)) 2 ≡ 1)
  pub cleared : (i : ℕ) → k'.phys pt i ≡ 0
  pub one_ref : (k'.pages pt).pp_ref ≡ 1
  pub rest : FreePages xs k'
  pub others : SameBut pt k k'
  pub memory : (m i : ℕ) → pt ≢ m → ((m ≡ pgdir) × (i ≡ pdx va) → ⊥) → k'.phys m i ≡ k.phys m i

abbrev with_table : ℕ → ℕ → ℕ → Kernel → Kernel
with_table pt pgdir va k = store pgdir (pdx va) (entry pt pde_flags) (set_ref pt 1 k)

-- Without a table, the walk takes the first free page, clears it, counts the reference to it and
-- enters it in the directory, present, writable and for the user.
pub walk-creates :
    (pgdir va pt : ℕ) (xs : List ℕ) (k : Kernel)
    → present (k.phys pgdir (pdx va)) ≡ false
    → pt ≢ pgdir
    → FreePages (pt ∷ xs) k
    → (k' : Kernel) × (pgdir_walk pgdir va true k ≡ some (some (pt, ptx va), k'))
      × MadeTable pt xs pgdir va k k'
unfolding pgdir_walk
walk-creates pgdir va pt xs k h ne f =
    let (k1, e, g) = page_alloc-cons true pt xs k f in
    (with_table pt pgdir va k1, walk_to k1 e g, made k1 g)
  where
    in_range : pt < k.npages
    in_range = f.idle.0.1

    walk_to :
        (k1 : Kernel)
        → page_alloc true k ≡ some (some pt, k1)
        → Given true pt xs k k1
        → pgdir_walk pgdir va true k ≡ some (some (pt, ptx va), with_table pt pgdir va k1)
    walk_to k1 e g = ground (arith, pte_addr-entry pt pde_flags (omega arith))

    made :
        (k1 : Kernel)
        → Given true pt xs k k1
        → MadeTable pt xs pgdir va k (with_table pt pgdir va k1)
    made k1 g = record {
      table = record {
        present_pde = ground (arith, bit-entry pt pde_flags 0 (omega arith));
        names = ground (arith, pte_addr-entry pt pde_flags (omega arith));
        in_range = ground arith;
      };
      user_writable = (
        ground (arith, bit-entry pt pde_flags 1 (omega arith)),
        ground (arith, bit-entry pt pde_flags 2 (omega arith)),
      );
      cleared = λ i. ground (arith, g.memory pt i);
      one_ref = ground arith;
      rest =
          FreePages-frame k1 (with_table pt pgdir va k1) pt xs (λ m ne. ground arith, refl) refl
            f.distinct.0 g.rest;
      others = (λ m ne. ground (arith, g.others.0 m), ground arith);
      memory = λ m i a b. ground (arith, g.memory m i);
    }

-- `page_lookup` where there is no table, and where the entry is zero.
pub lookup-absent :
    (pgdir va : ℕ) (k : Kernel)
    → present (k.phys pgdir (pdx va)) ≡ false
    → page_lookup pgdir va k ≡ some (none, k)
unfolding page_lookup
lookup-absent pgdir va k h = ground (arith, walk-absent pgdir va k h)

pub lookup-zero :
    (pgdir va : ℕ) {pt : ℕ} (k : Kernel)
    → HasTable k pgdir va pt
    → k.phys pt (ptx va) ≡ 0
    → page_lookup pgdir va k ≡ some (none, k)
unfolding page_lookup
lookup-zero pgdir va k h e = ground (arith, walk-HasTable false pgdir va k h)

-- The entry is not zero and names a page: present or not, that page is returned.
pub lookup-entry :
    (pgdir va : ℕ) {pt : ℕ} (k : Kernel)
    → HasTable k pgdir va pt
    → k.phys pt (ptx va) ≢ 0
    → pte_addr (k.phys pt (ptx va)) < k.npages
    → page_lookup pgdir va k ≡ some (some (pte_addr (k.phys pt (ptx va)), pt, ptx va), k)
unfolding page_lookup
lookup-entry pgdir va k h ne lt = ground (arith, walk-HasTable false pgdir va k h)
