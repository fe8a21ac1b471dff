-- ===== src/Kern/PageAlloc/Init.antt =====
-- What `page_init` of oslab6/kern/pmap.c leaves on the free list.
use operating_systems_lab.Base.{
  ℕ, zero, suc, ◌*◌, ◌/◌, ◌+◌, ◌%◌, ◌<◌, ◌≤◌, ◌≡◌, ◌≢◌, ◌↔◌, refl, ◌∙◌, arith, if◌then◌else◌,
}
use operating_systems_lab.Base.{
  true, false, none, some, List, [], ◌∷◌, All, All-map, Has, Fresh, Bool-cases, ◌⊎◌, inl, inr,
}
use operating_systems_lab.Base.{Chain, Chain-frame}
use native.Mathlib.Decide.{dec_lt}
use operating_systems_lab.Kern.State.{Kernel}
use operating_systems_lab.Kern.PageAlloc.{in_use, init_page, init_pages, page_init}
use operating_systems_lab.Kern.PageAlloc.FreeList.{
  FreePages, IsIdle, SameBut, links, links-frame, IsIdle-frame,
}

-- The pages below `n` that are not in use, the highest first.
free_below : ℕ → ℕ → ℕ → List ℕ
free_below io_hole kernel_end zero = []
free_below io_hole kernel_end (suc n) =
    let rest = free_below io_hole kernel_end n in
    if in_use io_hole kernel_end n then rest else n ∷ rest

abbrev Below : ℕ → List ℕ → Type 0
Below n xs = All (λ x. x < n) xs

free_below-Below : (io_hole kernel_end n : ℕ) → Below n (free_below io_hole kernel_end n)
unfolding free_below
free_below-Below io_hole kernel_end zero = tt
free_below-Below io_hole kernel_end (suc n) = elim (Bool-cases (in_use io_hole kernel_end n)) [
  | inl e ↦ rw e (All-map (λ x lt. omega arith) _ (free_below-Below io_hole kernel_end n))
  | inr e ↦
      rw e (omega arith, All-map (λ x lt. omega arith) _ (free_below-Below io_hole kernel_end n))
]

init_page-SameBut :
    (io_hole kernel_end n : ℕ) (k : Kernel) → SameBut n k (init_page io_hole kernel_end n k)
unfolding init_page
init_page-SameBut io_hole kernel_end n k = (λ m ne. ground arith, ground arith)

npages-init_pages :
    (io_hole kernel_end n : ℕ) (k : Kernel) → (init_pages io_hole kernel_end n k).npages ≡ k.npages
unfolding init_pages
npages-init_pages io_hole kernel_end zero k = refl
npages-init_pages io_hole kernel_end (suc n) k =
    (init_page-SameBut io_hole kernel_end n _).1 ∙ npages-init_pages io_hole kernel_end n k

init_page-used :
    (io_hole kernel_end n : ℕ) (k : Kernel)
    → in_use io_hole kernel_end n ≡ true
    → (init_page io_hole kernel_end n k).page_free_list ≡ k.page_free_list
unfolding init_page
init_page-used io_hole kernel_end n k e = rw e

init_page-free :
    (io_hole kernel_end n : ℕ) (k : Kernel)
    → in_use io_hole kernel_end n ≡ false
    → let k' = init_page io_hole kernel_end n k in
      (k'.page_free_list ≡ some n) × (links k' n ≡ k.page_free_list) × ((k'.pages n).pp_ref ≡ 0)
unfolding init_page
init_page-free io_hole kernel_end n k e = rw e (refl, ground arith, ground arith)

-- One round extends the list by the page, or leaves it.
init_page-FreePages :
    (io_hole kernel_end n : ℕ) (xs : List ℕ) (k : Kernel)
    → FreePages xs k
    → Fresh n xs
    → n < k.npages
    → FreePages
        (if in_use io_hole kernel_end n then xs else n ∷ xs)
        (init_page io_hole kernel_end n k)
init_page-FreePages io_hole kernel_end n xs k f fresh lt =
    elim (Bool-cases (in_use io_hole kernel_end n)) [
      | inl e ↦ rw e (record {
        chain = rw (init_page-used io_hole kernel_end n k e) old;
        distinct = f.distinct;
        idle = idle;
      })
      | inr e ↦ rw e (
          let facts = init_page-free io_hole kernel_end n k e in
          record {
            chain = (facts.0, rw (facts.1) old);
            distinct = (fresh, f.distinct);
            idle = ((facts.2, rw (same.1) lt), idle);
          })
    ]
  where
    k' : Kernel
    k' = init_page io_hole kernel_end n k

    same : SameBut n k k'
    same = init_page-SameBut io_hole kernel_end n k

    old : Chain (links k') k.page_free_list xs
    old =
        Chain-frame (links k) (links k') k.page_free_list xs f.chain
          (links-frame k k' n xs same fresh)

    idle : All (IsIdle k') xs
    idle = IsIdle-frame k k' n xs same fresh f.idle

init_pages-FreePages :
    (io_hole kernel_end n : ℕ) (k : Kernel)
    → k.page_free_list ≡ none
    → n ≤ k.npages
    → FreePages (free_below io_hole kernel_end n) (init_pages io_hole kernel_end n k)
unfolding init_pages free_below
init_pages-FreePages io_hole kernel_end zero k e le = record { chain = e; distinct = tt; idle = tt }
init_pages-FreePages io_hole kernel_end (suc n) k e le =
    init_page-FreePages io_hole kernel_end n (free_below io_hole kernel_end n) _
      (init_pages-FreePages io_hole kernel_end n k e (omega arith))
      (All-map (λ x lt. λ q. absurd (omega arith)) _ (free_below-Below io_hole kernel_end n))
      (rw (npages-init_pages io_hole kernel_end n k) le)

-- A physical page that nothing uses at boot, when the kernel's memory ends at `kernel_end`: not
-- the first, not that of the boot code of the other processors, and neither in the hole for
-- devices nor in the kernel.
abbrev pub IsUnused : ℕ → ℕ → Type 0
IsUnused kernel_end n =
    (0 < n) × (n * 4096 ≢ 0x7000) × ((n * 4096 + 4096 ≤ 0xA0000) ⊎ (kernel_end ≤ n * 4096))

in_use-IsUnused :
    (kernel_end n : ℕ)
    → kernel_end % 4096 ≡ 0
    → (in_use (0x0A0000 / 4096) (kernel_end / 4096) n ≡ false) ↔ IsUnused kernel_end n
in_use-IsUnused kernel_end n aligned = (λ e. ground arith, λ u. ground arith)

Has-free_below :
    (io_hole kernel_end m n : ℕ)
    → Has m (free_below io_hole kernel_end n) ↔ (m < n) × (in_use io_hole kernel_end m ≡ false)
unfolding free_below
Has-free_below io_hole kernel_end m zero = (λ h. absurd h, λ h. absurd (omega arith))
Has-free_below io_hole kernel_end m (suc n) =
    let ih = Has-free_below io_hole kernel_end m n in
    elim (Bool-cases (in_use io_hole kernel_end n)) [
      | inl e ↦
          rw e ((λ h. (omega (arith, (ih.0 h).0), (ih.0 h).1)), λ h. ih.1 (still_below e h, h.1))
      | inr e ↦ rw e (from_cons e ih.0, to_cons ih.1)
    ]
  where
    still_below :
        in_use io_hole kernel_end n ≡ true
        → (m < suc n) × (in_use io_hole kernel_end m ≡ false)
        → m < n
    still_below e h = ground arith

    from_cons :
        in_use io_hole kernel_end n ≡ false
        → (Has m (free_below io_hole kernel_end n)
            → (m < n) × (in_use io_hole kernel_end m ≡ false))
        → Has m (n ∷ free_below io_hole kernel_end n)
        → (m < suc n) × (in_use io_hole kernel_end m ≡ false)
    from_cons e ih (inl q) = (omega arith, rw q e)
    from_cons e ih (inr h) = (omega (arith, (ih h).0), (ih h).1)

    to_cons :
        ((m < n) × (in_use io_hole kernel_end m ≡ false) → Has m (free_below io_hole kernel_end n))
        → (m < suc n) × (in_use io_hole kernel_end m ≡ false)
        → Has m (n ∷ free_below io_hole kernel_end n)
    to_cons ih h = elim (dec_lt m n) [ yes lt ↦ inr (ih (lt, h.1)) | no ge ↦ inl (omega arith) ]

-- On a machine that starts with an empty list, `page_init` links exactly the unused pages below
-- `npages` into the free list, each once and with no references.
pub page_init_lem :
    (kernel_end : ℕ) (k : Kernel)
    → kernel_end % 4096 ≡ 0
    → k.page_free_list ≡ none
    → (xs : List ℕ) × FreePages xs (page_init kernel_end k)
      × ((m : ℕ) → Has m xs ↔ (m < k.npages) × IsUnused kernel_end m)
unfolding page_init
page_init_lem kernel_end k aligned e = (
  free_below (0x0A0000 / 4096) (kernel_end / 4096) k.npages,
  init_pages-FreePages (0x0A0000 / 4096) (kernel_end / 4096) k.npages k e (omega arith),
  λ m.
      let h = Has-free_below (0x0A0000 / 4096) (kernel_end / 4096) m k.npages in
      let u = in_use-IsUnused kernel_end m aligned in
      (λ x. ((h.0 x).0, u.0 (h.0 x).1), λ x. h.1 (x.0, u.1 x.1)),
)
