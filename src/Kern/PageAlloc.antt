-- ===== src/Kern/PageAlloc.antt =====
-- The physical page allocator of oslab6/kern/pmap.c: the array `pages` with its reference counts,
-- and the free list threaded through it.
pub mod FreeList
pub mod Free
pub mod Init
use operating_systems_lab.Base.{
  ℕ, zero, suc, ◌+◌, ◌-◌, ◌/◌, ◌%◌, ◌^◌, ◌==◌, leb, ltb, if◌then◌else◌,
}
use operating_systems_lab.Base.{Bool, true, false, ◌&&◌, ◌||◌, not, Option, none, some, update}
use operating_systems_lab.Kern.State.{Kernel, M, pure, ◌>>=◌, ◌>>◌, modify}
use operating_systems_lab.Kern.State.{set_link, set_ref}

abbrev pub is_null {ℓ} : {A : Type ℓ} → Option A → Bool
is_null none = true
is_null (some _) = false

-- `memset(page, 0, PGSIZE)`
abbrev pub clear_page : ℕ → Kernel → Kernel
clear_page n k = record k { phys = update k.phys n (λ _. 0) }

-- `page2kva` panics on a page that is not there.
zero_page : Bool → ℕ → M (Unit {0})
zero_page true pp k = if leb k.npages pp then none else some (tt, clear_page pp k)
zero_page false pp k = some (tt, k)

-- The head of the free list is taken off it.
abbrev pub unlink : ℕ → Kernel → Kernel
unlink ret k = set_link ret none (record k { page_free_list = (k.pages ret).pp_link })

-- `alloc_zero` is `alloc_flags & ALLOC_ZERO`.
unfoldable pub page_alloc : Bool → M (Option ℕ)
unfolding zero_page
page_alloc alloc_zero k = elim k.page_free_list [
  | none ↦ some (none, k)
  | some ret ↦ elim (zero_page alloc_zero ret (unlink ret k)) [
    | none ↦ none
    | some (_, k') ↦ some (some ret, k')
  ]
]

unfoldable pub page_free : ℕ → M (Unit {0})
page_free pp k =
    if not ((k.pages pp).pp_ref == 0) || not (is_null (k.pages pp).pp_link)
    then none
    else some (tt, record (set_link pp k.page_free_list k) { page_free_list = some pp })

-- `pp_ref` is a `uint16_t`.
unfoldable pub page_decref : ℕ → M (Unit {0})
unfolding page_free
page_decref pp k =
    let ref = ((k.pages pp).pp_ref + (2 ^ 16 - 1)) % 2 ^ 16 in
    let k' = set_ref pp ref k in if ref == 0 then page_free pp k' else some (tt, k')

-- `pp->pp_ref++`
unfoldable pub incref : ℕ → Kernel → Kernel
incref pp k = set_ref pp (((k.pages pp).pp_ref + 1) % 2 ^ 16) k

-- Page `i` in the loop of `page_init`, given the pages where the hole for devices begins and the
-- kernel's memory ends.
abbrev pub in_use : ℕ → ℕ → ℕ → Bool
in_use io_hole kernel_end i =
    (i == 0) || ((leb io_hole i && ltb i kernel_end) || (i == 0x7000 / 4096))

init_page : ℕ → ℕ → ℕ → Kernel → Kernel
init_page io_hole kernel_end i k =
    if in_use io_hole kernel_end i
    then record k { pages = update k.pages i (record { pp_link = none; pp_ref = 1 }) }
    else record k {
      pages = update k.pages i (record { pp_link = k.page_free_list; pp_ref = 0 });
      page_free_list = some i;
    }

-- The first `n` rounds.
init_pages : ℕ → ℕ → ℕ → Kernel → Kernel
init_pages io_hole kernel_end zero k = k
init_pages io_hole kernel_end (suc n) k =
    init_page io_hole kernel_end n (init_pages io_hole kernel_end n k)

-- `kernel_end` is the physical address `PADDR(boot_alloc(0))`.
unfoldable pub page_init : ℕ → Kernel → Kernel
unfolding init_page init_pages
page_init kernel_end k = init_pages (0x0A0000 / 4096) (kernel_end / 4096) k.npages k
