-- ===== src/Kern/PageAlloc/FreeList.antt =====
-- The free list of oslab6/kern/pmap.c as a stack of page numbers.
use operating_systems_lab.Base.{ℕ, ◌<◌, ◌==◌, ◌≡◌, ◌≢◌, refl, ap, ◌&&◌, arith, if◌then◌else◌}
use operating_systems_lab.Base.{Bool, true, false, Option, none, some, List, [], ◌∷◌, update}
use operating_systems_lab.Base.{All, All-map, Chain, Chain-frame, Fresh, Distinct}
use operating_systems_lab.Kern.State.{Kernel, set_link}
use operating_systems_lab.Kern.PageAlloc.{page_alloc, page_free}

abbrev pub links : Kernel → ℕ → Option ℕ
links k n = (k.pages n).pp_link

abbrev pub IsIdle : Kernel → ℕ → Type 0
IsIdle k n = ((k.pages n).pp_ref ≡ 0) × (n < k.npages)

-- `xs` are the free pages, in the order in which they will be given out: linked from the head,
-- without repetition, in range, and referred to by nobody.
pub record FreePages (xs : List ℕ) (k : Kernel) : Type 0 where
  pub chain : Chain (links k) k.page_free_list xs
  pub distinct : Distinct xs
  pub idle : All (IsIdle k) xs

-- Two states that differ at page `n` alone.
abbrev pub SameBut : ℕ → Kernel → Kernel → Type 0
SameBut n k k' = ((m : ℕ) → n ≢ m → k'.pages m ≡ k.pages m) × (k'.npages ≡ k.npages)

-- A change of page `n` alone leaves what is said of the others.
pub links-frame :
    (k k' : Kernel) (n : ℕ) (xs : List ℕ)
    → SameBut n k k'
    → Fresh n xs
    → All (λ x. links k' x ≡ links k x) xs
links-frame k k' n xs same = All-map (λ m h. ap (λ p. p.pp_link) (same.0 m h)) xs

pub IsIdle-frame :
    (k k' : Kernel) (n : ℕ) (xs : List ℕ)
    → SameBut n k k'
    → Fresh n xs
    → All (IsIdle k) xs
    → All (IsIdle k') xs
IsIdle-frame k k' n [] same f h = tt
IsIdle-frame k k' n (x ∷ xs) same f h =
    ((rw (same.0 x f.0) h.0.0, rw (same.1) h.0.1), IsIdle-frame k k' n xs same f.1 h.1)

pub FreePages-frame :
    (k k' : Kernel) (n : ℕ) (xs : List ℕ)
    → SameBut n k k'
    → k'.page_free_list ≡ k.page_free_list
    → Fresh n xs
    → FreePages xs k
    → FreePages xs k'
FreePages-frame k k' n xs same e fresh f = record {
  chain = rw e (
      Chain-frame (links k) (links k') k.page_free_list xs f.chain
        (links-frame k k' n xs same fresh));
  distinct = f.distinct;
  idle = IsIdle-frame k k' n xs same fresh f.idle;
}

-- What `page_alloc` leaves when it gives out page `x`.
pub record Given (zero_it : Bool) (x : ℕ) (xs : List ℕ) (k k' : Kernel) : Type 0 where
  pub rest : FreePages xs k'
  pub unlinked : k'.pages x ≡ record { pp_link = none; pp_ref = 0 }
  pub others : SameBut x k k'
  pub memory : (m i : ℕ) → k'.phys m i ≡ (if zero_it && (x == m) then 0 else k.phys m i)
  pub elsewhere :
      (k'.envs ≡ k.envs)
      × (k'.env_free_list ≡ k.env_free_list)
      × (k'.kern_pgdir ≡ k.kern_pgdir)
      × (k'.curenv ≡ k.curenv)

given : Bool → ℕ → Kernel → Kernel
given zero_it x k = record (set_link x none (record k { page_free_list = links k x })) {
  phys = if zero_it then update k.phys x (λ _. 0) else k.phys;
}

given-Given :
    (zero_it : Bool) (x : ℕ) (xs : List ℕ) (k : Kernel)
    → FreePages (x ∷ xs) k
    → Given zero_it x xs k (given zero_it x k)
unfolding given
given-Given zero_it x xs k f = record {
  rest = record {
    chain =
        Chain-frame (links k) (links k') k'.page_free_list xs f.chain.1
          (links-frame k k' x xs same f.distinct.0);
    distinct = f.distinct.1;
    idle = IsIdle-frame k k' x xs same f.distinct.0 f.idle.1;
  };
  unlinked = ground arith;
  others = same;
  memory = λ m i. ground arith;
  elsewhere = (refl, refl, refl, refl);
}
  where
    k' : Kernel
    k' = given zero_it x k

    same : SameBut x k k'
    same = (λ m ne. ground arith, refl)

-- `page_alloc` gives out the page at the head of the free list, unlinked and unreferenced, and
-- cleared if that was asked for; the rest of the list, the other pages and their contents stay.
pub page_alloc-cons :
    (zero_it : Bool) (x : ℕ) (xs : List ℕ) (k : Kernel)
    → FreePages (x ∷ xs) k
    → (k' : Kernel) × (page_alloc zero_it k ≡ some (some x, k')) × Given zero_it x xs k k'
unfolding page_alloc given
page_alloc-cons true x xs k f = (given true x k, ground arith, given-Given true x xs k f)
page_alloc-cons false x xs k f = (given false x k, ground arith, given-Given false x xs k f)

-- With an empty free list `page_alloc` returns the null pointer and changes nothing.
pub page_alloc-nil :
    (zero_it : Bool) (k : Kernel) → FreePages [] k → page_alloc zero_it k ≡ some (none, k)
unfolding page_alloc
page_alloc-nil zero_it k f = ground arith

pub page_free-cons :
    (x : ℕ) (xs : List ℕ) (k : Kernel)
    → FreePages xs k
    → Fresh x xs
    → x < k.npages
    → k.pages x ≡ record { pp_link = none; pp_ref = 0 }
    → (k' : Kernel) × (page_free x k ≡ some (tt, k'))
      × FreePages (x ∷ xs) k'
      × SameBut x k k'
      × (k'.phys ≡ k.phys)
unfolding page_free
page_free-cons x xs k f fresh lt e = (
  k',
  ground arith,
  record {
    chain = (
      refl,
      rw here (
          Chain-frame (links k) (links k') k.page_free_list xs f.chain
            (links-frame k k' x xs same fresh)),
    );
    distinct = (fresh, f.distinct);
    idle = (ground arith, IsIdle-frame k k' x xs same fresh f.idle);
  },
  same,
  refl,
)
  where
    k' : Kernel
    k' = record (set_link x k.page_free_list k) { page_free_list = some x }

    same : SameBut x k k'
    same = (λ m ne. ground arith, refl)

    here : links k' x ≡ k.page_free_list
    here = ground arith
