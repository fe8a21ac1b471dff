-- ===== src/Kern/PageAlloc/Free.antt =====
-- `page_free` and `page_decref` of oslab6/kern/pmap.c: giving pages back, once and twice.
use operating_systems_lab.Base.{ℕ, zero, suc, ◌-◌, ◌^◌, ◌<◌, ◌≤◌, ◌≡◌, ◌≢◌, ◌∙◌, sym, arith}
use operating_systems_lab.Base.{Option, none, some, List, [], ◌∷◌, ◌++◌, All-middle, length}
use operating_systems_lab.Base.{Chain, Distinct}
use operating_systems_lab.Kern.State.{Kernel, set_link, set_ref}
use operating_systems_lab.Kern.PageAlloc.{page_free, page_decref}
use operating_systems_lab.Kern.PageAlloc.FreeList.{FreePages, links}

-- A reference fewer: the count falls by one, nothing else changes while references are left.
pub page_decref-shared :
    (x : ℕ) (k : Kernel)
    → 1 < (k.pages x).pp_ref
    → (k.pages x).pp_ref < 2 ^ 16
    → page_decref x k ≡ some (tt, set_ref x ((k.pages x).pp_ref - 1) k)
unfolding page_decref
page_decref-shared x k h fits = ground arith

-- Links from `h` through `xs`, in order, to `e`.
abbrev Walk : (ℕ → Option ℕ) → Option ℕ → List ℕ → Option ℕ → Type 0
Walk link h [] e = h ≡ e
Walk link h (x ∷ xs) e = (h ≡ some x) × Walk link (link x) xs e

Chain-Walk :
    (link : ℕ → Option ℕ) (h e : Option ℕ) (xs zs : List ℕ)
    → Walk link h xs e
    → Chain link h zs
    → (ys : List ℕ) × Chain link e ys × (length ys ≤ length zs)
Chain-Walk link h e [] zs w c = (zs, rw w at c, omega arith)
Chain-Walk link h e (x ∷ xs) [] w c = let p : some x ≡ none = sym (w.0) ∙ c in absurd (cc p)
Chain-Walk link h e (x ∷ xs) (z ∷ zs) w c =
    let p : some x ≡ some z = sym (w.0) ∙ c.0 in
    let q : z ≡ x = cc p in
    let (ys, d, le) = Chain-Walk link (link x) e xs zs w.1 (rw q at (c.1)) in (ys, d, omega arith)

-- A list that comes back to where it was has no end.
no-Chain_of_cycle :
    (n : ℕ) (link : ℕ → Option ℕ) (x : ℕ) (xs zs : List ℕ)
    → length zs ≤ n
    → Walk link (link x) xs (some x)
    → ¬ Chain link (some x) zs
no-Chain_of_cycle n link x xs [] le w c = cc
no-Chain_of_cycle zero link x xs (z ∷ zs) le w c = absurd (omega arith)
no-Chain_of_cycle (suc n) link x xs (z ∷ zs) le w c =
    let q : z ≡ x = cc (c.0) in
    let (ys, d, short) = Chain-Walk link (link x) (some x) xs zs w (rw q at (c.1)) in
    no-Chain_of_cycle n link x xs ys (omega arith) w d

Chain-next :
    (link : ℕ → Option ℕ) (h : Option ℕ) (xs : List ℕ) (x : ℕ) (ys : List ℕ)
    → Chain link h (xs ++ x ∷ ys)
    → Chain link (link x) ys
Chain-next link h [] x ys c = c.1
Chain-next link h (z ∷ xs) x ys c = Chain-next link (link z) xs x ys c.1

-- A page that is free already and has a successor on the free list is recognised by its link:
-- freeing it again panics.
pub double_free-panics :
    (xs : List ℕ) (x y : ℕ) (ys : List ℕ) (k : Kernel)
    → FreePages (xs ++ x ∷ y ∷ ys) k
    → page_free x k ≡ none
unfolding page_free
double_free-panics xs x y ys k f =
    let next = Chain-next (links k) k.page_free_list xs x (y ∷ ys) f.chain in ground arith

Walk-of-Chain :
    (link link' : ℕ → Option ℕ) (h : Option ℕ) (xs : List ℕ) (x : ℕ)
    → ((m : ℕ) → x ≢ m → link' m ≡ link m)
    → Chain link h (xs ++ x ∷ [])
    → Distinct (xs ++ x ∷ [])
    → Walk link' h xs (some x)
Walk-of-Chain link link' h [] x same c d = c.0
Walk-of-Chain link link' h (z ∷ xs) x same c d = (
  c.0,
  rw (same z (λ e. All-middle _ xs x [] d.0 (sym e)))
      (Walk-of-Chain link link' (link z) xs x same c.1 d.1),
)

last-idle :
    (k : Kernel) (xs : List ℕ) (x : ℕ)
    → FreePages (xs ++ x ∷ []) k
    → (links k x ≡ none) × ((k.pages x).pp_ref ≡ 0)
last-idle k xs x f =
    (Chain-next (links k) k.page_free_list xs x [] f.chain, (All-middle _ xs x [] f.idle).0)

-- The last page of the free list has a null link like a page in use: freeing it again is not
-- noticed, and afterwards no list of free pages is threaded from the head any more.
pub double_free-last :
    (xs : List ℕ) (x : ℕ) (k : Kernel)
    → FreePages (xs ++ x ∷ []) k
    → (k' : Kernel) × (page_free x k ≡ some (tt, k')) × ((zs : List ℕ) → ¬ FreePages zs k')
unfolding page_free
double_free-last xs x k f = (
  k',
  ground (arith, last-idle k xs x f),
  λ zs g. no-Chain_of_cycle (length zs) (links k') x xs zs (omega arith) back (g.chain),
)
  where
    k' : Kernel
    k' = record (set_link x k.page_free_list k) { page_free_list = some x }

    here : links k' x ≡ k.page_free_list
    here = ground arith

    back : Walk (links k') (links k' x) xs (some x)
    back = rw here (
        Walk-of-Chain (links k) (links k') k.page_free_list xs x (λ m ne. ground arith) f.chain
          f.distinct)
