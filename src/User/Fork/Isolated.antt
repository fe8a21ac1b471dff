-- ===== src/User/Fork/Isolated.antt =====
-- Parent and child of oslab6/lib/fork.c after the parent wrote to a page that they shared.
use operating_systems_lab.Base.{
  ℕ, ◌*◌, ◌≡◌, ◌≢◌, ◌==◌, sym, ap, ◌∙◌, bit, ◌||◌, true, some, List, ◌∷◌,
}
use mathlib.Core.Path.{subst}
use operating_systems_lab.Kern.State.{Kernel, pgsize, rounddown, pdx, ptx, pte_addr, pte_w}
use operating_systems_lab.User.Fork.{pte_share, pte_cow, duppage, pgfault}
use operating_systems_lab.User.Fork.Entries.{IsCow, IsCow-same}
use operating_systems_lab.User.Fork.Cow.{IsForking, IsShared, duppage-IsShared}
use operating_systems_lab.User.Fork.Copy.{IsFaulting, IsUsed-Fresh}
use operating_systems_lab.User.Fork.Private.{HasCopy, pgfault-HasCopy}

-- After `duppage` made a page copy-on-write for parent and child, and the parent then faults on a
-- write to it, where the count of the page has room for one more reference, with a free page, a page
-- table for `PFTEMP` that maps nothing there, and the pages of all tables apart from each other, from
-- the free page and from the page in question: `pgfault` succeeds, the parent has the free page in its
-- place, writable and with what the page had before `duppage`, and the child still has the page
-- itself, another one, copy-on-write and with what it had.
pub duppage_isolates :
    (k k1 : Kernel) (envid pn c pgdir pt w d pgdir' pt' error fault_va w1 ft np : ℕ) (ps : List ℕ)
    → IsForking k envid (pn * pgsize) c pgdir pt w d pgdir' pt'
    → bit w pte_share ≡ 0
    → ((bit w pte_w == 1) || (bit w pte_cow == 1)) ≡ true
    → duppage envid pn k ≡ some k1
    → rounddown fault_va pgsize ≡ pn * pgsize
    → bit error 1 ≡ 1
    → IsFaulting k1 c pgdir (pn * pgsize) pt w1 ft np ps
    → (np ≢ pgdir') × (np ≢ pt') × (ft ≢ pgdir') × (ft ≢ pt')
    → (pte_addr w ≢ pgdir') × (pte_addr w ≢ pt')
    → (k2 : Kernel) × (pgfault error fault_va k1 ≡ some k2)
      × HasCopy k1 c pgdir (pn * pgsize) pt w1 ft np k2
      × IsCow k2 d pgdir' (pn * pgsize) pt' (pte_addr w)
      × (np ≢ pte_addr w)
      × ((i : ℕ) → k2.phys np i ≡ k.phys (pte_addr w) i)
      × ((i : ℕ) → k2.phys (pte_addr w) i ≡ k.phys (pte_addr w) i)
duppage_isolates k k1 envid pn c pgdir pt w d pgdir' pt' error fault_va w1 ft np ps f no_share
      may_write runs in_page write faulting apart page_apart =
    let va = pn * pgsize in
    let (k0, runs', sh') =
      duppage-IsShared k envid pn c pgdir pt w d pgdir' pt' f no_share may_write in
    let same_state : k0 ≡ k1 = cc (runs, runs') in
    let sh = subst (λ q. IsShared k va c pgdir pt w d pgdir' pt' q) same_state sh' in
    let entry = faulting.has.its_entry in
    let names : pte_addr w1 ≡ pte_addr w = ap pte_addr (sym entry) ∙ sh.parent_cow.names in
    let cow : bit w1 pte_cow ≡ 1 = ap (λ v. bit v pte_cow) (sym entry) ∙ sh.parent_cow.marked in
    let (k2, e, copy) =
      pgfault-HasCopy k1 error fault_va c pgdir pt w1 ft np ps
        (subst (λ a. IsFaulting k1 c pgdir a pt w1 ft np ps) (sym in_page) faulting) write cow in
    let copy' = subst (λ a. HasCopy k1 c pgdir a pt w1 ft np k2) in_page copy in
    let m = copy'.machine in
    let g = page_apart in
    let page = subst (λ q. (q ≢ pgdir) × (q ≢ pt) × (q ≢ ft)) names faulting.page_apart in
    let fresh : pte_addr w ≢ np =
      subst (λ q. q ≢ np) names
        (IsUsed-Fresh k1 (pte_addr w1) (np ∷ ps) faulting.used faulting.available).0 in
    let unshared : (i : ℕ) → k1.phys (pte_addr w) i ≡ k.phys (pte_addr w) i =
      λ i. sh.memory (pte_addr w) i (page.0, page.1, g.0, g.1) in
    (
      k2,
      e,
      copy',
      IsCow-same d pgdir' va pt' (pte_addr w) k1 k2 m.same_envs m.same_npages
          (copy'.memory pgdir' (pdx va) (
            λ q. apart.0 (sym q),
            λ q. f.apart.0 (sym q),
            λ q. f.apart.2 (sym q),
            λ q. apart.2 (sym q),
          ))
          (copy'.memory pt' (ptx va) (
            λ q. apart.1 (sym q),
            λ q. f.apart.1 (sym q),
            λ q. f.apart.3 (sym q),
            λ q. apart.3 (sym q),
          ))
          sh.child_cow,
      λ q. fresh (sym q),
      λ i. copy'.content i ∙ ap (λ q. k1.phys q i) names ∙ unshared i,
      λ i. copy'.memory (pte_addr w) i (fresh, page.0, page.1, page.2) ∙ unshared i,
    )
