-- ===== src/User/Fork/Entries.antt =====
-- Page table entries of programs that oslab6/lib/fork.c reads and makes copy-on-write.
use operating_systems_lab.Base.{
  ℕ, ◌<◌, ◌≡◌, ◌≢◌, ◌==◌, refl, sym, ap, ◌∙◌, arith, bit, if◌then◌else◌,
}
use operating_systems_lab.Base.{true, none, some, Option}
use mathlib.Core.Path.{subst}
use operating_systems_lab.Kern.State.{Kernel, pdx, ptx, pte_addr, pte_w}
use operating_systems_lab.Kern.PageTable.{present}
use operating_systems_lab.Kern.PageTable.Walk.{HasTable}
use operating_systems_lab.Kern.PageTable.Insert.{Inserted}
use operating_systems_lab.Kern.Syscall.Share.{HasEntry}
use operating_systems_lab.User.Fork.{
  pte_cow, cow_perm, page_entry, own_dir, uvpt_entry, readable_page, writable_page,
}

module _ (k : Kernel) (c pgdir va pt w : ℕ) (current : k.curenv ≡ some c)
    (has : HasEntry k c pgdir va pt w) where
  pub own_entry : uvpt_entry va k ≡ some w
  unfolding uvpt_entry page_entry
  own_entry =
      let t = has.its_table in
      let dir : own_dir k ≡ some pgdir =
        ap (λ (q : Option ℕ). elim q [ none ↦ none | some e ↦ (k.envs e).env_pgdir ]) current
        ∙ has.its_dir in
      ap (λ (q : Option ℕ). elim q [ none ↦ none | some d ↦ page_entry d va k ]) dir
      ∙ rw (t.present_pde, t.names, has.its_entry) refl

-- Addresses in one page have one entry.
pub uvpt_entry-page :
    (a b : ℕ) (k : Kernel) → pdx a ≡ pdx b → ptx a ≡ ptx b → uvpt_entry a k ≡ uvpt_entry b k
unfolding uvpt_entry page_entry
uvpt_entry-page a b k p q =
    ap
      (λ i. elim (own_dir k) [
        | none ↦ none
        | some d ↦
            if present (k.phys d i) then some (k.phys (pte_addr (k.phys d i)) (ptx a)) else none
      ])
      p
    ∙ ap
        (λ j. elim (own_dir k) [
          | none ↦ none
          | some d ↦
              if present (k.phys d (pdx b))
              then some (k.phys (pte_addr (k.phys d (pdx b))) j)
              else none
        ])
        q

-- Environment `i` may read page `pg` at `va`, and a write to it is one to a copy.
pub record IsCow (k : Kernel) (i pgdir va pt pg : ℕ) : Type 0 where
  pub dir : (k.envs i).env_pgdir ≡ some pgdir
  pub table : HasTable k pgdir va pt
  pub names : pte_addr (k.phys pt (ptx va)) ≡ pg
  pub is_present : present (k.phys pt (ptx va)) ≡ true
  pub read_only : bit (k.phys pt (ptx va)) pte_w ≡ 0
  pub marked : bit (k.phys pt (ptx va)) pte_cow ≡ 1

-- A page mapped with `PTE_COW | PTE_U | PTE_P` is copy-on-write.
pub Inserted-IsCow :
    (i pgdir pg va pt w : ℕ) (k k' : Kernel)
    → (k'.envs i).env_pgdir ≡ some pgdir
    → Inserted pgdir pg va cow_perm pt w k k'
    → IsCow k' i pgdir va pt pg
Inserted-IsCow i pgdir pg va pt w k k' dir ins = record {
  dir = dir;
  table = ins.table;
  names = ins.names_page;
  is_present = ap (λ n. n == 1) (ins.flags 0 (omega arith));
  read_only = ins.flags 1 (omega arith);
  marked = ins.flags 11 (omega arith);
}

-- Where the words are the same, so is the entry.
pub HasEntry-same :
    (i pgdir va pt w : ℕ) (k k' : Kernel)
    → (k'.envs i).env_pgdir ≡ (k.envs i).env_pgdir
    → k'.npages ≡ k.npages
    → k'.phys pgdir (pdx va) ≡ k.phys pgdir (pdx va)
    → k'.phys pt (ptx va) ≡ k.phys pt (ptx va)
    → HasEntry k i pgdir va pt w
    → HasEntry k' i pgdir va pt w
HasEntry-same i pgdir va pt w k k' dir npages pde pte has = record {
  its_dir = dir ∙ has.its_dir;
  its_table = record {
    present_pde = ap present pde ∙ has.its_table.present_pde;
    names = ap pte_addr pde ∙ has.its_table.names;
    in_range = subst (λ n. pt < n) (sym npages) has.its_table.in_range;
  };
  its_entry = pte ∙ has.its_entry;
}

-- An entry elsewhere is as before.
pub HasEntry-frame :
    (i pgdir va pt w pgdir' pg va' perm pt' w' : ℕ) (k k' : Kernel)
    → HasEntry k i pgdir va pt w
    → Inserted pgdir' pg va' perm pt' w' k k'
    → (pt' ≢ pgdir) × (pgdir' ≢ pgdir) × (pt' ≢ pt) × (pgdir' ≢ pt)
    → HasEntry k' i pgdir va pt w
HasEntry-frame i pgdir va pt w pgdir' pg va' perm pt' w' k k' has ins apart =
    let m = ins.machine in
    let pde : k'.phys pgdir (pdx va) ≡ k.phys pgdir (pdx va) =
      ins.memory pgdir (pdx va) (λ q. apart.0 (sym q.0)) (λ q. apart.1 (sym q.0)) in
    let pte : k'.phys pt (ptx va) ≡ k.phys pt (ptx va) =
      ins.memory pt (ptx va) (λ q. apart.2 (sym q.0)) (λ q. apart.3 (sym q.0)) in
    HasEntry-same i pgdir va pt w k k' (ap (λ f. (f i).env_pgdir) m.same_envs) m.same_npages pde pte
      has

-- The entry of an environment in pages that did not change.
pub IsCow-same :
    (i pgdir va pt pg : ℕ) (k k' : Kernel)
    → k'.envs ≡ k.envs
    → k'.npages ≡ k.npages
    → k'.phys pgdir (pdx va) ≡ k.phys pgdir (pdx va)
    → k'.phys pt (ptx va) ≡ k.phys pt (ptx va)
    → IsCow k i pgdir va pt pg
    → IsCow k' i pgdir va pt pg
IsCow-same i pgdir va pt pg k k' envs npages pde pte cow =
    let has =
      HasEntry-same i pgdir va pt (k.phys pt (ptx va)) k k' (ap (λ f. (f i).env_pgdir) envs) npages
        pde pte (record { its_dir = cow.dir; its_table = cow.table; its_entry = refl }) in
    record {
      dir = has.its_dir;
      table = has.its_table;
      names = ap pte_addr pte ∙ cow.names;
      is_present = ap present pte ∙ cow.is_present;
      read_only = ap (λ v. bit v pte_w) pte ∙ cow.read_only;
      marked = ap (λ v. bit v pte_cow) pte ∙ cow.marked;
    }

pub IsCow-frame :
    (i pgdir va pt pg pgdir' pg' va' perm pt' w' : ℕ) (k k' : Kernel)
    → IsCow k i pgdir va pt pg
    → Inserted pgdir' pg' va' perm pt' w' k k'
    → (pt' ≢ pgdir) × (pgdir' ≢ pgdir) × (pt' ≢ pt) × (pgdir' ≢ pt)
    → IsCow k' i pgdir va pt pg
IsCow-frame i pgdir va pt pg pgdir' pg' va' perm pt' w' k k' cow ins apart =
    let m = ins.machine in
    IsCow-same i pgdir va pt pg k k' m.same_envs m.same_npages
      (ins.memory pgdir (pdx va) (λ q. apart.0 (sym q.0)) (λ q. apart.1 (sym q.0)))
      (ins.memory pt (ptx va) (λ q. apart.2 (sym q.0)) (λ q. apart.3 (sym q.0))) cow

-- The entry of another address with another table in the same directory.
pub HasEntry-beside :
    (i pgdir va pt w pg va' perm pt' w' : ℕ) (k k' : Kernel)
    → HasEntry k i pgdir va pt w
    → Inserted pgdir pg va' perm pt' w' k k'
    → (pt' ≢ pgdir) × (pt ≢ pgdir) × (pt' ≢ pt) × (pdx va' ≢ pdx va)
    → HasEntry k' i pgdir va pt w
HasEntry-beside i pgdir va pt w pg va' perm pt' w' k k' has ins apart =
    let m = ins.machine in
    let pde : k'.phys pgdir (pdx va) ≡ k.phys pgdir (pdx va) =
      ins.memory pgdir (pdx va) (λ q. apart.0 (sym q.0)) (λ q. apart.3 (sym q.1)) in
    let pte : k'.phys pt (ptx va) ≡ k.phys pt (ptx va) =
      ins.memory pt (ptx va) (λ q. apart.2 (sym q.0)) (λ q. apart.1 q.0) in
    HasEntry-same i pgdir va pt w k k' (ap (λ f. (f i).env_pgdir) m.same_envs) m.same_npages pde pte
      has

-- A page that the program may read, and one that it may write.
pub readable :
    (k : Kernel) (c pgdir va pt w : ℕ)
    → k.curenv ≡ some c
    → HasEntry k c pgdir va pt w
    → (bit w 0 ≡ 1) × (bit w 2 ≡ 1)
    → readable_page va k ≡ some (pte_addr w)
unfolding readable_page
readable k c pgdir va pt w current has b =
    rw (own_entry k c pgdir va pt w current has, readable_page, b.0, b.1) refl

pub writable :
    (k : Kernel) (c pgdir va pt w : ℕ)
    → k.curenv ≡ some c
    → HasEntry k c pgdir va pt w
    → (bit w 0 ≡ 1) × (bit w 1 ≡ 1) × (bit w 2 ≡ 1)
    → writable_page va k ≡ some (pte_addr w)
unfolding writable_page
writable k c pgdir va pt w current has b =
    rw (own_entry k c pgdir va pt w current has, writable_page, b.0, b.1, b.2) refl
