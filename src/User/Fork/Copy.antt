-- ===== src/User/Fork/Copy.antt =====
-- The system calls of `pgfault` of oslab6/lib/fork.c, which give the program a copy of a page.
use operating_systems_lab.Base.{ℕ, ◌+◌, ◌^◌, ◌<◌, ◌≡◌, ◌≢◌, refl, sym, ap, ◌∙◌, arith}
use operating_systems_lab.Base.{true, some, List, ◌∷◌, All-map, Fresh}
use mathlib.Core.Path.{subst}
use operating_systems_lab.Kern.State.{Kernel, ok, pdx, ptx, pte_addr}
use operating_systems_lab.Kern.PageAlloc.FreeList.{FreePages, FreePages-frame, Given, IsIdle}
use operating_systems_lab.Kern.PageTable.{present}
use operating_systems_lab.Kern.PageTable.Remove.{IsUsed, refs}
use operating_systems_lab.Kern.PageTable.Insert.{Inserted}
use operating_systems_lab.Kern.Syscall.{finish, sys_page_map, sys_page_alloc}
use operating_systems_lab.Kern.Syscall.Permission.{envid2env_self}
use operating_systems_lab.Kern.Syscall.Memory.{GoodVa, page_alloc_inserts}
use operating_systems_lab.Kern.Syscall.Share.{HasEntry, page_map_shares}
use operating_systems_lab.User.Fork.{full_perm, read_perm, pftemp}
use operating_systems_lab.User.Fork.Entries.{HasEntry-same, HasEntry-beside}

-- The program that runs is environment `c`, with the entry `w` for the page at `va`, and nothing
-- mapped at `PFTEMP`, in another table `ft`; `np` is the first free page. The pages of its tables
-- are apart, and apart from the page mapped at `va` and from the free one.
pub record IsFaulting (k : Kernel) (c pgdir va pt w ft np : ℕ) (ps : List ℕ) : Type 0 where
  pub current : k.curenv ≡ some c
  pub good : GoodVa va
  pub has : HasEntry k c pgdir va pt w
  pub temp : HasEntry k c pgdir pftemp ft 0
  pub other_table : pdx va ≢ pdx pftemp
  pub own_tables : (pt ≢ pgdir) × (ft ≢ pgdir) × (ft ≢ pt)
  pub is_present : present w ≡ true
  pub used : IsUsed k (pte_addr w)
  pub room : refs k (pte_addr w) + 1 < 2 ^ 16
  pub available : FreePages (np ∷ ps) k
  pub new_apart : (np ≢ pgdir) × (np ≢ pt) × (np ≢ ft)
  pub page_apart : (pte_addr w ≢ pgdir) × (pte_addr w ≢ pt) × (pte_addr w ≢ ft)

-- A page in use is not on the free list.
pub IsUsed-Fresh : (k : Kernel) (q : ℕ) (xs : List ℕ) → IsUsed k q → FreePages xs k → Fresh q xs
IsUsed-Fresh k q xs u free = All-map (λ x idle e. absurd (differ x idle e)) xs free.idle
  where
    differ : (x : ℕ) → IsIdle k x → q ≡ x → ⊥
    differ x idle e = let c = u.counted in ground (arith, idle.0)

pub not_self : {a b : ℕ} → a ≢ b → b ≢ a
not_self h e = h (sym e)

pub Inserted-HasEntry :
    (i pgdir pg va perm pt w : ℕ) (k k' : Kernel)
    → (k'.envs i).env_pgdir ≡ some pgdir
    → Inserted pgdir pg va perm pt w k k'
    → HasEntry k' i pgdir va pt (k'.phys pt (ptx va))
Inserted-HasEntry i pgdir pg va perm pt w k k' dir ins = record {
  its_dir = dir;
  its_table = ins.table;
  its_entry = refl;
}

-- An entry in pages that were not given out.
pub Given-HasEntry :
    (i pgdir va pt w np : ℕ) (ps : List ℕ) (k k' : Kernel)
    → HasEntry k i pgdir va pt w
    → Given true np ps k k'
    → (np ≢ pgdir) × (np ≢ pt)
    → HasEntry k' i pgdir va pt w
Given-HasEntry i pgdir va pt w np ps k k' has g apart =
    HasEntry-same i pgdir va pt w k k' (ap (λ f. (f i).env_pgdir) g.elsewhere.0) g.others.1
      (ground (arith, g.memory pgdir (pdx va))) (ground (arith, g.memory pt (ptx va))) has

module _ (k : Kernel) (c pgdir va pt w ft np : ℕ) (ps : List ℕ)
    (f : IsFaulting k c pgdir va pt w ft np ps) where
  abbrev pub pg : ℕ
  pg = pte_addr w

  -- The page is mapped at `PFTEMP`.
  pub mapped_twice :
      (k1 : Kernel) × (sys_page_map 0 va 0 pftemp read_perm k ≡ finish (ok 0) k1)
      × Inserted pgdir pg pftemp read_perm ft 0 k k1
  mapped_twice =
      let r = f.room in
      let p = f.is_present in
      let self = envid2env_self k c f.current 0 true refl in
      page_map_shares k 0 va 0 pftemp read_perm c pgdir pt w c pgdir ft 0 self self f.good
        (omega arith) (refl, omega arith) f.has f.temp
        (record { not_zero = λ e. absurd (ground arith); exists = f.used.exists }) (ground arith)
        f.own_tables.1 r (λ h. cc)

  module _ (k1 : Kernel) (ins : Inserted pgdir pg pftemp read_perm ft 0 k k1) where
    abbrev pub w1 : ℕ
    w1 = k1.phys ft (ptx pftemp)

    pub temp1 : HasEntry k1 c pgdir pftemp ft w1
    temp1 =
        Inserted-HasEntry c pgdir pg pftemp read_perm ft 0 k k1
          (ap (λ g. (g c).env_pgdir) ins.machine.same_envs ∙ f.temp.its_dir) ins

    has1 : HasEntry k1 c pgdir va pt w
    has1 =
        HasEntry-beside c pgdir va pt w pg pftemp read_perm ft 0 k k1 f.has ins
          (f.own_tables.1, f.own_tables.0, f.own_tables.2, not_self f.other_table)

    pub refs1 : refs k1 pg ≡ refs k pg + 1
    refs1 = ground (arith, ins.counts pg)

    pub used1 : IsUsed k1 pg
    used1 =
        let r = f.room in
        let e = refs1 in
        record {
          counted = omega arith;
          fits = omega arith;
          unlinked = ins.links pg (omega arith) ∙ f.used.unlinked;
          exists = subst (λ n. pg < n) (sym ins.machine.same_npages) f.used.exists;
        }

    pub fresh : Fresh pg (np ∷ ps)
    fresh = IsUsed-Fresh k pg (np ∷ ps) f.used f.available

    free1 : FreePages (np ∷ ps) k1
    free1 =
        FreePages-frame k k1 pg (np ∷ ps) ((ins.only refl).0, ins.machine.same_npages)
          (ins.only refl).1 fresh f.available

    pub current1 : k1.curenv ≡ some c
    current1 = ins.machine.same_curenv ∙ f.current

    -- A new page takes its place at `va`.
    pub replaced :
        (k1' : Kernel) × (k2 : Kernel) × Given true np ps k1 k1'
        × (sys_page_alloc 0 va full_perm k1 ≡ finish (ok 0) k2)
        × Inserted pgdir np va full_perm pt w k1' k2
    replaced =
        let e = has1.its_entry in
        let (k1', k2, g, runs, ins2) =
          page_alloc_inserts k1 0 c pgdir pt np va full_perm ps
            (envid2env_self k1 c current1 0 true refl) f.good refl (omega arith) free1 has1.its_dir
            has1.its_table (f.own_tables.0, f.new_apart.0, f.new_apart.1)
            (λ h.
              subst (λ v. IsUsed k1 (pte_addr v) × (np ≢ pte_addr v)) (sym e)
                (used1, not_self fresh.0)) in
        (k1', k2, g, runs, subst (λ v. Inserted pgdir np va full_perm pt v k1' k2) e ins2)
