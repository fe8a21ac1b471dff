-- ===== src/User/Fork/Cow.antt =====
-- `duppage` of oslab6/lib/fork.c on a page that the parent may write, or that is copy-on-write.
use operating_systems_lab.Base.{
  ℕ, ◌+◌, ◌*◌, ◌^◌, ◌<◌, ◌≡◌, ◌≢◌, ◌==◌, refl, sym, ap, ◌∙◌, arith, bit,
}
use operating_systems_lab.Base.{Bool, true, false, none, some, ◌&&◌, ◌||◌, Option}
use mathlib.Core.Path.{subst}
use operating_systems_lab.Kern.State.{Kernel, ok, pgsize, pte_addr, pte_w}
use operating_systems_lab.Kern.Env.{envid2env}
use operating_systems_lab.Kern.PageTable.{present}
use operating_systems_lab.Kern.PageTable.Remove.{IsUsed, SameMachine, refs}
use operating_systems_lab.Kern.PageTable.Insert.{Inserted}
use operating_systems_lab.Kern.Syscall.{finish, sys_page_map}
use operating_systems_lab.Kern.Syscall.Permission.{envid2env_self}
use operating_systems_lab.Kern.Syscall.Memory.{GoodVa}
use operating_systems_lab.Kern.Syscall.Share.{HasEntry, Maps, page_map_shares, page_map-read_only}
use operating_systems_lab.User.Fork.{
  pte_share, pte_cow, cow_perm, pte_syscall, must, ignoring, and_then, dup_entry, duppage,
}
use operating_systems_lab.User.Fork.Entries.{
  own_entry, IsCow, Inserted-IsCow, HasEntry-frame, IsCow-frame,
}

-- The program that runs is environment `c`, and `envid` names its child `d`; `w` is the entry of the
-- parent for the page at `va`, the child's is empty, and the four pages of their tables differ.
pub record IsForking (k : Kernel) (envid va c pgdir pt w d pgdir' pt' : ℕ) : Type 0 where
  pub current : k.curenv ≡ some c
  pub child : envid2env envid true k ≡ ok (some d)
  pub good : GoodVa va
  pub parent_has : HasEntry k c pgdir va pt w
  pub child_has : HasEntry k d pgdir' va pt' 0
  pub own_table : (pt ≢ pgdir) × (pt' ≢ pgdir')
  pub apart : (pgdir ≢ pgdir') × (pgdir ≢ pt') × (pt ≢ pgdir') × (pt ≢ pt')
  pub is_present : present w ≡ true
  pub used : IsUsed k (pte_addr w)
  pub room : refs k (pte_addr w) + 2 < 2 ^ 16

-- What `duppage` leaves.
pub record IsShared (k : Kernel) (va c pgdir pt w d pgdir' pt' : ℕ) (k' : Kernel) : Type 0 where
  pub parent_cow : IsCow k' c pgdir va pt (pte_addr w)
  pub child_cow : IsCow k' d pgdir' va pt' (pte_addr w)
  pub one_more : refs k' (pte_addr w) ≡ refs k (pte_addr w) + 1
  pub other_refs : (m : ℕ) → pte_addr w ≢ m → refs k' m ≡ refs k m
  pub memory :
      (m i : ℕ) → (m ≢ pgdir) × (m ≢ pt) × (m ≢ pgdir') × (m ≢ pt') → k'.phys m i ≡ k.phys m i
  pub same_machine : SameMachine k k'

and_false : (b : Bool) → (b && false) ≡ false
and_false true = refl
and_false false = refl

not_self : {a b : ℕ} → a ≢ b → b ≢ a
not_self h e = h (sym e)

module _ (k : Kernel) (envid va c pgdir pt w d pgdir' pt' : ℕ)
    (f : IsForking k envid va c pgdir pt w d pgdir' pt') where
  abbrev pg : ℕ
  pg = pte_addr w

  maps : Maps k w
  maps =
      let p = f.is_present in
      record { not_zero = λ e. absurd (ground arith); exists = f.used.exists }

  -- The mapping of the child.
  first :
      (k1 : Kernel) × (sys_page_map 0 va envid va cow_perm k ≡ finish (ok 0) k1)
      × Inserted pgdir' pg va cow_perm pt' 0 k k1
  first =
      let r = f.room in
      page_map_shares k 0 va envid va cow_perm c pgdir pt w d pgdir' pt' 0
        (envid2env_self k c f.current 0 true refl) f.child f.good f.good (refl, omega arith)
        f.parent_has f.child_has maps (and_false _) f.own_table.1 (omega arith) (λ h. cc)

  module _ (k1 : Kernel) (ins : Inserted pgdir' pg va cow_perm pt' 0 k k1) where
    still-HasEntry : HasEntry k1 c pgdir va pt w
    still-HasEntry =
        HasEntry-frame c pgdir va pt w pgdir' pg va cow_perm pt' 0 k k1 f.parent_has ins
          (not_self f.apart.1, not_self f.apart.0, not_self f.apart.3, not_self f.apart.2)

    counted_once : refs k1 pg ≡ refs k pg + 1
    counted_once = ground (arith, ins.counts pg)

    still-IsUsed : IsUsed k1 pg
    still-IsUsed =
        let r = f.room in
        let one = counted_once in
        record {
          counted = omega arith;
          fits = omega arith;
          unlinked = ins.links pg (omega arith) ∙ f.used.unlinked;
          exists = subst (λ n. pg < n) (sym ins.machine.same_npages) f.used.exists;
        }

    -- The parent's own mapping.
    second :
        (k2 : Kernel) × (sys_page_map 0 va 0 va cow_perm k1 ≡ finish (ok 0) k2)
        × Inserted pgdir pg va cow_perm pt w k1 k2
    second =
        let r = f.room in
        let one = counted_once in
        let self = envid2env_self k1 c (ins.machine.same_curenv ∙ f.current) 0 true refl in
        page_map_shares k1 0 va 0 va cow_perm c pgdir pt w c pgdir pt w self self f.good f.good
          (refl, omega arith) still-HasEntry still-HasEntry
          (record { not_zero = maps.not_zero; exists = still-IsUsed.exists }) (and_false _)
          f.own_table.0 (omega arith) (λ h. still-IsUsed)

    module _ (k2 : Kernel) (ins2 : Inserted pgdir pg va cow_perm pt w k1 k2) where
      shared : IsShared k va c pgdir pt w d pgdir' pt' k2
      shared =
          let p = f.is_present in
          let m1 = ins.machine in
          let m2 = ins2.machine in
          let one = counted_once in
          record {
            parent_cow =
                Inserted-IsCow c pgdir pg va pt w k1 k2
                  (ap (λ g. (g c).env_pgdir) m2.same_envs ∙ still-HasEntry.its_dir) ins2;
            child_cow =
                IsCow-frame d pgdir' va pt' pg pgdir pg va cow_perm pt w k1 k2
                  (Inserted-IsCow d pgdir' pg va pt' 0 k k1
                    (ap (λ g. (g d).env_pgdir) m1.same_envs ∙ f.child_has.its_dir) ins)
                  ins2 (f.apart.2, f.apart.0, f.apart.3, f.apart.1);
            one_more = ground (arith, ins2.counts pg);
            other_refs = λ m ne. ground (arith, ins.counts m, ins2.counts m);
            memory = λ m i ne.
                ins2.memory m i (λ q. ne.1 q.0) (λ q. ne.0 q.0)
                ∙ ins.memory m i (λ q. ne.3 q.0) (λ q. ne.2 q.0);
            same_machine = record {
              same_envs = m2.same_envs ∙ m1.same_envs;
              same_curenv = m2.same_curenv ∙ m1.same_curenv;
              same_npages = m2.same_npages ∙ m1.same_npages;
            };
          }

  dup_runs :
      (k1 k2 : Kernel)
      → bit w pte_share ≡ 0
      → ((bit w pte_w == 1) || (bit w pte_cow == 1)) ≡ true
      → sys_page_map 0 va envid va cow_perm k ≡ finish (ok 0) k1
      → sys_page_map 0 va 0 va cow_perm k1 ≡ finish (ok 0) k2
      → dup_entry envid va w k ≡ some k2
  unfolding dup_entry must and_then
  dup_runs k1 k2 no_share may_write e1 e2 =
      rw (no_share, may_write)
        (ap (λ q. and_then (must q) (λ (k' : Kernel). must (sys_page_map 0 va 0 va cow_perm k'))) e1
          ∙ ap must e2)

-- `duppage` on a page that the parent may write or that is copy-on-write, and that is not one to be
-- shared, where both have a page table for it and the child has nothing mapped there, makes it
-- copy-on-write for the parent and for its child: both read the page that the parent had, neither may write it, and it has one more
-- reference. The other pages keep their references, memory outside the four pages of tables its
-- content, and no environment changes.
pub duppage-IsShared :
    (k : Kernel) (envid pn c pgdir pt w d pgdir' pt' : ℕ)
    → IsForking k envid (pn * pgsize) c pgdir pt w d pgdir' pt'
    → bit w pte_share ≡ 0
    → ((bit w pte_w == 1) || (bit w pte_cow == 1)) ≡ true
    → (k' : Kernel) × (duppage envid pn k ≡ some k')
      × IsShared k (pn * pgsize) c pgdir pt w d pgdir' pt' k'
unfolding duppage
duppage-IsShared k envid pn c pgdir pt w d pgdir' pt' f no_share may_write =
    let va = pn * pgsize in
    let (k1, e1, ins1) = first k envid va c pgdir pt w d pgdir' pt' f in
    let (k2, e2, ins2) = second k envid va c pgdir pt w d pgdir' pt' f k1 ins1 in
    (
      k2,
      ap (λ (q : Option ℕ). elim q [ none ↦ none | some v ↦ dup_entry envid va v k ])
            (own_entry k c pgdir va pt w f.current f.parent_has)
          ∙ dup_runs k envid va c pgdir pt w d pgdir' pt' f k1 k2 no_share may_write e1 e2,
      shared k envid va c pgdir pt w d pgdir' pt' f k1 ins1 k2 ins2,
    )

-- A page that is to be shared, and that the parent may only read, is not mapped for the child:
-- `duppage` returns as if it had been, and the state is what it was.
pub duppage_share-unmapped :
    (k : Kernel) (envid pn c pgdir pt w d pgdir' pt' : ℕ)
    → IsForking k envid (pn * pgsize) c pgdir pt w d pgdir' pt'
    → bit w pte_share ≡ 1
    → bit w pte_w ≡ 0
    → duppage envid pn k ≡ some k
unfolding duppage dup_entry ignoring
duppage_share-unmapped k envid pn c pgdir pt w d pgdir' pt' f share read_only =
    let va = pn * pgsize in
    let e =
      page_map-read_only k 0 va envid va pte_syscall c pgdir pt w d
        (envid2env_self k c f.current 0 true refl) f.child f.good f.good refl f.parent_has
        (maps k envid va c pgdir pt w d pgdir' pt' f) read_only refl in
    ap (λ (q : Option ℕ). elim q [ none ↦ none | some v ↦ dup_entry envid va v k ])
      (own_entry k c pgdir va pt w f.current f.parent_has)
    ∙ rw share (ap ignoring e)
