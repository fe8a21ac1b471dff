-- ===== src/User/Fork/Private.antt =====
-- `pgfault` of oslab6/lib/fork.c as a whole: the program has a page of its own.
use operating_systems_lab.Base.{
  ℕ, ◌+◌, ◌<◌, ◌≡◌, ◌≢◌, ◌==◌, refl, sym, ap, ◌∙◌, arith, bit, if◌then◌else◌, update,
}
use operating_systems_lab.Base.{true, some, List}
use mathlib.Core.Path.{subst}
use operating_systems_lab.Kern.State.{Kernel, ok, pgsize, rounddown, pdx, ptx, pte_addr, pte_w}
use operating_systems_lab.Kern.PageAlloc.FreeList.{Given}
use operating_systems_lab.Kern.PageTable.{present}
use operating_systems_lab.Kern.PageTable.Remove.{
  SameMachine, IsUsed, refs, removed, removed_frame, removed-cleared, refs-dropped,
}
use operating_systems_lab.Kern.PageTable.Insert.{Inserted}
use operating_systems_lab.Kern.Syscall.{finish, sys_page_map, sys_page_alloc, sys_page_unmap}
use operating_systems_lab.Kern.Syscall.Permission.{envid2env_self}
use operating_systems_lab.Kern.Syscall.Share.{HasEntry, page_unmap-removed}
use operating_systems_lab.User.Fork.{
  pte_cow, full_perm, read_perm, pftemp, uvpt_entry, must, and_then, move_page, make_copy, pgfault,
}
use operating_systems_lab.User.Fork.Entries.{
  own_entry, uvpt_entry-page, readable, writable, HasEntry-same, HasEntry-beside,
}
use operating_systems_lab.User.Fork.Copy.{
  IsFaulting, Inserted-HasEntry, Given-HasEntry, mapped_twice, temp1, refs1, used1, fresh, current1,
  replaced, not_self,
}

-- The program maps page `np` at `va`, writable and with what the page had that was mapped there; that
-- page lost a reference, `PFTEMP` is free again, and other memory and the
-- environments are as they were.
pub record HasCopy (k : Kernel) (c pgdir va pt w ft np : ℕ) (k' : Kernel) : Type 0 where
  pub has_page : HasEntry k' c pgdir va pt (k'.phys pt (ptx va))
  pub names : pte_addr (k'.phys pt (ptx va)) ≡ np
  pub is_present : present (k'.phys pt (ptx va)) ≡ true
  pub may_write : bit (k'.phys pt (ptx va)) pte_w ≡ 1
  pub not_cow : bit (k'.phys pt (ptx va)) pte_cow ≡ 0
  pub content : (i : ℕ) → k'.phys np i ≡ k.phys (pte_addr w) i
  pub temp_free : k'.phys ft (ptx pftemp) ≡ 0
  pub one_ref : refs k' np ≡ 1
  pub one_less : refs k' (pte_addr w) + 1 ≡ refs k (pte_addr w)
  pub memory : (m i : ℕ) → (m ≢ np) × (m ≢ pgdir) × (m ≢ pt) × (m ≢ ft) → k'.phys m i ≡ k.phys m i
  pub machine : SameMachine k k'

module _ (k : Kernel) (c pgdir va pt w ft np : ℕ) (ps : List ℕ)
    (f : IsFaulting k c pgdir va pt w ft np ps) (k1 : Kernel)
    (ins : Inserted pgdir (pte_addr w) pftemp read_perm ft 0 k k1) (k1' k2 : Kernel)
    (g : Given true np ps k1 k1') (ins2 : Inserted pgdir np va full_perm pt w k1' k2) where
  abbrev temp_word : ℕ
  temp_word = k1.phys ft (ptx pftemp)

  abbrev new_word : ℕ
  new_word = k2.phys pt (ptx va)

  current2 : k2.curenv ≡ some c
  current2 = ins2.machine.same_curenv ∙ g.elsewhere.3 ∙ current1 k c pgdir va pt w ft np ps f k1 ins

  temp2 : HasEntry k2 c pgdir pftemp ft temp_word
  temp2 =
      HasEntry-beside c pgdir pftemp ft temp_word np va full_perm pt w k1' k2
        (Given-HasEntry c pgdir pftemp ft temp_word np ps k1 k1'
          (temp1 k c pgdir va pt w ft np ps f k1 ins) g (f.new_apart.0, f.new_apart.2))
        ins2 (f.own_tables.0, f.own_tables.1, not_self f.own_tables.2, f.other_table)

  has2 : HasEntry k2 c pgdir va pt new_word
  has2 =
      Inserted-HasEntry c pgdir np va full_perm pt w k1' k2
        (ap (λ h. (h c).env_pgdir) (ins2.machine.same_envs ∙ g.elsewhere.0)
          ∙ (temp1 k c pgdir va pt w ft np ps f k1 ins).its_dir)
        ins2

  -- The state after the bytes were moved.
  abbrev k3 : Kernel
  k3 = record k2 { phys = update k2.phys np (k2.phys (pte_addr w)) }

  bytes_moved : move_page va pftemp k2 ≡ some k3
  unfolding move_page
  bytes_moved =
      let src =
        readable k2 c pgdir pftemp ft temp_word current2 temp2
          (ins.flags 0 (omega arith), ins.flags 2 (omega arith))
        ∙ ap some ins.names_page in
      let dst =
        writable k2 c pgdir va pt new_word current2 has2
          (ins2.flags 0 (omega arith), ins2.flags 1 (omega arith), ins2.flags 2 (omega arith))
        ∙ ap some ins2.names_page in
      rw (src, move_page) (rw (dst, move_page) refl)

  apart3 : (m i : ℕ) → np ≢ m → k3.phys m i ≡ k2.phys m i
  apart3 m i ne = ground arith

  temp3 : HasEntry k3 c pgdir pftemp ft temp_word
  temp3 =
      HasEntry-same c pgdir pftemp ft temp_word k2 k3 refl refl
        (apart3 pgdir (pdx pftemp) f.new_apart.0) (apart3 ft (ptx pftemp) f.new_apart.2) temp2

  -- The references to the page that was copied.
  page_ne : np ≢ pte_addr w
  page_ne = not_self (fresh k c pgdir va pt w ft np ps f k1 ins).0

  given_refs : refs k1' (pte_addr w) ≡ refs k (pte_addr w) + 1
  given_refs =
      ap (λ p. p.pp_ref) (g.others.0 (pte_addr w) page_ne)
      ∙ refs1 k c pgdir va pt w ft np ps f k1 ins

  refs2 : refs k2 (pte_addr w) ≡ refs k (pte_addr w)
  refs2 =
      let p = f.is_present in
      let e = given_refs in let ne = page_ne in ground (arith, ins2.counts (pte_addr w))

  new_refs : refs k2 np ≡ 1
  new_refs =
      let ne = page_ne in
      let e : refs k1' np ≡ 0 = ap (λ p. p.pp_ref) g.unlinked in ground (arith, ins2.counts np)

  used3 : IsUsed k3 (pte_addr w)
  used3 =
      let r = f.room in
      let e = refs2 in
      let u = f.used.counted in
      record {
        counted = omega arith;
        fits = omega arith;
        unlinked =
            ins2.links (pte_addr w) (omega arith)
            ∙ ap (λ p. p.pp_link) (g.others.0 (pte_addr w) page_ne)
            ∙ (used1 k c pgdir va pt w ft np ps f k1 ins).unlinked;
        exists =
            subst (λ n. pte_addr w < n)
              (sym (ins2.machine.same_npages ∙ g.others.1 ∙ ins.machine.same_npages)) f.used.exists;
      }

  abbrev k4 : Kernel
  k4 = removed pgdir pftemp ft (pte_addr w) k3

  unmapped : sys_page_unmap 0 pftemp k3 ≡ finish (ok 0) k4
  unmapped =
      let names = ins.names_page in
      let zero_not : temp_word ≢ 0 = λ e. absurd (ground (arith, ins.flags 0 (omega arith))) in
      subst (λ q. sys_page_unmap 0 pftemp k3 ≡ finish (ok 0) (removed pgdir pftemp ft q k3)) names
        (page_unmap-removed k3 0 c pgdir pftemp ft temp_word
          (envid2env_self k3 c current2 0 true refl) (omega arith) temp3 zero_not
          (subst (λ q. IsUsed k3 q) (sym names) used3))

  phys4 : (m i : ℕ) → ((m ≡ ft) × (i ≡ ptx pftemp) → ⊥) → k4.phys m i ≡ k3.phys m i
  phys4 m i ne = (removed_frame pgdir pftemp ft (pte_addr w) k3).1 m i ne

  refs4 : (m : ℕ) → refs k4 m + (if pte_addr w == m then 1 else 0) ≡ refs k2 m
  refs4 m =
      ap (λ h. (h m).pp_ref + (if pte_addr w == m then 1 else 0))
        (removed_frame pgdir pftemp ft (pte_addr w) k3).2
      ∙ refs-dropped (pte_addr w) m k3 used3.counted

  pte4 : k4.phys pt (ptx va) ≡ new_word
  pte4 = phys4 pt (ptx va) (λ q. f.own_tables.2 (sym q.0)) ∙ apart3 pt (ptx va) f.new_apart.1

  before : (m i : ℕ) → (m ≢ pgdir) × (m ≢ pt) × (m ≢ ft) × (np ≢ m) → k2.phys m i ≡ k.phys m i
  before m i ne =
      let last : np ≢ m = ne.3 in
      ins2.memory m i (λ q. ne.1 q.0) (λ q. ne.0 q.0)
      ∙ ground (arith, g.memory m i)
      ∙ ins.memory m i (λ q. ne.2 q.0) (λ q. ne.0 q.0)

  copied : HasCopy k c pgdir va pt w ft np k4
  copied =
      let m4 = (removed_frame pgdir pftemp ft (pte_addr w) k3).0 in
      let has4 =
        HasEntry-same c pgdir va pt new_word k2 k4 (ap (λ h. (h c).env_pgdir) m4.same_envs)
          m4.same_npages
          (phys4 pgdir (pdx va) (λ q. f.own_tables.1 (sym q.0))
            ∙ apart3 pgdir (pdx va) f.new_apart.0)
          pte4 has2 in
      let ne = page_ne in
      record {
        has_page = record { its_dir = has4.its_dir; its_table = has4.its_table; its_entry = refl };
        names = ap pte_addr pte4 ∙ ins2.names_page;
        is_present = ap present pte4 ∙ ap (λ n. n == 1) (ins2.flags 0 (omega arith));
        may_write = ap (λ v. bit v pte_w) pte4 ∙ ins2.flags 1 (omega arith);
        not_cow = ap (λ v. bit v pte_cow) pte4 ∙ ins2.flags 11 (omega arith);
        content = λ i.
            phys4 np i (λ q. f.new_apart.2 q.0)
            ∙ ground arith
            ∙ before (pte_addr w) i (f.page_apart.0, f.page_apart.1, f.page_apart.2, page_ne);
        temp_free = removed-cleared pgdir pftemp ft (pte_addr w) k3;
        one_ref = ground (arith, refs4 np, new_refs);
        one_less = ground (arith, refs4 (pte_addr w), refs2);
        memory = λ m i ne.
            phys4 m i (λ q. ne.3 q.0)
            ∙ apart3 m i (not_self ne.0)
            ∙ before m i (ne.1, ne.2, ne.3, not_self ne.0);
        machine = record {
          same_envs = m4.same_envs ∙ ins2.machine.same_envs ∙ g.elsewhere.0 ∙ ins.machine.same_envs;
          same_curenv =
              m4.same_curenv ∙ ins2.machine.same_curenv ∙ g.elsewhere.3 ∙ ins.machine.same_curenv;
          same_npages =
              m4.same_npages ∙ ins2.machine.same_npages ∙ g.others.1 ∙ ins.machine.same_npages;
        };
      }

  copy_runs :
      sys_page_map 0 va 0 pftemp read_perm k ≡ finish (ok 0) k1
      → sys_page_alloc 0 va full_perm k1 ≡ finish (ok 0) k2
      → make_copy va k ≡ some k4
  unfolding make_copy must and_then
  copy_runs e1 e2 = rw e1 (rw e2 (rw bytes_moved (rw unmapped refl)))

-- On a write fault below `UTOP` at a copy-on-write page that is in use and whose count has room for one
-- more reference, with a free page, a page table for `PFTEMP` that maps nothing there, and the pages of
-- all tables apart from each other, from the free page and from the page in question: `pgfault`
-- succeeds: the first free page, with the content that was there, is mapped in its place, writable
-- and no longer copy-on-write, with one reference; the page that was there loses one, `PFTEMP` is
-- free again, and memory outside the new page and the tables is as it was, and so are the
-- environments.
pub pgfault-HasCopy :
    (k : Kernel) (error fault_va c pgdir pt w ft np : ℕ) (ps : List ℕ)
    → IsFaulting k c pgdir (rounddown fault_va pgsize) pt w ft np ps
    → bit error 1 ≡ 1
    → bit w pte_cow ≡ 1
    → (k' : Kernel) × (pgfault error fault_va k ≡ some k')
      × HasCopy k c pgdir (rounddown fault_va pgsize) pt w ft np k'
unfolding pgfault
pgfault-HasCopy k error fault_va c pgdir pt w ft np ps f write cow =
    let va = rounddown fault_va pgsize in
    let (k1, e1, ins) = mapped_twice k c pgdir va pt w ft np ps f in
    let (k1', k2, g, e2, ins2) = replaced k c pgdir va pt w ft np ps f k1 ins in
    let same : uvpt_entry fault_va k ≡ some w =
      uvpt_entry-page fault_va va k (omega arith) (omega arith)
      ∙ own_entry k c pgdir va pt w f.current f.has in
    (
      _,
      rw (same, pgfault, write, cow)
          (copy_runs k c pgdir va pt w ft np ps f k1 ins k1' k2 g ins2 e1 e2),
      copied k c pgdir va pt w ft np ps f k1 ins k1' k2 g ins2,
    )
