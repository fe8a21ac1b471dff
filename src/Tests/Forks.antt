-- ===== src/Tests/Forks.antt =====
-- Copy-on-write at a concrete state.
use operating_systems_lab.Base.{
  ℕ, ◌%◌, ◌==◌, ◌≡◌, ◌≢◌, refl, arith, some, none, if◌then◌else◌, [], ◌∷◌, true, false,
}
use operating_systems_lab.Kern.State.{Kernel, EnvStatus, ok, pte_addr}
use operating_systems_lab.Kern.Env.{envid2env}
use operating_systems_lab.Kern.PageAlloc.FreeList.{FreePages}
use operating_systems_lab.Kern.Syscall.{sys_page_map, with_env, with_dir_of, map_from, share_page}
use operating_systems_lab.Kern.PageAlloc.{incref, page_decref}
use operating_systems_lab.Kern.PageTable.{
  page_lookup, page_insert, pgdir_walk, table_slot, install, page_remove, tlb_invalidate,
}
use operating_systems_lab.User.Fork.Entries.{IsCow}
use operating_systems_lab.User.Fork.Isolated.{duppage_isolates}
use operating_systems_lab.User.Fork.{
  duppage, pgfault, uvpt_entry, page_entry, dup_entry, must, and_then,
}
use operating_systems_lab.User.Fork.Cow.{
  IsForking, IsShared, duppage-IsShared, duppage_share-unmapped,
}
use operating_systems_lab.User.Fork.Copy.{IsFaulting}
use operating_systems_lab.User.Fork.Private.{HasCopy, pgfault-HasCopy}
use operating_systems_lab.Tests.Sample.{sample, sample_envs, env_with, page}

-- Environment 0 is a child of environment 1, which runs. Page 5 and table 6 are of the parent, and
-- page 8 and table 9 of the child; table 10 is the parent's for `PFTEMP`. The parent has `entry` at
-- 0x800000.
abbrev forking : ℕ → Kernel
forking entry = record sample {
  envs = λ i.
      if i == 0
      then record (env_with 0x1000 EnvStatus.not_runnable none false (some 8)) {
        env_parent_id = 0x1001;
      }
      else sample_envs i;
  phys = λ n i.
      if n == 5
      then (if i == 2 then 0x6007 else if i == 1 then 0xA007 else 0)
      else if n == 6
      then (if i == 0 then entry else 0)
      else if n == 8
      then (if i == 2 then 0x9007 else 0)
      else 0;
  pages = λ n. if n == 3 then page (some 4) 0 else if n == 4 then page none 0 else page none 1;
}

child_found : (w : ℕ) → envid2env 0x1000 true (forking w) ≡ ok (some 0)
unfolding envid2env
child_found w = refl

sample-IsForking :
    (w : ℕ) → pte_addr w ≡ 7 → w % 2 ≡ 1 → IsForking (forking w) 0x1000 0x80_0000 1 5 6 w 0 8 9
sample-IsForking w names there = record {
  current = refl;
  child = child_found w;
  good = omega arith;
  parent_has = record {
    its_dir = refl;
    its_table = record { present_pde = refl; names = refl; in_range = omega arith };
    its_entry = refl;
  };
  child_has = record {
    its_dir = refl;
    its_table = record { present_pde = refl; names = refl; in_range = omega arith };
    its_entry = refl;
  };
  own_table = (λ e. absurd (omega arith), λ e. absurd (omega arith));
  apart = (
    λ e. absurd (omega arith),
    λ e. absurd (omega arith),
    λ e. absurd (omega arith),
    λ e. absurd (omega arith),
  );
  is_present = ground arith;
  used = record {
    counted = ground arith;
    fits = ground arith;
    unlinked = ground arith;
    exists = omega arith;
  };
  room = ground arith;
}

duppage-IsShared_example :
    (k' : Kernel) × (duppage 0x1000 0x800 (forking 0x7007) ≡ some k')
    × IsShared (forking 0x7007) 0x80_0000 1 5 6 0x7007 0 8 9 k'
duppage-IsShared_example =
    duppage-IsShared (forking 0x7007) 0x1000 0x800 1 5 6 0x7007 0 8 9
      (sample-IsForking 0x7007 refl refl) refl refl

duppage_share-unmapped_example : duppage 0x1000 0x800 (forking 0x7405) ≡ some (forking 0x7405)
duppage_share-unmapped_example =
    duppage_share-unmapped (forking 0x7405) 0x1000 0x800 1 5 6 0x7405 0 8 9
      (sample-IsForking 0x7405 refl refl) refl refl

sample-FreePages : FreePages (3 ∷ 4 ∷ []) (forking 0x7805)
sample-FreePages = record {
  chain = (refl, (refl, refl));
  distinct = ((omega arith, tt), (tt, tt));
  idle = ((refl, omega arith), ((refl, omega arith), tt));
}

sample-IsFaulting : IsFaulting (forking 0x7805) 1 5 0x80_0000 6 0x7805 10 3 (4 ∷ [])
sample-IsFaulting = record {
  current = refl;
  good = omega arith;
  has = record {
    its_dir = refl;
    its_table = record { present_pde = refl; names = refl; in_range = omega arith };
    its_entry = refl;
  };
  temp = record {
    its_dir = refl;
    its_table = record { present_pde = refl; names = refl; in_range = omega arith };
    its_entry = refl;
  };
  other_table = λ e. absurd (omega arith);
  own_tables = (λ e. absurd (omega arith), λ e. absurd (omega arith), λ e. absurd (omega arith));
  is_present = refl;
  used = record {
    counted = omega arith;
    fits = omega arith;
    unlinked = refl;
    exists = omega arith;
  };
  room = omega arith;
  available = sample-FreePages;
  new_apart = (λ e. absurd (omega arith), λ e. absurd (omega arith), λ e. absurd (omega arith));
  page_apart = (λ e. absurd (omega arith), λ e. absurd (omega arith), λ e. absurd (omega arith));
}

pgfault-HasCopy_example :
    (k' : Kernel) × (pgfault 7 0x80_0123 (forking 0x7805) ≡ some k')
    × HasCopy (forking 0x7805) 1 5 0x80_0000 6 0x7805 10 3 k'
pgfault-HasCopy_example =
    pgfault-HasCopy (forking 0x7805) 7 0x80_0123 1 5 6 0x7805 10 3 (4 ∷ []) sample-IsFaulting refl
      refl

-- The state that `duppage` leaves.
abbrev shared_state : Kernel
shared_state = elim (duppage 0x1000 0x800 (forking 0x7007)) [ none ↦ forking 0x7007 | some k ↦ k ]

duppage_runs : duppage 0x1000 0x800 (forking 0x7007) ≡ some shared_state
unfolding duppage uvpt_entry page_entry dup_entry must and_then sys_page_map with_env with_dir_of
    map_from share_page page_lookup page_insert pgdir_walk table_slot install incref page_remove
    page_decref tlb_invalidate envid2env
duppage_runs = refl

shared_state-IsFaulting : IsFaulting shared_state 1 5 0x80_0000 6 0x7805 10 3 (4 ∷ [])
unfolding duppage uvpt_entry page_entry dup_entry must and_then sys_page_map with_env with_dir_of
    map_from share_page page_lookup page_insert pgdir_walk table_slot install incref page_remove
    page_decref tlb_invalidate envid2env
shared_state-IsFaulting = record {
  current = refl;
  good = omega arith;
  has = record {
    its_dir = refl;
    its_table = record { present_pde = refl; names = refl; in_range = omega arith };
    its_entry = refl;
  };
  temp = record {
    its_dir = refl;
    its_table = record { present_pde = refl; names = refl; in_range = omega arith };
    its_entry = refl;
  };
  other_table = λ e. absurd (omega arith);
  own_tables = (λ e. absurd (omega arith), λ e. absurd (omega arith), λ e. absurd (omega arith));
  is_present = refl;
  used = record {
    counted = omega arith;
    fits = omega arith;
    unlinked = refl;
    exists = omega arith;
  };
  room = omega arith;
  available = record {
    chain = (refl, (refl, refl));
    distinct = ((omega arith, tt), (tt, tt));
    idle = ((refl, omega arith), ((refl, omega arith), tt));
  };
  new_apart = (λ e. absurd (omega arith), λ e. absurd (omega arith), λ e. absurd (omega arith));
  page_apart = (λ e. absurd (omega arith), λ e. absurd (omega arith), λ e. absurd (omega arith));
}

duppage_isolates_example :
    (k2 : Kernel) × (pgfault 7 0x80_0123 shared_state ≡ some k2)
    × HasCopy shared_state 1 5 0x80_0000 6 0x7805 10 3 k2
    × IsCow k2 0 8 0x80_0000 9 7
    × (◌≢◌ {A = ℕ} 3 7)
    × ((i : ℕ) → k2.phys 3 i ≡ (forking 0x7007).phys 7 i)
    × ((i : ℕ) → k2.phys 7 i ≡ (forking 0x7007).phys 7 i)
duppage_isolates_example =
    duppage_isolates (forking 0x7007) shared_state 0x1000 0x800 1 5 6 0x7007 0 8 9 7 0x80_0123
      0x7805 10 3 (4 ∷ []) (sample-IsForking 0x7007 refl refl) refl refl duppage_runs refl refl
      shared_state-IsFaulting
      (
        λ e. absurd (omega arith),
        λ e. absurd (omega arith),
        λ e. absurd (omega arith),
        λ e. absurd (omega arith),
      )
      (λ e. absurd (omega arith), λ e. absurd (omega arith))
