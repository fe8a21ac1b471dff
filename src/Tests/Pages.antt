-- ===== src/Tests/Pages.antt =====
-- The theorems about pages and page tables, on the sample machine.
use operating_systems_lab.Base.{
  ℕ, ◌<◌, ◌≡◌, ◌↔◌, refl, arith, none, some, Option, List, [], ◌∷◌, if◌then◌else◌, ◌==◌, Has,
}
use operating_systems_lab.Kern.State.{Kernel, ok}
use operating_systems_lab.Kern.PageAlloc.{page_free, page_init}
use operating_systems_lab.Kern.PageAlloc.FreeList.{FreePages}
use operating_systems_lab.Kern.PageAlloc.Free.{double_free-last}
use operating_systems_lab.Kern.PageAlloc.Init.{IsUnused, page_init_lem}
use operating_systems_lab.Kern.PageTable.{page_insert, user_mem_check}
use operating_systems_lab.Kern.PageTable.Walk.{HasTable}
use operating_systems_lab.Kern.PageTable.Remove.{IsUsed}
use operating_systems_lab.Kern.PageTable.Insert.{Inserted, page_insert-Inserted}
use operating_systems_lab.Kern.PageTable.UserMem.{
  TablesExist, Verdict, user_mem_check-Verdict, user_mem_check-wraps,
}
use operating_systems_lab.Tests.Sample.{sample, at_boot, no_memory}

pub sample_free : FreePages (3 ∷ 4 ∷ []) sample
sample_free = record {
  chain = (refl, (refl, refl));
  distinct = ((omega arith, tt), (tt, tt));
  idle = ((refl, omega arith), ((refl, omega arith), tt));
}

pub no_memory_free : FreePages [] no_memory
no_memory_free = record { chain = refl; distinct = tt; idle = tt }

pub sample_table : HasTable sample 5 0x1000 6
sample_table = record { present_pde = refl; names = refl; in_range = omega arith }

pub sample_table_2 : HasTable sample 5 0x2000 6
sample_table_2 = record { present_pde = refl; names = refl; in_range = omega arith }

page_7-IsUsed : IsUsed sample 7
page_7-IsUsed = record {
  counted = omega arith;
  fits = omega arith;
  unlinked = refl;
  exists = omega arith;
}

-- Page 8 goes where page 7 is mapped.
page_insert-Inserted_example :
    (k' : Kernel) × (page_insert 5 8 0x1000 6 sample ≡ some (ok tt, k'))
    × Inserted 5 8 0x1000 6 6 0x7007 sample k'
page_insert-Inserted_example =
    page_insert-Inserted 5 8 0x1000 6 6 sample sample_table (omega arith) (omega arith)
      (omega arith) (λ e. page_7-IsUsed)

double_free-last_example :
    (k' : Kernel) × (page_free 4 sample ≡ some (tt, k')) × ((zs : List ℕ) → ¬ FreePages zs k')
double_free-last_example = double_free-last (3 ∷ []) 4 sample sample_free

page_init_lem_example :
    (xs : List ℕ) × FreePages xs (page_init 0x100000 at_boot)
    × ((m : ℕ) → Has m xs ↔ (m < at_boot.npages) × IsUnused 0x100000 m)
page_init_lem_example = page_init_lem 0x100000 at_boot (omega arith) refl

-- The entry 0x7006 is not present.
abbrev swapped : Kernel
swapped = record sample { phys = λ n i. if n == 6 then 0x7006 else sample.phys n i }

sample_tables : TablesExist sample 5
sample_tables va h = ground arith

user_mem_check-Verdict_example :
    (r : Option ℕ) × (user_mem_check 5 0x1000 16 5 sample ≡ some r)
    × Verdict sample 5 5 sample_tables 0x1000 0x1000 0x2000 r
user_mem_check-Verdict_example =
    user_mem_check-Verdict sample 5 5 sample_tables 0x1000 16 (omega arith)

user_mem_check-wraps_example : user_mem_check 5 0xFFFFE000 0x2001 5 sample ≡ some none
user_mem_check-wraps_example =
    user_mem_check-wraps sample 5 0xFFFFE000 0x2001 5 (omega arith) (omega arith) (omega arith)
      (omega arith)
