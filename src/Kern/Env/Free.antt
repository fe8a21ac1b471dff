-- ===== src/Kern/Env/Free.antt =====
-- `env_free` of oslab6/kern/env.c: an environment gives back its pages and its place.
use operating_systems_lab.Base.{ℕ, zero, suc, ◌+◌, ◌-◌, ◌*◌, ◌^◌, leb}
use operating_systems_lab.Base.{Option, none, some, if◌then◌else◌, update}
use operating_systems_lab.Kern.State.{Kernel, EnvStatus, M, set_env}
use operating_systems_lab.Kern.State.{pdx, utop, pte_addr}
use operating_systems_lab.Kern.PageAlloc.{page_decref}
use operating_systems_lab.Kern.PageTable.{present, page_remove}
use operating_systems_lab.Kern.Env.{is_cur}

-- The inner loop of `env_free`, entries from `n - 1` pages before the end: `n` entries are left.
unfoldable pub free_entries : ℕ → ℕ → ℕ → ℕ → M (Unit {0})
free_entries zero pgdir pt pdeno k = some (tt, k)
free_entries (suc n) pgdir pt pdeno k =
    let pteno = 1024 - suc n in
    let skip = free_entries n pgdir pt pdeno k in
    let drop : Option (Unit {0} × Kernel) =
      elim (page_remove pgdir (pdeno * 2 ^ 22 + pteno * 2 ^ 12) k) [
        | none ↦ none
        | some (_, k') ↦ free_entries n pgdir pt pdeno k'
      ] in
    if present (k.phys pt pteno) then drop else skip

-- One page table: its pages, the directory's entry, and the table itself.
unfoldable pub free_table : ℕ → ℕ → M (Unit {0})
free_table pgdir pdeno k =
    let pt = pte_addr (k.phys pgdir pdeno) in
    if leb k.npages pt then none else elim (free_entries 1024 pgdir pt pdeno k) [
      | none ↦ none
      | some (_, k') ↦
          page_decref pt
            (record k' { phys = update k'.phys pgdir (update (k'.phys pgdir) pdeno 0) })
    ]

-- The outer loop: `n` directory entries are left, of those below `UTOP`.
unfoldable pub free_tables : ℕ → ℕ → M (Unit {0})
free_tables zero pgdir k = some (tt, k)
free_tables (suc n) pgdir k =
    let pdeno = pdx utop - suc n in
    let skip = free_tables n pgdir k in
    let drop : Option (Unit {0} × Kernel) = elim (free_table pgdir pdeno k) [
      | none ↦ none
      | some (_, k') ↦ free_tables n pgdir k'
    ] in
    if present (k.phys pgdir pdeno) then drop else skip

abbrev pub release_env : ℕ → Kernel → Kernel
release_env i k =
    record (set_env i
      (record (k.envs i) { env_status = EnvStatus.free; env_link = k.env_free_list }) k) {
        env_free_list = some i;
      }

-- `lcr3(PADDR(kern_pgdir))` if the environment is the current one.
abbrev pub leave_space : ℕ → Kernel → Kernel
leave_space i k = record k { cr3 = if is_cur k i then k.kern_pgdir else k.cr3 }

abbrev pub no_dir : ℕ → Kernel → Kernel
no_dir i k = set_env i (record (k.envs i) { env_pgdir = none }) k

-- An environment without a page directory is a fault.
unfoldable pub env_free : ℕ → M (Unit {0})
env_free i k = elim (k.envs i).env_pgdir [
  | none ↦ none
  | some pgdir ↦ elim (free_tables (pdx utop) pgdir (leave_space i k)) [
    | none ↦ none
    | some (_, k') ↦ elim (page_decref pgdir (no_dir i k')) [
      | none ↦ none
      | some (_, k1) ↦ some (tt, release_env i k1)
    ]
  ]
]
