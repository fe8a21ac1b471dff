-- ===== src/Kern/Env.antt =====
-- Environments (processes) of oslab6/kern/env.c: looking up an id, creating and running.
-- The table `envs` has `NENV` = 1024 places.
pub mod Free
pub mod Alloc
use operating_systems_lab.Base.{ℕ, zero, suc, ◌+◌, ◌-◌, ◌*◌, ◌/◌, ◌%◌, ◌^◌, ◌==◌, leb, ltb, bit_or}
use operating_systems_lab.Base.{
  Bool, true, false, ◌&&◌, ◌||◌, not, Option, none, some, if◌then◌else◌, update,
}
use operating_systems_lab.Kern.State.{
  Kernel, Env, EnvStatus, EnvType, Trapframe, PushRegs, M, set_env,
}
use operating_systems_lab.Kern.State.{
  Result, ok, err, Error, pdx, uvpt, utop, ustacktop, pte_addr, pgsize, rounddown, roundup, u32,
}
use operating_systems_lab.Kern.PageAlloc.{page_alloc, page_decref, incref}
use operating_systems_lab.Kern.PageTable.{present, page_remove, page_insert}

abbrev pub nenv : ℕ
nenv = 1024

-- `ENVX`
abbrev pub envx : ℕ → ℕ
envx id = id % nenv

abbrev pub is_cur : Kernel → ℕ → Bool
is_cur k i = elim k.curenv [ none ↦ false | some c ↦ c == i ]

-- `curenv->env_id`; a null `curenv` is a fault, which the callers exclude.
abbrev pub cur_id : Kernel → ℕ
cur_id k = elim k.curenv [ none ↦ 0 | some c ↦ (k.envs c).env_id ]

abbrev pub is_free : EnvStatus → Bool
is_free EnvStatus.free = true
is_free _ = false

-- What `*env_store` holds after `envid2env` returns 0: for the id 0 it is `curenv`, null or not.
unfoldable pub envid2env : ℕ → Bool → Kernel → Result (Option ℕ)
envid2env id checkperm k =
    let i = envx id in
    let e = k.envs i in
    if id == 0
    then ok k.curenv
    else if is_free e.env_status || not (e.env_id == id)
    then err Error.bad_env
    else if checkperm && (not (is_cur k i) && not (e.env_parent_id == cur_id k))
    then err Error.bad_env
    else ok (some i)

unfoldable pub init_env : ℕ → Kernel → Kernel
init_env i k = record (set_env i (record (k.envs i) { env_id = 0; env_link = k.env_free_list }) k) {
  env_free_list = some i;
}

-- The loop of `env_init`: from `n - 1` down to 0.
unfoldable pub init_envs : ℕ → Kernel → Kernel
init_envs zero k = k
init_envs (suc n) k = init_envs n (init_env n k)

-- `env_init_percpu` sets segment registers only.
unfoldable pub env_init : Kernel → Kernel
env_init k = init_envs nenv (record k { env_free_list = none })

-- The page directory of a new environment: a copy of the kernel's, but for the entry at `UVPT`.
abbrev pub new_dir : ℕ → Kernel → ℕ → ℕ
new_dir p k j = if pdx uvpt == j then bit_or (p * 4096) 5 else k.phys k.kern_pgdir j

abbrev pub with_dir : ℕ → ℕ → Kernel → Kernel
with_dir i p k = record (set_env i (record (k.envs i) { env_pgdir = some p }) k) {
  phys = update k.phys p (new_dir p k);
}

unfoldable pub env_setup_vm : ℕ → M (Result (Unit {0}))
unfolding incref
env_setup_vm i k = elim (page_alloc true k) [
  | none ↦ none
  | some (none, k') ↦ some (err Error.no_mem, k')
  | some (some p, k') ↦ some (ok tt, with_dir i p (incref p k'))
]

-- The generation after that of `id`; one that is not positive as an `int32_t` starts over.
abbrev pub next_generation : ℕ → ℕ
next_generation id =
    let g = (id + 2 ^ 12) % 2 ^ 32 / nenv * nenv in if (g == 0) || leb (2 ^ 31) g then 2 ^ 12 else g

abbrev pub zero_regs : PushRegs
zero_regs = record {
  reg_edi = 0;
  reg_esi = 0;
  reg_ebp = 0;
  reg_oesp = 0;
  reg_ebx = 0;
  reg_edx = 0;
  reg_ecx = 0;
  reg_eax = 0;
}

-- `GD_UD | 3`, `GD_UT | 3` and `FL_IF`
abbrev pub new_trapframe : Trapframe
new_trapframe = record {
  tf_regs = zero_regs;
  tf_es = 0x23;
  tf_ds = 0x23;
  tf_trapno = 0;
  tf_err = 0;
  tf_eip = 0;
  tf_cs = 0x1b;
  tf_eflags = 0x200;
  tf_esp = ustacktop;
  tf_ss = 0x23;
}

-- The fields that `env_alloc` sets after the address space is there.
abbrev pub fill_env : ℕ → ℕ → Env → Env
fill_env i parent e = record e {
  env_id = bit_or (next_generation e.env_id) i;
  env_parent_id = parent;
  env_type = EnvType.user;
  env_status = EnvStatus.runnable;
  env_runs = 0;
  env_tf = new_trapframe;
  env_pgfault_upcall = 0;
  env_ipc_recving = false;
}

abbrev pub take_env : ℕ → ℕ → Kernel → Kernel
take_env i parent k = record (set_env i (fill_env i parent (k.envs i)) k) {
  env_free_list = (k.envs i).env_link;
}

unfoldable pub env_alloc : ℕ → M (Result ℕ)
env_alloc parent k = elim k.env_free_list [
  | none ↦ some (err Error.no_free_env, k)
  | some i ↦ elim (env_setup_vm i k) [
    | none ↦ none
    | some (err e, k') ↦ some (err e, k')
    | some (ok _, k') ↦ some (ok i, take_env i parent k')
  ]
]

-- `region_alloc`: `fuel` pages from `va` up to `end`; the result of `page_insert` is not looked at.
unfoldable pub alloc_region : ℕ → ℕ → ℕ → ℕ → M (Unit {0})
alloc_region zero pgdir va end k = some (tt, k)
alloc_region (suc fuel) pgdir va end k =
    let one : Option (Unit {0} × Kernel) = elim (page_alloc false k) [
      | none ↦ none
      | some (none, k') ↦ none
      | some (some pp, k') ↦ elim (page_insert pgdir pp va 6 k') [
        | none ↦ none
        | some (_, k1) ↦ alloc_region fuel pgdir (u32 (va + pgsize)) end k1
      ]
    ] in
    if ltb va end then one else some (tt, k)

unfoldable pub region_alloc : ℕ → ℕ → ℕ → M (Unit {0})
region_alloc pgdir va len =
    alloc_region (2 ^ 20) pgdir (rounddown va pgsize) (roundup (u32 (va + len)) pgsize)

abbrev pub preempt_status : EnvStatus → EnvStatus
preempt_status EnvStatus.running = EnvStatus.runnable
preempt_status s = s

-- The environment that ran until now can be run again later.
abbrev pub preempt : Kernel → Kernel
preempt k = elim k.curenv [
  | none ↦ k
  | some c ↦ set_env c (record (k.envs c) { env_status = preempt_status (k.envs c).env_status }) k
]

-- `env_run` up to the return to user mode, which it ends with. An environment that runs has a page
-- directory: `PADDR` of a null one would panic, and the model keeps `cr3` there.
unfoldable pub env_run : ℕ → Kernel → Kernel
env_run i k =
    let k1 = preempt k in
    let e = k1.envs i in
    record (set_env i
      (record e { env_status = EnvStatus.running; env_runs = (e.env_runs + 1) % 2 ^ 32 }) k1) {
        curenv = some i;
        cr3 = elim e.env_pgdir [ none ↦ k.cr3 | some p ↦ p ];
      }
