-- ===== src/Kern/Syscall.antt =====
-- The system calls of oslab6/kern/syscall.c on environments and their address spaces.
pub mod Messages
pub mod Dispatch
pub mod Lookup
pub mod Permission
pub mod Ipc
pub mod Memory
pub mod Share
use operating_systems_lab.Base.{ℕ, zero, suc, ◌+◌, ◌*◌, ◌/◌, ◌%◌, ◌==◌, leb, ltb, bit, bit_and}
use operating_systems_lab.Base.{
  Bool, true, false, ◌&&◌, ◌||◌, not, Option, none, some, if◌then◌else◌, List, [], ◌∷◌, get_elem?,
}
use operating_systems_lab.Kern.State.{Kernel, Env, EnvStatus, Trapframe, PushRegs, set_env}
use operating_systems_lab.Kern.State.{Result, ok, err, Error, utop, pte_w, pgsize}
use operating_systems_lab.Kern.PageAlloc.{page_alloc, page_free}
use operating_systems_lab.Kern.PageTable.{page_lookup, page_insert, page_remove, user_mem_check}
use operating_systems_lab.Kern.Env.{envid2env, env_alloc, cur_id}
use operating_systems_lab.Kern.Sched.{Switch, sched_yield, Exit, env_destroy}

-- How a system call ends: it returns a value to its caller, or control goes elsewhere.
pub data Outcome : Type 0 where
  value : Result ℕ → Kernel → Outcome
  left : Switch → Outcome

abbrev pub finish : Result ℕ → Kernel → Option Outcome
finish r k = some (Outcome.value r k)

-- The environment that `envid` names, or the caller's error; a null pointer is a fault.
unfoldable pub with_env : ℕ → Bool → Kernel → (ℕ → Option Outcome) → Option Outcome
with_env envid checkperm k f = elim (envid2env envid checkperm k) [
  | err e ↦ finish (err e) k
  | ok none ↦ none
  | ok (some i) ↦ f i
]

unfoldable pub with_dir_of : ℕ → Kernel → (ℕ → Option Outcome) → Option Outcome
with_dir_of i k f = elim (k.envs i).env_pgdir [ none ↦ none | some pgdir ↦ f pgdir ]

-- `va >= UTOP || ROUNDDOWN(va, PGSIZE) != va`
abbrev pub bad_va : ℕ → Bool
bad_va va = leb utop va || not (va % pgsize == 0)

-- `(perm & (PTE_U|PTE_P)) != (PTE_U|PTE_P)`
abbrev pub bad_perm : ℕ → Bool
bad_perm perm = not (bit_and perm 5 == 5)

abbrev pub of_exit : Option Exit → Option Outcome
of_exit none = none
of_exit (some (Exit.returned k)) = finish (ok 0) k
of_exit (some (Exit.switched s)) = some (Outcome.left s)

unfoldable pub sys_getenvid : Kernel → Option Outcome
sys_getenvid k = finish (ok (cur_id k)) k

unfoldable pub sys_env_destroy : ℕ → Kernel → Option Outcome
sys_env_destroy envid k = with_env envid true k (λ i. of_exit (env_destroy i k))

unfoldable pub sys_yield : Kernel → Option Outcome
sys_yield k = some (Outcome.left (sched_yield k))

abbrev pub set_eax : ℕ → Trapframe → Trapframe
set_eax v tf = record tf { tf_regs = record (tf.tf_regs) { reg_eax = v } }

-- The child of `sys_exofork`: not runnable, with the parent's registers, and 0 in `eax`.
abbrev pub child_of : Trapframe → Env → Env
child_of tf e = record e { env_tf = set_eax 0 tf; env_status = EnvStatus.not_runnable }

unfoldable pub sys_exofork : Kernel → Option Outcome
sys_exofork k = elim k.curenv [
  | none ↦ none
  | some c ↦ elim (env_alloc (k.envs c).env_id k) [
    | none ↦ none
    | some (err e, k') ↦ finish (err e) k'
    | some (ok i, k') ↦
        finish (ok (k'.envs i).env_id) (set_env i (child_of (k'.envs c).env_tf (k'.envs i)) k')
  ]
]

-- `ENV_RUNNABLE` is 2 and `ENV_NOT_RUNNABLE` is 4.
abbrev pub status_arg : ℕ → Option EnvStatus
status_arg status =
    if status == 2
    then some EnvStatus.runnable
    else if status == 4
    then some EnvStatus.not_runnable
    else none

unfoldable pub sys_env_set_status : ℕ → ℕ → Kernel → Option Outcome
sys_env_set_status envid status k = elim (status_arg status) [
  | none ↦ finish (err Error.inval) k
  | some s ↦
      with_env envid true k
        (λ i. finish (ok 0) (set_env i (record (k.envs i) { env_status = s }) k))
]

unfoldable pub sys_env_set_pgfault_upcall : ℕ → ℕ → Kernel → Option Outcome
sys_env_set_pgfault_upcall envid func k =
    with_env envid true k
      (λ i. finish (ok 0) (set_env i (record (k.envs i) { env_pgfault_upcall = func }) k))

-- The last lines of `sys_page_alloc`: a page that cannot be mapped is freed again.
unfoldable pub map_new_page : ℕ → ℕ → ℕ → ℕ → Kernel → Option Outcome
map_new_page pgdir pg va perm k = elim (page_insert pgdir pg va perm k) [
  | none ↦ none
  | some (ok _, k') ↦ finish (ok 0) k'
  | some (err e, k') ↦ elim (page_free pg k') [ none ↦ none | some (_, k1) ↦ finish (err e) k1 ]
]

unfoldable pub alloc_page_for : ℕ → ℕ → ℕ → Kernel → Option Outcome
alloc_page_for i va perm k = elim (page_alloc true k) [
  | none ↦ none
  | some (none, k') ↦ finish (err Error.no_mem) k'
  | some (some pg, k') ↦ with_dir_of i k' (λ pgdir. map_new_page pgdir pg va perm k')
]

unfoldable pub sys_page_alloc : ℕ → ℕ → ℕ → Kernel → Option Outcome
sys_page_alloc envid va perm k = with_env envid true k λ i.
    if bad_va va
    then finish (err Error.inval) k
    else if bad_perm perm
    then finish (err Error.inval) k
    else alloc_page_for i va perm k

-- The last line of `sys_page_map`.
unfoldable pub share_page : ℕ → ℕ → ℕ → ℕ → Kernel → Option Outcome
share_page de pg va perm k = with_dir_of de k λ pgdir. elim (page_insert pgdir pg va perm k) [
  | none ↦ none
  | some (ok _, k') ↦ finish (ok 0) k'
  | some (err e, k') ↦ finish (err e) k'
]

-- `sys_page_map` after the addresses and both environments were checked.
unfoldable pub map_from : ℕ → ℕ → ℕ → ℕ → ℕ → Kernel → Option Outcome
map_from se srcva de dstva perm k = with_dir_of se k λ pgdir. elim (page_lookup pgdir srcva k) [
  | none ↦ none
  | some (none, k') ↦ finish (err Error.inval) k'
  | some (some (pg, pt, j), k') ↦
      if bad_perm perm
      then finish (err Error.inval) k'
      else if (bit (k'.phys pt j) pte_w == 0) && (bit perm pte_w == 1)
      then finish (err Error.inval) k'
      else share_page de pg dstva perm k'
]

unfoldable pub sys_page_map : ℕ → ℕ → ℕ → ℕ → ℕ → Kernel → Option Outcome
sys_page_map srcenvid srcva dstenvid dstva perm k = with_env srcenvid true k λ se.
    with_env dstenvid true k λ de.
      if bad_va srcva || bad_va dstva
      then finish (err Error.inval) k
      else map_from se srcva de dstva perm k

unfoldable pub sys_page_unmap : ℕ → ℕ → Kernel → Option Outcome
sys_page_unmap envid va k = with_env envid true k λ i.
    if bad_va va
    then finish (err Error.inval) k
    else with_dir_of i k
        λ pgdir. elim (page_remove pgdir va k) [ none ↦ none | some (_, k') ↦ finish (ok 0) k' ]
