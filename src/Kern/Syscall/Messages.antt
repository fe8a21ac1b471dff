-- ===== src/Kern/Syscall/Messages.antt =====
-- The messages of oslab6/kern/syscall.c: sending and receiving.
use operating_systems_lab.Base.{ℕ, ◌%◌, ◌==◌, ltb, bit, bit_and}
use operating_systems_lab.Base.{true, false, ◌&&◌, not, Option, none, some, if◌then◌else◌}
use operating_systems_lab.Kern.State.{Kernel, Env, EnvStatus, set_env}
use operating_systems_lab.Kern.State.{ok, err, Error, utop, pte_w, pgsize}
use operating_systems_lab.Kern.PageTable.{page_lookup, page_insert}
use operating_systems_lab.Kern.Env.{cur_id}
use operating_systems_lab.Kern.Sched.{sched_yield}
use operating_systems_lab.Kern.Syscall.{finish, with_env, with_dir_of, set_eax, Outcome}

-- The receiver's fields that a message sets, and its return from `sys_ipc_recv`.
abbrev pub receive : ℕ → ℕ → Env → Env
receive from v e = record e {
  env_ipc_recving = false;
  env_ipc_from = from;
  env_ipc_value = v;
  env_status = EnvStatus.runnable;
  env_tf = set_eax 0 e.env_tf;
}

abbrev pub deliver : ℕ → ℕ → Kernel → Kernel
deliver r v k = set_env r (receive (cur_id k) v (k.envs r)) k

-- The page is mapped at the receiver if it asked for one.
unfoldable pub send_page : ℕ → ℕ → ℕ → ℕ → Kernel → Option Outcome
send_page r v pg perm k =
    let e = k.envs r in
    if ltb e.env_ipc_dstva utop
    then elim e.env_pgdir [
      | none ↦ none
      | some pgdir ↦ elim (page_insert pgdir pg e.env_ipc_dstva perm k) [
        | none ↦ none
        | some (err x, k') ↦ finish (err x) k'
        | some (ok _, k') ↦
            finish (ok 0) (deliver r v (set_env r (record (k'.envs r) { env_ipc_perm = perm }) k'))
      ]
    ]
    else finish (ok 0) (deliver r v k)

-- The checks on a page that is offered. Where `page_lookup` finds none, `pte` is never set, and
-- `*pte` is read all the same: a fault, unless the address is not even aligned.
unfoldable pub offer_page : ℕ → ℕ → ℕ → ℕ → ℕ → Kernel → Option Outcome
offer_page pgdir r v srcva perm k = elim (page_lookup pgdir srcva k) [
  | none ↦ none
  | some (none, k') ↦ if srcva % pgsize == 0 then none else finish (err Error.inval) k'
  | some (some (pg, pt, j), k') ↦
      if not (srcva % pgsize == 0)
      then finish (err Error.inval) k'
      else if not (bit_and (bit_and (k'.phys pt j) perm) 7 == bit_and perm 7)
      then finish (err Error.inval) k'
      else if (bit perm pte_w == 1) && (bit (k'.phys pt j) pte_w == 0)
      then finish (err Error.inval) k'
      else send_page r v pg perm k'
]

unfoldable pub sys_ipc_try_send : ℕ → ℕ → ℕ → ℕ → Kernel → Option Outcome
sys_ipc_try_send envid v srcva perm k = with_env envid false k λ r.
    if not (k.envs r).env_ipc_recving
    then finish (err Error.ipc_not_recv) k
    else if ltb srcva utop
    then elim k.curenv [
      | none ↦ none
      | some c ↦ with_dir_of c k (λ pgdir. offer_page pgdir r v srcva perm k)
    ]
    else finish (ok 0) (deliver r v k)

abbrev pub wait_for : ℕ → Env → Env
wait_for dstva e = record e {
  env_ipc_recving = true;
  env_status = EnvStatus.not_runnable;
  env_ipc_dstva = dstva;
}

unfoldable pub sys_ipc_recv : ℕ → Kernel → Option Outcome
sys_ipc_recv dstva k =
    if ltb dstva utop && not (dstva % pgsize == 0)
    then finish (err Error.inval) k
    else elim k.curenv [
      | none ↦ none
      | some c ↦ some (Outcome.left (sched_yield (set_env c (wait_for dstva (k.envs c)) k)))
    ]
