-- ===== src/Kern/Syscall/Dispatch.antt =====
-- `syscall` of oslab6/kern/syscall.c, and `sys_cputs`.
use operating_systems_lab.Base.{ℕ}
use operating_systems_lab.Base.{Option, none, some, List, [], ◌∷◌, get_elem?}
use operating_systems_lab.Kern.State.{Kernel}
use operating_systems_lab.Kern.State.{ok, err, Error}
use operating_systems_lab.Kern.PageTable.{user_mem_check}
use operating_systems_lab.Kern.Sched.{env_destroy}
use operating_systems_lab.Kern.Syscall.{
  finish, with_dir_of, of_exit, sys_getenvid, sys_env_destroy, sys_yield, sys_exofork,
  sys_env_set_status, sys_env_set_pgfault_upcall, sys_page_alloc, sys_page_map, sys_page_unmap,
  Outcome,
}
use operating_systems_lab.Kern.Syscall.Messages.{sys_ipc_try_send, sys_ipc_recv}

-- `sys_cputs`: the check of the caller's buffer, with `PTE_U` (a page without `PTE_P` fails
-- anyway); a caller that fails it is destroyed. What is printed is not part of the state.
unfoldable pub sys_cputs : ℕ → ℕ → Kernel → Option Outcome
sys_cputs s len k = elim k.curenv [
  | none ↦ none
  | some c ↦ with_dir_of c k λ pgdir. elim (user_mem_check pgdir s len 4 k) [
    | none ↦ none
    | some none ↦ finish (ok 0) k
    | some (some _) ↦ of_exit (env_destroy c k)
  ]
]

-- The numbers of inc/syscall.h, in order.
pub data Call : Type 0 where
  cputs cgetc getenvid destroy alloc_page map_page unmap_page : Call
  exofork set_status set_trapframe set_pgfault_upcall yield_cpu ipc_try_send ipc_recv : Call

abbrev pub numbered : List Call
numbered =
    Call.cputs ∷ Call.cgetc ∷ Call.getenvid ∷ Call.destroy ∷ Call.alloc_page ∷ Call.map_page
    ∷ Call.unmap_page ∷ Call.exofork ∷ Call.set_status ∷ Call.set_trapframe
    ∷ Call.set_pgfault_upcall ∷ Call.yield_cpu ∷ Call.ipc_try_send ∷ Call.ipc_recv ∷ []

-- The `switch` of `syscall`, which has no case for `SYS_env_set_trapframe`. `getc` is what
-- `cons_getc` returns.
unfoldable pub dispatch : Call → ℕ → ℕ → ℕ → ℕ → ℕ → ℕ → Kernel → Option Outcome
dispatch Call.cputs getc a1 a2 a3 a4 a5 k = sys_cputs a1 a2 k
dispatch Call.cgetc getc a1 a2 a3 a4 a5 k = finish (ok getc) k
dispatch Call.getenvid getc a1 a2 a3 a4 a5 k = sys_getenvid k
dispatch Call.destroy getc a1 a2 a3 a4 a5 k = sys_env_destroy a1 k
dispatch Call.yield_cpu getc a1 a2 a3 a4 a5 k = sys_yield k
dispatch Call.exofork getc a1 a2 a3 a4 a5 k = sys_exofork k
dispatch Call.set_status getc a1 a2 a3 a4 a5 k = sys_env_set_status a1 a2 k
dispatch Call.alloc_page getc a1 a2 a3 a4 a5 k = sys_page_alloc a1 a2 a3 k
dispatch Call.map_page getc a1 a2 a3 a4 a5 k = sys_page_map a1 a2 a3 a4 a5 k
dispatch Call.unmap_page getc a1 a2 a3 a4 a5 k = sys_page_unmap a1 a2 k
dispatch Call.set_pgfault_upcall getc a1 a2 a3 a4 a5 k = sys_env_set_pgfault_upcall a1 a2 k
dispatch Call.ipc_try_send getc a1 a2 a3 a4 a5 k = sys_ipc_try_send a1 a2 a3 a4 k
dispatch Call.ipc_recv getc a1 a2 a3 a4 a5 k = sys_ipc_recv a1 k
dispatch Call.set_trapframe getc a1 a2 a3 a4 a5 k = finish (err Error.inval) k

unfoldable pub syscall : ℕ → ℕ → ℕ → ℕ → ℕ → ℕ → ℕ → Kernel → Option Outcome
syscall getc num a1 a2 a3 a4 a5 k = elim (get_elem? numbered num) [
  | none ↦ finish (err Error.inval) k
  | some call ↦ dispatch call getc a1 a2 a3 a4 a5 k
]
