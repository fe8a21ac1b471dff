-- ===== src/Kern/Trap.antt =====
-- Traps into the kernel, oslab6/kern/trap.c, with the page faults that it passes to user mode. `cr2`
-- is the address that `rcr2` reads. The monitor, which a breakpoint enters, keeps the state.
pub mod Preempt
pub mod Upcall
pub mod Words
use operating_systems_lab.Base.{ℕ, suc, ◌+◌, ◌-◌, ◌*◌, ◌/◌, ◌%◌, ◌^◌, ◌==◌, leb, ltb, bit}
use operating_systems_lab.Base.{
  Bool, true, false, ◌&&◌, not, Option, none, some, if◌then◌else◌, List, [], ◌∷◌,
}
use operating_systems_lab.Kern.State.{
  Kernel, Env, EnvStatus, Trapframe, PushRegs, set_env, store, Result, ok, err, Error, utop, pgsize,
  pdx, ptx, pte_addr, pte_w,
}
use operating_systems_lab.Kern.PageTable.{present, user_mem_check}
use operating_systems_lab.Kern.Env.{env_run}
use operating_systems_lab.Kern.Env.Free.{env_free}
use operating_systems_lab.Kern.Sched.{Switch, sched_yield, is_running, Exit, env_destroy}
use operating_systems_lab.Kern.Syscall.{Outcome}
use operating_systems_lab.Kern.Syscall.Dispatch.{syscall}

-- The numbers of oslab6/inc/error.h.
unfoldable pub errno : Error → ℕ
errno Error.unspecified = 1
errno Error.bad_env = 2
errno Error.inval = 3
errno Error.no_mem = 4
errno Error.no_free_env = 5
errno Error.fault = 6
errno Error.ipc_not_recv = 7
errno Error.eof = 8
errno Error.no_disk = 9
errno Error.max_open = 10
errno Error.not_found = 11
errno Error.bad_path = 12
errno Error.file_exists = 13
errno Error.not_exec = 14
errno Error.not_supp = 15

-- An `int32_t` result in a register.
abbrev pub int_of : Result ℕ → ℕ
int_of (ok v) = v
int_of (err e) = 2 ^ 32 - errno e

abbrev pub dying : EnvStatus → Bool
dying EnvStatus.dying = true
dying _ = false

-- The word that the hardware finds for a write of the kernel to `va`: the entry in use has to be
-- present and writable, else the kernel faults. `va` is that of a word.
unfoldable pub user_word : ℕ → ℕ → Kernel → Option (ℕ × ℕ)
user_word pgdir va k =
    let pde = k.phys pgdir (pdx va) in
    let pte = k.phys (pte_addr pde) (ptx va) in
    if present pde && (bit pde pte_w == 1) && (present pte && (bit pte pte_w == 1))
    then (if va % 4 == 0 then some (pte_addr pte, va % pgsize / 4) else none)
    else none

-- Words to the addresses from `va` on.
unfoldable pub write_words : ℕ → ℕ → List ℕ → Kernel → Option Kernel
write_words pgdir va [] k = some k
write_words pgdir va (w ∷ ws) k = elim (user_word pgdir va k) [
  | none ↦ none
  | some (n, i) ↦ write_words pgdir (va + 4) ws (store n i w k)
]

-- `struct UTrapframe`
abbrev pub utrapframe : ℕ → Trapframe → List ℕ
utrapframe cr2 tf =
    let r = tf.tf_regs in
    cr2 ∷ tf.tf_err ∷ r.reg_edi ∷ r.reg_esi ∷ r.reg_ebp ∷ r.reg_oesp ∷ r.reg_ebx ∷ r.reg_edx
    ∷ r.reg_ecx ∷ r.reg_eax ∷ tf.tf_eip ∷ tf.tf_eflags ∷ tf.tf_esp ∷ []

-- `UXSTACKTOP`
abbrev pub uxstacktop : ℕ
uxstacktop = utop

-- `stacktop`: on the exception stack the new frame goes below what is there.
abbrev pub stacktop : ℕ → ℕ
stacktop esp = if ltb (uxstacktop - pgsize) esp && ltb esp uxstacktop then esp else uxstacktop

-- `size`: the frame and a word of scratch space.
abbrev pub frame_size : ℕ
frame_size = 56

-- The frame is pushed, and environment `c` goes on in its upcall.
abbrev pub to_upcall : ℕ → ℕ → Kernel → Kernel
to_upcall c utr k =
    let e = k.envs c in
    set_env c
      (record e { env_tf = record (e.env_tf) { tf_eip = e.env_pgfault_upcall; tf_esp = utr } }) k

abbrev pub enter : ℕ → Kernel → Exit
enter c k = Exit.switched (Switch.to_user c (env_run c k))

-- After `user_mem_assert`, which destroys the environment if its check fails.
unfoldable pub push_frame : ℕ → Trapframe → ℕ → ℕ → ℕ → Option (Option ℕ) → Kernel → Option Exit
push_frame cr2 tf c pgdir utr none k = none
push_frame cr2 tf c pgdir utr (some (some _)) k = env_destroy c k
push_frame cr2 tf c pgdir utr (some none) k = elim (write_words pgdir utr (utrapframe cr2 tf) k) [
  | none ↦ none
  | some k' ↦ some (enter c (to_upcall c utr k'))
]

-- The upcall of environment `c`, with `PTE_U | PTE_W` for the check.
unfoldable pub upcall : ℕ → Trapframe → ℕ → Option ℕ → Kernel → Option Exit
upcall cr2 tf c none k = none
upcall cr2 tf c (some pgdir) k =
    let utr = stacktop tf.tf_esp - frame_size in
    push_frame cr2 tf c pgdir utr (user_mem_check pgdir utr frame_size 6 k) k

-- The part of `page_fault_handler` for a fault in user mode.
unfoldable pub user_fault : ℕ → Trapframe → ℕ → Kernel → Option Exit
user_fault cr2 tf c k =
    if (k.envs c).env_pgfault_upcall == 0
    then env_destroy c k
    else upcall cr2 tf c (k.envs c).env_pgdir k

-- `curenv` as an argument; a null pointer is a fault.
abbrev pub with_cur : {A : Type 0} → Kernel → (ℕ → Option A) → Option A
with_cur k f = elim k.curenv [ none ↦ none | some c ↦ f c ]

unfoldable pub page_fault_handler : ℕ → Trapframe → Kernel → Option Exit
page_fault_handler cr2 tf k =
    if tf.tf_cs % 4 == 0 then none else with_cur k (λ c. user_fault cr2 tf c k)

-- `tf->tf_regs.reg_eax = …`, where `tf` is the frame of environment `c`.
abbrev pub set_result : ℕ → ℕ → Kernel → Kernel
set_result v c k =
    let tf = (k.envs c).env_tf in
    set_env c
      (record (k.envs c) { env_tf = record tf { tf_regs = record (tf.tf_regs) { reg_eax = v } } }) k

-- After a system call of environment `c`.
unfoldable pub after_call : ℕ → Option Outcome → Option Exit
after_call c none = none
after_call c (some (Outcome.value r k)) = some (Exit.returned (set_result (int_of r) c k))
after_call c (some (Outcome.left s)) = some (Exit.switched s)

unfoldable pub do_syscall : ℕ → Trapframe → ℕ → Kernel → Option Exit
do_syscall getc tf c k =
    let r = tf.tf_regs in
    after_call c (syscall getc r.reg_eax r.reg_edx r.reg_ecx r.reg_ebx r.reg_edi r.reg_esi k)

-- `trap_dispatch`. `T_PGFLT` is 14, `T_BRKPT` 3, `T_SYSCALL` 48, the spurious interrupt 39 and the
-- timer 32; `GD_KT` is 8. The system call has the frame of `curenv`.
unfoldable pub trap_dispatch : ℕ → ℕ → Trapframe → Kernel → Option Exit
trap_dispatch cr2 getc tf k =
    if tf.tf_trapno == 14
    then page_fault_handler cr2 tf k
    else if tf.tf_trapno == 3
    then some (Exit.returned k)
    else if tf.tf_trapno == 48
    then with_cur k (λ c. do_syscall getc tf c k)
    else if tf.tf_trapno == 39
    then some (Exit.returned k)
    else if tf.tf_trapno == 32
    then some (Exit.switched (sched_yield k))
    else if tf.tf_cs == 8
    then none
    else with_cur k (λ c. env_destroy c k)

-- The end of `trap`: the current environment goes on if it still runs.
abbrev pub go_back : Kernel → Option ℕ → Switch
go_back k none = sched_yield k
go_back k (some c) =
    if is_running (k.envs c).env_status then Switch.to_user c (env_run c k) else sched_yield k

unfoldable pub resume : Option Exit → Option Switch
resume none = none
resume (some (Exit.switched s)) = some s
resume (some (Exit.returned k)) = some (go_back k k.curenv)

-- A zombie is freed. Otherwise the frame is saved in environment `c` before anything else.
unfoldable pub trap_from_user : ℕ → ℕ → Trapframe → ℕ → Kernel → Option Switch
trap_from_user cr2 getc tf c k =
    let collected : Option Switch = elim (env_free c k) [
      | none ↦ none
      | some (_, k') ↦ some (sched_yield (record k' { curenv = none }))
    ] in
    if dying (k.envs c).env_status
    then collected
    else resume (trap_dispatch cr2 getc tf (set_env c (record (k.envs c) { env_tf = tf }) k))

-- `trap`; a trap from user mode has `curenv`.
unfoldable pub trap : ℕ → ℕ → Trapframe → Kernel → Option Switch
trap cr2 getc tf k =
    if tf.tf_cs % 4 == 3
    then with_cur k (λ c. trap_from_user cr2 getc tf c k)
    else resume (trap_dispatch cr2 getc tf k)
