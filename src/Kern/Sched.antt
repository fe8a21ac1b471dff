-- ===== src/Kern/Sched.antt =====
-- The round-robin scheduler of oslab6/kern/sched.c, and `env_destroy` of oslab6/kern/env.c, which
-- ends in it.
pub mod Search
pub mod RoundRobin
use operating_systems_lab.Base.{ℕ, zero, suc, ◌+◌, ◌%◌}
use operating_systems_lab.Base.{
  Bool, true, false, ◌&&◌, ◌||◌, not, Option, none, some, if◌then◌else◌,
}
use operating_systems_lab.Kern.State.{Kernel, Env, EnvStatus, set_env}
use operating_systems_lab.Kern.Env.{nenv, envx, is_cur, env_run}
use operating_systems_lab.Kern.Env.Free.{env_free}

abbrev pub is_runnable : EnvStatus → Bool
is_runnable EnvStatus.runnable = true
is_runnable _ = false

abbrev pub is_running : EnvStatus → Bool
is_running EnvStatus.running = true
is_running _ = false

-- Runnable, running or dying: an environment that keeps the machine from idling in the monitor.
abbrev pub is_live : EnvStatus → Bool
is_live EnvStatus.free = false
is_live EnvStatus.not_runnable = false
is_live _ = true

-- Where control goes: to user mode in an environment, to a halted CPU, or to the monitor for good.
pub data Switch : Type 0 where
  to_user : ℕ → Kernel → Switch
  halted : Kernel → Switch
  in_monitor : Kernel → Switch

-- `start` in `sched_yield`
abbrev pub start_index : Kernel → ℕ
start_index k = elim k.curenv [ none ↦ 0 | some c ↦ envx (k.envs c).env_id + 1 ]

-- The loop of `sched_yield`, at round `i` with `n` rounds left.
unfoldable pub first_runnable : ℕ → ℕ → ℕ → Kernel → Option ℕ
first_runnable zero start i k = none
first_runnable (suc n) start i k =
    let rest = first_runnable n start (i + 1) k in
    let j = (start + i) % nenv in if is_runnable (k.envs j).env_status then some j else rest

-- The loop of `sched_halt`.
unfoldable pub any_live : ℕ → Kernel → Bool
any_live zero k = false
any_live (suc n) k = is_live (k.envs n).env_status || any_live n k

unfoldable pub sched_halt : Kernel → Switch
sched_halt k =
    if any_live nenv k
    then Switch.halted (record k { curenv = none; cr3 = k.kern_pgdir })
    else Switch.in_monitor k

-- The part of `sched_yield` after the loop found nobody.
unfoldable pub keep_or_halt : Kernel → Switch
keep_or_halt k = elim k.curenv [
  | none ↦ sched_halt k
  | some c ↦
      if is_running (k.envs c).env_status then Switch.to_user c (env_run c k) else sched_halt k
]

unfoldable pub sched_yield : Kernel → Switch
sched_yield k = elim (first_runnable nenv (start_index k) 0 k) [
  | some j ↦ Switch.to_user j (env_run j k)
  | none ↦ keep_or_halt k
]

-- What became of a call in the kernel: it returned, or control left by the scheduler.
pub data Exit : Type 0 where
  returned : Kernel → Exit
  switched : Switch → Exit

-- An environment that runs on another CPU is only marked; `none` is a panic in `env_free`.
unfoldable pub env_destroy : ℕ → Kernel → Option Exit
env_destroy i k =
    if is_running (k.envs i).env_status && not (is_cur k i)
    then some (Exit.returned (set_env i (record (k.envs i) { env_status = EnvStatus.dying }) k))
    else elim (env_free i k) [
      | none ↦ none
      | some (_, k') ↦
          if is_cur k' i
          then some (Exit.switched (sched_yield (record k' { curenv = none })))
          else some (Exit.returned k')
    ]
