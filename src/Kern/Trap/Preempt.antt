-- ===== src/Kern/Trap/Preempt.antt =====
-- The timer interrupt of oslab6/kern/trap.c takes the CPU from an environment that does not give it
-- up.
use operating_systems_lab.Base.{
  ℕ, ◌+◌, ◌-◌, ◌%◌, ◌<◌, ◌≤◌, ◌==◌, ◌≡◌, ◌≢◌, refl, sym, ap, ◌∙◌, arith, true, false,
}
use operating_systems_lab.Base.{Option, none, some}
use mathlib.Core.Path.{subst}
use operating_systems_lab.Kern.State.{Kernel, EnvStatus, Trapframe, set_env}
use operating_systems_lab.Kern.Env.{preempt_status, nenv, envx, env_run}
use operating_systems_lab.Kern.Sched.{Switch, sched_yield, start_index, Exit}
use operating_systems_lab.Kern.Sched.Search.{Runnable, Found, nobody, at, first_runnable-Found}
use operating_systems_lab.Kern.Sched.RoundRobin.{sched_yield-found}
use operating_systems_lab.Kern.Trap.{trap, trap_from_user, trap_dispatch, resume, with_cur, dying}

-- The environment entered is runnable.
record Entered (k : Kernel) (s : Switch) : Type 0 where
  who : ℕ
  was_runnable : Runnable k who
  entered_by : s ≡ Switch.to_user who (env_run who k)

start-le : (k : Kernel) → start_index k ≤ 1024
start-le k = start_le k.curenv k
  where
    start_le :
        (c : Option ℕ) (k : Kernel)
        → elim c [ none ↦ 0 | some i ↦ envx (k.envs i).env_id + 1 ] ≤ 1024
    start_le none k = omega arith
    start_le (some i) k = omega arith

turn : (start j : ℕ) → start ≤ 1024 → j < nenv → (start + (j + nenv - start) % nenv) % nenv ≡ j
turn start j a b = omega arith

Found-some :
    (k : Kernel) (j : ℕ) {r : Option ℕ}
    → j < nenv
    → Runnable k j
    → Found k (start_index k) 0 nenv r
    → (i : ℕ) × (r ≡ some i) × Runnable k i
Found-some k j lt h (nobody e all) = absurd (
    all ((j + nenv - start_index k) % nenv) (omega arith) (omega arith)
      (subst (λ i. Runnable k i) (sym (turn (start_index k) j (start-le k) lt)) h))
Found-some k j lt h (at d e range here before) = ((start_index k + d) % nenv, e, here)

yield_enters : (k : Kernel) (j : ℕ) → j < nenv → Runnable k j → Entered k (sched_yield k)
yield_enters k j lt h =
    let (i, e, run) = Found-some k j lt h (first_runnable-Found nenv (start_index k) 0 k) in
    record { who = i; was_runnable = run; entered_by = sched_yield-found k i e }

-- Environment `c`, with the registers `tf`, has been put back among the runnable ones.
pub record IsPreempted (c i : ℕ) (tf : Trapframe) (k : Kernel) : Type 0 where
  pub another : i ≢ c
  pub registers : (k.envs c).env_tf ≡ tf
  pub runnable_again : (k.envs c).env_status ≡ EnvStatus.runnable
  pub now_current : k.curenv ≡ some i

-- `k` with the registers of environment `c` saved.
abbrev saved : ℕ → Trapframe → Kernel → Kernel
saved c tf k = set_env c (record (k.envs c) { env_tf = tf }) k

not_itself :
    (c i : ℕ) (tf : Trapframe) (k : Kernel)
    → (k.envs c).env_status ≡ EnvStatus.running
    → Runnable (saved c tf k) i
    → i ≢ c
not_itself c i tf k running run = λ e. absurd (ground (arith, running))

still_Runnable : (c j : ℕ) (tf : Trapframe) (k : Kernel) → Runnable k j → Runnable (saved c tf k) j
still_Runnable c j tf k h = ground arith

preempted :
    (c i : ℕ) (tf : Trapframe) (k : Kernel)
    → k.curenv ≡ some c
    → (k.envs c).env_status ≡ EnvStatus.running
    → Runnable (saved c tf k) i
    → IsPreempted c i tf (env_run i (saved c tf k))
unfolding env_run
preempted c i tf k cur running run =
    let ne = not_itself c i tf k running run in
    let put_back =
      ap
        (λ (q : Option ℕ). elim q [
          | none ↦ saved c tf k
          | some e ↦
              set_env e
                (record ((saved c tf k).envs e) {
                  env_status = preempt_status ((saved c tf k).envs e).env_status;
                })
                (saved c tf k)
        ])
        cur in
    record {
      another = ne;
      registers = ground (arith, put_back);
      runnable_again = ground (arith, put_back, running);
      now_current = refl;
    }

dispatch_timer :
    (cr2 getc : ℕ) (tf : Trapframe) (k : Kernel)
    → tf.tf_trapno ≡ 32
    → trap_dispatch cr2 getc tf k ≡ some (Exit.switched (sched_yield k))
unfolding trap_dispatch
dispatch_timer cr2 getc tf k number = rw (number) refl

from_user :
    (cr2 getc c : ℕ) (tf : Trapframe) (k : Kernel)
    → (k.envs c).env_status ≡ EnvStatus.running
    → trap_from_user cr2 getc tf c k ≡ resume (trap_dispatch cr2 getc tf (saved c tf k))
unfolding trap_from_user
from_user cr2 getc c tf k running =
    let alive : dying (k.envs c).env_status ≡ false = ap dying running in rw alive refl

enters_kernel :
    (cr2 getc : ℕ) (tf : Trapframe) (k : Kernel)
    → tf.tf_cs % 4 ≡ 3
    → trap cr2 getc tf k ≡ with_cur k (λ c. trap_from_user cr2 getc tf c k)
unfolding trap
enters_kernel cr2 getc tf k user = let e : (tf.tf_cs % 4 == 3) ≡ true = ground arith in rw e refl

switched : (s : Switch) → resume (some (Exit.switched s)) ≡ some s
unfolding resume
switched s = refl

timer :
    (cr2 getc c : ℕ) (tf : Trapframe) (k : Kernel)
    → k.curenv ≡ some c
    → (k.envs c).env_status ≡ EnvStatus.running
    → tf.tf_cs % 4 ≡ 3
    → tf.tf_trapno ≡ 32
    → trap cr2 getc tf k ≡ some (sched_yield (saved c tf k))
timer cr2 getc c tf k cur running user number =
    enters_kernel cr2 getc tf k user
    ∙ ap (λ (q : Option ℕ). elim q [ none ↦ none | some e ↦ trap_from_user cr2 getc tf e k ]) cur
    ∙ from_user cr2 getc c tf k running
    ∙ ap resume (dispatch_timer cr2 getc tf (saved c tf k) number)
    ∙ switched (sched_yield (saved c tf k))

-- When the timer interrupts the current environment, which runs in user mode, and another one is
-- runnable, control goes to another environment, and the one that was interrupted is runnable with
-- its registers saved.
pub timer-IsPreempted :
    (cr2 getc c j : ℕ) (tf : Trapframe) (k : Kernel)
    → k.curenv ≡ some c
    → (k.envs c).env_status ≡ EnvStatus.running
    → tf.tf_cs % 4 ≡ 3
    → tf.tf_trapno ≡ 32
    → j < nenv
    → Runnable k j
    → (i : ℕ) × (k' : Kernel) × (trap cr2 getc tf k ≡ some (Switch.to_user i k'))
      × IsPreempted c i tf k'
timer-IsPreempted cr2 getc c j tf k cur running user number lt run =
    let h = yield_enters (saved c tf k) j lt (still_Runnable c j tf k run) in
    (
      h.who,
      env_run h.who (saved c tf k),
      timer cr2 getc c tf k cur running user number ∙ ap some h.entered_by,
      preempted c h.who tf k cur running h.was_runnable,
    )
