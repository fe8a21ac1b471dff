-- ===== src/Tests/Calls.antt =====
-- The theorems about environments, the scheduler and the system calls, on the sample machine.
use operating_systems_lab.Base.{
  ℕ, ◌<◌, ◌==◌, ◌≡◌, refl, arith, true, none, some, [], ◌∷◌, if◌then◌else◌,
}
use operating_systems_lab.Kern.State.{Kernel, EnvStatus, ok, err, Error, utop}
use operating_systems_lab.Kern.Env.{nenv, env_alloc}
use operating_systems_lab.Kern.Env.Alloc.{FreeEnvs, Allocated, env_alloc-Allocated}
use operating_systems_lab.Kern.Sched.RoundRobin.{IdsMatch, entered, sched_yield_fair}
use operating_systems_lab.Kern.Syscall.{finish}
use operating_systems_lab.Kern.Syscall.Messages.{sys_ipc_try_send}
use operating_systems_lab.Kern.Syscall.Ipc.{HasMessage, SameRest, message_once}
use operating_systems_lab.Tests.Sample.{sample, sample_envs, env_with}
use operating_systems_lab.Tests.Pages.{sample_free}

sample-FreeEnvs : FreeEnvs (2 ∷ 3 ∷ []) sample
sample-FreeEnvs = record {
  env_chain = (refl, (refl, refl));
  env_distinct = ((omega arith, tt), (tt, tt));
  env_range = (omega arith, (omega arith, tt));
}

env_alloc-Allocated_example :
    (k' : Kernel) × (env_alloc 0x1001 sample ≡ some (ok 2, k'))
    × Allocated 2 0x1001 3 (3 ∷ []) (4 ∷ []) sample k'
env_alloc-Allocated_example =
    env_alloc-Allocated 0x1001 2 3 (3 ∷ []) (4 ∷ []) sample sample-FreeEnvs sample_free
      (omega arith) (omega arith)

sample_ids : IdsMatch sample
sample_ids i lt used = ground arith

sched_yield_fair_example : (m : ℕ) × (m < nenv) × (entered m sample ≡ some 0)
sched_yield_fair_example = sched_yield_fair sample 0 sample_ids (omega arith) refl

-- Environment 0 waits for a message.
abbrev waiting : Kernel
waiting = record sample {
  envs = λ i.
      if i == 0 then env_with 0x1000 EnvStatus.not_runnable none true (some 5) else sample_envs i;
}

message_once_example :
    (k' : Kernel) × (sys_ipc_try_send 0x1000 42 utop 0 waiting ≡ finish (ok 0) k')
    × HasMessage k' 0 0x1001 42
    × SameRest waiting k' 0
    × ((w va p : ℕ) → sys_ipc_try_send 0x1000 w va p k' ≡ finish (err Error.ipc_not_recv) k')
message_once_example =
    message_once waiting 1 0 0x1000 refl (omega arith) (refl, refl, refl) 42 utop 0 refl
      (omega arith)
