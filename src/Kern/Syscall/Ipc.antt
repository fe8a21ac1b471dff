-- ===== src/Kern/Syscall/Ipc.antt =====
-- Messages between environments: `sys_ipc_try_send` and `sys_ipc_recv` of oslab6/kern/syscall.c.
use operating_systems_lab.Base.{ℕ, ◌%◌, ◌≤◌, ◌≡◌, ◌≢◌, ◌⊎◌, inl, refl, ◌∙◌, arith, le→ltb}
use operating_systems_lab.Base.{true, false, some}
use operating_systems_lab.Kern.State.{Kernel, EnvStatus, ok, err, Error, utop, pgsize, set_env}
use operating_systems_lab.Kern.Env.{envid2env}
use operating_systems_lab.Kern.Sched.{sched_yield}
use operating_systems_lab.Kern.Syscall.{Outcome, finish}
use operating_systems_lab.Kern.Syscall.Messages.{deliver, wait_for, sys_ipc_try_send, sys_ipc_recv}
use operating_systems_lab.Kern.Syscall.Lookup.{with_env-ok}
use operating_systems_lab.Kern.Syscall.Permission.{Names, envid2env_iff}

-- What the receiver has after a message.
pub record HasMessage (k : Kernel) (r from v : ℕ) : Type 0 where
  pub sender : (k.envs r).env_ipc_from ≡ from
  pub content : (k.envs r).env_ipc_value ≡ v
  pub woken : (k.envs r).env_status ≡ EnvStatus.runnable
  pub returns : (k.envs r).env_tf.tf_regs.reg_eax ≡ 0
  pub closed : (k.envs r).env_ipc_recving ≡ false

-- Nothing but the message changed: memory, pages and the lists, the other environments, and of the
-- receiver all but what the message sets.
pub record SameRest (k k' : Kernel) (r : ℕ) : Type 0 where
  pub others : (j : ℕ) → r ≢ j → k'.envs j ≡ k.envs j
  pub state : k' ≡ record k { envs = k'.envs }
  pub registers :
      (k'.envs r).env_tf
      ≡ record ((k.envs r).env_tf) { tf_regs = record ((k.envs r).env_tf.tf_regs) { reg_eax = 0 } }
  pub addresses :
      ((k'.envs r).env_pgdir ≡ (k.envs r).env_pgdir)
      × ((k'.envs r).env_pgfault_upcall ≡ (k.envs r).env_pgfault_upcall)
      × ((k'.envs r).env_link ≡ (k.envs r).env_link)
  pub identity :
      ((k'.envs r).env_id ≡ (k.envs r).env_id)
      × ((k'.envs r).env_parent_id ≡ (k.envs r).env_parent_id)
      × ((k'.envs r).env_type ≡ (k.envs r).env_type)
      × ((k'.envs r).env_runs ≡ (k.envs r).env_runs)
      × ((k'.envs r).env_ipc_perm ≡ (k.envs r).env_ipc_perm)
  pub waited_for : (k'.envs r).env_ipc_dstva ≡ (k.envs r).env_ipc_dstva

module _ (k : Kernel) (c r envid : ℕ) (here : k.curenv ≡ some c) (named : envid ≢ 0)
    (names : Names k envid r) where
  found : envid2env envid false k ≡ ok (some r)
  found = (envid2env_iff k c here envid false r named).1 (names, inl refl)

  -- Nobody waits: the send fails and changes nothing.
  pub try_send-not_recv :
      (v srcva perm : ℕ)
      → (k.envs r).env_ipc_recving ≡ false
      → sys_ipc_try_send envid v srcva perm k ≡ finish (err Error.ipc_not_recv) k
  unfolding sys_ipc_try_send
  try_send-not_recv v srcva perm h = with_env-ok envid false k _ found ∙ rw h

module _ (k : Kernel) (c r envid : ℕ) (here : k.curenv ≡ some c) (named : envid ≢ 0)
    (names : Names k envid r) where
  -- A message without a page reaches an environment that waits.
  pub try_send-value :
      (v srcva perm : ℕ)
      → (k.envs r).env_ipc_recving ≡ true
      → utop ≤ srcva
      → sys_ipc_try_send envid v srcva perm k ≡ finish (ok 0) (deliver r v k)
  unfolding sys_ipc_try_send
  try_send-value v srcva perm h le =
      with_env-ok envid false k _ (found k c r envid here named names)
      ∙ rw (h, le→ltb srcva utop le)

  -- A message without a page to an environment that waits arrives once: its sender, its value
  -- and the return value 0 are there, and the receiver can run; the other registers and fields of
  -- the receiver, the other environments and the rest of the state are as they were; and until the
  -- receiver waits again, every further send to it fails and changes nothing.
  pub message_once :
      (v srcva perm : ℕ)
      → (k.envs r).env_ipc_recving ≡ true
      → utop ≤ srcva
      → (k' : Kernel) × (sys_ipc_try_send envid v srcva perm k ≡ finish (ok 0) k')
        × HasMessage k' r (k.envs c).env_id v
        × SameRest k k' r
        × ((w va p : ℕ) → sys_ipc_try_send envid w va p k' ≡ finish (err Error.ipc_not_recv) k')
  message_once v srcva perm h le =
      (deliver r v k, try_send-value v srcva perm h le, ground arith, rest, again)
    where
      rest : SameRest k (deliver r v k) r
      rest = record {
        others = λ j ne. ground arith;
        state = refl;
        registers = ground arith;
        addresses = (ground arith, ground arith, ground arith);
        identity = (ground arith, ground arith, ground arith, ground arith, ground arith);
        waited_for = ground arith;
      }

      names' : Names (deliver r v k) envid r
      names' = ground arith

      closed : ((deliver r v k).envs r).env_ipc_recving ≡ false
      closed = ground arith

      again :
          (w va p : ℕ)
          → sys_ipc_try_send envid w va p (deliver r v k)
            ≡ finish (err Error.ipc_not_recv) (deliver r v k)
      again w va p = try_send-not_recv (deliver r v k) c r envid here named names' w va p closed

  -- The permissions that the receiver reads after such a message are those of an earlier one:
  -- the field is not set to 0.
  pub perm_stays :
      (v srcva perm : ℕ)
      → (k.envs r).env_ipc_recving ≡ true
      → utop ≤ srcva
      → (k' : Kernel) × (sys_ipc_try_send envid v srcva perm k ≡ finish (ok 0) k')
        × ((k'.envs r).env_ipc_perm ≡ (k.envs r).env_ipc_perm)
  perm_stays v srcva perm h le = (deliver r v k, try_send-value v srcva perm h le, ground arith)

-- `sys_ipc_recv` from a good address never returns by itself: the caller is marked waiting, and
-- the scheduler takes over.
pub recv_blocks :
    (k : Kernel) (c dstva : ℕ)
    → k.curenv ≡ some c
    → (utop ≤ dstva) ⊎ (dstva % pgsize ≡ 0)
    → sys_ipc_recv dstva k
      ≡ some (Outcome.left (sched_yield (set_env c (wait_for dstva (k.envs c)) k)))
unfolding sys_ipc_recv
recv_blocks k c dstva here good = ground arith
