-- ===== src/Kern/Syscall/Lookup.antt =====
-- How a call of oslab6/kern/syscall.c goes on after `envid2env`.
use operating_systems_lab.Base.{ℕ, ◌≡◌, Bool, Option, some}
use operating_systems_lab.Kern.State.{Kernel, ok, err, Error}
use operating_systems_lab.Kern.Env.{envid2env}
use operating_systems_lab.Kern.Syscall.{Outcome, finish, with_env, with_dir_of}

module _ (envid : ℕ) (checkperm : Bool) (k : Kernel) (f : ℕ → Option Outcome) where
  pub with_env-err :
      {e : Error}
      → envid2env envid checkperm k ≡ err e
      → with_env envid checkperm k f ≡ finish (err e) k
  unfolding with_env
  with_env-err h = rw (h, with_env)

  pub with_env-ok :
      {i : ℕ} → envid2env envid checkperm k ≡ ok (some i) → with_env envid checkperm k f ≡ f i
  unfolding with_env
  with_env-ok h = rw (h, with_env)

pub with_dir_of-some :
    (i : ℕ) (k : Kernel) (f : ℕ → Option Outcome) {pgdir : ℕ}
    → (k.envs i).env_pgdir ≡ some pgdir
    → with_dir_of i k f ≡ f pgdir
unfolding with_dir_of
with_dir_of-some i k f h = rw (h, with_dir_of)
