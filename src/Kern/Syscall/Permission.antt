-- ===== src/Kern/Syscall/Permission.antt =====
-- Which environments the calls of oslab6/kern/syscall.c may act on: `envid2env` of
-- oslab6/kern/env.c, and the calls that check permission by it.
use operating_systems_lab.Base.{ℕ, ◌≡◌, ◌≢◌, ◌⊎◌, ◌↔◌, arith}
use operating_systems_lab.Base.{Bool, false, some, Option}
use operating_systems_lab.Kern.State.{Kernel, ok, err, Error}
use operating_systems_lab.Kern.Env.{envx, envid2env, is_free}
use operating_systems_lab.Kern.Syscall.{Outcome, finish}

-- The id names a living environment, in its place of the table.
abbrev pub Names : Kernel → ℕ → ℕ → Type 0
Names k envid i =
    (envx envid ≡ i) × (is_free (k.envs i).env_status ≡ false) × ((k.envs i).env_id ≡ envid)

-- The caller, environment `c`, is `i` itself or its parent.
abbrev pub MayChange : Kernel → ℕ → ℕ → Type 0
MayChange k c i = (c ≡ i) ⊎ ((k.envs i).env_parent_id ≡ (k.envs c).env_id)

module _ (k : Kernel) (c : ℕ) (here : k.curenv ≡ some c) (envid : ℕ) where
  -- The id 0 stands for the caller.
  pub envid2env_self : (checkperm : Bool) → envid ≡ 0 → envid2env envid checkperm k ≡ ok (some c)
  unfolding envid2env
  envid2env_self checkperm e = ground arith

  -- Any other id finds environment `i` exactly when it names it and, if that is asked for, the
  -- caller may change it.
  pub envid2env_iff :
      (checkperm : Bool) (i : ℕ)
      → envid ≢ 0
      → (envid2env envid checkperm k ≡ ok (some i))
        ↔ Names k envid i × ((checkperm ≡ false) ⊎ MayChange k c i)
  unfolding envid2env
  envid2env_iff checkperm i ne = (λ e. ground arith, λ h. ground arith)

  -- Neither the caller nor a child of it, or nobody at all.
  abbrev pub IsForeign : Type 0
  IsForeign = (envid ≢ 0) × ((i : ℕ) → Names k envid i → ¬ MayChange k c i)

-- A call that fails, and changes nothing.
pub data Refused (k : Kernel) : Option Outcome → Type 0 where
  fails : (e : Error) → Refused k (finish (err e) k)
