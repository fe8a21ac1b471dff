-- ===== src/Kern/Sched/RoundRobin.antt =====
-- `sched_yield` of oslab6/kern/sched.c is fair: the place of a runnable environment in the queue
-- falls with every choice of another one.
use operating_systems_lab.Base.{
  ℕ, zero, suc, ◌+◌, ◌-◌, ◌%◌, ◌<◌, ◌≤◌, ◌≡◌, ◌≢◌, refl, sym, ap, ◌∙◌, arith,
}
use operating_systems_lab.Base.{false, Option, none, some}
use native.Mathlib.Decide.{dec_lt, ℕ_discrete}
use operating_systems_lab.Kern.State.{Kernel}
use operating_systems_lab.Kern.Env.{nenv, envx, env_run, is_free}
use operating_systems_lab.Kern.Sched.{start_index, first_runnable, sched_yield, Switch}
use operating_systems_lab.Kern.Sched.Search.{Runnable, Found, nobody, at, first_runnable-Found}

-- The place of environment `j` in the queue: how many places the search passes before it.
abbrev pub place : Kernel → ℕ → ℕ
place k j = (j + nenv - start_index k) % nenv

-- An environment's id holds its place in the table.
abbrev pub IdsMatch : Kernel → Type 0
IdsMatch k = (i : ℕ) → i < nenv → is_free (k.envs i).env_status ≡ false → envx (k.envs i).env_id ≡ i

module _ (i j : ℕ) (k : Kernel) where
  env_id-env_run : ((env_run i k).envs j).env_id ≡ (k.envs j).env_id
  unfolding env_run
  env_id-env_run = ground arith

  is_free-env_run :
      is_free (k.envs i).env_status ≡ false
      → is_free ((env_run i k).envs j).env_status ≡ is_free (k.envs j).env_status
  unfolding env_run
  is_free-env_run h = ground arith

  pub Runnable-env_run : i ≢ j → Runnable k j → Runnable (env_run i k) j
  unfolding env_run
  Runnable-env_run ne h = ground arith

start_index-env_run : (i : ℕ) (k : Kernel) → start_index (env_run i k) ≡ envx (k.envs i).env_id + 1
unfolding env_run
start_index-env_run i k = ground arith

pub IdsMatch-env_run :
    (i : ℕ) (k : Kernel)
    → is_free (k.envs i).env_status ≡ false
    → IdsMatch k
    → IdsMatch (env_run i k)
IdsMatch-env_run i k h ids j lt e =
    rw (env_id-env_run i j k) (ids j lt (sym (is_free-env_run i j k h) ∙ e))

-- What `sched_yield` does while environment `j` is runnable: it enters some runnable environment,
-- `j` itself or one before it, after which `j` is nearer to its turn.
record Turn (k : Kernel) (j i : ℕ) : Type 0 where
  enters : sched_yield k ≡ Switch.to_user i (env_run i k)
  runnable : Runnable k i
  in_table : i < nenv
  nearer : i ≢ j → place (env_run i k) j < place k j

start_index-le : (k : Kernel) → start_index k ≤ nenv
start_index-le k = ground arith

pub sched_yield-found :
    (k : Kernel) (i : ℕ)
    → first_runnable nenv (start_index k) 0 k ≡ some i
    → sched_yield k ≡ Switch.to_user i (env_run i k)
unfolding sched_yield
sched_yield-found k i e = rw (e, sched_yield)

module _ (k : Kernel) (j : ℕ) (ids : IdsMatch k) (lt : j < nenv) (run : Runnable k j) where
  place_lem : (start_index k + place k j) % nenv ≡ j
  place_lem = omega (arith, start_index-le k)

  place-env_run :
      (d : ℕ)
      → d ≤ place k j
      → let i = (start_index k + d) % nenv in
        Runnable k i → i ≢ j → place (env_run i k) j < place k j
  place-env_run d le here ne =
      let i : ℕ = (start_index k + d) % nenv in
      omega (arith, start_index-le k, start_index-env_run i k, ids i (omega arith) (ground arith))

  turn :
      (r : Option ℕ)
      → first_runnable nenv (start_index k) 0 k ≡ r
      → Found k (start_index k) 0 nenv r
      → (i : ℕ) × Turn k j i
  turn r e (nobody q all) = absurd (all (place k j) (omega arith) (omega arith) (rw place_lem run))
  turn r e (at d q a here before) = (
    (start_index k + d) % nenv,
    record {
      enters = sched_yield-found k _ (e ∙ q);
      runnable = here;
      in_table = omega arith;
      nearer = place-env_run d in_time here;
    },
  )
    where
      in_time : d ≤ place k j
      in_time = elim (dec_lt (place k j) d) [
        | yes early ↦ absurd (before (place k j) (omega arith) early (rw place_lem run))
        | no late ↦ omega arith
      ]

  sched_yield-Turn : (i : ℕ) × Turn k j i
  sched_yield-Turn = turn _ refl (first_runnable-Found nenv (start_index k) 0 k)

-- The environment that the `n`-th of a row of calls of `sched_yield` enters, if none of them halts.
pub entered : ℕ → Kernel → Option ℕ
entered zero k = elim (sched_yield k) [ Switch.to_user i k' ↦ some i | _ ↦ none ]
entered (suc n) k = elim (sched_yield k) [ Switch.to_user i k' ↦ entered n k' | _ ↦ none ]

entered-zero : (k k' : Kernel) (i : ℕ) → sched_yield k ≡ Switch.to_user i k' → entered 0 k ≡ some i
unfolding entered
entered-zero k k' i e = rw (e, entered)

entered-suc :
    (n : ℕ) (k k' : Kernel) (i : ℕ)
    → sched_yield k ≡ Switch.to_user i k'
    → entered (suc n) k ≡ entered n k'
unfolding entered
entered-suc n k k' i e = rw (e, entered)

abbrev Waits : ℕ → Kernel → ℕ → Type 0
Waits n k j =
    IdsMatch k → Runnable k j → place k j < n → (m : ℕ) × (m ≤ place k j) × (entered m k ≡ some j)

wait_one :
    (n : ℕ) (k : Kernel) (j i : ℕ)
    → IdsMatch k
    → Turn k j i
    → Runnable k j
    → place k j < suc n
    → Waits n (env_run i k) j
    → (m : ℕ) × (m ≤ place k j) × (entered m k ≡ some j)
wait_one n k j i ids t run h ih = elim (ℕ_discrete i j) [
  | yes e ↦ (0, omega arith, entered-zero k (env_run i k) i t.enters ∙ ap some e)
  | no ne ↦
      let closer = t.nearer ne in
      let (m, le, e) =
        ih (IdsMatch-env_run i k in_use ids) (Runnable-env_run i j k ne run) (omega arith) in
      (suc m, omega arith, entered-suc m k (env_run i k) i t.enters ∙ e)
]
  where
    in_use : is_free (k.envs i).env_status ≡ false
    in_use = ground (arith, t.runnable)

within : (n : ℕ) (k : Kernel) (j : ℕ) → j < nenv → Waits n k j
within zero k j lt ids run h = absurd (omega arith)
within (suc n) k j lt ids run h =
    let (i, t) = sched_yield-Turn k j ids lt run in
    wait_one n k j i ids t run h (within n (env_run i k) j lt)

-- A runnable environment waits for at most as many other turns as places before it, hence fewer
-- than 1024: in a row of calls of `sched_yield`, none of which changes who is runnable otherwise,
-- one enters it.
pub sched_yield_fair :
    (k : Kernel) (j : ℕ)
    → IdsMatch k
    → j < nenv
    → Runnable k j
    → (m : ℕ) × (m < nenv) × (entered m k ≡ some j)
sched_yield_fair k j ids lt run =
    let (m, le, e) = within nenv k j lt ids run (omega arith) in (m, omega arith, e)
