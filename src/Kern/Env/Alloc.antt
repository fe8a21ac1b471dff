-- ===== src/Kern/Env/Alloc.antt =====
-- `env_alloc` and `env_init` of oslab6/kern/env.c: the free list of environments, and the ids.
use operating_systems_lab.Base.{
  ℕ, zero, suc, ◌+◌, ◌*◌, ◌/◌, ◌^◌, ◌<◌, ◌≤◌, ◌≡◌, ◌≢◌, refl, ap, arith, bit_or, bit_or-eq-add,
}
use operating_systems_lab.Base.{true, false, Option, none, some, List, [], ◌∷◌, ◌++◌}
use operating_systems_lab.Base.{All, All-map, Chain, Chain-frame, Fresh, Distinct}
use mathlib.Core.Path.{subst}
use mathlib.Core.List.{append_assoc, append-nil}
use operating_systems_lab.Kern.State.{
  Kernel, EnvStatus, EnvType, Trapframe, ok, err, Error, pdx, uvpt,
}
use operating_systems_lab.Kern.PageAlloc.{incref, page_alloc}
use operating_systems_lab.Kern.PageAlloc.FreeList.{
  FreePages, FreePages-frame, Given, page_alloc-cons, page_alloc-nil,
}
use operating_systems_lab.Kern.Env.{
  nenv, envx, env_setup_vm, env_alloc, with_dir, take_env, next_generation, init_env, init_envs,
  env_init,
}

abbrev pub env_links : Kernel → ℕ → Option ℕ
env_links k n = (k.envs n).env_link

-- `xs` are the free places of the table, in the order in which they will be given out.
pub record FreeEnvs (xs : List ℕ) (k : Kernel) : Type 0 where
  pub env_chain : Chain (env_links k) k.env_free_list xs
  pub env_distinct : Distinct xs
  pub env_range : All (λ i. i < nenv) xs

FreeEnvs-frame :
    (k k' : Kernel) (n : ℕ) (xs : List ℕ)
    → ((m : ℕ) → n ≢ m → env_links k' m ≡ env_links k m)
    → Fresh n xs
    → Chain (env_links k) k'.env_free_list xs
    → Chain (env_links k') k'.env_free_list xs
FreeEnvs-frame k k' n xs same fresh c =
    Chain-frame (env_links k) (env_links k') k'.env_free_list xs c
      (All-map (λ m h. same m h) xs fresh)

-- The id that `env_alloc` gives to place `i`: its low bits are the place, it is positive as an
-- `int32_t`, and it is not the id that the place had before.
pub next_id_lem :
    (old i : ℕ)
    → old < 2 ^ 32
    → i < nenv
    → let id = bit_or (next_generation old) i in
      (envx id ≡ i) × (0 < id) × (id < 2 ^ 31) × (id ≢ old)
next_id_lem old i fits lt = ground (arith, joined)
  where
    aligned : next_generation old ≡ next_generation old / 1024 * 2 ^ 10
    aligned = ground arith

    joined : bit_or (next_generation old) i ≡ next_generation old + i
    joined = omega (
      arith,
      ap (λ g. bit_or g i) aligned,
      bit_or-eq-add 10 (next_generation old / 1024) i lt,
      aligned,
    )

-- With no free place `env_alloc` fails, and changes nothing.
pub env_alloc-no_free_env :
    (parent : ℕ) (k : Kernel) → FreeEnvs [] k → env_alloc parent k ≡ some (err Error.no_free_env, k)
unfolding env_alloc
env_alloc-no_free_env parent k f = ground arith

-- With no free page it fails, and the place stays free.
pub env_alloc-no_mem :
    (parent i : ℕ) (es : List ℕ) (k : Kernel)
    → FreeEnvs (i ∷ es) k
    → FreePages [] k
    → env_alloc parent k ≡ some (err Error.no_mem, k)
unfolding env_alloc env_setup_vm
env_alloc-no_mem parent i es k f g = ground (arith, page_alloc-nil true k g)

-- A frame with which a program can start: nothing in it but the segments of user mode, at privilege
-- 3, a stack pointer at `USTACKTOP` and the interrupt flag.
pub record IsNewFrame (tf : Trapframe) : Type 0 where
  pub pointers_zero :
      (tf.tf_regs.reg_edi ≡ 0)
      × (tf.tf_regs.reg_esi ≡ 0)
      × (tf.tf_regs.reg_ebp ≡ 0)
      × (tf.tf_regs.reg_oesp ≡ 0)
  pub data_zero :
      (tf.tf_regs.reg_ebx ≡ 0)
      × (tf.tf_regs.reg_edx ≡ 0)
      × (tf.tf_regs.reg_ecx ≡ 0)
      × (tf.tf_regs.reg_eax ≡ 0)
  pub data_segments : (tf.tf_es ≡ 0x23) × (tf.tf_ds ≡ 0x23) × (tf.tf_ss ≡ 0x23)
  pub code_segment : tf.tf_cs ≡ 0x1b
  pub stack_top : tf.tf_esp ≡ 0xeebf_e000
  pub interruptible : tf.tf_eflags ≡ 2 ^ 9
  pub cleared : (tf.tf_trapno ≡ 0) × (tf.tf_err ≡ 0) × (tf.tf_eip ≡ 0)

-- What `env_alloc` leaves when it takes place `i` and page `p` for the directory.
pub record Allocated (i parent p : ℕ) (es ps : List ℕ) (k k' : Kernel) : Type 0 where
  pub places_left : FreeEnvs es k'
  pub pages_left : FreePages ps k'
  pub id_index : envx (k'.envs i).env_id ≡ i
  pub id_positive : (0 < (k'.envs i).env_id) × ((k'.envs i).env_id < 2 ^ 31)
  pub id_new : (k'.envs i).env_id ≢ (k.envs i).env_id
  pub started :
      ((k'.envs i).env_parent_id ≡ parent)
      × ((k'.envs i).env_status ≡ EnvStatus.runnable)
      × ((k'.envs i).env_ipc_recving ≡ false)
  pub user_env :
      ((k'.envs i).env_type ≡ EnvType.user)
      × ((k'.envs i).env_runs ≡ 0)
      × ((k'.envs i).env_pgfault_upcall ≡ 0)
  pub frame : IsNewFrame (k'.envs i).env_tf
  pub directory : ((k'.envs i).env_pgdir ≡ some p) × ((k'.pages p).pp_ref ≡ 1)
  pub own_map : k'.phys p (pdx uvpt) ≡ bit_or (p * 4096) 5
  pub kernel_map : (j : ℕ) → j ≢ pdx uvpt → k'.phys p j ≡ k.phys k.kern_pgdir j
  pub other_envs : (j : ℕ) → i ≢ j → k'.envs j ≡ k.envs j
  pub other_memory : (m j : ℕ) → p ≢ m → k'.phys m j ≡ k.phys m j

-- With a free place and a free page, `env_alloc` takes the first of each. The place gets a new id and
-- a frame with which a program can start; the directory is the kernel's but for the entry at `UVPT`, which maps the directory itself.
pub env_alloc-Allocated :
    (parent i p : ℕ) (es ps : List ℕ) (k : Kernel)
    → FreeEnvs (i ∷ es) k
    → FreePages (p ∷ ps) k
    → p ≢ k.kern_pgdir
    → (k.envs i).env_id < 2 ^ 32
    → (k' : Kernel) × (env_alloc parent k ≡ some (ok i, k')) × Allocated i parent p es ps k k'
unfolding env_alloc env_setup_vm incref
env_alloc-Allocated parent i p es ps k f g ne fits =
    let (k1, e, h) = page_alloc-cons true p ps k g in
    (take_env i parent (with_dir i p (incref p k1)), runs k1 e h, allocated k1 h)
  where
    runs :
        (k1 : Kernel)
        → page_alloc true k ≡ some (some p, k1)
        → Given true p ps k k1
        → env_alloc parent k ≡ some (ok i, take_env i parent (with_dir i p (incref p k1)))
    runs k1 e h = ground (arith, f.env_chain.0)

    new_frame :
        (k1 : Kernel) → IsNewFrame ((take_env i parent (with_dir i p (incref p k1))).envs i).env_tf
    new_frame k1 = record {
      pointers_zero = (ground arith, ground arith, ground arith, ground arith);
      data_zero = (ground arith, ground arith, ground arith, ground arith);
      data_segments = (ground arith, ground arith, ground arith);
      code_segment = ground arith;
      stack_top = ground arith;
      interruptible = ground arith;
      cleared = (ground arith, ground arith, ground arith);
    }

    allocated :
        (k1 : Kernel)
        → Given true p ps k k1
        → Allocated i parent p es ps k (take_env i parent (with_dir i p (incref p k1)))
    allocated k1 h =
        let id = next_id_lem (k.envs i).env_id i fits f.env_range.0 in
        let same : (j : ℕ) → k1.envs j ≡ k.envs j = λ j. ap (λ g. g j) h.elsewhere.0 in
        record {
          places_left = record {
            env_chain =
                FreeEnvs-frame k (take_env i parent (with_dir i p (incref p k1))) i es
                  (λ m q. ground (arith, same m)) f.env_distinct.0
                  (subst (λ l. Chain (env_links k) l es) (ground (arith, same i)) f.env_chain.1);
            env_distinct = f.env_distinct.1;
            env_range = f.env_range.1;
          };
          pages_left =
              FreePages-frame k1 (take_env i parent (with_dir i p (incref p k1))) p ps
                (λ m q. ground arith, refl) refl g.distinct.0 h.rest;
          id_index = ground (arith, same i, id);
          id_positive = ground (arith, same i, id);
          id_new = ground (arith, same i, id);
          started = (ground arith, ground arith, ground arith);
          user_env = (ground arith, ground arith, ground arith);
          frame = new_frame k1;
          directory = (ground arith, ground arith);
          own_map = ground arith;
          kernel_map = λ j q. ground (arith, h.memory k.kern_pgdir j);
          other_envs = λ j q. ground (arith, same j);
          other_memory = λ m j q. ground (arith, h.memory m j);
        }

-- The places below `n`, in order.
pub range : ℕ → List ℕ
range zero = []
range (suc n) = range n ++ n ∷ []

init_env-FreeEnvs :
    (n : ℕ) (xs : List ℕ) (k : Kernel)
    → All (λ x. suc n ≤ x) xs
    → n < nenv
    → FreeEnvs xs k
    → FreeEnvs (n ∷ xs) (init_env n k)
unfolding init_env
init_env-FreeEnvs n xs k above lt f =
    let fresh : Fresh n xs = All-map (λ x h. λ e. omega arith) xs above in
    record {
      env_chain = (
        refl,
        subst (λ l. Chain (env_links (init_env n k)) l xs) (ground arith)
            (Chain-frame (env_links k) (env_links (init_env n k)) k.env_free_list xs f.env_chain
              (All-map (λ m h. ground arith) xs fresh)),
      );
      env_distinct = (fresh, f.env_distinct);
      env_range = (lt, f.env_range);
    }

init_envs-FreeEnvs :
    (n : ℕ) (xs : List ℕ) (k : Kernel)
    → All (λ x. n ≤ x) xs
    → n ≤ nenv
    → FreeEnvs xs k
    → FreeEnvs (range n ++ xs) (init_envs n k)
unfolding range init_envs
init_envs-FreeEnvs zero xs k above le f = f
init_envs-FreeEnvs (suc n) xs k above le f = rw append_assoc (
    init_envs-FreeEnvs n (n ∷ xs) (init_env n k)
      (omega arith, All-map (λ x h. omega arith) xs above) (omega arith)
      (init_env-FreeEnvs n xs k above le f))

-- After `env_init` the free places are the whole table, in order: the first is place 0.
pub env_init-FreeEnvs : (k : Kernel) → FreeEnvs (range nenv) (env_init k)
unfolding env_init
env_init-FreeEnvs k =
    subst (λ xs. FreeEnvs xs (env_init k)) (append-nil (range nenv))
      (init_envs-FreeEnvs nenv [] (record k { env_free_list = none }) tt (omega arith)
        (record { env_chain = refl; env_distinct = tt; env_range = tt }))
