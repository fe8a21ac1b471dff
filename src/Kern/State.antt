-- ===== src/Kern/State.antt =====
-- The state of the JOS kernel that oslab6/kern/pmap.c, env.c, sched.c and syscall.c share, the
-- structures of oslab6/inc/memlayout.h, inc/env.h and inc/trap.h, and the address macros of
-- oslab6/inc/mmu.h. A pointer into an array is its index; a kernel virtual address of a page is
-- its physical page number.
use operating_systems_lab.Base.{ℕ, ◌+◌, ◌-◌, ◌*◌, ◌/◌, ◌%◌, ◌^◌}
use operating_systems_lab.Base.{Bool, Option, none, some, update, List}

-- The codes of inc/error.h, which functions return negated.
pub data Error : Type 0 where
  unspecified bad_env inval no_mem no_free_env fault ipc_not_recv eof : Error
  no_disk max_open not_found bad_path file_exists not_exec not_supp : Error

pub data Result {ℓ} (A : Type ℓ) : Type ℓ where
  ok : A → Result A
  err : Error → Result A

abbrev pub pgsize : ℕ
pgsize = 4096

abbrev pub ptsize : ℕ
ptsize = pgsize * 1024

abbrev pub kernbase : ℕ
kernbase = 0xF000_0000

abbrev pub ulim : ℕ
ulim = kernbase - ptsize - ptsize

abbrev pub uvpt : ℕ
uvpt = ulim - ptsize

abbrev pub utop : ℕ
utop = uvpt - ptsize - ptsize

abbrev pub ustacktop : ℕ
ustacktop = utop - 2 * pgsize

-- `uint32_t` arithmetic
abbrev pub u32 : ℕ → ℕ
u32 x = x % 2 ^ 32

-- `PGNUM`, `PDX`, `PTX` and `PTE_ADDR` of a word below 2 ^ 32, the last as a page number
abbrev pub pgnum : ℕ → ℕ
pgnum la = la / 4096

abbrev pub pdx : ℕ → ℕ
pdx la = la / 2 ^ 22 % 1024

abbrev pub ptx : ℕ → ℕ
ptx la = la / 4096 % 1024

abbrev pub pte_addr : ℕ → ℕ
pte_addr pte = pte / 4096

-- `ROUNDDOWN` and `ROUNDUP` on 32-bit words
abbrev pub rounddown : ℕ → ℕ → ℕ
rounddown a n = a - a % n

abbrev pub roundup : ℕ → ℕ → ℕ
roundup a n = rounddown (u32 (a + n - 1)) n

-- The positions of `PTE_P`, `PTE_W` and `PTE_U` in a page table entry.
abbrev pub pte_p : ℕ
pte_p = 0

abbrev pub pte_w : ℕ
pte_w = 1

abbrev pub pte_u : ℕ
pte_u = 2

pub record PageInfo : Type 0 where
  pub pp_link : Option ℕ
  pub pp_ref : ℕ

pub record PushRegs : Type 0 where
  pub reg_edi : ℕ
  pub reg_esi : ℕ
  pub reg_ebp : ℕ
  pub reg_oesp : ℕ
  pub reg_ebx : ℕ
  pub reg_edx : ℕ
  pub reg_ecx : ℕ
  pub reg_eax : ℕ

pub record Trapframe : Type 0 where
  pub tf_regs : PushRegs
  pub tf_es : ℕ
  pub tf_ds : ℕ
  pub tf_trapno : ℕ
  pub tf_err : ℕ
  pub tf_eip : ℕ
  pub tf_cs : ℕ
  pub tf_eflags : ℕ
  pub tf_esp : ℕ
  pub tf_ss : ℕ

pub data EnvStatus : Type 0 where
  free dying runnable running not_runnable : EnvStatus

pub data EnvType : Type 0 where
  user fs : EnvType

-- `struct Env`; an `envid_t` is its bit pattern.
pub record Env : Type 0 where
  pub env_tf : Trapframe
  pub env_link : Option ℕ
  pub env_id : ℕ
  pub env_parent_id : ℕ
  pub env_type : EnvType
  pub env_status : EnvStatus
  pub env_runs : ℕ
  pub env_pgdir : Option ℕ
  pub env_pgfault_upcall : ℕ
  pub env_ipc_recving : Bool
  pub env_ipc_dstva : ℕ
  pub env_ipc_value : ℕ
  pub env_ipc_from : ℕ
  pub env_ipc_perm : ℕ

-- The global variables, seen from the CPU that holds the kernel lock. `phys n i` is word `i` of
-- physical page `n`; `cr3` is the page directory in use; `flushed` are the addresses given to
-- `invlpg`, the latest first.
pub record Kernel : Type 0 where
  pub npages : ℕ
  pub pages : ℕ → PageInfo
  pub page_free_list : Option ℕ
  pub phys : ℕ → ℕ → ℕ
  pub kern_pgdir : ℕ
  pub cr3 : ℕ
  pub flushed : List ℕ
  pub envs : ℕ → Env
  pub env_free_list : Option ℕ
  pub curenv : Option ℕ

-- A kernel function changes the state and returns a value; `none` is a panic.
abbrev pub M {ℓ} : Type ℓ → Type ℓ
M A = Kernel → Option (A × Kernel)

abbrev pub pure {ℓ} : {A : Type ℓ} → A → M A
pure a k = some (a, k)

infixl 5 ◌>>=◌ ◌>>◌
abbrev pub ◌>>=◌ {ℓ κ} : {A : Type ℓ} {B : Type κ} → M A → (A → M B) → M B
◌>>=◌ m f k = elim (m k) [ none ↦ none | some (a, k') ↦ f a k' ]

abbrev pub ◌>>◌ {κ} : {B : Type κ} → M (Unit {0}) → M B → M B
m >> n = m >>= λ _. n

abbrev pub panic {ℓ} : {A : Type ℓ} → M A
panic k = none

abbrev pub gets {ℓ} : {A : Type ℓ} → (Kernel → A) → M A
gets f k = some (f k, k)

abbrev pub modify : (Kernel → Kernel) → M (Unit {0})
modify f k = some (tt, f k)

-- Writes to one field of one array element, and to one word of physical memory.
abbrev pub set_link : ℕ → Option ℕ → Kernel → Kernel
set_link n l k = record k { pages = update k.pages n (record (k.pages n) { pp_link = l }) }

abbrev pub set_ref : ℕ → ℕ → Kernel → Kernel
set_ref n r k = record k { pages = update k.pages n (record (k.pages n) { pp_ref = r }) }

abbrev pub store : ℕ → ℕ → ℕ → Kernel → Kernel
store n i w k = record k { phys = update k.phys n (update (k.phys n) i w) }

abbrev pub set_env : ℕ → Env → Kernel → Kernel
set_env i e k = record k { envs = update k.envs i e }
