-- ===== src/Tests/Sample.antt =====
-- A machine of 16 pages: pages 3 and 4 are free, page 5 is a page directory, page 6 its table for
-- the lowest addresses, and page 7 is mapped at 0x1000. Environment 1 runs, environment 0 can run,
-- environments 2 and 3 are free.
use operating_systems_lab.Base.{ℕ, ◌==◌, Bool, false, Option, none, some, [], if◌then◌else◌}
use operating_systems_lab.Kern.State.{
  Kernel, PageInfo, PushRegs, Trapframe, Env, EnvStatus, EnvType,
}

abbrev pub regs : PushRegs
regs = record {
  reg_edi = 0;
  reg_esi = 0;
  reg_ebp = 0;
  reg_oesp = 0;
  reg_ebx = 0;
  reg_edx = 0;
  reg_ecx = 0;
  reg_eax = 0;
}

abbrev pub trapframe : Trapframe
trapframe = record {
  tf_regs = regs;
  tf_es = 0;
  tf_ds = 0;
  tf_trapno = 0;
  tf_err = 0;
  tf_eip = 0;
  tf_cs = 0;
  tf_eflags = 0;
  tf_esp = 0;
  tf_ss = 0;
}

abbrev pub env_with : ℕ → EnvStatus → Option ℕ → Bool → Option ℕ → Env
env_with id status link recving pgdir = record {
  env_tf = trapframe;
  env_link = link;
  env_id = id;
  env_parent_id = 0;
  env_type = EnvType.user;
  env_status = status;
  env_runs = 0;
  env_pgdir = pgdir;
  env_pgfault_upcall = 0;
  env_ipc_recving = recving;
  env_ipc_dstva = 0;
  env_ipc_value = 0;
  env_ipc_from = 0;
  env_ipc_perm = 0;
}

abbrev pub sample_envs : ℕ → Env
sample_envs i =
    if i == 0
    then env_with 0x1000 EnvStatus.runnable none false (some 5)
    else if i == 1
    then env_with 0x1001 EnvStatus.running none false (some 5)
    else if i == 2
    then env_with 0 EnvStatus.free (some 3) false none
    else env_with 0 EnvStatus.free none false none

abbrev pub page : Option ℕ → ℕ → PageInfo
page link ref = record { pp_link = link; pp_ref = ref }

abbrev pub sample_pages : ℕ → PageInfo
sample_pages n =
    if n == 3
    then page (some 4) 0
    else if n == 5
    then page none 1
    else if n == 6
    then page none 1
    else if n == 7
    then page none 2
    else page none 0

abbrev pub sample_phys : ℕ → ℕ → ℕ
sample_phys n i =
    if n == 5
    then (if i == 0 then 0x6007 else 0)
    else if n == 6
    then (if i == 1 then 0x7007 else 0)
    else 0

abbrev pub sample : Kernel
sample = record {
  npages = 16;
  pages = sample_pages;
  page_free_list = some 3;
  phys = sample_phys;
  kern_pgdir = 2;
  cr3 = 5;
  flushed = [];
  envs = sample_envs;
  env_free_list = some 2;
  curenv = some 1;
}

-- The machine before `page_init` and `env_init`.
abbrev pub at_boot : Kernel
at_boot = record sample { page_free_list = none; env_free_list = none; curenv = none }

-- The machine with no free page.
abbrev pub no_memory : Kernel
no_memory = record sample { page_free_list = none }
