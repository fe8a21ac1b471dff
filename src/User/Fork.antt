-- ===== src/User/Fork.antt =====
-- Copy-on-write fork of user programs, oslab6/lib/fork.c, with the handler set-up of
-- oslab6/lib/pgfault.c, over the kernel's system calls. The program runs as the current environment;
-- `none` is a panic of the program, or a fault. What the compiled code itself writes to the stack of
-- the program is left out.
pub mod Entries
pub mod Cow
pub mod Copy
pub mod Private
pub mod Isolated
use operating_systems_lab.Base.{ℕ, zero, suc, ◌+◌, ◌-◌, ◌*◌, ◌/◌, ◌%◌, ◌==◌, bit, update}
use operating_systems_lab.Base.{Bool, true, false, ◌&&◌, ◌||◌, Option, none, some, if◌then◌else◌}
use operating_systems_lab.Kern.State.{
  Kernel, Result, ok, err, pgsize, ptsize, ustacktop, utop, pdx, ptx, pte_addr, pte_w, pte_u,
  rounddown,
}
use operating_systems_lab.Kern.PageTable.{present}
use operating_systems_lab.Kern.Syscall.{
  Outcome, sys_page_map, sys_page_alloc, sys_page_unmap, sys_exofork, sys_env_set_pgfault_upcall,
  sys_env_set_status,
}

-- The positions of `PTE_SHARE` and `PTE_COW`, and `PTE_SYSCALL`, `PTE_COW | PTE_U | PTE_P`,
-- `PTE_P | PTE_U | PTE_W` and `PTE_U | PTE_P`.
abbrev pub pte_share : ℕ
pte_share = 10

abbrev pub pte_cow : ℕ
pte_cow = 11

abbrev pub pte_syscall : ℕ
pte_syscall = 0xE07

abbrev pub cow_perm : ℕ
cow_perm = 0x805

abbrev pub full_perm : ℕ
full_perm = 7

abbrev pub read_perm : ℕ
read_perm = 5

-- `PFTEMP`
abbrev pub pftemp : ℕ
pftemp = ptsize + ptsize - pgsize

-- `uvpt[PGNUM(va)]`, where the directory entry for `va` is present.
unfoldable pub page_entry : ℕ → ℕ → Kernel → Option ℕ
page_entry pgdir va k =
    let pde = k.phys pgdir (pdx va) in
    if present pde then some (k.phys (pte_addr pde) (ptx va)) else none

-- The page directory of the program.
abbrev pub own_dir : Kernel → Option ℕ
own_dir k = elim k.curenv [ none ↦ none | some c ↦ (k.envs c).env_pgdir ]

unfoldable pub uvpt_entry : ℕ → Kernel → Option ℕ
uvpt_entry va k = elim (own_dir k) [ none ↦ none | some pgdir ↦ page_entry pgdir va k ]

-- After a system call whose failure is a panic, and after one whose result is not read. None of
-- these calls gives up the CPU.
unfoldable pub must : Option Outcome → Option Kernel
must none = none
must (some (Outcome.left s)) = none
must (some (Outcome.value (err e) k)) = none
must (some (Outcome.value (ok r) k)) = some k

unfoldable pub ignoring : Option Outcome → Option Kernel
ignoring none = none
ignoring (some (Outcome.left s)) = none
ignoring (some (Outcome.value r k)) = some k

unfoldable pub and_then : Option Kernel → (Kernel → Option Kernel) → Option Kernel
and_then none f = none
and_then (some k) f = f k

-- The branches of `duppage`, at the entry `w` of the page at `addr`.
unfoldable pub dup_entry : ℕ → ℕ → ℕ → Kernel → Option Kernel
dup_entry envid addr w k =
    if bit w pte_share == 1
    then ignoring (sys_page_map 0 addr envid addr pte_syscall k)
    else if (bit w pte_w == 1) || (bit w pte_cow == 1)
    then and_then (must (sys_page_map 0 addr envid addr cow_perm k))
        (λ k'. must (sys_page_map 0 addr 0 addr cow_perm k'))
    else ignoring (sys_page_map 0 addr envid addr read_perm k)

-- `duppage`, which returns 0.
unfoldable pub duppage : ℕ → ℕ → Kernel → Option Kernel
duppage envid pn k = elim (uvpt_entry (pn * pgsize) k) [
  | none ↦ none
  | some w ↦ dup_entry envid (pn * pgsize) w k
]

-- A round of the loop of `fork`, on page `pn`.
unfoldable pub copy_page_entry : ℕ → ℕ → Kernel → Option Kernel
copy_page_entry envid pn k = elim (uvpt_entry (pn * pgsize) k) [
  | none ↦ some k
  | some w ↦ if present w && (bit w pte_u == 1) then duppage envid pn k else some k
]

-- The loop, with `n` pages left from `pn` on.
unfoldable pub copy_space : ℕ → ℕ → ℕ → Kernel → Option Kernel
copy_space zero pn envid k = some k
copy_space (suc n) pn envid k =
    and_then (copy_page_entry envid pn k) (λ (k' : Kernel). copy_space n (pn + 1) envid k')

-- `set_pgfault_handler`; `installed` is whether `_pgfault_handler` is set.
unfoldable pub set_pgfault_handler : Bool → ℕ → Kernel → Option Kernel
set_pgfault_handler true upcall k = some k
set_pgfault_handler false upcall k =
    and_then (must (sys_page_alloc 0 (utop - pgsize) full_perm k))
      (λ k'. ignoring (sys_env_set_pgfault_upcall 0 upcall k'))

-- The end of `fork`, for child `envid`.
unfoldable pub start_child : ℕ → ℕ → Kernel → Option Kernel
start_child upcall envid k =
    and_then (must (sys_page_alloc envid (utop - pgsize) full_perm k)) (λ k1.
      and_then (ignoring (sys_env_set_pgfault_upcall envid upcall k1))
        (λ k2. must (sys_env_set_status envid 2 k2)))

-- `fork` after `sys_exofork`.
unfoldable pub fork_child : ℕ → Option Outcome → Option (ℕ × Kernel)
fork_child upcall none = none
fork_child upcall (some (Outcome.left s)) = none
fork_child upcall (some (Outcome.value (err e) k)) = none
fork_child upcall (some (Outcome.value (ok envid) k)) =
    elim (and_then (copy_space (ustacktop / pgsize) 0 envid k)
      (λ k'. start_child upcall envid k')) [ none ↦ none | some k' ↦ some (envid, k') ]

-- `fork` in the parent. The child starts where `sys_exofork` returns 0, and `fork` returns 0 there.
unfoldable pub fork : Bool → ℕ → Kernel → Option (ℕ × Kernel)
fork installed upcall k = elim (set_pgfault_handler installed upcall k) [
  | none ↦ none
  | some k' ↦ fork_child upcall (sys_exofork k')
]

-- `memmove` of a whole page; the program faults on a page that it may not read or write.
unfoldable pub readable_page : ℕ → Kernel → Option ℕ
readable_page va k = elim (uvpt_entry va k) [
  | none ↦ none
  | some w ↦ if present w && (bit w pte_u == 1) then some (pte_addr w) else none
]

unfoldable pub writable_page : ℕ → Kernel → Option ℕ
writable_page va k = elim (uvpt_entry va k) [
  | none ↦ none
  | some w ↦
      if present w && (bit w pte_u == 1) && (bit w pte_w == 1) then some (pte_addr w) else none
]

unfoldable pub move_page : ℕ → ℕ → Kernel → Option Kernel
move_page dst src k = elim (readable_page src k) [
  | none ↦ none
  | some m ↦ elim (writable_page dst k) [
    | none ↦ none
    | some n ↦ some (record k { phys = update k.phys n (k.phys m) })
  ]
]

-- The system calls of `pgfault`, for the page at `addr`.
unfoldable pub make_copy : ℕ → Kernel → Option Kernel
make_copy addr k = and_then (must (sys_page_map 0 addr 0 pftemp read_perm k)) (λ k1.
    and_then (must (sys_page_alloc 0 addr full_perm k1))
      (λ k2. and_then (move_page addr pftemp k2) (λ k3. must (sys_page_unmap 0 pftemp k3))))

-- `pgfault`: `FEC_WR` is bit 1 of the error code.
unfoldable pub pgfault : ℕ → ℕ → Kernel → Option Kernel
pgfault error fault_va k = elim (uvpt_entry fault_va k) [
  | none ↦ none
  | some w ↦
      if (bit error 1 == 1) && (bit w pte_cow == 1)
      then make_copy (rounddown fault_va pgsize) k
      else none
]
