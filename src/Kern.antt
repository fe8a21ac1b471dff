-- ===== src/Kern.antt =====
-- The JOS kernel of oslab6/kern.
pub mod State
pub mod PageAlloc
pub mod PageTable
pub mod Env
pub mod Sched
pub mod Syscall
pub mod Trap
pub mod Debug
