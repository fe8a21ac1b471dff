-- ===== src/Tests/Traps.antt =====
-- The theorems about traps at concrete states.
use operating_systems_lab.Base.{
  ℕ, ◌-◌, ◌/◌, ◌%◌, ◌^◌, ◌==◌, ◌≡◌, refl, arith, some, none, if◌then◌else◌, update, inl,
}
use operating_systems_lab.Kern.State.{Kernel, Trapframe}
use operating_systems_lab.Kern.PageTable.{user_mem_check, check_from, allowed, pgdir_walk}
use operating_systems_lab.Kern.Sched.{Switch, Exit}
use operating_systems_lab.Kern.Trap.{trap, page_fault_handler}
use operating_systems_lab.Kern.Trap.Preempt.{IsPreempted, timer-IsPreempted}
use operating_systems_lab.Kern.Trap.Upcall.{HasFrame, InUpcall, first, page_fault-HasFrame}
use operating_systems_lab.Kern.Trap.Words.{IsWritable, Outside}
use operating_systems_lab.Tests.Sample.{sample, sample_envs, sample_phys, trapframe}

-- The timer, and a page fault in user mode with the stack below `USTACKTOP`.
abbrev timer_frame : Trapframe
timer_frame = record trapframe { tf_trapno = 32; tf_cs = 27 }

abbrev fault_frame : Trapframe
fault_frame = record trapframe {
  tf_trapno = 14;
  tf_cs = 27;
  tf_err = 6;
  tf_esp = 0xEEBF_DF00;
  tf_eip = 0x80_0020;
}

timer-IsPreempted_example :
    (i : ℕ) × (k' : Kernel) × (trap 0 0 timer_frame sample ≡ some (Switch.to_user i k'))
    × IsPreempted 1 i timer_frame k'
timer-IsPreempted_example =
    timer-IsPreempted 0 0 1 0 timer_frame sample refl refl (omega arith) refl (omega arith) refl

-- Environment 1 has an upcall, and page 9 as its exception stack, by the table in page 8.
abbrev faulting : Kernel
faulting = record sample {
  envs = update sample_envs 1 (record (sample_envs 1) { env_pgfault_upcall = 0x80_1000 });
  phys = λ n i.
      if n == 5
      then (if i == 0xEEBF_F000 / 2 ^ 22 then 0x8007 else sample_phys 5 i)
      else if n == 8
      then (if i == 0x3FF then 0x9007 else 0)
      else sample_phys n i;
}

stack_checked : user_mem_check 5 (0xEEC0_0000 - 56) 56 6 faulting ≡ some none
unfolding user_mem_check check_from allowed pgdir_walk
stack_checked = refl

stack-IsWritable : IsWritable 5 (0xEEC0_0000 - 56) 8 9 faulting
stack-IsWritable = record {
  table_present = refl;
  table_writable = refl;
  in_table = refl;
  page_present = refl;
  page_writable = refl;
  in_page = refl;
}

page_fault-HasFrame_example :
    (k' : Kernel) × (page_fault_handler 0x1234 fault_frame faulting
      ≡ some (Exit.switched (Switch.to_user 1 k')))
    × InUpcall 1 5 (0xEEC0_0000 - 56) faulting k'
    × HasFrame 0x1234 9 ((0xEEC0_0000 - 56) % 4096 / 4) fault_frame k'
    × ((m j : ℕ)
        → Outside 9 ((0xEEC0_0000 - 56) % 4096 / 4) 13 m j
        → k'.phys m j ≡ faulting.phys m j)
page_fault-HasFrame_example =
    page_fault-HasFrame 0x1234 1 5 8 9 fault_frame faulting refl refl (omega arith)
      (λ e. absurd (omega arith)) (0xEEC0_0000 - 56) (first (inl (omega arith)) (omega arith))
      stack_checked (omega arith) (omega arith) stack-IsWritable (λ e. absurd (omega arith))
      (λ e. absurd (omega arith))
