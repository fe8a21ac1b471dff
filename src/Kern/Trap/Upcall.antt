-- ===== src/Kern/Trap/Upcall.antt =====
-- The frame that `page_fault_handler` of oslab6/kern/trap.c pushes on the exception stack.
use operating_systems_lab.Base.{
  ℕ, ◌+◌, ◌-◌, ◌/◌, ◌%◌, ◌<◌, ◌≤◌, ◌==◌, ◌≡◌, ◌≢◌, refl, ap, ◌∙◌, arith, get_or, false,
}
use operating_systems_lab.Base.{Option, none, some}
use operating_systems_lab.Base.{◌⊎◌}
use operating_systems_lab.Kern.State.{Kernel, EnvStatus, Trapframe, pgsize}
use operating_systems_lab.Kern.Env.{env_run}
use operating_systems_lab.Kern.Sched.{Exit, Switch}
use operating_systems_lab.Kern.PageTable.{user_mem_check}
use operating_systems_lab.Kern.Trap.{
  write_words, utrapframe, stacktop, frame_size, to_upcall, enter, push_frame, upcall, user_fault,
  page_fault_handler, with_cur,
}
use operating_systems_lab.Kern.Trap.Words.{
  IsWritable, Outside, put_words, put_words-at, put_words-other, put_words-envs, put_words-curenv,
  write_words-put,
}

-- The frame for the fault at `cr2` with registers `tf` at word `i` of page `n`, in the order of
-- `struct UTrapframe`.
pub record HasFrame (cr2 n i : ℕ) (tf : Trapframe) (k' : Kernel) : Type 0 where
  pub fault : (k'.phys n (i + 0) ≡ cr2) × (k'.phys n (i + 1) ≡ tf.tf_err)
  pub pointers :
      (k'.phys n (i + 2) ≡ tf.tf_regs.reg_edi)
      × (k'.phys n (i + 3) ≡ tf.tf_regs.reg_esi)
      × (k'.phys n (i + 4) ≡ tf.tf_regs.reg_ebp)
      × (k'.phys n (i + 5) ≡ tf.tf_regs.reg_oesp)
  pub data_regs :
      (k'.phys n (i + 6) ≡ tf.tf_regs.reg_ebx)
      × (k'.phys n (i + 7) ≡ tf.tf_regs.reg_edx)
      × (k'.phys n (i + 8) ≡ tf.tf_regs.reg_ecx)
      × (k'.phys n (i + 9) ≡ tf.tf_regs.reg_eax)
  pub resumes :
      (k'.phys n (i + 10) ≡ tf.tf_eip)
      × (k'.phys n (i + 11) ≡ tf.tf_eflags)
      × (k'.phys n (i + 12) ≡ tf.tf_esp)

-- Environment `c` runs in its upcall, with its stack pointer at `utr` and else as it was.
pub record InUpcall (c pgdir utr : ℕ) (k k' : Kernel) : Type 0 where
  pub at_upcall : (k'.envs c).env_tf.tf_eip ≡ (k.envs c).env_pgfault_upcall
  pub at_frame : (k'.envs c).env_tf.tf_esp ≡ utr
  pub same_regs : (k'.envs c).env_tf.tf_regs ≡ (k.envs c).env_tf.tf_regs
  pub same_mode :
      ((k'.envs c).env_tf.tf_cs ≡ (k.envs c).env_tf.tf_cs)
      × ((k'.envs c).env_tf.tf_ss ≡ (k.envs c).env_tf.tf_ss)
      × ((k'.envs c).env_tf.tf_eflags ≡ (k.envs c).env_tf.tf_eflags)
      × ((k'.envs c).env_tf.tf_es ≡ (k.envs c).env_tf.tf_es)
      × ((k'.envs c).env_tf.tf_ds ≡ (k.envs c).env_tf.tf_ds)
  pub runs : (k'.curenv ≡ some c) × ((k'.envs c).env_status ≡ EnvStatus.running)
  pub its_space : k'.cr3 ≡ pgdir
  pub other_envs : (j : ℕ) → c ≢ j → k'.envs j ≡ k.envs j

-- The place of a frame: below the stack pointer where that is within the exception stack, with a word
-- between them, and else at the top of that stack, from 0xEEBFF000 to 0xEEC00000.
pub data FrameAt (esp utr : ℕ) : Type 0 where
  nested : 0xeebf_f000 < esp → esp < 0xeec0_0000 → utr + 52 + 4 ≡ esp → FrameAt esp utr
  first : (esp ≤ 0xeebf_f000) ⊎ (0xeec0_0000 ≤ esp) → utr + 52 + 4 ≡ 0xeec0_0000 → FrameAt esp utr

frame_place : (esp utr : ℕ) → FrameAt esp utr → stacktop esp - frame_size ≡ utr
frame_place esp utr (nested a b e) = ground arith
frame_place esp utr (first out e) = ground arith

pushed :
    (cr2 c pgdir utr n i : ℕ) (tf : Trapframe) (k : Kernel) (r : Option (Option ℕ))
    → r ≡ some none
    → write_words pgdir utr (utrapframe cr2 tf) k ≡ some (put_words n i (utrapframe cr2 tf) k)
    → push_frame cr2 tf c pgdir utr r k
      ≡ some (enter c (to_upcall c utr (put_words n i (utrapframe cr2 tf) k)))
unfolding push_frame
pushed cr2 c pgdir utr n i tf k r e f =
    ap (λ q. push_frame cr2 tf c pgdir utr q k) e
    ∙ ap
        (λ (q : Option Kernel). elim q [
          | none ↦ none
          | some k' ↦ some (enter c (to_upcall c utr k'))
        ])
        f

at_dir :
    (cr2 c pgdir : ℕ) (tf : Trapframe) (k : Kernel)
    → upcall cr2 tf c (some pgdir) k
      ≡ push_frame cr2 tf c pgdir
          (stacktop tf.tf_esp - frame_size)
          (user_mem_check pgdir (stacktop tf.tf_esp - frame_size) frame_size 6 k)
          k
unfolding upcall
at_dir cr2 c pgdir tf k = refl

from_user :
    (cr2 : ℕ) (tf : Trapframe) (k : Kernel)
    → tf.tf_cs % 4 ≡ 3
    → page_fault_handler cr2 tf k ≡ with_cur k (λ c. user_fault cr2 tf c k)
unfolding page_fault_handler
from_user cr2 tf k h = let e : (tf.tf_cs % 4 == 0) ≡ false = ground arith in rw e refl

with_upcall :
    (cr2 c : ℕ) (tf : Trapframe) (k : Kernel)
    → (k.envs c).env_pgfault_upcall ≢ 0
    → user_fault cr2 tf c k ≡ upcall cr2 tf c (k.envs c).env_pgdir k
unfolding user_fault
with_upcall cr2 c tf k h =
    let e : ((k.envs c).env_pgfault_upcall == 0) ≡ false = ground arith in rw e refl

env_run-phys : (c utr : ℕ) (p : Kernel) → (env_run c (to_upcall c utr p)).phys ≡ p.phys
unfolding env_run
env_run-phys c utr p = ground arith

env_run-InUpcall :
    (c pgdir utr : ℕ) (k p : Kernel)
    → p.envs ≡ k.envs
    → p.curenv ≡ some c
    → (k.envs c).env_pgdir ≡ some pgdir
    → InUpcall c pgdir utr k (env_run c (to_upcall c utr p))
unfolding env_run
env_run-InUpcall c pgdir utr k p e cur dir =
    let same : (j : ℕ) → p.envs j ≡ k.envs j = λ j. ap (λ h. h j) e in
    record {
      at_upcall = ground (arith, same c);
      at_frame = ground (arith, same c);
      same_regs = ground (arith, same c);
      same_mode = (
        ground (arith, same c),
        ground (arith, same c),
        ground (arith, same c),
        ground (arith, same c),
        ground (arith, same c),
      );
      runs = (ground arith, ground arith);
      its_space = ground (arith, same c);
      other_envs = λ j ne. ground (arith, same j);
    }

module _ (cr2 c pgdir pt n : ℕ) (tf : Trapframe) (k : Kernel) (current : k.curenv ≡ some c)
    (its_dir : (k.envs c).env_pgdir ≡ some pgdir) (in_user : tf.tf_cs % 4 ≡ 3)
    (has_upcall : (k.envs c).env_pgfault_upcall ≢ 0) where
  handled :
      page_fault_handler cr2 tf k
      ≡ push_frame cr2 tf c pgdir
          (stacktop tf.tf_esp - frame_size)
          (user_mem_check pgdir (stacktop tf.tf_esp - frame_size) frame_size 6 k)
          k
  handled =
      from_user cr2 tf k in_user
      ∙ ap (λ (q : Option ℕ). elim q [ none ↦ none | some e ↦ user_fault cr2 tf e k ]) current
      ∙ with_upcall cr2 c tf k has_upcall
      ∙ ap (λ q. upcall cr2 tf c q k) its_dir
      ∙ at_dir cr2 c pgdir tf k

  -- The state in which the handler leaves the kernel.
  abbrev entered : ℕ → Kernel
  entered utr = env_run c (to_upcall c utr (put_words n (utr % pgsize / 4) (utrapframe cr2 tf) k))

  entered-InUpcall : (utr : ℕ) → InUpcall c pgdir utr k (entered utr)
  entered-InUpcall utr =
      let i = utr % pgsize / 4 in
      let ws = utrapframe cr2 tf in
      env_run-InUpcall c pgdir utr k (put_words n i ws k) (put_words-envs n i ws k)
        (put_words-curenv n i ws k ∙ current) its_dir

  entered-phys :
      (utr : ℕ) → (entered utr).phys ≡ (put_words n (utr % pgsize / 4) (utrapframe cr2 tf) k).phys
  entered-phys utr =
      let i = utr % pgsize / 4 in
      let ws = utrapframe cr2 tf in env_run-phys c utr (put_words n i ws k)

  entered-HasFrame : (utr : ℕ) → HasFrame cr2 n (utr % pgsize / 4) tf (entered utr)
  entered-HasFrame utr =
      let i = utr % pgsize / 4 in
      let at : (j : ℕ) → j < 13 → (entered utr).phys n (i + j) ≡ get_or (utrapframe cr2 tf) j 0 =
        λ j lt.
          ap (λ h. h n (i + j)) (entered-phys utr) ∙ put_words-at n i j (utrapframe cr2 tf) k lt in
      record {
        fault = (at 0 (omega arith), at 1 (omega arith));
        pointers = (at 2 (omega arith), at 3 (omega arith), at 4 (omega arith), at 5 (omega arith));
        data_regs =
            (at 6 (omega arith), at 7 (omega arith), at 8 (omega arith), at 9 (omega arith));
        resumes = (at 10 (omega arith), at 11 (omega arith), at 12 (omega arith));
      }

  -- For a fault of the current environment in user mode, which has an upcall: when the check of its
  -- exception stack succeeds and the new frame, aligned and within one page, is writable there by a
  -- page that holds neither the directory nor the table, the handler enters the environment at its
  -- upcall, with its stack pointer at the frame. The frame holds the fault and the registers, and no
  -- other memory and no other environment changes.
  pub page_fault-HasFrame :
      (utr : ℕ)
      → FrameAt tf.tf_esp utr
      → user_mem_check pgdir utr 56 6 k ≡ some none
      → utr % 4 ≡ 0
      → utr % pgsize + 56 ≤ pgsize
      → IsWritable pgdir utr pt n k
      → n ≢ pgdir
      → n ≢ pt
      → (k' : Kernel) × (page_fault_handler cr2 tf k ≡ some (Exit.switched (Switch.to_user c k')))
        × InUpcall c pgdir utr k k'
        × HasFrame cr2 n (utr % pgsize / 4) tf k'
        × ((m j : ℕ) → Outside n (utr % pgsize / 4) 13 m j → k'.phys m j ≡ k.phys m j)
  page_fault-HasFrame utr place check aligned room writable dir tab =
      let ws = utrapframe cr2 tf in
      let i = utr % pgsize / 4 in
      let same : stacktop tf.tf_esp - frame_size ≡ utr = frame_place tf.tf_esp utr place in
      (
        entered utr,
        handled
            ∙ ap (λ u. push_frame cr2 tf c pgdir u (user_mem_check pgdir u frame_size 6 k) k) same
            ∙ pushed cr2 c pgdir utr n i tf k _ check
                (write_words-put pgdir utr pt n ws k dir tab aligned (omega arith) writable),
        entered-InUpcall utr,
        entered-HasFrame utr,
        λ m j out. ap (λ h. h m j) (entered-phys utr) ∙ put_words-other n i m j ws k out,
      )
