-- ===== src/User/Pipe.antt =====
-- The pipes of oslab6/lib/pipe.c, up to the points where the source yields to other environments.
-- The file positions are of type `off_t`, kept as their bit patterns of 32 bits. `closed` is what
-- `_pipeisclosed` returns; `none` is an access outside the buffer, at a negative position.
pub mod Fifo
pub mod Session
pub mod Ordered
pub mod Interleave
use operating_systems_lab.Base.{ℕ, zero, suc, ◌+◌, ◌-◌, ◌%◌, ◌^◌, ◌==◌, leb, ltb, update, length}
use operating_systems_lab.Base.{Bool, true, false, Option, none, some, if◌then◌else◌, List, [], ◌∷◌}
use operating_systems_lab.Kern.State.{u32}

-- `PIPEBUFSIZ`
abbrev pub pipebufsiz : ℕ
pipebufsiz = 32

pub record Pipe : Type 0 where
  pub p_rpos : ℕ
  pub p_wpos : ℕ
  pub p_buf : ℕ → ℕ

-- `pos % PIPEBUFSIZ` as an index: the remainder of a negative position is negative or 0.
unfoldable pub slot : ℕ → Option ℕ
slot pos =
    if ltb pos (2 ^ 31)
    then some (pos % pipebufsiz)
    else if pos % pipebufsiz == 0
    then some 0
    else none

-- `p->p_rpos == p->p_wpos`
unfoldable pub is_empty : Pipe → Bool
is_empty p = p.p_rpos == p.p_wpos

-- `p->p_wpos >= p->p_rpos + sizeof(p->p_buf)`, which compares numbers without sign.
unfoldable pub is_full : Pipe → Bool
is_full p = leb (u32 (p.p_rpos + pipebufsiz)) p.p_wpos

-- The byte is taken or stored, and the position is moved.
unfoldable pub read_slot : Pipe → Option ℕ
read_slot p = elim (slot p.p_rpos) [ none ↦ none | some i ↦ some (p.p_buf i) ]

unfoldable pub move_rpos : Pipe → Pipe
move_rpos p = record p { p_rpos = u32 (p.p_rpos + 1) }

unfoldable pub store_byte : ℕ → Pipe → Option Pipe
store_byte x p = elim (slot p.p_wpos) [
  | none ↦ none
  | some i ↦ some (record p { p_buf = update p.p_buf i x })
]

unfoldable pub move_wpos : Pipe → Pipe
move_wpos p = record p { p_wpos = u32 (p.p_wpos + 1) }

-- A byte in front of a result.
abbrev push_front : ℕ → Option (List ℕ × Pipe) → Option (List ℕ × Pipe)
push_front x none = none
push_front x (some (xs, p)) = some (x ∷ xs, p)

-- The rounds of `devpipe_read` while there are bytes: at most `n` bytes.
unfoldable pub drain : ℕ → Pipe → Option (List ℕ × Pipe)
drain zero p = some ([], p)
drain (suc n) p =
    let rest = drain n (move_rpos p) in
    if is_empty p
    then some ([], p)
    else elim (read_slot p) [ none ↦ none | some x ↦ push_front x rest ]

-- A call returns, or yields with the pipe empty.
pub data ReadOutcome : Type 0 where
  got : List ℕ → Pipe → ReadOutcome
  yields : Pipe → ReadOutcome

-- On an empty pipe the end of the file is reported if it is closed.
abbrev pub on_empty : Bool → Pipe → ReadOutcome
on_empty true p = ReadOutcome.got [] p
on_empty false p = ReadOutcome.yields p

-- `devpipe_read` of `n` bytes, after a wait as before it.
unfoldable pub devpipe_read : ℕ → Bool → Pipe → Option ReadOutcome
devpipe_read zero closed p = some (ReadOutcome.got [] p)
devpipe_read (suc n) closed p = elim (drain (suc n) p) [
  | none ↦ none
  | some ([], p') ↦ some (on_empty closed p')
  | some (x ∷ ys, p') ↦ some (ReadOutcome.got (x ∷ ys) p')
]

-- The rounds of `devpipe_write` while there is room: the bytes that are left.
unfoldable pub fill : List ℕ → Pipe → Option (List ℕ × Pipe)
fill [] p = some ([], p)
fill (x ∷ xs) p =
    if is_full p
    then some (x ∷ xs, p)
    else elim (store_byte x p) [ none ↦ none | some p' ↦ fill xs (move_wpos p') ]

-- A call returns a count, or yields with bytes left and the pipe full.
pub data WriteOutcome : Type 0 where
  wrote : ℕ → Pipe → WriteOutcome
  yields : List ℕ → Pipe → WriteOutcome

abbrev pub on_full : Bool → List ℕ → Pipe → WriteOutcome
on_full true rest p = WriteOutcome.wrote 0 p
on_full false rest p = WriteOutcome.yields rest p

-- `devpipe_write` of `n` bytes of which `xs` are left: the count is 0 if the readers are gone.
unfoldable pub devpipe_write : ℕ → List ℕ → Bool → Pipe → Option WriteOutcome
devpipe_write n xs closed p = elim (fill xs p) [
  | none ↦ none
  | some ([], p') ↦ some (WriteOutcome.wrote n p')
  | some (x ∷ ys, p') ↦ some (on_full closed (x ∷ ys) p')
]

-- `st_size` of `devpipe_stat`
abbrev pub pipe_size : Pipe → ℕ
pipe_size p = u32 (2 ^ 32 + p.p_wpos - p.p_rpos)
