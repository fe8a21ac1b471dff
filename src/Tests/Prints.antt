-- ===== src/Tests/Prints.antt =====
-- Formatted printing and pipes at concrete values.
use operating_systems_lab.Base.{
  ℕ, ap, max, update, ◌+◌, ◌≡◌, refl, arith, some, List, [], ◌∷◌, ◌++◌, if◌then◌else◌, ◌==◌, get_or,
  length, map, take, ◌-◌,
}
use operating_systems_lab.Kern.State.{ok}
use operating_systems_lab.User.Strings.{Memory, strtol}
use operating_systems_lab.User.Strings.Compare.{Text}
use operating_systems_lab.User.Format.{
  printnum, kind, number, switch, reswitch, getuint, getint, print_string, print_number,
  most_digits,
}
use operating_systems_lab.User.Format.Digits.{length-printnum, digits}
use operating_systems_lab.User.Format.RoundTrip.{strtol-printnum}
use operating_systems_lab.User.Printf.{
  codes, convert, error_string, vprintfmt_from, vprintfmt, vsnprintf,
}
use operating_systems_lab.User.Printf.Ends.{vprintfmt-enough}
use operating_systems_lab.User.Printf.Buffer.{as_char, vsnprintf-Truncated}
use operating_systems_lab.User.Pipe.{
  Pipe, slot, is_empty, is_full, read_slot, store_byte, move_rpos, move_wpos,
}
use operating_systems_lab.User.Pipe.Session.{
  WriterAt, Session, start, finds_room, stores, counts_written, finds_byte, takes, counts_read,
  Reach, here, next,
}
use operating_systems_lab.User.Pipe.Ordered.{InOrder}
use operating_systems_lab.Base.{true, false, ◌+◌}
use operating_systems_lab.User.Pipe.Interleave.{Stuck, interleave-InOrder, interleave_complete}

-- The arguments -12, 0xBEEF and the address of "id".
abbrev args : ℕ → ℕ
args i = if i == 0 then 0xFFFF_FFF4 else if i == 1 then 0xBEEF else 64

abbrev text : ℕ → List ℕ
text p = codes "id"

printed : vprintfmt args text (codes "%d:%08x %-4s|%z%%") ≡ codes "-12:0000beef id  |%z%"
unfolding vprintfmt vprintfmt_from convert error_string reswitch switch kind number getuint getint
    print_number print_string printnum
printed = refl

-- "  255" in memory.
abbrev memory : Memory
memory a = get_or (b' ' ∷ b' ' ∷ b'2' ∷ b'5' ∷ b'5' ∷ []) (a - 100) 0

field_255 : printnum most_digits 255 10 5 b' ' ≡ b' ' ∷ b' ' ∷ b'2' ∷ b'5' ∷ b'5' ∷ []
unfolding printnum
field_255 = refl

field-Text : Text memory 100 (printnum most_digits 255 10 5 b' ')
unfolding printnum
field-Text = (
  refl,
  (omega arith, omega arith),
  (
    refl,
    (omega arith, omega arith),
    (
      refl,
      (omega arith, omega arith),
      (refl, (omega arith, omega arith), (refl, (omega arith, omega arith), refl)),
    ),
  ),
)

strtol-printnum_example :
    strtol 9 memory 100 10 ≡ some (255, 100 + length (printnum most_digits 255 10 5 b' '))
strtol-printnum_example =
    strtol-printnum 9 255 10 5 100 memory (omega arith) (omega arith) (omega arith) field-Text
      (omega (arith, ap (length {0}) field_255))

length-printnum_example : length (printnum 64 255 16 5 b'0') ≡ max 5 (length (digits 64 255 16))
length-printnum_example = length-printnum 64 255 16 5 b'0'

vprintfmt-enough_example :
    vprintfmt_from 9 args text (codes "%d %x") 0 ≡ vprintfmt args text (codes "%d %x")
vprintfmt-enough_example = vprintfmt-enough 9 args text (codes "%d %x") (omega arith)

vsnprintf-Truncated_example :
    vsnprintf 100 4 args text (codes "%d %x")
    ≡ ok (
      length (vprintfmt args text (codes "%d %x")),
      map as_char (take 3 (vprintfmt args text (codes "%d %x"))) ++ 0 ∷ [],
    )
vsnprintf-Truncated_example =
    vsnprintf-Truncated 100 4 args text (codes "%d %x") (λ e. absurd (omega arith)) (omega arith)
      (omega arith)

-- One byte through a pipe; the reader is interrupted before it moves its position.
abbrev message : List ℕ
message = 7 ∷ []

abbrev filled : Pipe
filled = record { p_rpos = 0; p_wpos = 0; p_buf = update (λ i. 0) 0 7 }

stored : store_byte 7 (start message).pipe ≡ some filled
unfolding store_byte slot
stored = refl

not_full : is_full (start message).pipe ≡ false
unfolding is_full
not_full = refl

abbrev written : Session
written = record (start message) {
  pipe = move_wpos filled;
  writer = WriterAt.testing_room;
  pending = [];
}

three_steps : Reach (start message) 3 written
three_steps =
    next
      (next (next here (finds_room 7 [] refl refl not_full refl))
        (stores 7 [] filled refl refl stored refl))
      (counts_written 7 [] refl refl refl)

not_empty : is_empty written.pipe ≡ false
unfolding is_empty move_wpos
not_empty = refl

its_byte : read_slot written.pipe ≡ some 7
unfolding read_slot slot move_wpos
its_byte = refl

abbrev arrived : Session
arrived = record written { pipe = move_rpos written.pipe; received = 7 ∷ [] }

six_steps : Reach (start message) 6 arrived
six_steps =
    next (next (next three_steps (finds_byte refl not_empty refl)) (takes 7 refl its_byte refl))
      (counts_read 7 refl refl)

interleave-InOrder_example : InOrder message arrived
interleave-InOrder_example = interleave-InOrder (omega arith) six_steps

nothing_left : is_empty arrived.pipe ≡ true
unfolding is_empty move_wpos move_rpos
nothing_left = refl

no_step : Stuck arrived
no_step t (finds_room x xs at more e q) = absurd (cc more)
no_step t (stores x xs p at more put q) = absurd (cc more)
no_step t (counts_written x xs at more q) = absurd (cc more)
no_step t (finds_byte at e q) = absurd (cc (nothing_left, e))
no_step t (takes x at got q) = absurd (cc at)
no_step t (counts_read x at q) = absurd (cc at)

interleave_complete_example : arrived.received ≡ message
interleave_complete_example = interleave_complete (omega arith) six_steps no_step
