-- ===== src/Tests/Texts.antt =====
-- The theorems about names, the bytes of files, strings, pipes and descriptors, at concrete values.
use operating_systems_lab.Base.{ℕ, ◌==◌, ◌≡◌, refl, arith, some, List, [], ◌∷◌, if◌then◌else◌}
use operating_systems_lab.Kern.State.{ok}
use operating_systems_lab.Fs.Disk.{Disk}
use operating_systems_lab.Fs.Blocks.{file_get_block, file_block_walk, block_of}
use operating_systems_lab.Fs.Names.{root_file}
use operating_systems_lab.Fs.Content.{read_bytes, read_round, read_from, file_read}
use operating_systems_lab.User.Blocks.{move, memmove}
use operating_systems_lab.User.Blocks.Move.{memmove-move}
use operating_systems_lab.User.Pipe.{Pipe}
use operating_systems_lab.User.Pipe.Fifo.{IsPipe}
use operating_systems_lab.User.Strings.{Memory}
use operating_systems_lab.User.Strings.Compare.{Text}

-- A disk of 100 blocks on which the root directory has block 4 and a size of 3 bytes.
abbrev small_disk : Disk
small_disk = record {
  words = λ b i.
      if b == 1
      then (if i == 1 then 100 else if i == 34 then 3 else if i == 36 then 4 else 0)
      else 0;
  flushed = [];
}

abbrev ab : List ℕ
ab = 97 ∷ 98 ∷ []

two_bytes : file_read root_file 10 1 small_disk ≡ some (ok (0 ∷ 0 ∷ []), small_disk)
unfolding file_read read_from read_round read_bytes file_get_block file_block_walk block_of
two_bytes = refl

-- "ab" at 10 and "abc" at 20.
abbrev memory : Memory
memory a =
    if a == 10
    then 97
    else if a == 11
    then 98
    else if a == 20
    then 97
    else if a == 21
    then 98
    else if a == 22
    then 99
    else 0

short-Text : Text memory 10 (97 ∷ 98 ∷ [])
short-Text = (refl, (omega arith, omega arith), (refl, (omega arith, omega arith), refl))

long-Text : Text memory 20 (97 ∷ 98 ∷ 99 ∷ [])
long-Text = (
  refl,
  (omega arith, omega arith),
  (refl, (omega arith, omega arith), (refl, (omega arith, omega arith), refl)),
)

memmove-move_example : memmove 11 10 5 memory 12 ≡ move 5 11 10 memory 12
memmove-move_example = memmove-move 11 10 5 12 memory (omega arith)

-- A pipe with two bytes, whose writer has been round the buffer.
abbrev pipe : Pipe
pipe = record { p_rpos = 31; p_wpos = 33; p_buf = λ i. if i == 31 then 104 else 105 }

pipe-IsPipe : IsPipe pipe
pipe-IsPipe = record { ordered = omega arith; fits = omega arith }
