-- ===== src/Fs/Content.antt =====
-- Reading and writing the bytes of a file, oslab6/fs/fs.c. Sizes and offsets are below 2 ^ 31.
pub mod Transfer
use operating_systems_lab.Base.{
  ℕ, zero, suc, ◌+◌, ◌-◌, ◌/◌, ◌%◌, ◌==◌, leb, ltb, min, length, take, drop,
}
use operating_systems_lab.Base.{Option, none, some, if◌then◌else◌, List, [], ◌∷◌, ◌++◌}
use operating_systems_lab.Kern.State.{Result, ok, err}
use operating_systems_lab.Fs.Disk.{Disk, FilePtr, blksize, f_size}
use operating_systems_lab.Fs.Blocks.{file_get_block, file_set_size}
use operating_systems_lab.Fs.Names.{byte, set_byte}

-- `n` bytes of block `b`, from byte `i` on.
unfoldable pub read_bytes : ℕ → ℕ → ℕ → Disk → List ℕ
read_bytes zero b i d = []
read_bytes (suc n) b i d = byte d b i ∷ read_bytes n b (i + 1) d

-- The bytes `xs` to block `b`, from byte `i` on.
unfoldable pub write_bytes : ℕ → ℕ → List ℕ → Disk → Disk
write_bytes b i [] d = d
write_bytes b i (x ∷ xs) d = write_bytes b (i + 1) xs (set_byte b i x d)

-- The bytes that one round of the loops at `pos` moves.
abbrev pub chunk : ℕ → ℕ → ℕ
chunk pos end = min (blksize - pos % blksize) (end - pos)

-- Bytes in front of a result.
abbrev pub prepend : List ℕ → Option (Result (List ℕ) × Disk) → Option (Result (List ℕ) × Disk)
prepend xs none = none
prepend xs (some (err e, d)) = some (err e, d)
prepend xs (some (ok ys, d)) = some (ok (xs ++ ys), d)

-- A round of `file_read` after `file_get_block`: `n` bytes from `off` on; `go_on` is the rest of
-- the loop.
unfoldable pub read_round :
    (Disk → Option (Result (List ℕ) × Disk))
    → ℕ
    → ℕ
    → Option (Result ℕ × Disk)
    → Option (Result (List ℕ) × Disk)
read_round go_on n off none = none
read_round go_on n off (some (err e, d)) = some (err e, d)
read_round go_on n off (some (ok b, d)) = prepend (read_bytes n b off d) (go_on d)

-- The loop of `file_read`, from `pos` to `end`; a round moves a byte at least.
unfoldable pub read_from : ℕ → FilePtr → ℕ → ℕ → Disk → Option (Result (List ℕ) × Disk)
read_from zero f pos end d = some (ok [], d)
read_from (suc fuel) f pos end d =
    let n = chunk pos end in
    let round =
      read_round (λ d'. read_from fuel f (pos + n) end d') n (pos % blksize)
        (file_get_block f (pos / blksize) d) in
    if leb end pos then some (ok [], d) else round

-- The bytes that are read; the source returns their number.
unfoldable pub file_read : FilePtr → ℕ → ℕ → Disk → Option (Result (List ℕ) × Disk)
file_read f count offset d =
    let n = min count (f_size d f - offset) in
    if leb (f_size d f) offset then some (ok [], d) else read_from n f offset (offset + n) d

-- The loop of `file_write`, with the bytes `xs` left.
unfoldable pub write_from : ℕ → FilePtr → ℕ → ℕ → List ℕ → Disk → Option (Result (Unit {0}) × Disk)
write_from zero f pos end xs d = some (ok tt, d)
write_from (suc fuel) f pos end xs d =
    let n = chunk pos end in
    let round : Option (Result (Unit {0}) × Disk) = elim (file_get_block f (pos / blksize) d) [
      | none ↦ none
      | some (err e, d') ↦ some (err e, d')
      | some (ok b, d') ↦
          write_from fuel f (pos + n) end (drop n xs) (write_bytes b (pos % blksize) (take n xs) d')
    ] in
    if leb end pos then some (ok tt, d) else round

unfoldable pub file_write : FilePtr → List ℕ → ℕ → Disk → Option (Result (Unit {0}) × Disk)
file_write f xs offset d =
    let end = offset + length xs in
    let ready : Option Disk = if ltb (f_size d f) end then file_set_size f end d else some d in
    elim ready [ none ↦ none | some d' ↦ write_from (length xs) f offset end xs d' ]
