-- ===== src/Fs/Blocks.antt =====
-- The blocks of a file, oslab6/fs/fs.c: finding, allocating and freeing them.
pub mod Add
pub mod Get
use operating_systems_lab.Base.{ℕ, zero, suc, ◌+◌, ◌-◌, ◌/◌, ◌==◌, leb, ltb}
use operating_systems_lab.Base.{Bool, true, false, not, ◌&&◌, Option, none, some, if◌then◌else◌}
use operating_systems_lab.Kern.State.{Result, ok, err, Error}
use operating_systems_lab.Fs.Disk.{
  Disk, FilePtr, Slot, blksize, ndirect, nindirect, bad_block, load, set_slot, flush, clear,
}
use operating_systems_lab.Fs.Disk.{
  s_nblocks, f_size, f_indirect, f_direct, set_f_size, set_f_indirect,
}
use operating_systems_lab.Fs.Bitmap.{alloc_block, free_block}

-- A word of the indirect block.
abbrev pub indirect_slot : Disk → FilePtr → ℕ → Slot
indirect_slot d f n = record { at_block = f_indirect d f; at_word = n - ndirect }

-- `memset(diskaddr(r), 0, BLKSIZE); flush_block(diskaddr(r))`
abbrev pub fresh_block : ℕ → Disk → Option Disk
fresh_block r d = if bad_block d r then none else some (flush r (clear r d))

-- The last line of `file_block_walk`, where `diskaddr` may panic.
abbrev pub through_indirect : FilePtr → ℕ → Disk → Option (Result Slot × Disk)
through_indirect f n d =
    if bad_block d (f_indirect d f) then none else some (ok (indirect_slot d f n), d)

-- The new indirect block of `file_block_walk`, from the result of `alloc_block`; `none` is a panic.
unfoldable pub give_indirect : FilePtr → ℕ → Result ℕ × Disk → Option (Result Slot × Disk)
give_indirect f n (err e, d) = some (err Error.no_disk, d)
give_indirect f n (ok b, d) = elim (fresh_block b (set_f_indirect f b d)) [
  | none ↦ none
  | some d' ↦ through_indirect f n d'
]

unfoldable pub file_block_walk : FilePtr → ℕ → Bool → Disk → Option (Result Slot × Disk)
file_block_walk f n alloc d =
    if leb (ndirect + nindirect) n
    then some (err Error.inval, d)
    else if ltb n ndirect
    then some (ok (f_direct f n), d)
    else if not (f_indirect d f == 0)
    then through_indirect f n d
    else if not alloc
    then some (err Error.not_found, d)
    else give_indirect f n (alloc_block d)

-- The data block at a slot, as `file_get_block` returns it.
abbrev pub block_at : Slot → Disk → Option (Result ℕ × Disk)
block_at s d = if bad_block d (load s d) then none else some (ok (load s d), d)

-- The new block of `file_get_block`, from the result of `alloc_block`.
unfoldable pub give_block : Slot → Result ℕ × Disk → Option (Result ℕ × Disk)
give_block s (err e, d) = some (err e, d)
give_block s (ok b, d) = elim (fresh_block b (set_slot s b d)) [
  | none ↦ none
  | some d' ↦ block_at s d'
]

-- `file_get_block` after the walk.
unfoldable pub block_of : Option (Result Slot × Disk) → Option (Result ℕ × Disk)
block_of none = none
block_of (some (err e, d)) = some (err e, d)
block_of (some (ok s, d)) = if load s d == 0 then give_block s (alloc_block d) else block_at s d

-- The block number in place of the address of the block.
unfoldable pub file_get_block : FilePtr → ℕ → Disk → Option (Result ℕ × Disk)
file_get_block f n d = block_of (file_block_walk f n true d)

unfoldable pub file_free_block : FilePtr → ℕ → Disk → Option (Result ℕ × Disk)
file_free_block f n d = elim (file_block_walk f n false d) [
  | none ↦ none
  | some (err e, d') ↦ some (err e, d')
  | some (ok s, d') ↦
      if load s d' == 0
      then some (ok 0, d')
      else elim (free_block (load s d') d') [ none ↦ none | some d1 ↦ some (ok 0, set_slot s 0 d1) ]
]

-- The number of blocks of a file of `size` bytes.
abbrev pub nblocks_for : ℕ → ℕ
nblocks_for size = (size + blksize - 1) / blksize

-- The loop of `file_truncate_blocks` from block `bno` on, with `n` blocks left; an error is only
-- reported.
unfoldable pub free_blocks : ℕ → FilePtr → ℕ → Disk → Option Disk
free_blocks zero f bno d = some d
free_blocks (suc n) f bno d = elim (file_free_block f bno d) [
  | none ↦ none
  | some (_, d') ↦ free_blocks n f (bno + 1) d'
]

unfoldable pub drop_indirect : FilePtr → Disk → Option Disk
drop_indirect f d = elim (free_block (f_indirect d f) d) [
  | none ↦ none
  | some d' ↦ some (set_f_indirect f 0 d')
]

unfoldable pub file_truncate_blocks : FilePtr → ℕ → Disk → Option Disk
file_truncate_blocks f newsize d =
    let old = nblocks_for (f_size d f) in
    let new = nblocks_for newsize in
    elim (free_blocks (old - new) f new d) [
      | none ↦ none
      | some d' ↦
          if leb new ndirect && not (f_indirect d' f == 0) then drop_indirect f d' else some d'
    ]

-- Sizes are below 2 ^ 31. The result is always 0.
unfoldable pub file_set_size : FilePtr → ℕ → Disk → Option Disk
file_set_size f newsize d =
    let resized : Option Disk =
      if ltb newsize (f_size d f) then file_truncate_blocks f newsize d else some d in
    elim resized [ none ↦ none | some d' ↦ some (flush f.block (set_f_size f newsize d')) ]

-- The loop of `file_flush`, at block `i` with `n` blocks left.
unfoldable pub flush_blocks : ℕ → FilePtr → ℕ → Disk → Option Disk
flush_blocks zero f i d = some d
flush_blocks (suc n) f i d = elim (file_block_walk f i false d) [
  | none ↦ none
  | some (err e, d') ↦ flush_blocks n f (i + 1) d'
  | some (ok s, d') ↦
      let next = flush_blocks n f (i + 1) d' in
      let both = flush_blocks n f (i + 1) (flush (load s d') d') in
      if load s d' == 0 then next else if bad_block d' (load s d') then none else both
]

unfoldable pub file_flush : FilePtr → Disk → Option Disk
file_flush f d = elim (flush_blocks (nblocks_for (f_size d f)) f 0 d) [
  | none ↦ none
  | some d' ↦
      let d1 = flush f.block d' in
      if f_indirect d1 f == 0
      then some d1
      else if bad_block d1 (f_indirect d1 f)
      then none
      else some (flush (f_indirect d1 f) d1)
]

-- The loop of `fs_sync`: blocks `i` to `i + n - 1`.
unfoldable pub flush_all : ℕ → ℕ → Disk → Disk
flush_all zero i d = d
flush_all (suc n) i d = flush_all n (i + 1) (flush i d)

unfoldable pub fs_sync : Disk → Disk
fs_sync d = flush_all (s_nblocks d - 1) 1 d
