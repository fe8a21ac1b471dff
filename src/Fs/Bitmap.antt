-- ===== src/Fs/Bitmap.antt =====
-- The bitmap of free blocks, oslab6/fs/fs.c. A set bit marks a free block.
mod Marks
pub mod Alloc
use operating_systems_lab.Base.{
  ℕ, zero, suc, ◌+◌, ◌-◌, ◌/◌, ◌%◌, ◌^◌, ◌==◌, leb, bit, bit_or, bit_and, complement,
}
use operating_systems_lab.Base.{Bool, true, false, not, ◌&&◌, Option, none, some, if◌then◌else◌}
use operating_systems_lab.Kern.State.{Result, ok, err, Error}
use operating_systems_lab.Fs.Disk.{Disk, blkbitsize, s_nblocks, load, set_slot, bitmap_word, flush}

-- `bitmap[blockno / 32] & (1 << (blockno % 32))`
abbrev pub free_bit : Disk → ℕ → ℕ
free_bit d b = bit (load (bitmap_word (b / 32)) d) (b % 32)

unfoldable pub block_is_free : ℕ → Disk → Bool
block_is_free b d = if leb (s_nblocks d) b then false else free_bit d b == 1

-- Freeing block 0 panics.
unfoldable pub free_block : ℕ → Disk → Option Disk
free_block b d =
    let s = bitmap_word (b / 32) in
    if b == 0 then none else some (set_slot s (bit_or (load s d) (2 ^ (b % 32))) d)

-- Clearing the bit of block `i`, and flushing the block of the bitmap that holds it.
abbrev pub take_block : ℕ → Disk → Disk
take_block i d =
    let s = bitmap_word (i / 32) in
    flush (2 + i / 32 / 1024) (set_slot s (bit_and (load s d) (complement 32 (2 ^ (i % 32)))) d)

-- The loop of `alloc_block` from block `i` on, with `n` blocks left.
unfoldable pub alloc_from : ℕ → ℕ → Disk → Result ℕ × Disk
alloc_from zero i d = (err Error.no_disk, d)
alloc_from (suc n) i d =
    let rest = alloc_from n (i + 1) d in if block_is_free i d then (ok i, take_block i d) else rest

-- The first block after the bitmap.
abbrev pub first_data : Disk → ℕ
first_data d = 2 + (s_nblocks d + blkbitsize - 1) / blkbitsize

unfoldable pub alloc_block : Disk → Result ℕ × Disk
alloc_block d = alloc_from (s_nblocks d - first_data d) (first_data d) d

-- The loop of `check_bitmap` over the blocks of the bitmap, and the two blocks before it.
bitmap_in_use : ℕ → Disk → Bool
bitmap_in_use zero d = true
bitmap_in_use (suc n) d = not (block_is_free (2 + n) d) && bitmap_in_use n d

-- `false` is a failed assertion.
unfoldable pub check_bitmap : Disk → Bool
unfolding bitmap_in_use
check_bitmap d =
    bitmap_in_use ((s_nblocks d + blkbitsize - 1) / blkbitsize) d
    && (not (block_is_free 0 d) && not (block_is_free 1 d))

-- `check_super`: the magic number, and no more blocks than the disk map has room for. `false` is
-- a panic.
unfoldable pub check_super : Disk → Bool
check_super d = (d.words 1 0 == 0x4A0530AE) && leb (s_nblocks d) (0xC000_0000 / 4096)
