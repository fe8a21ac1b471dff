-- ===== src/Fs/Disk.antt =====
-- The disk as the file server of oslab6/fs/fs.c sees it through the block cache: blocks of 1024
-- words of 32 bits, and the structures of oslab6/inc/fs.h in them.
use operating_systems_lab.Base.{ℕ, ◌+◌, ◌/◌, ◌%◌, ◌==◌, leb, update}
use operating_systems_lab.Base.{Bool, ◌||◌, List, ◌∷◌}

abbrev pub blksize : ℕ
blksize = 4096

-- `BLKBITSIZE`, the bits of a block
abbrev pub blkbitsize : ℕ
blkbitsize = 32768

abbrev pub ndirect : ℕ
ndirect = 10

abbrev pub nindirect : ℕ
nindirect = 1024

-- `words b i` is word `i` of block `b`. `flushed` are the blocks given to `flush_block`, the
-- latest first.
pub record Disk : Type 0 where
  pub words : ℕ → ℕ → ℕ
  pub flushed : List ℕ

abbrev pub store : ℕ → ℕ → ℕ → Disk → Disk
store b i w d = record d { words = update d.words b (update (d.words b) i w) }

abbrev pub flush : ℕ → Disk → Disk
flush b d = record d { flushed = b ∷ d.flushed }

-- `memset(diskaddr(b), 0, BLKSIZE)`
abbrev pub clear : ℕ → Disk → Disk
clear b d = record d { words = update d.words b (λ _. 0) }

-- `super->s_nblocks`
abbrev pub s_nblocks : Disk → ℕ
s_nblocks d = d.words 1 1

-- `diskaddr` panics on block 0 and on a block that is not there.
abbrev pub bad_block : Disk → ℕ → Bool
bad_block d b = (b == 0) || leb (s_nblocks d) b

-- A `struct File`: the block that it lies in, and its first word there. The name takes 32 words.
pub record FilePtr : Type 0 where
  pub block : ℕ
  pub base : ℕ

abbrev pub f_size : Disk → FilePtr → ℕ
f_size d f = d.words f.block (f.base + 32)

abbrev pub f_type : Disk → FilePtr → ℕ
f_type d f = d.words f.block (f.base + 33)

abbrev pub f_indirect : Disk → FilePtr → ℕ
f_indirect d f = d.words f.block (f.base + 44)

abbrev pub set_f_size : FilePtr → ℕ → Disk → Disk
set_f_size f v d = store f.block (f.base + 32) v d

abbrev pub set_f_indirect : FilePtr → ℕ → Disk → Disk
set_f_indirect f v d = store f.block (f.base + 44) v d

-- A pointer to a word.
pub record Slot : Type 0 where
  pub at_block : ℕ
  pub at_word : ℕ

abbrev pub load : Slot → Disk → ℕ
load s d = d.words s.at_block s.at_word

abbrev pub set_slot : Slot → ℕ → Disk → Disk
set_slot s v d = store s.at_block s.at_word v d

-- `&f->f_direct[i]`
abbrev pub f_direct : FilePtr → ℕ → Slot
f_direct f i = record { at_block = f.block; at_word = f.base + 34 + i }

-- `bitmap + i`: the bitmap starts at block 2.
abbrev pub bitmap_word : ℕ → Slot
bitmap_word i = record { at_block = 2 + i / 1024; at_word = i % 1024 }
