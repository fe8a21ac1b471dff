-- ===== src/Tests/Files.antt =====
-- The theorems about the file server, on a disk of 100 blocks: blocks 0 to 4 are in use, blocks 5
-- to 31 are free, and the root directory, in the super block, has block 4 as its first block.
use operating_systems_lab.Base.{ℕ, ◌==◌, ◌≡◌, refl, arith, some, [], inl, if◌then◌else◌}
use operating_systems_lab.Kern.State.{ok, err, Error}
use operating_systems_lab.Fs.Disk.{Disk, FilePtr, f_direct}
use operating_systems_lab.Fs.Bitmap.{alloc_block, block_is_free}
use operating_systems_lab.Fs.Bitmap.Alloc.{Found, alloc_block-Found}
use operating_systems_lab.Fs.Cache.{Cache, bc_pgfault}
use operating_systems_lab.Base.{if◌then◌else◌, true}
use operating_systems_lab.Fs.Cache.Coherent.{Coherent}
use operating_systems_lab.Fs.Blocks.{file_get_block, file_block_walk, block_of}
use operating_systems_lab.Fs.Blocks.Add.{FileSlot}
use operating_systems_lab.Fs.Blocks.Get.{
  GetOutcome, file_get_block-Outcome, file_get_block-inval, walk-direct,
}

abbrev disk_words : ℕ → ℕ → ℕ
disk_words b i =
    if b == 1
    then (if i == 0 then 0x4A0530AE else if i == 1 then 100 else if i == 36 then 4 else 0)
    else if b == 2
    then (if i == 0 then 0xFFFFFFE0 else 0)
    else 0

abbrev disk : Disk
disk = record { words = disk_words; flushed = [] }

abbrev root : FilePtr
root = record { block = 1; base = 2 }

alloc_block-Found_example : Found 3 100 disk (alloc_block disk)
alloc_block-Found_example = alloc_block-Found disk

root_slot : (n : ℕ) → FileSlot (f_direct root n) disk
unfolding block_is_free
root_slot n = record { used = refl; outside = inl (refl, omega arith) }

file_get_block-Outcome_example : GetOutcome (f_direct root 1) disk (file_get_block root 1 disk)
file_get_block-Outcome_example =
    file_get_block-Outcome root 1 disk disk (f_direct root 1)
      (walk-direct root 1 disk (omega arith)) (root_slot 1)

first_block : file_get_block root 0 disk ≡ some (ok 4, disk)
unfolding file_get_block file_block_walk block_of
first_block = refl

file_get_block-inval_example : file_get_block root 2000 disk ≡ some (err Error.inval, disk)
file_get_block-inval_example = file_get_block-inval root 2000 disk (omega arith)

-- Block 2 is cached and dirty.
abbrev cache : Cache
cache = record {
  disk = λ b i. if b == 1 then 100 else 0;
  page = λ b i. 7;
  mapped = λ b. b == 2;
  dirty = λ b. b == 2;
}

-- Block 3 is read in.
read_3 : (c' : Cache) × (bc_pgfault true true (ok tt) (ok tt) (ok tt) 0x1000_3010 cache ≡ some c')
unfolding bc_pgfault block_is_free
read_3 = (_, refl)
