-- ===== src/Fs/Bitmap/Alloc.antt =====
-- `alloc_block` and `free_block` on the set of free blocks that the bitmap stands for.
use operating_systems_lab.Base.{ℕ, zero, suc, ◌+◌, ◌-◌, ◌/◌, ◌≤◌, ◌<◌}
use operating_systems_lab.Base.{true, false, some, ◌≡◌, refl, ◌≢◌, arith, Bool-cases, inl, inr}
use operating_systems_lab.Kern.State.{Result, ok, err, Error}
use operating_systems_lab.Fs.Disk.{Disk, s_nblocks}
use operating_systems_lab.Fs.Bitmap.{
  block_is_free, free_block, take_block, alloc_from, alloc_block, first_data,
}
use native.Mathlib.Decide.{ℕ_discrete}
use operating_systems_lab.Fs.Bitmap.Marks.{
  put_block, take_block-taken, take_block-other, put_block-free, put_block-other,
}

-- No block from `lo` on and below `hi` is free.
abbrev pub AllUsed : ℕ → ℕ → Disk → Type 0
AllUsed lo hi d = (j : ℕ) → lo ≤ j → j < hi → block_is_free j d ≡ false

-- `d'` differs from `d` in that block `b` is used; only one block of the bitmap is written.
pub record Taken (b : ℕ) (d d' : Disk) : Type 0 where
  pub now_used : block_is_free b d' ≡ false
  pub others : (j : ℕ) → b ≢ j → block_is_free j d' ≡ block_is_free j d
  pub frame : (k i : ℕ) → 2 + b / 32 / 1024 ≢ k → d'.words k i ≡ d.words k i

-- The outcome of a search for a free block among the blocks from `lo` on and below `hi`.
pub data Found (lo hi : ℕ) (d : Disk) : Result ℕ × Disk → Type 0 where
  full : AllUsed lo hi d → Found lo hi d (err Error.no_disk, d)
  least :
      (b : ℕ) (d' : Disk)
      → lo ≤ b
      → b < hi
      → block_is_free b d ≡ true
      → AllUsed lo b d
      → Taken b d d'
      → Found lo hi d (ok b, d')

empty : (i : ℕ) (d : Disk) → AllUsed i i d
empty i d j a b = absurd (omega arith)

-- One more used block below.
extend : (i hi : ℕ) (d : Disk) → block_is_free i d ≡ false → AllUsed (i + 1) hi d → AllUsed i hi d
extend i hi d here above j le lt = elim (ℕ_discrete i j) [
  | yes e ↦ rw (← e, here)
  | no ne ↦ above j (omega (arith, ne)) lt
]

skip :
    {r : Result ℕ × Disk} (i hi : ℕ) (d : Disk)
    → block_is_free i d ≡ false
    → Found (i + 1) hi d r
    → Found i hi d r
skip i hi d here (full none_free) = full (extend i hi d here none_free)
skip i hi d here (least b d' le lt free below took) =
    least b d' (omega arith) lt free (extend i b d here below) took

alloc_from-Found : (n i hi : ℕ) (d : Disk) → n ≡ hi - i → Found i hi d (alloc_from n i d)
unfolding alloc_from
alloc_from-Found zero i hi d e = full (λ j a b. absurd (omega arith))
alloc_from-Found (suc n) i hi d e = elim (Bool-cases (block_is_free i d)) [
  | inl free ↦ rw free (
      least i (take_block i d) (omega arith) (omega arith) free (empty i d) (record {
        now_used = take_block-taken i d;
        others = λ j ne. take_block-other i j d ne;
        frame = λ k x ne. ground arith;
      }))
  | inr used ↦ rw used (skip i hi d used (alloc_from-Found n (i + 1) hi d (omega arith)))
]

-- `alloc_block` returns the least free block past the bitmap and marks it used, or reports
-- `no_disk`, with the disk unchanged, when no block past the bitmap is free.
pub alloc_block-Found : (d : Disk) → Found (first_data d) (s_nblocks d) d (alloc_block d)
unfolding alloc_block
alloc_block-Found d =
    alloc_from-Found (s_nblocks d - first_data d) (first_data d) (s_nblocks d) d refl

-- Freeing a block of the disk marks it free, and no other block changes.
pub free_block-free :
    (b : ℕ) (d : Disk)
    → b ≢ 0
    → b < s_nblocks d
    → (d' : Disk) × (free_block b d ≡ some d')
      × (block_is_free b d' ≡ true)
      × ((j : ℕ) → b ≢ j → block_is_free j d' ≡ block_is_free j d)
unfolding free_block
free_block-free b d nz lt =
    (put_block b d, ground arith, put_block-free b d lt, λ j ne. put_block-other b j d ne)
