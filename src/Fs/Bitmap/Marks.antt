-- ===== src/Fs/Bitmap/Marks.antt =====
-- What marking a block free or used does to the bitmap: it changes the answer of `block_is_free`
-- for that block and for no other.
use operating_systems_lab.Base.{ℕ, zero, suc, ◌/◌, ◌%◌, ◌^◌, ◌<◌, bit, bit_or, bit_and}
use operating_systems_lab.Base.{
  complement, bit-bit_and, bit-bit_or, bit-complement, bit-pow_self, bit-pow_ne, bit-le,
}
use operating_systems_lab.Base.{true, false}
use operating_systems_lab.Base.{◌≡◌, refl, ap, ◌∙◌, ◌≢◌, arith}
use native.Mathlib.Nat.{pow-suc}
use native.Mathlib.Decide.{ℕ_discrete}
use operating_systems_lab.Fs.Disk.{Disk, s_nblocks, load, set_slot, bitmap_word}
use operating_systems_lab.Fs.Bitmap.{free_bit, block_is_free, take_block}

-- Which bit of which word a block has.
same_word : (b j : ℕ) → b / 32 ≡ j / 32 → b % 32 ≡ j % 32 → b ≡ j
same_word b j p q = omega arith

pow-pos : (n : ℕ) → 0 < 2 ^ n
pow-pos zero = omega arith
pow-pos (suc n) = omega (arith, pow-suc 2 n, pow-pos n)

pow_mono : (n k : ℕ) → k < n → 2 ^ k < 2 ^ n
pow_mono zero k h = absurd (omega arith)
pow_mono (suc n) zero h = omega (arith, pow-suc 2 n, pow-pos n)
pow_mono (suc n) (suc k) h = omega (arith, pow-suc 2 n, pow-suc 2 k, pow_mono n k (omega arith))

pow-lt : (k : ℕ) → k < 32 → 2 ^ k < 2 ^ 32
pow-lt k h = pow_mono 32 k h

load-same : (b w : ℕ) (d : Disk) → load (bitmap_word b) (set_slot (bitmap_word b) w d) ≡ w
load-same b w d = ground arith

load-other :
    (b j w : ℕ) (d : Disk)
    → b ≢ j
    → load (bitmap_word j) (set_slot (bitmap_word b) w d) ≡ load (bitmap_word j) d
load-other b j w d h = ground arith

-- Clearing bit `k` of a word.
pub bit-clear_self : (w k : ℕ) → k < 32 → bit (bit_and w (complement 32 (2 ^ k))) k ≡ 0
bit-clear_self w k h = omega (
  arith,
  bit-bit_and k w (complement 32 (2 ^ k)),
  bit-complement 32 k (2 ^ k) (pow-lt k h) h,
  bit-pow_self k,
)

pub bit-clear_other :
    (w k j : ℕ) → k < 32 → j < 32 → k ≢ j → bit (bit_and w (complement 32 (2 ^ k))) j ≡ bit w j
bit-clear_other w k j h hj ne = omega (
  arith,
  bit-bit_and j w (complement 32 (2 ^ k)),
  bit-complement 32 j (2 ^ k) (pow-lt k h) hj,
  bit-pow_ne k j ne,
  bit-le w j,
)

pub bit-set_self : (w k : ℕ) → bit (bit_or w (2 ^ k)) k ≡ 1
bit-set_self w k = omega (arith, bit-bit_or k w (2 ^ k), bit-pow_self k, bit-le w k)

pub bit-set_other : (w k j : ℕ) → k ≢ j → bit (bit_or w (2 ^ k)) j ≡ bit w j
bit-set_other w k j ne = omega (arith, bit-bit_or j w (2 ^ k), bit-pow_ne k j ne)

-- A write in the bitmap leaves the super block's count.
s_nblocks-set_slot : (b w : ℕ) (d : Disk) → s_nblocks (set_slot (bitmap_word b) w d) ≡ s_nblocks d
s_nblocks-set_slot b w d = ground arith

-- `free_bit` of every block after a new word `v` in the word of block `b`.
module _ (b v : ℕ) (d : Disk) where
  free_bit-here :
      (j : ℕ) → b / 32 ≡ j / 32 → free_bit (set_slot (bitmap_word (b / 32)) v d) j ≡ bit v (j % 32)
  free_bit-here j e = rw (← e, load-same (b / 32) v d)

  free_bit-there :
      (j : ℕ) → b / 32 ≢ j / 32 → free_bit (set_slot (bitmap_word (b / 32)) v d) j ≡ free_bit d j
  free_bit-there j e = rw (load-other (b / 32) (j / 32) v d e)

free_bit-take_self : (b : ℕ) (d : Disk) → free_bit (take_block b d) b ≡ 0
free_bit-take_self b d =
    free_bit-here b (bit_and (load (bitmap_word (b / 32)) d) (complement 32 (2 ^ (b % 32)))) d b
      refl
    ∙ bit-clear_self (load (bitmap_word (b / 32)) d) (b % 32) (omega arith)

free_bit-take_other : (b j : ℕ) (d : Disk) → b ≢ j → free_bit (take_block b d) j ≡ free_bit d j
free_bit-take_other b j d ne =
    let w = bit_and (load (bitmap_word (b / 32)) d) (complement 32 (2 ^ (b % 32))) in
    elim (ℕ_discrete (b / 32) (j / 32)) [
      | yes e ↦
          free_bit-here b w d j e
          ∙ bit-clear_other (load (bitmap_word (b / 32)) d) (b % 32) (j % 32) (omega arith)
              (omega arith) (λ p. ne (same_word b j e p))
          ∙ ap (λ x. bit (load (bitmap_word x) d) (j % 32)) e
      | no n ↦ free_bit-there b w d j n
    ]

-- `free_block` in one equation.
abbrev pub put_block : ℕ → Disk → Disk
put_block b d = let s = bitmap_word (b / 32) in set_slot s (bit_or (load s d) (2 ^ (b % 32))) d

free_bit-put_self : (b : ℕ) (d : Disk) → free_bit (put_block b d) b ≡ 1
free_bit-put_self b d =
    free_bit-here b (bit_or (load (bitmap_word (b / 32)) d) (2 ^ (b % 32))) d b refl
    ∙ bit-set_self (load (bitmap_word (b / 32)) d) (b % 32)

free_bit-put_other : (b j : ℕ) (d : Disk) → b ≢ j → free_bit (put_block b d) j ≡ free_bit d j
free_bit-put_other b j d ne =
    let w = bit_or (load (bitmap_word (b / 32)) d) (2 ^ (b % 32)) in
    elim (ℕ_discrete (b / 32) (j / 32)) [
      | yes e ↦
          free_bit-here b w d j e
          ∙ bit-set_other (load (bitmap_word (b / 32)) d) (b % 32) (j % 32)
              (λ p. ne (same_word b j e p))
          ∙ ap (λ x. bit (load (bitmap_word x) d) (j % 32)) e
      | no n ↦ free_bit-there b w d j n
    ]

-- The answer depends on the count and on the block's own bit.
is_free-of_bit :
    (j : ℕ) (d d' : Disk)
    → s_nblocks d' ≡ s_nblocks d
    → free_bit d' j ≡ free_bit d j
    → block_is_free j d' ≡ block_is_free j d
unfolding block_is_free
is_free-of_bit j d d' e h = rw (e, h)

pub take_block-taken : (b : ℕ) (d : Disk) → block_is_free b (take_block b d) ≡ false
unfolding block_is_free
take_block-taken b d = rw (free_bit-take_self b d) (ground arith)

pub take_block-other :
    (b j : ℕ) (d : Disk) → b ≢ j → block_is_free j (take_block b d) ≡ block_is_free j d
take_block-other b j d ne =
    is_free-of_bit j d (take_block b d)
      (s_nblocks-set_slot (b / 32)
        (bit_and (load (bitmap_word (b / 32)) d) (complement 32 (2 ^ (b % 32)))) d)
      (free_bit-take_other b j d ne)

pub put_block-free : (b : ℕ) (d : Disk) → b < s_nblocks d → block_is_free b (put_block b d) ≡ true
unfolding block_is_free
put_block-free b d lt =
    rw
      (
        s_nblocks-set_slot (b / 32) (bit_or (load (bitmap_word (b / 32)) d) (2 ^ (b % 32))) d,
        free_bit-put_self b d,
      )
      (ground arith)

pub put_block-other :
    (b j : ℕ) (d : Disk) → b ≢ j → block_is_free j (put_block b d) ≡ block_is_free j d
put_block-other b j d ne =
    is_free-of_bit j d (put_block b d)
      (s_nblocks-set_slot (b / 32) (bit_or (load (bitmap_word (b / 32)) d) (2 ^ (b % 32))) d)
      (free_bit-put_other b j d ne)
