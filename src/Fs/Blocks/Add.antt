-- ===== src/Fs/Blocks/Add.antt =====
-- Giving a slot of a file a new block: `file_get_block` on a slot that is 0.
use operating_systems_lab.Base.{ℕ, ◌+◌, ◌/◌, ◌%◌, ◌≤◌, ◌<◌, leb}
use operating_systems_lab.Base.{
  true, false, some, Option, ◌≡◌, ◌≢◌, arith, Bool-cases, inl, inr, ◌⊎◌, ◌∙◌, sym, ap,
}
use operating_systems_lab.Kern.State.{Result, ok, err, Error}
use operating_systems_lab.Fs.Disk.{
  Disk, Slot, s_nblocks, load, set_slot, clear, flush, bitmap_word, bad_block,
}
use operating_systems_lab.Fs.Bitmap.{block_is_free, first_data}
use operating_systems_lab.Fs.Bitmap.Alloc.{AllUsed, Taken, Found}
use operating_systems_lab.Fs.Blocks.{fresh_block, block_at, give_block}

-- A slot in a block that is in use, outside the bitmap and the first words of the super block.
pub record FileSlot (s : Slot) (d : Disk) : Type 0 where
  pub used : block_is_free s.at_block d ≡ false
  pub outside : ((s.at_block ≡ 1) × (2 ≤ s.at_word)) ⊎ (first_data d ≤ s.at_block)

-- `d'` is `d` with block `b`, the least that was free after the bitmap, in use, cleared and in slot `s`, and nothing else
-- outside the bitmap changed.
pub record Added (s : Slot) (b : ℕ) (d d' : Disk) : Type 0 where
  pub past_bitmap : first_data d ≤ b
  pub on_disk : b < s_nblocks d
  pub was_free : block_is_free b d ≡ true
  pub least_free : AllUsed (first_data d) b d
  pub count_kept : s_nblocks d' ≡ s_nblocks d
  pub in_slot : load s d' ≡ b
  pub cleared : (i : ℕ) → d'.words b i ≡ 0
  pub now_used : block_is_free b d' ≡ false
  pub others : (j : ℕ) → b ≢ j → block_is_free j d' ≡ block_is_free j d
  pub frame :
      (k i : ℕ)
      → (k < 2) ⊎ (first_data d ≤ k)
      → b ≢ k
      → (s.at_block ≢ k) ⊎ (s.at_word ≢ i)
      → d'.words k i ≡ d.words k i

-- The outcomes of `give_block`: no panic among them.
pub data AddOutcome (s : Slot) (d : Disk) : Option (Result ℕ × Disk) → Type 0 where
  no_room : AllUsed (first_data d) (s_nblocks d) d → AddOutcome s d (some (err Error.no_disk, d))
  added : (b : ℕ) (d' : Disk) → Added s b d d' → AddOutcome s d (some (ok b, d'))

-- The words that `block_is_free` reads for a block of the disk are outside the data blocks.
is_free-outside :
    (d d' : Disk)
    → s_nblocks d' ≡ s_nblocks d
    → ((k i : ℕ) → 2 ≤ k → k < first_data d → d'.words k i ≡ d.words k i)
    → (j : ℕ) → block_is_free j d' ≡ block_is_free j d
unfolding block_is_free
is_free-outside d d' e same j = elim (Bool-cases (leb (s_nblocks d) j)) [
  | inl past ↦ rw (e, past)
  | inr on_disk ↦
      let w : load (bitmap_word (j / 32)) d' ≡ load (bitmap_word (j / 32)) d =
        same (2 + j / 32 / 1024) (j / 32 % 1024) (omega arith) (ground arith) in
      rw (e, on_disk, w)
]

-- The disk after the slot is set and the block cleared.
abbrev finished : Slot → ℕ → Disk → Disk
finished s b d1 = flush b (clear b (set_slot s b d1))

distinct_blocks :
    (k b : ℕ) (d : Disk) → block_is_free b d ≡ true → block_is_free k d ≡ false → k ≢ b
distinct_blocks k b d free used e =
    let clash : true ≡ false = sym free ∙ ap (λ x. block_is_free x d) (sym e) ∙ used in ground arith

module _ (s : Slot) (b : ℕ) (d d1 : Disk) (slot : FileSlot s d) (past : first_data d ≤ b)
    (lt : b < s_nblocks d) (free : block_is_free b d ≡ true) (below : AllUsed (first_data d) b d)
    (took : Taken b d d1) where
  apart : s.at_block ≢ b
  apart = distinct_blocks s.at_block b d free slot.used

  same_count : s_nblocks (finished s b d1) ≡ s_nblocks d
  same_count = elim slot.outside [
    | inl o ↦ ground (arith, took.frame 1 1 (omega arith), o.1)
    | inr o ↦ ground (arith, took.frame 1 1 (omega arith))
  ]

  bitmap_kept : (k i : ℕ) → 2 ≤ k → k < first_data d1 → (finished s b d1).words k i ≡ d1.words k i
  bitmap_kept k i le below = elim slot.outside [
    | inl o ↦ ground (arith, took.frame 1 1 (omega arith))
    | inr o ↦ ground (arith, took.frame 1 1 (omega arith))
  ]

  finished-free : (j : ℕ) → block_is_free j (finished s b d1) ≡ block_is_free j d1
  finished-free =
      is_free-outside d1 (finished s b d1) (same_count ∙ sym (took.frame 1 1 (omega arith)))
        bitmap_kept

  finished-frame :
      (k i : ℕ)
      → b ≢ k
      → (s.at_block ≢ k) ⊎ (s.at_word ≢ i)
      → (finished s b d1).words k i ≡ d1.words k i
  finished-frame k i ne other = elim other [ inl o ↦ ground arith | inr o ↦ ground arith ]

  finished-Added : Added s b d (finished s b d1)
  finished-Added = record {
    past_bitmap = past;
    on_disk = lt;
    was_free = free;
    least_free = below;
    count_kept = same_count;
    in_slot = ground (arith, apart);
    cleared = λ i. ground arith;
    now_used = finished-free b ∙ took.now_used;
    others = λ j ne. finished-free j ∙ took.others j ne;
    frame = λ k i out ne other.
        finished-frame k i ne other
        ∙ took.frame k i
            (elim out [ inl o ↦ λ p. absurd (omega arith) | inr o ↦ λ p. absurd (omega arith) ]);
  }

  -- The `diskaddr` calls do not panic.
  good_block : bad_block (set_slot s b d1) b ≡ false
  good_block = elim slot.outside [
    | inl o ↦ ground (arith, took.frame 1 1 (omega arith), o.1)
    | inr o ↦ ground (arith, took.frame 1 1 (omega arith))
  ]

  good_load : bad_block (finished s b d1) (load s (finished s b d1)) ≡ false
  good_load =
      let e : load s (finished s b d1) ≡ b = ground (arith, apart) in
      rw (e, same_count) (ground arith)

give_block-ok :
    (s : Slot) (b : ℕ) (d : Disk)
    → bad_block (set_slot s b d) b ≡ false
    → bad_block (finished s b d) (load s (finished s b d)) ≡ false
    → load s (finished s b d) ≡ b
    → give_block s (ok b, d) ≡ some (ok b, finished s b d)
unfolding give_block
give_block-ok s b d good back e =
    let made : fresh_block b (set_slot s b d) ≡ some (finished s b d) = rw good in
    let shown : block_at s (finished s b d) ≡ some (ok b, finished s b d) = rw (back, e) in
    ground (arith, made, shown)

pub give_block-AddOutcome :
    (s : Slot) (d : Disk) {r : Result ℕ × Disk}
    → FileSlot s d
    → Found (first_data d) (s_nblocks d) d r
    → AddOutcome s d (give_block s r)
unfolding give_block
give_block-AddOutcome s d slot (Found.full none_free) = no_room none_free
give_block-AddOutcome s d slot (Found.least b d' past lt free below took) =
    let all : Added s b d (finished s b d') =
      finished-Added s b d d' slot past lt free below took in
    rw
      (give_block-ok s b d' (good_block s b d d' slot past lt free below took)
        (good_load s b d d' slot past lt free below took) all.in_slot)
      (added b (finished s b d') all)
