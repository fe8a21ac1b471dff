-- ===== src/Fs/Blocks/Get.antt =====
-- `file_get_block`: the block of a file at an index, new if there is none.
use operating_systems_lab.Base.{ℕ, ◌<◌, ◌≤◌, ◌==◌, if◌then◌else◌}
use operating_systems_lab.Base.{
  Bool, true, false, some, none, Option, ◌≡◌, refl, ◌≢◌, arith, Bool-cases, inl, inr, ◌∙◌, ap,
}
use operating_systems_lab.Kern.State.{Result, ok, err, Error}
use operating_systems_lab.Fs.Disk.{Disk, FilePtr, Slot, load, bad_block, f_direct}
use operating_systems_lab.Fs.Bitmap.{alloc_block}
use operating_systems_lab.Fs.Bitmap.Alloc.{alloc_block-Found}
use operating_systems_lab.Fs.Blocks.{
  block_at, give_block, file_block_walk, block_of, file_get_block,
}
use operating_systems_lab.Fs.Blocks.Add.{FileSlot, AddOutcome, give_block-AddOutcome}

-- What `file_get_block` makes of a slot.
pub data GetOutcome (s : Slot) (d : Disk) : Option (Result ℕ × Disk) → Type 0 where
  kept : load s d ≢ 0 → bad_block d (load s d) ≡ false → GetOutcome s d (some (ok (load s d), d))
  panics : load s d ≢ 0 → bad_block d (load s d) ≡ true → GetOutcome s d none
  new : {r : Option (Result ℕ × Disk)} → load s d ≡ 0 → AddOutcome s d r → GetOutcome s d r

block_at-Outcome : (s : Slot) (d : Disk) → load s d ≢ 0 → GetOutcome s d (block_at s d)
block_at-Outcome s d h = elim (Bool-cases (bad_block d (load s d))) [
  | inl bad ↦ rw bad (panics h bad)
  | inr good ↦ rw good (kept h good)
]

pick :
    (s : Slot) (d : Disk) (c : Bool) (x y : Option (Result ℕ × Disk))
    → (c ≡ true → GetOutcome s d x)
    → (c ≡ false → GetOutcome s d y)
    → GetOutcome s d (if c then x else y)
pick s d true x y f g = f refl
pick s d false x y f g = g refl

slot_outcome :
    (s : Slot) (d : Disk)
    → FileSlot s d
    → GetOutcome s d (if load s d == 0 then give_block s (alloc_block d) else block_at s d)
slot_outcome s d slot =
    pick s d (load s d == 0) (give_block s (alloc_block d)) (block_at s d)
      (λ z. new (ground arith) (give_block-AddOutcome s d slot (alloc_block-Found d)))
      (λ nz. block_at-Outcome s d (ground arith))

after_walk :
    (f : FilePtr) (n : ℕ) (d d' : Disk) (s : Slot)
    → file_block_walk f n true d ≡ some (ok s, d')
    → file_get_block f n d
      ≡ (if load s d' == 0 then give_block s (alloc_block d') else block_at s d')
unfolding file_get_block block_of
after_walk f n d d' s walk = ap block_of walk

-- When the walk finds a slot, `file_get_block` returns the block in it, with the disk unchanged, or
-- if it is 0 gives it the least free block, cleared; it panics only on a slot that holds a bad
-- block number.
pub file_get_block-Outcome :
    (f : FilePtr) (n : ℕ) (d d' : Disk) (s : Slot)
    → file_block_walk f n true d ≡ some (ok s, d')
    → FileSlot s d'
    → GetOutcome s d' (file_get_block f n d)
unfolding file_get_block block_of
file_get_block-Outcome f n d d' s walk slot = rw walk (slot_outcome s d' slot)

pub walk-direct :
    (f : FilePtr) (n : ℕ) (d : Disk)
    → n < 10
    → file_block_walk f n true d ≡ some (ok (f_direct f n), d)
unfolding file_block_walk
walk-direct f n d lt = ground arith

inj_some :
    {b b' : ℕ} {d d' : Disk}
    → ◌≡◌ {A = Option (Result ℕ × Disk)} (some (ok b, d)) (some (ok b', d'))
    → (b ≡ b') × (d ≡ d')
inj_some e = grind arith

-- What a successful `file_get_block` leaves behind.
settled :
    (s : Slot) (d d' : Disk) (b : ℕ) {r : Option (Result ℕ × Disk)}
    → GetOutcome s d r
    → r ≡ some (ok b, d')
    → (load s d' ≡ b) × (b ≢ 0) × (bad_block d' b ≡ false)
settled s d d' b (kept nz good) e =
    let (p, q) = inj_some e in (rw (← p, ← q), (λ z. nz (p ∙ z)), rw (← p, ← q) good)
settled s d d' b (panics nz bad) e = absurd (ground arith)
settled s d d' b (new z (AddOutcome.no_room none_free)) e = absurd (ground arith)
settled s d d' b (new z (AddOutcome.added b1 d1 a)) e =
    let (p, q) = inj_some e in
    (
      rw (← p, ← q) a.in_slot,
      (λ z. absurd (omega (arith, z, p, a.past_bitmap))),
      rw (← p, ← q) (ground (arith, a.past_bitmap, a.on_disk, a.count_kept)),
    )

again :
    (f : FilePtr) (n : ℕ) (d : Disk) (b : ℕ)
    → n < 10
    → (load (f_direct f n) d ≡ b) × (b ≢ 0) × (bad_block d b ≡ false)
    → file_get_block f n d ≡ some (ok b, d)
again f n d b lt (e, nz, good) =
    rw (after_walk f n d d (f_direct f n) (walk-direct f n d lt), e) (ground (arith, nz, good))

-- Asked a second time for a direct block, `file_get_block` returns the same block and leaves the
-- disk as it is.
pub file_get_block-twice :
    (f : FilePtr) (n : ℕ) (d d' : Disk) (b : ℕ)
    → n < 10
    → FileSlot (f_direct f n) d
    → file_get_block f n d ≡ some (ok b, d')
    → file_get_block f n d' ≡ some (ok b, d')
file_get_block-twice f n d d' b lt slot e = again f n d' b lt (
    settled (f_direct f n) d d' b
      (file_get_block-Outcome f n d d (f_direct f n) (walk-direct f n d lt) slot) e)

-- Past the last block that a file can have, nothing is changed.
pub file_get_block-inval :
    (f : FilePtr) (n : ℕ) (d : Disk) → 1034 ≤ n → file_get_block f n d ≡ some (err Error.inval, d)
unfolding file_get_block file_block_walk block_of
file_get_block-inval f n d h = ground arith
