-- ===== src/Fs/Cache/Coherent.antt =====
-- The block cache and the disk agree: what a program reads does not depend on what is cached,
-- and a flush writes the block back.
use operating_systems_lab.Base.{ℕ, update}
use operating_systems_lab.Base.{
  Bool, true, false, ◌&&◌, Option, none, some, ◌≡◌, refl, Bool-cases, inl, inr, arith, ◌≢◌,
}
use native.Mathlib.Decide.{ℕ_discrete}
use operating_systems_lab.Base.{◌+◌, ◌<◌, ◌≤◌, ◌⊎◌}
use operating_systems_lab.Kern.State.{Result, err, Error}
use operating_systems_lab.Fs.Disk.{s_nblocks}
use operating_systems_lab.Fs.Bitmap.{block_is_free}
use operating_systems_lab.Fs.Cache.{
  Cache, view, as_disk, diskmap, disksize, blockno, flush_block, store_word,
}

-- A mapped page that is not dirty holds what lies on the disk.
abbrev pub Coherent : Cache → Type 0
Coherent c = (b : ℕ) → c.mapped b ≡ true → c.dirty b ≡ false → (i : ℕ) → c.page b i ≡ c.disk b i

-- What the operations of the cache may do: keep the agreement, and keep what programs read.
pub record Transparent (c c' : Cache) : Type 0 where
  pub coherent : Coherent c'
  pub same_view : (b i : ℕ) → view c' b i ≡ view c b i

-- Why a page fault panics: the address is not of the map of the disk, the block is past the end of the
-- disk, a call failed, or the block is free.
pub data Panics (super bitmap : Bool) (alloc got mapped : Result (Unit {0})) (addr : ℕ) (c : Cache)
    : Type 0 where
  outside :
      (addr < diskmap) ⊎ (diskmap + disksize ≤ addr) → Panics super bitmap alloc got mapped addr c
  past_end :
      super ≡ true
      → s_nblocks (as_disk c) ≤ blockno addr
      → Panics super bitmap alloc got mapped addr c
  no_page : (e : Error) → alloc ≡ err e → Panics super bitmap alloc got mapped addr c
  no_read : (e : Error) → got ≡ err e → Panics super bitmap alloc got mapped addr c
  no_map : (e : Error) → mapped ≡ err e → Panics super bitmap alloc got mapped addr c
  is_free :
      bitmap ≡ true
      → block_is_free (blockno addr) (as_disk c) ≡ true
      → Panics super bitmap alloc got mapped addr c

-- The cache after the fault: the block is mapped, clean and as it is on the disk.
pub record ReadIn (b : ℕ) (c c' : Cache) : Type 0 where
  pub transparent : Transparent c c'
  pub is_mapped : c'.mapped b ≡ true
  pub is_clean : c'.dirty b ≡ false
  pub content : (i : ℕ) → c'.page b i ≡ c.disk b i
  pub same_disk : c'.disk ≡ c.disk
  pub others :
      (j : ℕ)
      → b ≢ j
      → (c'.mapped j ≡ c.mapped j) × (c'.dirty j ≡ c.dirty j) × (c'.page j ≡ c.page j)

-- The outcome of a page fault.
pub data Fault (super bitmap : Bool) (alloc got mapped : Result (Unit {0})) (addr : ℕ) (c : Cache)
    : Option Cache → Type 0 where
  panics :
      Panics super bitmap alloc got mapped addr c → Fault super bitmap alloc got mapped addr c none
  reads_in :
      (c' : Cache)
      → ¬ Panics super bitmap alloc got mapped addr c
      → ReadIn (blockno addr) c c'
      → Fault super bitmap alloc got mapped addr c (some c')

-- The cache with block `b` written back.
abbrev written : ℕ → Cache → Cache
written b c = record c { disk = update c.disk b (c.page b); dirty = update c.dirty b false }

written-Transparent :
    (b : ℕ) (c : Cache) → c.mapped b ≡ true → Coherent c → Transparent c (written b c)
written-Transparent b c mapped coh = record {
  coherent = λ j m d i. elim (ℕ_discrete b j) [
    | yes e ↦ ground arith
    | no ne ↦ ground (arith, coh j m (ground arith) i)
  ];
  same_view = λ j i. elim (ℕ_discrete b j) [ yes e ↦ rw (← e, mapped) | no ne ↦ ground arith ];
}

flush_block-Transparent : (b : ℕ) (c : Cache) → Coherent c → Transparent c (flush_block b c)
unfolding flush_block
flush_block-Transparent b c coh = elim (Bool-cases (c.mapped b && c.dirty b)) [
  | inl h ↦ rw h (written-Transparent b c (ground arith) coh)
  | inr h ↦ rw h (record { coherent = coh; same_view = λ j i. refl })
]

flush_block-on_disk :
    (b : ℕ) (c : Cache) → Coherent c → (i : ℕ) → (flush_block b c).disk b i ≡ view c b i
unfolding flush_block
flush_block-on_disk b c coh i = elim (Bool-cases (c.mapped b)) [
  | inl m ↦ elim (Bool-cases (c.dirty b)) [
    | inl d ↦ rw (m, d) (ground arith)
    | inr d ↦ rw (m, d, coh b m d i)
  ]
  | inr m ↦ rw m
]

flush_block-elsewhere : (b : ℕ) (c : Cache) (j : ℕ) → b ≢ j → (flush_block b c).disk j ≡ c.disk j
unfolding flush_block
flush_block-elsewhere b c j ne = elim (Bool-cases (c.mapped b && c.dirty b)) [
  | inl h ↦ rw h (ground arith)
  | inr h ↦ rw h
]

-- A flush changes nothing of what programs read and leaves block `b` on the disk as programs read
-- it; no other block of the disk changes.
pub flush_block-Written :
    (b : ℕ) (c : Cache)
    → Coherent c
    → Transparent c (flush_block b c)
      × ((i : ℕ) → (flush_block b c).disk b i ≡ view c b i)
      × ((j : ℕ) → b ≢ j → (flush_block b c).disk j ≡ c.disk j)
flush_block-Written b c coh =
    (flush_block-Transparent b c coh, flush_block-on_disk b c coh, flush_block-elsewhere b c)

-- After a store to a mapped page and a flush of its block the disk holds the word.
pub store-flush :
    (b i w : ℕ) (c : Cache) → c.mapped b ≡ true → (flush_block b (store_word b i w c)).disk b i ≡ w
unfolding flush_block store_word
store-flush b i w c mapped = rw mapped (ground arith)
