-- ===== src/Fs/Names.antt =====
-- Directories and path names, oslab6/fs/fs.c. A string is the list of its bytes before the null.
pub mod Path
pub mod Bytes
pub mod Entry
use operating_systems_lab.Base.{ℕ, zero, suc, ◌+◌, ◌-◌, ◌*◌, ◌/◌, ◌%◌, ◌^◌, ◌==◌, leb, length}
use operating_systems_lab.Base.{
  Bool, true, false, not, ◌&&◌, ◌||◌, Option, none, some, if◌then◌else◌, List, [], ◌∷◌,
}
use operating_systems_lab.Kern.State.{Result, ok, err, Error}
use operating_systems_lab.Fs.Disk.{Disk, FilePtr, blksize, store, f_size, f_type, set_f_size}
use operating_systems_lab.Fs.Blocks.{file_get_block, file_flush}

-- Byte `i` of block `b`; words are little-endian.
abbrev pub byte : Disk → ℕ → ℕ → ℕ
byte d b i = d.words b (i / 4) / 256 ^ (i % 4) % 256

abbrev pub set_byte : ℕ → ℕ → ℕ → Disk → Disk
set_byte b i v d =
    let w = d.words b (i / 4) in
    store b (i / 4) (w - byte d b i * 256 ^ (i % 4) + v * 256 ^ (i % 4)) d

-- `f->f_name[i]`
abbrev pub name_byte : Disk → FilePtr → ℕ → ℕ
name_byte d f i = byte d f.block (f.base * 4 + i)

-- `strcmp(f->f_name, name) == 0`, from byte `i` on.
unfoldable pub same_name : Disk → FilePtr → ℕ → List ℕ → Bool
same_name d f i [] = name_byte d f i == 0
same_name d f i (c ∷ cs) = (name_byte d f i == c) && same_name d f (i + 1) cs

-- `strcpy(f->f_name, name)`, from byte `i` on.
unfoldable pub copy_name : FilePtr → ℕ → List ℕ → Disk → Disk
copy_name f i [] d = set_byte f.block (f.base * 4 + i) 0 d
copy_name f i (c ∷ cs) d = copy_name f (i + 1) cs (set_byte f.block (f.base * 4 + i) c d)

-- `BLKFILES`
abbrev pub blkfiles : ℕ
blkfiles = 16

-- `&f[j]`: a `struct File` takes 64 words.
abbrev pub file_at : ℕ → ℕ → FilePtr
file_at b j = record { block = b; base = 64 * j }

-- The inner loop of `dir_lookup`, from entry `j` on, with `n` entries left.
unfoldable pub find_name : ℕ → ℕ → ℕ → List ℕ → Disk → Option FilePtr
find_name zero j b name d = none
find_name (suc n) j b name d =
    let rest = find_name n (j + 1) b name d in
    if same_name d (file_at b j) 0 name then some (file_at b j) else rest

-- The inner loop of `dir_alloc_file`.
unfoldable pub find_unnamed : ℕ → ℕ → ℕ → Disk → Option FilePtr
find_unnamed zero j b d = none
find_unnamed (suc n) j b d =
    let rest = find_unnamed n (j + 1) b d in
    if name_byte d (file_at b j) 0 == 0 then some (file_at b j) else rest

-- The outer loop, from block `i` on, with `n` blocks left; `search` is the inner one.
unfoldable pub search_blocks :
    (ℕ → Disk → Option FilePtr) → ℕ → ℕ → FilePtr → Disk → Option (Result (Option FilePtr) × Disk)
search_blocks search zero i dir d = some (ok none, d)
search_blocks search (suc n) i dir d = elim (file_get_block dir i d) [
  | none ↦ none
  | some (err e, d') ↦ some (err e, d')
  | some (ok b, d') ↦ elim (search b d') [
    | some f ↦ some (ok (some f), d')
    | none ↦ search_blocks search n (i + 1) dir d'
  ]
]

-- `none` is a panic or a failed assertion.
unfoldable pub dir_lookup : FilePtr → List ℕ → Disk → Option (Result FilePtr × Disk)
dir_lookup dir name d =
    let found =
      search_blocks (λ b d'. find_name blkfiles 0 b name d') (f_size d dir / blksize) 0 dir d in
    if f_size d dir % blksize == 0
    then elim found [
      | none ↦ none
      | some (err e, d') ↦ some (err e, d')
      | some (ok (some f), d') ↦ some (ok f, d')
      | some (ok none, d') ↦ some (err Error.not_found, d')
    ]
    else none

-- The directory grows by a block.
unfoldable pub grow_dir : FilePtr → ℕ → Disk → Option (Result FilePtr × Disk)
grow_dir dir nblock d =
    elim (file_get_block dir nblock (set_f_size dir (f_size d dir + blksize) d)) [
      | none ↦ none
      | some (err e, d') ↦ some (err e, d')
      | some (ok b, d') ↦ some (ok (file_at b 0), d')
    ]

unfoldable pub dir_alloc_file : FilePtr → Disk → Option (Result FilePtr × Disk)
dir_alloc_file dir d =
    let nblock = f_size d dir / blksize in
    let found = search_blocks (λ b d'. find_unnamed blkfiles 0 b d') nblock 0 dir d in
    if f_size d dir % blksize == 0
    then elim found [
      | none ↦ none
      | some (err e, d') ↦ some (err e, d')
      | some (ok (some f), d') ↦ some (ok f, d')
      | some (ok none, d') ↦ grow_dir dir nblock d'
    ]
    else none

-- `'/'` is 47.
unfoldable pub skip_slash : List ℕ → List ℕ
skip_slash [] = []
skip_slash (c ∷ cs) = let rest = skip_slash cs in if c == 47 then rest else c ∷ cs

-- The path up to the next slash, and what follows from that slash on.
unfoldable pub element : List ℕ → List ℕ
element [] = []
element (c ∷ cs) = let rest = element cs in if c == 47 then [] else c ∷ rest

unfoldable pub after_element : List ℕ → List ℕ
after_element [] = []
after_element (c ∷ cs) = let rest = after_element cs in if c == 47 then c ∷ cs else rest

abbrev pub maxnamelen : ℕ
maxnamelen = 128

-- What `walk_path` leaves: its return value with `*pf`, `*pdir`, and `lastelem` where it is set.
pub record PathResult : Type 0 where
  pub target : Result FilePtr
  pub pdir : Option FilePtr
  pub lastelem : Option (List ℕ)

abbrev pub fails : Error → PathResult
fails e = record { target = err e; pdir = none; lastelem = none }

-- After `dir_lookup` failed with `e`; `rest` is what is left of the path.
abbrev pub lookup_failed : Error → FilePtr → List ℕ → List ℕ → PathResult
lookup_failed Error.not_found dir name [] = record {
  target = err Error.not_found;
  pdir = some dir;
  lastelem = some name;
}
lookup_failed e dir name rest = fails e

-- `FTYPE_DIR`
abbrev pub ftype_dir : ℕ
ftype_dir = 1

-- The end of a round of `walk_path`, after `dir_lookup`: `go_on` is the rest of the loop.
unfoldable pub after_lookup :
    (FilePtr → Disk → Option (PathResult × Disk))
    → FilePtr
    → List ℕ
    → List ℕ
    → Option (Result FilePtr × Disk)
    → Option (PathResult × Disk)
after_lookup go_on f name rest none = none
after_lookup go_on f name rest (some (err e, d)) = some (lookup_failed e f name rest, d)
after_lookup go_on f name rest (some (ok g, d)) = go_on g d

-- A round of `walk_path` at file `f`.
unfoldable pub walk_round :
    (FilePtr → Disk → Option (PathResult × Disk))
    → FilePtr
    → List ℕ
    → Disk
    → Option (PathResult × Disk)
walk_round go_on f path d =
    let name = element path in
    let found = dir_lookup f name d in
    if leb maxnamelen (length name)
    then some (fails Error.bad_path, d)
    else if not (f_type d f == ftype_dir)
    then some (fails Error.not_found, d)
    else after_lookup go_on f name (skip_slash (after_element path)) found

-- The loop of `walk_path` at file `f`, found in `dir`; a round takes a byte of the path at least.
unfoldable pub walk_from : ℕ → Option FilePtr → FilePtr → List ℕ → Disk → Option (PathResult × Disk)
walk_from fuel dir f [] d = some (record { target = ok f; pdir = dir; lastelem = none }, d)
walk_from zero dir f (c ∷ cs) d = none
walk_from (suc fuel) dir f (c ∷ cs) d =
    let rest = skip_slash (after_element (c ∷ cs)) in
    walk_round (λ g d'. walk_from fuel (some f) g rest d') f (c ∷ cs) d

-- `&super->s_root`
abbrev pub root_file : FilePtr
root_file = record { block = 1; base = 2 }

unfoldable pub walk_path : List ℕ → Disk → Option (PathResult × Disk)
walk_path path d = walk_from (length path) none root_file (skip_slash path) d

-- The new entry for `name` in `dir`.
unfoldable pub create_in : FilePtr → List ℕ → Disk → Option (Result FilePtr × Disk)
create_in dir name d = elim (dir_alloc_file dir d) [
  | none ↦ none
  | some (err e, d') ↦ some (err e, d')
  | some (ok f, d') ↦ elim (file_flush dir (copy_name f 0 name d')) [
    | none ↦ none
    | some d1 ↦ some (ok f, d1)
  ]
]

-- `file_create` after the walk, with the target, the directory and the last element it left.
unfoldable pub create_at :
    Result FilePtr → Option FilePtr → Option (List ℕ) → Disk → Option (Result FilePtr × Disk)
create_at (ok f) p l d = some (err Error.file_exists, d)
create_at (err Error.not_found) (some dir) (some name) d = create_in dir name d
create_at (err e) p l d = some (err e, d)

unfoldable pub file_create : List ℕ → Disk → Option (Result FilePtr × Disk)
file_create path d = elim (walk_path path d) [
  | none ↦ none
  | some (w, d') ↦ create_at w.target w.pdir w.lastelem d'
]

unfoldable pub file_open : List ℕ → Disk → Option (Result FilePtr × Disk)
file_open path d = elim (walk_path path d) [ none ↦ none | some (w, d') ↦ some (w.target, d') ]
