-- ===== src/Fs/Content/Transfer.antt =====
-- The bytes that `file_read` and `file_write` of oslab6/fs/fs.c move.
use operating_systems_lab.Base.{
  ℕ, zero, suc, ◌+◌, ◌-◌, ◌/◌, ◌%◌, ◌≤◌, ◌<◌, ◌≡◌, refl, ap, ◌∙◌, sym, arith, min, leb, length,
  length-append, All,
}
use operating_systems_lab.Base.{Bool-cases, inl, inr, Option, none, some, List, [], ◌∷◌, ◌++◌}
use operating_systems_lab.Kern.State.{Result, ok, err, Error}
use operating_systems_lab.Fs.Disk.{Disk, FilePtr, blksize, f_size}
use operating_systems_lab.Fs.Blocks.{file_get_block}
use operating_systems_lab.Fs.Names.{byte, set_byte}
use operating_systems_lab.Fs.Names.Bytes.{byte-set_byte_self, byte-set_byte_other}
use operating_systems_lab.Fs.Content.{
  read_bytes, write_bytes, chunk, prepend, read_round, read_from, file_read,
}

abbrev pub AreBytes : List ℕ → Type 0
AreBytes xs = All (λ x. x < 256) xs

write_bytes-before :
    (b i j : ℕ) (xs : List ℕ) (d : Disk)
    → AreBytes xs
    → j < i
    → byte (write_bytes b i xs d) b j ≡ byte d b j
unfolding write_bytes
write_bytes-before b i j [] d h lt = refl
write_bytes-before b i j (x ∷ xs) d h lt =
    write_bytes-before b (i + 1) j xs (set_byte b i x d) h.1 (omega arith)
    ∙ byte-set_byte_other b i j x d h.0 (λ e. absurd (omega arith))

-- Bytes that are written to a block are read back.
pub read_bytes-write_bytes :
    (b i : ℕ) (xs : List ℕ) (d : Disk)
    → AreBytes xs
    → read_bytes (length xs) b i (write_bytes b i xs d) ≡ xs
unfolding read_bytes write_bytes
read_bytes-write_bytes b i [] d h = refl
read_bytes-write_bytes b i (x ∷ xs) d h = rw (
  write_bytes-before b (i + 1) i xs (set_byte b i x d) h.1 (omega arith),
  byte-set_byte_self b i x d h.0,
  read_bytes-write_bytes b (i + 1) xs (set_byte b i x d) h.1,
)

length-read_bytes : (n b i : ℕ) (d : Disk) → length (read_bytes n b i d) ≡ n
unfolding read_bytes
length-read_bytes zero b i d = refl
length-read_bytes (suc n) b i d = ap suc (length-read_bytes n b (i + 1) d)

-- What a successful read returned has `n` bytes.
abbrev HasLength : ℕ → Option (Result (List ℕ) × Disk) → Type 0
HasLength n r = (xs : List ℕ) (d : Disk) → r ≡ some (ok xs, d) → length xs ≡ n

inj_read :
    {xs ys : List ℕ} {d d' : Disk}
    → ◌≡◌ {A = Option (Result (List ℕ) × Disk)} (some (ok xs, d)) (some (ok ys, d'))
    → xs ≡ ys
inj_read e = cc e

HasLength-cast :
    {n m : ℕ} {r : Option (Result (List ℕ) × Disk)} → n ≡ m → HasLength n r → HasLength m r
HasLength-cast e h = λ xs d q. h xs d q ∙ e

HasLength-prepend :
    (n : ℕ) (ys : List ℕ) (r : Option (Result (List ℕ) × Disk))
    → HasLength n r
    → HasLength (length ys + n) (prepend ys r)
HasLength-prepend n ys none h = λ xs d e. absurd (cc e)
HasLength-prepend n ys (some (err x, d1)) h = λ xs d e. absurd (cc e)
HasLength-prepend n ys (some (ok zs, d1)) h = λ xs d e.
    ap length (sym (inj_read e)) ∙ length-append ys zs ∙ ap (λ m. length ys + m) (h zs d1 refl)

HasLength-read_round :
    (go_on : Disk → Option (Result (List ℕ) × Disk)) (n m off : ℕ) (r : Option (Result ℕ × Disk))
    → ((d : Disk) → HasLength m (go_on d))
    → HasLength (n + m) (read_round go_on n off r)
unfolding read_round
HasLength-read_round go_on n m off none h = λ xs d e. absurd (cc e)
HasLength-read_round go_on n m off (some (err x, d1)) h = λ xs d e. absurd (cc e)
HasLength-read_round go_on n m off (some (ok b, d1)) h =
    HasLength-cast (ap (λ k. k + m) (length-read_bytes n b off d1))
      (HasLength-prepend m (read_bytes n b off d1) (go_on d1) (h d1))

read_from-HasLength :
    (fuel : ℕ) (f : FilePtr) (pos end : ℕ) (d : Disk)
    → end - pos ≤ fuel
    → HasLength (end - pos) (read_from fuel f pos end d)
unfolding read_from
read_from-HasLength zero f pos end d h = λ xs d' e. ap length (sym (inj_read e)) ∙ omega arith
read_from-HasLength (suc fuel) f pos end d h = elim (Bool-cases (leb end pos)) [
  | inl done ↦ rw done (λ xs d' e. ap length (sym (inj_read e)) ∙ ground arith)
  | inr more ↦ rw more (
      let total : chunk pos end + (end - (pos + chunk pos end)) ≡ end - pos = omega arith in
      HasLength-cast total (
        HasLength-read_round (λ d'. read_from fuel f (pos + chunk pos end) end d') (chunk pos end)
          (end - (pos + chunk pos end)) (pos % blksize) (file_get_block f (pos / blksize) d)
          (λ d'. read_from-HasLength fuel f (pos + chunk pos end) end d' (ground arith))))
]

file_read-HasLength :
    (f : FilePtr) (count offset : ℕ) (d : Disk)
    → HasLength (min count (f_size d f - offset)) (file_read f count offset d)
unfolding file_read
file_read-HasLength f count offset d = elim (Bool-cases (leb (f_size d f) offset)) [
  | inl past ↦ rw past (λ xs d' e. ap length (sym (inj_read e)) ∙ ground arith)
  | inr here ↦
      let n = min count (f_size d f - offset) in
      let all : offset + n - offset ≡ n = omega arith in
      rw here (HasLength-cast all (read_from-HasLength n f offset (offset + n) d (omega arith)))
]

-- A read that succeeds returns as many bytes as were asked for, or as many as are left in the file.
pub length-file_read :
    (f : FilePtr) (count offset : ℕ) (d d' : Disk) (xs : List ℕ)
    → file_read f count offset d ≡ some (ok xs, d')
    → length xs ≡ min count (f_size d f - offset)
length-file_read f count offset d d' xs e = file_read-HasLength f count offset d xs d' e

-- What a read returns are bytes.
data IsRead : Option (Result (List ℕ) × Disk) → Type 0 where
  panicked : IsRead none
  failed : (e : Error) (d : Disk) → IsRead (some (err e, d))
  all_bytes : (xs : List ℕ) (d : Disk) → AreBytes xs → IsRead (some (ok xs, d))

All-append : (xs ys : List ℕ) → AreBytes xs → AreBytes ys → AreBytes (xs ++ ys)
All-append [] ys h g = g
All-append (x ∷ xs) ys h g = (h.0, All-append xs ys h.1 g)

read_bytes-All : (n b i : ℕ) (d : Disk) → AreBytes (read_bytes n b i d)
unfolding read_bytes
read_bytes-All zero b i d = tt
read_bytes-All (suc n) b i d = (omega arith, read_bytes-All n b (i + 1) d)

prepend-IsRead :
    (xs : List ℕ) {r : Option (Result (List ℕ) × Disk)}
    → AreBytes xs
    → IsRead r
    → IsRead (prepend xs r)
prepend-IsRead xs h panicked = panicked
prepend-IsRead xs h (failed e d) = failed e d
prepend-IsRead xs h (all_bytes ys d g) = all_bytes (xs ++ ys) d (All-append xs ys h g)

read_round-IsRead :
    (go_on : Disk → Option (Result (List ℕ) × Disk)) (n off : ℕ) (r : Option (Result ℕ × Disk))
    → ((d : Disk) → IsRead (go_on d))
    → IsRead (read_round go_on n off r)
unfolding read_round
read_round-IsRead go_on n off none h = panicked
read_round-IsRead go_on n off (some (err e, d)) h = failed e d
read_round-IsRead go_on n off (some (ok b, d)) h =
    prepend-IsRead (read_bytes n b off d) (read_bytes-All n b off d) (h d)

read_from-IsRead :
    (fuel : ℕ) (f : FilePtr) (pos end : ℕ) (d : Disk) → IsRead (read_from fuel f pos end d)
unfolding read_from
read_from-IsRead zero f pos end d = all_bytes [] d tt
read_from-IsRead (suc fuel) f pos end d = elim (Bool-cases (leb end pos)) [
  | inl e ↦ rw e (all_bytes [] d tt)
  | inr e ↦ rw e (
      read_round-IsRead (λ d'. read_from fuel f (pos + chunk pos end) end d') (chunk pos end)
        (pos % blksize) (file_get_block f (pos / blksize) d)
        (λ d'. read_from-IsRead fuel f (pos + chunk pos end) end d'))
]

file_read-IsRead : (f : FilePtr) (count offset : ℕ) (d : Disk) → IsRead (file_read f count offset d)
unfolding file_read
file_read-IsRead f count offset d = elim (Bool-cases (leb (f_size d f) offset)) [
  | inl e ↦ rw e (all_bytes [] d tt)
  | inr e ↦
      let n = min count (f_size d f - offset) in rw e (read_from-IsRead n f offset (offset + n) d)
]

bytes_read :
    {r : Option (Result (List ℕ) × Disk)} (xs : List ℕ) (d : Disk)
    → IsRead r
    → r ≡ some (ok xs, d)
    → AreBytes xs
bytes_read xs d panicked e = absurd (cc e)
bytes_read xs d (failed c d') e = absurd (cc e)
bytes_read xs d (all_bytes ys d' h) e = let same : ys ≡ xs = cc e in rw (← same) h

pub file_read-All :
    (f : FilePtr) (count offset : ℕ) (d d' : Disk) (xs : List ℕ)
    → file_read f count offset d ≡ some (ok xs, d')
    → AreBytes xs
file_read-All f count offset d d' xs e = bytes_read xs d' (file_read-IsRead f count offset d) e
