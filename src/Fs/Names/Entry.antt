-- ===== src/Fs/Names/Entry.antt =====
-- The name in a directory entry: the name that `file_create` writes is the one that `dir_lookup`
-- compares with.
use operating_systems_lab.Base.{ℕ, ◌+◌, ◌*◌, ◌<◌, ◌==◌, ◌≡◌, ◌↔◌, refl, ap, arith, ◌∙◌, All}
use operating_systems_lab.Base.{Bool, true, ◌&&◌, List, [], ◌∷◌}
use operating_systems_lab.Fs.Disk.{Disk, FilePtr}
use operating_systems_lab.Fs.Names.{name_byte, same_name, copy_name, set_byte}
use operating_systems_lab.Fs.Names.Bytes.{byte-set_byte_self, byte-set_byte_other}

-- The bytes of a string: none of them is the null.
abbrev pub IsName : List ℕ → Type 0
IsName cs = All (λ c. (0 < c) × (c < 256)) cs

copy_name-before :
    (f : FilePtr) (i j : ℕ) (cs : List ℕ) (d : Disk)
    → IsName cs
    → j < i
    → name_byte (copy_name f i cs d) f j ≡ name_byte d f j
unfolding copy_name
copy_name-before f i j [] d h lt =
    byte-set_byte_other f.block (f.base * 4 + i) (f.base * 4 + j) 0 d (omega arith)
      (λ e. absurd (omega arith))
copy_name-before f i j (c ∷ cs) d h lt =
    copy_name-before f (i + 1) j cs (set_byte f.block (f.base * 4 + i) c d) h.1 (omega arith)
    ∙ byte-set_byte_other f.block (f.base * 4 + i) (f.base * 4 + j) c d h.0.1
        (λ e. absurd (omega arith))

copy_name-head :
    (f : FilePtr) (i c : ℕ) (cs : List ℕ) (d : Disk)
    → IsName (c ∷ cs)
    → name_byte (copy_name f i (c ∷ cs) d) f i ≡ c
unfolding copy_name
copy_name-head f i c cs d h =
    copy_name-before f (i + 1) i cs (set_byte f.block (f.base * 4 + i) c d) h.1 (omega arith)
    ∙ byte-set_byte_self f.block (f.base * 4 + i) c d h.0.1

copy_name-end : (f : FilePtr) (i : ℕ) (d : Disk) → name_byte (copy_name f i [] d) f i ≡ 0
unfolding copy_name
copy_name-end f i d = byte-set_byte_self f.block (f.base * 4 + i) 0 d (omega arith)

cons_both :
    (b : Bool) (n x y : ℕ) (xs ys : List ℕ)
    → n ≡ x
    → (b ≡ true) ↔ (xs ≡ ys)
    → (((n == y) && b) ≡ true) ↔ (◌≡◌ {A = List ℕ} (x ∷ xs) (y ∷ ys))
cons_both b n x y xs ys e h = (
  λ t.
      let p : x ≡ y = ground arith in
      let q : b ≡ true = ground arith in ap (λ z. z ∷ xs) p ∙ ap (λ zs. y ∷ zs) (h.0 q),
  λ t. let p : x ≡ y = cc t in let q : xs ≡ ys = cc t in let r : b ≡ true = h.1 q in ground arith,
)

-- The name in an entry compares equal to a name exactly when it was written as that name.
pub same_name-copy_name :
    (f : FilePtr) (i : ℕ) (xs ys : List ℕ) (d : Disk)
    → IsName xs
    → IsName ys
    → (same_name (copy_name f i xs d) f i ys ≡ true) ↔ (xs ≡ ys)
unfolding same_name copy_name
same_name-copy_name f i [] [] d hx hy = ((λ e. refl), λ e. rw (copy_name-end f i d))
same_name-copy_name f i [] (y ∷ ys) d hx hy =
    ((λ e. absurd (ground (arith, copy_name-end f i d, hy.0.0))), λ e. absurd (cc e))
same_name-copy_name f i (x ∷ xs) [] d hx hy =
    ((λ e. absurd (ground (arith, copy_name-head f i x xs d hx, hx.0.0))), λ e. absurd (cc e))
same_name-copy_name f i (x ∷ xs) (y ∷ ys) d hx hy =
    cons_both (same_name (copy_name f i (x ∷ xs) d) f (i + 1) ys)
      (name_byte (copy_name f i (x ∷ xs) d) f i) x y xs ys (copy_name-head f i x xs d hx)
      (same_name-copy_name f (i + 1) xs ys (set_byte f.block (f.base * 4 + i) x d) hx.1 hy.1)
