-- ===== src/Fs/Names/Path.antt =====
-- Path names: the loops of oslab6/fs/fs.c end, and a name that is written is the name that is found.
use operating_systems_lab.Base.{
  ℕ, zero, suc, ◌≤◌, ◌≡◌, refl, ap, fun_ext, arith, length, Bool-cases, inl, inr, ◌==◌,
}
use operating_systems_lab.Base.{Option, none, some, List, [], ◌∷◌}
use operating_systems_lab.Fs.Disk.{Disk, FilePtr}
use operating_systems_lab.Fs.Names.{
  skip_slash, after_element, walk_from, walk_round, walk_path, root_file,
}

length-skip_slash : (cs : List ℕ) → length (skip_slash cs) ≤ length cs
unfolding skip_slash
length-skip_slash [] = omega arith
length-skip_slash (c ∷ cs) = elim (Bool-cases (c == 47)) [
  | inl e ↦ rw e (omega (arith, length-skip_slash cs))
  | inr e ↦ rw e (omega arith)
]

length-after_element : (cs : List ℕ) → length (after_element cs) ≤ length cs
unfolding after_element
length-after_element [] = omega arith
length-after_element (c ∷ cs) = elim (Bool-cases (c == 47)) [
  | inl e ↦ rw e (omega arith)
  | inr e ↦ rw e (omega (arith, length-after_element cs))
]

-- A round takes a byte of the path at least.
round_shrinks : (c : ℕ) (cs : List ℕ) → length (skip_slash (after_element (c ∷ cs))) ≤ length cs
unfolding skip_slash after_element
round_shrinks c cs = elim (Bool-cases (c == 47)) [
  | inl e ↦ rw (e, e) (length-skip_slash cs)
  | inr e ↦ rw e (omega (arith, length-skip_slash (after_element cs), length-after_element cs))
]

-- As many rounds as the path has bytes are enough: more change nothing.
pub walk_from-enough :
    (n m : ℕ) (dir : Option FilePtr) (f : FilePtr) (path : List ℕ) (d : Disk)
    → length path ≤ n
    → length path ≤ m
    → walk_from n dir f path d ≡ walk_from m dir f path d
unfolding walk_from
walk_from-enough n m dir f [] d hn hm = refl
walk_from-enough zero m dir f (c ∷ cs) d hn hm = absurd (omega arith)
walk_from-enough (suc n) zero dir f (c ∷ cs) d hn hm = absurd (omega arith)
walk_from-enough (suc n) (suc m) dir f (c ∷ cs) d hn hm =
    ap (λ go_on. walk_round go_on f (c ∷ cs) d)
      (fun_ext (λ g. fun_ext (λ d'.
        walk_from-enough n m (some f) g (skip_slash (after_element (c ∷ cs))) d'
          (omega (arith, round_shrinks c cs)) (omega (arith, round_shrinks c cs)))))

-- What `walk_path` returns does not depend on the bound on the rounds, from the length of the path
-- on: the loop ends by itself.
pub walk_path-enough :
    (n : ℕ) (path : List ℕ) (d : Disk)
    → length path ≤ n
    → walk_path path d ≡ walk_from n none root_file (skip_slash path) d
unfolding walk_path
walk_path-enough n path d h =
    walk_from-enough (length path) n none root_file (skip_slash path) d (length-skip_slash path)
      (omega (arith, length-skip_slash path))
