-- ===== src/Base/Links.antt =====
-- Singly linked lists threaded through an array: `head` and a link for each index.
use Prim.Native.Nat.{ℕ}
use mathlib.Core.Path.{◌≡◌}
use mathlib.Core.Logic.{◌≢◌, ◌⊎◌}
use mathlib.Core.Option.{Option, none, some}
use mathlib.Core.List.{List, [], ◌∷◌}
use operating_systems_lab.Base.Lists.{All}

-- From `h` the links lead through `xs`, in order, to the null pointer.
abbrev pub Chain : (ℕ → Option ℕ) → Option ℕ → List ℕ → Type 0
Chain link h [] = h ≡ none
Chain link h (x ∷ xs) = (h ≡ some x) × Chain link (link x) xs

-- `i` is none of `xs`.
abbrev pub Fresh : ℕ → List ℕ → Type 0
Fresh i xs = All (λ x. i ≢ x) xs

-- No index occurs twice.
abbrev pub Distinct : List ℕ → Type 0
Distinct [] = Unit
Distinct (x ∷ xs) = Fresh x xs × Distinct xs

-- A chain survives a change of links outside it.
pub Chain-frame :
    (link link' : ℕ → Option ℕ) (h : Option ℕ) (xs : List ℕ)
    → Chain link h xs
    → All (λ x. link' x ≡ link x) xs
    → Chain link' h xs
Chain-frame link link' h [] c same = c
Chain-frame link link' h (x ∷ xs) c same =
    (c.0, rw (same.0) (Chain-frame link link' (link x) xs c.1 same.1))

-- `i` is one of `xs`.
abbrev pub Has : ℕ → List ℕ → Type 0
Has i [] = ⊥
Has i (x ∷ xs) = (i ≡ x) ⊎ Has i xs
