-- ===== src/User/Args/Flags.antt =====
-- What a program gets that calls argnext of oslab6/lib/args.c until it returns -1.
use operating_systems_lab.Base.{
  ℕ, ◌==◌, ◌≡◌, refl, ◌∙◌, if◌then◌else◌, none, some, List, [], ◌∷◌, ◌++◌, Bool, true, false, ◌&&◌,
  not, Bool-cases, inl, inr,
}
use operating_systems_lab.User.Args.{
  Argstate, argstart, argnext, next_flag, next_argument, after_shift,
}

-- An argument that is "--".
abbrev pub is_end : List ℕ → Bool
is_end [] = false
is_end (c ∷ []) = false
is_end (c ∷ d ∷ []) = (c == b'-') && (d == b'-')
is_end (c ∷ d ∷ e ∷ cs) = false

-- An argument that starts with a dash and is neither "-" nor "--".
abbrev pub is_group : List ℕ → Bool
is_group [] = false
is_group (c ∷ []) = false
is_group (c ∷ d ∷ cs) = (c == b'-') && not (is_end (c ∷ d ∷ cs))

abbrev pub without_dash : List ℕ → List ℕ
without_dash [] = []
without_dash (c ∷ cs) = cs

-- The flags of a command line, as oslab6/inc/args.h describes them.
unfoldable pub flags : List (List ℕ) → List ℕ
flags [] = []
flags (a ∷ more) = let rest = flags more in if is_group a then without_dash a ++ rest else []

-- The arguments that are not flags.
unfoldable pub operands : List (List ℕ) → List (List ℕ)
operands [] = []
operands (a ∷ more) =
    let rest = operands more in if is_group a then rest else if is_end a then more else a ∷ more

-- The calls of `argnext` from one state to another, the last of which returns -1, with the flags
-- that the others return.
pub data Calls : Argstate → List ℕ → Argstate → Type 0 where
  last_call : {s t : Argstate} → argnext s ≡ (none, t) → Calls s [] t
  one_call :
      {s t u : Argstate} {c : ℕ} {cs : List ℕ}
      → argnext s ≡ (some c, t)
      → Calls t cs u
      → Calls s (c ∷ cs) u

-- Within the argument of which `cs` is left, and at the end of the command line.
abbrev pub within : List ℕ → List (List ℕ) → Argstate
within cs more = record { args = more; curarg = some cs; argvalue = none }

abbrev pub ended : List (List ℕ) → Argstate
ended more = record { args = more; curarg = none; argvalue = none }

group-Calls :
    (cs : List ℕ) (more : List (List ℕ)) {fs : List ℕ} {u : Argstate}
    → Calls (within [] more) fs u
    → Calls (within cs more) (cs ++ fs) u
unfolding argnext next_flag
group-Calls [] more h = h
group-Calls (c ∷ cs) more h = one_call refl (group-Calls cs more h)

-- `argnext` at the end of an argument.
at_next : (more : List (List ℕ)) → argnext (within [] more) ≡ next_argument more (within [] more)
unfolding argnext next_flag
at_next more = refl

dash_dash :
    (c d : ℕ) (more : List (List ℕ))
    → (c == b'-') ≡ true
    → (d == b'-') ≡ true
    → next_argument ((c ∷ d ∷ []) ∷ more) (within [] ((c ∷ d ∷ []) ∷ more)) ≡ (none, ended more)
unfolding next_argument after_shift
dash_dash c d more e h = rw (e, h) refl

one_flag :
    (c d : ℕ) (more : List (List ℕ))
    → (c == b'-') ≡ true
    → (d == b'-') ≡ false
    → next_argument ((c ∷ d ∷ []) ∷ more) (within [] ((c ∷ d ∷ []) ∷ more))
      ≡ (some d, within [] more)
unfolding next_argument after_shift
one_flag c d more e h = rw (e, h) refl

more_flags :
    (c d e : ℕ) (cs : List ℕ) (more : List (List ℕ))
    → (c == b'-') ≡ true
    → next_argument ((c ∷ d ∷ e ∷ cs) ∷ more) (within [] ((c ∷ d ∷ e ∷ cs) ∷ more))
      ≡ (some d, within (e ∷ cs) more)
unfolding next_argument after_shift
more_flags c d e cs more h = rw h refl

no_dash :
    (c d : ℕ) (cs : List ℕ) (more : List (List ℕ))
    → (c == b'-') ≡ false
    → next_argument ((c ∷ d ∷ cs) ∷ more) (within [] ((c ∷ d ∷ cs) ∷ more))
      ≡ (none, ended ((c ∷ d ∷ cs) ∷ more))
unfolding next_argument
no_dash c d cs more h = rw h refl

line-Calls : (more : List (List ℕ)) → Calls (within [] more) (flags more) (ended (operands more))
unfolding flags operands next_argument
line-Calls [] = last_call (at_next [])
line-Calls ([] ∷ more) = last_call (at_next ([] ∷ more))
line-Calls ((c ∷ []) ∷ more) = last_call (at_next ((c ∷ []) ∷ more))
line-Calls ((c ∷ d ∷ []) ∷ more) =
    let ih = line-Calls more in
    elim (Bool-cases (c == b'-')) [
      | inr e ↦ rw e (last_call (at_next _ ∙ no_dash c d [] more e))
      | inl e ↦ elim (Bool-cases (d == b'-')) [
        | inl h ↦ rw (e, h) (last_call (at_next _ ∙ dash_dash c d more e h))
        | inr h ↦ rw (e, h) (one_call (at_next _ ∙ one_flag c d more e h) ih)
      ]
    ]
line-Calls ((c ∷ d ∷ e ∷ cs) ∷ more) =
    let ih = line-Calls more in
    elim (Bool-cases (c == b'-')) [
      | inr h ↦ rw h (last_call (at_next _ ∙ no_dash c d (e ∷ cs) more h))
      | inl h ↦
          rw h (one_call (at_next _ ∙ more_flags c d e cs more h) (group-Calls (e ∷ cs) more ih))
    ]

-- From `argstart` on, `argnext` returns the flags of the command line one after the other and then
-- -1, and leaves the arguments that are not flags.
pub argstart-Calls :
    (more : List (List ℕ)) → Calls (argstart (some more)) (flags more) (ended (operands more))
unfolding argstart argnext next_flag flags operands
argstart-Calls [] = last_call refl
argstart-Calls (a ∷ more) = line-Calls (a ∷ more)
