-- ===== src/User/Args.antt =====
-- The reading of command lines, oslab6/lib/args.c. A string is the list of its characters before
-- the null, and `args` are the arguments from argv[1] on, so that argc is one more than its length.
pub mod Flags
use operating_systems_lab.Base.{ℕ, ◌==◌, if◌then◌else◌, Option, none, some, List, [], ◌∷◌}

pub record Argstate : Type 0 where
  pub args : List (List ℕ)
  pub curarg : Option (List ℕ)
  pub argvalue : Option (List ℕ)

-- `argv` may be a null pointer.
unfoldable pub argstart : Option (List (List ℕ)) → Argstate
argstart none = record { args = []; curarg = none; argvalue = none }
argstart (some []) = record { args = []; curarg = none; argvalue = none }
argstart (some (a ∷ more)) = record { args = a ∷ more; curarg = some []; argvalue = none }

-- `endofargs`; none is -1.
abbrev pub end_of_args : Argstate → Option ℕ × Argstate
end_of_args s = (none, record s { curarg = none })

-- After the shift, with `d ∷ cs` as the current argument.
unfoldable pub after_shift : ℕ → List ℕ → Argstate → Option ℕ × Argstate
after_shift d [] s = if d == b'-' then end_of_args s else (some d, record s { curarg = some [] })
after_shift d (e ∷ cs) s = (some d, record s { curarg = some (e ∷ cs) })

-- The next argument, if it is a group of flags.
unfoldable pub next_argument : List (List ℕ) → Argstate → Option ℕ × Argstate
next_argument [] s = end_of_args s
next_argument ([] ∷ more) s = end_of_args s
next_argument ((c ∷ []) ∷ more) s = end_of_args s
next_argument ((c ∷ d ∷ cs) ∷ more) s =
    if c == b'-' then after_shift d cs (record s { args = more }) else end_of_args s

unfoldable pub next_flag : Option (List ℕ) → Argstate → Option ℕ × Argstate
next_flag none s = (none, s)
next_flag (some []) s = next_argument s.args s
next_flag (some (c ∷ cs)) s = (some c, record s { curarg = some cs })

unfoldable pub argnext : Argstate → Option ℕ × Argstate
argnext s = next_flag s.curarg (record s { argvalue = none })

-- The value is the next argument, if there is one.
unfoldable pub value_argument : List (List ℕ) → Argstate → Option (List ℕ) × Argstate
value_argument [] s = (none, record s { curarg = none; argvalue = none })
value_argument (a ∷ more) s = (some a, record s { args = more; argvalue = some a })

unfoldable pub value_from : Option (List ℕ) → Argstate → Option (List ℕ) × Argstate
value_from none s = (none, s)
value_from (some []) s = value_argument s.args s
value_from (some (c ∷ cs)) s =
    (some (c ∷ cs), record s { curarg = some []; argvalue = some (c ∷ cs) })

unfoldable pub argnextvalue : Argstate → Option (List ℕ) × Argstate
argnextvalue s = value_from s.curarg s

unfoldable pub value_or_next : Option (List ℕ) → Argstate → Option (List ℕ) × Argstate
value_or_next none s = argnextvalue s
value_or_next (some v) s = (some v, s)

unfoldable pub get_argvalue : Argstate → Option (List ℕ) × Argstate
get_argvalue s = value_or_next s.argvalue s
