-- ===== src/Tests/CommandLine.antt =====
-- The reading of a line, and of a command line at the example of oslab6/inc/args.h.
use operating_systems_lab.Base.{ℕ, ◌≡◌, refl, update, some, List, [], ◌∷◌, ◌++◌}
use operating_systems_lab.User.Printf.{codes}
use operating_systems_lab.User.Args.{argstart}
use operating_systems_lab.User.Args.Flags.{Calls, ended, flags, operands, argstart-Calls}
use operating_systems_lab.User.Readline.{action, end_round, readline_from, readline}
use operating_systems_lab.User.Readline.Edits.{IsLine, typed, readline-IsLine}

-- `-rx -f -- -r duh`
abbrev line : List (List ℕ)
line = codes "-rx" ∷ codes "-f" ∷ codes "--" ∷ codes "-r" ∷ codes "duh" ∷ []

argstart-Calls_example :
    Calls (argstart (some line)) (codes "rxf") (ended (codes "-r" ∷ codes "duh" ∷ []))
unfolding flags operands
argstart-Calls_example = argstart-Calls line

-- A line that is typed with an erasure, and one that begins with DEL, which is kept.
erased : typed [] (codes "ab" ++ 8 ∷ codes "c" ++ 10 ∷ []) ≡ some (codes "ca", [])
unfolding typed
erased = refl

del_first : readline (127 ∷ 10 ∷ []) (λ i. 0) ≡ some (update (update (λ i. 0) 0 127) 1 0, [])
unfolding readline readline_from action end_round
del_first = refl

readline-IsLine_example :
    IsLine
      (λ i. 0)
      (typed [] (97 ∷ 8 ∷ 98 ∷ 13 ∷ 99 ∷ []))
      (readline (97 ∷ 8 ∷ 98 ∷ 13 ∷ 99 ∷ []) (λ i. 0))
readline-IsLine_example = readline-IsLine (97 ∷ 8 ∷ 98 ∷ 13 ∷ 99 ∷ []) (λ i. 0)
