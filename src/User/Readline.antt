-- ===== src/User/Readline.antt =====
-- The reading of a line, oslab6/lib/readline.c. The input is the list of characters that `getchar`
-- returns, and at its end `getchar` fails. The echo of the characters is left out.
pub mod Buffer
pub mod Edits
use operating_systems_lab.Base.{
  ℕ, ◌+◌, ◌-◌, ◌==◌, ltb, leb, update, if◌then◌else◌, Bool, true, false, ◌&&◌, ◌||◌, Option, none,
  some, List, [], ◌∷◌,
}

-- `BUFLEN`
abbrev pub buflen : ℕ
buflen = 1024

-- The branches of the loop; the last is none of them.
pub data Action : Type 0 where
  erase : Action
  put : Action
  finish : Action
  ignore : Action

abbrev pub is_erase : ℕ → Bool
is_erase c = (c == 8) || (c == 127)

abbrev pub is_enter : ℕ → Bool
is_enter c = (c == 10) || (c == 13)

unfoldable pub action : ℕ → ℕ → Action
action c i =
    if is_erase c && ltb 0 i
    then Action.erase
    else if leb 32 c && ltb i (buflen - 1)
    then Action.put
    else if is_enter c
    then Action.finish
    else Action.ignore

-- The index and the buffer after a round.
abbrev pub moved : Action → ℕ → ℕ
moved Action.erase i = i - 1
moved Action.put i = i + 1
moved Action.finish i = i
moved Action.ignore i = i

abbrev pub filled : Action → ℕ → ℕ → (ℕ → ℕ) → ℕ → ℕ
filled Action.erase c i buf = buf
filled Action.put c i buf = update buf i c
filled Action.finish c i buf = update buf i 0
filled Action.ignore c i buf = buf

-- The end of a round: the buffer with the input that is left, or the rest of the loop.
unfoldable pub end_round :
    Action → (ℕ → ℕ) → List ℕ → Option ((ℕ → ℕ) × List ℕ) → Option ((ℕ → ℕ) × List ℕ)
end_round Action.finish buf cs rest = some (buf, cs)
end_round Action.erase buf cs rest = rest
end_round Action.put buf cs rest = rest
end_round Action.ignore buf cs rest = rest

unfoldable pub readline_from : List ℕ → ℕ → (ℕ → ℕ) → Option ((ℕ → ℕ) × List ℕ)
readline_from [] i buf = none
readline_from (c ∷ cs) i buf =
    let a = action c i in
    let buf' = filled a c i buf in
    let rest = readline_from cs (moved a i) buf' in end_round a buf' cs rest

unfoldable pub readline : List ℕ → (ℕ → ℕ) → Option ((ℕ → ℕ) × List ℕ)
readline cs buf = readline_from cs 0 buf
