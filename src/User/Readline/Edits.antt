-- ===== src/User/Readline/Edits.antt =====
-- The line that readline of oslab6/lib/readline.c returns, as edits of a text.
use operating_systems_lab.Base.{
  ℕ, ◌≡◌, refl, ap, ◌∙◌, arith, ltb, leb, update, if◌then◌else◌, true, false, ◌&&◌, Option, none,
  some, List, [], ◌∷◌, length, Bool-cases, inl, inr,
}
use operating_systems_lab.User.Readline.{
  Action, is_erase, is_enter, action, moved, filled, end_round, readline_from, readline,
}
use operating_systems_lab.User.Readline.Buffer.{Holding, put-Holding, erase-Holding, finish-Holding}

-- A key that is neither an erasure nor the end of the line is kept
-- if it is not a control character and there is room.
abbrev pub keep : List ℕ → ℕ → List ℕ
keep st c = if leb 32 c && ltb (length st) 1023 then c ∷ st else st

-- The text after a key, the newest character first.
abbrev pub pressed : List ℕ → ℕ → List ℕ
pressed [] c = keep [] c
pressed (x ∷ st) c = if is_erase c then st else keep (x ∷ st) c

-- The text at the end of the line, and the input that is left.
unfoldable pub typed : List ℕ → List ℕ → Option (List ℕ × List ℕ)
typed st [] = none
typed st (c ∷ cs) = let rest = typed (pressed st c) cs in if is_enter c then some (st, cs) else rest

-- A result that is as described: a failure, or the text with a null behind it.
pub data IsLine (old : ℕ → ℕ) : Option (List ℕ × List ℕ) → Option ((ℕ → ℕ) × List ℕ) → Type 0 where
  no_line : IsLine old none none
  line :
      {st cs : List ℕ} {i : ℕ} {buf : ℕ → ℕ}
      → Holding old st i buf
      → buf i ≡ 0
      → IsLine old (some (st, cs)) (some (buf, cs))

action-erase : (c i : ℕ) → (is_erase c && ltb 0 i) ≡ true → action c i ≡ Action.erase
unfolding action
action-erase c i h = rw h refl

action-put :
    (c i : ℕ)
    → (is_erase c && ltb 0 i) ≡ false
    → (leb 32 c && ltb i 1023) ≡ true
    → action c i ≡ Action.put
unfolding action
action-put c i h e = rw (h, e) refl

action-ignore :
    (c i : ℕ)
    → (is_erase c && ltb 0 i) ≡ false
    → (leb 32 c && ltb i 1023) ≡ false
    → is_enter c ≡ false
    → action c i ≡ Action.ignore
unfolding action
action-ignore c i h e f = rw (h, e, f) refl

action-finish : (c i : ℕ) → is_enter c ≡ true → action c i ≡ Action.finish
unfolding action
action-finish c i h =
    let no_erase : (is_erase c && ltb 0 i) ≡ false = ground arith in
    let no_put : (leb 32 c && ltb i 1023) ≡ false = ground arith in rw (no_erase, no_put, h) refl

module _ (old : ℕ → ℕ) where
  -- After a round that takes the branch `a`.
  abbrev After : List ℕ → ℕ → ℕ → (ℕ → ℕ) → Action → Type 0
  After st c i buf a = Holding old st (moved a i) (filled a c i buf)

  keep-Holding :
      (st : List ℕ) (c i : ℕ) (buf : ℕ → ℕ)
      → (is_erase c && ltb 0 i) ≡ false
      → is_enter c ≡ false
      → Holding old st i buf
      → After (keep st c) c i buf (action c i)
  keep-Holding st c i buf h f hold =
      let same : (leb 32 c && ltb i 1023) ≡ (leb 32 c && ltb (length st) 1023) =
        ap (λ n. leb 32 c && ltb n 1023) hold.at_end in
      elim (Bool-cases (leb 32 c && ltb (length st) 1023)) [
        | inl e ↦
            rw (e, action-put c i h (same ∙ e))
              (put-Holding old st c i buf (ground arith) (ground arith) hold)
        | inr e ↦ rw (e, action-ignore c i h (same ∙ e) f) hold
      ]

  press-Holding :
      (st : List ℕ) (c i : ℕ) (buf : ℕ → ℕ)
      → is_enter c ≡ false
      → Holding old st i buf
      → After (pressed st c) c i buf (action c i)
  press-Holding [] c i buf f hold =
      let e = hold.at_end in
      let at_start : (is_erase c && ltb 0 i) ≡ false = ground arith in
      keep-Holding [] c i buf at_start f hold
  press-Holding (x ∷ st) c i buf f hold =
      let e = hold.at_end in
      elim (Bool-cases (is_erase c)) [
        | inl h ↦
            let erases : (is_erase c && ltb 0 i) ≡ true = ground arith in
            rw (h, action-erase c i erases) (erase-Holding old x st i buf hold)
        | inr h ↦
            let keeps : (is_erase c && ltb 0 i) ≡ false = ap (λ b. b && ltb 0 i) h in
            rw h (keep-Holding (x ∷ st) c i buf keeps f hold)
      ]

goes_on :
    (c i : ℕ) (buf : ℕ → ℕ) (cs : List ℕ) (rest : Option ((ℕ → ℕ) × List ℕ))
    → is_enter c ≡ false
    → end_round (action c i) buf cs rest ≡ rest
unfolding end_round
goes_on c i buf cs rest f = elim (Bool-cases (is_erase c && ltb 0 i)) [
  | inl h ↦ rw (action-erase c i h) refl
  | inr h ↦ elim (Bool-cases (leb 32 c && ltb i 1023)) [
    | inl e ↦ rw (action-put c i h e) refl
    | inr e ↦ rw (action-ignore c i h e f) refl
  ]
]

ends :
    (c i : ℕ) (buf : ℕ → ℕ) (cs : List ℕ) (rest : Option ((ℕ → ℕ) × List ℕ))
    → is_enter c ≡ true
    → end_round (action c i) (filled (action c i) c i buf) cs rest ≡ some (update buf i 0, cs)
unfolding end_round
ends c i buf cs rest h = rw (action-finish c i h) refl

module _ (old : ℕ → ℕ) where
  line_from :
      (cs st : List ℕ) (i : ℕ) (buf : ℕ → ℕ)
      → Holding old st i buf
      → IsLine old (typed st cs) (readline_from cs i buf)
  unfolding typed readline_from
  line_from [] st i buf hold = no_line
  line_from (c ∷ cs) st i buf hold =
      let a = action c i in
      let buf' = filled a c i buf in
      let rest = readline_from cs (moved a i) buf' in
      elim (Bool-cases (is_enter c)) [
        | inl h ↦
            let null : update buf i 0 i ≡ 0 = ground arith in
            rw (h, ends c i buf cs rest h) (line (finish-Holding old st i buf hold) null)
        | inr f ↦
            rw (f, goes_on c i buf' cs rest f)
              (line_from cs (pressed st c) (moved a i) buf' (press-Holding old st c i buf f hold))
      ]

-- Up to the end of the line, `readline` does the edits that were typed: the buffer holds the text,
-- of at most 1023 characters from the space on, with a null behind it, and no byte behind the buffer
-- changes; it fails exactly where the input has no end of the line.
pub readline-IsLine : (cs : List ℕ) (buf : ℕ → ℕ) → IsLine buf (typed [] cs) (readline cs buf)
unfolding readline
readline-IsLine cs buf = line_from buf cs [] 0 buf (record {
  at_end = refl;
  chars = tt;
  fits = omega arith;
  printable = tt;
  behind = λ j le. refl;
})
