-- ===== src/User/Readline/Buffer.antt =====
-- What the buffer of oslab6/lib/readline.c holds while a line is typed.
use operating_systems_lab.Base.{
  ℕ, ◌+◌, ◌-◌, ◌<◌, ◌≤◌, ◌≡◌, ◌∙◌, arith, update, List, [], ◌∷◌, length, All,
}

-- The buffer holds the text, from its start on.
abbrev pub Holds : List ℕ → (ℕ → ℕ) → Type 0
Holds [] buf = Unit
Holds (x ∷ st) buf = (buf (length st) ≡ x) × Holds st buf

-- Index and buffer hold a text of characters from the space on that fits, and no byte behind the buffer
-- differs from the one in `old`.
pub record Holding (old : ℕ → ℕ) (st : List ℕ) (i : ℕ) (buf : ℕ → ℕ) : Type 0 where
  pub at_end : i ≡ length st
  pub chars : Holds st buf
  pub fits : length st ≤ 1023
  pub printable : All (λ c. 32 ≤ c) st
  pub behind : (j : ℕ) → 1024 ≤ j → buf j ≡ old j

Holds-update :
    (st : List ℕ) (i c : ℕ) (buf : ℕ → ℕ) → length st ≤ i → Holds st buf → Holds st (update buf i c)
Holds-update [] i c buf le h = tt
Holds-update (x ∷ st) i c buf le h =
    let other : update buf i c (length st) ≡ buf (length st) = ground arith in
    (other ∙ h.0, Holds-update st i c buf (omega arith) h.1)

module _ (old : ℕ → ℕ) where
  pub put-Holding :
      (st : List ℕ) (c i : ℕ) (buf : ℕ → ℕ)
      → 32 ≤ c
      → length st < 1023
      → Holding old st i buf
      → Holding old (c ∷ st) (i + 1) (update buf i c)
  put-Holding st c i buf ge lt h =
      let e = h.at_end in
      let here : update buf i c (length st) ≡ c = ground arith in
      record {
        at_end = omega arith;
        chars = (here, Holds-update st i c buf (omega arith) h.chars);
        fits = omega arith;
        printable = (ge, h.printable);
        behind =
            λ j le. let other : update buf i c j ≡ buf j = ground arith in other ∙ h.behind j le;
      }

  pub erase-Holding :
      (x : ℕ) (st : List ℕ) (i : ℕ) (buf : ℕ → ℕ)
      → Holding old (x ∷ st) i buf
      → Holding old st (i - 1) buf
  erase-Holding x st i buf h =
      let e = h.at_end in
      let f = h.fits in
      record {
        at_end = omega arith;
        chars = h.chars.1;
        fits = omega arith;
        printable = h.printable.1;
        behind = h.behind;
      }

  pub finish-Holding :
      (st : List ℕ) (i : ℕ) (buf : ℕ → ℕ) → Holding old st i buf → Holding old st i (update buf i 0)
  finish-Holding st i buf h =
      let e = h.at_end in
      let f = h.fits in
      record {
        at_end = e;
        chars = Holds-update st i 0 buf (omega arith) h.chars;
        fits = f;
        printable = h.printable;
        behind =
            λ j le. let other : update buf i 0 j ≡ buf j = ground arith in other ∙ h.behind j le;
      }
