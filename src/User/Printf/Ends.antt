-- ===== src/User/Printf/Ends.antt =====
-- The loops of `vprintfmt`, oslab6/lib/printfmt.c, end with the format.
use operating_systems_lab.Base.{
  ℕ, zero, suc, ◌+◌, ◌-◌, ◌*◌, ◌≤◌, ◌==◌, ◌≡◌, refl, ap, arith, length,
}
use operating_systems_lab.Base.{List, [], ◌∷◌, ◌++◌, if◌then◌else◌}
use operating_systems_lab.User.Format.{
  Flags, Directive, Kind, kind, number, switch, reswitch, no_flags,
}
use operating_systems_lab.User.Printf.{convert, vprintfmt_from, vprintfmt}

length-number : (n : ℕ) (cs : List ℕ) → length (number n cs).1 ≤ length cs
unfolding number
length-number n [] = omega arith
length-number n (c ∷ cs) = ground (arith, length-number (n * 10 + (c - b'0')) cs)

-- What is left after `cs`.
Shorter : List ℕ → (Flags → List ℕ → ℕ → Directive) → Type 0
Shorter cs go =
    (fl : Flags) (xs : List ℕ) (ap : ℕ)
    → length xs ≤ length cs
    → length (go fl xs ap).rest ≤ length cs

switch-Shorter :
    (go : Flags → List ℕ → ℕ → Directive) (args : ℕ → ℕ) (fl : Flags) (c : ℕ) (cs : List ℕ) (ap : ℕ)
    (k : Kind)
    → Shorter cs go
    → length (switch go args fl c cs ap k).rest ≤ length cs
unfolding switch Shorter
switch-Shorter go args fl c cs ap Kind.pad_right h = h _ cs _ (omega arith)
switch-Shorter go args fl c cs ap Kind.pad_zero h = h _ cs _ (omega arith)
switch-Shorter go args fl c cs ap Kind.field h =
    h _ (number (c - b'0') cs).1 _ (length-number (c - b'0') cs)
switch-Shorter go args fl c cs ap Kind.star h = h _ cs _ (omega arith)
switch-Shorter go args fl c cs ap Kind.point h = h _ cs _ (omega arith)
switch-Shorter go args fl c cs ap Kind.alternate h = h _ cs _ (omega arith)
switch-Shorter go args fl c cs ap Kind.long h = h _ cs _ (omega arith)
switch-Shorter go args fl c cs ap Kind.conversion h = omega arith

reswitch-shorter :
    (fuel : ℕ) (args : ℕ → ℕ) (fl : Flags) (cs : List ℕ) (ap : ℕ)
    → length (reswitch fuel args fl cs ap).rest ≤ length cs
unfolding reswitch Shorter
reswitch-shorter zero args fl [] ap = omega arith
reswitch-shorter (suc fuel) args fl [] ap = omega arith
reswitch-shorter zero args fl (c ∷ cs) ap = omega arith
reswitch-shorter (suc fuel) args fl (c ∷ cs) ap =
    let go = reswitch-shorter fuel args in
    omega (
      arith,
      switch-Shorter (λ fl' xs at. reswitch fuel args fl' xs at) args fl c cs ap (kind c)
          (λ fl' xs at h. omega (arith, go fl' xs at)),
    )

-- Two ways to go on that agree on what is not longer than `cs`.
Agree : List ℕ → (Flags → List ℕ → ℕ → Directive) → (Flags → List ℕ → ℕ → Directive) → Type 0
Agree cs go go' =
    (fl : Flags) (xs : List ℕ) (ap : ℕ) → length xs ≤ length cs → go fl xs ap ≡ go' fl xs ap

switch-Agree :
    (go go' : Flags → List ℕ → ℕ → Directive) (args : ℕ → ℕ) (fl : Flags) (c : ℕ) (cs : List ℕ)
    (ap : ℕ) (k : Kind)
    → Agree cs go go'
    → switch go args fl c cs ap k ≡ switch go' args fl c cs ap k
unfolding switch Agree
switch-Agree go go' args fl c cs ap Kind.pad_right h = h _ cs _ (omega arith)
switch-Agree go go' args fl c cs ap Kind.pad_zero h = h _ cs _ (omega arith)
switch-Agree go go' args fl c cs ap Kind.field h =
    h _ (number (c - b'0') cs).1 _ (length-number (c - b'0') cs)
switch-Agree go go' args fl c cs ap Kind.star h = h _ cs _ (omega arith)
switch-Agree go go' args fl c cs ap Kind.point h = h _ cs _ (omega arith)
switch-Agree go go' args fl c cs ap Kind.alternate h = h _ cs _ (omega arith)
switch-Agree go go' args fl c cs ap Kind.long h = h _ cs _ (omega arith)
switch-Agree go go' args fl c cs ap Kind.conversion h = refl

-- With as many rounds as the format has characters, more rounds change nothing of a directive.
pub reswitch-enough :
    (n m : ℕ) (args : ℕ → ℕ) (fl : Flags) (cs : List ℕ) (ap : ℕ)
    → length cs ≤ n
    → length cs ≤ m
    → reswitch n args fl cs ap ≡ reswitch m args fl cs ap
unfolding reswitch Agree
reswitch-enough zero zero args fl cs ap h k = refl
reswitch-enough zero (suc m) args fl [] ap h k = refl
reswitch-enough (suc n) zero args fl [] ap h k = refl
reswitch-enough (suc n) (suc m) args fl [] ap h k = refl
reswitch-enough zero (suc m) args fl (c ∷ cs) ap h k = absurd (omega arith)
reswitch-enough (suc n) zero args fl (c ∷ cs) ap h k = absurd (omega arith)
reswitch-enough (suc n) (suc m) args fl (c ∷ cs) ap h k =
    switch-Agree _ _ args fl c cs ap (kind c)
      (λ fl' xs ap' lt. reswitch-enough n m args fl' xs ap' (omega arith) (omega arith))

convert-shorter :
    (args : ℕ → ℕ) (text : ℕ → List ℕ) (start : List ℕ) (d : Directive)
    → length d.rest ≤ length start
    → length (convert args text start d).1 ≤ length start
unfolding convert
convert-shorter args text start d h = ground arith

from_enough :
    (n m : ℕ) (args : ℕ → ℕ) (text : ℕ → List ℕ) (fmt : List ℕ) (ap : ℕ)
    → length fmt ≤ n
    → length fmt ≤ m
    → vprintfmt_from n args text fmt ap ≡ vprintfmt_from m args text fmt ap
unfolding vprintfmt_from
from_enough zero zero args text fmt ap h k = refl
from_enough zero (suc m) args text [] ap h k = refl
from_enough (suc n) zero args text [] ap h k = refl
from_enough (suc n) (suc m) args text [] ap h k = refl
from_enough zero (suc m) args text (c ∷ cs) ap h k = absurd (omega arith)
from_enough (suc n) zero args text (c ∷ cs) ap h k = absurd (omega arith)
from_enough (suc n) (suc m) args text (c ∷ cs) ap h k =
    let d = reswitch (length cs) args no_flags cs ap in
    let p = convert args text cs d in
    let shorter =
      convert-shorter args text cs d (reswitch-shorter (length cs) args no_flags cs ap) in
    let ih = from_enough n m args text cs ap (omega arith) (omega arith) in
    let ih' = from_enough n m args text p.1 p.2 (omega arith) (omega arith) in
    λ i. if c == b'%' then p.0 ++ ih' i else (c ∷ ih i)

-- The loop of `vprintfmt` ends with the format: from as many rounds as the format has characters
-- on, more rounds change nothing of what is printed.
pub vprintfmt-enough :
    (n : ℕ) (args : ℕ → ℕ) (text : ℕ → List ℕ) (fmt : List ℕ)
    → length fmt ≤ n
    → vprintfmt_from n args text fmt 0 ≡ vprintfmt args text fmt
unfolding vprintfmt
vprintfmt-enough n args text fmt h = from_enough n (length fmt) args text fmt 0 h (omega arith)
