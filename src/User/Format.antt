-- ===== src/User/Format.antt =====
-- Formatted printing, oslab6/lib/printfmt.c, which the kernel uses too. What is given to `putch` is
-- a list of characters, and a string is the list of its bytes before the null. `args i` is word `i`
-- of the variable arguments, and `text p` the string at address `p`. A width or a precision is
-- `none` if it is negative; the others are below 2 ^ 31.
pub mod Digits
pub mod RoundTrip
use operating_systems_lab.Base.{
  ℕ, zero, suc, ◌+◌, ◌-◌, ◌*◌, ◌/◌, ◌%◌, ◌^◌, ◌==◌, leb, ltb, length, take, replicate, min,
}
use operating_systems_lab.Base.{
  Bool, true, false, not, ◌&&◌, ◌||◌, Option, none, some, if◌then◌else◌, List, [], ◌∷◌, ◌++◌, map,
}

-- `"0123456789abcdef"[d]`
abbrev pub digit : ℕ → ℕ
digit d = if ltb d 10 then b'0' + d else b'a' + (d - 10)

-- `printnum`, which calls itself once for each digit but the last. The loop on `width` stops at once
-- for a width that is not positive.
unfoldable pub printnum : ℕ → ℕ → ℕ → ℕ → ℕ → List ℕ
printnum zero num base width padc = replicate (width - 1) padc ++ digit (num % base) ∷ []
printnum (suc fuel) num base width padc =
    let front = printnum fuel (num / base) base (width - 1) padc in
    (if leb base num then front else replicate (width - 1) padc) ++ digit (num % base) ∷ []

-- The calls of `printnum` for a number of 64 bits in a base from 2 on.
abbrev pub most_digits : ℕ
most_digits = 64

-- What the flags of a directive set; `padc` is '-' to pad on the right.
pub record Flags : Type 0 where
  pub padc : ℕ
  pub width : Option ℕ
  pub precision : Option ℕ
  pub lflag : ℕ
  pub altflag : Bool

abbrev pub no_flags : Flags
no_flags = record { padc = b' '; width = none; precision = none; lflag = 0; altflag = false }

-- `(int) v`, as a width or a precision.
abbrev pub not_negative : ℕ → Option ℕ
not_negative v = if ltb v (2 ^ 31) then some v else none

-- The loop on the digits of a field.
unfoldable pub number : ℕ → List ℕ → ℕ × List ℕ
number n [] = (n, [])
number n (c ∷ cs) =
    let rest = number (n * 10 + (c - b'0')) cs in
    if leb b'0' c && leb c b'9' then rest else (n, c ∷ cs)

-- `process_precision`, with the field read.
abbrev pub process_precision : Option ℕ → Option ℕ → Flags → Flags
process_precision none field fl = record fl { width = field; precision = none }
process_precision (some w) field fl = record fl { precision = field }

abbrev pub dot : Option ℕ → Flags → Flags
dot none fl = record fl { width = some 0 }
dot (some w) fl = fl

-- What a character is after a `%` and flags.
pub data Kind : Type 0 where
  pad_right : Kind
  pad_zero : Kind
  field : Kind
  star : Kind
  point : Kind
  alternate : Kind
  long : Kind
  conversion : Kind

unfoldable pub kind : ℕ → Kind
kind c =
    if c == b'-'
    then Kind.pad_right
    else if c == b'0'
    then Kind.pad_zero
    else if leb b'1' c && leb c b'9'
    then Kind.field
    else if c == b'*'
    then Kind.star
    else if c == b'.'
    then Kind.point
    else if c == b'#'
    then Kind.alternate
    else if c == b'l'
    then Kind.long
    else Kind.conversion

-- A directive: its flags, its conversion, which is 0 at the end of the format, the format after it
-- and the place of the next argument.
pub record Directive : Type 0 where
  pub flags : Flags
  pub conv : ℕ
  pub rest : List ℕ
  pub ap : ℕ

-- A round of `reswitch` at the character `c`; `go_on` is the rest of the loop.
unfoldable pub switch :
    (Flags → List ℕ → ℕ → Directive) → (ℕ → ℕ) → Flags → ℕ → List ℕ → ℕ → Kind → Directive
switch go_on args fl c cs ap Kind.pad_right = go_on (record fl { padc = b'-' }) cs ap
switch go_on args fl c cs ap Kind.pad_zero = go_on (record fl { padc = b'0' }) cs ap
switch go_on args fl c cs ap Kind.field =
    let (n, cs') = number (c - b'0') cs in go_on (process_precision fl.width (some n) fl) cs' ap
switch go_on args fl c cs ap Kind.star =
    go_on (process_precision fl.width (not_negative (args ap)) fl) cs (ap + 1)
switch go_on args fl c cs ap Kind.point = go_on (dot fl.width fl) cs ap
switch go_on args fl c cs ap Kind.alternate = go_on (record fl { altflag = true }) cs ap
switch go_on args fl c cs ap Kind.long = go_on (record fl { lflag = fl.lflag + 1 }) cs ap
switch go_on args fl c cs ap Kind.conversion = record { flags = fl; conv = c; rest = cs; ap = ap }

-- `reswitch`; a round takes a character of the format at least.
unfoldable pub reswitch : ℕ → (ℕ → ℕ) → Flags → List ℕ → ℕ → Directive
reswitch fuel args fl [] ap = record { flags = fl; conv = 0; rest = []; ap = ap }
reswitch zero args fl (c ∷ cs) ap = record { flags = fl; conv = c; rest = cs; ap = ap }
reswitch (suc fuel) args fl (c ∷ cs) ap =
    switch (λ fl' cs' ap'. reswitch fuel args fl' cs' ap') args fl c cs ap (kind c)

-- A positive width; the loops treat others as 0.
abbrev pub columns : Option ℕ → ℕ
columns none = 0
columns (some w) = w

-- `getuint`: the value and the place of the next argument. A `long` has 32 bits.
unfoldable pub getuint : (ℕ → ℕ) → ℕ → ℕ → ℕ × ℕ
getuint args ap lflag =
    if leb 2 lflag then (args ap + 2 ^ 32 * args (ap + 1), ap + 2) else (args ap, ap + 1)

-- `getint`: the sign, the absolute value and the place of the next argument.
unfoldable pub getint : (ℕ → ℕ) → ℕ → ℕ → Bool × ℕ × ℕ
getint args ap lflag =
    let wide = args ap + 2 ^ 32 * args (ap + 1) in
    if leb 2 lflag
    then (if leb (2 ^ 63) wide then (true, 2 ^ 64 - wide, ap + 2) else (false, wide, ap + 2))
    else if leb (2 ^ 31) (args ap)
    then (true, 2 ^ 32 - args ap, ap + 1)
    else (false, args ap, ap + 1)

-- A character of a string.
abbrev pub shown : Bool → ℕ → ℕ
shown alt c = if alt && (ltb c b' ' || ltb b'~' c) then b'?' else c

abbrev pub cut : Option ℕ → List ℕ → List ℕ
cut none xs = xs
cut (some n) xs = take n xs

-- `case 's'` with the string `xs`: pad characters in front unless `padc` is '-', else spaces behind.
unfoldable pub print_string : Flags → List ℕ → List ℕ
print_string fl xs =
    let ys = cut fl.precision xs in
    let n = columns fl.width - length ys in
    let chars = map (shown fl.altflag) ys in
    if fl.padc == b'-' then chars ++ replicate n b' ' else replicate n fl.padc ++ chars

unfoldable pub print_number : Flags → ℕ → ℕ → List ℕ
print_number fl num base = printnum most_digits num base (columns fl.width) fl.padc
