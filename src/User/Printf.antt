-- ===== src/User/Printf.antt =====
-- `vprintfmt` and `vsnprintf` of oslab6/lib/printfmt.c, over the parts of User/Format.antt.
pub mod Ends
pub mod Buffer
use Prim.Native.Char.{code}
use Prim.Native.String.{String}
use operating_systems_lab.Base.{ℕ, zero, suc, ◌+◌, ◌-◌, ◌*◌, ◌%◌, ◌^◌, ◌==◌, leb, ltb, length}
use operating_systems_lab.Base.{
  Bool, true, false, ◌||◌, Option, none, some, if◌then◌else◌, List, [], ◌∷◌, ◌++◌,
}
use mathlib.Core.List.{foldl}
use operating_systems_lab.Kern.State.{Result, ok, err, Error}
use operating_systems_lab.User.Format.{
  Flags, Directive, no_flags, reswitch, getuint, getint, print_string, print_number,
}

-- The characters of a literal, which are ASCII.
abbrev pub codes : String → List ℕ
codes String.[] = []
codes (String.◌∷◌ c s) = code c ∷ codes s

unfoldable pub error_string : ℕ → Option (List ℕ)
error_string e =
    if e == 1
    then some (codes "unspecified error")
    else if e == 2
    then some (codes "bad environment")
    else if e == 3
    then some (codes "invalid parameter")
    else if e == 4
    then some (codes "out of memory")
    else if e == 5
    then some (codes "out of environments")
    else if e == 6
    then some (codes "segmentation fault")
    else if e == 7
    then some (codes "env is not recving")
    else if e == 8
    then some (codes "unexpected end of file")
    else if e == 9
    then some (codes "no free space on disk")
    else if e == 10
    then some (codes "too many files are open")
    else if e == 11
    then some (codes "file or block not found")
    else if e == 12
    then some (codes "invalid path")
    else if e == 13
    then some (codes "file already exists")
    else if e == 14
    then some (codes "file is not a valid executable")
    else if e == 15
    then some (codes "operation not supported")
    else none

-- `case 'd'`, after `getint`.
abbrev pub signed : Flags → Bool × ℕ × ℕ → List ℕ
signed fl (true, num, ap) = b'-' ∷ print_number fl num 10
signed fl (false, num, ap) = print_number fl num 10

-- The `printfmt` calls of `case 'e'`, with the format "error %d" or "%s" and no flags.
abbrev pub print_error : ℕ → Option (List ℕ) → List ℕ
print_error v none = codes "error " ++ signed no_flags (getint (λ _. v) 0 0)
print_error v (some p) = print_string no_flags p

-- `err`, which is -`err` if it was negative.
abbrev pub absolute : ℕ → ℕ
absolute v = if leb (2 ^ 31) v then 2 ^ 32 - v else v

-- What is printed, the rest of the format, and the place of the next argument.
abbrev pub Printed : Type 0
Printed = List ℕ × List ℕ × ℕ

abbrev pub unsigned : Directive → ℕ × ℕ → ℕ → Printed
unsigned d (num, ap) base = (print_number d.flags num base, d.rest, ap)

-- `case 's'`: a null pointer prints "(null)".
abbrev pub string_at : (ℕ → List ℕ) → ℕ → List ℕ
string_at text p = if p == 0 then codes "(null)" else text p

-- The conversion. An unknown one prints the '%' and goes back to `start`, the format after it.
unfoldable pub convert : (ℕ → ℕ) → (ℕ → List ℕ) → List ℕ → Directive → Printed
convert args text start d =
    let next = args d.ap in
    if d.conv == b'c'
    then (next ∷ [], d.rest, d.ap + 1)
    else if d.conv == b'e'
    then (print_error (absolute next) (error_string (absolute next)), d.rest, d.ap + 1)
    else if d.conv == b's'
    then (print_string d.flags (string_at text next), d.rest, d.ap + 1)
    else if d.conv == b'd'
    then (
      signed d.flags (getint args d.ap d.flags.lflag),
      d.rest,
      (getint args d.ap d.flags.lflag).2,
    )
    else if d.conv == b'u'
    then unsigned d (getuint args d.ap d.flags.lflag) 10
    else if d.conv == b'o'
    then unsigned d (getuint args d.ap d.flags.lflag) 8
    else if d.conv == b'p'
    then (codes "0x" ++ print_number d.flags next 16, d.rest, d.ap + 1)
    else if d.conv == b'x'
    then unsigned d (getuint args d.ap d.flags.lflag) 16
    else if d.conv == b'%'
    then (b'%' ∷ [], d.rest, d.ap)
    else (b'%' ∷ [], start, d.ap)

-- The loop of `vprintfmt`; a round takes a character of the format at least.
unfoldable pub vprintfmt_from : ℕ → (ℕ → ℕ) → (ℕ → List ℕ) → List ℕ → ℕ → List ℕ
vprintfmt_from fuel args text [] ap = []
vprintfmt_from zero args text (c ∷ cs) ap = []
vprintfmt_from (suc fuel) args text (c ∷ cs) ap =
    let plain = c ∷ vprintfmt_from fuel args text cs ap in
    let (out, rest, ap') = convert args text cs (reswitch (length cs) args no_flags cs ap) in
    let converted = out ++ vprintfmt_from fuel args text rest ap' in
    if c == b'%' then converted else plain

unfoldable pub vprintfmt : (ℕ → ℕ) → (ℕ → List ℕ) → List ℕ → List ℕ
vprintfmt args text fmt = vprintfmt_from (length fmt) args text fmt 0

-- `struct sprintbuf`: the bytes written, the room that is left before `ebuf`, and the count.
pub record SprintBuf : Type 0 where
  pub written : List ℕ
  pub left : ℕ
  pub cnt : ℕ

unfoldable pub sprintputch : SprintBuf → ℕ → SprintBuf
sprintputch b ch =
    if b.left == 0
    then record b { cnt = b.cnt + 1 }
    else record { written = b.written ++ ch % 256 ∷ []; left = b.left - 1; cnt = b.cnt + 1 }

-- The bytes of `buf` that are written, from its start on, and the value returned. `n` is an `int`.
unfoldable pub vsnprintf : ℕ → ℕ → (ℕ → ℕ) → (ℕ → List ℕ) → List ℕ → Result (ℕ × List ℕ)
vsnprintf buf n args text fmt =
    let b =
      foldl sprintputch (record { written = []; left = n - 1; cnt = 0 })
        (vprintfmt args text fmt) in
    if (buf == 0) || (n == 0) || leb (2 ^ 31) n
    then err Error.inval
    else ok (b.cnt, b.written ++ 0 ∷ [])
