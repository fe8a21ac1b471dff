-- ===== src/User/Strings.antt =====
-- The string routines of oslab6/lib/string.c. A memory gives the byte at each address; an `int`
-- result is its bit pattern. The loops with no bound in the source take a number of rounds, and
-- return `none` when it is used up.
pub mod Compare
pub mod Copy
pub mod Find
use operating_systems_lab.Base.{ℕ, zero, suc, ◌+◌, ◌-◌, ◌*◌, ◌%◌, ◌^◌, ◌==◌, leb, ltb, update}
use operating_systems_lab.Base.{
  Bool, true, false, not, ◌&&◌, ◌||◌, Option, none, some, if◌then◌else◌,
}

abbrev pub Memory : Type 0
Memory = ℕ → ℕ

-- `(int) (a - b)` of two bytes
abbrev pub byte_diff : ℕ → ℕ → ℕ
byte_diff a b = (2 ^ 32 + a - b) % 2 ^ 32

-- The loop of `strlen`, with `n` counted so far.
unfoldable pub strlen_from : ℕ → Memory → ℕ → ℕ → Option ℕ
strlen_from zero m s n = none
strlen_from (suc fuel) m s n =
    let rest = strlen_from fuel m (s + 1) (n + 1) in if m s == 0 then some n else rest

unfoldable pub strlen : ℕ → Memory → ℕ → Option ℕ
strlen fuel m s = strlen_from fuel m s 0

unfoldable pub strnlen : Memory → ℕ → ℕ → ℕ
strnlen m s zero = 0
strnlen m s (suc size) = let rest = strnlen m (s + 1) size in if m s == 0 then 0 else suc rest

unfoldable pub strcpy : ℕ → ℕ → ℕ → Memory → Option Memory
strcpy zero dst src m = none
strcpy (suc fuel) dst src m =
    let m' = update m dst (m src) in
    let rest = strcpy fuel (dst + 1) (src + 1) m' in if m src == 0 then some m' else rest

unfoldable pub strcat : ℕ → ℕ → ℕ → Memory → Option Memory
strcat fuel dst src m = elim (strlen fuel m dst) [
  | none ↦ none
  | some len ↦ strcpy fuel (dst + len) src m
]

unfoldable pub strncpy : ℕ → ℕ → ℕ → Memory → Memory
strncpy dst src zero m = m
strncpy dst src (suc size) m =
    let m' = update m dst (m src) in
    let stay = strncpy (dst + 1) src size m' in
    let go = strncpy (dst + 1) (src + 1) size m' in if m' src == 0 then stay else go

-- The loop of `strlcpy`, with room for `n` bytes before the null: the place of the null.
unfoldable pub strlcpy_loop : ℕ → ℕ → ℕ → Memory → ℕ × Memory
strlcpy_loop dst src zero m = (dst, m)
strlcpy_loop dst src (suc n) m =
    let rest = strlcpy_loop (dst + 1) (src + 1) n (update m dst (m src)) in
    if m src == 0 then (dst, m) else rest

unfoldable pub strlcpy : ℕ → ℕ → ℕ → Memory → ℕ × Memory
strlcpy dst src zero m = (0, m)
strlcpy dst src (suc size) m =
    let (end, m') = strlcpy_loop dst src size m in (end - dst, update m' end 0)

unfoldable pub strcmp : ℕ → Memory → ℕ → ℕ → Option ℕ
strcmp zero m p q = none
strcmp (suc fuel) m p q =
    let rest = strcmp fuel m (p + 1) (q + 1) in
    if not (m p == 0) && (m p == m q) then rest else some (byte_diff (m p) (m q))

unfoldable pub strncmp : Memory → ℕ → ℕ → ℕ → ℕ
strncmp m p q zero = 0
strncmp m p q (suc n) =
    let rest = strncmp m (p + 1) (q + 1) n in
    if not (m p == 0) && (m p == m q) then rest else byte_diff (m p) (m q)

-- The null pointer is `some none`.
unfoldable pub strchr : ℕ → Memory → ℕ → ℕ → Option (Option ℕ)
strchr zero m s c = none
strchr (suc fuel) m s c =
    let rest = strchr fuel m (s + 1) c in
    if m s == 0 then some none else if m s == c then some (some s) else rest

unfoldable pub strfind : ℕ → Memory → ℕ → ℕ → Option ℕ
strfind zero m s c = none
strfind (suc fuel) m s c =
    let rest = strfind fuel m (s + 1) c in if (m s == 0) || (m s == c) then some s else rest

unfoldable pub memcmp : Memory → ℕ → ℕ → ℕ → ℕ
memcmp m s1 s2 zero = 0
memcmp m s1 s2 (suc n) =
    let rest = memcmp m (s1 + 1) (s2 + 1) n in
    if m s1 == m s2 then rest else byte_diff (m s1) (m s2)

unfoldable pub memfind : Memory → ℕ → ℕ → ℕ → ℕ
memfind m s c zero = s
memfind m s c (suc n) = let rest = memfind m (s + 1) c n in if m s == c % 256 then s else rest

-- `strtol`: the value of a digit, 0 to 9, a to z or A to Z.
unfoldable pub digit_of : ℕ → Option ℕ
digit_of c =
    if leb 48 c && leb c 57
    then some (c - 48)
    else if leb 97 c && leb c 122
    then some (c - 97 + 10)
    else if leb 65 c && leb c 90
    then some (c - 65 + 10)
    else none

unfoldable pub skip_space : ℕ → Memory → ℕ → Option ℕ
skip_space zero m s = none
skip_space (suc fuel) m s =
    let rest = skip_space fuel m (s + 1) in if (m s == 32) || (m s == 9) then rest else some s

-- After the sign: whether there is a `-`, and the next address.
abbrev pub sign_at : Memory → ℕ → Bool × ℕ
sign_at m s = if m s == 43 then (false, s + 1) else if m s == 45 then (true, s + 1) else (false, s)

-- After the prefix: the base and the next address.
abbrev pub prefix_at : Memory → ℕ → ℕ → ℕ × ℕ
prefix_at m base s =
    if ((base == 0) || (base == 16)) && ((m s == 48) && (m (s + 1) == 120))
    then (16, s + 2)
    else if (base == 0) && (m s == 48)
    then (8, s + 1)
    else if base == 0
    then (10, s)
    else (base, s)

-- The digits; the value is kept modulo 2 ^ 32.
unfoldable pub digits_from : ℕ → Memory → ℕ → ℕ → ℕ → Option (ℕ × ℕ)
digits_from zero m base s val = none
digits_from (suc fuel) m base s val = elim (digit_of (m s)) [
  | none ↦ some (val, s)
  | some dig ↦
      let rest = digits_from fuel m base (s + 1) ((val * base + dig) % 2 ^ 32) in
      if leb base dig then some (val, s) else rest
]

-- `neg ? -val : val`, and `*endptr`.
abbrev pub negated : Bool → Option (ℕ × ℕ) → Option (ℕ × ℕ)
negated neg none = none
negated true (some (val, end)) = some ((2 ^ 32 - val) % 2 ^ 32, end)
negated false (some (val, end)) = some (val, end)

-- After the sign, and after the prefix.
abbrev pub digits_at : ℕ → Memory → ℕ × ℕ → Option (ℕ × ℕ)
digits_at fuel m (base, s) = digits_from fuel m base s 0

abbrev pub signed_at : ℕ → Memory → ℕ → Bool × ℕ → Option (ℕ × ℕ)
signed_at fuel m base (neg, s) = negated neg (digits_at fuel m (prefix_at m base s))

-- The value, and `*endptr`.
unfoldable pub strtol : ℕ → Memory → ℕ → ℕ → Option (ℕ × ℕ)
strtol fuel m s base = elim (skip_space fuel m s) [
  | none ↦ none
  | some s1 ↦ signed_at fuel m base (sign_at m s1)
]
