-- ===== src/User/Blocks.antt =====
-- `memset`, `memmove` and `memcpy` of oslab6/lib/string.c, with the string instructions of their
-- assembly: `rep stos` and `rep movs` on bytes and on words of four bytes.
pub mod Move
use operating_systems_lab.Base.{ℕ, zero, suc, ◌+◌, ◌-◌, ◌*◌, ◌/◌, ◌%◌, ◌^◌, ◌==◌, leb, ltb}
use operating_systems_lab.Base.{Bool, true, false, ◌&&◌, if◌then◌else◌}
use operating_systems_lab.User.Strings.{Memory}

-- `u` bytes at `d` become `c`.
abbrev pub set_unit : ℕ → ℕ → ℕ → Memory → Memory
set_unit u d c m j = if leb d j && ltb j (d + u) then c else m j

-- `cld; rep stos` with units of `u` bytes.
unfoldable pub fill_units : ℕ → ℕ → ℕ → ℕ → Memory → Memory
fill_units u zero d c m = m
fill_units u (suc n) d c m = fill_units u n (d + u) c (set_unit u d c m)

unfoldable pub memset : ℕ → ℕ → ℕ → Memory → Memory
memset v c n m =
    if n == 0
    then m
    else if (v % 4 == 0) && (n % 4 == 0)
    then fill_units 4 (n / 4) v (c % 256) m
    else fill_units 1 n v (c % 256) m

-- `u` bytes go from `s` to `d`; all are read before one is written.
abbrev pub move : ℕ → ℕ → ℕ → Memory → Memory
move u d s m j = if leb d j && ltb j (d + u) then m (s + (j - d)) else m j

-- `cld; rep movs`, upwards from the lowest unit.
unfoldable pub copy_up : ℕ → ℕ → ℕ → ℕ → Memory → Memory
copy_up u zero d s m = m
copy_up u (suc n) d s m = copy_up u n (d + u) (s + u) (move u d s m)

-- `std; rep movs`, downwards from the highest unit.
unfoldable pub copy_down : ℕ → ℕ → ℕ → ℕ → Memory → Memory
copy_down u zero d s m = m
copy_down u (suc n) d s m = copy_down u n d s (move u (d + u * n) (s + u * n) m)

abbrev pub aligned : ℕ → ℕ → ℕ → Bool
aligned d s n = (s % 4 == 0) && ((d % 4 == 0) && (n % 4 == 0))

unfoldable pub memmove : ℕ → ℕ → ℕ → Memory → Memory
memmove d s n m =
    if ltb s d && ltb d ((s + n) % 2 ^ 32)
    then (if aligned d s n then copy_down 4 (n / 4) d s m else copy_down 1 n d s m)
    else (if aligned d s n then copy_up 4 (n / 4) d s m else copy_up 1 n d s m)

unfoldable pub memcpy : ℕ → ℕ → ℕ → Memory → Memory
memcpy d s n m = memmove d s n m
