-- ===== src/Kern/PageTable/Entry.antt =====
-- Page table entries as words: the page that an entry names, and its flags.
use operating_systems_lab.Base.{ℕ, ◌*◌, ◌<◌, ◌≡◌, max, arith, bit, bit_or}
use operating_systems_lab.Base.{bit-bit_or, bit_or-div, bit-mul_pow, bit-le, true}
use operating_systems_lab.Kern.State.{pte_addr}
use operating_systems_lab.Kern.PageTable.{entry, present}

pub pte_addr-bit_or : (w flags : ℕ) → flags < 4096 → pte_addr (bit_or w flags) ≡ pte_addr w
pte_addr-bit_or w flags h = bit_or-div 12 w flags h

pub pte_addr-entry : (pp flags : ℕ) → flags < 4096 → pte_addr (entry pp flags) ≡ pp
pte_addr-entry pp flags h = omega (arith, bit_or-div 12 (pp * 4096) flags h)

pub bit-entry : (pp flags j : ℕ) → j < 12 → bit (entry pp flags) j ≡ bit flags j
bit-entry pp flags j h = omega (arith, bit-bit_or j (pp * 4096) flags, bit-mul_pow 12 j pp h)

-- The word that `page_insert` writes.
abbrev pub map_word : ℕ → ℕ → ℕ
map_word pp perm = bit_or (entry pp perm) 1

pub pte_addr-map_word : (pp perm : ℕ) → perm < 4096 → pte_addr (map_word pp perm) ≡ pp
pte_addr-map_word pp perm h =
    omega (arith, pte_addr-bit_or (entry pp perm) 1 (omega arith), pte_addr-entry pp perm h)

-- Its flags are those of `perm | PTE_P`.
pub bit-map_word : (pp perm j : ℕ) → j < 12 → bit (map_word pp perm) j ≡ max (bit perm j) (bit 1 j)
bit-map_word pp perm j h = omega (arith, bit-bit_or j (entry pp perm) 1, bit-entry pp perm j h)

pub present-map_word : (pp perm : ℕ) → present (map_word pp perm) ≡ true
present-map_word pp perm = ground (arith, bit-map_word pp perm 0 (omega arith), bit-le perm 0)

pub present-bit_or : (w flags : ℕ) → present w ≡ true → present (bit_or w flags) ≡ true
present-bit_or w flags h = ground (arith, bit-bit_or 0 w flags, bit-le flags 0)
