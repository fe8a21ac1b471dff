-- ===== src/Fs/Names/Bytes.antt =====
-- Bytes in little-endian words of the disk: a byte that is written is read, and no other changes.
use operating_systems_lab.Base.{
  ℕ, zero, suc, ◌+◌, ◌-◌, ◌*◌, ◌/◌, ◌%◌, ◌^◌, ◌<◌, ◌≡◌, ◌≢◌, refl, arith,
}
use operating_systems_lab.Fs.Disk.{Disk}
use operating_systems_lab.Fs.Names.{byte, set_byte}
use native.Mathlib.Decide.{ℕ_discrete}

abbrev get : ℕ → ℕ → ℕ
get w j = w / 256 ^ j % 256

abbrev put : ℕ → ℕ → ℕ → ℕ
put w v k = w - get w k * 256 ^ k + v * 256 ^ k

get-put_self : (w v k : ℕ) → v < 256 → k < 4 → get (put w v k) k ≡ v
get-put_self w v zero hv hk = omega arith
get-put_self w v (suc zero) hv hk = omega arith
get-put_self w v (suc (suc zero)) hv hk = omega arith
get-put_self w v (suc (suc (suc zero))) hv hk = omega arith
get-put_self w v (suc (suc (suc (suc k)))) hv hk = absurd (omega arith)

get-put_other : (w v k j : ℕ) → v < 256 → k < 4 → j < 4 → k ≢ j → get (put w v k) j ≡ get w j
get-put_other w v zero zero hv hk hj ne = absurd (ne refl)
get-put_other w v zero (suc zero) hv hk hj ne = omega arith
get-put_other w v zero (suc (suc zero)) hv hk hj ne = omega arith
get-put_other w v zero (suc (suc (suc zero))) hv hk hj ne = omega arith
get-put_other w v zero (suc (suc (suc (suc j)))) hv hk hj ne = absurd (omega arith)
get-put_other w v (suc zero) zero hv hk hj ne = omega arith
get-put_other w v (suc zero) (suc zero) hv hk hj ne = absurd (ne refl)
get-put_other w v (suc zero) (suc (suc zero)) hv hk hj ne = omega arith
get-put_other w v (suc zero) (suc (suc (suc zero))) hv hk hj ne = omega arith
get-put_other w v (suc zero) (suc (suc (suc (suc j)))) hv hk hj ne = absurd (omega arith)
get-put_other w v (suc (suc zero)) zero hv hk hj ne = omega arith
get-put_other w v (suc (suc zero)) (suc zero) hv hk hj ne = omega arith
get-put_other w v (suc (suc zero)) (suc (suc zero)) hv hk hj ne = absurd (ne refl)
get-put_other w v (suc (suc zero)) (suc (suc (suc zero))) hv hk hj ne = omega arith
get-put_other w v (suc (suc zero)) (suc (suc (suc (suc j)))) hv hk hj ne = absurd (omega arith)
get-put_other w v (suc (suc (suc zero))) zero hv hk hj ne = omega arith
get-put_other w v (suc (suc (suc zero))) (suc zero) hv hk hj ne = omega arith
get-put_other w v (suc (suc (suc zero))) (suc (suc zero)) hv hk hj ne = omega arith
get-put_other w v (suc (suc (suc zero))) (suc (suc (suc zero))) hv hk hj ne = absurd (ne refl)
get-put_other w v (suc (suc (suc zero))) (suc (suc (suc (suc j)))) hv hk hj ne =
    absurd (omega arith)
get-put_other w v (suc (suc (suc (suc k)))) j hv hk hj ne = absurd (omega arith)

pub byte-set_byte_self : (b i v : ℕ) (d : Disk) → v < 256 → byte (set_byte b i v d) b i ≡ v
byte-set_byte_self b i v d hv =
    ground (arith, get-put_self (d.words b (i / 4)) v (i % 4) hv (omega arith))

pub byte-set_byte_other :
    (b i j v : ℕ) (d : Disk) → v < 256 → i ≢ j → byte (set_byte b i v d) b j ≡ byte d b j
byte-set_byte_other b i j v d hv ne = elim (ℕ_discrete (i / 4) (j / 4)) [
  | yes e ↦ ground (
    arith,
    get-put_other (d.words b (i / 4)) v (i % 4) (j % 4) hv (omega arith) (omega arith)
        (λ q. ne (omega arith)),
  )
  | no n ↦ ground arith
]
