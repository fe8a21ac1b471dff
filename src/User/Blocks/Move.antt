-- ===== src/User/Blocks/Move.antt =====
-- `memmove` of oslab6/lib/string.c moves a block of memory as if at once, also where the source and
-- the destination overlap.
use operating_systems_lab.Base.{
  ℕ, zero, suc, ◌+◌, ◌-◌, ◌*◌, ◌/◌, ◌%◌, ◌^◌, ◌<◌, ◌≤◌, ltb, ◌≡◌, ap, ◌∙◌, sym, arith, ◌⊎◌, inl,
  inr, Bool-cases,
}
use operating_systems_lab.Base.{◌&&◌, if◌then◌else◌}
use native.Mathlib.Nat.{mul-suc}
use native.Mathlib.Decide.{dec_lt}
use operating_systems_lab.User.Strings.{Memory}
use operating_systems_lab.User.Blocks.{move, copy_up, copy_down, aligned, memmove}

same_place : (u d s j : ℕ) → d + u ≤ j → s + u + (j - (d + u)) ≡ s + (j - d)
same_place u d s j h = omega arith

move-in : (u d s j : ℕ) (m : Memory) → d ≤ j → j < d + u → move u d s m j ≡ m (s + (j - d))
move-in u d s j m a b = ground arith

move-out : (u d s j : ℕ) (m : Memory) → (j < d) ⊎ (d + u ≤ j) → move u d s m j ≡ m j
move-out u d s j m h = ground arith

-- The lowest unit first, then the rest.
move-up :
    (u l d s j : ℕ) (m : Memory)
    → (d ≤ s) ⊎ (s + (u + l) ≤ d)
    → move l (d + u) (s + u) (move u d s m) j ≡ move (u + l) d s m j
move-up u l d s j m h = elim (dec_lt j d) [
  | yes below ↦
      move-out l (d + u) (s + u) j (move u d s m) (inl (omega arith))
      ∙ move-out u d s j m (inl below)
      ∙ sym (move-out (u + l) d s j m (inl below))
  | no from_d ↦ elim (dec_lt j (d + u)) [
    | yes first ↦
        move-out l (d + u) (s + u) j (move u d s m) (inl first)
        ∙ move-in u d s j m (omega arith) first
        ∙ sym (move-in (u + l) d s j m (omega arith) (omega arith))
    | no later ↦ elim (dec_lt j (d + (u + l))) [
      | yes inside ↦
          move-in l (d + u) (s + u) j (move u d s m) (omega arith) (omega arith)
          ∙ move-out u d s (s + u + (j - (d + u))) m
              (elim h [ inl a ↦ inr (omega arith) | inr a ↦ inl (omega arith) ])
          ∙ ap m (same_place u d s j (omega arith))
          ∙ sym (move-in (u + l) d s j m (omega arith) inside)
      | no above ↦
          move-out l (d + u) (s + u) j (move u d s m) (inr (omega arith))
          ∙ move-out u d s j m (inr (omega arith))
          ∙ sym (move-out (u + l) d s j m (inr (omega arith)))
    ]
  ]
]

copy_up-move :
    (u n d s j : ℕ) (m : Memory)
    → (d ≤ s) ⊎ (s + u * n ≤ d)
    → copy_up u n d s m j ≡ move (u * n) d s m j
unfolding copy_up
copy_up-move u zero d s j m h = sym (move-out (u * 0) d s j m (omega arith))
copy_up-move u (suc n) d s j m h =
    copy_up-move u n (d + u) (s + u) j (move u d s m)
      (elim h [ inl a ↦ inl (omega arith) | inr a ↦ inr (omega (arith, mul-suc u n)) ])
    ∙ move-up u (u * n) d s j m
        (elim h [ inl a ↦ inl a | inr a ↦ inr (omega (arith, mul-suc u n)) ])
    ∙ ap (λ k. move k d s m j) (omega (arith, mul-suc u n))

-- The highest unit first, then the rest.
move-down :
    (u l d s j : ℕ) (m : Memory)
    → s < d
    → move l d s (move u (d + l) (s + l) m) j ≡ move (l + u) d s m j
move-down u l d s j m h = elim (dec_lt j d) [
  | yes below ↦
      move-out l d s j (move u (d + l) (s + l) m) (inl below)
      ∙ move-out u (d + l) (s + l) j m (inl (omega arith))
      ∙ sym (move-out (l + u) d s j m (inl below))
  | no from_d ↦ elim (dec_lt j (d + l)) [
    | yes first ↦
        move-in l d s j (move u (d + l) (s + l) m) (omega arith) first
        ∙ move-out u (d + l) (s + l) (s + (j - d)) m (inl (omega arith))
        ∙ sym (move-in (l + u) d s j m (omega arith) (omega arith))
    | no later ↦ elim (dec_lt j (d + (l + u))) [
      | yes inside ↦
          move-out l d s j (move u (d + l) (s + l) m) (inr (omega arith))
          ∙ move-in u (d + l) (s + l) j m (omega arith) (omega arith)
          ∙ ap m (same_place l d s j (omega arith))
          ∙ sym (move-in (l + u) d s j m (omega arith) inside)
      | no above ↦
          move-out l d s j (move u (d + l) (s + l) m) (inr (omega arith))
          ∙ move-out u (d + l) (s + l) j m (inr (omega arith))
          ∙ sym (move-out (l + u) d s j m (inr (omega arith)))
    ]
  ]
]

copy_down-move : (u n d s j : ℕ) (m : Memory) → s < d → copy_down u n d s m j ≡ move (u * n) d s m j
unfolding copy_down
copy_down-move u zero d s j m h = sym (move-out (u * 0) d s j m (omega arith))
copy_down-move u (suc n) d s j m h =
    copy_down-move u n d s j (move u (d + u * n) (s + u * n) m) h
    ∙ move-down u (u * n) d s j m h
    ∙ ap (λ k. move k d s m j) (omega (arith, mul-suc u n))

down_any :
    (d s n j : ℕ) (m : Memory)
    → s < d
    → (if aligned d s n then copy_down 4 (n / 4) d s m else copy_down 1 n d s m) j ≡ move n d s m j
down_any d s n j m lt = elim (Bool-cases (aligned d s n)) [
  | inl a ↦
      let whole : 4 * (n / 4) ≡ n = ground arith in
      rw a (copy_down-move 4 (n / 4) d s j m lt ∙ ap (λ k. move k d s m j) whole)
  | inr a ↦
      let whole : 1 * n ≡ n = omega arith in
      rw a (copy_down-move 1 n d s j m lt ∙ ap (λ k. move k d s m j) whole)
]

up_any :
    (d s n j : ℕ) (m : Memory)
    → (d ≤ s) ⊎ (s + n ≤ d)
    → (if aligned d s n then copy_up 4 (n / 4) d s m else copy_up 1 n d s m) j ≡ move n d s m j
up_any d s n j m h = elim (Bool-cases (aligned d s n)) [
  | inl a ↦
      let whole : 4 * (n / 4) ≡ n = ground arith in
      rw a (
        copy_up-move 4 (n / 4) d s j m (elim h [ inl p ↦ inl p | inr p ↦ inr (omega arith) ])
        ∙ ap (λ k. move k d s m j) whole)
  | inr a ↦
      let whole : 1 * n ≡ n = omega arith in
      rw a (
        copy_up-move 1 n d s j m (elim h [ inl p ↦ inl p | inr p ↦ inr (omega arith) ])
        ∙ ap (λ k. move k d s m j) whole)
]

-- Where the source does not reach the end of the address space, `memmove` moves the block as if at
-- once, also where source and destination overlap.
pub memmove-move : (d s n j : ℕ) (m : Memory) → s + n < 2 ^ 32 → memmove d s n m j ≡ move n d s m j
unfolding memmove
memmove-move d s n j m h = elim (Bool-cases (ltb s d && ltb d ((s + n) % 2 ^ 32))) [
  | inl c ↦ rw c (down_any d s n j m (ground arith))
  | inr c ↦ rw c (up_any d s n j m (ground arith))
]
