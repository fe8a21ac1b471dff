-- ===== src/User/Pipe/Fifo.antt =====
-- The bytes in a pipe of oslab6/lib/pipe.c, and what the steps of the reader and the writer make of
-- them.
use operating_systems_lab.Base.{
  ℕ, zero, suc, ◌+◌, ◌-◌, ◌%◌, ◌^◌, ◌<◌, ◌≤◌, refl, ◌≡◌, ap, ◌∙◌, arith, update, length,
}
use operating_systems_lab.Base.{some, List, [], ◌∷◌, ◌++◌}
use operating_systems_lab.User.Pipe.{Pipe, slot, read_slot, store_byte, pipebufsiz}

-- `n` bytes of the ring, from position `pos` on.
abbrev pub ring : ℕ → ℕ → (ℕ → ℕ) → List ℕ
ring zero pos buf = []
ring (suc n) pos buf = buf (pos % pipebufsiz) ∷ ring n (pos + 1) buf

-- The bytes in the pipe, the oldest first.
abbrev pub contents : Pipe → List ℕ
contents p = ring (p.p_wpos - p.p_rpos) p.p_rpos p.p_buf

pub length-ring : (n pos : ℕ) (buf : ℕ → ℕ) → length (ring n pos buf) ≡ n
length-ring zero pos buf = omega arith
length-ring (suc n) pos buf = omega (arith, length-ring n (pos + 1) buf)

-- The reader is not ahead of the writer, and the writer not more than the buffer ahead.
pub record IsPipe (p : Pipe) : Type 0 where
  pub ordered : p.p_rpos ≤ p.p_wpos
  pub fits : p.p_wpos ≤ p.p_rpos + pipebufsiz

-- A byte that is stored outside the bytes of the pipe changes none of them.
pub ring-update :
    (n pos w x : ℕ) (buf : ℕ → ℕ)
    → pos + n ≤ w
    → w < pos + pipebufsiz
    → ring n pos (update buf (w % pipebufsiz) x) ≡ ring n pos buf
ring-update zero pos w x buf a b = refl
ring-update (suc n) pos w x buf a b =
    let apart : update buf (w % pipebufsiz) x (pos % pipebufsiz) ≡ buf (pos % pipebufsiz) =
      ground arith in
    ap (λ y. y ∷ ring n (pos + 1) (update buf (w % pipebufsiz) x)) apart
    ∙ ap (λ l. buf (pos % pipebufsiz) ∷ l)
        (ring-update n (pos + 1) w x buf (omega arith) (omega arith))

pub ring-snoc :
    (n pos : ℕ) (buf : ℕ → ℕ)
    → ring (suc n) pos buf ≡ ring n pos buf ++ buf ((pos + n) % pipebufsiz) ∷ []
ring-snoc zero pos buf =
    let same : pos ≡ pos + 0 = omega arith in ap (λ q. buf (q % pipebufsiz) ∷ []) same
ring-snoc (suc n) pos buf =
    let same : pos + 1 + n ≡ pos + suc n = omega arith in
    ap (λ l. buf (pos % pipebufsiz) ∷ l)
      (ring-snoc n (pos + 1) buf ∙ ap (λ q. ring n (pos + 1) buf ++ buf (q % pipebufsiz) ∷ []) same)

pub ring-cons :
    (n pos : ℕ) (buf : ℕ → ℕ)
    → 0 < n
    → ring n pos buf ≡ buf (pos % pipebufsiz) ∷ ring (n - 1) (pos + 1) buf
ring-cons zero pos buf h = absurd (omega arith)
ring-cons (suc n) pos buf h = rw (sub n)
  where
    sub : (n : ℕ) → suc n - 1 ≡ n
    sub n = omega arith

-- At positions below 2 ^ 31 the accesses are within the buffer.
pub read_slot-small :
    (p : Pipe) → p.p_rpos < 2 ^ 31 → read_slot p ≡ some (p.p_buf (p.p_rpos % pipebufsiz))
unfolding read_slot slot
read_slot-small p h = ground arith

pub store_byte-small :
    (x : ℕ) (p : Pipe)
    → p.p_wpos < 2 ^ 31
    → store_byte x p ≡ some (record p { p_buf = update p.p_buf (p.p_wpos % pipebufsiz) x })
unfolding store_byte slot
store_byte-small x p h = ground arith
