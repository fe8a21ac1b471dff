-- ===== src/User/Pipe/Interleave.antt =====
-- The bytes of a pipe of oslab6/lib/pipe.c arrive, in order, however writer and reader take turns.
use operating_systems_lab.Base.{
  ℕ, ◌+◌, ◌-◌, ◌*◌, ◌^◌, ◌<◌, ◌≡◌, ◌==◌, refl, sym, ap, ◌∙◌, arith, length, Bool-cases, inl, inr,
  false,
}
use operating_systems_lab.Base.{some, Option, List, [], ◌∷◌, ◌++◌}
use mathlib.Core.List.{append-nil}
use mathlib.Core.Path.{subst}
use operating_systems_lab.User.Pipe.{Pipe, is_empty, is_full}
use operating_systems_lab.User.Pipe.Fifo.{ring, contents, read_slot-small, store_byte-small}
use operating_systems_lab.User.Pipe.Session.{
  WriterAt, ReaderAt, Session, Step, finds_room, stores, counts_written, finds_byte, takes,
  counts_read, Reach, here, next, start,
}
use operating_systems_lab.User.Pipe.Ordered.{
  WriterOk, ReaderOk, InOrder, below, room_found, byte_found, byte_taken, byte_stored,
  written_counted, read_counted,
}

is_some : {A : Type 0} {r : Option A} {x y : A} → r ≡ some x → r ≡ some y → x ≡ y
is_some e f = cc (e, f)

Step-InOrder :
    {message : List ℕ} {s t : Session}
    → length message < 2 ^ 31
    → Step s t
    → InOrder message s
    → InOrder message t
Step-InOrder {s = s} small (finds_room x xs at more e q) h = rw q (room_found small s h x xs more e)
Step-InOrder {message} {s} small (stores x xs p at more put q) h =
    let same = is_some (store_byte-small x s.pipe (below small s h).1) put in
    rw q (
      subst (λ r. InOrder message (record s { pipe = r; writer = WriterAt.counting })) same
        (byte_stored small s h x xs more (subst (λ w. WriterOk w s.pipe s.pending) at h.writer_ok)))
Step-InOrder {s = s} small (counts_written x xs at more q) h =
    rw q (
      written_counted small s h x xs more (subst (λ w. WriterOk w s.pipe s.pending) at h.writer_ok))
Step-InOrder {s = s} small (finds_byte at e q) h = rw q (byte_found small s h e)
Step-InOrder {message} {s} small (takes x at got q) h =
    let same = is_some (read_slot-small s.pipe (below small s h).0) got in
    rw q (
      subst (λ y. InOrder message (record s { reader = ReaderAt.holding y })) same
        (byte_taken small s h (subst (λ r. ReaderOk r s.pipe) at h.reader_ok)))
Step-InOrder {s = s} small (counts_read x at q) h =
    rw q (read_counted small s h x (subst (λ r. ReaderOk r s.pipe) at h.reader_ok))

-- However the writer and the reader of a new pipe take turns, with a message of less than 2 ^ 31
-- bytes and interrupts between any two accesses to the pipe: what the reader has got, what the pipe
-- holds and what is still to be written are the message, in its order, and the pipe is well formed.
pub interleave-InOrder :
    {message : List ℕ} {n : ℕ} {s : Session}
    → length message < 2 ^ 31
    → Reach (start message) n s
    → InOrder message s
interleave-InOrder small here = record {
  pipe_ok = record { ordered = omega arith; fits = omega arith };
  conserved = refl;
  counted = omega arith;
  writer_ok = tt;
  reader_ok = tt;
}
interleave-InOrder small (next r st) = Step-InOrder small st (interleave-InOrder small r)

-- Where no step is possible.
abbrev pub Stuck : Session → Type 0
Stuck s = (t : Session) → ¬ Step s t

module _ {message : List ℕ} (small : length message < 2 ^ 31) {s : Session} (h : InOrder message s)
    (stuck : Stuck s) where
  nonempty : (l : List ℕ) → 0 < length l → (x : ℕ) × (xs : List ℕ) × (l ≡ x ∷ xs)
  nonempty [] lt = absurd (omega arith)
  nonempty (x ∷ xs) lt = (x, xs, refl)

  writer_tests : (w : WriterAt) → s.writer ≡ w → s.writer ≡ WriterAt.testing_room
  writer_tests WriterAt.testing_room e = e
  writer_tests WriterAt.storing e =
      let ok = subst (λ w. WriterOk w s.pipe s.pending) e h.writer_ok in
      let (x, xs, more) = nonempty s.pending ok.1 in
      absurd (stuck _ (stores x xs _ e more (store_byte-small x s.pipe (below small s h).1) refl))
  writer_tests WriterAt.counting e =
      let ok = subst (λ w. WriterOk w s.pipe s.pending) e h.writer_ok in
      let (x, xs, more) = nonempty s.pending ok.1 in
      absurd (stuck _ (counts_written x xs e more refl))

  reader_tests : (r : ReaderAt) → s.reader ≡ r → s.reader ≡ ReaderAt.testing_bytes
  reader_tests ReaderAt.testing_bytes e = e
  reader_tests ReaderAt.taking e =
      absurd (stuck _ (takes _ e (read_slot-small s.pipe (below small s h).0) refl))
  reader_tests (ReaderAt.holding x) e = absurd (stuck _ (counts_read x e refl))

  same_positions : s.pipe.p_rpos ≡ s.pipe.p_wpos
  unfolding is_empty
  same_positions = elim (Bool-cases (s.pipe.p_rpos == s.pipe.p_wpos)) [
    | inl e ↦ ground arith
    | inr e ↦ absurd (stuck _ (finds_byte (reader_tests s.reader refl) e refl))
  ]

  nothing_held : contents s.pipe ≡ []
  nothing_held =
      let same = same_positions in
      let empty : s.pipe.p_wpos - s.pipe.p_rpos ≡ 0 = omega arith in
      ap (λ n. ring n s.pipe.p_rpos s.pipe.p_buf) empty

  has_room : is_full s.pipe ≡ false
  unfolding is_full
  has_room = let same = same_positions in let b = (below small s h).1 in ground (arith, same, b)

  nothing_pending : (pending : List ℕ) → s.pending ≡ pending → s.pending ≡ []
  nothing_pending [] e = e
  nothing_pending (x ∷ xs) e =
      absurd (stuck _ (finds_room x xs (writer_tests s.writer refl) e has_room refl))

-- The steps that a side has made of its round.
abbrev writer_done : WriterAt → ℕ
writer_done WriterAt.testing_room = 0
writer_done WriterAt.storing = 1
writer_done WriterAt.counting = 2

abbrev reader_done : ReaderAt → ℕ
reader_done ReaderAt.testing_bytes = 0
reader_done ReaderAt.taking = 1
reader_done (ReaderAt.holding x) = 2

abbrev done : Session → ℕ
done s = writer_done s.writer + reader_done s.reader

-- The steps that are left from the start of the rounds: six for a byte to write, and three for a byte
-- in the pipe.
abbrev left : Session → ℕ
left s = 6 * length s.pending + 3 * (s.pipe.p_wpos - s.pipe.p_rpos)

-- The two sides of a pipe never block each other, with a message of less than 2 ^ 31 bytes: where
-- neither the writer nor the reader can make a step, the reader has got the whole message.
pub interleave_complete :
    {message : List ℕ} {n : ℕ} {s : Session}
    → length message < 2 ^ 31
    → Reach (start message) n s
    → Stuck s
    → s.received ≡ message
interleave_complete {s = s} small r stuck =
    let h = interleave-InOrder small r in
    let none_held = nothing_held small h stuck in
    let all_sent = nothing_pending small h stuck s.pending refl in
    sym (append-nil s.received)
    ∙ ap (λ l. s.received ++ l) (sym (ap (λ l. l ++ s.pending) none_held ∙ all_sent))
    ∙ h.conserved
