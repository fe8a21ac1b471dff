-- ===== src/User/Pipe/Ordered.antt =====
-- Each step of a writer and a reader on a pipe of oslab6/lib/pipe.c keeps the bytes in order.
use operating_systems_lab.Base.{
  ℕ, suc, ◌+◌, ◌-◌, ◌%◌, ◌^◌, ◌<◌, ◌≡◌, refl, sym, ap, ◌∙◌, arith, length, update, get_or, false,
}
use operating_systems_lab.Base.{List, [], ◌∷◌, ◌++◌}
use mathlib.Core.List.{append_assoc}
use operating_systems_lab.Kern.State.{u32}
use operating_systems_lab.User.Pipe.{Pipe, is_empty, is_full, move_rpos, move_wpos, pipebufsiz}
use operating_systems_lab.User.Pipe.Fifo.{ring, contents, IsPipe, ring-update, ring-snoc, ring-cons}
use operating_systems_lab.User.Pipe.Session.{WriterAt, ReaderAt, Session}

-- What each side may rely on between its steps.
abbrev pub WriterOk : WriterAt → Pipe → List ℕ → Type 0
WriterOk WriterAt.testing_room p pending = Unit {0}
WriterOk WriterAt.storing p pending = (p.p_wpos < p.p_rpos + pipebufsiz) × (0 < length pending)
WriterOk WriterAt.counting p pending =
    (p.p_wpos < p.p_rpos + pipebufsiz)
    × (0 < length pending)
    × (p.p_buf (p.p_wpos % pipebufsiz) ≡ get_or pending 0 0)

abbrev pub ReaderOk : ReaderAt → Pipe → Type 0
ReaderOk ReaderAt.testing_bytes p = Unit {0}
ReaderOk ReaderAt.taking p = p.p_rpos < p.p_wpos
ReaderOk (ReaderAt.holding x) p = (p.p_rpos < p.p_wpos) × (p.p_buf (p.p_rpos % pipebufsiz) ≡ x)

-- No byte is lost, made or moved before another.
pub record InOrder (message : List ℕ) (s : Session) : Type 0 where
  pub pipe_ok : IsPipe s.pipe
  pub conserved : s.received ++ (contents s.pipe ++ s.pending) ≡ message
  pub counted : s.pipe.p_wpos + length s.pending ≡ length message
  pub writer_ok : WriterOk s.writer s.pipe s.pending
  pub reader_ok : ReaderOk s.reader s.pipe

-- The pipe after a byte is stored.
abbrev pub with_byte : ℕ → Pipe → Pipe
with_byte x p = record p { p_buf = update p.p_buf (p.p_wpos % pipebufsiz) x }

ReaderOk-stored :
    (r : ReaderAt) (x : ℕ) (p : Pipe)
    → p.p_wpos < p.p_rpos + pipebufsiz
    → ReaderOk r p
    → ReaderOk r (with_byte x p)
ReaderOk-stored ReaderAt.testing_bytes x p lt h = tt
ReaderOk-stored ReaderAt.taking x p lt h = h
ReaderOk-stored (ReaderAt.holding y) x p lt h = (h.0, ground (arith, h.0, h.1))

ReaderOk-counted :
    (r : ReaderAt) (p : Pipe) → p.p_wpos + 1 < 2 ^ 32 → ReaderOk r p → ReaderOk r (move_wpos p)
unfolding move_wpos
ReaderOk-counted ReaderAt.testing_bytes p lt h = tt
ReaderOk-counted ReaderAt.taking p lt h = omega arith
ReaderOk-counted (ReaderAt.holding y) p lt h = (omega (arith, h.0), h.1)

WriterOk-counted :
    (w : WriterAt) (p : Pipe) (pending : List ℕ)
    → p.p_rpos + 1 < 2 ^ 32
    → WriterOk w p pending
    → WriterOk w (move_rpos p) pending
unfolding move_rpos
WriterOk-counted WriterAt.testing_room p pending lt h = tt
WriterOk-counted WriterAt.storing p pending lt h = (omega (arith, h.0), h.1)
WriterOk-counted WriterAt.counting p pending lt h = (omega (arith, h.0), h.1, h.2)

module _ {message : List ℕ} (small : length message < 2 ^ 31) (s : Session)
    (h : InOrder message s) where
  pub below : (s.pipe.p_rpos < 2 ^ 31) × (s.pipe.p_wpos < 2 ^ 31)
  below = (omega (arith, h.counted, h.pipe_ok.ordered), omega (arith, h.counted))

  pub room_found :
      (x : ℕ) (xs : List ℕ)
      → s.pending ≡ x ∷ xs
      → is_full s.pipe ≡ false
      → InOrder message (record s { writer = WriterAt.storing })
  unfolding is_full
  room_found x xs more e = record {
    pipe_ok = h.pipe_ok;
    conserved = h.conserved;
    counted = h.counted;
    writer_ok = (ground (arith, below.0, below.1, e), omega (arith, ap (length {0}) more));
    reader_ok = h.reader_ok;
  }

  pub byte_found : is_empty s.pipe ≡ false → InOrder message (record s { reader = ReaderAt.taking })
  unfolding is_empty
  byte_found e = record {
    pipe_ok = h.pipe_ok;
    conserved = h.conserved;
    counted = h.counted;
    writer_ok = h.writer_ok;
    reader_ok = ground (arith, h.pipe_ok.ordered, e);
  }

  pub byte_taken :
      ReaderOk ReaderAt.taking s.pipe
      → InOrder message
          (record s { reader = ReaderAt.holding (s.pipe.p_buf (s.pipe.p_rpos % pipebufsiz)) })
  byte_taken lt = record {
    pipe_ok = h.pipe_ok;
    conserved = h.conserved;
    counted = h.counted;
    writer_ok = h.writer_ok;
    reader_ok = (lt, refl);
  }

  pub byte_stored :
      (x : ℕ) (xs : List ℕ)
      → s.pending ≡ x ∷ xs
      → WriterOk WriterAt.storing s.pipe s.pending
      → InOrder message (record s { pipe = with_byte x s.pipe; writer = WriterAt.counting })
  byte_stored x xs more ok =
      let p = s.pipe in
      let order = h.pipe_ok.ordered in
      let same : contents (with_byte x p) ≡ contents p =
        ring-update (p.p_wpos - p.p_rpos) p.p_rpos p.p_wpos x p.p_buf (omega (arith, order)) ok.0 in
      record {
        pipe_ok = record { ordered = h.pipe_ok.ordered; fits = h.pipe_ok.fits };
        conserved = ap (λ l. s.received ++ (l ++ s.pending)) same ∙ h.conserved;
        counted = h.counted;
        writer_ok = (ok.0, ok.1, ground arith ∙ sym (ap (λ l. get_or l 0 0) more));
        reader_ok = ReaderOk-stored s.reader x p ok.0 h.reader_ok;
      }

  pub written_counted :
      (x : ℕ) (xs : List ℕ)
      → s.pending ≡ x ∷ xs
      → WriterOk WriterAt.counting s.pipe s.pending
      → InOrder message
          (record s { pipe = move_wpos s.pipe; writer = WriterAt.testing_room; pending = xs })
  unfolding move_wpos
  written_counted x xs more ok =
      let p = s.pipe in
      let order = h.pipe_ok.ordered in
      let b = below.1 in
      let len = ap (length {0}) more in
      let steps : u32 (p.p_wpos + 1) - p.p_rpos ≡ suc (p.p_wpos - p.p_rpos) = omega arith in
      let last : p.p_buf ((p.p_rpos + (p.p_wpos - p.p_rpos)) % pipebufsiz) ≡ x =
        ap (λ q. p.p_buf (q % pipebufsiz)) (omega (arith, order))
        ∙ ok.2
        ∙ ap (λ l. get_or l 0 0) more in
      let longer : contents (move_wpos p) ≡ contents p ++ x ∷ [] =
        ap (λ n. ring n p.p_rpos p.p_buf) steps
        ∙ ring-snoc (p.p_wpos - p.p_rpos) p.p_rpos p.p_buf
        ∙ ap (λ y. contents p ++ y ∷ []) last in
      record {
        pipe_ok = record { ordered = omega arith; fits = omega (arith, ok.0) };
        conserved =
            ap (λ l. s.received ++ l)
              (ap (λ l. l ++ xs) longer
                ∙ append_assoc (contents p) (x ∷ []) xs
                ∙ ap (λ l. contents p ++ l) (sym more))
            ∙ h.conserved;
        counted = omega (arith, h.counted);
        writer_ok = tt;
        reader_ok = ReaderOk-counted s.reader p (omega arith) h.reader_ok;
      }

  pub read_counted :
      (x : ℕ)
      → ReaderOk (ReaderAt.holding x) s.pipe
      → InOrder message (record s {
        pipe = move_rpos s.pipe;
        reader = ReaderAt.testing_bytes;
        received = s.received ++ x ∷ [];
      })
  unfolding move_rpos
  read_counted x ok =
      let p = s.pipe in
      let b = below.0 in
      let lt = ok.0 in
      let fewer : p.p_wpos - p.p_rpos - 1 ≡ p.p_wpos - u32 (p.p_rpos + 1) = omega arith in
      let same : p.p_rpos + 1 ≡ u32 (p.p_rpos + 1) = omega arith in
      let shorter : contents p ≡ x ∷ contents (move_rpos p) =
        ring-cons (p.p_wpos - p.p_rpos) p.p_rpos p.p_buf (omega arith)
        ∙ ap (λ y. y ∷ ring (p.p_wpos - p.p_rpos - 1) (p.p_rpos + 1) p.p_buf) ok.1
        ∙ ap (λ n. x ∷ ring n (p.p_rpos + 1) p.p_buf) fewer
        ∙ ap (λ q. x ∷ ring (p.p_wpos - u32 (p.p_rpos + 1)) q p.p_buf) same in
      record {
        pipe_ok = record { ordered = omega arith; fits = omega (arith, h.pipe_ok.fits) };
        conserved =
            append_assoc s.received (x ∷ []) (contents (move_rpos p) ++ s.pending)
            ∙ ap (λ l. s.received ++ (l ++ s.pending)) (sym shorter)
            ∙ h.conserved;
        counted = h.counted;
        writer_ok = WriterOk-counted s.writer p s.pending (omega arith) h.writer_ok;
        reader_ok = tt;
      }
