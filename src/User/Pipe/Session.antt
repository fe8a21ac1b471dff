-- ===== src/User/Pipe/Session.antt =====
-- A writer and a reader on one pipe of oslab6/lib/pipe.c. Either may be interrupted between any two
-- accesses to the pipe: the test of its loop, the move of the byte and the move of its position are
-- steps of their own.
use operating_systems_lab.Base.{ℕ, suc, ◌≡◌, false}
use operating_systems_lab.Base.{some, List, [], ◌∷◌, ◌++◌}
use operating_systems_lab.User.Pipe.{
  Pipe, is_empty, is_full, read_slot, move_rpos, store_byte, move_wpos,
}

-- Where the writer and the reader are in a round.
pub data WriterAt : Type 0 where
  testing_room storing counting : WriterAt

pub data ReaderAt : Type 0 where
  testing_bytes taking : ReaderAt
  holding : ℕ → ReaderAt

-- The pipe, the two sides, what the writer still has to write, and what the reader has got in whole
-- rounds, the oldest first.
pub record Session : Type 0 where
  pub pipe : Pipe
  pub writer : WriterAt
  pub pending : List ℕ
  pub reader : ReaderAt
  pub received : List ℕ

pub data Step (s t : Session) : Type 0 where
  finds_room :
      (x : ℕ) (xs : List ℕ)
      → s.writer ≡ WriterAt.testing_room
      → s.pending ≡ x ∷ xs
      → is_full s.pipe ≡ false
      → t ≡ record s { writer = WriterAt.storing }
      → Step s t
  stores :
      (x : ℕ) (xs : List ℕ) (p : Pipe)
      → s.writer ≡ WriterAt.storing
      → s.pending ≡ x ∷ xs
      → store_byte x s.pipe ≡ some p
      → t ≡ record s { pipe = p; writer = WriterAt.counting }
      → Step s t
  counts_written :
      (x : ℕ) (xs : List ℕ)
      → s.writer ≡ WriterAt.counting
      → s.pending ≡ x ∷ xs
      → t ≡ record s { pipe = move_wpos s.pipe; writer = WriterAt.testing_room; pending = xs }
      → Step s t
  finds_byte :
      s.reader ≡ ReaderAt.testing_bytes
      → is_empty s.pipe ≡ false
      → t ≡ record s { reader = ReaderAt.taking }
      → Step s t
  takes :
      (x : ℕ)
      → s.reader ≡ ReaderAt.taking
      → read_slot s.pipe ≡ some x
      → t ≡ record s { reader = ReaderAt.holding x }
      → Step s t
  counts_read :
      (x : ℕ)
      → s.reader ≡ ReaderAt.holding x
      → t ≡ record s {
        pipe = move_rpos s.pipe;
        reader = ReaderAt.testing_bytes;
        received = s.received ++ x ∷ [];
      }
      → Step s t

pub data Reach (s : Session) : ℕ → Session → Type 0 where
  here : Reach s 0 s
  next : {n : ℕ} {t u : Session} → Reach s n t → Step t u → Reach s (suc n) u

-- A new pipe, a page of zeros, and a message for it.
abbrev pub start : List ℕ → Session
start message = record {
  pipe = record { p_rpos = 0; p_wpos = 0; p_buf = λ i. 0 };
  writer = WriterAt.testing_room;
  pending = message;
  reader = ReaderAt.testing_bytes;
  received = [];
}
