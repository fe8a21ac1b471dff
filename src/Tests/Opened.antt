-- ===== src/Tests/Opened.antt =====
-- The theorems about file descriptors at concrete states.
use operating_systems_lab.Base.{
  ℕ, ◌==◌, ◌≡◌, refl, arith, some, none, if◌then◌else◌, List, [], ◌∷◌, true, Bool-cases, inl, inr,
}
use operating_systems_lab.Kern.State.{ok}
use operating_systems_lab.Fs.OpenFiles.{new_fd}
use operating_systems_lab.User.Descriptors.{index2fd, fd_lookup}
use operating_systems_lab.User.Files.{
  Files, Dev, mapped, fd_at, dup, seek, close_all, close_dev, dev_lookup, find_dev,
}
use operating_systems_lab.User.Files.Closing.{IsClosed, ClosesOnly, close_all-IsClosed}
use operating_systems_lab.User.Files.Dup.{dup-seek, Lost, dup_self-Lost}

-- A console, with no state.
abbrev console : Dev ℕ
console = record {
  dev_id = 99;
  dev_read = none;
  dev_write = none;
  dev_close = none;
  dev_stat = none;
  dev_trunc = none;
}

abbrev devices : List (Dev ℕ)
devices = console ∷ []

-- Descriptor 1 is open.
abbrev one_open : Files ℕ
one_open = record {
  page_at = λ va. if va == 0xD000_1000 then some 7 else none;
  fd_in = λ n. record new_fd { fd_dev_id = 99 };
  world = 0;
}

open_1 : fd_lookup 1 (mapped one_open) ≡ ok (index2fd 1)
unfolding fd_lookup
open_1 = refl

IsClosed-2 : IsClosed 2 one_open
unfolding fd_lookup
IsClosed-2 = refl

dup-seek_example :
    (t : Files ℕ) × (u : Files ℕ) × (dup devices true true 1 2 one_open ≡ (ok 2, t))
    × (seek 2 300 t ≡ (ok 0, u))
    × ((fd_at u (index2fd 1)).fd_offset ≡ 300)
dup-seek_example = dup-seek devices 1 2 300 one_open (omega arith) (omega arith) open_1 IsClosed-2

dup_self-Lost_example : Lost 1 (dup devices true true 1 1 one_open)
dup_self-Lost_example = dup_self-Lost devices true true 1 one_open (omega arith) open_1

devices-ClosesOnly : ClosesOnly devices
unfolding close_dev dev_lookup find_dev
devices-ClosesOnly = record {
  no_new_page = λ id fd s va h. elim (Bool-cases (99 == id)) [ inl e ↦ rw e h | inr e ↦ rw e h ];
}

close_all-IsClosed_example : IsClosed 1 (close_all devices one_open)
close_all-IsClosed_example = close_all-IsClosed devices devices-ClosesOnly 1 one_open (omega arith)
