-- ===== src/Tests/Clients.antt =====
-- A client of the file server at a concrete state.
use operating_systems_lab.Base.{ℕ, ◌≡◌, refl, arith, min, some, none, Option, List, [], ◌∷◌, length}
use operating_systems_lab.Kern.State.{Result, ok}
use operating_systems_lab.Fs.Disk.{Disk}
use operating_systems_lab.Fs.Names.{root_file}
use operating_systems_lab.Fs.Content.{file_write, write_from, write_bytes}
use operating_systems_lab.Fs.Blocks.{file_get_block, file_block_walk, block_of}
use operating_systems_lab.Fs.Serve.Reads.{offset_of}
use operating_systems_lab.User.Client.{Client, devfile_read, devfile_write}
use operating_systems_lab.User.Client.Reading.{devfile_read-reads}
use operating_systems_lab.User.Client.Writing.{devfile_write-writes}
use operating_systems_lab.Tests.Server.{reading, reading_1024, two_read}

abbrev client : Client
client = record { fsipcbuf = λ i. 9; fds = λ va. none; server = reading }

abbrev two_bytes : List ℕ
two_bytes = 0 ∷ 0 ∷ []

devfile_read-reads_example :
    (c' : Client) × (devfile_read (ok tt) 1024 2 client ≡ some (ok two_bytes, c'))
    × (length two_bytes ≡ min 2 4999)
    × (offset_of 0 c'.server ≡ 3)
devfile_read-reads_example =
    devfile_read-reads (ok tt) 1024 2 0 root_file client reading.disk two_bytes (omega arith)
      reading_1024 refl two_read (omega arith) (omega arith) (omega arith)

abbrev new_bytes : List ℕ
new_bytes = 7 ∷ 8 ∷ []

abbrev disk_of : Option (Result (Unit {0}) × Disk) → Disk
disk_of (some (r, d)) = d
disk_of none = reading.disk

abbrev disk_after : Disk
disk_after = disk_of (file_write root_file new_bytes 1 reading.disk)

two_written : file_write root_file new_bytes 1 reading.disk ≡ some (ok tt, disk_after)
unfolding file_write write_from write_bytes file_get_block file_block_walk block_of
two_written = refl

devfile_write-writes_example :
    (c' : Client) × (devfile_write (ok tt) 1024 new_bytes client ≡ some (ok 2, c'))
    × (c'.server.disk ≡ disk_after)
    × (offset_of 0 c'.server ≡ 3)
devfile_write-writes_example =
    devfile_write-writes (ok tt) 1024 0 root_file new_bytes client disk_after (omega arith)
      reading_1024 refl two_written
