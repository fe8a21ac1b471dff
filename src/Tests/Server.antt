-- ===== src/Tests/Server.antt =====
-- The theorems about the file server's open files, at concrete states.
use operating_systems_lab.Base.{
  ℕ, ◌==◌, ◌≡◌, refl, arith, some, none, if◌then◌else◌, Option, List, [], ◌∷◌, ◌↔◌, length, ◌<◌,
}
use operating_systems_lab.Kern.State.{Result, ok, err, Error}
use operating_systems_lab.Fs.Disk.{Disk}
use operating_systems_lab.Fs.Names.{walk_path, walk_from, skip_slash, root_file, file_open}
use operating_systems_lab.Fs.OpenFiles.{
  new_fd, Server, serve_init, init_from, openfile_alloc, search_free, open_fresh, openfile_lookup,
}
use operating_systems_lab.Fs.OpenFiles.Slots.{
  Opened, openfile_alloc-Opened, openfile_lookup_iff, Held,
}
use operating_systems_lab.Fs.Serve.{
  Body, Reply, text_at, find_file, reopen, truncate_first, fill_open, serve_open_at, serve_open,
}
use operating_systems_lab.Fs.Dispatch.{handle, serve_round}
use operating_systems_lab.Fs.Dispatch.Steps.{shares, drops, writes, Step, sends}
use operating_systems_lab.Fs.Dispatch.Run.{IsSafe, Step-IsSafe}
use operating_systems_lab.Fs.Dispatch.Opens.{mapped_once_more, NamesOpen, open-NamesOpen}
use operating_systems_lab.Fs.Serve.{serve_read}
use operating_systems_lab.Fs.Serve.Reads.{serve_read-overrun}
use operating_systems_lab.Base.{◌-◌, update, take, drop, min, false}
use operating_systems_lab.Kern.State.{pgsize}
use operating_systems_lab.Fs.Bitmap.{block_is_free}
use operating_systems_lab.Fs.Content.{file_read, read_from, read_round, read_bytes}
use operating_systems_lab.Fs.Blocks.{file_get_block, file_block_walk, block_of}
use operating_systems_lab.Fs.Dispatch.Ids.{
  HeldRun, goes_on, serve_init-IsSafe, starts, held_id-found, none_yet, issues, old_id-refused,
}

abbrev disk : Disk
disk = record {
  words = λ b i.
      if b == 1
      then (if i == 1 then 100 else if i == 34 then 3 else if i == 36 then 4 else 0)
      else 0;
  flushed = [];
}

-- A server at boot.
abbrev boot : Server
boot = record {
  opentab = λ i. record { o_fileid = 0; o_file = none; o_mode = 0; o_fd = 0 };
  fd_page = λ va. new_fd;
  refs = λ va. 0;
  disk = disk;
}

-- A request to open the root directory.
abbrev request : ℕ → ℕ
request i = 0

abbrev ready : Server
ready = serve_init boot

abbrev after : Option (Option Reply × Server) → Server
after none = boot
after (some (a, s)) = s

abbrev opened : Server
opened = after (serve_round (ok tt) 7 1 request ready)

open_reply :
    serve_round (ok tt) 7 1 request ready
    ≡ some (some (record { r = ok 0; body = Body.nothing; pg = some 0xD000_0000 }), opened)
unfolding serve_round handle serve_open serve_open_at fill_open find_file reopen truncate_first
    text_at openfile_alloc search_free open_fresh serve_init init_from file_open walk_path walk_from
    skip_slash
open_reply = refl

openfile_alloc-Opened_example : Opened (ok tt) 0 boot (openfile_alloc (ok tt) boot)
openfile_alloc-Opened_example = openfile_alloc-Opened (ok tt) boot

-- After the client has mapped the page.
abbrev shared : Server
shared = mapped_once_more 0xD000_0000 opened

ready-IsSafe : IsSafe ready
ready-IsSafe = serve_init-IsSafe boot (λ va. omega arith)

open-Step : Step ready shared
open-Step = sends (ok tt) 7 1 request _ opened 0xD000_0000 open_reply refl refl

shared-IsSafe : IsSafe shared
shared-IsSafe = Step-IsSafe ready-IsSafe open-Step

open-NamesOpen_example : NamesOpen 0xD000_0000 shared
open-NamesOpen_example =
    open-NamesOpen (ok tt) 7 1 request _ ready opened 0xD000_0000 ready-IsSafe open_reply refl

id_1024 : openfile_lookup 1024 shared ≡ ok 0
unfolding openfile_lookup serve_round handle serve_open serve_open_at fill_open find_file reopen
    truncate_first text_at openfile_alloc search_free open_fresh serve_init init_from file_open
    walk_path walk_from skip_slash
id_1024 = refl

shared_entry : (shared.opentab 0).o_fileid ≡ 1024
unfolding serve_round handle serve_open serve_open_at fill_open find_file reopen truncate_first
    text_at openfile_alloc search_free open_fresh serve_init init_from file_open walk_path walk_from
    skip_slash
shared_entry = refl

ready_entry : (ready.opentab 0).o_fileid ≡ 0
unfolding serve_init init_from
ready_entry = refl

id_1024-Held :
    (openfile_lookup 1024 shared ≡ ok 0)
    ↔ ((0 < 1024) × ((shared.opentab 0).o_fileid ≡ 1024) × Held 0 shared)
id_1024-Held = openfile_lookup_iff 1024 0 shared shared-IsSafe.table

shared-Held : Held 0 shared
shared-Held = (id_1024-Held.0 id_1024).2

shared_page : ((shared.opentab 0).o_fd ≡ 0xD000_0000) × (shared.refs 0xD000_0000 ≡ 2)
unfolding serve_round handle serve_open serve_open_at fill_open find_file reopen truncate_first
    text_at openfile_alloc search_free open_fresh serve_init init_from file_open walk_path walk_from
    skip_slash
shared_page = (refl, refl)

-- The client shares the page, one of the two moves the offset, and one unmaps the page.
abbrev twice : Server
twice = mapped_once_more 0xD000_0000 shared

abbrev moved : Server
moved = record twice {
  fd_page = update twice.fd_page 0xD000_0000 (record (twice.fd_page 0xD000_0000) { fd_offset = 9 });
}

abbrev dropped : Server
dropped = record moved { refs = update moved.refs 0xD000_0000 (moved.refs 0xD000_0000 - 1) }

held_run : HeldRun 0 shared dropped
held_run =
    goes_on
      (goes_on
        (goes_on (starts shared-Held) (shares 0xD000_0000 (omega (arith, shared_page.1)) refl)
          (ground (arith, shared_page)))
        (writes 0xD000_0000 (record (twice.fd_page 0xD000_0000) { fd_offset = 9 })
          (ground (arith, shared_page.1)) refl)
        (ground (arith, shared_page)))
      (drops 0xD000_0000 (ground (arith, shared_page.1)) refl) (ground (arith, shared_page))

held_id-found_example :
    (openfile_lookup (shared.opentab 0).o_fileid dropped ≡ ok 0)
    × (dropped.opentab 0 ≡ shared.opentab 0)
held_id-found_example = held_id-found 0 shared-IsSafe (omega arith) held_run

old_id-refused_example : openfile_lookup (ready.opentab 0).o_fileid shared ≡ err Error.inval
old_id-refused_example =
    old_id-refused 0 1 ready-IsSafe (omega arith) (omega (arith, ready_entry)) (omega arith)
      (omega arith)
      (issues none_yet open-Step (λ e. absurd (omega (arith, ready_entry, shared_entry))))

-- A server with one open file: 5000 bytes in the blocks 4 and 5, at offset 1.
abbrev pub reading : Server
reading = record {
  opentab =
      λ i. record { o_fileid = 1024; o_file = some root_file; o_mode = 0; o_fd = 0xD000_0000 };
  fd_page = λ va. record { fd_dev_id = 102; fd_offset = 1; fd_omode = 0; fd_file_id = 1024 };
  refs = λ va. 2;
  disk = record {
    words = λ b i.
        if b == 1
        then (if i == 1
            then 100
            else if i == 34
            then 5000
            else if i == 36
            then 4
            else if i == 37
            then 5
            else 0)
        else 0;
    flushed = [];
  };
}

pub reading_1024 : openfile_lookup 1024 reading ≡ ok 0
unfolding openfile_lookup
reading_1024 = refl

abbrev bytes_of : Option (Result (List ℕ) × Disk) → List ℕ
bytes_of (some (ok xs, d)) = xs
bytes_of r = []

pub two_read : file_read root_file 2 1 reading.disk ≡ some (ok (0 ∷ 0 ∷ []), reading.disk)
unfolding file_read read_from read_round read_bytes file_get_block file_block_walk block_of
two_read = refl

abbrev much : List ℕ
much = bytes_of (file_read root_file 4500 1 reading.disk)

much_read : file_read root_file 4500 1 reading.disk ≡ some (ok much, reading.disk)
unfolding file_read read_from read_round read_bytes file_get_block file_block_walk block_of
much_read = refl

boot_block_used : block_is_free 0 reading.disk ≡ false
unfolding block_is_free
boot_block_used = refl

serve_read-overrun_example :
    (t : Server) × (serve_read 1024 4500 reading
      ≡ some (record { r = ok (length much); body = Body.bytes (take pgsize much); pg = none }, t))
    × (length much ≡ min 4500 4999)
    × (pgsize < length much)
    × (read_bytes (length much - pgsize) 0 0 t.disk ≡ drop pgsize much)
serve_read-overrun_example =
    serve_read-overrun 1024 4500 0 root_file reading reading.disk much reading_1024 refl much_read
      (omega arith) (omega arith) (omega arith) boot_block_used
