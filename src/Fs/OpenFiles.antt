-- ===== src/Fs/OpenFiles.antt =====
-- The table of open files of the file server, oslab6/fs/serv.c. `refs` is `pageref` of an address:
-- the kernel counts there the server and every environment that has the page.
pub mod Slots
use operating_systems_lab.Base.{ℕ, zero, suc, ◌+◌, ◌*◌, ◌%◌, ◌^◌, ◌==◌, leb, update}
use operating_systems_lab.Base.{not, ◌||◌, Option, none, if◌then◌else◌}
use operating_systems_lab.Kern.State.{Result, ok, err, Error, pgsize}
use operating_systems_lab.Fs.Disk.{Disk, FilePtr}

-- `MAXOPEN`
abbrev pub maxopen : ℕ
maxopen = 1024

abbrev pub fileva : ℕ
fileva = 0xD000_0000

-- `o_file` is none for a null pointer.
pub record OpenFile : Type 0 where
  pub o_fileid : ℕ
  pub o_file : Option FilePtr
  pub o_mode : ℕ
  pub o_fd : ℕ

pub record Fd : Type 0 where
  pub fd_dev_id : ℕ
  pub fd_offset : ℕ
  pub fd_omode : ℕ
  pub fd_file_id : ℕ

-- A cleared page.
abbrev pub new_fd : Fd
new_fd = record { fd_dev_id = 0; fd_offset = 0; fd_omode = 0; fd_file_id = 0 }

-- `fd_page` and `refs` are indexed by the address of the page.
pub record Server : Type 0 where
  pub opentab : ℕ → OpenFile
  pub fd_page : ℕ → Fd
  pub refs : ℕ → ℕ
  pub disk : Disk

-- The loop of `serve_init`, at entry `i` and address `va`.
unfoldable pub init_from : ℕ → ℕ → ℕ → (ℕ → OpenFile) → ℕ → OpenFile
init_from zero i va opentab = opentab
init_from (suc n) i va opentab =
    init_from n (i + 1) (va + pgsize)
      (update opentab i (record (opentab i) { o_fileid = i; o_fd = va }))

unfoldable pub serve_init : Server → Server
serve_init s = record s { opentab = init_from maxopen 0 fileva s.opentab }

-- Entry `i`, whose page is mapped, is handed out.
abbrev pub hand_out : ℕ → Server → Server
hand_out i s =
    let o = s.opentab i in
    record s {
      opentab = update s.opentab i (record o { o_fileid = (o.o_fileid + maxopen) % 2 ^ 32 });
      fd_page = update s.fd_page o.o_fd new_fd;
    }

-- `sys_page_alloc` at `va`, of which `alloc` is the outcome.
abbrev pub map_fd : ℕ → Server → Server
map_fd va s = record s { refs = update s.refs va 1 }

-- Entry `i`, whose page is not mapped.
unfoldable pub open_fresh : Result (Unit {0}) → ℕ → Server → Result ℕ × Server
open_fresh (err e) i s = (err e, s)
open_fresh (ok _) i s = (ok i, hand_out i (map_fd (s.opentab i).o_fd s))

-- The loop of `openfile_alloc`, from entry `i` on, with `n` left. The index of the entry is
-- returned; the source returns its `o_fileid`.
unfoldable pub search_free : Result (Unit {0}) → ℕ → ℕ → Server → Result ℕ × Server
search_free alloc zero i s = (err Error.max_open, s)
search_free alloc (suc n) i s =
    let rest = search_free alloc n (i + 1) s in
    let held = s.refs (s.opentab i).o_fd in
    if held == 0 then open_fresh alloc i s else if held == 1 then (ok i, hand_out i s) else rest

unfoldable pub openfile_alloc : Result (Unit {0}) → Server → Result ℕ × Server
openfile_alloc alloc s = search_free alloc maxopen 0 s

-- The index of the entry.
unfoldable pub openfile_lookup : ℕ → Server → Result ℕ
openfile_lookup fileid s =
    let o = s.opentab (fileid % maxopen) in
    if leb (s.refs o.o_fd) 1 || not (o.o_fileid == fileid)
    then err Error.inval
    else ok (fileid % maxopen)
