-- ===== src/Fs/Serve.antt =====
-- The requests of clients to the file server, oslab6/fs/serv.c. `none` is a panic or a fault of the
-- server, or a reply that is so long that it overwrites the super block, where the model stops.
pub mod Table
pub mod Reads
use operating_systems_lab.Base.{
  ℕ, zero, suc, ◌+◌, ◌-◌, ◌*◌, ◌/◌, ◌%◌, ◌^◌, ◌==◌, leb, ltb, update, length, take, drop, ◌||◌,
}
use operating_systems_lab.Base.{
  Bool, true, false, not, Option, none, some, if◌then◌else◌, List, [], ◌∷◌,
}
use operating_systems_lab.Kern.State.{Result, ok, err, Error, pgsize}
use operating_systems_lab.Fs.Disk.{Disk, FilePtr, blksize, f_size, f_type}
use operating_systems_lab.Fs.Blocks.{file_set_size, file_flush, fs_sync}
use operating_systems_lab.Fs.Names.{file_open, file_create, name_byte, maxnamelen, ftype_dir}
use operating_systems_lab.Fs.Content.{file_read, file_write, write_bytes}
use operating_systems_lab.Fs.Bitmap.{block_is_free}
use operating_systems_lab.Fs.OpenFiles.{OpenFile, Server, openfile_alloc, openfile_lookup}

-- What the server leaves on the request page.
pub data Body : Type 0 where
  nothing : Body
  bytes : List ℕ → Body
  stat : List ℕ → ℕ → Bool → Body

-- The value that is sent back, negative for an error, and the page sent along.
pub record Reply : Type 0 where
  pub r : Result ℕ
  pub body : Body
  pub pg : Option ℕ

abbrev pub reply : Result ℕ → Reply
reply r = record { r = r; body = Body.nothing; pg = none }

abbrev pub Served : Type 0
Served = Option (Reply × Server)

-- A bit of the mode: `O_CREAT` is bit 8, `O_TRUNC` bit 9 and `O_EXCL` bit 10.
abbrev pub flag : ℕ → ℕ → Bool
flag omode k = not (omode / 2 ^ k % 2 == 0)

-- The string at `i`, cut after `n` bytes.
unfoldable pub text_at : ℕ → ℕ → (ℕ → ℕ) → List ℕ
text_at zero i page = []
text_at (suc n) i page =
    let rest = text_at n (i + 1) page in if page i == 0 then [] else page i ∷ rest

-- `n` bytes from `i` on.
unfoldable pub bytes_from : ℕ → ℕ → (ℕ → ℕ) → List ℕ
bytes_from zero i page = []
bytes_from (suc n) i page = page i ∷ bytes_from n (i + 1) page

-- After `file_create`: a file that exists is opened unless `excl`.
unfoldable pub try_open :
    Bool → List ℕ → Option (Result FilePtr × Disk) → Option (Result FilePtr × Disk)
try_open excl path none = none
try_open false path (some (err Error.file_exists, d)) = file_open path d
try_open excl path (some (r, d)) = some (r, d)

unfoldable pub truncate_first : ℕ → FilePtr → Disk → Option Disk
truncate_first omode f d = if flag omode 9 then file_set_size f 0 d else some d

-- The file is truncated if the mode asks for it, and opened again.
unfoldable pub reopen : ℕ → List ℕ → Option (Result FilePtr × Disk) → Option (Result FilePtr × Disk)
reopen omode path none = none
reopen omode path (some (err e, d)) = some (err e, d)
reopen omode path (some (ok f, d)) = elim (truncate_first omode f d) [
  | none ↦ none
  | some d' ↦ file_open path d'
]

unfoldable pub find_file : ℕ → List ℕ → Disk → Option (Result FilePtr × Disk)
find_file omode path d =
    reopen omode path (
      if flag omode 8 then try_open (flag omode 10) path (file_create path d) else file_open path d)

-- `'f'`
abbrev pub devfile_id : ℕ
devfile_id = 102

-- The end of `serve_open`, with the file found for entry `i`.
unfoldable pub fill_open : ℕ → ℕ → Option (Result FilePtr × Disk) → Server → Served
fill_open i omode none s = none
fill_open i omode (some (err e, d)) s = some (reply (err e), record s { disk = d })
fill_open i omode (some (ok f, d)) s =
    let o = s.opentab i in
    let fd = s.fd_page o.o_fd in
    some (
      record { r = ok 0; body = Body.nothing; pg = some o.o_fd },
      record s {
        disk = d;
        opentab = update s.opentab i (record o { o_file = some f; o_mode = omode });
        fd_page =
            update s.fd_page o.o_fd
              (record fd { fd_dev_id = devfile_id; fd_omode = omode % 4; fd_file_id = o.o_fileid });
      },
    )

-- The value of `openfile_alloc` is an `int`: an id from 2 ^ 31 on is taken for an error.
unfoldable pub serve_open_at : ℕ → List ℕ → Result ℕ × Server → Served
serve_open_at omode path (err e, s) = some (reply (err e), s)
serve_open_at omode path (ok i, s) =
    if leb (2 ^ 31) (s.opentab i).o_fileid
    then some (reply (ok (s.opentab i).o_fileid), s)
    else fill_open i omode (find_file omode path s.disk) s

unfoldable pub serve_open : Result (Unit {0}) → List ℕ → ℕ → Server → Served
serve_open alloc path omode s = serve_open_at omode path (openfile_alloc alloc s)

-- A request for the open file `fileid`. A null `o_file` is a fault.
unfoldable pub on_file : (OpenFile → FilePtr → Served) → Result ℕ → Server → Served
on_file f (err e) s = some (reply (err e), s)
on_file f (ok i) s = elim (s.opentab i).o_file [ none ↦ none | some p ↦ f (s.opentab i) p ]

unfoldable pub set_size_reply : Option Disk → Server → Served
set_size_reply none s = none
set_size_reply (some d) s = some (reply (ok 0), record s { disk = d })

unfoldable pub serve_set_size : ℕ → ℕ → Server → Served
serve_set_size fileid size s =
    on_file (λ o f. set_size_reply (file_set_size f size s.disk) s) (openfile_lookup fileid s) s

-- `o->o_fd->fd_offset += r`
abbrev pub advance : OpenFile → ℕ → Server → Server
advance o n s =
    let fd = s.fd_page o.o_fd in
    record s {
      fd_page = update s.fd_page o.o_fd (record fd { fd_offset = (fd.fd_offset + n) % 2 ^ 32 });
    }

-- `ret_buf` has a page, and the map of the disk starts behind it: what is read past the page goes to
-- block 0, which has to be mapped by a page fault first.
unfoldable pub overrun : List ℕ → Disk → Option Disk
overrun xs d =
    if block_is_free 0 d || ltb blksize (length xs) then none else some (write_bytes 0 0 xs d)

unfoldable pub long_reply : OpenFile → List ℕ → Option Disk → Server → Served
long_reply o xs none s = none
long_reply o xs (some d) s = some (
  record { r = ok (length xs); body = Body.bytes (take pgsize xs); pg = none },
  advance o (length xs) (record s { disk = d }),
)

unfoldable pub read_reply : OpenFile → Option (Result (List ℕ) × Disk) → Server → Served
read_reply o none s = none
read_reply o (some (err e, d)) s = some (reply (err e), record s { disk = d })
read_reply o (some (ok xs, d)) s =
    if ltb pgsize (length xs)
    then long_reply o xs (overrun (drop pgsize xs) d) s
    else some (
      record { r = ok (length xs); body = Body.bytes xs; pg = none },
      advance o (length xs) (record s { disk = d }),
    )

unfoldable pub serve_read : ℕ → ℕ → Server → Served
serve_read fileid n s =
    on_file (λ o f. read_reply o (file_read f n (s.fd_page o.o_fd).fd_offset s.disk) s)
      (openfile_lookup fileid s) s

unfoldable pub write_reply : OpenFile → ℕ → Option (Result (Unit {0}) × Disk) → Server → Served
write_reply o n none s = none
write_reply o n (some (err e, d)) s = some (reply (err e), record s { disk = d })
write_reply o n (some (ok _, d)) s = some (reply (ok n), advance o n (record s { disk = d }))

-- The bytes `xs` are `req_buf`.
unfoldable pub serve_write : ℕ → List ℕ → Server → Served
serve_write fileid xs s =
    on_file
      (λ o f. write_reply o (length xs) (file_write f xs (s.fd_page o.o_fd).fd_offset s.disk) s)
      (openfile_lookup fileid s) s

unfoldable pub serve_stat : ℕ → Server → Served
serve_stat fileid s =
    on_file
      (λ o f. some (
        record {
          r = ok 0;
          body =
              Body.stat (text_at maxnamelen 0 (name_byte s.disk f)) (f_size s.disk f)
                (f_type s.disk f == ftype_dir);
          pg = none;
        },
        s,
      ))
      (openfile_lookup fileid s) s

unfoldable pub serve_flush : ℕ → Server → Served
serve_flush fileid s =
    on_file (λ o f. set_size_reply (file_flush f s.disk) s) (openfile_lookup fileid s) s

unfoldable pub serve_sync : Server → Served
serve_sync s = some (reply (ok 0), record s { disk = fs_sync s.disk })
