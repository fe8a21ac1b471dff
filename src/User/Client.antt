-- ===== src/User/Client.antt =====
-- The client of the file server, oslab6/lib/file.c, with the server in its state: a request is a
-- round of the server. `none` is a failed assertion of the client or a fault of either, or a client
-- that waits for ever.
pub mod Pages
pub mod Reading
pub mod Writing
use operating_systems_lab.Base.{
  ℕ, zero, suc, ◌+◌, ◌-◌, ◌*◌, ◌/◌, ◌%◌, ◌^◌, ◌==◌, leb, ltb, min, update, length, take,
}
use operating_systems_lab.Base.{
  Bool, true, false, Option, none, some, if◌then◌else◌, List, [], ◌∷◌, ◌++◌,
}
use operating_systems_lab.Kern.State.{Result, ok, err, Error, pgsize}
use operating_systems_lab.Fs.OpenFiles.{Server}
use operating_systems_lab.Fs.Serve.{Body, Reply, text_at, bytes_from}
use operating_systems_lab.Fs.Dispatch.{word, serve_round}
use operating_systems_lab.User.Descriptors.{fd_alloc, fd2num}
use operating_systems_lab.User.Files.{Stat, is_some}

-- A word to byte `i`, and bytes from byte `i` on.
abbrev pub set_word : ℕ → ℕ → (ℕ → ℕ) → ℕ → ℕ
set_word i w page =
    update
      (update (update (update page i (w % 256)) (i + 1) (w / 256 % 256)) (i + 2) (w / 65536 % 256))
      (i + 3) (w / 16777216 % 256)

unfoldable pub put_bytes : ℕ → List ℕ → (ℕ → ℕ) → ℕ → ℕ
put_bytes i [] page = page
put_bytes i (x ∷ xs) page = update (put_bytes (i + 1) xs page) i x

-- `fsipcbuf`, and for each page address of a descriptor the address at which the server has the page
-- that is mapped there.
pub record Client : Type 0 where
  pub fsipcbuf : ℕ → ℕ
  pub fds : ℕ → Option ℕ
  pub server : Server

-- What the server left on the request page.
unfoldable pub leave : Body → (ℕ → ℕ) → ℕ → ℕ
leave Body.nothing page = page
leave (Body.bytes xs) page = put_bytes 0 xs page
leave (Body.stat name size isdir) page =
    set_word 132 (if isdir then 1 else 0) (set_word 128 size (put_bytes 0 (name ++ (0 ∷ [])) page))

-- `ipc_recv` at `dstva`, where no page is mapped: a page that is sent is mapped there.
unfoldable pub receive_page : Option ℕ → Option ℕ → Client → Client
receive_page dstva none c = c
receive_page none (some va) c = c
receive_page (some dst) (some va) c =
    let s = c.server in
    record c {
      fds = update c.fds dst (some va);
      server = record s { refs = update s.refs va (s.refs va + 1) };
    }

unfoldable pub take_reply :
    Option ℕ → Option (Option Reply × Server) → Client → Option (Result ℕ × Client)
take_reply dstva none c = none
take_reply dstva (some (none, s)) c = none
take_reply dstva (some (some a, s)) c =
    some
      (a.r, receive_page dstva a.pg (record c { fsipcbuf = leave a.body c.fsipcbuf; server = s }))

-- `fsipc`; the page is sent with `PTE_P | PTE_W | PTE_U`.
unfoldable pub fsipc : Result (Unit {0}) → ℕ → Option ℕ → Client → Option (Result ℕ × Client)
fsipc alloc type dstva c = take_reply dstva (serve_round alloc 7 type c.fsipcbuf c.server) c

abbrev pub fill_buf : ((ℕ → ℕ) → ℕ → ℕ) → Client → Client
fill_buf f c = record c { fsipcbuf = f c.fsipcbuf }

-- `FSREQ_FLUSH`, for the descriptor with file id `id`.
unfoldable pub devfile_flush : Result (Unit {0}) → ℕ → Client → Option (Result ℕ × Client)
devfile_flush alloc id c = fsipc alloc 6 none (fill_buf (set_word 0 id) c)

-- The end of `devfile_read`: the bytes that are moved to the caller, who asked for `n`.
unfoldable pub read_result : ℕ → Option (Result ℕ × Client) → Option (Result (List ℕ) × Client)
read_result n none = none
read_result n (some (err e, c)) = some (err e, c)
read_result n (some (ok r, c)) =
    if ltb n r
    then none
    else if ltb pgsize r
    then none
    else some (ok (bytes_from r 0 c.fsipcbuf), c)

unfoldable pub devfile_read : Result (Unit {0}) → ℕ → ℕ → Client → Option (Result (List ℕ) × Client)
devfile_read alloc id n c =
    read_result n (fsipc alloc 3 none (fill_buf (λ page. set_word 4 n (set_word 0 id page)) c))

-- `sizeof(fsipcbuf.write.req_buf)`
abbrev pub req_buf_size : ℕ
req_buf_size = pgsize - 8

unfoldable pub write_result : ℕ → Option (Result ℕ × Client) → Option (Result ℕ × Client)
write_result n none = none
write_result n (some (err e, c)) = some (err e, c)
write_result n (some (ok r, c)) =
    if ltb n r then none else if ltb pgsize r then none else some (ok r, c)

unfoldable pub devfile_write : Result (Unit {0}) → ℕ → List ℕ → Client → Option (Result ℕ × Client)
devfile_write alloc id xs c =
    let n = min (length xs) req_buf_size in
    write_result n (
      fsipc alloc 4 none
        (fill_buf (λ page. put_bytes 8 (take n xs) (set_word 4 n (set_word 0 id page))) c))

unfoldable pub stat_result : Option (Result ℕ × Client) → Option (Result Stat × Client)
stat_result none = none
stat_result (some (err e, c)) = some (err e, c)
stat_result (some (ok r, c)) = some (
  ok (record {
    st_name = text_at 128 0 c.fsipcbuf;
    st_size = word c.fsipcbuf 128;
    st_isdir = if word c.fsipcbuf 132 == 0 then false else true;
  }),
  c,
)

unfoldable pub devfile_stat : Result (Unit {0}) → ℕ → Client → Option (Result Stat × Client)
devfile_stat alloc id c = stat_result (fsipc alloc 5 none (fill_buf (set_word 0 id) c))

unfoldable pub devfile_trunc : Result (Unit {0}) → ℕ → ℕ → Client → Option (Result ℕ × Client)
devfile_trunc alloc id size c =
    fsipc alloc 2 none (fill_buf (λ page. set_word 4 size (set_word 0 id page)) c)

unfoldable pub sync : Result (Unit {0}) → Client → Option (Result ℕ × Client)
sync alloc c = fsipc alloc 8 none c

-- The end of `open`: a negative answer maps no page, so that `fd_close(fd, 0)` does nothing.
unfoldable pub open_result : ℕ → Option (Result ℕ × Client) → Option (Result ℕ × Client)
open_result fd none = none
open_result fd (some (err e, c)) = some (err e, c)
open_result fd (some (ok r, c)) = some (if leb (2 ^ 31) r then ok r else ok (fd2num fd), c)

unfoldable pub open_at :
    Result (Unit {0}) → List ℕ → ℕ → Result ℕ → Client → Option (Result ℕ × Client)
open_at alloc path mode (err e) c = some (err e, c)
open_at alloc path mode (ok fd) c = open_result fd (
    fsipc alloc 1 (some fd)
      (fill_buf (λ page. set_word 1024 mode (put_bytes 0 (path ++ (0 ∷ [])) page)) c))

-- `open`; `MAXPATHLEN` is 1024.
unfoldable pub open_file : Result (Unit {0}) → List ℕ → ℕ → Client → Option (Result ℕ × Client)
open_file alloc path mode c =
    if leb 1024 (length path)
    then some (err Error.bad_path, c)
    else open_at alloc path mode (fd_alloc (λ va. is_some (c.fds va))) c
