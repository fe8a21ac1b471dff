-- ===== src/Fs/Dispatch.antt =====
-- A round of the loop of `serve`, oslab6/fs/serv.c: the request that `ipc_recv` returned, and what
-- `ipc_send` is given. `page` is the memory from `fsreq` on.
pub mod Steps
pub mod Run
pub mod Opens
pub mod Ids
use operating_systems_lab.Base.{ℕ, ◌+◌, ◌*◌, ◌%◌, ◌==◌, Option, none, some, if◌then◌else◌}
use operating_systems_lab.Kern.State.{Result, err, Error}
use operating_systems_lab.Fs.OpenFiles.{Server}
use operating_systems_lab.Fs.Serve.{bytes_from}
use operating_systems_lab.Fs.Serve.{
  Reply, Served, reply, text_at, serve_open, serve_set_size, serve_read, serve_write, serve_stat,
  serve_flush, serve_sync,
}

-- The word at byte `i`.
abbrev pub word : (ℕ → ℕ) → ℕ → ℕ
word page i = page i + 256 * page (i + 1) + 65536 * page (i + 2) + 16777216 * page (i + 3)

-- The request codes of oslab6/inc/fs.h. `FSREQ_REMOVE`, 7, has no handler.
unfoldable pub handle : Result (Unit {0}) → ℕ → (ℕ → ℕ) → Server → Served
handle alloc req page s =
    let fileid = word page 0 in
    if req == 1
    then serve_open alloc (text_at 1023 0 page) (word page 1024) s
    else if req == 2
    then serve_set_size fileid (word page 4) s
    else if req == 3
    then serve_read fileid (word page 4) s
    else if req == 4
    then serve_write fileid (bytes_from (word page 4) 8 page) s
    else if req == 5
    then serve_stat fileid s
    else if req == 6
    then serve_flush fileid s
    else if req == 8
    then serve_sync s
    else some (reply (err Error.inval), s)

abbrev pub answered : Served → Option (Option Reply × Server)
answered none = none
answered (some (a, s)) = some (some a, s)

-- A request without a page, `PTE_P` clear in `perm`, gets no answer.
unfoldable pub serve_round :
    Result (Unit {0}) → ℕ → ℕ → (ℕ → ℕ) → Server → Option (Option Reply × Server)
serve_round alloc perm req page s =
    if perm % 2 == 0 then some (none, s) else answered (handle alloc req page s)
