-- ===== src/User/Client/Writing.antt =====
-- Writing through oslab6/lib/file.c and oslab6/fs/serv.c.
use operating_systems_lab.Base.{
  ℕ, zero, suc, ◌+◌, ◌%◌, ◌^◌, ◌<◌, ◌≤◌, ◌≡◌, refl, sym, ap, ◌∙◌, arith, min, ltb, le→ltb, take,
  length, false, none, some, List, [], ◌∷◌,
}
use operating_systems_lab.Kern.State.{Result, ok, pgsize}
use operating_systems_lab.Fs.Disk.{FilePtr, Disk}
use operating_systems_lab.Fs.Content.{file_write}
use operating_systems_lab.Fs.OpenFiles.{Server, openfile_lookup}
use operating_systems_lab.Fs.Serve.{Body, bytes_from, serve_write, write_reply, advance}
use operating_systems_lab.Fs.Serve.Reads.{offset_of, on_file-some}
use operating_systems_lab.Fs.Dispatch.{word, handle, answered, serve_round}
use operating_systems_lab.User.Client.{
  Client, put_bytes, leave, fill_buf, req_buf_size, write_result, devfile_write,
}
use operating_systems_lab.User.Client.Pages.{word-put_bytes, bytes_from-put_bytes}
use operating_systems_lab.User.Client.Reading.{request, request_words, answer}

length-take-le : (n : ℕ) (xs : List ℕ) → n ≤ length xs → length (take n xs) ≡ n
length-take-le zero xs h = refl
length-take-le (suc n) [] h = absurd (omega arith)
length-take-le (suc n) (x ∷ xs) h = omega (arith, length-take-le n xs (omega arith))

-- The server's part, for the bytes that the page holds.
write_round :
    (alloc : Result (Unit {0})) (id n : ℕ) (ys : List ℕ) (page : ℕ → ℕ) (s : Server)
    → word page 0 ≡ id
    → word page 4 ≡ n
    → bytes_from n 8 page ≡ ys
    → serve_round alloc 7 4 page s ≡ answered (serve_write id ys s)
unfolding serve_round handle
write_round alloc id n ys page s e f g =
    ap (λ a. answered (serve_write a (bytes_from (word page 4) 8 page) s)) e
    ∙ ap (λ b. answered (serve_write id (bytes_from b 8 page) s)) f
    ∙ ap (λ zs. answered (serve_write id zs s)) g

served :
    (id i : ℕ) (f : FilePtr) (ys : List ℕ) (s : Server) (d : Disk)
    → openfile_lookup id s ≡ ok i
    → (s.opentab i).o_file ≡ some f
    → file_write f ys (offset_of i s) s.disk ≡ some (ok tt, d)
    → serve_write id ys s
      ≡ some (
        record { r = ok (length ys); body = Body.nothing; pg = none },
        advance (s.opentab i) (length ys) (record s { disk = d }),
      )
unfolding serve_write write_reply
served id i f ys s d found file write =
    rw found (on_file-some _ i f s file ∙ ap (λ r. write_reply (s.opentab i) (length ys) r s) write)

within_page :
    (n : ℕ) (c : Client) → n ≤ req_buf_size → write_result n (some (ok n, c)) ≡ some (ok n, c)
unfolding write_result
within_page n c le =
    let a : ltb n n ≡ false = le→ltb n n (omega arith) in
    let b : ltb pgsize n ≡ false = le→ltb pgsize n (omega arith) in rw (a, b) refl

-- For an open file, where the writing of the first 4088 bytes, or of all if these are fewer, at its
-- offset succeeds on the disk, `devfile_write` returns their number, the disk is as that writing
-- leaves it, and the offset moves on by their number.
pub devfile_write-writes :
    (alloc : Result (Unit {0})) (id i : ℕ) (f : FilePtr) (xs : List ℕ) (c : Client) (d : Disk)
    → id < 2 ^ 32
    → openfile_lookup id c.server ≡ ok i
    → (c.server.opentab i).o_file ≡ some f
    → file_write f (take (min (length xs) 4088) xs) (offset_of i c.server) c.server.disk
      ≡ some (ok tt, d)
    → (c' : Client) × (devfile_write alloc id xs c ≡ some (ok (min (length xs) 4088), c'))
      × (c'.server.disk ≡ d)
      × (offset_of i c'.server ≡ (offset_of i c.server + min (length xs) 4088) % 2 ^ 32)
unfolding devfile_write leave
devfile_write-writes alloc id i f xs c d small found file write =
    let n = min (length xs) 4088 in
    let ys = take n xs in
    let size : length ys ≡ n = length-take-le n xs (omega arith) in
    let words = request_words id n c.fsipcbuf small (omega arith) in
    let page = put_bytes 8 ys (request id n c.fsipcbuf) in
    let t = advance (c.server.opentab i) (length ys) (record (c.server) { disk = d }) in
    let bytes : bytes_from n 8 page ≡ ys =
      ap (λ k. bytes_from k 8 page) (sym size)
      ∙ bytes_from-put_bytes 8 ys (request id n c.fsipcbuf) in
    let runs =
      write_round alloc id n ys page c.server
        (word-put_bytes 8 0 ys (request id n c.fsipcbuf) (omega arith) ∙ words.0)
        (word-put_bytes 8 4 ys (request id n c.fsipcbuf) (omega arith) ∙ words.1) bytes
      ∙ ap answered (served id i f ys c.server d found file write) in
    let answers =
      answer alloc 4 (fill_buf (λ p. put_bytes 8 ys (request id n p)) c) _ Body.nothing t runs in
    (
      record c { fsipcbuf = page; server = t },
      ap (λ q. write_result n q) answers
          ∙ ap (λ m. write_result n (some (ok m, record c { fsipcbuf = page; server = t }))) size
          ∙ within_page n (record c { fsipcbuf = page; server = t }) (omega arith),
      refl,
      ground (arith, size),
    )
