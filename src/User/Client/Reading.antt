-- ===== src/User/Client/Reading.antt =====
-- Reading and writing through oslab6/lib/file.c and oslab6/fs/serv.c.
use operating_systems_lab.Base.{
  ℕ, ◌+◌, ◌-◌, ◌^◌, ◌<◌, ◌≤◌, ◌≡◌, refl, sym, ap, ◌∙◌, arith, min, ltb, le→ltb, length, false, none,
  some, List,
}
use operating_systems_lab.Kern.State.{Result, ok, pgsize}
use operating_systems_lab.Fs.Disk.{FilePtr, Disk, f_size}
use operating_systems_lab.Fs.Content.{file_read}
use operating_systems_lab.Fs.Content.Transfer.{length-file_read}
use operating_systems_lab.Fs.OpenFiles.{Server, openfile_lookup}
use operating_systems_lab.Fs.Serve.{Body, bytes_from, serve_read}
use operating_systems_lab.Fs.Serve.Reads.{offset_of, serve_read-position}
use operating_systems_lab.Fs.Dispatch.{word, handle, answered, serve_round}
use operating_systems_lab.User.Client.{
  Client, set_word, put_bytes, leave, receive_page, take_reply, fsipc, fill_buf, read_result,
  devfile_read,
}
use operating_systems_lab.User.Client.Pages.{
  word-set_word_self, word-set_word_before, bytes_from-put_bytes,
}

-- The page of a request for a file with a number.
abbrev pub request : ℕ → ℕ → (ℕ → ℕ) → ℕ → ℕ
request id n page = set_word 4 n (set_word 0 id page)

pub request_words :
    (id n : ℕ) (page : ℕ → ℕ)
    → id < 2 ^ 32
    → n < 2 ^ 32
    → (word (request id n page) 0 ≡ id) × (word (request id n page) 4 ≡ n)
request_words id n page small fits = (
  word-set_word_before 4 0 n (set_word 0 id page) (omega arith)
      ∙ word-set_word_self 0 id page small,
  word-set_word_self 4 n (set_word 0 id page) fits,
)

read_round :
    (alloc : Result (Unit {0})) (id n : ℕ) (page : ℕ → ℕ) (s : Server)
    → word page 0 ≡ id
    → word page 4 ≡ n
    → serve_round alloc 7 3 page s ≡ answered (serve_read id n s)
unfolding serve_round handle
read_round alloc id n page s e f =
    ap (λ a. answered (serve_read a (word page 4) s)) e ∙ ap (λ b. answered (serve_read id b s)) f

-- A reply with no page.
pub answer :
    (alloc : Result (Unit {0})) (type : ℕ) (c : Client) (r : Result ℕ) (body : Body) (t : Server)
    → serve_round alloc 7 type c.fsipcbuf c.server
      ≡ some (some (record { r = r; body = body; pg = none }), t)
    → fsipc alloc type none c ≡ some (r, record c { fsipcbuf = leave body c.fsipcbuf; server = t })
unfolding fsipc take_reply receive_page
answer alloc type c r body t e = ap (λ q. take_reply none q c) e

read_ends :
    (n m : ℕ) (xs : List ℕ) (c : Client) (page : ℕ → ℕ) (t : Server)
    → m ≡ length xs
    → m ≤ n
    → n ≤ pgsize
    → read_result n (some (ok m, record c { fsipcbuf = leave (Body.bytes xs) page; server = t }))
      ≡ some (ok xs, record c { fsipcbuf = leave (Body.bytes xs) page; server = t })
unfolding read_result leave
read_ends n m xs c page t e le fits =
    let within : ltb n m ≡ false = le→ltb n m le in
    let small : ltb pgsize m ≡ false = le→ltb pgsize m (omega arith) in
    let same : bytes_from m 0 (put_bytes 0 xs page) ≡ xs =
      ap (λ k. bytes_from k 0 (put_bytes 0 xs page)) e ∙ bytes_from-put_bytes 0 xs page in
    rw (within, small, same) refl

-- For an open file with an offset not past its end and below 2 ^ 31, where the reading of the file
-- succeeds, `devfile_read` of at most a page returns the bytes that the server reads there, and the
-- offset moves on to the end of them.
pub devfile_read-reads :
    (alloc : Result (Unit {0})) (id n i : ℕ) (f : FilePtr) (c : Client) (d : Disk) (xs : List ℕ)
    → id < 2 ^ 32
    → openfile_lookup id c.server ≡ ok i
    → (c.server.opentab i).o_file ≡ some f
    → file_read f n (offset_of i c.server) c.server.disk ≡ some (ok xs, d)
    → offset_of i c.server ≤ f_size c.server.disk f
    → f_size c.server.disk f < 2 ^ 31
    → n ≤ pgsize
    → (c' : Client) × (devfile_read alloc id n c ≡ some (ok xs, c'))
      × (length xs ≡ min n (f_size c.server.disk f - offset_of i c.server))
      × (offset_of i c'.server ≡ min (offset_of i c.server + n) (f_size c.server.disk f))
unfolding devfile_read
devfile_read-reads alloc id n i f c d xs small found file read le below fits =
    let (t, runs, moves) =
      serve_read-position id n i f c.server d xs found file read le below fits in
    let page = request id n c.fsipcbuf in
    let words = request_words id n c.fsipcbuf small (omega arith) in
    let size = length-file_read f n (offset_of i c.server) c.server.disk d xs read in
    (
      record c { fsipcbuf = leave (Body.bytes xs) page; server = t },
      ap (λ q. read_result n q)
            (answer alloc 3 (fill_buf (request id n) c) _ (Body.bytes xs) t
              (read_round alloc id n page c.server words.0 words.1 ∙ ap answered runs))
          ∙ read_ends n (min n (f_size c.server.disk f - offset_of i c.server)) xs c page t
              (sym size) (omega arith) fits,
      size,
      moves,
    )
