-- ===== src/User/Files.antt =====
-- The file operations of oslab6/lib/fd.c, over a table of devices. A descriptor is a page, and two
-- descriptors may share one. `World` is what the devices keep for themselves.
pub mod Dup
pub mod Closing
use operating_systems_lab.Base.{ℕ, zero, suc, ◌+◌, ◌-◌, ◌%◌, ◌==◌, leb, update, length}
use operating_systems_lab.Base.{
  Bool, true, false, not, Option, none, some, if◌then◌else◌, List, [], ◌∷◌, ◌++◌,
}
use operating_systems_lab.Kern.State.{Result, ok, err, Error}
use operating_systems_lab.Fs.OpenFiles.{Fd, new_fd}
use operating_systems_lab.User.Descriptors.{maxfd, index2fd, fd2num, fd2data, fd_lookup}

-- The physical page at each page address, the `struct Fd` in each physical page, and the devices'
-- state.
pub record Files (World : Type 0) : Type 0 where
  pub page_at : ℕ → Option ℕ
  pub fd_in : ℕ → Fd
  pub world : World

abbrev pub is_some : Option ℕ → Bool
is_some none = false
is_some (some _) = true

-- `st_dev` is left out.
pub record Stat : Type 0 where
  pub st_name : List ℕ
  pub st_size : ℕ
  pub st_isdir : Bool

-- The operations get the address of the descriptor. A read returns its bytes.
pub record Dev (World : Type 0) : Type 0 where
  pub dev_id : ℕ
  pub dev_read : Option (ℕ → ℕ → Files World → Result (List ℕ) × Files World)
  pub dev_write : Option (ℕ → List ℕ → Files World → Result ℕ × Files World)
  pub dev_close : Option (ℕ → Files World → Result ℕ × Files World)
  pub dev_stat : Option (ℕ → Stat → Files World → Result Stat × Files World)
  pub dev_trunc : Option (ℕ → ℕ → Files World → Result ℕ × Files World)

-- The value that is returned for a descriptor that is not open.
abbrev pub not_open : Bool → Result ℕ → Result ℕ
not_open true r = r
not_open false r = ok 0

module _ {World : Type 0} where
  abbrev pub mapped : Files World → ℕ → Bool
  mapped s va = is_some (s.page_at va)

  -- `*fd`, where the page is mapped.
  abbrev pub fd_at : Files World → ℕ → Fd
  fd_at s va = elim (s.page_at va) [ none ↦ new_fd | some n ↦ s.fd_in n ]

  abbrev pub mode : Files World → ℕ → ℕ
  mode s fd = (fd_at s fd).fd_omode % 4

  -- `sys_page_unmap` of a page of the environment itself.
  abbrev pub unmap : ℕ → Files World → Files World
  unmap va s = record s { page_at = update s.page_at va none }

  -- `sys_page_map` within the environment, of a page that was looked up; `room` is whether a page
  -- table can be had where one is missing.
  unfoldable pub map_found : Bool → Option ℕ → ℕ → Files World → Result (Unit {0}) × Files World
  map_found room none nva s = (err Error.inval, s)
  map_found false (some n) nva s = (err Error.no_mem, s)
  map_found true (some n) nva s = (ok tt, record s { page_at = update s.page_at nva (some n) })

  unfoldable pub map_page : Bool → ℕ → ℕ → Files World → Result (Unit {0}) × Files World
  map_page room ova nva s = map_found room (s.page_at ova) nva s

  -- The loop of `dev_lookup`.
  unfoldable pub find_dev : ℕ → List (Dev World) → Result (Dev World)
  find_dev id [] = err Error.inval
  find_dev id (d ∷ ds) = let rest = find_dev id ds in if d.dev_id == id then ok d else rest

  abbrev pub call_close :
      Option (ℕ → Files World → Result ℕ × Files World) → ℕ → Files World → Result ℕ × Files World
  call_close none fd s = (ok 0, s)
  call_close (some f) fd s = f fd s

  -- The middle of `fd_close`, after `dev_lookup`.
  unfoldable pub close_dev : Result (Dev World) → ℕ → Files World → Result ℕ × Files World
  close_dev (err e) fd s = (err e, s)
  close_dev (ok d) fd s = call_close d.dev_close fd s

  -- The end of `dup`, with the result of the last `sys_page_map`: at `err` both pages are unmapped.
  unfoldable pub end_dup : ℕ → Result (Unit {0}) × Files World → Result ℕ × Files World
  end_dup newfdnum (ok _, s) = (ok newfdnum, s)
  end_dup newfdnum (err e, s) =
      (err e, unmap (fd2data (index2fd newfdnum)) (unmap (index2fd newfdnum) s))

  -- After the data page was shared: the page of the descriptor.
  unfoldable pub dup_fd : Bool → ℕ → ℕ → Result (Unit {0}) × Files World → Result ℕ × Files World
  dup_fd room oldfd newfdnum (err e, s) = end_dup newfdnum (err e, s)
  dup_fd room oldfd newfdnum (ok _, s) =
      end_dup newfdnum (map_page room oldfd (index2fd newfdnum) s)

  -- The data page is mapped for the new descriptor too if there is one.
  unfoldable pub share_data : Bool → Option ℕ → ℕ → Files World → Result (Unit {0}) × Files World
  share_data room none nva s = (ok tt, s)
  share_data room (some n) nva s = map_found room (some n) nva s

  unfoldable pub dup_pages : Bool → Bool → ℕ → ℕ → Files World → Result ℕ × Files World
  dup_pages room room' oldfd newfdnum s =
      dup_fd room' oldfd newfdnum
        (share_data room (s.page_at (fd2data oldfd)) (fd2data (index2fd newfdnum)) s)

  abbrev pub set_offset : Option ℕ → ℕ → Files World → Files World
  set_offset none offset s = s
  set_offset (some n) offset s = record s {
    fd_in = update s.fd_in n (record (s.fd_in n) { fd_offset = offset });
  }

  -- `seek` after `fd_lookup`.
  unfoldable pub seek_found : Result ℕ → ℕ → Files World → Result ℕ × Files World
  seek_found (err e) offset s = (err e, s)
  seek_found (ok fd) offset s = (ok 0, set_offset (s.page_at fd) offset s)

  unfoldable pub seek : ℕ → ℕ → Files World → Result ℕ × Files World
  seek fdnum offset s = seek_found (fd_lookup fdnum (mapped s)) offset s

  -- The end of a round of `readn`; `go_on` is the rest of the loop.
  unfoldable pub readn_round :
      (List ℕ → Files World → Result (List ℕ) × Files World)
      → List ℕ
      → Result (List ℕ) × Files World
      → Result (List ℕ) × Files World
  readn_round go_on done (err e, s) = (err e, s)
  readn_round go_on done (ok [], s) = (ok done, s)
  readn_round go_on done (ok (x ∷ xs), s) = go_on (done ++ x ∷ xs) s

-- `devtab`
module _ {World : Type 0} (devtab : List (Dev World)) where
  unfoldable pub dev_lookup : ℕ → Result (Dev World)
  dev_lookup id = find_dev id devtab

  -- `fd_close` after `fd_lookup`.
  unfoldable pub close_found : ℕ → Bool → Result ℕ → Files World → Result ℕ × Files World
  close_found fd must_exist (err e) s = (not_open must_exist (err e), s)
  close_found fd must_exist (ok fd2) s =
      let (r, s') = close_dev (dev_lookup (fd_at s fd).fd_dev_id) fd s in
      if fd == fd2 then (r, unmap fd s') else (not_open must_exist (ok 0), s)

  unfoldable pub fd_close : ℕ → Bool → Files World → Result ℕ × Files World
  fd_close fd must_exist s = close_found fd must_exist (fd_lookup (fd2num fd) (mapped s)) s

  -- `close` after `fd_lookup`.
  unfoldable pub close_number : Result ℕ → Files World → Result ℕ × Files World
  close_number (err e) s = (err e, s)
  close_number (ok fd) s = fd_close fd true s

  unfoldable pub close : ℕ → Files World → Result ℕ × Files World
  close fdnum s = close_number (fd_lookup fdnum (mapped s)) s

  -- The loop of `close_all`, at descriptor `i` with `n` left.
  unfoldable pub close_from : ℕ → ℕ → Files World → Files World
  close_from zero i s = s
  close_from (suc n) i s = close_from n (i + 1) (close i s).1

  unfoldable pub close_all : Files World → Files World
  close_all s = close_from maxfd 0 s

  -- `dup` after `fd_lookup`; `room` and `room'` are for the two calls of `sys_page_map`.
  unfoldable pub dup_found : Bool → Bool → Result ℕ → ℕ → Files World → Result ℕ × Files World
  dup_found room room' (err e) newfdnum s = (err e, s)
  dup_found room room' (ok oldfd) newfdnum s =
      dup_pages room room' oldfd newfdnum (close newfdnum s).1

  unfoldable pub dup : Bool → Bool → ℕ → ℕ → Files World → Result ℕ × Files World
  dup room room' oldfdnum newfdnum s =
      dup_found room room' (fd_lookup oldfdnum (mapped s)) newfdnum s

  -- An open descriptor with its device.
  unfoldable pub with_dev :
      {A : Type 0}
      → ℕ
      → (ℕ → Dev World → Files World → Result A × Files World)
      → Files World
      → Result A × Files World
  with_dev fdnum f s = elim (fd_lookup fdnum (mapped s)) [
    | err e ↦ (err e, s)
    | ok fd ↦ elim (dev_lookup (fd_at s fd).fd_dev_id) [ err e ↦ (err e, s) | ok d ↦ f fd d s ]
  ]

  unfoldable pub read : ℕ → ℕ → Files World → Result (List ℕ) × Files World
  read fdnum n = with_dev fdnum λ fd d s.
      let r : Result (List ℕ) × Files World = elim d.dev_read [
        | none ↦ (err Error.not_supp, s)
        | some f ↦ f fd n s
      ] in
      if mode s fd == 1 then (err Error.inval, s) else r

  -- The loop of `readn`, with the bytes read so far; a round reads a byte at least.
  unfoldable pub readn_from : ℕ → ℕ → ℕ → List ℕ → Files World → Result (List ℕ) × Files World
  readn_from zero fdnum n done s = (ok done, s)
  readn_from (suc fuel) fdnum n done s =
      let round =
        readn_round (λ done' s'. readn_from fuel fdnum n done' s') done
          (read fdnum (n - length done) s) in
      if leb n (length done) then (ok done, s) else round

  unfoldable pub readn : ℕ → ℕ → Files World → Result (List ℕ) × Files World
  readn fdnum n s = readn_from n fdnum n [] s

  unfoldable pub write : ℕ → List ℕ → Files World → Result ℕ × Files World
  write fdnum xs = with_dev fdnum λ fd d s.
      let r : Result ℕ × Files World = elim d.dev_write [
        | none ↦ (err Error.not_supp, s)
        | some f ↦ f fd xs s
      ] in
      if mode s fd == 0 then (err Error.inval, s) else r

  unfoldable pub ftruncate : ℕ → ℕ → Files World → Result ℕ × Files World
  ftruncate fdnum newsize = with_dev fdnum λ fd d s.
      let r : Result ℕ × Files World = elim d.dev_trunc [
        | none ↦ (err Error.not_supp, s)
        | some f ↦ f fd newsize s
      ] in
      if mode s fd == 0 then (err Error.inval, s) else r

  unfoldable pub fstat : ℕ → Files World → Result Stat × Files World
  fstat fdnum = with_dev fdnum λ fd d s. elim d.dev_stat [
    | none ↦ (err Error.not_supp, s)
    | some f ↦ f fd (record { st_name = []; st_size = 0; st_isdir = false }) s
  ]
