-- ===== src/Fs/Serve/Reads.antt =====
-- The position of an open file of oslab6/fs/serv.c, and what fits the buffer of a reply.
use operating_systems_lab.Base.{
  ℕ, ◌+◌, ◌-◌, ◌^◌, ◌<◌, ◌≤◌, ◌≡◌, ap, ◌∙◌, min, arith, length, Option, none, some, List, lt→ltb,
  le→ltb,
}
use operating_systems_lab.Kern.State.{ok, pgsize}
use operating_systems_lab.Fs.Disk.{Disk, FilePtr, f_size, blksize}
use operating_systems_lab.Base.{zero, suc, ◌*◌, sym, take, drop, false, refl, [], ◌∷◌}
use operating_systems_lab.Fs.Bitmap.{block_is_free}
use operating_systems_lab.Fs.Content.{file_read, read_bytes, write_bytes}
use operating_systems_lab.Fs.Content.Transfer.{
  length-file_read, read_bytes-write_bytes, file_read-All, AreBytes,
}
use operating_systems_lab.Fs.OpenFiles.{OpenFile, Server, openfile_lookup}
use operating_systems_lab.Fs.Serve.{
  Body, Served, advance, on_file, overrun, long_reply, read_reply, serve_read,
}

abbrev pub offset_of : ℕ → Server → ℕ
offset_of i s = (s.fd_page (s.opentab i).o_fd).fd_offset

pub on_file-some :
    (g : OpenFile → FilePtr → Served) (i : ℕ) (f : FilePtr) (s : Server)
    → (s.opentab i).o_file ≡ some f
    → on_file g (ok i) s ≡ g (s.opentab i) f
unfolding on_file
on_file-some g i f s e = pointed (s.opentab i).o_file e
  where
    pointed :
        (p : Option FilePtr)
        → p ≡ some f
        → elim p [ none ↦ none | some q ↦ g (s.opentab i) q ] ≡ g (s.opentab i) f
    pointed none e = absurd (cc e)
    pointed (some q) e = ap (g (s.opentab i)) (cc e)

at_entry :
    (fileid n i : ℕ) (f : FilePtr) (s : Server)
    → openfile_lookup fileid s ≡ ok i
    → (s.opentab i).o_file ≡ some f
    → serve_read fileid n s ≡ read_reply (s.opentab i) (file_read f n (offset_of i s) s.disk) s
unfolding serve_read
at_entry fileid n i f s e file = rw e (on_file-some _ i f s file)

read_reply-fits :
    (o : OpenFile) (xs : List ℕ) (d : Disk) (s : Server)
    → length xs ≤ pgsize
    → read_reply o (some (ok xs, d)) s
      ≡ some (
        record { r = ok (length xs); body = Body.bytes xs; pg = none },
        advance o (length xs) (record s { disk = d }),
      )
unfolding read_reply
read_reply-fits o xs d s h = rw (le→ltb pgsize (length xs) h)

read_reply-overlong :
    (o : OpenFile) (xs : List ℕ) (d : Disk) (s : Server)
    → pgsize < length xs
    → length (drop pgsize xs) ≤ blksize
    → block_is_free 0 d ≡ false
    → read_reply o (some (ok xs, d)) s
      ≡ some (
        record { r = ok (length xs); body = Body.bytes (take pgsize xs); pg = none },
        advance o (length xs) (record s { disk = write_bytes 0 0 (drop pgsize xs) d }),
      )
unfolding read_reply long_reply overrun
read_reply-overlong o xs d s h fits used =
    rw (lt→ltb pgsize (length xs) h, used, le→ltb blksize (length (drop pgsize xs)) fits) refl

length-drop : (n : ℕ) (xs : List ℕ) → length (drop n xs) ≡ length xs - n
length-drop zero xs = omega arith
length-drop (suc n) [] = omega arith
length-drop (suc n) (x ∷ xs) = omega (arith, length-drop n xs)

All-drop : (n : ℕ) (xs : List ℕ) → AreBytes xs → AreBytes (drop n xs)
All-drop zero xs h = h
All-drop (suc n) [] h = h
All-drop (suc n) (x ∷ xs) h = All-drop n xs h.1

module _ (fileid n i : ℕ) (f : FilePtr) (s : Server) (d : Disk) (xs : List ℕ) where
  -- For an open file with an offset not past its end and below 2 ^ 31, where the reading of the file succeeds with
  -- at most a page, `serve_read` returns the bytes, as many as were asked for or as many as are left,
  -- and the offset moves on by their number.
  pub serve_read-position :
      openfile_lookup fileid s ≡ ok i
      → (s.opentab i).o_file ≡ some f
      → file_read f n (offset_of i s) s.disk ≡ some (ok xs, d)
      → offset_of i s ≤ f_size s.disk f
      → f_size s.disk f < 2 ^ 31
      → n ≤ pgsize
      → (t : Server) × (serve_read fileid n s
          ≡ some (
            record {
              r = ok (min n (f_size s.disk f - offset_of i s));
              body = Body.bytes xs;
              pg = none;
            },
            t,
          ))
        × (offset_of i t ≡ min (offset_of i s + n) (f_size s.disk f))
  serve_read-position e file read le small fits =
      let size = length-file_read f n (offset_of i s) s.disk d xs read in
      (
        advance (s.opentab i) (length xs) (record s { disk = d }),
        at_entry fileid n i f s e file
            ∙ ap (λ r. read_reply (s.opentab i) r s) read
            ∙ read_reply-fits (s.opentab i) xs d s (omega (arith, size))
            ∙ ap
                (λ m. some (
                  record { r = ok m; body = Body.bytes xs; pg = none },
                  advance (s.opentab i) (length xs) (record s { disk = d }),
                ))
                size,
        ground arith,
      )

  -- A client asks for more than a page and up to two pages, the file has more than a page left, the
  -- reading succeeds, and block 0 is in use: then the server answers with the whole number of bytes,
  -- but only a page of them fits its reply, and the bytes after that are written over block 0 of the
  -- disk.
  pub serve_read-overrun :
      openfile_lookup fileid s ≡ ok i
      → (s.opentab i).o_file ≡ some f
      → file_read f n (offset_of i s) s.disk ≡ some (ok xs, d)
      → pgsize < n
      → n ≤ 2 * pgsize
      → pgsize < f_size s.disk f - offset_of i s
      → block_is_free 0 d ≡ false
      → (t : Server) × (serve_read fileid n s
          ≡ some (record { r = ok (length xs); body = Body.bytes (take pgsize xs); pg = none }, t))
        × (length xs ≡ min n (f_size s.disk f - offset_of i s))
        × (pgsize < length xs)
        × (read_bytes (length xs - pgsize) 0 0 t.disk ≡ drop pgsize xs)
  serve_read-overrun e file read big fits more used =
      let size = length-file_read f n (offset_of i s) s.disk d xs read in
      let rest = length-drop pgsize xs in
      let long : pgsize < length xs = omega (arith, size) in
      let bytes = All-drop pgsize xs (file_read-All f n (offset_of i s) s.disk d xs read) in
      (
        advance (s.opentab i) (length xs) (record s { disk = write_bytes 0 0 (drop pgsize xs) d }),
        at_entry fileid n i f s e file
            ∙ ap (λ r. read_reply (s.opentab i) r s) read
            ∙ read_reply-overlong (s.opentab i) xs d s long (omega (arith, size, rest)) used,
        size,
        long,
        ap (λ m. read_bytes m 0 0 (write_bytes 0 0 (drop pgsize xs) d)) (sym rest)
            ∙ read_bytes-write_bytes 0 0 (drop pgsize xs) d bytes,
      )
