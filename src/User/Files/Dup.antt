-- ===== src/User/Files/Dup.antt =====
-- What `dup` of oslab6/lib/fd.c makes of two descriptors.
use operating_systems_lab.Base.{
  ℕ, ◌<◌, ◌≡◌, ◌≢◌, refl, sym, ap, ◌∙◌, arith, update, Option-cases, inl, inr,
}
use mathlib.Core.Path.{subst}
use operating_systems_lab.Base.{Bool, true, false, Option, none, some, List}
use operating_systems_lab.Kern.State.{Result, ok, err, Error}
use operating_systems_lab.Fs.OpenFiles.{Fd, new_fd}
use operating_systems_lab.User.Descriptors.{maxfd, index2fd, fd2data, fd_lookup}
use operating_systems_lab.User.Files.{
  Files, Dev, is_some, mapped, fd_at, map_found, map_page, share_data, end_dup, dup_fd, dup_pages,
  dup_found, dup, close, set_offset, seek_found, seek,
}
use operating_systems_lab.User.Files.Closing.{
  IsClosed, closed_of, open_of, no_page_of, close-err, close-IsClosed,
}

-- `s` with page `n` at `va`.
abbrev with_page : {World : Type 0} → ℕ → ℕ → Files World → Files World
with_page va n s = record s { page_at = update s.page_at va (some n) }

module _ {World : Type 0} where
  map_page-some :
      (ova nva n : ℕ) (s : Files World)
      → s.page_at ova ≡ some n
      → map_page true ova nva s ≡ (ok tt, with_page nva n s)
  unfolding map_page map_found
  map_page-some ova nva n s e = ap (λ o. map_found true o nva s) e

  map_page-none :
      (room : Bool) (ova nva : ℕ) (s : Files World)
      → s.page_at ova ≡ none
      → map_page room ova nva s ≡ (err Error.inval, s)
  unfolding map_page map_found
  map_page-none room ova nva s e = ap (λ o. map_found room o nva s) e

  -- The state after the data page has been shared.
  abbrev data_shared : Option ℕ → ℕ → Files World → Files World
  data_shared none nva s = s
  data_shared (some n) nva s = with_page nva n s

  share_data-ok :
      (o : Option ℕ) (nva : ℕ) (s : Files World)
      → share_data true o nva s ≡ (ok tt, data_shared o nva s)
  unfolding share_data map_found
  share_data-ok none nva s = refl
  share_data-ok (some n) nva s = refl

  data_shared-other :
      (o : Option ℕ) (nva va : ℕ) (s : Files World)
      → nva ≢ va
      → (data_shared o nva s).page_at va ≡ s.page_at va
  data_shared-other none nva va s ne = refl
  data_shared-other (some n) nva va s ne = ground arith

  end_dup-ok : (new : ℕ) (s : Files World) → end_dup new (ok tt, s) ≡ (ok new, s)
  unfolding end_dup
  end_dup-ok new s = refl

  dup_pages-ok :
      (old new n : ℕ) (s : Files World)
      → (data_shared (s.page_at (fd2data (index2fd old))) (fd2data (index2fd new)) s).page_at
          (index2fd old)
        ≡ some n
      → dup_pages true true (index2fd old) new s ≡ (
        ok new,
        with_page
            (index2fd new)
            n
            (data_shared (s.page_at (fd2data (index2fd old))) (fd2data (index2fd new)) s),
      )
  unfolding dup_pages dup_fd
  dup_pages-ok old new n s e =
      let o = s.page_at (fd2data (index2fd old)) in
      let nva = fd2data (index2fd new) in
      ap (λ r. dup_fd true (index2fd old) new r) (share_data-ok o nva s)
      ∙ ap (λ r. end_dup new r)
          (map_page-some (index2fd old) (index2fd new) n (data_shared o nva s) e)
      ∙ end_dup-ok new _

  page_of_open :
      (n : ℕ) (s : Files World)
      → fd_lookup n (mapped s) ≡ ok (index2fd n)
      → (p : ℕ) × (s.page_at (index2fd n) ≡ some p)
  page_of_open n s e = elim (Option-cases (s.page_at (index2fd n))) [
    | inl none_there ↦ absurd (cc (e, closed_of n (mapped s) (ap is_some none_there)))
    | inr h ↦ h
  ]

  seek-some :
      (n offset p : ℕ) (s : Files World)
      → n < maxfd
      → s.page_at (index2fd n) ≡ some p
      → seek n offset s ≡ (ok 0, set_offset (some p) offset s)
  unfolding seek seek_found
  seek-some n offset p s lt e =
      ap (λ r. seek_found r offset s) (open_of n (mapped s) lt (ap is_some e))
      ∙ ap (λ q. (ok 0, set_offset q offset s)) e

  offset_set :
      (va offset p : ℕ) (s : Files World)
      → s.page_at va ≡ some p
      → (fd_at (set_offset (some p) offset s) va).fd_offset ≡ offset
  offset_set va offset p s e =
      let t = set_offset (some p) offset s in
      let at : fd_at t va ≡ t.fd_in p =
        ap (λ (q : Option ℕ). let f : Fd = elim q [ none ↦ new_fd | some n ↦ t.fd_in n ] in f) e in
      ap (λ f. f.fd_offset) at ∙ ground arith

  share_data-none :
      (room : Bool) (o : Option ℕ) (nva va : ℕ) (s : Files World)
      → nva ≢ va
      → s.page_at va ≡ none
      → (share_data room o nva s).1.page_at va ≡ none
  unfolding share_data map_found
  share_data-none room none nva va s ne e = e
  share_data-none false (some n) nva va s ne e = e
  share_data-none true (some n) nva va s ne e = ground (arith, e)

  no_page : (n : ℕ) (s : Files World) → n < maxfd → IsClosed n s → s.page_at (index2fd n) ≡ none
  no_page n s lt closed = elim (Option-cases (s.page_at (index2fd n))) [
    | inl e ↦ e
    | inr (p, e) ↦ absurd (cc (no_page_of n (mapped s) lt closed, ap is_some e))
  ]

data_apart : (old new : ℕ) → old < maxfd → fd2data (index2fd new) ≢ index2fd old
data_apart old new lt = λ e. absurd (omega arith)

-- An error, with descriptor `n` not open.
pub data Lost {World : Type 0} (n : ℕ) : Result ℕ × Files World → Type 0 where
  lost : (e : Error) (t : Files World) → IsClosed n t → Lost n (err e, t)

module _ {World : Type 0} where
  end_dup-Lost : (n : ℕ) (e : Error) (t : Files World) → Lost n (end_dup n (err e, t))
  unfolding end_dup
  end_dup-Lost n e t = lost e _ (closed_of n _ (ground arith))

  dup_fd-Lost :
      (room : Bool) (n : ℕ) (r : Result (Unit {0}) × Files World)
      → r.1.page_at (index2fd n) ≡ none
      → Lost n (dup_fd room (index2fd n) n r)
  unfolding dup_fd
  dup_fd-Lost room n (err e, t) h = end_dup-Lost n e t
  dup_fd-Lost room n (ok _, t) h =
      subst (λ q. Lost n (end_dup n q)) (sym (map_page-none room (index2fd n) (index2fd n) t h))
        (end_dup-Lost n Error.inval t)

  dup_pages-Lost :
      (room room' : Bool) (n : ℕ) (s : Files World)
      → n < maxfd
      → IsClosed n s
      → Lost n (dup_pages room room' (index2fd n) n s)
  unfolding dup_pages
  dup_pages-Lost room room' n s lt closed = dup_fd-Lost room' n _ (
      share_data-none room (s.page_at (fd2data (index2fd n))) (fd2data (index2fd n)) (index2fd n) s
        (data_apart n n lt) (no_page n s lt closed))

module _ {World : Type 0} (devtab : List (Dev World)) (old new offset : ℕ) (s : Files World) where
  -- Where page tables can be had, `dup` of an open descriptor to one that is not open succeeds, and a
  -- `seek` of the new descriptor is one of the old: the offset is shared.
  pub dup-seek :
      old < maxfd
      → new < maxfd
      → fd_lookup old (mapped s) ≡ ok (index2fd old)
      → IsClosed new s
      → (t : Files World) × (u : Files World) × (dup devtab true true old new s ≡ (ok new, t))
        × (seek new offset t ≡ (ok 0, u))
        × ((fd_at u (index2fd old)).fd_offset ≡ offset)
  unfolding dup dup_found
  dup-seek lt_old lt_new is_open closed =
      let (p, e) = page_of_open old s is_open in
      let nva = fd2data (index2fd new) in
      let s1 = data_shared (s.page_at (fd2data (index2fd old))) nva s in
      let keeps =
        data_shared-other (s.page_at (fd2data (index2fd old))) nva (index2fd old) s
          (data_apart old new lt_old)
        ∙ e in
      let t = with_page (index2fd new) p s1 in
      let here : t.page_at (index2fd new) ≡ some p = ground arith in
      let there : t.page_at (index2fd old) ≡ some p = ground (arith, keeps) in
      (
        t,
        set_offset (some p) offset t,
        ap (λ r. dup_found devtab true true r new s) is_open
            ∙ ap (λ q. dup_pages true true (index2fd old) new q) (close-err devtab new s closed)
            ∙ dup_pages-ok old new p s keeps,
        seek-some new offset p t lt_new here,
        offset_set (index2fd old) offset p t there,
      )

-- `dup` of an open descriptor to itself loses it: whatever the device does, it fails, and the
-- descriptor is not open afterwards.
pub dup_self-Lost :
    {World : Type 0} (devtab : List (Dev World)) (room room' : Bool) (n : ℕ) (s : Files World)
    → n < maxfd
    → fd_lookup n (mapped s) ≡ ok (index2fd n)
    → Lost n (dup devtab room room' n n s)
unfolding dup dup_found
dup_self-Lost devtab room room' n s lt is_open =
    subst (λ r. Lost n (dup_found devtab room room' r n s)) (sym is_open)
      (dup_pages-Lost room room' n (close devtab n s).1 lt (close-IsClosed devtab n s))
