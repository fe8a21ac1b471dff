-- ===== src/User/Client/Pages.antt =====
-- Words and bytes on the page that oslab6/lib/file.c shares with the file server.
use operating_systems_lab.Base.{
  ℕ, zero, suc, ◌+◌, ◌^◌, ◌<◌, ◌≤◌, ◌≡◌, refl, ap, ◌∙◌, arith, update, length, List, [], ◌∷◌,
}
use operating_systems_lab.Fs.Serve.{bytes_from}
use operating_systems_lab.Fs.Dispatch.{word}
use operating_systems_lab.User.Client.{set_word, put_bytes}

pub word-set_word_self : (i w : ℕ) (page : ℕ → ℕ) → w < 2 ^ 32 → word (set_word i w page) i ≡ w
word-set_word_self i w page small = ground arith

pub word-set_word_before :
    (i j w : ℕ) (page : ℕ → ℕ) → j + 4 ≤ i → word (set_word i w page) j ≡ word page j
word-set_word_before i j w page apart = ground arith

pub put_bytes-before :
    (i j : ℕ) (xs : List ℕ) (page : ℕ → ℕ) → j < i → put_bytes i xs page j ≡ page j
unfolding put_bytes
put_bytes-before i j [] page lt = refl
put_bytes-before i j (x ∷ xs) page lt =
    let ih = put_bytes-before (i + 1) j xs page (omega arith) in ground (arith, ih)

pub word-put_bytes :
    (i j : ℕ) (xs : List ℕ) (page : ℕ → ℕ) → j + 4 ≤ i → word (put_bytes i xs page) j ≡ word page j
word-put_bytes i j xs page apart = ground (
  arith,
  put_bytes-before i j xs page (omega arith),
  put_bytes-before i (j + 1) xs page (omega arith),
  put_bytes-before i (j + 2) xs page (omega arith),
  put_bytes-before i (j + 3) xs page (omega arith),
)

bytes_from-update :
    (n i j x : ℕ) (page : ℕ → ℕ) → i < j → bytes_from n j (update page i x) ≡ bytes_from n j page
unfolding bytes_from
bytes_from-update zero i j x page lt = refl
bytes_from-update (suc n) i j x page lt =
    let here : update page i x j ≡ page j = ground arith in
    ap (λ y. y ∷ bytes_from n (j + 1) (update page i x)) here
    ∙ ap (λ ys. page j ∷ ys) (bytes_from-update n i (j + 1) x page (omega arith))

-- What was put on the page is read from it.
pub bytes_from-put_bytes :
    (i : ℕ) (xs : List ℕ) (page : ℕ → ℕ) → bytes_from (length xs) i (put_bytes i xs page) ≡ xs
unfolding bytes_from put_bytes
bytes_from-put_bytes i [] page = refl
bytes_from-put_bytes i (x ∷ xs) page =
    let here : update (put_bytes (i + 1) xs page) i x i ≡ x = ground arith in
    ap (λ y. y ∷ bytes_from (length xs) (i + 1) (update (put_bytes (i + 1) xs page) i x)) here
    ∙ ap (λ ys. x ∷ ys)
        (bytes_from-update (length xs) i (i + 1) x (put_bytes (i + 1) xs page) (omega arith)
          ∙ bytes_from-put_bytes (i + 1) xs page)
