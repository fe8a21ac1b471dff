-- ===== src/User/Printf/Buffer.antt =====
-- The buffer of `vsnprintf`, oslab6/lib/printfmt.c.
use operating_systems_lab.Base.{
  ℕ, zero, suc, ◌+◌, ◌-◌, ◌%◌, ◌^◌, ◌<◌, ◌==◌, ◌≡◌, ◌≢◌, refl, ap, ◌∙◌, sym, arith, leb, length,
  take,
}
use operating_systems_lab.Base.{List, [], ◌∷◌, ◌++◌, false, ◌||◌, map}
use mathlib.Core.List.{foldl, append_assoc, append-nil}
use operating_systems_lab.Kern.State.{ok}
use operating_systems_lab.User.Printf.{SprintBuf, sprintputch, vprintfmt, vsnprintf}

-- `(char) ch`
abbrev pub as_char : ℕ → ℕ
as_char c = c % 256

-- A buffer with `n` bytes left.
abbrev buffer : List ℕ → ℕ → ℕ → SprintBuf
buffer ys n count = record { written = ys; left = n; cnt = count }

putch-full :
    (ch : ℕ) (ys : List ℕ) (count : ℕ)
    → sprintputch (buffer ys 0 count) ch ≡ buffer ys 0 (count + 1)
unfolding sprintputch
putch-full ch ys count = refl

putch-room :
    (ch : ℕ) (ys : List ℕ) (n count : ℕ)
    → sprintputch (buffer ys (suc n) count) ch ≡ buffer (ys ++ as_char ch ∷ []) n (count + 1)
unfolding sprintputch
putch-room ch ys n count =
    let more : suc n == 0 ≡ false = ground arith in
    let less : suc n - 1 ≡ n = omega arith in rw more (rw less refl)

-- After all the characters `xs`.
abbrev end_of : List ℕ → List ℕ → ℕ → ℕ → SprintBuf
end_of xs ys n count = buffer (ys ++ map as_char (take n xs)) (n - length xs) (count + length xs)

same_buffer :
    {ys zs : List ℕ} {n m count count' : ℕ}
    → ys ≡ zs
    → n ≡ m
    → count ≡ count'
    → buffer ys n count ≡ buffer zs m count'
same_buffer p q r = λ i. buffer (p i) (q i) (r i)

take-nil : (n : ℕ) → take {A = ℕ} n [] ≡ []
take-nil zero = refl
take-nil (suc n) = refl

putch_all :
    (xs ys : List ℕ) (n count : ℕ) → foldl sprintputch (buffer ys n count) xs ≡ end_of xs ys n count
putch_all [] ys n count =
    same_buffer (sym (ap (λ l. ys ++ map as_char l) (take-nil n) ∙ append-nil ys)) (omega arith)
      (omega arith)
putch_all (x ∷ xs) ys zero count =
    ap (λ b. foldl sprintputch b xs) (putch-full x ys count)
    ∙ putch_all xs ys 0 (count + 1)
    ∙ same_buffer refl (omega arith) (omega arith)
putch_all (x ∷ xs) ys (suc n) count =
    ap (λ b. foldl sprintputch b xs) (putch-room x ys n count)
    ∙ putch_all xs (ys ++ as_char x ∷ []) n (count + 1)
    ∙ same_buffer (append_assoc ys (as_char x ∷ []) (map as_char (take n xs))) (omega arith)
        (omega arith)

-- Into a buffer of `n` bytes, `vsnprintf` writes at most `n` bytes from its start: what is printed,
-- cut after `n` - 1 characters, and a null; it returns the number of characters that are printed.
pub vsnprintf-Truncated :
    (buf n : ℕ) (args : ℕ → ℕ) (text : ℕ → List ℕ) (fmt : List ℕ)
    → buf ≢ 0
    → 0 < n
    → n < 2 ^ 31
    → vsnprintf buf n args text fmt
      ≡ ok (
        length (vprintfmt args text fmt),
        map as_char (take (n - 1) (vprintfmt args text fmt)) ++ 0 ∷ [],
      )
unfolding vsnprintf
vsnprintf-Truncated buf n args text fmt nonnull pos small =
    let valid : ((buf == 0) || (n == 0) || leb (2 ^ 31) n) ≡ false = ground arith in
    let e = putch_all (vprintfmt args text fmt) [] (n - 1) 0 in
    rw valid (
      ap (λ b. ok (b.cnt, b.written ++ 0 ∷ [])) e
      ∙ ap (λ c. ok (c, map as_char (take (n - 1) (vprintfmt args text fmt)) ++ 0 ∷ []))
          (omega arith))
