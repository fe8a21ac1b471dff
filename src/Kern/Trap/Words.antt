-- ===== src/Kern/Trap/Words.antt =====
-- The words that the kernel of oslab6/kern/trap.c writes to the memory of an environment.
use operating_systems_lab.Base.{
  ℕ, zero, suc, ◌+◌, ◌*◌, ◌/◌, ◌%◌, ◌<◌, ◌≤◌, ◌≡◌, ◌≢◌, refl, ap, ◌∙◌, arith, bit, length, get_or,
  true, inl, inr, ◌⊎◌,
}
use operating_systems_lab.Base.{Option, none, some, List, [], ◌∷◌}
use operating_systems_lab.Kern.State.{Kernel, store, pgsize, pdx, ptx, pte_addr, pte_w}
use operating_systems_lab.Kern.PageTable.{present}
use operating_systems_lab.Kern.Trap.{user_word, write_words}

-- The page of `va` is page `n`, by the table in page `pt`, and the kernel may write to it.
pub record IsWritable (pgdir va pt n : ℕ) (k : Kernel) : Type 0 where
  pub table_present : present (k.phys pgdir (pdx va)) ≡ true
  pub table_writable : bit (k.phys pgdir (pdx va)) pte_w ≡ 1
  pub in_table : pte_addr (k.phys pgdir (pdx va)) ≡ pt
  pub page_present : present (k.phys pt (ptx va)) ≡ true
  pub page_writable : bit (k.phys pt (ptx va)) pte_w ≡ 1
  pub in_page : pte_addr (k.phys pt (ptx va)) ≡ n

user_word-writable :
    (pgdir va pt n : ℕ) (k : Kernel)
    → IsWritable pgdir va pt n k
    → va % 4 ≡ 0
    → user_word pgdir va k ≡ some (n, va % pgsize / 4)
unfolding user_word
user_word-writable pgdir va pt n k h aligned = ground (
  arith, h.in_table, h.in_page, h.table_present, h.table_writable, h.page_present, h.page_writable,
)

-- The words `ws` in page `n` from word `i` on.
abbrev pub put_words : ℕ → ℕ → List ℕ → Kernel → Kernel
put_words n i [] k = k
put_words n i (w ∷ ws) k = put_words n (i + 1) ws (store n i w k)

same_pdx : (va : ℕ) → va % pgsize + 4 < pgsize → pdx (va + 4) ≡ pdx va
same_pdx va h = omega arith

same_ptx : (va : ℕ) → va % pgsize + 4 < pgsize → ptx (va + 4) ≡ ptx va
same_ptx va h = omega arith

store-other : (n m i j w : ℕ) (k : Kernel) → n ≢ m → (store n i w k).phys m j ≡ k.phys m j
store-other n m i j w k ne = ground arith

IsWritable-store :
    (pgdir va pt n i w : ℕ) (k : Kernel)
    → n ≢ pgdir
    → n ≢ pt
    → va % pgsize + 4 < pgsize
    → IsWritable pgdir va pt n k
    → IsWritable pgdir (va + 4) pt n (store n i w k)
IsWritable-store pgdir va pt n i w k a b room h =
    let dir =
      ap (λ j. (store n i w k).phys pgdir j) (same_pdx va room)
      ∙ store-other n pgdir i (pdx va) w k a in
    let tab =
      ap (λ j. (store n i w k).phys pt j) (same_ptx va room) ∙ store-other n pt i (ptx va) w k b in
    record {
      table_present = ap present dir ∙ h.table_present;
      table_writable = ap (λ e. bit e pte_w) dir ∙ h.table_writable;
      in_table = ap pte_addr dir ∙ h.in_table;
      page_present = ap present tab ∙ h.page_present;
      page_writable = ap (λ e. bit e pte_w) tab ∙ h.page_writable;
      in_page = ap pte_addr tab ∙ h.in_page;
    }

-- A round of the writes.
write_word :
    (pgdir va w n i : ℕ) (ws : List ℕ) (k : Kernel)
    → user_word pgdir va k ≡ some (n, i)
    → write_words pgdir va (w ∷ ws) k ≡ write_words pgdir (va + 4) ws (store n i w k)
unfolding write_words
write_word pgdir va w n i ws k e =
    ap
      (λ (r : Option (ℕ × ℕ)). elim r [
        | none ↦ none
        | some (m, j) ↦ write_words pgdir (va + 4) ws (store m j w k)
      ])
      e

no_more : (pgdir va : ℕ) (k : Kernel) → write_words pgdir va [] k ≡ some k
unfolding write_words
no_more pgdir va k = refl

pub write_words-put :
    (pgdir va pt n : ℕ) (ws : List ℕ) (k : Kernel)
    → n ≢ pgdir
    → n ≢ pt
    → va % 4 ≡ 0
    → va % pgsize + 4 * length ws < pgsize
    → IsWritable pgdir va pt n k
    → write_words pgdir va ws k ≡ some (put_words n (va % pgsize / 4) ws k)
write_words-put pgdir va pt n [] k a b aligned room h = no_more pgdir va k
write_words-put pgdir va pt n (w ∷ ws) k a b aligned room h =
    let i = va % pgsize / 4 in
    let k' = store n i w k in
    let next : (va + 4) % pgsize / 4 ≡ i + 1 = omega arith in
    write_word pgdir va w n i ws k (user_word-writable pgdir va pt n k h aligned)
    ∙ write_words-put pgdir (va + 4) pt n ws k' a b (omega arith) (omega arith)
        (IsWritable-store pgdir va pt n i w k a b (omega arith) h)
    ∙ ap (λ j. some (put_words n j ws k')) next

-- Word `j` of page `m` is none of the `len` words of page `n` from word `i` on.
abbrev pub Outside : ℕ → ℕ → ℕ → ℕ → ℕ → Type 0
Outside n i len m j = (m ≢ n) ⊎ ((j < i) ⊎ (i + len ≤ j))

Outside-next : (n i len m j : ℕ) → Outside n i (suc len) m j → Outside n (i + 1) len m j
Outside-next n i len m j (inl a) = inl a
Outside-next n i len m j (inr (inl b)) = inr (inl (omega arith))
Outside-next n i len m j (inr (inr c)) = inr (inr (omega arith))

Outside-store :
    (n i len m j w : ℕ) (k : Kernel)
    → Outside n i (suc len) m j
    → (store n i w k).phys m j ≡ k.phys m j
Outside-store n i len m j w k (inl a) = ground arith
Outside-store n i len m j w k (inr (inl b)) = ground arith
Outside-store n i len m j w k (inr (inr c)) = ground arith

pub put_words-other :
    (n i m j : ℕ) (ws : List ℕ) (k : Kernel)
    → Outside n i (length ws) m j
    → (put_words n i ws k).phys m j ≡ k.phys m j
put_words-other n i m j [] k h = refl
put_words-other n i m j (w ∷ ws) k h =
    put_words-other n (i + 1) m j ws (store n i w k) (Outside-next n i (length ws) m j h)
    ∙ Outside-store n i (length ws) m j w k h

pub put_words-at :
    (n i j : ℕ) (ws : List ℕ) (k : Kernel)
    → j < length ws
    → (put_words n i ws k).phys n (i + j) ≡ get_or ws j 0
put_words-at n i j [] k h = absurd (omega arith)
put_words-at n i zero (w ∷ ws) k h =
    put_words-other n (i + 1) n (i + 0) ws (store n i w k) (inr (inl (omega arith))) ∙ ground arith
put_words-at n i (suc j) (w ∷ ws) k h =
    let shift : i + suc j ≡ i + 1 + j = omega arith in
    ap (λ a. (put_words n (i + 1) ws (store n i w k)).phys n a) shift
    ∙ put_words-at n (i + 1) j ws (store n i w k) (omega arith)

pub put_words-envs : (n i : ℕ) (ws : List ℕ) (k : Kernel) → (put_words n i ws k).envs ≡ k.envs
put_words-envs n i [] k = refl
put_words-envs n i (w ∷ ws) k = put_words-envs n (i + 1) ws (store n i w k)

pub put_words-curenv : (n i : ℕ) (ws : List ℕ) (k : Kernel) → (put_words n i ws k).curenv ≡ k.curenv
put_words-curenv n i [] k = refl
put_words-curenv n i (w ∷ ws) k = put_words-curenv n (i + 1) ws (store n i w k)
