-- ===== src/Fs/Dispatch/Run.antt =====
-- The file server of oslab6/fs/serv.c and its clients in sequences of steps. The ids that clients
-- hold name the open files.
use operating_systems_lab.Base.{
  ℕ, ◌+◌, ◌%◌, ◌^◌, ◌<◌, ◌≡◌, ◌≢◌, ap, ◌∙◌, update, arith, inl, inr, ◌⊎◌,
}
use native.Mathlib.Decide.{ℕ_discrete}
use operating_systems_lab.Base.{some}
use operating_systems_lab.Fs.Disk.{FilePtr}
use operating_systems_lab.Fs.OpenFiles.{OpenFile, Server, maxopen}
use operating_systems_lab.Fs.OpenFiles.Slots.{IsTable, Held}
use operating_systems_lab.Fs.Serve.Table.{Reissued}
use operating_systems_lab.Fs.Dispatch.Steps.{Step, Change, same, recounts, reissues, Step-Change}

-- Entries have their own pages and ids, and an entry whose page a client has has a file.
pub record IsSafe (s : Server) : Type 0 where
  pub table : IsTable s
  pub opened : (i : ℕ) → i < maxopen → Held i s → (f : FilePtr) × ((s.opentab i).o_file ≡ some f)

-- The pages of two entries differ.
apart :
    {s : Server}
    → IsTable s
    → (i j : ℕ) → i < maxopen
    → j < maxopen
    → i ≢ j
    → (s.opentab i).o_fd ≢ (s.opentab j).o_fd
apart h i j a b ne e = ne (omega (arith, h.own_page i a, h.own_page j b))

-- An entry that a step leaves alone.
pub record SameEntry (j : ℕ) (s t : Server) : Type 0 where
  pub same_entry : t.opentab j ≡ s.opentab j
  pub held_before : Held j t → Held j s

-- An entry that a step hands out.
pub record NewEntry (j : ℕ) (s t : Server) : Type 0 where
  pub new_page : (t.opentab j).o_fd ≡ (s.opentab j).o_fd
  pub new_id : (t.opentab j).o_fileid ≡ ((s.opentab j).o_fileid + maxopen) % 2 ^ 32
  pub free_before : ¬ Held j s
  pub file_if_held : Held j t → (f : FilePtr) × ((t.opentab j).o_file ≡ some f)

pub data EntryChange (j : ℕ) (s t : Server) : Type 0 where
  stays : SameEntry j s t → EntryChange j s t
  renewed : NewEntry j s t → EntryChange j s t

Held-same :
    (j va n : ℕ) (s t : Server)
    → t.opentab j ≡ s.opentab j
    → t.refs ≡ update s.refs va n
    → (va ≡ (s.opentab j).o_fd → Held j s)
    → Held j t
    → Held j s
Held-same j va n s t tab refs there held = elim (ℕ_discrete va (s.opentab j).o_fd) [
  | yes e ↦ there e
  | no ne ↦ ground (arith, ap (λ f. f (t.opentab j).o_fd) refs, ap (λ o. o.o_fd) tab)
]

new_entry :
    (i n : ℕ) (o : OpenFile) (s t : Server)
    → Reissued i n o s t
    → (n ≡ 1) ⊎ ((f : FilePtr) × (o.o_file ≡ some f))
    → NewEntry i s t
new_entry i n o s t r file =
    let here : t.opentab i ≡ o = ap (λ f. f i) r.entry ∙ ground arith in
    let page : (t.opentab i).o_fd ≡ (s.opentab i).o_fd = ap (λ e. e.o_fd) here ∙ r.same_page in
    let count : t.refs (t.opentab i).o_fd ≡ n =
      ap (λ f. f (t.opentab i).o_fd) r.counts ∙ ground arith in
    record {
      new_page = page;
      new_id = ap (λ e. e.o_fileid) here ∙ r.next_id;
      free_before = r.was_free;
      file_if_held = λ held. elim file [
        | inl one ↦ absurd (omega arith)
        | inr (f, q) ↦ (f, ap (λ e. e.o_file) here ∙ q)
      ];
    }

entry_change : {s t : Server} → IsTable s → Change s t → (j : ℕ) → j < maxopen → EntryChange j s t
entry_change {s} {t} h (same tab refs) j lt = stays (record {
  same_entry = ap (λ f. f j) tab;
  held_before =
      λ held. ground (arith, ap (λ f. (f j).o_fd) tab, ap (λ f. f (t.opentab j).o_fd) refs);
})
entry_change {s} {t} h (recounts va n more tab refs) j lt = stays (record {
  same_entry = ap (λ f. f j) tab;
  held_before = Held-same j va n s t (ap (λ f. f j) tab) refs (λ e. ground arith);
})
entry_change {s} {t} h (reissues i n o r file) j lt = elim (ℕ_discrete i j) [
  | yes e ↦ renewed (rw (← e) (new_entry i n o s t r file))
  | no ne ↦
      let there : t.opentab j ≡ s.opentab j = ap (λ f. f j) r.entry ∙ ground arith in
      stays (record {
        same_entry = there;
        held_before =
            Held-same j (s.opentab i).o_fd n s t there r.counts
              (λ e. absurd (apart h i j r.in_table lt ne e));
      })
]

pub Step-entry : {s t : Server} → IsTable s → Step s t → (j : ℕ) → j < maxopen → EntryChange j s t
Step-entry h st j lt = entry_change h (Step-Change st) j lt

page_kept : {j : ℕ} {s t : Server} → EntryChange j s t → (t.opentab j).o_fd ≡ (s.opentab j).o_fd
page_kept (stays e) = ap (λ o. o.o_fd) e.same_entry
page_kept (renewed e) = e.new_page

place_kept :
    {j : ℕ} {s t : Server}
    → EntryChange j s t
    → (t.opentab j).o_fileid % maxopen ≡ (s.opentab j).o_fileid % maxopen
place_kept (stays e) = ap (λ o. o.o_fileid % maxopen) e.same_entry
place_kept (renewed e) = omega (arith, e.new_id)

file_kept :
    {j : ℕ} {s t : Server}
    → EntryChange j s t
    → (Held j s → (f : FilePtr) × ((s.opentab j).o_file ≡ some f))
    → Held j t
    → (f : FilePtr) × ((t.opentab j).o_file ≡ some f)
file_kept (stays e) old held =
    let (f, q) = old (e.held_before held) in (f, ap (λ o. o.o_file) e.same_entry ∙ q)
file_kept (renewed e) old held = e.file_if_held held

pub Step-IsSafe : {s t : Server} → IsSafe s → Step s t → IsSafe t
Step-IsSafe h st = record {
  table = record {
    own_page = λ i lt. page_kept (Step-entry h.table st i lt) ∙ h.table.own_page i lt;
    own_id = λ i lt. place_kept (Step-entry h.table st i lt) ∙ h.table.own_id i lt;
  };
  opened = λ i lt. file_kept (Step-entry h.table st i lt) (h.opened i lt);
}
