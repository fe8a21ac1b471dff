-- ===== src/Kern/Debug/Describes.antt =====
-- `debuginfo_eip` of oslab6/kern/kdebug.c describes the function that contains an address.
use operating_systems_lab.Base.{
  ℕ, zero, suc, ◌+◌, ◌-◌, ◌%◌, ◌^◌, ◌<◌, ◌≡◌, refl, sym, ap, ◌∙◌, arith, ltb, leb, true, false,
  Bool-cases, inl, inr, some, if◌then◌else◌,
}
use operating_systems_lab.Kern.State.{ulim}
use operating_systems_lab.Kern.Debug.{stab_binsearch}
use operating_systems_lab.Kern.Debug.Region.{value, IsTable}
use operating_systems_lab.Kern.Debug.Contains.{Contains}
use operating_systems_lab.Kern.Debug.Info.{
  n_fun, n_sline, n_so, Eipdebuginfo, Tables, bad_strings, name_at, line_number, fill_info,
  in_function, in_file, with_file, search_tables, debuginfo_eip,
}
use operating_systems_lab.Kern.Debug.Parts.{
  search_returns, AreArgs, narg-AreArgs, IsName, name_length-IsName, IsSource, source_name-IsSource,
}

-- The tables have a source file, a function and a line for `addr`, and those of each kind are in
-- order; the values of lines count from the start of the function.
pub record HasFunction (t : Tables) (addr lfile efile lfun efun lline eline src : ℕ) : Type 0 where
  pub word : addr < 2 ^ 32
  pub good_strings : bad_strings t ≡ false
  pub files : IsTable t.stabs n_so 0 t.count addr
  pub file : Contains t.stabs n_so 0 t.count addr lfile efile
  pub not_first : 0 < lfile
  pub functions : IsTable t.stabs n_fun lfile efile addr
  pub function : Contains t.stabs n_fun lfile efile addr lfun efun
  pub named : (t.stabs lfun).n_strx < t.size
  pub lines : IsTable t.stabs n_sline lfun efun (addr - value t.stabs lfun)
  pub line : Contains t.stabs n_sline lfun efun (addr - value t.stabs lfun) lline eline
  pub source : IsSource t lfile lline src

-- The information is that of the function, with the file of `src` and the line number of the stab
-- before `eline`.
pub record Describes (t : Tables) (lfun efun eline src : ℕ) (info : Eipdebuginfo) : Type 0 where
  pub the_file : info.eip_file ≡ name_at t src
  pub the_line : info.eip_line ≡ some (t.stabs (eline - 1)).n_desc
  pub the_name : info.eip_fn_name ≡ some (t.stabs lfun).n_strx
  pub the_length : IsName t (t.stabs lfun).n_strx info.eip_fn_namelen
  pub the_start : info.eip_fn_addr ≡ value t.stabs lfun
  pub the_args : AreArgs t (lfun + 1) (efun - 1) info.eip_fn_narg

in_table :
    (t : Tables) (i : ℕ) → (t.stabs i).n_strx < t.size → name_at t i ≡ some (t.stabs i).n_strx
unfolding name_at
in_table t i lt =
    let in_bounds : ltb (t.stabs i).n_strx t.size ≡ true = ground arith in rw in_bounds refl

chosen :
    (kernel user t : Tables) (addr : ℕ)
    → t ≡ (if leb ulim addr then kernel else user)
    → debuginfo_eip kernel user addr ≡ search_tables t addr
unfolding debuginfo_eip
chosen kernel user t addr e = elim (Bool-cases (leb ulim addr)) [
  | inl h ↦
      let same : t ≡ kernel = e ∙ rw h refl in rw h (ap (λ q. search_tables q addr) (sym same))
  | inr h ↦ let same : t ≡ user = e ∙ rw h refl in rw h (ap (λ q. search_tables q addr) (sym same))
]

line_number-found :
    (t : Tables) (l e : ℕ) → l < e → line_number t (suc l, e) ≡ some (some (t.stabs (e - 1)).n_desc)
unfolding line_number
line_number-found t l zero lt = absurd (omega arith)
line_number-found t l (suc r) lt =
    let le : leb (suc l) (suc r) ≡ true = ground arith in
    let same : r ≡ suc r - 1 = omega arith in rw le (ap (λ i. some (some (t.stabs i).n_desc)) same)

with_file-found :
    (t : Tables) (addr l e : ℕ)
    → 0 < l
    → with_file t addr (suc l, e) ≡ in_file t l e addr (stab_binsearch t.stabs n_fun l e addr)
unfolding with_file
with_file-found t addr zero e lt = absurd (omega arith)
with_file-found t addr (suc l) e lt = refl

in_file-found :
    (t : Tables) (lfile efile addr l e : ℕ)
    → l < e
    → in_file t lfile efile addr (suc l, e) ≡ in_function t lfile l e addr
unfolding in_file
in_file-found t lfile efile addr l e lt = let le : leb (suc l) e ≡ true = ground arith in rw le refl

module _ (t : Tables) (addr lfile efile lfun efun lline eline src : ℕ)
    (h : HasFunction t addr lfile efile lfun efun lline eline src) where
  abbrev start : ℕ
  start = value t.stabs lfun

  line_search :
      stab_binsearch t.stabs n_sline lfun efun ((2 ^ 32 + addr - start) % 2 ^ 32)
      ≡ (suc lline, eline)
  line_search =
      let a = h.word in
      let b = h.function.starts in
      let same : (2 ^ 32 + addr - start) % 2 ^ 32 ≡ addr - start = omega arith in
      ap (stab_binsearch t.stabs n_sline lfun efun) same
      ∙ search_returns t.stabs n_sline lfun efun (addr - start) lline eline h.lines h.line

  -- What is filled in once the function and the line are found.
  function_found :
      (info : Eipdebuginfo) × (in_function t lfile lfun efun addr ≡ some (true, info))
      × Describes t lfun efun eline src info
  unfolding in_function fill_info
  function_found =
      let strx = (t.stabs lfun).n_strx in
      let (len, measured, name) = name_length-IsName t strx h.good_strings h.named in
      let at : name_at t lfun ≡ some strx = in_table t lfun h.named in
      let line = line_number-found t lline eline h.line.in_range.1 in
      (
        _,
        rw (line_search, at) (rw (measured, fill_info) (rw line refl)),
        record {
          the_file = source_name-IsSource t lfile lline src h.source;
          the_line = refl;
          the_name = refl;
          the_length = name;
          the_start = refl;
          the_args = narg-AreArgs t lfun efun;
        },
      )

  tables_run : search_tables t addr ≡ in_function t lfile lfun efun addr
  unfolding search_tables
  tables_run =
      let file = search_returns t.stabs n_so 0 t.count addr lfile efile h.files h.file in
      let function =
        search_returns t.stabs n_fun lfile efile addr lfun efun h.functions h.function in
      rw h.good_strings (
        ap (with_file t addr) file
        ∙ with_file-found t addr lfile efile h.not_first
        ∙ ap (in_file t lfile efile addr) function
        ∙ in_file-found t lfile efile addr lfun efun h.function.in_range.1)

-- Where the tables for an address, those of the kernel from `ULIM` on and those of the program
-- below, have a source file other than the first stab, a function and a line that contain it, each
-- kind in order and with no stab at the next address: `debuginfo_eip` returns 0 and gives the
-- function's name, up to a colon or the end of the string, its first address, the number of its
-- arguments, the file of the last source stab before the line, and the line number of the last stab
-- before the next line.
pub debuginfo_eip-Describes :
    (kernel user t : Tables) (addr lfile efile lfun efun lline eline src : ℕ)
    → t ≡ (if leb ulim addr then kernel else user)
    → HasFunction t addr lfile efile lfun efun lline eline src
    → (info : Eipdebuginfo) × (debuginfo_eip kernel user addr ≡ some (true, info))
      × Describes t lfun efun eline src info
unfolding debuginfo_eip
debuginfo_eip-Describes kernel user t addr lfile efile lfun efun lline eline src tables h =
    let (info, e, d) = function_found t addr lfile efile lfun efun lline eline src h in
    let runs = tables_run t addr lfile efile lfun efun lline eline src h ∙ e in
    (info, chosen kernel user t addr tables ∙ runs, d)
