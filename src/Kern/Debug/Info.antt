-- ===== src/Kern/Debug/Info.antt =====
-- `debuginfo_eip` of oslab6/kern/kdebug.c, with the information of oslab6/kern/kdebug.h. A name is
-- its place in the string table, and `none` is "<unknown>".
use operating_systems_lab.Base.{
  ℕ, zero, suc, ◌+◌, ◌-◌, ◌%◌, ◌^◌, ◌==◌, ltb, leb, if◌then◌else◌, Bool, true, false, ◌&&◌, ◌||◌,
  not, Option, none, some,
}
use operating_systems_lab.Kern.State.{ulim}
use operating_systems_lab.Kern.Debug.{Stab, of_type, stab_binsearch}
use operating_systems_lab.User.Strings.{Memory, strfind}

abbrev pub n_fun : ℕ
n_fun = 0x24

abbrev pub n_sline : ℕ
n_sline = 0x44

abbrev pub n_so : ℕ
n_so = 0x64

abbrev pub n_sol : ℕ
n_sol = 0x84

abbrev pub n_psym : ℕ
n_psym = 0xa0

-- `eip_line` is -1 as `none`.
pub record Eipdebuginfo : Type 0 where
  pub eip_file : Option ℕ
  pub eip_line : Option ℕ
  pub eip_fn_name : Option ℕ
  pub eip_fn_namelen : ℕ
  pub eip_fn_addr : ℕ
  pub eip_fn_narg : ℕ

-- `stabs` up to `stab_end`, and `stabstr` up to `stabstr_end`, where 0 is also for an end before the
-- start.
pub record Tables : Type 0 where
  pub stabs : ℕ → Stab
  pub count : ℕ
  pub stabstr : Memory
  pub size : ℕ

abbrev pub unknown : ℕ → Eipdebuginfo
unknown addr = record {
  eip_file = none;
  eip_line = some 0;
  eip_fn_name = none;
  eip_fn_namelen = 9;
  eip_fn_addr = addr;
  eip_fn_narg = 0;
}

module _ (t : Tables) where
  abbrev pub bad_strings : Bool
  bad_strings = (t.size == 0) || not (t.stabstr (t.size - 1) == 0)

  -- `stabstr + stabs[i].n_strx`, where that is within the table.
  unfoldable pub name_at : ℕ → Option ℕ
  name_at i = if ltb (t.stabs i).n_strx t.size then some (t.stabs i).n_strx else none

  -- The characters before the colon; 58 is `':'`.
  unfoldable pub name_length : Option ℕ → Option ℕ
  name_length none = some 9
  name_length (some x) = elim (strfind t.size t.stabstr x 58) [
    | none ↦ none
    | some e ↦ some (e - x)
  ]

  -- The line number for a result of the search; an index of -1 stops the model.
  unfoldable pub line_number : ℕ × ℕ → Option (Option ℕ)
  line_number (l, zero) = if l == 0 then none else some none
  line_number (l, suc r) = if leb l (suc r) then some (some (t.stabs r).n_desc) else some none

  abbrev pub names_source : ℕ → Bool
  names_source l =
      of_type t.stabs n_sol l || (of_type t.stabs n_so l && not ((t.stabs l).n_value == 0))

  -- The backward search for a file name, at `lline = n - 1`, and what it finds.
  unfoldable pub source_name : ℕ → ℕ → Option ℕ
  source_name lfile zero = none
  source_name lfile (suc l) =
      let rest = source_name lfile l in
      if ltb l lfile then none else if names_source l then name_at l else rest

  -- The loop that counts arguments, over `n` stabs at most.
  unfoldable pub count_args : ℕ → ℕ → ℕ
  count_args zero l = 0
  count_args (suc n) l =
      let rest = count_args n (l + 1) in if of_type t.stabs n_psym l then suc rest else 0

  unfoldable pub narg : ℕ → ℕ → ℕ
  narg lfun rfun_end =
      if ltb (lfun + 1) rfun_end then count_args (rfun_end - 1 - (lfun + 1)) (lfun + 1) else 0

  -- From the length of the name on: `found` is the result of the search for the line.
  unfoldable pub fill_info : ℕ → ℕ → ℕ → ℕ × ℕ → Eipdebuginfo → Option (Bool × Eipdebuginfo)
  fill_info lfile lfun rfun_end found info = elim (name_length info.eip_fn_name) [
    | none ↦ none
    | some len ↦ elim (line_number found) [
      | none ↦ none
      | some line ↦ some (
        true,
        record info {
          eip_file = source_name lfile found.0;
          eip_line = line;
          eip_fn_namelen = len;
          eip_fn_narg = narg lfun rfun_end;
        },
      )
    ]
  ]

  -- With `stabs[lfun]` for the function, and without a function.
  unfoldable pub in_function : ℕ → ℕ → ℕ → ℕ → Option (Bool × Eipdebuginfo)
  in_function lfile lfun rfun_end addr =
      let start = (t.stabs lfun).n_value in
      fill_info lfile lfun rfun_end
        (stab_binsearch t.stabs n_sline lfun rfun_end ((2 ^ 32 + addr - start) % 2 ^ 32))
        (record (unknown addr) { eip_fn_name = name_at lfun; eip_fn_addr = start })

  unfoldable pub in_file : ℕ → ℕ → ℕ → ℕ × ℕ → Option (Bool × Eipdebuginfo)
  in_file lfile rfile_end addr (zero, rfun_end) = none
  in_file lfile rfile_end addr (suc lfun, rfun_end) =
      if leb (suc lfun) rfun_end
      then in_function lfile lfun rfun_end addr
      else fill_info lfile lfun rfun_end (stab_binsearch t.stabs n_sline lfile rfile_end addr)
          (unknown addr)

  -- After the search for the file; with `lfile` -1 the code reads `stabs[-1]`.
  unfoldable pub with_file : ℕ → ℕ × ℕ → Option (Bool × Eipdebuginfo)
  with_file addr (zero, rfile_end) = none
  with_file addr (suc zero, rfile_end) = some (false, unknown addr)
  with_file addr (suc (suc l), rfile_end) =
      in_file (suc l) rfile_end addr (stab_binsearch t.stabs n_fun (suc l) rfile_end addr)

  unfoldable pub search_tables : ℕ → Option (Bool × Eipdebuginfo)
  search_tables addr =
      if bad_strings
      then some (false, unknown addr)
      else with_file addr (stab_binsearch t.stabs n_so 0 t.count addr)

-- `debuginfo_eip`, with the tables of the kernel and those that the user program gives; whether the
-- result is 0, and the information.
unfoldable pub debuginfo_eip : Tables → Tables → ℕ → Option (Bool × Eipdebuginfo)
debuginfo_eip kernel user addr =
    if leb ulim addr then search_tables kernel addr else search_tables user addr
