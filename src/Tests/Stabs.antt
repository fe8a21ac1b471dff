-- ===== src/Tests/Stabs.antt =====
-- The search in debugging tables at concrete tables.
use operating_systems_lab.Base.{
  ℕ, suc, ◌+◌, ◌*◌, ◌==◌, ◌≡◌, refl, arith, if◌then◌else◌, ◌||◌, true, some, none, inl, inr,
}
use operating_systems_lab.Kern.Debug.{
  Stab, stab_binsearch, search_from, round, narrow, last_match, region, rightmost,
}
use operating_systems_lab.Kern.Debug.Region.{IsTable}
use operating_systems_lab.Kern.Debug.Info.{
  Eipdebuginfo, Tables, debuginfo_eip, search_tables, with_file, in_file, in_function, fill_info,
  name_at, name_length, line_number, source_name, narg, count_args,
}
use operating_systems_lab.Kern.Debug.Describes.{HasFunction, Describes, debuginfo_eip-Describes}
use operating_systems_lab.User.Strings.{strfind}
use operating_systems_lab.Kern.Debug.Contains.{Contains, stab_binsearch-Contains}

abbrev stab : ℕ → ℕ → Stab
stab type v = record { n_strx = 0; n_type = type; n_other = 0; n_desc = 0; n_value = v }

-- Source files at 0x10, 0x40 and 0x76, with functions between.
abbrev table : ℕ → Stab
table i =
    if i == 0
    then stab 0x64 0x10
    else if i == 2
    then stab 0x64 0x40
    else if i == 4
    then stab 0x64 0x76
    else stab 0x24 (i * 0x10)

table-IsTable : IsTable table 0x64 0 6 0x50
table-IsTable = record {
  in_order = λ i j a b c t u. ground arith;
  not_next = λ i a b t e. absurd (ground arith);
  word = omega arith;
}

stab_binsearch-Contains_example :
    (p : ℕ) × (e : ℕ) × (stab_binsearch table 0x64 0 6 0x50 ≡ (suc p, e))
    × Contains table 0x64 0 6 0x50 p e
stab_binsearch-Contains_example =
    stab_binsearch-Contains table 0x64 0 6 0x50 table-IsTable 2 (omega arith) (omega arith) refl
      (omega arith)

found_it : stab_binsearch table 0x64 0 6 0x50 ≡ (3, 4)
unfolding stab_binsearch search_from round narrow last_match region rightmost
found_it = refl

-- Two lines whose addresses differ by one: at the address of the first the search returns the
-- second.
adjacent : stab_binsearch (λ i. stab 0x44 (0x10 + i)) 0x44 0 2 0x10 ≡ (2, 2)
unfolding stab_binsearch search_from round narrow last_match region rightmost
adjacent = refl

-- One source file with one function, `f`, that has an argument and two lines.
abbrev kernel_stabs : ℕ → Stab
kernel_stabs i =
    if i == 1
    then record (stab 0x64 0xF010_0000) { n_strx = 1 }
    else if i == 2
    then record (stab 0x24 0xF010_0000) { n_strx = 5 }
    else if i == 3
    then stab 0xa0 8
    else if i == 4
    then record (stab 0x44 0) { n_desc = 10 }
    else if i == 5
    then record (stab 0x44 8) { n_desc = 11 }
    else stab 0 0

-- "\0a.c\0f:F\0", with 'a' for the letters.
abbrev kernel_tables : Tables
kernel_tables = record {
  stabs = kernel_stabs;
  count = 6;
  stabstr = λ i. if i == 6 then 58 else if (i == 0) || (i == 4) || (i == 8) then 0 else 97;
  size = 9;
}

kernel_tables-HasFunction : HasFunction kernel_tables 0xF010_0004 1 6 2 6 4 5 1
kernel_tables-HasFunction = record {
  word = omega arith;
  good_strings = refl;
  files = record {
    in_order = λ i j a b c t u. ground arith;
    not_next = λ i a b t e. absurd (ground arith);
    word = omega arith;
  };
  file = record {
    in_range = (omega arith, omega arith, omega arith);
    right_type = refl;
    starts = omega arith;
    none_between = λ i a b. ground arith;
    ends = inl refl;
    all_above = λ i a b. absurd (omega arith);
  };
  not_first = omega arith;
  functions = record {
    in_order = λ i j a b c t u. ground arith;
    not_next = λ i a b t e. absurd (ground arith);
    word = omega arith;
  };
  function = record {
    in_range = (omega arith, omega arith, omega arith);
    right_type = refl;
    starts = omega arith;
    none_between = λ i a b. ground arith;
    ends = inl refl;
    all_above = λ i a b. absurd (omega arith);
  };
  named = omega arith;
  lines = record {
    in_order = λ i j a b c t u. ground arith;
    not_next = λ i a b t e. absurd (ground arith);
    word = omega arith;
  };
  line = record {
    in_range = (omega arith, omega arith, omega arith);
    right_type = refl;
    starts = omega arith;
    none_between = λ i a b. ground arith;
    ends = inr (refl, omega arith);
    all_above = λ i a b t. ground arith;
  };
  source = record {
    in_lines = (omega arith, omega arith);
    is_source = refl;
    no_later = λ i a b. ground arith;
  };
}

debuginfo_eip-Describes_example :
    (info : Eipdebuginfo) × (debuginfo_eip kernel_tables kernel_tables 0xF010_0004
      ≡ some (true, info))
    × Describes kernel_tables 2 6 5 1 info
debuginfo_eip-Describes_example =
    debuginfo_eip-Describes kernel_tables kernel_tables kernel_tables 0xF010_0004 1 6 2 6 4 5 1 refl
      kernel_tables-HasFunction

-- A file whose one function starts after the address: the name is that of the file.
abbrev early_tables : Tables
early_tables = record kernel_tables {
  stabs = λ i. if i == 2 then record (stab 0x24 0xF010_0020) { n_strx = 5 } else kernel_stabs i;
}

early_name :
    debuginfo_eip early_tables early_tables 0xF010_0004
    ≡ some (
      true,
      record {
        eip_file = some 1;
        eip_line = none;
        eip_fn_name = some 1;
        eip_fn_namelen = 3;
        eip_fn_addr = 0xF010_0000;
        eip_fn_narg = 0;
      },
    )
unfolding debuginfo_eip search_tables with_file in_file in_function fill_info name_at name_length
    line_number source_name narg count_args strfind stab_binsearch search_from round narrow
    last_match region rightmost
early_name = refl

-- An address before the first source file, where that is the first stab.
below_all :
    debuginfo_eip
      (record kernel_tables { stabs = λ i. stab 0x64 0xF010_0020 })
      kernel_tables
      0xF010_0004
    ≡ none
unfolding debuginfo_eip search_tables with_file stab_binsearch search_from round narrow last_match
    region rightmost
below_all = refl
