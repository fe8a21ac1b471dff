-- ===== src/Kern/Debug.antt =====
-- The search in debugging tables, oslab6/kern/kdebug.c, over the structures of oslab6/inc/stab.h. An
-- index that may be -1 is kept as the number after it: `right_end` is `*region_right + 1`, and
-- `r_end` is `r + 1`.
pub mod Region
pub mod Finds
pub mod Contains
pub mod Info
pub mod Parts
pub mod Describes
use operating_systems_lab.Base.{
  ℕ, zero, suc, ◌+◌, ◌-◌, ◌*◌, ◌/◌, ◌==◌, ltb, leb, if◌then◌else◌, Bool, true, false, ◌&&◌, not,
  Option, none, some,
}
use operating_systems_lab.Kern.State.{u32}

pub record Stab : Type 0 where
  pub n_strx : ℕ
  pub n_type : ℕ
  pub n_other : ℕ
  pub n_desc : ℕ
  pub n_value : ℕ

-- The variables of `stab_binsearch`.
pub record Search : Type 0 where
  pub region_left : ℕ
  pub right_end : ℕ
  pub l : ℕ
  pub r_end : ℕ
  pub addr : ℕ
  pub any_matches : Bool

module _ (stabs : ℕ → Stab) (type : ℕ) where
  abbrev pub of_type : ℕ → Bool
  of_type i = (stabs i).n_type == type

  -- The inner loop, at `m = n - 1`: the last stab of the type from `l` on, at or before it.
  unfoldable pub last_match : ℕ → ℕ → Option ℕ
  last_match l zero = none
  last_match l (suc m) =
      let rest = last_match l m in if ltb m l then none else if of_type m then some m else rest

  -- The rest of a round.
  unfoldable pub narrow : ℕ → Option ℕ → Search → Search
  narrow true_m none s = record s { l = true_m + 1 }
  narrow true_m (some m) s =
      if ltb (stabs m).n_value s.addr
      then record s { region_left = m; l = true_m + 1; any_matches = true }
      else if ltb s.addr (stabs m).n_value
      then record s { right_end = m; r_end = m; any_matches = true }
      else record s { region_left = m; l = m; addr = u32 (s.addr + 1); any_matches = true }

  unfoldable pub round : Search → Search
  round s = let true_m = (s.l + (s.r_end - 1)) / 2 in narrow true_m (last_match s.l (true_m + 1)) s

  -- The outer loop, with `fuel` rounds at most.
  unfoldable pub search_from : ℕ → Search → Search
  search_from zero s = s
  search_from (suc fuel) s =
      let rest = search_from fuel (round s) in if ltb s.l s.r_end then rest else s

  -- The last loop, at `l = n - 1`; the result is `l + 1`.
  unfoldable pub rightmost : ℕ → ℕ → ℕ
  rightmost left zero = zero
  rightmost left (suc l) =
      let rest = rightmost left l in if ltb left l && not (of_type l) then rest else suc l

  -- `*region_left + 1` and `*region_right + 1`.
  unfoldable pub region : Search → ℕ × ℕ
  region s =
      if s.any_matches
      then (rightmost s.region_left s.right_end, s.right_end)
      else (s.region_left + 1, s.region_left)

  -- Each round makes the range smaller or adds one to `addr`: 2 rounds for each stab are enough.
  unfoldable pub stab_binsearch : ℕ → ℕ → ℕ → ℕ × ℕ
  stab_binsearch left right_end addr = region (
      search_from (2 * (right_end - left) + 2) (record {
        region_left = left;
        right_end = right_end;
        l = left;
        r_end = right_end;
        addr = addr;
        any_matches = false;
      }))
