-- ===== src/Debug.antt =====
-- The search in the symbol table of kern/kdebug.c: stab_binsearch. The table and its size are given by
-- the linker; it is an argument.
pub mod Ends
pub mod Round
pub mod Region
pub mod Info
use yu_os.Prelude.{
  ℕ, zero, suc, Option, some, none, Bool, true, false, ◌==◌, if◌then◌else◌, ltb, ◌+◌, ◌-◌, ◌*◌, ◌/◌,
  ◌%◌,
}
use yu_os.Layout.{word_mod}

-- `struct Stab`
pub record Stab : Type 0 where
  pub n_strx : ℕ
  pub n_type : ℕ
  pub n_desc : ℕ
  pub n_value : ℕ

-- The bounds that the caller gives and gets back, each one more than the code's `int`, since that may
-- be -1: `left_next` is *region_left + 1, `right_next` is *region_right + 1.
pub record Bounds : Type 0 where
  pub left_next : ℕ
  pub right_next : ℕ

-- The variables of the loop; `r_next` is one more than `r`.
pub record Search : Type 0 where
  pub l : ℕ
  pub r_next : ℕ
  pub bounds : Bounds
  pub any_matches : Bool
  pub addr : ℕ

abbrev pub search_start : ℕ → Bounds → Search
search_start addr b = record {
  l = b.left_next - 1;
  r_next = b.right_next;
  bounds = b;
  any_matches = false;
  addr = addr;
}

-- `true_m`
abbrev pub middle : Search → ℕ
middle s = (s.l + (s.r_next - 1)) / 2

-- The three outcomes of the comparison
abbrev pub go_right : ℕ → ℕ → Search → Search
go_right true_m m s = record s {
  bounds = record (s.bounds) { left_next = m + 1 };
  l = true_m + 1;
  any_matches = true;
}

abbrev pub go_left : ℕ → Search → Search
go_left m s = record s {
  bounds = record (s.bounds) { right_next = m };
  r_next = m;
  any_matches = true;
}

abbrev pub exact_match : ℕ → Search → Search
exact_match m s = record s {
  bounds = record (s.bounds) { left_next = m + 1 };
  l = m;
  addr = (s.addr + 1) % word_mod;
  any_matches = true;
}

module _ (stabs : ℕ → Stab) (type : ℕ) where
  -- `while (m >= l && stabs[m].n_type != type) m--;`, from m = n - 1; `none` is an `m` below `l`.
  unfoldable pub earlier_match : ℕ → ℕ → Option ℕ
  earlier_match zero l = none
  earlier_match (suc m) l =
      let rest = earlier_match m l in
      if ltb m l then none else if (stabs m).n_type == type then some m else rest

  -- The comparison with the address, at a match
  abbrev pub compare_at : ℕ → ℕ → Search → Search
  compare_at true_m m s =
      if ltb (stabs m).n_value s.addr
      then go_right true_m m s
      else if ltb s.addr (stabs m).n_value
      then go_left m s
      else exact_match m s

  abbrev pub round_at : ℕ → Search → Option ℕ → Search
  round_at true_m s none = record s { l = true_m + 1 }
  round_at true_m s (some m) = compare_at true_m m s

  -- The body of the loop, which runs while l <= r
  unfoldable pub search_round : Search → Search
  search_round s = let true_m = middle s in round_at true_m s (earlier_match (true_m + 1) s.l)

  -- `none` is a loop that needs more rounds than that.
  unfoldable pub search_loop : ℕ → Search → Option Search
  search_loop zero s = none
  search_loop (suc n) s =
      let rest = search_loop n (search_round s) in if ltb s.l s.r_next then rest else some s

  -- `for (l = *region_right; l > *region_left && stabs[l].n_type != type; l--)`, as `l + 1`
  unfoldable pub rightmost : ℕ → ℕ → ℕ
  rightmost zero left_next = zero
  rightmost (suc l) left_next =
      let rest = rightmost l left_next in
      if ltb left_next (suc l) then (if (stabs l).n_type == type then suc l else rest) else suc l

  -- What follows the loop
  abbrev pub after_search : Search → Bounds
  after_search s =
      if s.any_matches
      then record (s.bounds) { left_next = rightmost s.bounds.right_next s.bounds.left_next }
      else record (s.bounds) { right_next = s.bounds.left_next - 1 }

  abbrev finish : Option Search → Option Bounds
  finish none = none
  finish (some s) = some (after_search s)

  -- `stab_binsearch`, with *region_left not negative, for at most that many rounds
  unfoldable pub stab_binsearch : ℕ → ℕ → Bounds → Option Bounds
  stab_binsearch fuel addr b = finish (search_loop fuel (search_start addr b))
