-- ===== src/Debug/Info.antt =====
-- debuginfo_eip of kern/kdebug.c: the file, the line and the function of an instruction.
pub mod Line
use yu_os.Debug.{Stab, Bounds, stab_binsearch}
use yu_os.Strings.{Bytes, strfind}
use yu_os.Layout.{ulim, word_mod}
use yu_os.Prelude.{
  ℕ, zero, suc, Option, some, none, Bool, true, false, ◌==◌, ◌&&◌, ◌||◌, not, if◌then◌else◌, ltb,
  leb, ◌+◌, ◌-◌, ◌*◌, ◌%◌, Run, ok, panic, ◌>>=◌,
}

-- The table of stabs and the table of their strings, which the linker builds
pub record Tables : Type 0 where
  pub stabs : ℕ → Stab
  pub count : ℕ
  pub stabstr : Bytes
  pub str_size : ℕ

-- `struct Eipdebuginfo`; a string is its place in the table, or "<unknown>".
pub record Info : Type 0 where
  pub eip_file : Option ℕ
  pub eip_line : ℕ
  pub eip_fn_name : Option ℕ
  pub eip_fn_namelen : ℕ
  pub eip_fn_addr : ℕ
  pub eip_fn_narg : ℕ

abbrev pub n_fun : ℕ
n_fun = 0x24

abbrev pub n_sline : ℕ
n_sline = 0x44

abbrev pub n_so : ℕ
n_so = 0x64

abbrev pub n_sol : ℕ
n_sol = 0x84

abbrev pub n_psym : ℕ
n_psym = 0xa0

abbrev pub unknown_info : ℕ → Info
unknown_info addr = record {
  eip_file = none;
  eip_line = 0;
  eip_fn_name = none;
  eip_fn_namelen = 9;
  eip_fn_addr = addr;
  eip_fn_narg = 0;
}

-- a loop that does not end
abbrev pub ended {ℓ} : {A : Type ℓ} → Option A → Run A
ended none = panic
ended (some a) = ok a

module _ (t : Tables) where
  abbrev pub search : ℕ → ℕ → Bounds → Run Bounds
  search type addr b = ended (stab_binsearch t.stabs type (t.count * 2 + 2) addr b)

  -- The name that starts at `n_strx`, or the one there was, if that is behind the table
  abbrev pub string_at : ℕ → Option ℕ → Option ℕ
  string_at n_strx old = if ltb n_strx t.str_size then some n_strx else old

  -- `strfind(info->eip_fn_name, ':') - info->eip_fn_name`; the string ends within its table.
  abbrev pub fn_namelen : Option ℕ → Run ℕ
  fn_namelen none = ok 9
  fn_namelen (some name) = do
    colon ← ended (strfind (t.str_size + 1) name 58 t.stabstr)
    ok (colon - name)

  -- The loop that goes back to the stab of the file, as `lline + 1`, and what follows it
  unfoldable pub file_stab : ℕ → ℕ → ℕ
  file_stab zero lfile = zero
  file_stab (suc lline) lfile =
      let rest = file_stab lline lfile in
      let s = t.stabs lline in
      if leb lfile lline
        && (not (s.n_type == n_sol) && (not (s.n_type == n_so) || (s.n_value == 0)))
      then rest
      else suc lline

  abbrev pub file_of : ℕ → ℕ → Option ℕ
  file_of zero lfile = none
  file_of (suc lline) lfile =
      if leb lfile lline then string_at (t.stabs lline).n_strx none else none

  -- The stabs of parameters that follow that of the function, before `rfun`
  unfoldable pub count_args : ℕ → ℕ → ℕ
  count_args zero lline = 0
  count_args (suc n) lline =
      let rest = count_args n (lline + 1) in
      if (t.stabs lline).n_type == n_psym then suc rest else 0

  -- `lfun < rfun`
  abbrev pub arguments : Bounds → ℕ
  arguments fun =
      if ltb fun.left_next fun.right_next
      then count_args (fun.right_next - 1 - fun.left_next) fun.left_next
      else 0

  -- From the line's bounds on; the result tells whether the code returns 0, or -1.
  abbrev pub with_line : Bounds → Bounds → Bounds → Info → Bool × Info
  with_line file fun line info =
      if leb line.left_next line.right_next
      then (
        true,
        record info {
          eip_line = (t.stabs (line.left_next - 1)).n_desc;
          eip_file = file_of (file_stab line.left_next (file.left_next - 1)) (file.left_next - 1);
          eip_fn_narg = arguments fun;
        },
      )
      else (false, info)

  abbrev pub search_line : Bounds → Bounds → ℕ → Bounds → Info → Run (Bool × Info)
  search_line file fun addr lines info = do
    length ← fn_namelen info.eip_fn_name
    line ← search n_sline addr lines
    ok (with_line file fun line (record info { eip_fn_namelen = length }))

  -- From the function's bounds on
  abbrev pub with_function : ℕ → Bounds → Bounds → Info → Run (Bool × Info)
  with_function addr file fun info =
      let s = t.stabs (fun.left_next - 1) in
      if leb fun.left_next fun.right_next
      then search_line file fun ((addr + word_mod - s.n_value) % word_mod) fun (record info {
        eip_fn_name = string_at s.n_strx info.eip_fn_name;
        eip_fn_addr = s.n_value;
      })
      else search_line file fun addr file (record info { eip_fn_addr = addr })

  -- From the file's bounds on. With *region_left at -1 the code would go on with the memory before
  -- the table.
  abbrev pub with_source : ℕ → Bounds → Info → Run (Bool × Info)
  with_source addr file info =
      if file.left_next == 1
      then ok (false, info)
      else if file.left_next == 0
      then panic
      else (do fun ← search n_fun addr file; with_function addr file fun info)

  abbrev no_strings : Bool
  no_strings = (t.str_size == 0) || not (t.stabstr (t.str_size - 1) == 0)

  unfoldable pub debuginfo_eip : ℕ → Run (Bool × Info)
  debuginfo_eip addr = if ltb addr ulim || no_strings then ok (false, unknown_info addr) else (do
    file ← search n_so addr (record { left_next = 1; right_next = t.count })
    with_source addr file (unknown_info addr))
