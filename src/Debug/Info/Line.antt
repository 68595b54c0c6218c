-- ===== src/Debug/Info/Line.antt =====
-- debuginfo_eip of kern/kdebug.c finds the line and the function of an instruction.
use yu_os.Debug.{Bounds, ltb, false}
use yu_os.Debug.Region.{IsEnd, IsEnd-unique, stab_binsearch-FoundStab}
use yu_os.Debug.Info.{
  Tables, Info, n_fun, n_sline, n_so, search, string_at, fn_namelen, debuginfo_eip, leb,
}
use yu_os.Strings.{Bytes, strfind}
use yu_os.Layout.{ulim, word_mod}
use yu_os.Prelude.{
  ℕ, zero, suc, Option, some, none, ◌≡◌, ◌<◌, ◌≤◌, ◌+◌, ◌-◌, ◌*◌, ◌%◌, arith, refl, true, ok,
  Bool-cases, ◌==◌, inl, inr, ap, ◌∙◌, ==_iff, ltb, false, le→ltb, leb,
}
use yu_os.Debug.Round.{Contains}

-- The stabs of the instruction: its source file, the function in it, and the line in that
pub record Located (t : Tables) (addr source function line : ℕ) : Type 0 where
  pub kernel : ulim ≤ addr
  pub small : addr + 1 < word_mod
  pub strings : 0 < t.str_size
  pub strings_end : t.stabstr (t.str_size - 1) ≡ 0
  pub not_first : 0 < source
  pub in_source : Contains t.stabs n_so 0 t.count addr source
  pub source_end : ℕ
  pub ends_source : IsEnd t.stabs n_so t.count source source_end
  pub in_function : Contains t.stabs n_fun source source_end addr function
  pub function_end : ℕ
  pub ends_function : IsEnd t.stabs n_fun source_end function function_end
  pub in_line :
      Contains t.stabs n_sline function function_end (addr - (t.stabs function).n_value) line

strfind_ends :
    (fuel s c d : ℕ) (mem : Bytes)
    → d < fuel
    → mem (s + d) ≡ 0
    → (p : ℕ) × (strfind fuel s c mem ≡ some p)
unfolding strfind
strfind_ends zero s c d mem h e = absurd (omega arith)
strfind_ends (suc fuel) s c zero mem h e =
    let here : mem s ≡ 0 = ap mem (omega arith) ∙ e in
    let z : (mem s == 0) ≡ true = (==_iff _ _).1 here in rw z (s, refl)
strfind_ends (suc fuel) s c (suc d) mem h e =
    let there : mem (s + 1 + d) ≡ 0 = ap mem (omega arith) ∙ e in
    let rest = strfind_ends fuel (s + 1) c d mem (omega arith) there in
    elim (Bool-cases (mem s == 0)) [
      | inl z ↦ rw z (s, refl)
      | inr z ↦ elim (Bool-cases (mem s == c)) [
        | inl y ↦ rw (z, y) (s, refl)
        | inr y ↦ rw (z, y) rest
      ]
    ]

Bounds-eq :
    (out : Bounds) (a b : ℕ)
    → out.left_next ≡ a
    → out.right_next ≡ b
    → out ≡ (record { left_next = a; right_next = b })
Bounds-eq out a b p q = rw (← p, ← q) refl

search-at :
    (t : Tables) (type left right_next addr k e : ℕ)
    → right_next ≤ t.count
    → addr + 1 < word_mod
    → Contains t.stabs type left right_next addr k
    → IsEnd t.stabs type right_next k e
    → search t type addr (record { left_next = left + 1; right_next = right_next })
      ≡ ok (record { left_next = k + 1; right_next = e })
search-at t type left right_next addr k e h w c end =
    let f =
      stab_binsearch-FoundStab t.stabs type left right_next addr k c (t.count * 2 + 2) w
        (omega arith) in
    let same = IsEnd-unique t.stabs type right_next k f.0.right_next e f.2.end end in
    let eq = Bounds-eq f.0 (k + 1) e f.2.left_is same in rw (f.1, eq) refl

search-line :
    (t : Tables) (type left right_next addr k : ℕ)
    → right_next ≤ t.count
    → addr + 1 < word_mod
    → Contains t.stabs type left right_next addr k
    → (e : ℕ) × (k < e)
      × (search t type addr (record { left_next = left + 1; right_next = right_next })
          ≡ ok (record { left_next = k + 1; right_next = e }))
search-line t type left right_next addr k h w c =
    let f =
      stab_binsearch-FoundStab t.stabs type left right_next addr k c (t.count * 2 + 2) w
        (omega arith) in
    (
      f.0.right_next,
      f.2.end.after,
      search-at t type left right_next addr k f.0.right_next h w c f.2.end,
    )

module _ (t : Tables) where
  fn_namelen_ends :
      (o : Option ℕ)
      → 0 < t.str_size
      → t.stabstr (t.str_size - 1) ≡ 0
      → ((p : ℕ) → o ≡ some p → p < t.str_size)
      → (n : ℕ) × (fn_namelen t o ≡ ok n)
  fn_namelen_ends none a b h = (9, refl)
  fn_namelen_ends (some p) a b h =
      let lt = h p refl in
      let last : t.stabstr (p + (t.str_size - 1 - p)) ≡ 0 = ap t.stabstr (omega arith) ∙ b in
      let f =
        strfind_ends (t.str_size + 1) p 58 (t.str_size - 1 - p) t.stabstr (omega arith) last in
      (f.0 - p, rw (f.1) refl)

  string_at_lt : (x p : ℕ) → string_at t x none ≡ some p → p < t.str_size
  string_at_lt x p e = ground arith

  -- For an address of the kernel that lies in a source file other than the first stab, in a
  -- function of it and in a line of that, by stabs of which the later ones start behind the
  -- address, and none starts one byte behind one that starts exactly there, and with a table of
  -- strings that ends in a null byte, `debuginfo_eip` returns 0 with the number of the line and the
  -- start of the function.
  pub debuginfo_eip-line :
      (addr source function line : ℕ)
      → Located t addr source function line
      → (info : Info) × (debuginfo_eip t addr ≡ ok (true, info))
        × (info.eip_line ≡ (t.stabs line).n_desc)
        × (info.eip_fn_addr ≡ (t.stabs function).n_value)
  unfolding debuginfo_eip
  debuginfo_eip-line addr source function line at =
      let h = at.kernel in
      let w = at.small in
      let size = at.strings in
      let zero_end = at.strings_end in
      let z : (t.stabstr (t.str_size - 1) == 0) ≡ true = (==_iff _ _).1 zero_end in
      let low : ltb addr ulim ≡ false = le→ltb addr ulim h in
      let some_strings : (t.str_size == 0) ≡ false = ground arith in
      let n0 = at.not_first in
      let bs = at.ends_source.within in
      let bf = at.ends_function.within in
      let file =
        search-at t n_so 0 t.count addr source at.source_end (omega arith) w at.in_source
          at.ends_source in
      let fun =
        search-at t n_fun source at.source_end addr function at.function_end bs w at.in_function
          at.ends_function in
      let start =
        at.in_function.up_to function at.in_function.from (omega arith) at.in_function.match in
      let sub : (addr + word_mod - (t.stabs function).n_value) % word_mod
          ≡ addr - (t.stabs function).n_value =
        omega arith in
      let line_at =
        search-line t n_sline function at.function_end (addr - (t.stabs function).n_value) line
          (omega arith) (omega arith) at.in_line in
      let lt_fun = at.ends_function.after in
      let lt_line = line_at.1 in
      let one : (source + 1 == 1) ≡ false = ground arith in
      let none_before : (source + 1 == 0) ≡ false = ground arith in
      let back : function + 1 - 1 ≡ function = omega arith in
      let found_fun : leb (function + 1) at.function_end ≡ true = ground arith in
      let found_line : leb (line + 1) line_at.0 ≡ true = ground arith in
      let name =
        fn_namelen_ends (string_at t (t.stabs function).n_strx none) size zero_end
          (λ p e. string_at_lt (t.stabs function).n_strx p e) in
      let line_back : line + 1 - 1 ≡ line = omega arith in
      rw
        (
          low, some_strings, z, file, one, none_before, fun, found_fun, back, name.1, sub,
          line_at.2, found_line, line_back,
        )
        (_, refl, refl, refl)
