-- ===== src/Tests/DebugExamples.antt =====
-- The theorems on the symbol table at one of five stabs: a source file with one function of two lines.
use yu_os.Debug.{Stab, Bounds, stab_binsearch}
use yu_os.Debug.Ends.{stab_binsearch-ends}
use yu_os.Debug.Region.{FoundStab, stab_binsearch-FoundStab}
use yu_os.Debug.Info.{Tables, Info, debuginfo_eip, n_so, n_fun, n_sline}
use yu_os.Debug.Info.Line.{Located, debuginfo_eip-line}
use yu_os.Prelude.{ℕ, ◌≡◌, ◌==◌, if◌then◌else◌, some, ok, true, arith, refl, inl}
use yu_os.Debug.Round.{Contains}

abbrev stab : ℕ → ℕ → ℕ → Stab
stab type desc value = record { n_strx = 1; n_type = type; n_desc = desc; n_value = value }

abbrev stabs : ℕ → Stab
stabs i =
    if i == 1
    then stab n_so 0 0xF0100000
    else if i == 2
    then stab n_fun 0 0xF0100000
    else if i == 3
    then stab n_sline 10 0
    else if i == 4
    then stab n_sline 11 4
    else stab 0 0 0

abbrev tables : Tables
tables = record { stabs = stabs; count = 5; stabstr = λ i. 0; str_size = 8 }

line-Contains : Contains stabs n_sline 2 5 2 3
line-Contains = record {
  from = omega arith;
  to = omega arith;
  match = refl;
  up_to = λ j a b t. ground arith;
  later = λ j a b t. ground arith;
  gap = λ i j a b t e c d u. ground arith;
}

stab_binsearch-ends_example :
    (out : Bounds) × (stab_binsearch stabs n_sline 12 2 (record { left_next = 1; right_next = 5 })
      ≡ some out)
stab_binsearch-ends_example =
    stab_binsearch-ends stabs n_sline 12 2 (record { left_next = 1; right_next = 5 }) (omega arith)
      (omega arith)

stab_binsearch-FoundStab_example :
    (out : Bounds) × (stab_binsearch stabs n_sline 12 2 (record { left_next = 3; right_next = 5 })
      ≡ some out)
    × FoundStab stabs n_sline 2 5 2 3 line-Contains out
stab_binsearch-FoundStab_example =
    stab_binsearch-FoundStab stabs n_sline 2 5 2 3 line-Contains 12 (omega arith) (omega arith)

located : Located tables 0xF0100002 1 2 3
located = record {
  kernel = omega arith;
  small = omega arith;
  strings = omega arith;
  strings_end = refl;
  not_first = omega arith;
  in_source = record {
    from = omega arith;
    to = omega arith;
    match = refl;
    up_to = λ j a b t. ground arith;
    later = λ j a b t. ground arith;
    gap = λ i j a b t e c d u. ground arith;
  };
  source_end = 5;
  ends_source = record {
    after = omega arith;
    within = omega arith;
    alone = λ j a b. ground arith;
    next = inl refl;
  };
  in_function = record {
    from = omega arith;
    to = omega arith;
    match = refl;
    up_to = λ j a b t. ground arith;
    later = λ j a b t. ground arith;
    gap = λ i j a b t e c d u. ground arith;
  };
  function_end = 5;
  ends_function = record {
    after = omega arith;
    within = omega arith;
    alone = λ j a b. ground arith;
    next = inl refl;
  };
  in_line = line-Contains;
}

debuginfo_eip-line_example :
    (info : Info) × (debuginfo_eip tables 0xF0100002 ≡ ok (true, info))
    × (info.eip_line ≡ 10)
    × (info.eip_fn_addr ≡ 0xF0100000)
debuginfo_eip-line_example = debuginfo_eip-line tables 0xF0100002 1 2 3 located
