-- ===== src/Debug/Ends.antt =====
-- The search of kern/kdebug.c comes to its end.
use yu_os.Debug.{
  Stab, Bounds, Search, earlier_match, compare_at, round_at, search_round, search_loop,
  search_start, after_search, stab_binsearch, middle,
}
use yu_os.Prelude.{
  ℕ, zero, suc, Option, some, none, ◌≡◌, ◌<◌, ◌≤◌, ◌+◌, ◌-◌, ◌*◌, ◌==◌, ltb, Bool, true, false,
  if◌then◌else◌, arith, refl, Bool-cases, inl, inr, ==_iff, ◌≢◌, ◌↔◌, ltb→lt,
}
use yu_os.Layout.{word_mod}

module _ (stabs : ℕ → Stab) (type : ℕ) where
  -- What the scan for a match comes to
  pub data Matched (n l : ℕ) : Option ℕ → Type 0 where
    no_match : ((j : ℕ) → l ≤ j → j < n → (stabs j).n_type ≢ type) → Matched n l none
    matched :
        {m : ℕ}
        → l ≤ m
        → m < n
        → (stabs m).n_type ≡ type
        → ((j : ℕ) → m < j → j < n → (stabs j).n_type ≢ type)
        → Matched n l (some m)

  widen :
      {n l : ℕ} {o : Option ℕ}
      → l ≤ n
      → (stabs n).n_type ≢ type
      → Matched n l o
      → Matched (suc n) l o
  widen {n} {l} le ne (no_match h) = no_match (λ j a b. elim (Bool-cases (j == n)) [
    | inl e ↦ rw ((==_iff j n).0 e) ne
    | inr e ↦ h j a (ground arith)
  ])
  widen {n} {l} le ne (matched a b t h) = matched a (omega arith) t (λ j c d.
      elim (Bool-cases (j == n)) [
        | inl e ↦ rw ((==_iff j n).0 e) ne
        | inr e ↦ h j c (ground arith)
      ])

  pub earlier_match-Matched : (n l : ℕ) → Matched n l (earlier_match stabs type n l)
  unfolding earlier_match
  earlier_match-Matched zero l = no_match (λ j a b. absurd (omega arith))
  earlier_match-Matched (suc m) l = elim (Bool-cases (ltb m l)) [
    | inl e ↦ rw e (no_match (λ j a b. absurd (ground arith)))
    | inr e ↦
        rw e (
          by_type ((stabs m).n_type == type) (==_iff _ _) (ground arith)
            (earlier_match-Matched m l))
  ]
    where
      by_type :
          (b : Bool)
          → ((b ≡ true) ↔ ((stabs m).n_type ≡ type))
          → l ≤ m
          → Matched m l (earlier_match stabs type m l)
          → Matched (suc m) l (if b then some m else earlier_match stabs type m l)
      by_type true t le rest = matched le (omega arith) (t.0 refl) (λ j a c. absurd (omega arith))
      by_type false t le rest = widen le (λ e. let u = t.1 e in absurd (cc)) rest

  -- One round less is left for each place, and one more after an exact match.
  abbrev pub rounds_left : Search → ℕ
  rounds_left s = (s.r_next - s.l) * 2 + (if (stabs s.l).n_value == s.addr then 1 else 0)

  compare_decreases :
      (s : Search) (true_m m : ℕ)
      → s.l ≤ m
      → m ≤ true_m
      → true_m < s.r_next
      → s.addr < word_mod
      → rounds_left (compare_at stabs type true_m m s) < rounds_left s
  compare_decreases s true_m m a b c w = elim (Bool-cases (ltb (stabs m).n_value s.addr)) [
    | inl e ↦ rw e (ground arith)
    | inr e ↦ elim (Bool-cases (ltb s.addr (stabs m).n_value)) [
      | inl f ↦ rw (e, f) (ground arith)
      | inr f ↦ let same : (stabs m).n_value ≡ s.addr = ground arith in rw (e, f) (ground arith)
    ]
  ]

  round_at-decreases :
      (s : Search) (true_m : ℕ) (o : Option ℕ)
      → s.l ≤ true_m
      → true_m < s.r_next
      → s.addr < word_mod
      → Matched (true_m + 1) s.l o
      → rounds_left (round_at stabs type true_m s o) < rounds_left s
  round_at-decreases s true_m none a b w (no_match h) = ground arith
  round_at-decreases s true_m (some m) a b w (matched le lt t h) =
      compare_decreases s true_m m le (omega arith) b w

  addr_bound :
      (s : Search) (true_m : ℕ) (o : Option ℕ)
      → s.addr < word_mod
      → (round_at stabs type true_m s o).addr < word_mod
  addr_bound s true_m none w = w
  addr_bound s true_m (some m) w = ground arith

  pub search_loop_ends :
      (fuel : ℕ) (s : Search)
      → rounds_left s < fuel
      → s.addr < word_mod
      → (t : Search) × (search_loop stabs type fuel s ≡ some t)
  unfolding search_loop search_round
  search_loop_ends zero s h w = absurd (omega arith)
  search_loop_ends (suc n) s h w = elim (Bool-cases (ltb s.l s.r_next)) [
    | inl e ↦
        let lt = ltb→lt s.l s.r_next e in
        let o = earlier_match stabs type (middle s + 1) s.l in
        let less =
          round_at-decreases s (middle s) o (omega arith) (omega arith) w
            (earlier_match-Matched (middle s + 1) s.l) in
        rw e (
          search_loop_ends n (round_at stabs type (middle s) s o) (omega arith)
            (addr_bound s (middle s) o w))
    | inr e ↦ rw e (s, refl)
  ]

  -- For every table, type and 32-bit address, twice as many rounds as the range has stabs, and two
  -- more, are enough for the loop of `stab_binsearch`.
  pub stab_binsearch-ends :
      (fuel addr : ℕ) (b : Bounds)
      → addr < word_mod
      → (b.right_next - (b.left_next - 1)) * 2 + 1 < fuel
      → (out : Bounds) × (stab_binsearch stabs type fuel addr b ≡ some out)
  unfolding stab_binsearch
  stab_binsearch-ends fuel addr b w h =
      let end = search_loop_ends fuel (search_start addr b) (ground arith) w in
      (after_search stabs type end.0, rw end.1 refl)
