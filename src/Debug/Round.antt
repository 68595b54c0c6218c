-- ===== src/Debug/Round.antt =====
-- One round of the search of kern/kdebug.c: what it keeps, if a stab contains the address.
use yu_os.Debug.{Stab, Search, compare_at, round_at, go_left, go_right, exact_match}
use yu_os.Debug.Ends.{Matched, matched, no_match}
use yu_os.Prelude.{
  ℕ, Option, some, none, ◌≡◌, ◌<◌, ◌≤◌, ◌+◌, ltb, false, arith, refl, Bool-cases, inl, inr, ◌≢◌,
  ◌⊎◌, ltb→lt, ◌∙◌,
}
use yu_os.Layout.{word_mod}

-- Stab `k` is the one that contains the address: a match, with every match up to it at or below the
-- address, and every later one above it. `below` is needed by the search for the end of the region.
pub record Contains (stabs : ℕ → Stab) (type left right_next addr k : ℕ) : Type 0 where
  pub from : left ≤ k
  pub to : k < right_next
  pub match : (stabs k).n_type ≡ type
  pub up_to : (j : ℕ) → left ≤ j → j ≤ k → (stabs j).n_type ≡ type → (stabs j).n_value ≤ addr
  pub later : (j : ℕ) → k < j → j < right_next → (stabs j).n_type ≡ type → addr < (stabs j).n_value
  -- if a match starts at the address, none starts at the byte behind it
  pub gap :
      (i j : ℕ)
      → left ≤ i
      → i < right_next
      → (stabs i).n_type ≡ type
      → (stabs i).n_value ≡ addr
      → left ≤ j
      → j < right_next
      → (stabs j).n_type ≡ type
      → (stabs j).n_value ≢ addr + 1

module _ (stabs : ℕ → Stab) (type left right_next addr k : ℕ)
    (c : Contains stabs type left right_next addr k) where
  abbrev pub IsMatch : ℕ → Type 0
  IsMatch j = (stabs j).n_type ≡ type

  pub record Exact : Type 0 where
    pub place : ℕ
    pub from : left ≤ place
    pub to : place < right_next
    pub match : IsMatch place
    pub here : (stabs place).n_value ≡ addr

  pub record Inv (s : Search) : Type 0 where
    pub low : left ≤ s.l
    pub high : k < s.r_next
    pub inside : s.r_next ≤ right_next
    pub same : s.bounds.right_next ≡ s.r_next
    pub some_left : left < s.bounds.left_next
    pub left_at : s.bounds.left_next ≤ k + 1
    pub passed : (j : ℕ) → k < j → j < s.l → ¬ IsMatch j
    pub unmatched : s.any_matches ≡ false → s.l ≤ k
    pub address : (s.addr ≡ addr) ⊎ ((s.addr ≡ addr + 1) × Exact)
    pub ends : (s.r_next ≡ right_next) ⊎ IsMatch s.r_next
    pub bounded : s.l ≤ s.r_next

  at_most : (s : Search) → Inv s → s.addr ≤ addr + 1
  at_most s v = elim (v.address) [ inl e ↦ omega arith | inr e ↦ (let a = e.0 in omega arith) ]

  at_least : (s : Search) → Inv s → addr ≤ s.addr
  at_least s v = elim (v.address) [ inl e ↦ omega arith | inr e ↦ (let a = e.0 in omega arith) ]

  up_to_region : (j : ℕ) → j < right_next → IsMatch j → (stabs j).n_value ≤ addr → j ≤ k
  up_to_region j h t le = elim (Bool-cases (ltb k j)) [
    | inl e ↦ absurd (let l = c.later j (ltb→lt k j e) h t in omega arith)
    | inr e ↦ ground arith
  ]

  skipped :
      (s : Search) (tm : ℕ)
      → Inv s
      → s.l ≤ tm
      → tm < s.r_next
      → ((j : ℕ) → s.l ≤ j → j < tm + 1 → ¬ IsMatch j)
      → Inv (record s { l = tm + 1 })
  skipped s tm v a b none_here =
      let low = v.low in
      record {
        low = omega arith;
        high = v.high;
        inside = v.inside;
        same = v.same;
        some_left = v.some_left;
        left_at = v.left_at;
        passed = λ j gt lt. elim (Bool-cases (ltb j s.l)) [
          | inl e ↦ v.passed j gt (ltb→lt j s.l e)
          | inr e ↦ none_here j (ground arith) lt
        ];
        unmatched = λ e. elim (Bool-cases (ltb k (tm + 1))) [
          | inl lt ↦ absurd (none_here k (v.unmatched e) (ltb→lt k (tm + 1) lt) c.match)
          | inr ge ↦ ground arith
        ];
        address = v.address;
        ends = v.ends;
        bounded = omega arith;
      }

  Inv-go_right :
      (s : Search) (tm m : ℕ)
      → Inv s
      → s.l ≤ m
      → m ≤ tm
      → tm < s.r_next
      → ((j : ℕ) → m < j → j < tm + 1 → ¬ IsMatch j)
      → m ≤ k
      → Inv (go_right tm m s)
  Inv-go_right s tm m v a b lt none_here le =
      let low = v.low in
      record {
        low = omega arith;
        high = v.high;
        inside = v.inside;
        same = v.same;
        some_left = omega arith;
        left_at = omega arith;
        passed = λ j gt lt. none_here j (omega arith) lt;
        unmatched = λ e. absurd (cc);
        address = v.address;
        ends = v.ends;
        bounded = omega arith;
      }

  Inv-go_left :
      (s : Search) (m : ℕ)
      → Inv s
      → s.l ≤ m
      → m < s.r_next
      → IsMatch m
      → addr < (stabs m).n_value
      → Inv (go_left m s)
  Inv-go_left s m v a lt t gt =
      let low = v.low in
      let inside = v.inside in
      record {
        low = v.low;
        high = elim (Bool-cases (ltb k m)) [
          | inl e ↦ ltb→lt k m e
          | inr e ↦ absurd (let u = c.up_to m (omega arith) (ground arith) t in omega arith)
        ];
        inside = omega arith;
        same = refl;
        some_left = v.some_left;
        left_at = v.left_at;
        passed = v.passed;
        unmatched = λ e. absurd (cc);
        address = v.address;
        ends = inr t;
        bounded = a;
      }

  Inv-exact_match :
      (s : Search) (m : ℕ)
      → addr + 1 < word_mod
      → Inv s
      → s.l ≤ m
      → m < s.r_next
      → IsMatch m
      → (stabs m).n_value ≡ s.addr
      → (s.addr ≡ addr) ⊎ ((s.addr ≡ addr + 1) × Exact)
      → Inv (exact_match m s)
  Inv-exact_match s m w v a lt t here (inl e) =
      let low = v.low in
      let inside = v.inside in
      let le : m ≤ k = up_to_region m (omega arith) t (omega arith) in
      record {
        low = omega arith;
        high = v.high;
        inside = v.inside;
        same = v.same;
        some_left = omega arith;
        left_at = omega arith;
        passed = λ j gt lt. absurd (omega arith);
        unmatched = λ e. absurd (cc);
        address = inr (
          omega arith,
          record { place = m; from = omega arith; to = omega arith; match = t; here = here ∙ e },
        );
        ends = v.ends;
        bounded = omega arith;
      }
  Inv-exact_match s m w v a lt t here (inr (e, x)) =
      let low = v.low in
      let inside = v.inside in
      absurd (c.gap x.place m x.from x.to x.match x.here (omega arith) (omega arith) t (here ∙ e))

  matched_round :
      (s : Search) (tm m : ℕ)
      → addr + 1 < word_mod
      → Inv s
      → s.l ≤ m
      → m ≤ tm
      → tm < s.r_next
      → IsMatch m
      → ((j : ℕ) → m < j → j < tm + 1 → ¬ IsMatch j)
      → Inv (compare_at stabs type tm m s)
  matched_round s tm m w v a b lt t none_here =
      let inside = v.inside in
      let low = v.low in
      let most = at_most s v in
      let least = at_least s v in
      elim (Bool-cases (ltb (stabs m).n_value s.addr)) [
        | inl e ↦
            let below = ltb→lt (stabs m).n_value s.addr e in
            rw e (
              Inv-go_right s tm m v a b lt none_here (up_to_region m (omega arith) t (omega arith)))
        | inr e ↦ elim (Bool-cases (ltb s.addr (stabs m).n_value)) [
          | inl f ↦
              let above = ltb→lt s.addr (stabs m).n_value f in
              rw (e, f) (Inv-go_left s m v a (omega arith) t (omega arith))
          | inr f ↦ rw (e, f) (Inv-exact_match s m w v a (omega arith) t (ground arith) v.address)
        ]
      ]

  pub round_of :
      (s : Search) (tm : ℕ) (o : Option ℕ)
      → addr + 1 < word_mod
      → Inv s
      → s.l ≤ tm
      → tm < s.r_next
      → Matched stabs type (tm + 1) s.l o
      → Inv (round_at stabs type tm s o)
  round_of s tm none w v a b (no_match h) = skipped s tm v a b h
  round_of s tm (some m) w v a b (matched le lt t h) =
      matched_round s tm m w v le (omega arith) b t h
