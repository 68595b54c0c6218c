-- ===== src/Debug/Region.antt =====
-- What the search of kern/kdebug.c finds.
use yu_os.Debug.{
  Stab, Bounds, Search, earlier_match, round_at, search_round, search_loop, search_start,
  after_search, stab_binsearch, rightmost, middle,
}
use yu_os.Debug.Ends.{earlier_match-Matched, search_loop_ends}
use yu_os.Prelude.{
  ℕ, zero, suc, some, ◌≡◌, ◌<◌, ◌≤◌, ◌+◌, ◌-◌, ◌*◌, ◌==◌, ltb, true, false, if◌then◌else◌, arith,
  refl, Bool-cases, inl, inr, ==_iff, ◌≢◌, ◌⊎◌, ltb→lt, ==-ne,
}
use yu_os.Layout.{word_mod}
use mathlib.Core.Path.{subst}
use yu_os.Debug.Round.{Contains, round_of, Inv}

-- The region of stab `k` goes up to the next match, or to the end of the range.
pub record IsEnd (stabs : ℕ → Stab) (type right_next k e : ℕ) : Type 0 where
  pub after : k < e
  pub within : e ≤ right_next
  pub alone : (j : ℕ) → k < j → j < e → (stabs j).n_type ≢ type
  pub next : (e ≡ right_next) ⊎ ((stabs e).n_type ≡ type)

IsEnd-le :
    (stabs : ℕ → Stab) (type right_next k d e : ℕ)
    → IsEnd stabs type right_next k d
    → IsEnd stabs type right_next k e
    → e ≤ d
IsEnd-le stabs type right_next k d e x y = elim (Bool-cases (ltb d e)) [
  | inl lt ↦
      let l = ltb→lt d e lt in
      let w = y.within in
      elim (x.next) [ inl last ↦ omega arith | inr t ↦ absurd (y.alone d x.after l t) ]
  | inr ge ↦ ground arith
]

-- There is one such end.
pub IsEnd-unique :
    (stabs : ℕ → Stab) (type right_next k d e : ℕ)
    → IsEnd stabs type right_next k d
    → IsEnd stabs type right_next k e
    → d ≡ e
IsEnd-unique stabs type right_next k d e x y =
    let a = IsEnd-le stabs type right_next k d e x y in
    let b = IsEnd-le stabs type right_next k e d y x in omega arith

module _ (stabs : ℕ → Stab) (type left right_next addr k : ℕ)
    (c : Contains stabs type left right_next addr k) where
  search_loop-Inv :
      (fuel : ℕ) (s t : Search)
      → addr + 1 < word_mod
      → Inv stabs type left right_next addr k c s
      → search_loop stabs type fuel s ≡ some t
      → Inv stabs type left right_next addr k c t × (t.r_next ≤ t.l)
  unfolding search_loop search_round
  search_loop-Inv zero s t w v e = absurd (cc)
  search_loop-Inv (suc n) s t w v e = elim (Bool-cases (ltb s.l s.r_next)) [
    | inl lt ↦
        let l = ltb→lt s.l s.r_next lt in
        let o = earlier_match stabs type (middle s + 1) s.l in
        let next =
          round_of stabs type left right_next addr k c s (middle s) o w v (omega arith)
            (omega arith) (earlier_match-Matched stabs type (middle s + 1) s.l) in
        search_loop-Inv n (round_at stabs type (middle s) s o) t w next (
          let f = e in
          subst
            (λ b.
              (if b then search_loop stabs type n (round_at stabs type (middle s) s o) else some s)
              ≡ some t)
            lt f)
    | inr ge ↦
        let f : some s ≡ some t =
          subst
            (λ b.
              (if b then search_loop stabs type n (search_round stabs type s) else some s) ≡ some t)
            ge e in
        let same : s ≡ t = cc in rw (← same) (v, ground arith)
  ]

  rightmost_match :
      (n left_next : ℕ)
      → k < n
      → left_next ≤ k + 1
      → ((j : ℕ) → k < j → j < n → (stabs j).n_type ≢ type)
      → rightmost stabs type n left_next ≡ k + 1
  unfolding rightmost
  rightmost_match zero left_next h le none_between = absurd (omega arith)
  rightmost_match (suc n) left_next h le none_between = elim (Bool-cases (k == n)) [
    | inl e ↦
        let same = (==_iff k n).0 e in
        let here : ((stabs n).n_type == type) ≡ true = (==_iff _ _).1 (rw (← same) c.match) in
        rw here (ground arith)
    | inr e ↦
        let gt : k < n = ground arith in
        let other : ((stabs n).n_type == type) ≡ false =
          ==-ne _ _ (none_between n gt (omega arith)) in
        let more : ltb left_next (suc n) ≡ true = ground arith in
        rw (other, more)
          (rightmost_match n left_next gt le (λ j a b. none_between j a (omega arith)))
  ]

  -- What the search gives: the stab that contains the address, and the end of its region
  pub record FoundStab (out : Bounds) : Type 0 where
    pub left_is : out.left_next ≡ k + 1
    pub end : IsEnd stabs type right_next k out.right_next

  FoundStab-after :
      (s : Search)
      → Inv stabs type left right_next addr k c s
      → s.r_next ≤ s.l
      → FoundStab (after_search stabs type s)
  FoundStab-after s v le = elim (Bool-cases s.any_matches) [
    | inl e ↦
        let at = v.same in
        let high = v.high in
        rw (e, at)
          (record {
            left_is =
                rightmost_match s.r_next s.bounds.left_next v.high v.left_at
                  (λ j a b. v.passed j a (omega arith));
            end = record {
              after = v.high;
              within = v.inside;
              alone = λ j a b. v.passed j a (omega arith);
              next = v.ends;
            };
          })
    | inr e ↦ absurd (let l = v.unmatched e in let high = v.high in omega arith)
  ]

  start :
      (left_next : ℕ)
      → left_next ≡ left + 1
      → Inv stabs type left right_next addr k c
          (search_start addr (record { left_next = left_next; right_next = right_next }))
  start left_next e =
      let from = c.from in
      let to = c.to in
      record {
        low = omega arith;
        high = c.to;
        inside = omega arith;
        same = refl;
        some_left = omega arith;
        left_at = omega arith;
        passed = λ j a b. absurd (omega arith);
        unmatched = λ _. omega arith;
        address = inl refl;
        ends = inl refl;
        bounded = omega arith;
      }

  abbrev pub whole : Bounds
  whole = record { left_next = left + 1; right_next = right_next }

  found :
      (fuel : ℕ)
      → addr + 1 < word_mod
      → (t : Search) × (search_loop stabs type fuel (search_start addr whole) ≡ some t)
      → (out : Bounds) × (stab_binsearch stabs type fuel addr whole ≡ some out) × FoundStab out
  unfolding stab_binsearch
  found fuel w (t, e) =
      let v = search_loop-Inv fuel (search_start addr whole) t w (start (left + 1) refl) e in
      (after_search stabs type t, rw e refl, FoundStab-after t v.0 v.1)

  -- If one stab of the type contains the address (those up to it start at or below the address,
  -- later ones above it, and if one starts at the address, none starts at the byte behind it), then
  -- `stab_binsearch`, with twice as many rounds as stabs, and two more, ends with this stab on the
  -- left, and on the right with the next stab of the type, or the end of the range.
  pub stab_binsearch-FoundStab :
      (fuel : ℕ)
      → addr + 1 < word_mod
      → (right_next - left) * 2 + 1 < fuel
      → (out : Bounds) × (stab_binsearch stabs type fuel addr whole ≡ some out) × FoundStab out
  stab_binsearch-FoundStab fuel w h =
      found fuel w
        (search_loop_ends stabs type fuel (search_start addr whole) (ground arith) (omega arith))
