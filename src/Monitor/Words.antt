-- ===== src/Monitor/Words.antt =====
-- The arguments that runcmd of kern/monitor.c makes of a line.
pub mod Parse
use yu_os.Monitor.{
  is_white, gobble, scan_past, Args, too_many, argv, with_arg, go_on, take_arg, parse_args,
}
use yu_os.Prelude.{
  ℕ, zero, suc, List, [], ◌∷◌, ◌++◌, length, Option, some, none, ◌≡◌, ◌≢◌, ◌<◌, ◌≤◌, ◌+◌, ◌==◌,
  Bool, true, false, arith, refl, ◌∙◌, sym, ap, update, update_self, update_ne, ==_iff, ==-ne,
  Bool-cases, inl, inr, has,
}
use yu_os.Strings.{Bytes}
use mathlib.Core.Path.{subst}

-- A tab, a newline or a return
abbrev pub white_space : ℕ → Bool
white_space c = has c (9 ∷ 10 ∷ 13 ∷ [])

is_white_lem : (c : ℕ) → is_white c ≡ white_space c
is_white_lem c = ground arith

abbrev pub AllWhite : List ℕ → Type 0
AllWhite [] = Unit
AllWhite (c ∷ cs) = (white_space c ≡ true) × AllWhite cs

abbrev pub AllBlack : List ℕ → Type 0
AllBlack [] = Unit
AllBlack (c ∷ cs) = (c ≢ 0) × (white_space c ≡ false) × AllBlack cs

-- The rest of a line behind a word
abbrev pub EndsWord : List ℕ → Type 0
EndsWord [] = Unit
EndsWord (c ∷ cs) = white_space c ≡ true

-- The words of a line
pub data Words : List ℕ → List (List ℕ) → Type 0 where
  blank : {cs : List ℕ} → AllWhite cs → Words cs []
  word :
      {cs : List ℕ} {ws : List (List ℕ)} (gap : List ℕ) (c : ℕ) (w rest : List ℕ)
      → cs ≡ gap ++ ((c ∷ w) ++ rest)
      → AllWhite gap
      → AllBlack (c ∷ w)
      → EndsWord rest
      → Words rest ws
      → Words cs ((c ∷ w) ∷ ws)

-- The memory holds a string, with its null byte.
abbrev pub IsString : Bytes → ℕ → List ℕ → Type 0
IsString mem p [] = mem p ≡ 0
IsString mem p (c ∷ cs) = (mem p ≡ c) × IsString mem (p + 1) cs

abbrev pub AreStrings : Bytes → List ℕ → List (List ℕ) → Type 0
AreStrings mem [] [] = Unit
AreStrings mem (p ∷ ps) (w ∷ ws) = IsString mem p w × AreStrings mem ps ws
AreStrings mem _ _ = ⊥

-- The white space is cleared, and nothing else has changed.
pub record Gobbled (p : ℕ) (gap t : List ℕ) (mem mem' : Bytes) : Type 0 where
  pub cleared : (j : ℕ) → p ≤ j → j < p + length gap → mem' j ≡ 0
  pub before : (j : ℕ) → j < p → mem' j ≡ mem j
  pub rest : IsString mem' (p + length gap) t

abbrev pub StartsWord : List ℕ → Type 0
StartsWord [] = Unit
StartsWord (c ∷ cs) = (c ≢ 0) × (white_space c ≡ false)

IsString-update :
    (mem : Bytes) (q v p : ℕ) (t : List ℕ)
    → q < p
    → IsString mem p t
    → IsString (update mem q v) p t
IsString-update mem q v p [] h s = update_ne mem q p v (omega arith) ∙ s
IsString-update mem q v p (c ∷ t) h s =
    (update_ne mem q p v (omega arith) ∙ s.0, IsString-update mem q v (p + 1) t (omega arith) s.1)

white-nonzero : (c : ℕ) → is_white c ≡ true → (c == 0) ≡ false
white-nonzero c w = ground arith

pub gobble-Gobbled :
    (fuel p : ℕ) (gap t : List ℕ) (mem : Bytes)
    → length gap < fuel
    → AllWhite gap
    → StartsWord t
    → IsString mem p (gap ++ t)
    → (mem' : Bytes) × (gobble fuel p mem ≡ some (p + length gap, mem')) × Gobbled p gap t mem mem'
unfolding gobble
gobble-Gobbled zero p gap t mem h w st s = absurd (omega arith)
gobble-Gobbled (suc fuel) p [] [] mem h w st s =
    let z : (mem p == 0) ≡ true = (==_iff _ _).1 s in
    let here : p ≡ p + 0 = omega arith in
    (
      mem,
      rw z (ap (λ q. some (q, mem)) here),
      record {
        cleared = λ j a b. absurd (omega arith);
        before = λ j a. refl;
        rest = ap mem (sym here) ∙ s;
      },
    )
gobble-Gobbled (suc fuel) p [] (c ∷ t) mem h w st s =
    let here : p ≡ p + 0 = omega arith in
    let z : is_white (mem p) ≡ false = is_white_lem (mem p) ∙ ap white_space s.0 ∙ st.1 in
    let n : (mem p == 0) ≡ false = ==-ne (mem p) 0 (λ e. st.0 (sym s.0 ∙ e)) in
    (
      mem,
      rw (z, n) (ap (λ q. some (q, mem)) here),
      record {
        cleared = λ j a b. absurd (omega arith);
        before = λ j a. refl;
        rest = subst (λ q. IsString mem q (c ∷ t)) here s;
      },
    )
gobble-Gobbled (suc fuel) p (c ∷ gap) t mem h w st s =
    let z : is_white (mem p) ≡ true = is_white_lem (mem p) ∙ ap white_space s.0 ∙ w.0 in
    let n : (mem p == 0) ≡ false = white-nonzero (mem p) z in
    let r =
      gobble-Gobbled fuel (p + 1) gap t (update mem p 0) (omega arith) w.1 st
        (IsString-update mem p 0 (p + 1) (gap ++ t) (omega arith) s.1) in
    let there : p + 1 + length gap ≡ p + suc (length gap) = omega arith in
    (
      r.0,
      rw (z, n) (r.1 ∙ ap (λ q. some (q, r.0)) there),
      record {
        cleared = λ j a b. elim (Bool-cases (j == p)) [
          | inl e ↦
              let same = (==_iff j p).0 e in
              rw same (r.2.before p (omega arith) ∙ update_self mem p 0)
          | inr e ↦ r.2.cleared j (ground arith) (omega arith)
        ];
        before = λ j a. r.2.before j (omega arith) ∙ update_ne mem p j 0 (omega arith);
        rest = subst (λ q. IsString r.0 q t) there r.2.rest;
      },
    )

-- the end of a word of characters that are neither white nor null
pub scan_past_lem :
    (fuel p : ℕ) (w rest : List ℕ) (mem : Bytes)
    → length w < fuel
    → AllBlack w
    → EndsWord rest
    → IsString mem p (w ++ rest)
    → scan_past fuel p mem ≡ some (p + length w)
unfolding scan_past
scan_past_lem zero p w rest mem h b e s = absurd (omega arith)
scan_past_lem (suc fuel) p [] [] mem h b e s =
    let z : (mem p == 0) ≡ true = (==_iff _ _).1 s in rw z (ap some (omega arith))
scan_past_lem (suc fuel) p [] (c ∷ rest) mem h b e s =
    let z : is_white (mem p) ≡ true = is_white_lem (mem p) ∙ ap white_space s.0 ∙ e in
    let n : (mem p == 0) ≡ false = white-nonzero (mem p) z in rw (z, n) (ap some (omega arith))
scan_past_lem (suc fuel) p (c ∷ w) rest mem h b e s =
    let z : is_white (mem p) ≡ false = is_white_lem (mem p) ∙ ap white_space s.0 ∙ b.1 in
    let n : (mem p == 0) ≡ false = ==-ne (mem p) 0 (λ x. b.0 (sym s.0 ∙ x)) in
    rw (z, n)
      (scan_past_lem fuel (p + 1) w rest mem (omega arith) b.2 e s.1 ∙ ap some (omega arith))

-- A word keeps its bytes, and gets its end.
pub IsString-kept :
    (mem mem' : Bytes) (p : ℕ) (w rest : List ℕ)
    → IsString mem p (w ++ rest)
    → ((j : ℕ) → j < p + length w → mem' j ≡ mem j)
    → mem' (p + length w) ≡ 0
    → IsString mem' p w
IsString-kept mem mem' p [] rest s keep end = ap mem' (omega arith) ∙ end
IsString-kept mem mem' p (c ∷ w) rest s keep end =
    let there : p + 1 + length w ≡ p + suc (length w) = omega arith in
    (
      keep p (omega arith) ∙ s.0,
      IsString-kept mem mem' (p + 1) w rest s.1 (λ j h. keep j (omega arith)) (ap mem' there ∙ end),
    )

pub IsString-behind :
    (mem : Bytes) (p : ℕ) (w rest : List ℕ)
    → IsString mem p (w ++ rest)
    → IsString mem (p + length w) rest
IsString-behind mem p [] rest s = subst (λ q. IsString mem q rest) (omega arith) s
IsString-behind mem p (c ∷ w) rest s =
    let there : p + 1 + length w ≡ p + suc (length w) = omega arith in
    subst (λ q. IsString mem q rest) there (IsString-behind mem (p + 1) w rest s.1)
