-- ===== src/Monitor/Words/Parse.antt =====
-- The loop of runcmd of kern/monitor.c over the words of a line.
use yu_os.Monitor.{argv, parse_args, maxargs}
use yu_os.Monitor.Words.{
  white_space, Words, blank, word, AllWhite, EndsWord, IsString, AreStrings, Gobbled,
  gobble-Gobbled, scan_past_lem, IsString-kept, IsString-behind, Bool-cases, inl, inr,
}
use yu_os.Prelude.{
  ℕ, zero, suc, List, [], ◌∷◌, ◌++◌, length, some, ◌≡◌, ◌≢◌, ◌<◌, ◌≤◌, ◌+◌, ◌-◌, ◌==◌, true, false,
  arith, refl, ◌∙◌, sym, ap, ==-ne, ==_iff, Bool-cases, append_nil, length-append,
}
use yu_os.Strings.{Bytes}
use mathlib.Core.Path.{subst}

-- The words stand in memory as strings, and nothing before the line has changed.
pub record IsParsed (p : ℕ) (cs : List ℕ) (ws : List (List ℕ)) (mem : Bytes) (ps : List ℕ)
    (mem' : Bytes) : Type 0 where
  pub strings : AreStrings mem' ps ws
  pub before : (j : ℕ) → j < p → mem' j ≡ mem j
  pub ended : EndsWord cs → mem' p ≡ 0

IsParsed-blank :
    (p : ℕ) (cs : List ℕ) (mem mem' : Bytes)
    → Gobbled p cs [] mem mem'
    → IsParsed p cs [] mem [] mem'
IsParsed-blank p [] mem mem' g = record {
  strings = tt;
  before = g.before;
  ended = λ e. ap mem' (omega arith) ∙ g.rest;
}
IsParsed-blank p (c ∷ cs) mem mem' g = record {
  strings = tt;
  before = g.before;
  ended = λ e. g.cleared p (omega arith) (omega arith);
}

-- A line that begins with white space has some before its first word.
gap_first :
    (cs gap : List ℕ) (c : ℕ) (t : List ℕ)
    → cs ≡ gap ++ (c ∷ t)
    → white_space c ≡ false
    → EndsWord cs
    → 0 < length gap
gap_first cs [] c t e b h = absurd (let w : white_space c ≡ true = subst EndsWord e h in cc)
gap_first cs (g ∷ gap) c t e b h = omega arith

IsParsed-word :
    (p : ℕ) (cs gap : List ℕ) (c : ℕ) (w rest : List ℕ) (ws : List (List ℕ)) (mem m1 m2 : Bytes)
    (ps : List ℕ)
    → cs ≡ gap ++ ((c ∷ w) ++ rest)
    → white_space c ≡ false
    → EndsWord rest
    → Gobbled p gap ((c ∷ w) ++ rest) mem m1
    → IsParsed (p + length gap + suc (length w)) rest ws m1 ps m2
    → IsParsed p cs ((c ∷ w) ∷ ws) mem ((p + length gap) ∷ ps) m2
IsParsed-word p cs gap c w rest ws mem m1 m2 ps e b ends g r = record {
  strings = (
    IsString-kept m1 m2 (p + length gap) (c ∷ w) rest g.rest (λ j h. r.before j h) (r.ended ends),
    r.strings,
  );
  before = λ j h. r.before j (omega arith) ∙ g.before j h;
  ended = λ x.
      let some_gap = gap_first cs gap c (w ++ rest) e b x in
      r.before p (omega arith) ∙ g.cleared p (omega arith) (omega arith);
}

module _ (len : ℕ) where
  parse_args-from :
      (fuel left p : ℕ) (cs : List ℕ) (ws : List (List ℕ)) (mem : Bytes)
      → Words cs ws
      → length ws < fuel
      → length cs < len
      → length ws ≤ left
      → IsString mem p cs
      → (ps : List ℕ) × (mem' : Bytes) × (parse_args fuel len left p mem ≡ some (argv ps mem'))
        × IsParsed p cs ws mem ps mem'
  unfolding parse_args
  parse_args-from zero left p cs ws mem t h n l s = absurd (omega arith)
  parse_args-from (suc fuel) left p cs [] mem (blank white) h n l s =
      let g =
        gobble-Gobbled len p cs [] mem n white tt
          (subst (IsString mem p) (sym (append_nil cs)) s) in
      let z : (g.0 (p + length cs) == 0) ≡ true = (==_iff _ _).1 g.2.rest in
      ([], g.0, rw (g.1, z) refl, IsParsed-blank p cs mem g.0 g.2)
  parse_args-from (suc fuel) left p cs (v ∷ ws) mem (word gap c w rest e white black ends more) h n
        l s =
      let size : length cs ≡ length gap + length ((c ∷ w) ++ rest) =
        ap length e ∙ length-append gap ((c ∷ w) ++ rest) in
      let size2 = length-append (c ∷ w) rest in
      let q = p + length gap in
      let g =
        gobble-Gobbled len p gap ((c ∷ w) ++ rest) mem (omega arith) white (black.0, black.1)
          (subst (IsString mem p) e s) in
      let m1 = g.0 in
      let first : m1 q ≡ c = g.2.rest.0 in
      let z : (m1 q == 0) ≡ false = ==-ne (m1 q) 0 (λ x. black.0 (sym first ∙ x)) in
      let some_left : (left == 0) ≡ false = ground arith in
      let past = scan_past_lem len q (c ∷ w) rest m1 (omega arith) black ends g.2.rest in
      let r =
        parse_args-from fuel (left - 1) (q + suc (length w)) rest ws m1 more (omega arith)
          (omega arith) (omega arith) (IsString-behind m1 q (c ∷ w) rest g.2.rest) in
      (
        q ∷ r.0,
        r.1,
        rw (g.1, z, some_left, past, r.2) refl,
        IsParsed-word p cs gap c w rest ws mem m1 r.1 r.0 e black.1 ends g.2 r.3,
      )

-- White space is a tab, a newline or a return; a space is not, as in the code and contrary to its
-- comment, so that words parted by spaces are one. For a line of white space and of at most 15
-- words, which ends in a null byte, with fuel of at least 16 that is more than the line is long,
-- the loop of `runcmd` ends with an argument for each word. In the memory that it leaves each
-- argument is the string of its word, and nothing before the line has changed.
pub parse_args-IsParsed :
    (len p : ℕ) (cs : List ℕ) (ws : List (List ℕ)) (mem : Bytes)
    → Words cs ws
    → length cs < len
    → length ws < maxargs
    → maxargs ≤ len
    → IsString mem p cs
    → (ps : List ℕ) × (mem' : Bytes) × (parse_args len len (maxargs - 1) p mem
        ≡ some (argv ps mem'))
      × IsParsed p cs ws mem ps mem'
parse_args-IsParsed len p cs ws mem t n l m s =
    parse_args-from len len (maxargs - 1) p cs ws mem t (omega arith) n (omega arith) s

-- Every line without a null byte has its words.
abbrev AllNonZero : List ℕ → Type 0
AllNonZero [] = Unit
AllNonZero (c ∷ cs) = (c ≢ 0) × AllNonZero cs

EndsWord-white : (cs : List ℕ) → AllWhite cs → EndsWord cs
EndsWord-white [] w = tt
EndsWord-white (c ∷ cs) w = w.0

Words-white :
    (c : ℕ) {cs : List ℕ} {ws : List (List ℕ)}
    → white_space c ≡ true
    → Words cs ws
    → Words (c ∷ cs) ws
Words-white c x (blank white) = blank (x, white)
Words-white c x (word gap d w rest e white black ends more) =
    word (c ∷ gap) d w rest (ap (λ t. c ∷ t) e) (x, white) black ends more

Words-black :
    (c : ℕ) {cs : List ℕ} {ws : List (List ℕ)}
    → c ≢ 0
    → white_space c ≡ false
    → Words cs ws
    → (vs : List (List ℕ)) × Words (c ∷ cs) vs
Words-black c {cs} n x (blank white) =
    (_, word [] c [] cs refl tt (n, x, tt) (EndsWord-white cs white) (blank white))
Words-black c n x (word [] d w rest e white black ends more) =
    (_, word [] c (d ∷ w) rest (ap (λ t. c ∷ t) e) tt (n, x, black) ends more)
Words-black c {cs} n x (word (g ∷ gap) d w rest e white black ends more) = (
  _,
  word [] c [] cs refl tt (n, x, tt) (subst EndsWord (sym e) white.0)
      (word (g ∷ gap) d w rest e white black ends more),
)

has_words : (cs : List ℕ) → AllNonZero cs → (ws : List (List ℕ)) × Words cs ws
has_words [] n = ([], blank tt)
has_words (c ∷ cs) n =
    let rest = has_words cs n.1 in
    elim (Bool-cases (white_space c)) [
      | inl e ↦ (rest.0, Words-white c e rest.1)
      | inr e ↦ Words-black c n.0 e rest.1
    ]
