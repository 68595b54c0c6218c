-- ===== src/Readline/Edit.antt =====
-- The line that readline of lib/readline.c gives, and the bounds of its buffer.
use yu_os.Readline.{
  Line, Entry, waits, fails, entered, buflen, is_erase, is_end, erased, typed, finished, with_char,
  readline_loop, readline,
}
use yu_os.Layout.{Reply, ret, err}
use yu_os.Prelude.{
  ℕ, List, [], ◌∷◌, ◌≡◌, ◌<◌, ◌≤◌, Bool, true, false, ◌&&◌, if◌then◌else◌, ltb, leb, ◌-◌, ◌%◌,
  update, length, arith, refl, Bool-cases, inl, inr, update_self, update_ne, ◌∙◌, sym, ltb→lt,
}
use mathlib.Core.Path.{subst}

-- A line as a list of characters, the last first, and what editing makes of it
pub data Edited : Type 0 where
  more : Edited
  error : Edited
  line : List ℕ → Edited

abbrev pub without_last : List ℕ → List ℕ
without_last [] = []
without_last (c ∷ cs) = cs

abbrev pub edit_char : (List ℕ → Edited) → ℕ → List ℕ → Edited
edit_char next c text =
    if is_erase c && ltb 0 (length text)
    then next (without_last text)
    else if leb 32 c && ltb (length text) (buflen - 1)
    then next (c % 256 ∷ text)
    else if is_end c
    then line text
    else next text

abbrev pub edit : List (Reply ℕ) → List ℕ → Edited
edit [] text = more
edit (err e ∷ cs) text = error
edit (ret c ∷ cs) text = edit_char (λ text. edit cs text) c text

-- The buffer holds the text from its start on.
abbrev pub HoldsText : (ℕ → ℕ) → List ℕ → Type 0
HoldsText buf [] = Unit
HoldsText buf (c ∷ text) = (buf (length text) ≡ c) × HoldsText buf text

pub record IsLine (before : ℕ → ℕ) (text : List ℕ) (l : Line) : Type 0 where
  pub count : l.i ≡ length text
  pub fits : length text < buflen
  pub holds : HoldsText l.buf text
  pub outside : (j : ℕ) → buflen ≤ j → l.buf j ≡ before j

-- The string that is returned: the text and a null byte, in the buffer
pub data Matches (before : ℕ → ℕ) : Edited → Entry → Type 0 where
  waiting : Matches before more waits
  failed : Matches before error fails
  given :
      {text : List ℕ} {l : Line}
      → IsLine before text l
      → l.buf (length text) ≡ 0
      → Matches before (line text) (entered l)

HoldsText-update :
    (buf : ℕ → ℕ) (n v : ℕ) (text : List ℕ)
    → length text ≤ n
    → HoldsText buf text
    → HoldsText (update buf n v) text
HoldsText-update buf n v [] h holds = tt
HoldsText-update buf n v (c ∷ text) h holds = (
  update_ne buf n (length text) v (omega arith) ∙ holds.0,
  HoldsText-update buf n v text (omega arith) holds.1,
)

module _ (echoing : Bool) (before : ℕ → ℕ) where
  IsLine-erased :
      (text : List ℕ) (l : Line)
      → ltb 0 (length text) ≡ true
      → IsLine before text l
      → IsLine before (without_last text) (erased echoing l)
  IsLine-erased [] l e is = absurd (ground arith)
  IsLine-erased (c ∷ text) l e is =
      let n = is.count in
      let f = is.fits in
      record { count = omega arith; fits = omega arith; holds = is.holds.1; outside = is.outside }

  IsLine-typed :
      (c : ℕ) (text : List ℕ) (l : Line)
      → ltb (length text) (buflen - 1) ≡ true
      → IsLine before text l
      → IsLine before (c % 256 ∷ text) (typed echoing c l)
  IsLine-typed c text l e is =
      let n = is.count in
      let lt = ltb→lt (length text) (buflen - 1) e in
      record {
        count = omega arith;
        fits = omega arith;
        holds =
            subst (λ m. HoldsText (update l.buf m (c % 256)) (c % 256 ∷ text)) (sym n)
              (
                update_self l.buf (length text) (c % 256),
                HoldsText-update l.buf (length text) (c % 256) text (omega arith) is.holds,
              );
        outside = λ j h. update_ne l.buf l.i j (c % 256) (omega arith) ∙ is.outside j h;
      }

  given-finished :
      (text : List ℕ) (l : Line)
      → IsLine before text l
      → Matches before (line text) (entered (finished echoing l))
  given-finished text l is =
      let n = is.count in
      let f = is.fits in
      given
        (record {
          count = is.count;
          fits = is.fits;
          holds = rw n (HoldsText-update l.buf (length text) 0 text (omega arith) is.holds);
          outside = λ j h. update_ne l.buf l.i j 0 (omega arith) ∙ is.outside j h;
        })
        (rw n (update_self l.buf (length text) 0))

  Matches-with_char :
      (next : Line → Entry) (next' : List ℕ → Edited) (c : ℕ) (text : List ℕ) (l : Line)
      → ((text' : List ℕ) (l' : Line)
          → IsLine before text' l'
          → Matches before (next' text') (next l'))
      → IsLine before text l
      → Matches before (edit_char next' c text) (with_char next echoing c l)
  Matches-with_char next next' c text l step is =
      let n = is.count in
      elim (Bool-cases (is_erase c && ltb 0 l.i)) [
        | inl e ↦
            let e2 : (is_erase c && ltb 0 (length text)) ≡ true =
              subst (λ m. (is_erase c && ltb 0 m) ≡ true) n e in
            rw (e, e2)
              (step (without_last text) (erased echoing l) (IsLine-erased text l (ground arith) is))
        | inr e ↦
            let e2 : (is_erase c && ltb 0 (length text)) ≡ false =
              subst (λ m. (is_erase c && ltb 0 m) ≡ false) n e in
            elim (Bool-cases (leb 32 c && ltb l.i (buflen - 1))) [
              | inl f ↦
                  let f2 : (leb 32 c && ltb (length text) (buflen - 1)) ≡ true =
                    subst (λ m. (leb 32 c && ltb m (buflen - 1)) ≡ true) n f in
                  rw (e, e2, f, f2)
                    (step (c % 256 ∷ text) (typed echoing c l)
                      (IsLine-typed c text l (ground arith) is))
              | inr f ↦
                  let f2 : (leb 32 c && ltb (length text) (buflen - 1)) ≡ false =
                    subst (λ m. (leb 32 c && ltb m (buflen - 1)) ≡ false) n f in
                  elim (Bool-cases (is_end c)) [
                    | inl g ↦ rw (e, e2, f, f2, g) (given-finished text l is)
                    | inr g ↦ rw (e, e2, f, f2, g) (step text l is)
                  ]
            ]
      ]

  readline_loop-Matches :
      (cs : List (Reply ℕ)) (text : List ℕ) (l : Line)
      → IsLine before text l
      → Matches before (edit cs text) (readline_loop echoing cs l)
  unfolding readline_loop
  readline_loop-Matches [] text l is = waiting
  readline_loop-Matches (err e ∷ cs) text l is = failed
  readline_loop-Matches (ret c ∷ cs) text l is =
      Matches-with_char (λ l. readline_loop echoing cs l) (λ text. edit cs text) c text l
        (λ text' l' is'. readline_loop-Matches cs text' l' is') is

-- Whatever `getchar` gives, `readline` waits, fails or returns as an editor of lists does that
-- takes the last character off, adds one while there are fewer than 1023, or ends the line; the
-- buffer then holds the text and a null byte, and no byte outside it has changed.
pub readline_refines :
    (echoing : Bool) (cs : List (Reply ℕ)) (buf : ℕ → ℕ)
    → Matches buf (edit cs []) (readline echoing cs buf)
unfolding readline
readline_refines echoing cs buf =
    readline_loop-Matches echoing buf cs [] _
      (record { count = refl; fits = omega arith; holds = tt; outside = λ j h. refl })
