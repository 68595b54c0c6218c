-- ===== src/Print/Buffer/Formats.antt =====
-- Formats of plain characters, %%, %c and %s, for vprintfmt of lib/printfmt.c.
use yu_os.Strings.{Bytes, strnlen}
use yu_os.Strings.Text.{Holds}
use yu_os.Print.Convert.{
  vprintfmt, vprintfmt_from, text_chars, before, after_percent, print_text, printed_before,
  print_chars, text_at, codes,
}
use yu_os.Print.Escape.{reswitch, is_flag, Spec, no_escape}
use yu_os.Prelude.{
  ℕ, zero, suc, List, [], ◌∷◌, ◌++◌, length, some, none, ◌≡◌, ◌≢◌, ◌<◌, ◌+◌, ◌==◌, arith, refl, ◌∙◌,
  sym, ap, ==-ne, false, true, leb, ◌&&◌, ◌-◌, if◌then◌else◌,
}
use yu_os.Print.{pads}

-- A plain character, a per cent sign, a character argument, and a text at an address
pub data Piece : Type 0 where
  plain : ℕ → Piece
  percent : Piece
  char_arg : ℕ → Piece
  text_arg : ℕ → List ℕ → Piece

-- The format as it is written
abbrev pub written : List Piece → List ℕ
written [] = []
written (plain c ∷ ps) = c ∷ written ps
written (percent ∷ ps) = b'%' ∷ b'%' ∷ written ps
written (char_arg c ∷ ps) = b'%' ∷ b'c' ∷ written ps
written (text_arg p t ∷ ps) = b'%' ∷ b's' ∷ written ps

abbrev pub arguments : List Piece → List ℕ
arguments [] = []
arguments (plain c ∷ ps) = arguments ps
arguments (percent ∷ ps) = arguments ps
arguments (char_arg c ∷ ps) = c ∷ arguments ps
arguments (text_arg p t ∷ ps) = p ∷ arguments ps

-- What it prints
abbrev pub shown_text : List Piece → List ℕ
shown_text [] = []
shown_text (plain c ∷ ps) = c ∷ shown_text ps
shown_text (percent ∷ ps) = b'%' ∷ shown_text ps
shown_text (char_arg c ∷ ps) = c ∷ shown_text ps
shown_text (text_arg p t ∷ ps) = t ++ shown_text ps

-- A plain character is not '%', and each text stands at its address, which is not NULL; its length is
-- below the fuel.
abbrev pub AreGood : Bytes → ℕ → List Piece → Type 0
AreGood mem fuel [] = Unit
AreGood mem fuel (plain c ∷ ps) = (c ≢ b'%') × AreGood mem fuel ps
AreGood mem fuel (percent ∷ ps) = AreGood mem fuel ps
AreGood mem fuel (char_arg c ∷ ps) = AreGood mem fuel ps
AreGood mem fuel (text_arg p t ∷ ps) =
    (p ≢ 0) × Holds mem p t × (length t < fuel) × AreGood mem fuel ps

text_chars_lem :
    (fuel p : ℕ) (mem : Bytes) (t : List ℕ)
    → Holds mem p t
    → length t < fuel
    → text_chars fuel mem p false none ≡ some t
unfolding text_chars
text_chars_lem zero p mem t h lo = absurd (omega arith)
text_chars_lem (suc fuel) p mem [] h lo = rw h refl
text_chars_lem (suc fuel) p mem (c ∷ t) h lo =
    rw
      (
        ==-ne (mem p) 0 (λ e. h.1 (sym h.0 ∙ e)),
        text_chars_lem fuel (p + 1) mem t h.2 (omega arith),
      )
      (ap (λ d. some (d ∷ t)) h.0)

no_padding : (x c : ℕ) → pads (0 - x) c ≡ []
unfolding pads
no_padding x c = let z : 0 - x ≡ 0 = omega arith in rw z refl

print_chars_lem :
    (fuel q : ℕ) (mem : Bytes) (t l : List ℕ)
    → Holds mem q t
    → length t < fuel
    → print_chars fuel mem q no_escape l ≡ some (t, l)
print_chars_lem fuel q mem t l h lo =
    rw (text_chars_lem fuel q mem t h lo, print_chars)
      (ap (λ s. some (s ++ t, l)) (no_padding (strnlen mem q fuel) b' '))

print_text_lem :
    (fuel q : ℕ) (mem : Bytes) (t l : List ℕ)
    → q ≢ 0
    → Holds mem q t
    → length t < fuel
    → print_text fuel mem no_escape (q ∷ l) ≡ some (t, l)
print_text_lem fuel q mem t l ne h lo =
    ap
      (λ null.
        if null
        then print_chars fuel (text_at (codes "(null)")) 0 no_escape l
        else print_chars fuel mem q no_escape l)
      (==-ne q 0 ne)
    ∙ print_chars_lem fuel q mem t l h lo

-- A letter without flags or numbers before it
reswitch_lem :
    (fuel p c : ℕ) (mem : Bytes) (l : List ℕ)
    → mem p ≡ c
    → is_flag c ≡ false
    → (leb b'1' c && leb c b'9') ≡ false
    → (c == b'*') ≡ false
    → reswitch (suc fuel) mem p no_escape l
      ≡ some (record { ch = c; next = p + 1; escape = no_escape; args = l })
unfolding reswitch
reswitch_lem fuel p c mem l e flag digit star =
    let f : is_flag (mem p) ≡ false = ap is_flag e ∙ flag in
    let d : (leb b'1' (mem p) && leb (mem p) b'9') ≡ false =
      ap (λ c. leb b'1' c && leb c b'9') e ∙ digit in
    let s : (mem p == b'*') ≡ false = ap (λ c. c == b'*') e ∙ star in
    rw (f, d, s, reswitch)
      (ap (λ c. some (record { ch = c; next = p + 1; escape = no_escape; args = l })) e)

-- The loop at a '%', and at another character
vprintfmt_from-percent :
    (n fuel p : ℕ) (mem : Bytes) (args : List ℕ) (s : Spec)
    → mem p ≡ b'%'
    → reswitch fuel mem (p + 1) no_escape args ≡ some s
    → vprintfmt_from (suc n) fuel mem p args
      ≡ after_percent fuel mem (p + 1) (some s) (λ q l. vprintfmt_from n fuel mem q l)
unfolding vprintfmt_from
vprintfmt_from-percent n fuel p mem args s e found =
    let z : (mem p == 0) ≡ false = ap (λ c. c == 0) e in
    let q : (mem p == b'%') ≡ true = ap (λ c. c == b'%') e in rw (z, q, found, vprintfmt_from) refl

vprintfmt_from-plain :
    (n fuel p c : ℕ) (mem : Bytes) (args : List ℕ)
    → mem p ≡ c
    → c ≢ 0
    → c ≢ b'%'
    → vprintfmt_from (suc n) fuel mem p args
      ≡ before (c ∷ []) (vprintfmt_from n fuel mem (p + 1) args)
unfolding vprintfmt_from
vprintfmt_from-plain n fuel p c mem args e ne other =
    let z : (mem p == 0) ≡ false = ap (λ c. c == 0) e ∙ ==-ne c 0 ne in
    let q : (mem p == b'%') ≡ false = ap (λ c. c == b'%') e ∙ ==-ne c b'%' other in
    rw (z, q, vprintfmt_from) (ap (λ c. before (c ∷ []) (vprintfmt_from n fuel mem (p + 1) args)) e)

vprintfmt_from-end :
    (n fuel p : ℕ) (mem : Bytes) (args : List ℕ)
    → mem p ≡ 0
    → vprintfmt_from (suc n) fuel mem p args ≡ some []
unfolding vprintfmt_from
vprintfmt_from-end n fuel p mem args e =
    let z : (mem p == 0) ≡ true = ap (λ c. c == 0) e in rw (z, vprintfmt_from) refl

vprintfmt_from_lem :
    (n fuel p : ℕ) (mem : Bytes) (ps : List Piece)
    → Holds mem p (written ps)
    → length (written ps) < n
    → AreGood mem (suc fuel) ps
    → vprintfmt_from n (suc fuel) mem p (arguments ps) ≡ some (shown_text ps)
vprintfmt_from_lem zero fuel p mem ps h lo g = absurd (omega arith)
vprintfmt_from_lem (suc n) fuel p mem [] h lo g = vprintfmt_from-end n (suc fuel) p mem [] h
vprintfmt_from_lem (suc n) fuel p mem (plain c ∷ ps) h lo g =
    vprintfmt_from-plain n (suc fuel) p c mem _ h.0 h.1 g.0
    ∙ ap (before (c ∷ [])) (vprintfmt_from_lem n fuel (p + 1) mem ps h.2 (omega arith) g.1)
vprintfmt_from_lem (suc n) fuel p mem (percent ∷ ps) h lo g =
    vprintfmt_from-percent n (suc fuel) p mem _ _ h.0
      (reswitch_lem fuel (p + 1) b'%' mem (arguments ps) h.2.0 refl refl refl)
    ∙ ap (before (b'%' ∷ [])) (vprintfmt_from_lem n fuel (p + 1 + 1) mem ps h.2.2 (omega arith) g)
vprintfmt_from_lem (suc n) fuel p mem (char_arg c ∷ ps) h lo g =
    vprintfmt_from-percent n (suc fuel) p mem _ _ h.0
      (reswitch_lem fuel (p + 1) b'c' mem (c ∷ arguments ps) h.2.0 refl refl refl)
    ∙ ap (before (c ∷ [])) (vprintfmt_from_lem n fuel (p + 1 + 1) mem ps h.2.2 (omega arith) g)
vprintfmt_from_lem (suc n) fuel p mem (text_arg q t ∷ ps) h lo g =
    vprintfmt_from-percent n (suc fuel) p mem _ _ h.0
      (reswitch_lem fuel (p + 1) b's' mem (q ∷ arguments ps) h.2.0 refl refl refl)
    ∙ ap (λ r. printed_before r (λ l. vprintfmt_from n (suc fuel) mem (p + 1 + 1) l))
        (print_text_lem (suc fuel) q mem t (arguments ps) g.0 g.1 g.2)
    ∙ ap (before t) (vprintfmt_from_lem n fuel (p + 1 + 1) mem ps h.2.2 (omega arith) g.3)

-- With more fuel than the format and the texts are long, `vprintfmt` prints what the format says.
pub vprintfmt_lem :
    (fuel p : ℕ) (mem : Bytes) (ps : List Piece)
    → Holds mem p (written ps)
    → length (written ps) < fuel
    → AreGood mem fuel ps
    → vprintfmt fuel mem p (arguments ps) ≡ some (shown_text ps)
unfolding vprintfmt
vprintfmt_lem zero p mem ps h lo g = absurd (omega arith)
vprintfmt_lem (suc fuel) p mem ps h lo g = vprintfmt_from_lem (suc fuel) fuel p mem ps h lo g
