-- ===== src/Print/Convert.antt =====
-- vprintfmt of lib/printfmt.c: the loop over the format and the conversions.
use yu_os.Prelude.{
  ℕ, none, Bool, if◌then◌else◌, Option, List, [], false, some, ◌==◌, ◌&&◌, ◌∷◌, leb, ltb, suc, ◌^◌,
  ◌++◌, ◌+◌, ◌*◌, ◌-◌, ◌||◌, zero, true, length,
}
use Prim.Native.Char.{code}
use Prim.Native.String.{String, [], ◌∷◌}
use yu_os.Strings.{Bytes, strnlen}
use yu_os.Print.{printnum, pads}
use yu_os.Print.Escape.{reswitch, Spec, Escape, no_escape}

abbrev pub codes : String → List ℕ
codes String.[] = []
codes (String.◌∷◌ c s) = code c ∷ codes s

-- `error_string`; the first place is NULL
abbrev pub error_strings : List (Option String)
error_strings =
    none
    ∷ some "unspecified error"
    ∷ some "bad environment"
    ∷ some "invalid parameter"
    ∷ some "out of memory"
    ∷ some "out of environments"
    ∷ some "segmentation fault"
    ∷ some "unimplemented system call"
    ∷ some "env is not recving"
    ∷ some "unexpected end of file"
    ∷ some "no free space on disk"
    ∷ some "too many files are open"
    ∷ some "file or block not found"
    ∷ some "invalid path"
    ∷ some "file already exists"
    ∷ some "file is not a valid executable"
    ∷ some "operation not supported"
    ∷ some "too many file descriptors are open"
    ∷ []

-- The text of a code below MAXERROR
abbrev pub error_string : List (Option String) → ℕ → Option String
error_string [] e = none
error_string (t ∷ l) zero = t
error_string (t ∷ l) (suc e) = error_string l e

-- The width as `printnum` takes it
abbrev pub width_of : Option ℕ → ℕ
width_of none = 0
width_of (some w) = w

-- What a conversion prints, and the arguments behind those that it took
abbrev pub Printed : Type 0
Printed = Option (List ℕ × List ℕ)

-- `getuint`: a long is an int, a long long takes two words, the low one first.
abbrev pub getuint : ℕ → List ℕ → Option (ℕ × List ℕ)
getuint lflag [] = none
getuint lflag (a ∷ []) = if leb 2 lflag then none else some (a, [])
getuint lflag (a ∷ b ∷ l) = if leb 2 lflag then some (a + 2 ^ 32 * b, l) else some (a, b ∷ l)

-- `getint`: the same, with its sign extended to 64 bits
abbrev pub extended : ℕ → ℕ → ℕ
extended lflag v = if leb 2 lflag || ltb v (2 ^ 31) then v else v + (2 ^ 64 - 2 ^ 32)

abbrev pub print_unsigned : ℕ → Escape → List ℕ → Printed
print_unsigned base e args = elim (getuint e.lflag args) [
  | none ↦ none
  | some (v, l) ↦ some (printnum 64 v base (width_of e.width) e.padc, l)
]

-- A negative number is printed as '-' and its magnitude.
abbrev pub print_signed : Escape → ℕ → List ℕ
print_signed e num =
    if leb (2 ^ 63) num
    then b'-' ∷ printnum 64 (2 ^ 64 - num) 10 (width_of e.width) e.padc
    else printnum 64 num 10 (width_of e.width) e.padc

abbrev pub print_int : Escape → List ℕ → Printed
print_int e args = elim (getuint e.lflag args) [
  | none ↦ none
  | some (v, l) ↦ some (print_signed e (extended e.lflag v), l)
]

-- A character, or '?' in the alternate form
abbrev pub shown : Bool → ℕ → ℕ
shown alt c = if alt && (ltb c b' ' || ltb b'~' c) then b'?' else c

abbrev pub then_char : ℕ → Option (List ℕ) → Option (List ℕ)
then_char c none = none
then_char c (some s) = some (c ∷ s)

-- `precision < 0 || --precision >= 0`: the precision that is left, if there is one to print
abbrev pub one_less : Option ℕ → Option ℕ
one_less none = none
one_less (some n) = some (n - 1)

abbrev pub is_spent : Option ℕ → Bool
is_spent none = false
is_spent (some n) = n == 0

-- The characters of a text from `p` on
unfoldable pub text_chars : ℕ → Bytes → ℕ → Bool → Option ℕ → Option (List ℕ)
text_chars zero mem p alt precision = none
text_chars (suc fuel) mem p alt precision =
    let rest = text_chars fuel mem (p + 1) alt (one_less precision) in
    if (mem p == 0) || is_spent precision then some [] else then_char (shown alt (mem p)) rest

-- `strnlen(p, precision)`; a precision below 0 is a limit that is not reached.
abbrev pub limit : ℕ → Option ℕ → ℕ
limit fuel none = fuel
limit fuel (some n) = n

-- The padding before the characters is that of a width of so much more than the text; behind them
-- it makes up for what is left of the width, which after padding before them is nothing.
abbrev pub padded : ℕ → Bytes → ℕ → Escape → List ℕ → List ℕ
padded fuel mem p e chars =
    if e.padc == b'-'
    then chars ++ pads (width_of e.width - length chars) b' '
    else pads (width_of e.width - strnlen mem p (limit fuel e.precision)) e.padc ++ chars

abbrev pub print_chars : ℕ → Bytes → ℕ → Escape → List ℕ → Printed
print_chars fuel mem p e l = elim (text_chars fuel mem p e.altflag e.precision) [
  | none ↦ none
  | some chars ↦ some (padded fuel mem p e chars, l)
]

-- A pointer that is NULL prints as "(null)": the characters are then those of the constant.
abbrev pub text_at : List ℕ → Bytes
text_at [] i = 0
text_at (c ∷ s) zero = c
text_at (c ∷ s) (suc i) = text_at s i

abbrev pub print_text : ℕ → Bytes → Escape → List ℕ → Printed
print_text fuel mem e [] = none
print_text fuel mem e (p ∷ l) =
    if p == 0 then print_chars fuel (text_at (codes "(null)")) 0 e l else print_chars fuel mem p e l

abbrev pub print_char : List ℕ → Printed
print_char [] = none
print_char (c ∷ l) = some (c ∷ [], l)

-- `if (err < 0) err = -err;`, as a 32-bit pattern. The least int stays negative, and reads before the
-- table.
abbrev pub magnitude : ℕ → ℕ
magnitude w = if ltb (2 ^ 31) w then 2 ^ 32 - w else w

abbrev pub print_error : List ℕ → Printed
print_error [] = none
print_error (w ∷ l) =
    if magnitude w == 2 ^ 31 then none else elim (error_string error_strings (magnitude w)) [
      | some t ↦ some (codes t, l)
      | none ↦ some (codes "error " ++ printnum 64 (magnitude w) 10 0 b' ', l)
    ]

-- The cases that print; `none` outside is an escape that is not recognised.
abbrev pub convert : ℕ → Bytes → Spec → Option Printed
convert fuel mem s =
    if s.ch == b'c'
    then some (print_char s.args)
    else if s.ch == b'e'
    then some (print_error s.args)
    else if s.ch == b's'
    then some (print_text fuel mem s.escape s.args)
    else if s.ch == b'd'
    then some (print_int s.escape s.args)
    else if s.ch == b'u'
    then some (print_unsigned 10 s.escape s.args)
    else if s.ch == b'o'
    then some (print_unsigned 8 s.escape s.args)
    else if s.ch == b'x'
    then some (print_unsigned 16 s.escape s.args)
    else if s.ch == b'%'
    then some (some (b'%' ∷ [], s.args))
    else none

-- What is printed before the rest of the format
abbrev pub before : List ℕ → Option (List ℕ) → Option (List ℕ)
before s none = none
before s (some t) = some (s ++ t)

abbrev pub printed_before : Printed → (List ℕ → Option (List ℕ)) → Option (List ℕ)
printed_before none next = none
printed_before (some (s, l)) next = before s (next l)

-- What follows the '%' before `p`. An escape that is not recognised is printed as it stands, from the
-- '%' on: its arguments are taken all the same.
abbrev pub after_percent :
    ℕ → Bytes → ℕ → Option Spec → (ℕ → List ℕ → Option (List ℕ)) → Option (List ℕ)
after_percent fuel mem p none next = none
after_percent fuel mem p (some s) next = elim (convert fuel mem s) [
  | some r ↦ printed_before r (λ l. next s.next l)
  | none ↦ before (b'%' ∷ []) (next p s.args)
]

-- What the loop prints from `p` on; the fuel bounds the length of the format and of the texts.
unfoldable pub vprintfmt_from : ℕ → ℕ → Bytes → ℕ → List ℕ → Option (List ℕ)
vprintfmt_from zero fuel mem p args = none
vprintfmt_from (suc n) fuel mem p args = elim (mem p == 0) [
  | true ↦ some []
  | false ↦ elim (mem p == b'%') [
    | true ↦
        after_percent fuel mem (p + 1) (reswitch fuel mem (p + 1) no_escape args)
          (λ q l. vprintfmt_from n fuel mem q l)
    | false ↦ before (mem p ∷ []) (vprintfmt_from n fuel mem (p + 1) args)
  ]
]

unfoldable pub vprintfmt : ℕ → Bytes → ℕ → List ℕ → Option (List ℕ)
vprintfmt fuel mem fmt args = vprintfmt_from fuel fuel mem fmt args
