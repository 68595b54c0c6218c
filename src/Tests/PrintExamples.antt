-- ===== src/Tests/PrintExamples.antt =====
-- The theorems on lib/printfmt.c at small formats.
use yu_os.Prelude.{List, ◌≡◌, if◌then◌else◌, ltb, ◌∷◌, ◌-◌, [], refl, some, arith, inl}
use yu_os.Print.{printnum, pads}
use yu_os.Strings.{Bytes, strnlen}
use yu_os.Print.Convert.{vprintfmt, vprintfmt_from, codes, text_at, text_chars}
use yu_os.Print.Escape.{reswitch, width_field}
use yu_os.Print.Buffer.{vsnprintf}
use yu_os.Layout.{ret}
use yu_os.Print.Buffer.Limits.{vsnprintf_lem, IsPrinted}
use yu_os.Print.Buffer.Formats.{Piece, AreGood, written, text_arg, plain, char_arg, percent}
use yu_os.Strings.Text.{Holds}

hexadecimal : printnum 64 255 16 5 b' ' ≡ codes "   ff"
unfolding printnum pads
hexadecimal = refl

-- A format, and behind it a text at 40
abbrev format : Bytes
format i = if ltb i 40 then text_at (codes "%04d|%-4s|%e") i else text_at (codes "ab") (i - 40)

printed : vprintfmt 30 format 0 (42 ∷ 40 ∷ 4 ∷ []) ≡ some (codes "0042|ab  |out of memory")
unfolding vprintfmt vprintfmt_from reswitch width_field printnum pads text_chars strnlen
printed = refl

-- The text at 40, a plain character, a character argument and a per cent sign
abbrev pieces : List Piece
pieces = text_arg 40 (b'a' ∷ b'b' ∷ []) ∷ plain b'=' ∷ char_arg b'x' ∷ percent ∷ []

abbrev piece_format : Bytes
piece_format i = if ltb i 40 then text_at (codes "%s=%c%%") i else text_at (codes "ab") (i - 40)

pieces-Holds : Holds piece_format 0 (written pieces)
pieces-Holds = (
  refl,
  omega arith,
  (
    refl,
    omega arith,
    (
      refl,
      omega arith,
      (refl, omega arith, (refl, omega arith, (refl, omega arith, (refl, omega arith, refl)))),
    ),
  ),
)

pieces-AreGood : AreGood piece_format 20 pieces
pieces-AreGood =
    (omega arith, (refl, omega arith, (refl, omega arith, refl)), omega arith, (omega arith, tt))

-- The buffer at 100 has 4 bytes, too few for the text of 5 characters.
vsnprintf_lem_example :
    (mem : Bytes) × (vsnprintf 20 100 4 0 (40 ∷ b'x' ∷ []) piece_format ≡ some (ret 5, mem))
    × IsPrinted 100 4 (codes "ab=x%") piece_format mem
    × Holds mem 0 (written pieces)
vsnprintf_lem_example =
    vsnprintf_lem 20 100 4 0 piece_format pieces (omega arith) (omega arith) pieces-Holds
      (omega arith) pieces-AreGood (inl (omega arith)) (inl (omega arith), tt)
