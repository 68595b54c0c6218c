-- ===== src/Print/Escape.antt =====
-- The escapes of a format: the part of vprintfmt in lib/printfmt.c between '%' and the conversion.
use yu_os.Prelude.{
  ℕ, none, Bool, if◌then◌else◌, Option, List, [], false, some, ◌==◌, ◌&&◌, ◌∷◌, leb, ltb, suc, ◌^◌,
  ◌+◌, ◌*◌, ◌-◌, ◌||◌, zero, true,
}
use Prim.Native.String.{[], ◌∷◌}
use yu_os.Strings.{Bytes}

-- The variables of the loop. `none` is a width or a precision below 0.
pub record Escape : Type 0 where
  pub padc : ℕ
  pub width : Option ℕ
  pub precision : Option ℕ
  pub lflag : ℕ
  pub altflag : Bool

abbrev pub no_escape : Escape
no_escape = record { padc = b' '; width = none; precision = none; lflag = 0; altflag = false }

-- An `int` argument as a width
abbrev pub as_int : ℕ → Option ℕ
as_int w = if ltb w (2 ^ 31) then some w else none

-- `process_precision`
abbrev pub set_precision : Option ℕ → Escape → Escape
set_precision p e = elim e.width [
  | none ↦ record e { width = p; precision = none }
  | some w ↦ record e { precision = p }
]

-- `if (width < 0) { width = 0; }`
abbrev pub set_width : Escape → Escape
set_width e = elim e.width [ none ↦ record e { width = some 0 } | some w ↦ e ]

-- The loop of the width field from the digit at `p`: its value and the place behind it. The value
-- stays below 2^31.
unfoldable pub width_field : ℕ → Bytes → ℕ → ℕ → ℕ × ℕ
width_field zero mem p n = (n, p)
width_field (suc fuel) mem p n =
    let n' = n * 10 + mem p - b'0' in
    let rest = width_field fuel mem (p + 1) n' in
    if ltb (mem (p + 1)) b'0' || ltb b'9' (mem (p + 1)) then (n', p + 1) else rest

-- What stands behind a '%': the letter of the conversion, the place behind it, the variables and the
-- arguments that are left
pub record Spec : Type 0 where
  pub ch : ℕ
  pub next : ℕ
  pub escape : Escape
  pub args : List ℕ

-- The cases that are one character and change the variables only
abbrev pub is_flag : ℕ → Bool
is_flag c = (c == b'-') || (c == b'0') || (c == b'.') || (c == b'#') || (c == b'l')

abbrev pub set_flag : ℕ → Escape → Escape
set_flag c e =
    if c == b'-'
    then record e { padc = b'-' }
    else if c == b'0'
    then record e { padc = b'0' }
    else if c == b'.'
    then set_width e
    else if c == b'#'
    then record e { altflag = true }
    else record e { lflag = e.lflag + 1 }

-- `switch (ch = *(unsigned char *) fmt++)`, up to the conversion
unfoldable pub reswitch : ℕ → Bytes → ℕ → Escape → List ℕ → Option Spec
reswitch zero mem p e args = none
reswitch (suc fuel) mem p e args =
    let c = mem p in
    elim (is_flag c) [
      | true ↦ reswitch fuel mem (p + 1) (set_flag c e) args
      | false ↦ elim (leb b'1' c && leb c b'9') [
        | true ↦
            (let w = width_field fuel mem p 0 in
              reswitch fuel mem w.1 (set_precision (some w.0) e) args)
        | false ↦ elim (c == b'*') [
          | true ↦ elim args [
            | [] ↦ none
            | a ∷ l ↦ reswitch fuel mem (p + 1) (set_precision (as_int a) e) l
          ]
          | false ↦ some (record { ch = c; next = p + 1; escape = e; args = args })
        ]
      ]
    ]
