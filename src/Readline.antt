-- ===== src/Readline.antt =====
-- The line editor of lib/readline.c. What `getchar` gives is an argument: the kernel's and the user's
-- getchar differ.
pub mod Edit
use yu_os.Prelude.{
  ℕ, List, [], ◌∷◌, Bool, true, false, ◌==◌, ◌&&◌, ◌||◌, if◌then◌else◌, ltb, leb, ◌+◌, ◌-◌, ◌%◌,
  update,
}
use yu_os.Layout.{Reply, ret, err}

abbrev pub buflen : ℕ
buflen = 1024

-- `buf` and `i`, and what was given to `cputchar`, the last first
pub record Line : Type 0 where
  pub buf : ℕ → ℕ
  pub i : ℕ
  pub echoed : List ℕ

-- What `readline` comes to: NULL after an error, or the buffer; or it waits for more characters.
pub data Entry : Type 0 where
  waits : Entry
  fails : Entry
  entered : Line → Entry

abbrev echo : Bool → ℕ → List ℕ → List ℕ
echo echoing c out = if echoing then c ∷ out else out

abbrev pub is_erase : ℕ → Bool
is_erase c = (c == 8) || (c == 127)

abbrev pub is_end : ℕ → Bool
is_end c = (c == 10) || (c == 13)

abbrev pub erased : Bool → Line → Line
erased echoing line = record line { i = line.i - 1; echoed = echo echoing 8 line.echoed }

abbrev pub typed : Bool → ℕ → Line → Line
typed echoing c line = record line {
  buf = update line.buf line.i (c % 256);
  i = line.i + 1;
  echoed = echo echoing c line.echoed;
}

abbrev pub finished : Bool → Line → Line
finished echoing line = record line {
  buf = update line.buf line.i 0;
  echoed = echo echoing 10 line.echoed;
}

-- One round with the character `c`; `next` is the rest of the loop.
abbrev pub with_char : (Line → Entry) → Bool → ℕ → Line → Entry
with_char next echoing c line =
    if is_erase c && ltb 0 line.i
    then next (erased echoing line)
    else if leb 32 c && ltb line.i (buflen - 1)
    then next (typed echoing c line)
    else if is_end c
    then entered (finished echoing line)
    else next line

-- The loop, by the results of `getchar`
unfoldable pub readline_loop : Bool → List (Reply ℕ) → Line → Entry
readline_loop echoing [] line = waits
readline_loop echoing (err e ∷ cs) line = fails
readline_loop echoing (ret c ∷ cs) line =
    with_char (λ line. readline_loop echoing cs line) echoing c line

unfoldable pub readline : Bool → List (Reply ℕ) → (ℕ → ℕ) → Entry
readline echoing cs buf = readline_loop echoing cs (record { buf = buf; i = 0; echoed = [] })
