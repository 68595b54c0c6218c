-- ===== src/Print/Buffer.antt =====
-- sprintputch and vsnprintf of lib/printfmt.c: output into a buffer of limited length.
pub mod Formats
pub mod Limits
use yu_os.Prelude.{
  ℕ, ◌+◌, List, if◌then◌else◌, Option, ◌∷◌, ◌==◌, ltb, update, [], some, ◌-◌, ◌||◌, ◌%◌, none,
}
use yu_os.Layout.{Reply, ret, err, inval}
use yu_os.Strings.{Bytes}
use yu_os.Print.Convert.{vprintfmt}

-- `struct sprintbuf`, with the memory that it points into
pub record Sprintbuf : Type 0 where
  pub buf : ℕ
  pub ebuf : ℕ
  pub cnt : ℕ
  pub mem : Bytes

-- The character is stored as a byte.
unfoldable pub sprintputch : ℕ → Sprintbuf → Sprintbuf
sprintputch ch b =
    let counted = record b { cnt = b.cnt + 1 } in
    if ltb b.buf b.ebuf
    then record counted { buf = b.buf + 1; mem = update b.mem b.buf (ch % 256) }
    else counted

-- The calls of `sprintputch` in `vprintfmt`
unfoldable pub put_all : List ℕ → Sprintbuf → Sprintbuf
put_all [] b = b
put_all (ch ∷ s) b = put_all s (sprintputch ch b)

-- The buffer's end is `buf + n - 1`, and a null byte goes behind the text.
abbrev pub terminated : Sprintbuf → Reply ℕ × Bytes
terminated b = (ret b.cnt, update b.mem b.buf 0)

abbrev pub snprintf_ends : ℕ → ℕ → Bytes → Option (List ℕ) → Option (Reply ℕ × Bytes)
snprintf_ends buf n mem none = none
snprintf_ends buf n mem (some s) =
    some (terminated (put_all s (record { buf = buf; ebuf = buf + n - 1; cnt = 0; mem = mem })))

-- `n` is not negative. The second part of the result is the memory.
unfoldable pub vsnprintf : ℕ → ℕ → ℕ → ℕ → List ℕ → Bytes → Option (Reply ℕ × Bytes)
vsnprintf fuel buf n fmt args mem =
    if (buf == 0) || (n == 0)
    then some (err inval, mem)
    else snprintf_ends buf n mem (vprintfmt fuel mem fmt args)
