-- ===== src/Console/Screen.antt =====
-- Output to the console of kern/console.c: cga_putc, serial_putc, lpt_putc and cons_putc.
pub mod Bounds
pub mod Line
use yu_os.Prelude.{
  ℕ, zero, suc, List, [], ◌∷◌, ◌==◌, ◌&&◌, if◌then◌else◌, ◌+◌, ◌-◌, ◌*◌, ◌/◌, ◌%◌, ◌^◌, ltb, leb,
  update, bit_or,
}

abbrev pub crt_cols : ℕ
crt_cols = 80

abbrev pub crt_size : ℕ
crt_size = 25 * crt_cols

-- The screen's memory of 16-bit cells, the position of the next character, the cursor that the
-- controller shows, and the bytes that were sent to the serial and the parallel port, the last first
pub record Screen : Type 0 where
  pub crt_buf : ℕ → ℕ
  pub crt_pos : ℕ
  pub cursor : ℕ
  pub serial_out : List ℕ
  pub lpt_out : List ℕ

-- a uint16_t
abbrev pub half_word : ℕ → ℕ
half_word x = x % 2 ^ 16

-- A character without an attribute is black on white.
abbrev pub with_attribute : ℕ → ℕ
with_attribute c = if ltb c 256 then bit_or c 0x0600 else c

abbrev pub erase : ℕ → Screen → Screen
erase c s =
    if ltb 0 s.crt_pos
    then record s {
      crt_pos = s.crt_pos - 1;
      crt_buf = update s.crt_buf (s.crt_pos - 1) (half_word (c / 256 * 256 + 32));
    }
    else s

abbrev line_start : ℕ → ℕ
line_start pos = pos - pos % crt_cols

abbrev pub new_line : Screen → Screen
new_line s = record s { crt_pos = line_start (half_word (s.crt_pos + crt_cols)) }

abbrev pub carriage_return : Screen → Screen
carriage_return s = record s { crt_pos = line_start s.crt_pos }

abbrev pub put_glyph : ℕ → Screen → Screen
put_glyph c s = record s {
  crt_buf = update s.crt_buf s.crt_pos (half_word c);
  crt_pos = half_word (s.crt_pos + 1);
}

-- The cases of the `switch`; `space` is a call of cons_putc(' ').
abbrev pub put_cell : (Screen → Screen) → ℕ → Screen → Screen
put_cell space c s =
    if c % 256 == 8
    then erase c s
    else if c % 256 == 10
    then new_line s
    else if c % 256 == 13
    then carriage_return s
    else if c % 256 == 9
    then space (space (space (space (space s))))
    else put_glyph c s

-- Behind the last line the screen moves up by one line; the last line is cleared.
unfoldable pub scroll : Screen → Screen
scroll s =
    if leb crt_size s.crt_pos
    then record s {
      crt_buf = λ i.
          if ltb i (crt_size - crt_cols)
          then s.crt_buf (i + crt_cols)
          else if ltb i crt_size
          then bit_or 0x0600 32
          else s.crt_buf i;
      crt_pos = s.crt_pos - crt_cols;
    }
    else s

-- `move that little blinky thing`: the position goes to the controller in two bytes.
abbrev pub move_cursor : Screen → Screen
move_cursor s = record s { cursor = s.crt_pos / 256 % 256 * 256 + s.crt_pos % 256 }

-- `cga_putc`, by its calls of cons_putc(' ')
abbrev cga_putc_by : (Screen → Screen) → ℕ → Screen → Screen
cga_putc_by space c s = move_cursor (scroll (put_cell space (with_attribute c) s))

-- `serial_putc` and `lpt_putc`, once the port is ready or the wait is over
abbrev pub send_copies : ℕ → Screen → Screen
send_copies c s = record s { serial_out = c % 256 ∷ s.serial_out; lpt_out = c % 256 ∷ s.lpt_out }

-- `cons_putc(' ')`: it comes to the last case of the `switch`, where no further call is made.
unfoldable pub put_space : Screen → Screen
put_space s = cga_putc_by (λ s. s) 32 (send_copies 32 s)

unfoldable pub cga_putc : ℕ → Screen → Screen
cga_putc c s = cga_putc_by put_space c s

unfoldable pub cons_putc : ℕ → Screen → Screen
cons_putc c s = cga_putc c (send_copies c s)
