-- ===== src/Console/Keyboard.antt =====
-- The keyboard of kern/console.c: kbd_proc_data.
pub mod Maps
pub mod Press
use yu_os.Console.Keyboard.Maps.*
use yu_os.Prelude.{
  ℕ, List, [], ◌∷◌, ◌==◌, ◌&&◌, if◌then◌else◌, ◌+◌, ◌-◌, bit_and, bit_or, bit_xor, Option, some,
  none, Bool, true, leb, not,
}
use yu_os.Layout.{word_mod, flag}

-- `shift`, and whether port 0x92 was written, which resets the machine
pub record Keyboard : Type 0 where
  pub shift : ℕ
  pub reset : Bool

-- `~x`, on 32 bits
abbrev pub complement : ℕ → ℕ
complement x = word_mod - 1 - x

-- A key is released.
abbrev released : ℕ → Keyboard → ℕ × Keyboard
released code kb =
    let code = (if flag kb.shift e0esc then code else bit_and code 0x7F) in
    (0, record kb { shift = bit_and kb.shift (complement (bit_or (shiftcode code) e0esc)) })

-- With the Caps Lock the letters change their case.
abbrev with_case : ℕ → ℕ → ℕ
with_case shift c =
    if flag shift capslock
    then (if leb 97 c && leb c 122 then c - 32 else if leb 65 c && leb c 90 then c + 32 else c)
    else c

-- A key is pressed.
abbrev pressed : ℕ → Keyboard → ℕ × Keyboard
pressed code kb =
    let shift = bit_xor (bit_or kb.shift (shiftcode code)) (togglecode code) in
    let c = with_case shift (charcode (bit_and shift (bit_or ctl shift_bit)) code) in
    let reboots = flag shift ctl && flag shift alt && (c == key_del) in
    (c, record kb { shift = shift; reset = (if reboots then true else kb.reset) })

-- What one byte of the keyboard comes to
unfoldable pub scan_code : ℕ → Keyboard → ℕ × Keyboard
scan_code code kb =
    if code == 0xE0
    then (0, record kb { shift = bit_or kb.shift e0esc })
    else if flag code 0x80
    then released code kb
    else if flag kb.shift e0esc
    then pressed (bit_or code 0x80) (record kb { shift = bit_and kb.shift (complement e0esc) })
    else pressed code kb

-- `none` is no code in the controller, and the result -1.
unfoldable pub kbd_proc_data : Option ℕ → Keyboard → Option ℕ × Keyboard
kbd_proc_data none kb = (none, kb)
kbd_proc_data (some code) kb = let (c, kb) = scan_code code kb in (some c, kb)

-- The results of the calls of `kbd_proc_data`, by the bytes that the controller has
unfoldable pub kbd_chars : List ℕ → Keyboard → List ℕ × Keyboard
kbd_chars [] kb = ([], kb)
kbd_chars (code ∷ bytes) kb =
    let (c, kb) = scan_code code kb in let (cs, kb) = kbd_chars bytes kb in (c ∷ cs, kb)
