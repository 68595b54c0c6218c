-- ===== src/Tests/ConsoleExamples.antt =====
-- The theorems on the console at small inputs.
use yu_os.Console.Input.{Ring, consbufsize}
use yu_os.Console.Input.Fifo.{IsQueue, Taken}
use yu_os.Console.Keyboard.{kbd_chars, scan_code}
use yu_os.Console.Getc.{Console, cons_getc, cons_getc_refines, key_chars}
use yu_os.Console.Screen.{Screen}
use yu_os.Prelude.{ℕ, List, [], ◌∷◌, ◌≡◌, arith, refl, true, false, ◌+◌, length, ◌<◌}

-- One character waits, in the last place of the buffer; the serial port gives 98.
abbrev waiting : Ring
waiting = record { buf = λ i. 97; rpos = 511; wpos = 0 }

waiting-IsQueue : IsQueue waiting (97 ∷ [])
waiting-IsQueue = record {
  starts = omega arith;
  stops = refl;
  fits = omega arith;
  holds = (refl, tt);
}

abbrev console : Console
console = record { cons = waiting; kbd = record { shift = 0; reset = false }; serial_exists = true }

-- The key C is pressed and released.
abbrev keys : List ℕ
keys = 0x2E ∷ 0xAE ∷ []

key_of_c : key_chars keys console.kbd ≡ (99 ∷ [])
unfolding kbd_chars scan_code
key_of_c = refl

room : 2 + length (key_chars keys console.kbd) < consbufsize
room = rw key_of_c (omega arith)

cons_getc_refines_example :
    Taken
      (97 ∷ 98 ∷ key_chars keys console.kbd)
      ((cons_getc (98 ∷ []) keys console).0, (cons_getc (98 ∷ []) keys console).1.cons)
cons_getc_refines_example = cons_getc_refines (98 ∷ []) keys console (97 ∷ []) waiting-IsQueue room

-- The cursor stands in the last line.
abbrev full : Screen
full = record { crt_buf = λ i. i; crt_pos = 1999; cursor = 1999; serial_out = []; lpt_out = [] }
