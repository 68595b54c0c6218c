-- ===== src/Console/Getc.antt =====
-- Reading from the console of kern/console.c: serial_intr, kbd_intr and cons_getc.
use yu_os.Prelude.{
  ℕ, List, [], ◌++◌, ◌≡◌, ◌<◌, ◌+◌, length, Bool, true, false, if◌then◌else◌, arith, Bool-cases,
  inl, inr, refl, append_nil, length-append,
}
use yu_os.Console.Input.{Ring, cons_intr, take_char, consbufsize}
use yu_os.Console.Input.Fifo.{IsQueue, Taken, characters, cons_intr-IsQueue, take_char-Taken}
use yu_os.Console.Keyboard.{Keyboard, kbd_chars}

pub record Console : Type 0 where
  pub cons : Ring
  pub kbd : Keyboard
  pub serial_exists : Bool

-- The bytes are those that the serial port has when it is asked.
unfoldable pub serial_intr : List ℕ → Console → Console
serial_intr bytes con =
    if con.serial_exists then record con { cons = cons_intr bytes con.cons } else con

-- The bytes are those that the keyboard controller has.
unfoldable pub kbd_intr : List ℕ → Console → Console
kbd_intr bytes con =
    let (cs, kbd) = kbd_chars bytes con.kbd in
    record con { cons = cons_intr cs con.cons; kbd = kbd }

abbrev read_ring : Console → ℕ × Console
read_ring con = let (c, cons) = take_char con.cons in (c, record con { cons = cons })

unfoldable pub cons_getc : List ℕ → List ℕ → Console → ℕ × Console
cons_getc serial keys con = read_ring (kbd_intr keys (serial_intr serial con))

-- What the devices add to the queue
abbrev pub serial_chars : Bool → List ℕ → List ℕ
serial_chars true bytes = characters bytes
serial_chars false bytes = []

abbrev pub key_chars : List ℕ → Keyboard → List ℕ
key_chars keys kbd = characters (kbd_chars keys kbd).0

serial_intr-IsQueue :
    (serial : List ℕ) (con : Console) (q : List ℕ)
    → IsQueue con.cons q
    → length q + length (serial_chars con.serial_exists serial) < consbufsize
    → IsQueue (serial_intr serial con).cons (q ++ serial_chars con.serial_exists serial)
unfolding serial_intr
serial_intr-IsQueue serial con q is h = by_port con.serial_exists h
  where
    by_port :
        (there : Bool)
        → length q + length (serial_chars there serial) < consbufsize
        → IsQueue
            (if there then record con { cons = cons_intr serial con.cons } else con).cons
            (q ++ serial_chars there serial)
    by_port true h = cons_intr-IsQueue serial con.cons q h is
    by_port false h = rw (append_nil q) is

serial_intr-kbd : (serial : List ℕ) (con : Console) → (serial_intr serial con).kbd ≡ con.kbd
unfolding serial_intr
serial_intr-kbd serial con = elim (Bool-cases con.serial_exists) [
  | inl e ↦ rw e refl
  | inr e ↦ rw e refl
]

-- While fewer than 512 characters wait, together with those that the serial port, if there is one,
-- and the keyboard give, `cons_getc` returns the oldest of them and keeps the others in order, or
-- returns 0 if there is none.
pub cons_getc_refines :
    (serial keys : List ℕ) (con : Console) (q : List ℕ)
    → IsQueue con.cons q
    → length q + length (serial_chars con.serial_exists serial) + length (key_chars keys con.kbd)
      < consbufsize
    → Taken
        (q ++ serial_chars con.serial_exists serial ++ key_chars keys con.kbd)
        ((cons_getc serial keys con).0, (cons_getc serial keys con).1.cons)
unfolding cons_getc kbd_intr
cons_getc_refines serial keys con q is h =
    let first = serial_intr-IsQueue serial con q is (omega arith) in
    let n = length-append q (serial_chars con.serial_exists serial) in
    rw (serial_intr-kbd serial con) (
      take_char-Taken _ _ (
        cons_intr-IsQueue (kbd_chars keys con.kbd).0 (serial_intr serial con).cons
          (q ++ serial_chars con.serial_exists serial) (omega arith) first))
