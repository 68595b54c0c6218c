-- ===== src/Console/Input.antt =====
-- The console input buffer of kern/console.c: the ring `cons` and cons_intr, which fills it.
pub mod Fifo
pub mod Overrun
use yu_os.Prelude.{ℕ, List, [], ◌∷◌, ◌==◌, if◌then◌else◌, ◌+◌, ◌%◌, update}

abbrev pub consbufsize : ℕ
consbufsize = 512

-- `cons`
pub record Ring : Type 0 where
  pub buf : ℕ → ℕ
  pub rpos : ℕ
  pub wpos : ℕ

-- A position moves on, and from the end of the buffer to its start.
abbrev pub next_pos : ℕ → ℕ
next_pos pos = if pos + 1 == consbufsize then 0 else pos + 1

-- A character that a device gave is stored as a uint8_t, unless it is 0.
unfoldable pub store_char : ℕ → Ring → Ring
store_char c cons =
    if c == 0
    then cons
    else record cons { buf = update cons.buf cons.wpos (c % 256); wpos = next_pos cons.wpos }

-- `cons_intr`, by the results of `proc` before the -1 that ends the loop
unfoldable pub cons_intr : List ℕ → Ring → Ring
cons_intr [] cons = cons
cons_intr (c ∷ cs) cons = cons_intr cs (store_char c cons)

-- The end of `cons_getc`, after the devices have been polled
unfoldable pub take_char : Ring → ℕ × Ring
take_char cons =
    if cons.rpos == cons.wpos
    then (0, cons)
    else (cons.buf cons.rpos, record cons { rpos = next_pos cons.rpos })
