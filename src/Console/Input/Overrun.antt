-- ===== src/Console/Input/Overrun.antt =====
-- What happens to the ring of the console when it gets more characters than it has room for.
use yu_os.Console.Input.{Ring, consbufsize, store_char, cons_intr, take_char}
use yu_os.Console.Input.Fifo.{characters, IsQueue, ahead}
use yu_os.Prelude.{
  ℕ, List, [], ◌∷◌, ◌≡◌, ◌<◌, ◌+◌, ◌==◌, length, arith, refl, Bool-cases, inl, inr, ◌∙◌, true,
  ==_iff,
}

-- The positions after characters were stored
record Moved (n : ℕ) (cons cons' : Ring) : Type 0 where
  read : cons'.rpos ≡ cons.rpos
  written : cons'.wpos ≡ ahead cons.wpos n

store_char-Moved :
    (c : ℕ) (cons : Ring)
    → cons.wpos < consbufsize
    → Moved (length (characters (c ∷ []))) cons (store_char c cons)
unfolding store_char
store_char-Moved c cons h = elim (Bool-cases (c == 0)) [
  | inl e ↦ rw e (record { read = refl; written = omega arith })
  | inr e ↦ rw e (record { read = refl; written = ground arith })
]

count-one :
    (c : ℕ) (cs : List ℕ)
    → length (characters (c ∷ cs)) ≡ length (characters (c ∷ [])) + length (characters cs)
count-one c cs = elim (Bool-cases (c == 0)) [
  | inl e ↦ rw e (omega arith)
  | inr e ↦ rw e (omega arith)
]

cons_intr-Moved :
    (cs : List ℕ) (cons : Ring)
    → cons.wpos < consbufsize
    → Moved (length (characters cs)) cons (cons_intr cs cons)
unfolding cons_intr
cons_intr-Moved [] cons h = record { read = refl; written = omega arith }
cons_intr-Moved (c ∷ cs) cons h =
    let one = store_char-Moved c cons h in
    let w = one.written in
    let rest = cons_intr-Moved cs (store_char c cons) (omega arith) in
    let v = rest.written in
    record { read = rest.read ∙ one.read; written = omega (arith, v, w, count-one c cs) }

-- x
pub cons_intr-overrun :
    (cs : List ℕ) (cons : Ring) (q : List ℕ)
    → IsQueue cons q
    → length q + length (characters cs) ≡ consbufsize
    → (take_char (cons_intr cs cons)).0 ≡ 0
unfolding take_char
cons_intr-overrun cs cons q is full =
    let start = is.starts in
    let stop = is.stops in
    let m = cons_intr-Moved cs cons (omega arith) in
    let r = m.read in
    let w = m.written in
    let e : ((cons_intr cs cons).rpos == (cons_intr cs cons).wpos) ≡ true =
      (==_iff _ _).1 (omega (arith, r, w)) in
    rw e refl
