-- ===== src/Console/Input/Fifo.antt =====
-- The ring of the console as a queue.
use yu_os.Console.Input.{Ring, consbufsize, next_pos, store_char, cons_intr, take_char}
use yu_os.Prelude.{
  ℕ, List, [], ◌∷◌, ◌++◌, ◌≡◌, ◌<◌, ◌+◌, ◌%◌, ◌==◌, if◌then◌else◌, length, update, arith, refl, inl,
  inr, Bool-cases, update_self, update_ne, ◌≢◌, ◌∙◌, sym, ap, suc, zero, true, false, length-append,
  append_nil, append_assoc,
}
use mathlib.Core.Path.{subst}

-- What was read from a device without the zeros
abbrev pub characters : List ℕ → List ℕ
characters [] = []
characters (c ∷ cs) = let rest = characters cs in if c == 0 then rest else c % 256 ∷ rest

-- From position `r` the buffer holds the list.
abbrev pub Holds : (ℕ → ℕ) → ℕ → List ℕ → Type 0
Holds buf r [] = Unit
Holds buf r (c ∷ cs) = (buf r ≡ c) × Holds buf (next_pos r) cs

-- The position that is `n` places behind `r`
abbrev pub ahead : ℕ → ℕ → ℕ
ahead r n = (r + n) % consbufsize

-- The characters in the ring, the oldest first. One place of the buffer stays free.
pub record IsQueue (cons : Ring) (q : List ℕ) : Type 0 where
  pub starts : cons.rpos < consbufsize
  pub stops : cons.wpos ≡ ahead cons.rpos (length q)
  pub fits : length q < consbufsize
  pub holds : Holds cons.buf cons.rpos q

-- A write at a position behind all of the list keeps it.
Holds-update :
    (buf : ℕ → ℕ) (r n v : ℕ) (q : List ℕ)
    → r < consbufsize
    → n < consbufsize
    → length q < suc n
    → Holds buf r q
    → Holds (update buf (ahead r n) v) r q
Holds-update buf r n v [] h g le holds = tt
Holds-update buf r zero v (c ∷ q) h g le holds = absurd (omega arith)
Holds-update buf r (suc n) v (c ∷ q) h g le holds =
    let moved : ahead (next_pos r) n ≡ ahead r (suc n) = ground arith in
    let apart : ahead r (suc n) ≢ r = omega arith in
    let rest =
      Holds-update buf (next_pos r) n v q (ground arith) (omega arith) (omega arith) holds.1 in
    (
      update_ne buf (ahead r (suc n)) r v apart ∙ holds.0,
      subst (λ p. Holds (update buf p v) (next_pos r) q) moved rest,
    )

Holds-append :
    (buf : ℕ → ℕ) (r v : ℕ) (q : List ℕ)
    → r < consbufsize
    → Holds buf r q
    → buf (ahead r (length q)) ≡ v
    → Holds buf r (q ++ (v ∷ []))
Holds-append buf r v [] h holds e =
    let here : ahead r 0 ≡ r = omega arith in (ap buf (sym here) ∙ e, tt)
Holds-append buf r v (c ∷ q) h holds e =
    let moved : ahead (next_pos r) (length q) ≡ ahead r (suc (length q)) = ground arith in
    (holds.0, Holds-append buf (next_pos r) v q (ground arith) holds.1 (ap buf moved ∙ e))

put_char :
    (c : ℕ) (cons : Ring) (q : List ℕ)
    → (c == 0) ≡ false
    → suc (length q) < consbufsize
    → IsQueue cons q
    → IsQueue (store_char c cons) (q ++ (c % 256 ∷ []))
unfolding store_char
put_char c cons q e room is = rw e (record {
  starts = is.starts;
  stops =
      let at = is.stops in
      let n = length-append q (c % 256 ∷ []) in let b = is.starts in rw (at, n) (ground arith);
  fits = rw (length-append q (c % 256 ∷ [])) (omega arith);
  holds =
      let there : ahead cons.rpos (length q) ≡ cons.wpos = sym is.stops in
      Holds-append _ cons.rpos (c % 256) q is.starts
        (rw is.stops (
          Holds-update cons.buf cons.rpos (length q) (c % 256) q is.starts is.fits (omega arith)
            is.holds))
        (rw there (update_self cons.buf cons.wpos (c % 256)));
})

store_zero : (c : ℕ) (cons : Ring) → (c == 0) ≡ true → store_char c cons ≡ cons
unfolding store_char
store_zero c cons e = rw e refl

room_left :
    (c n : ℕ) (cs q : List ℕ)
    → (c == 0) ≡ false
    → length q + length (characters (c ∷ cs)) < n
    → length q + suc (length (characters cs)) < n
room_left c n cs q e room =
    let r = room in
    subst (λ b. length q + length (if b then characters cs else c % 256 ∷ characters cs) < n) e r

room_same :
    (c n : ℕ) (cs q : List ℕ)
    → (c == 0) ≡ true
    → length q + length (characters (c ∷ cs)) < n
    → length q + length (characters cs) < n
room_same c n cs q e room =
    let r = room in
    subst (λ b. length q + length (if b then characters cs else c % 256 ∷ characters cs) < n) e r

pub cons_intr-IsQueue :
    (cs : List ℕ) (cons : Ring) (q : List ℕ)
    → length q + length (characters cs) < consbufsize
    → IsQueue cons q
    → IsQueue (cons_intr cs cons) (q ++ characters cs)
unfolding cons_intr
cons_intr-IsQueue [] cons q room is = rw (append_nil q) is
cons_intr-IsQueue (c ∷ cs) cons q room is = elim (Bool-cases (c == 0)) [
  | inl e ↦
      rw (e, store_zero c cons e)
        (cons_intr-IsQueue cs cons q (room_same c consbufsize cs q e room) is)
  | inr e ↦
      let fits = room_left c consbufsize cs q e room in
      let more = length-append q (c % 256 ∷ []) in
      let longer : IsQueue (store_char c cons) (q ++ (c % 256 ∷ [])) =
        put_char c cons q e (omega arith) is in
      rw (e, ← append_assoc q (c % 256 ∷ []) (characters cs))
        (cons_intr-IsQueue cs (store_char c cons) (q ++ (c % 256 ∷ [])) (omega arith) longer)
]

-- What reading from a queue gives: the first character, or 0 from an empty queue
abbrev pub Taken : List ℕ → ℕ × Ring → Type 0
Taken [] (c, cons) = (c ≡ 0) × IsQueue cons []
Taken (h ∷ q) (c, cons) = (c ≡ h) × IsQueue cons q

pub take_char-Taken : (cons : Ring) (q : List ℕ) → IsQueue cons q → Taken q (take_char cons)
unfolding take_char
take_char-Taken cons [] is =
    let stop = is.stops in
    let start = is.starts in
    let e : (cons.rpos == cons.wpos) ≡ true = ground arith in rw e (refl, is)
take_char-Taken cons (h ∷ q) is =
    let stop = is.stops in
    let start = is.starts in
    let fit = is.fits in
    let e : (cons.rpos == cons.wpos) ≡ false = ground arith in
    rw e (
      is.holds.0,
      record {
        starts = ground arith;
        stops = ground arith;
        fits = omega arith;
        holds = is.holds.1;
      },
    )
