-- ===== src/Console/Keyboard/Press.antt =====
-- What pressing and releasing a key does to the state of the keyboard.
use yu_os.Console.Keyboard.Maps.{shiftcode, togglecode}
use yu_os.Console.Keyboard.{Keyboard, kbd_chars, scan_code, complement, List}
use yu_os.Prelude.{
  ℕ, [], ◌∷◌, ◌≡◌, ◌<◌, ◌≢◌, ◌+◌, ◌==◌, ◌&&◌, ◌||◌, not, Bool, true, false, bit_and, bit_or,
  bit_xor, arith, refl, inl, ==_iff, inr, ◌⊎◌, List, all_below-at, all_below,
}
use yu_os.Layout.{flag}
use mathlib.Core.Path.{subst}

-- The modifier and the lock of a key: no key has both.
data IsKey : ℕ → ℕ → Type 0 where
  plain : IsKey 0 0
  shifts : IsKey 1 0
  controls : IsKey 2 0
  alters : IsKey 4 0
  locks_caps : IsKey 0 8
  locks_num : IsKey 0 16
  locks_scroll : IsKey 0 32

code_cases :
    (d : ℕ)
    → ((shiftcode d ≡ 0) × (togglecode d ≡ 0))
      ⊎ (((shiftcode d ≡ 1) × (togglecode d ≡ 0))
          ⊎ (((shiftcode d ≡ 2) × (togglecode d ≡ 0))
              ⊎ (((shiftcode d ≡ 4) × (togglecode d ≡ 0))
                  ⊎ (((shiftcode d ≡ 0) × (togglecode d ≡ 8))
                      ⊎ (((shiftcode d ≡ 0) × (togglecode d ≡ 16))
                          ⊎ ((shiftcode d ≡ 0) × (togglecode d ≡ 32)))))))
code_cases d = ground arith

IsKey-code : (d : ℕ) → IsKey (shiftcode d) (togglecode d)
IsKey-code d = elim (code_cases d) [
  | inl e ↦ rw (e.0, e.1) plain
  | inr (inl e) ↦ rw (e.0, e.1) shifts
  | inr (inr (inl e)) ↦ rw (e.0, e.1) controls
  | inr (inr (inr (inl e))) ↦ rw (e.0, e.1) alters
  | inr (inr (inr (inr (inl e)))) ↦ rw (e.0, e.1) locks_caps
  | inr (inr (inr (inr (inr (inl e))))) ↦ rw (e.0, e.1) locks_num
  | inr (inr (inr (inr (inr (inr e))))) ↦ rw (e.0, e.1) locks_scroll
]

-- The tests of the states, for a key with a modifier and a lock
abbrev after_press : ℕ → ℕ → ℕ → ℕ
after_press sc tc s = bit_xor (bit_or s sc) tc

abbrev holds_at : ℕ → ℕ → ℕ → Bool
holds_at sc tc s =
    not (flag (after_press sc tc s) 64)
    && (bit_and (after_press sc tc s) (complement (bit_or sc 64)) == bit_xor s tc)
    && (bit_and (bit_or s 64) (complement 64) == s)
    && flag (bit_or s 64) 64
    && flag (bit_or (after_press sc tc s) 64) 64
    && (bit_and (bit_or (after_press sc tc s) 64) (complement (bit_or sc 64)) == bit_xor s tc)

abbrev state_test : ℕ → ℕ → ℕ → Bool
state_test sc tc s = not (bit_and s sc == 0) || holds_at sc tc s

states : (sc tc : ℕ) → IsKey sc tc → all_below 64 (state_test sc tc) ≡ true
states sc tc plain = refl
states sc tc shifts = refl
states sc tc controls = refl
states sc tc alters = refl
states sc tc locks_caps = refl
states sc tc locks_num = refl
states sc tc locks_scroll = refl

abbrev code_test : ℕ → Bool
code_test d = (bit_and (d + 128) 0x7F == d) && (bit_or d 0x80 == d + 128)

codes : all_below 128 code_test ≡ true
codes = refl

record Facts (sc tc s : ℕ) : Type 0 where
  no_escape : flag (after_press sc tc s) 64 ≡ false
  back : bit_and (after_press sc tc s) (complement (bit_or sc 64)) ≡ bit_xor s tc
  cleared : bit_and (bit_or s 64) (complement 64) ≡ s
  escaped : flag (bit_or s 64) 64 ≡ true
  escaped_again : flag (bit_or (after_press sc tc s) 64) 64 ≡ true
  back_again : bit_and (bit_or (after_press sc tc s) 64) (complement (bit_or sc 64)) ≡ bit_xor s tc

and_split : (a b : Bool) → (a && b) ≡ true → (a ≡ true) × (b ≡ true)
and_split true b e = (refl, e)
and_split false b e = absurd (cc)

state_Facts : (sc tc s : ℕ) → IsKey sc tc → s < 64 → bit_and s sc ≡ 0 → Facts sc tc s
state_Facts sc tc s key h e =
    let all = all_below-at 64 (state_test sc tc) s h (states sc tc key) in
    let t : (bit_and s sc == 0) ≡ true = ground arith in
    let f : holds_at sc tc s ≡ true = subst (λ b. (not b || holds_at sc tc s) ≡ true) t all in
    record {
      no_escape = ground arith;
      back = ground arith;
      cleared = ground arith;
      escaped = ground arith;
      escaped_again = ground arith;
      back_again = ground arith;
    }

press_plain :
    (d : ℕ) (kb : Keyboard)
    → kb.shift < 64
    → d < 128
    → d ≢ 0x60
    → bit_and kb.shift (shiftcode d) ≡ 0
    → (kbd_chars (d ∷ (d + 128) ∷ []) kb).1.shift ≡ bit_xor kb.shift (togglecode d)
unfolding kbd_chars scan_code
press_plain d kb h g ne e =
    let at = state_Facts (shiftcode d) (togglecode d) kb.shift (IsKey-code d) h e in
    let code =
      and_split (bit_and (d + 128) 0x7F == d) (bit_or d 0x80 == d + 128)
        (all_below-at 128 code_test d g codes) in
    let low : bit_and (d + 128) 0x7F ≡ d = (==_iff _ _).0 code.0 in
    let d1 : (d == 0xE0) ≡ false = ground arith in
    let d2 : flag d 128 ≡ false = ground arith in
    let d3 : flag kb.shift 64 ≡ false = ground arith in
    let d4 : (d + 128 == 0xE0) ≡ false = ground arith in
    let d5 : flag (d + 128) 128 ≡ true = ground arith in
    rw (d1, d2, d3, d4, d5, at.no_escape, low) at.back

press_escaped :
    (d : ℕ) (kb : Keyboard)
    → kb.shift < 64
    → d < 128
    → d ≢ 0x60
    → bit_and kb.shift (shiftcode (d + 128)) ≡ 0
    → (kbd_chars (0xE0 ∷ d ∷ 0xE0 ∷ (d + 128) ∷ []) kb).1.shift
      ≡ bit_xor kb.shift (togglecode (d + 128))
unfolding kbd_chars scan_code
press_escaped d kb h g ne e =
    let at =
      state_Facts (shiftcode (d + 128)) (togglecode (d + 128)) kb.shift (IsKey-code (d + 128)) h
        e in
    let code =
      and_split (bit_and (d + 128) 0x7F == d) (bit_or d 0x80 == d + 128)
        (all_below-at 128 code_test d g codes) in
    let high : bit_or d 0x80 ≡ d + 128 = (==_iff _ _).0 code.1 in
    let d1 : (d == 0xE0) ≡ false = ground arith in
    let d2 : flag d 128 ≡ false = ground arith in
    let d4 : (d + 128 == 0xE0) ≡ false = ground arith in
    let d5 : flag (d + 128) 128 ≡ true = ground arith in
    rw (d1, d2, at.escaped, d4, d5, high, at.cleared, at.escaped_again) at.back_again

-- The code of a key, and what the keyboard sends while it is pressed and released, with or without
-- the escape byte 0xE0
abbrev pub key_code : Bool → ℕ → ℕ
key_code false d = d
key_code true d = d + 128

abbrev pub key_bytes : Bool → ℕ → List ℕ
key_bytes false d = d ∷ (d + 128) ∷ []
key_bytes true d = 0xE0 ∷ d ∷ 0xE0 ∷ (d + 128) ∷ []

-- When a key, with or without the escape byte, is pressed and released while no escape is pending
-- and its modifier is not held, the state of the keyboard is as before, but that the lock of a lock
-- key has changed; the scan code is below 0x80 and not 0x60.
pub kbd_chars-key :
    (escape : Bool) (d : ℕ) (kb : Keyboard)
    → kb.shift < 64
    → d < 128
    → d ≢ 0x60
    → bit_and kb.shift (shiftcode (key_code escape d)) ≡ 0
    → (kbd_chars (key_bytes escape d) kb).1.shift
      ≡ bit_xor kb.shift (togglecode (key_code escape d))
kbd_chars-key false d kb h g ne e = press_plain d kb h g ne e
kbd_chars-key true d kb h g ne e = press_escaped d kb h g ne e
