-- ===== src/Console/Screen/Line.antt =====
-- Text on one screen: where the characters go.
use yu_os.Console.Screen.{Screen, crt_size, cons_putc, cga_putc, scroll, with_attribute, half_word}
use yu_os.Prelude.{
  ℕ, List, [], ◌∷◌, length, ◌≡◌, ◌<◌, ◌≤◌, ◌+◌, ◌%◌, arith, refl, ◌≢◌, update, bit_or, all_below,
  all_below-at, ==_iff, ◌==◌, leb, true, false, Bool, lt→ltb, ◌∙◌, update_self, update_ne,
}
use mathlib.Core.Path.{subst}

-- The calls of `cputchar` for a text
unfoldable pub put_text : List ℕ → Screen → Screen
put_text [] s = s
put_text (c ∷ cs) s = put_text cs (cons_putc c s)

-- A character that is shown as a cell
pub record IsGlyph (c : ℕ) : Type 0 where
  pub byte : c < 256
  pub no_erase : c ≢ 8
  pub no_tab : c ≢ 9
  pub no_line : c ≢ 10
  pub no_return : c ≢ 13

abbrev pub AllGlyphs : List ℕ → Type 0
AllGlyphs [] = Unit
AllGlyphs (c ∷ cs) = IsGlyph c × AllGlyphs cs

-- The cells from a position on show a text, black on white.
abbrev pub Shows : (ℕ → ℕ) → ℕ → List ℕ → Type 0
Shows cells pos [] = Unit
Shows cells pos (c ∷ cs) = (cells pos ≡ 0x600 + c) × Shows cells (pos + 1) cs

pub record Line (s : Screen) (cs : List ℕ) (t : Screen) : Type 0 where
  pub position : t.crt_pos ≡ s.crt_pos + length cs
  pub text : Shows t.crt_buf s.crt_pos cs
  pub before : (i : ℕ) → i < s.crt_pos → t.crt_buf i ≡ s.crt_buf i
  pub behind : (i : ℕ) → s.crt_pos + length cs ≤ i → t.crt_buf i ≡ s.crt_buf i

attribute_test : ℕ → Bool
attribute_test c = bit_or c 0x0600 == 0x600 + c

attributes : all_below 256 attribute_test ≡ true
unfolding attribute_test
attributes = refl

with_attribute-glyph : (c : ℕ) → c < 256 → with_attribute c ≡ 0x600 + c
unfolding attribute_test
with_attribute-glyph c h =
    let e : bit_or c 0x0600 ≡ 0x600 + c =
      (==_iff _ _).0 (all_below-at 256 attribute_test c h attributes) in
    rw (lt→ltb c 256 h) e

-- The screen after one such character
record Glyph (c : ℕ) (s t : Screen) : Type 0 where
  position : t.crt_pos ≡ s.crt_pos + 1
  cells : (i : ℕ) → t.crt_buf i ≡ update s.crt_buf s.crt_pos (0x600 + c) i

cons_putc-Glyph :
    (c : ℕ) (s : Screen) → IsGlyph c → s.crt_pos + 1 < crt_size → Glyph c s (cons_putc c s)
unfolding cons_putc cga_putc scroll
cons_putc-Glyph c s g h =
    let a = with_attribute-glyph c g.byte in
    let b = g.byte in
    let n8 = g.no_erase in
    let n9 = g.no_tab in
    let n10 = g.no_line in
    let n13 = g.no_return in
    let e8 : ((0x600 + c) % 256 == 8) ≡ false = ground arith in
    let e10 : ((0x600 + c) % 256 == 10) ≡ false = ground arith in
    let e13 : ((0x600 + c) % 256 == 13) ≡ false = ground arith in
    let e9 : ((0x600 + c) % 256 == 9) ≡ false = ground arith in
    let p : half_word (s.crt_pos + 1) ≡ s.crt_pos + 1 = omega arith in
    let v : half_word (0x600 + c) ≡ 0x600 + c = omega arith in
    let still : leb crt_size (s.crt_pos + 1) ≡ false = ground arith in
    rw (a, e8, e10, e13, e9, p, v, still) (record { position = refl; cells = λ i. refl })

-- x
pub put_text-Line :
    (cs : List ℕ) (s : Screen)
    → AllGlyphs cs
    → s.crt_pos + length cs < crt_size
    → Line s cs (put_text cs s)
unfolding put_text
put_text-Line [] s glyphs h = record {
  position = omega arith;
  text = tt;
  before = λ i lt. refl;
  behind = λ i le. refl;
}
put_text-Line (c ∷ cs) s glyphs h =
    let one = cons_putc-Glyph c s glyphs.0 (omega arith) in
    let at = one.position in
    let rest = put_text-Line cs (cons_putc c s) glyphs.1 (rw at (omega arith)) in
    let end = rest.position in
    record {
      position = omega (arith, at, end);
      text = (
        rest.before s.crt_pos (rw at (omega arith))
            ∙ one.cells s.crt_pos
            ∙ update_self s.crt_buf s.crt_pos (0x600 + c),
        subst (λ p. Shows (put_text cs (cons_putc c s)).crt_buf p cs) at rest.text,
      );
      before = λ i lt.
          rest.before i (rw at (omega arith))
          ∙ one.cells i
          ∙ update_ne s.crt_buf s.crt_pos i (0x600 + c) (omega arith);
      behind = λ i le.
          rest.behind i (rw at (omega arith))
          ∙ one.cells i
          ∙ update_ne s.crt_buf s.crt_pos i (0x600 + c) (omega arith);
    }
