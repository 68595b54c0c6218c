-- ===== src/Console/Screen/Bounds.antt =====
-- The position stays on the screen.
use yu_os.Console.Screen.{Screen, crt_size, crt_cols, ltb}
use yu_os.Prelude.{ℕ, ◌≡◌, ◌<◌, ◌≤◌, ◌+◌, ltb}

-- The position and the cursor are on the screen, and nothing behind it is as in `buf` no longer.
pub record OnScreen (buf : ℕ → ℕ) (s : Screen) : Type 0 where
  pub position : s.crt_pos < crt_size
  pub shown : s.cursor ≡ s.crt_pos
  pub behind : (i : ℕ) → crt_size ≤ i → s.crt_buf i ≡ buf i

-- before the screen is scrolled
record Written (buf : ℕ → ℕ) (s : Screen) : Type 0 where
  position : s.crt_pos < crt_size + crt_cols
  behind : (i : ℕ) → crt_size ≤ i → s.crt_buf i ≡ buf i
