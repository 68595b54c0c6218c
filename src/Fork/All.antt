-- ===== src/Fork/All.antt =====
-- All pages below UTOP after the loop of fork in lib/fork.c.
use yu_os.Fork.{PageMap, Spaces, skips}
use yu_os.Fork.Copy.{PageAfter, Same, Refused}
use yu_os.Fork.Tried.{Tried}
use yu_os.Layout.{utop, pgsize}
use yu_os.Prelude.{ℕ, Bool, false, ◌≡◌, ◌≤◌, ◌<◌, ◌/◌, sym}
use mathlib.Core.Path.{sym}

-- The loop has come from page 0 to page `pn`, in a parent in which the pages that are `written` change
-- meanwhile.
pub record Copied (written : ℕ → Bool) (pn : ℕ) (s t : Spaces) : Type 0 where
  pub done : (q : ℕ) → q < pn → written q ≡ false → PageAfter q s t
  pub rest : (q : ℕ) → pn ≤ q → written q ≡ false → Same q s t

-- The loop stopped at a page below UTOP, which it does not pass over: a call for that page failed, in
-- the state that the pages before it had left.
pub data Stopped (map : PageMap) (written : ℕ → Bool) (s : Spaces) : Type 0 where
  stopped_at :
      {pn : ℕ} {t : Spaces}
      → pn < utop / pgsize
      → Copied written pn s t
      → skips pn t ≡ false
      → Refused map pn t
      → Stopped map written s
