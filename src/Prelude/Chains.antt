-- ===== src/Prelude/Chains.antt =====
-- Linked lists through an array of links.
use Prim.Native.Nat.{ℕ}
use mathlib.Core.Path.{◌≡◌}
use mathlib.Core.Option.{Option, none, some}
use mathlib.Core.List.{List, [], ◌∷◌}
use native.Mathlib.Omega.{arith}
use yu_os.Prelude.Tests.{update, ==-ne}
use yu_os.Prelude.Lists.{◌∉◌}

-- From `head` the links lead through the elements to NULL.
abbrev pub Chain : (ℕ → Option ℕ) → Option ℕ → List ℕ → Type 0
Chain link head [] = head ≡ none
Chain link head (p ∷ ps) = (head ≡ some p) × Chain link (link p) ps

pub Chain-update :
    (link : ℕ → Option ℕ) (head : Option ℕ) (ps : List ℕ) (q : ℕ) (v : Option ℕ)
    → q ∉ ps
    → Chain link head ps
    → Chain (update link q v) head ps
Chain-update link head [] q v out c = c
Chain-update link head (p ∷ ps) q v out c =
    (c.0, rw (==-ne q p (ground arith)) (Chain-update link (link p) ps q v (ground arith) c.1))
