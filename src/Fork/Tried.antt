-- ===== src/Fork/Tried.antt =====
-- Code of lib/fork.c that goes on after a call to the kernel that returns 0, and panics after one that
-- fails.
use yu_os.Fork.{or_panic}
use yu_os.Prelude.{ℕ, zero, suc, Run, ok, panic, ◌≡◌, ◌≢◌, ◌⊎◌, inr, arith, refl}
use yu_os.Layout.{Reply, ret, err}

-- The code ends as `P` says, or panics after a call that failed as `F` says.
abbrev pub Tried : {S : Type 0} → (S → Type 0) → Type 0 → Run S → Type 0
Tried {S} P F m = ((t : S) × (m ≡ ok t) × P t) ⊎ ((m ≡ panic) × F)

pub Tried-or_panic :
    {S : Type 0} {P : S → Type 0} {F : Type 0} (r : Reply ℕ × S) (next : S → Run S)
    → (r.0 ≢ ret 0 → F)
    → ((s' : S) → r ≡ (ret 0, s') → Tried P F (next s'))
    → Tried P F (or_panic r next)
Tried-or_panic (err e, s) next fail keep = inr (refl, fail (λ x. absurd (cc)))
Tried-or_panic (ret zero, s) next fail keep = keep s refl
Tried-or_panic (ret (suc r), s) next fail keep = inr (refl, fail (λ x. absurd (ground arith)))
