-- ===== src/Prelude/Panics.antt =====
-- Kernel code that returns a value or panics.
use mathlib.Core.Bool.{Bool, true, false}
use mathlib.Core.Path.{◌≡◌}
use yu_os.Prelude.Tests.{if◌then◌else◌}

-- `panic` is a call of `panic()`, or a failed `assert`: the code does not go on.
pub data Run {ℓ} (A : Type ℓ) : Type ℓ where
  panic : Run A
  ok : A → Run A

infixl 5 ◌>>=◌
-- What follows a panic does not happen.
abbrev pub ◌>>=◌ {ℓ κ} : {A : Type ℓ} {B : Type κ} → Run A → (A → Run B) → Run B
panic >>= next = panic
ok a >>= next = next a

-- What holds of the result, if there is one
pub data After {ℓ κ} {A : Type ℓ} (P : A → Type κ) : Run A → Type (ℓ ⊔ κ) where
  stopped : After P panic
  ends : {a : A} → P a → After P (ok a)

pub After-bind {ℓ κ μ ν} :
    {A : Type ℓ} {B : Type κ} {Q : A → Type μ} {P : B → Type ν} (m : Run A) (next : A → Run B)
    → After Q m
    → ((a : A) → Q a → After P (next a))
    → After P (m >>= next)
After-bind panic next h keep = stopped
After-bind (ok a) next (ends q) keep = keep a q

-- with nothing known of the first result
pub After-any {ℓ κ ν} :
    {A : Type ℓ} {B : Type κ} {P : B → Type ν} (m : Run A) (next : A → Run B)
    → ((a : A) → After P (next a))
    → After P (m >>= next)
After-any panic next keep = stopped
After-any (ok a) next keep = keep a

pub After-if {ℓ κ} :
    {A : Type ℓ} {P : A → Type κ} (b : Bool) {x y : Run A}
    → After P x
    → After P y
    → After P (if b then x else y)
After-if true hx hy = hx
After-if false hx hy = hy

pub After-map {ℓ κ μ} :
    {A : Type ℓ} {P : A → Type κ} {Q : A → Type μ} {m : Run A}
    → ((a : A) → P a → Q a)
    → After P m
    → After Q m
After-map f stopped = stopped
After-map f (ends {a} p) = ends (f a p)

-- a result that is known
pub After-result {ℓ} : {A : Type ℓ} (m : Run A) (a : A) → m ≡ ok a → After (λ b. b ≡ a) m
After-result panic a e = stopped
After-result (ok b) a e = ends (cc)

pub After-ok {ℓ κ} : {A : Type ℓ} {P : A → Type κ} (m : Run A) (a : A) → m ≡ ok a → After P m → P a
After-ok panic a e stopped = absurd (cc)
After-ok {P = P} (ok b) a e (ends p) = let same : b ≡ a = cc in rw (← same) p
