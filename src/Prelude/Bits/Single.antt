-- ===== src/Prelude/Bits/Single.antt =====
-- The bits of a word one by one: `x / 2 ^ j % 2` is bit `j` of `x`.
use Prim.Native.Nat.{ℕ, suc, zero, ◌<◌, ◌-◌, ◌^◌, ◌%◌, ◌/◌, min, max, bit_and, bit_or}
use mathlib.Core.Path.{◌≡◌, refl, ap}
use mathlib.Core.Logic.{◌≢◌}
use native.Mathlib.Omega.{arith}
use native.Mathlib.Nat.{pow-suc}
use yu_os.Prelude.Bits.{bit_or_step, bit_and_step, div_pow_suc}

pub bit_or_digit : (j a b : ℕ) → bit_or a b / 2 ^ j % 2 ≡ max (a / 2 ^ j % 2) (b / 2 ^ j % 2)
bit_or_digit zero a b = omega (arith, bit_or_step a b)
bit_or_digit (suc j) a b =
    let h : bit_or a b / 2 ≡ bit_or (a / 2) (b / 2) = omega (arith, bit_or_step a b) in
    rw (div_pow_suc j (bit_or a b), div_pow_suc j a, div_pow_suc j b, h)
      (bit_or_digit j (a / 2) (b / 2))

pub bit_and_digit : (j a b : ℕ) → bit_and a b / 2 ^ j % 2 ≡ min (a / 2 ^ j % 2) (b / 2 ^ j % 2)
bit_and_digit zero a b = omega (arith, bit_and_step a b)
bit_and_digit (suc j) a b =
    let h : bit_and a b / 2 ≡ bit_and (a / 2) (b / 2) = omega (arith, bit_and_step a b) in
    rw (div_pow_suc j (bit_and a b), div_pow_suc j a, div_pow_suc j b, h)
      (bit_and_digit j (a / 2) (b / 2))

half_pow : (k : ℕ) → 2 ^ suc k / 2 ≡ 2 ^ k
half_pow k = omega (arith, pow-suc 2 k)

zero_digit : (j : ℕ) → 0 / 2 ^ j % 2 ≡ 0
zero_digit zero = refl
zero_digit (suc j) = rw (div_pow_suc j 0) (zero_digit j)

-- A power of two has one bit.
pub pow_digit : (k : ℕ) → 2 ^ k / 2 ^ k % 2 ≡ 1
pow_digit zero = refl
pow_digit (suc k) = rw (div_pow_suc k (2 ^ suc k), half_pow k) (pow_digit k)

pub pow_digit_ne : (j k : ℕ) → j ≢ k → 2 ^ k / 2 ^ j % 2 ≡ 0
pow_digit_ne zero zero h = absurd (h refl)
pow_digit_ne zero (suc k) h = omega (arith, pow-suc 2 k)
pow_digit_ne (suc j) zero h = rw (div_pow_suc j (2 ^ 0)) (zero_digit j)
pow_digit_ne (suc j) (suc k) h =
    rw (div_pow_suc j (2 ^ suc k), half_pow k) (pow_digit_ne j k (λ e. h (ap suc e)))

-- The complement of a word of `n` bits has the other bits.
pub complement_digit :
    (n x j : ℕ) → x < 2 ^ n → j < n → (2 ^ n - 1 - x) / 2 ^ j % 2 ≡ 1 - x / 2 ^ j % 2
complement_digit zero x j h k = absurd (omega arith)
complement_digit (suc n) x zero h k = omega (arith, pow-suc 2 n)
complement_digit (suc n) x (suc j) h k =
    let e : (2 ^ suc n - 1 - x) / 2 ≡ 2 ^ n - 1 - x / 2 = omega (arith, pow-suc 2 n) in
    rw (div_pow_suc j (2 ^ suc n - 1 - x), div_pow_suc j x, e)
      (complement_digit n (x / 2) j (omega (arith, pow-suc 2 n)) (omega arith))

pow_pos : (k : ℕ) → 0 < 2 ^ k
pow_pos zero = omega arith
pow_pos (suc k) = omega (arith, pow-suc 2 k, pow_pos k)

pub pow_lt : (k n : ℕ) → k < n → 2 ^ k < 2 ^ n
pow_lt k zero h = absurd (omega arith)
pow_lt zero (suc n) h = omega (arith, pow-suc 2 n, pow_pos n)
pow_lt (suc k) (suc n) h = omega (arith, pow-suc 2 k, pow-suc 2 n, pow_lt k n (omega arith))
