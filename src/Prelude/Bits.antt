-- ===== src/Prelude/Bits.antt =====
-- `bit_or` and `bit_and` at variables: by the lowest digit, and on disjoint ranges of digits.
pub mod Single
use Prim.Native.Nat.{
  ℕ, zero, suc, ◌+◌, ◌*◌, ◌/◌, ◌%◌, ◌^◌, ◌≤◌, ◌<◌, min, max, bit_and, bit_or, digits,
  bit_and-bitwise, bit_or-bitwise,
}
use mathlib.Core.Path.{◌≡◌, refl, sym, ap, ◌∙◌}
use native.Mathlib.Omega.{arith}
use native.Mathlib.Nat.{pow-suc, pow-succ', mul_assoc, div-div-eq-div-mul, div-one}

-- The digit recursion does not depend on its fuel, if that is enough for the first number.
module _ (last : ℕ → ℕ) (op : ℕ → ℕ → ℕ) where
  abbrev run_digits : ℕ → ℕ → ℕ → ℕ
  run_digits n a b = digits last op n a b

  run_digits_fuel :
      (x y fuel more : ℕ) → x ≤ fuel → x ≤ more → run_digits fuel x y ≡ run_digits more x y
  run_digits_fuel zero y zero zero h k = refl
  run_digits_fuel zero y zero (suc more) h k = refl
  run_digits_fuel zero y (suc fuel) zero h k = refl
  run_digits_fuel zero y (suc fuel) (suc more) h k = refl
  run_digits_fuel (suc x) y zero more h k = absurd (omega arith)
  run_digits_fuel (suc x) y (suc fuel) zero h k = absurd (omega arith)
  run_digits_fuel (suc x) y (suc fuel) (suc more) h k =
      omega (arith, run_digits_fuel (suc x / 2) (y / 2) fuel more (omega arith) (omega arith))

bit_or_zero_left : (y : ℕ) → bit_or 0 y ≡ y
bit_or_zero_left y = bit_or-bitwise 0 y

-- The lowest digit of `or` is that of one of the numbers; the others are those of the halves.
pub bit_or_step : (x y : ℕ) → bit_or x y ≡ max (x % 2) (y % 2) + 2 * bit_or (x / 2) (y / 2)
bit_or_step zero y = rw (bit_or_zero_left y, bit_or_zero_left (y / 2)) (omega arith)
bit_or_step (suc x) y =
    let fewer =
      run_digits_fuel (λ t. t) max (suc x / 2) (y / 2) x (suc x / 2) (omega arith) (omega arith) in
    omega (arith, fewer, bit_or-bitwise (suc x) y, bit_or-bitwise (suc x / 2) (y / 2))

bit_and_zero_left : (y : ℕ) → bit_and 0 y ≡ 0
bit_and_zero_left y = bit_and-bitwise 0 y

pub bit_and_step : (x y : ℕ) → bit_and x y ≡ min (x % 2) (y % 2) + 2 * bit_and (x / 2) (y / 2)
bit_and_step zero y = rw (bit_and_zero_left y, bit_and_zero_left (y / 2)) (omega arith)
bit_and_step (suc x) y =
    let fewer =
      run_digits_fuel (λ _. zero) min (suc x / 2) (y / 2) x (suc x / 2) (omega arith)
        (omega arith) in
    omega (arith, fewer, bit_and-bitwise (suc x) y, bit_and-bitwise (suc x / 2) (y / 2))

bit_or_zero_fuel : (n a : ℕ) → a ≤ n → bit_or a 0 ≡ a
bit_or_zero_fuel n zero h = refl
bit_or_zero_fuel zero (suc a) h = absurd (omega arith)
bit_or_zero_fuel (suc n) (suc a) h =
    omega (arith, bit_or_step (suc a) 0, bit_or_zero_fuel n (suc a / 2) (omega arith))

pub bit_or-zero : (a : ℕ) → bit_or a 0 ≡ a
bit_or-zero a = bit_or_zero_fuel a a (omega arith)

pub bit_or-one : (a : ℕ) → bit_or a 1 ≡ a / 2 * 2 + 1
bit_or-one a = omega (arith, bit_or_step a 1, bit_or-zero (a / 2))

pub bit_or_two : (a : ℕ) → bit_or a 2 ≡ a / 4 * 4 + 2 + a % 2
bit_or_two a = omega (arith, bit_or_step a 2, bit_or-one (a / 2))

pub bit_or_four : (a : ℕ) → bit_or a 4 ≡ a / 8 * 8 + 4 + a % 4
bit_or_four a = omega (arith, bit_or_step a 4, bit_or_two (a / 2))

-- Below and above a bit position `or` is addition.
pub bit_or-eq_add : (k x y : ℕ) → y < 2 ^ k → bit_or (x * 2 ^ k) y ≡ x * 2 ^ k + y
bit_or-eq_add zero x y h =
    let e : y ≡ 0 = omega arith in rw e (bit_or-zero (x * 2 ^ 0) ∙ omega arith)
bit_or-eq_add (suc k) x y h = omega (
  arith,
  doubled,
  halved,
  bit_or_step (x * 2 ^ suc k) y,
  bit_or-eq_add k x (y / 2) (omega (arith, pow-suc 2 k)),
)
  where
    doubled : x * 2 ^ suc k ≡ x * 2 ^ k * 2
    doubled = rw pow-suc (sym (mul_assoc x (2 ^ k) 2))

    halved : bit_or (x * 2 ^ suc k / 2) (y / 2) ≡ bit_or (x * 2 ^ k) (y / 2)
    halved = ap (λ t. bit_or t (y / 2)) (omega (arith, doubled))

bit_and_zero_fuel : (n a : ℕ) → a ≤ n → bit_and a 0 ≡ 0
bit_and_zero_fuel n zero h = refl
bit_and_zero_fuel zero (suc a) h = absurd (omega arith)
bit_and_zero_fuel (suc n) (suc a) h =
    omega (arith, bit_and_step (suc a) 0, bit_and_zero_fuel n (suc a / 2) (omega arith))

pub bit_and-zero : (a : ℕ) → bit_and a 0 ≡ 0
bit_and-zero a = bit_and_zero_fuel a a (omega arith)

bit_and-div : (a b : ℕ) → bit_and (a / 2) (b / 2) ≡ bit_and a b / 2
bit_and-div a b = omega (arith, bit_and_step a b)

pub div_pow_suc : (k a : ℕ) → a / 2 ^ suc k ≡ a / 2 / 2 ^ k
div_pow_suc k a = rw (pow-succ', div-div-eq-div-mul)

-- `and` commutes with a shift to the right.
pub bit_and-shift : (k a b : ℕ) → bit_and (a / 2 ^ k) (b / 2 ^ k) ≡ bit_and a b / 2 ^ k
bit_and-shift zero a b = simp div-one
bit_and-shift (suc k) a b =
    rw (div_pow_suc k a, div_pow_suc k b, div_pow_suc k (bit_and a b), ← bit_and-div a b)
      (bit_and-shift k (a / 2) (b / 2))

ones : ℕ → ℕ
ones zero = 0
ones (suc k) = ones k * 2 + 1

bit_and-ones : (k a : ℕ) → a < 2 ^ k → bit_and a (ones k) ≡ a
unfolding ones
bit_and-ones zero a h = omega (arith, bit_and-zero a)
bit_and-ones (suc k) a h = omega (
  arith,
  bit_and_step a (ones k * 2 + 1),
  halved,
  bit_and-ones k (a / 2) (omega (arith, pow-suc 2 k)),
)
  where
    halved : bit_and (a / 2) ((ones k * 2 + 1) / 2) ≡ bit_and (a / 2) (ones k)
    halved = ap (bit_and (a / 2)) (omega arith)

-- A 32-bit word without the bits of 0xFFFFF1F8 is below 2 ^ 12.
pub lt_of_bit_and : (a : ℕ) → a < 2 ^ 32 → bit_and a 0xFFFFF1F8 ≡ 0 → a < 4096
unfolding ones
lt_of_bit_and a h e = omega (
  arith,
  bit_and-ones 20 (a / 4096) (omega arith),
  bit_and-shift 12 a 0xFFFFF1F8,
  ap (λ t. t / 4096) e,
)
