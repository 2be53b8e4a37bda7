-- ===== src/Base/Masks.antt =====
-- `&` with a mask of low bits as a remainder, and `<<` of a 32-bit number by the width of a digit.
use Prim.Native.Nat.{
  ℕ, zero, suc, ◌+◌, ◌*◌, ◌/◌, ◌%◌, ◌^◌, ◌≤◌, ◌<◌, min, bit_and, bit_or, digits, bit_and-bitwise,
}
use mathlib.Core.Path.{◌≡◌, refl, ap, ◌∙◌}
use native.Mathlib.Omega.{arith}
use spl_rust.Base.Bits.{bit_or-shift}

abbrev and_rounds : ℕ → ℕ → ℕ → ℕ
and_rounds n a b = digits (λ _. zero) min n a b

-- Rounds past the last digit of `a` change nothing.
and_rounds_enough : (n m a b : ℕ) → a ≤ n → a ≤ m → and_rounds n a b ≡ and_rounds m a b
and_rounds_enough zero zero a b p q = refl
and_rounds_enough (suc n) zero zero b p q = refl
and_rounds_enough zero (suc m) zero b p q = refl
and_rounds_enough (suc n) (suc m) zero b p q = refl
and_rounds_enough zero m (suc a) b p q = absurd (omega arith)
and_rounds_enough (suc n) zero (suc a) b p q = absurd (omega arith)
and_rounds_enough (suc n) (suc m) (suc a) b p q =
    omega (arith, and_rounds_enough n m (suc a / 2) (b / 2) (omega arith) (omega arith))

zero-bit_and : (b : ℕ) → bit_and 0 b ≡ 0
zero-bit_and b = bit_and-bitwise 0 b

bit_and_digit : (a b : ℕ) → bit_and a b ≡ bit_and (a / 2) (b / 2) * 2 + min (a % 2) (b % 2)
bit_and_digit zero b = omega (arith, zero-bit_and b, zero-bit_and (b / 2))
bit_and_digit (suc a) b = omega (
  arith,
  bit_and-bitwise (suc a) b,
  bit_and-bitwise (suc a / 2) (b / 2),
  and_rounds_enough a (suc a / 2) (suc a / 2) (b / 2) (omega arith) (omega arith),
)

pub bit_and-zero_below : (n a : ℕ) → a ≤ n → bit_and a 0 ≡ 0
bit_and-zero_below n zero h = zero-bit_and 0
bit_and-zero_below zero (suc a) h = absurd (omega arith)
bit_and-zero_below (suc n) (suc a) h =
    omega (arith, bit_and_digit (suc a) 0, bit_and-zero_below n (suc a / 2) (omega arith))

pub bit_and-one : (a : ℕ) → bit_and a 1 ≡ a % 2
bit_and-one a = omega (arith, bit_and_digit a 1, bit_and-zero_below (a / 2) (a / 2) (omega arith))

pub bit_and-three : (a : ℕ) → bit_and a 3 ≡ a % 4
bit_and-three a = omega (arith, bit_and_digit a 3, bit_and-one (a / 2))

pub bit_and-seven : (a : ℕ) → bit_and a 7 ≡ a % 8
bit_and-seven a = omega (arith, bit_and_digit a 7, bit_and-three (a / 2))

pub bit_and-fifteen : (a : ℕ) → bit_and a 15 ≡ a % 16
bit_and-fifteen a = omega (arith, bit_and_digit a 15, bit_and-seven (a / 2))

pub bit_and-mask5 : (a : ℕ) → bit_and a 0x1f ≡ a % 32
bit_and-mask5 a = omega (arith, bit_and_digit a 0x1f, bit_and-fifteen (a / 2))

shifted_byte : (x : ℕ) → x * 2 ^ 8 % 2 ^ 32 ≡ x % 2 ^ 24 * 2 ^ 8
shifted_byte x = omega arith

shifted_symbol : (x : ℕ) → x * 2 ^ 5 % 2 ^ 32 ≡ x % 2 ^ 27 * 2 ^ 5
shifted_symbol x = omega arith

-- The `u32` shifts of the two loops, with the digit put in.
pub shift_byte : (x b : ℕ) → b < 256 → bit_or (x * 2 ^ 8 % 2 ^ 32) b ≡ x % 2 ^ 24 * 256 + b
shift_byte x b h = ap (λ (t : ℕ). bit_or t b) (shifted_byte x) ∙ bit_or-shift 8 (x % 2 ^ 24) b h

pub shift_symbol : (x v : ℕ) → v < 32 → bit_or (x * 2 ^ 5 % 2 ^ 32) v ≡ x % 2 ^ 27 * 32 + v
shift_symbol x v h = ap (λ (t : ℕ). bit_or t v) (shifted_symbol x) ∙ bit_or-shift 5 (x % 2 ^ 27) v h
