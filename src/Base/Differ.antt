-- ===== src/Base/Differ.antt =====
-- `|` and `^` of native numbers, against zero.
use Prim.Native.Nat.{
  ℕ, zero, suc, ◌/◌, ◌%◌, ◌≤◌, max, bit_or, bit_xor, digits, differ, bit_or-bitwise,
  bit_xor-bitwise,
}
use mathlib.Core.Path.{◌≡◌, refl, ap}
use native.Mathlib.Omega.{arith}

differ-zero : (x y : ℕ) → differ x y ≡ 0 → x ≡ y
differ-zero zero zero h = refl
differ-zero zero (suc y) h = absurd (omega arith)
differ-zero (suc x) zero h = absurd (omega arith)
differ-zero (suc x) (suc y) h = ap suc (differ-zero x y h)

differ_same : (x : ℕ) → differ x x ≡ 0
differ_same zero = refl
differ_same (suc x) = differ_same x

abbrev xor_rounds : ℕ → ℕ → ℕ → ℕ
xor_rounds n a b = digits (λ y. y) differ n a b

xor_rounds-zero : (n a b : ℕ) → a ≤ n → xor_rounds n a b ≡ 0 → a ≡ b
xor_rounds-zero zero zero b p h = omega arith
xor_rounds-zero zero (suc a) b p h = absurd (omega arith)
xor_rounds-zero (suc n) zero b p h = omega arith
xor_rounds-zero (suc n) (suc a) b p h = omega (
  arith,
  xor_rounds-zero n (suc a / 2) (b / 2) (omega arith) (omega arith),
  differ-zero (suc a % 2) (b % 2) (omega arith),
)

xor_rounds_same : (n a : ℕ) → a ≤ n → xor_rounds n a a ≡ 0
xor_rounds_same zero zero p = refl
xor_rounds_same zero (suc a) p = absurd (omega arith)
xor_rounds_same (suc n) zero p = refl
xor_rounds_same (suc n) (suc a) p =
    omega (arith, xor_rounds_same n (suc a / 2) (omega arith), differ_same (suc a % 2))

pub bit_xor-zero : (a b : ℕ) → bit_xor a b ≡ 0 → a ≡ b
bit_xor-zero a b h = xor_rounds-zero a a b (omega arith) (omega (arith, h, bit_xor-bitwise a b))

pub bit_xor_same : (a : ℕ) → bit_xor a a ≡ 0
bit_xor_same a = omega (arith, bit_xor-bitwise a a, xor_rounds_same a a (omega arith))

abbrev either_rounds : ℕ → ℕ → ℕ → ℕ
either_rounds n a b = digits (λ y. y) max n a b

either_rounds-zero : (n a b : ℕ) → a ≤ n → either_rounds n a b ≡ 0 → (a ≡ 0) × (b ≡ 0)
either_rounds-zero zero zero b p h = (refl, h)
either_rounds-zero zero (suc a) b p h = absurd (omega arith)
either_rounds-zero (suc n) zero b p h = (refl, h)
either_rounds-zero (suc n) (suc a) b p h =
    absurd (omega (arith, either_rounds-zero n (suc a / 2) (b / 2) (omega arith) (omega arith)))

pub bit_or-zero : (a b : ℕ) → bit_or a b ≡ 0 → (a ≡ 0) × (b ≡ 0)
bit_or-zero a b h = either_rounds-zero a a b (omega arith) (omega (arith, h, bit_or-bitwise a b))
