-- ===== src/Base/Bits.antt =====
-- Bit operations as arithmetic: tables over one byte, and `|` of a shifted number with a lower one.
use Prim.Native.Nat.{
  ℕ, zero, suc, ◌+◌, ◌*◌, ◌/◌, ◌%◌, ◌^◌, ◌≤◌, ◌<◌, max, bit_or, digits, bit_or-bitwise,
}
use mathlib.Core.Path.{◌≡◌, refl, ap}
use mathlib.Core.Bool.{Bool, true, ◌&&◌}
use native.Mathlib.Omega.{arith}
use native.Mathlib.Nat.{pow-suc}

-- A test that holds of every number under a bound, found by running it on each.
unfoldable pub passes : (ℕ → Bool) → ℕ → Bool
passes test zero = true
passes test (suc bound) = passes test bound && test bound

pub passes_at :
    (test : ℕ → Bool) (bound : ℕ) {n : ℕ} → n < bound → passes test bound ≡ true → test n ≡ true
unfolding passes
passes_at test zero below all = absurd (omega arith)
passes_at test (suc bound) {n} below all = ground (arith, passes_at test bound {n = n})

abbrev or_rounds : ℕ → ℕ → ℕ → ℕ
or_rounds n a b = digits (λ y. y) max n a b

-- Rounds past the last digit of `a` change nothing.
or_rounds_enough : (n m a b : ℕ) → a ≤ n → a ≤ m → or_rounds n a b ≡ or_rounds m a b
or_rounds_enough zero zero a b p q = refl
or_rounds_enough (suc n) zero zero b p q = refl
or_rounds_enough zero (suc m) zero b p q = refl
or_rounds_enough (suc n) (suc m) zero b p q = refl
or_rounds_enough zero m (suc a) b p q = absurd (omega arith)
or_rounds_enough (suc n) zero (suc a) b p q = absurd (omega arith)
or_rounds_enough (suc n) (suc m) (suc a) b p q =
    omega (arith, or_rounds_enough n m (suc a / 2) (b / 2) (omega arith) (omega arith))

zero-bit_or : (b : ℕ) → bit_or 0 b ≡ b
zero-bit_or b = bit_or-bitwise 0 b

bit_or_digit : (a b : ℕ) → bit_or a b ≡ bit_or (a / 2) (b / 2) * 2 + max (a % 2) (b % 2)
bit_or_digit zero b = omega (arith, zero-bit_or b, zero-bit_or (b / 2))
bit_or_digit (suc a) b = omega (
  arith,
  bit_or-bitwise (suc a) b,
  bit_or-bitwise (suc a / 2) (b / 2),
  or_rounds_enough a (suc a / 2) (suc a / 2) (b / 2) (omega arith) (omega arith),
)

bit_or-zero_below : (n a : ℕ) → a ≤ n → bit_or a 0 ≡ a
bit_or-zero_below n zero h = refl
bit_or-zero_below zero (suc a) h = absurd (omega arith)
bit_or-zero_below (suc n) (suc a) h =
    omega (arith, bit_or_digit (suc a) 0, bit_or-zero_below n (suc a / 2) (omega arith))

double_shift : (q k : ℕ) → q * 2 ^ suc k ≡ 2 * (q * 2 ^ k)
double_shift q k = omega (arith, ap (λ (t : ℕ). q * t) (pow-suc 2 k))

-- `(q << k) | r` is a sum when `r` fits `k` bits.
pub bit_or-shift : (k q r : ℕ) → r < 2 ^ k → bit_or (q * 2 ^ k) r ≡ q * 2 ^ k + r
bit_or-shift zero q r h = ground (arith, bit_or-zero_below q q (omega arith))
bit_or-shift (suc k) q r h = ground (
  arith,
  pow-suc 2 k,
  double_shift q k,
  bit_or_digit (q * 2 ^ suc k) r,
  bit_or-shift k q (r / 2) (omega (arith, pow-suc 2 k)),
)
