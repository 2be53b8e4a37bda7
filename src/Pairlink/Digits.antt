-- ===== src/Pairlink/Digits.antt =====
-- The hexadecimal text of crates/spl-core/src/pairlink.rs.
use spl_rust.Base.{
  ℕ, zero, suc, ◌*◌, ◌/◌, ◌%◌, ◌≤◌, ◌<◌, ◌≡◌, ◌⊎◌, inl, inr, arith, List, [], ◌∷◌, lt→ltb, le→ltb,
  le_or_lt, length, take, drop, All,
}
use spl_rust.Frame.Sound.{IsByte}
use spl_rust.Pairlink.{lower_digit, hex_lower, slice}

-- `0` to `9`, or `a` to `f`.
abbrev pub IsHexDigit : ℕ → Type 0
IsHexDigit c = ((b'0' ≤ c) × (c ≤ b'9')) ⊎ ((b'a' ≤ c) × (c ≤ b'f'))

pub length-hex_lower : (bytes : List ℕ) → length (hex_lower bytes) ≡ 2 * length bytes
unfolding hex_lower
length-hex_lower [] = omega arith
length-hex_lower (b ∷ bs) = omega (arith, length-hex_lower bs)

lower_digit-IsHexDigit : (n : ℕ) → n < 16 → IsHexDigit (lower_digit n)
unfolding lower_digit
lower_digit-IsHexDigit n h = elim (le_or_lt 10 n) [
  | inl letter ↦ rw (le→ltb n 10 letter) (inr (omega arith, omega arith))
  | inr digit ↦ rw (lt→ltb n 10 digit) (inl (omega arith, omega arith))
]

pub hex_lower-IsHexDigit : (bytes : List ℕ) → All IsByte bytes → All IsHexDigit (hex_lower bytes)
unfolding hex_lower
hex_lower-IsHexDigit [] h = tt
hex_lower-IsHexDigit (b ∷ bs) h = (
  lower_digit-IsHexDigit (b / 16) (omega (arith, h.0)),
  (lower_digit-IsHexDigit (b % 16) (omega arith), hex_lower-IsHexDigit bs h.1),
)

All-take : (n : ℕ) (xs : List ℕ) → All IsByte xs → All IsByte (take n xs)
All-take zero xs h = tt
All-take (suc n) [] h = tt
All-take (suc n) (x ∷ xs) h = (h.0, All-take n xs h.1)

All-drop : (n : ℕ) (xs : List ℕ) → All IsByte xs → All IsByte (drop n xs)
All-drop zero xs h = h
All-drop (suc n) [] h = tt
All-drop (suc n) (x ∷ xs) h = All-drop n xs h.1

pub slice-IsByte :
    (blob : List ℕ) (start len : ℕ) → All IsByte blob → All IsByte (slice blob start len)
slice-IsByte blob start len h = All-take len (drop start blob) (All-drop start blob h)
