-- ===== src/Frame/Flags.antt =====
-- The flag byte: the exact set of `flags_valid` against the rule that the module's comment states.
use spl_rust.Base.{
  ℕ, ◌+◌, ◌/◌, ◌%◌, ◌<◌, ◌≡◌, refl, arith, Bool, true, false, not, ◌&&◌, ◌||◌, ◌==◌, leb, bit_or,
}
use spl_rust.Base.Bits.{passes, passes_at}
use spl_rust.Frame.{flags_valid, has_flag, flag_open, flag_data, flag_close, flag_reserved_mask}

-- How many of the eight flag bits are set.
named : ℕ → ℕ
named f =
    f % 2 + f / 2 % 2 + f / 4 % 2 + f / 8 % 2 + f / 16 % 2 + f / 32 % 2 + f / 64 % 2 + f / 128 % 2

-- One of the seven flags, or one of the four legal compositions.
pub is_documented : ℕ → Bool
unfolding named
is_documented f =
    (named f == 1 && leb f 0x40)
    || f == bit_or flag_open flag_data
    || f == bit_or flag_data flag_close
    || f == bit_or flag_open flag_close
    || f == bit_or (bit_or flag_open flag_data) flag_close

bool_eq : Bool → Bool → Bool
bool_eq true b = b
bool_eq false b = not b

bool_eq_sound : (a b : Bool) → bool_eq a b ≡ true → a ≡ b
unfolding bool_eq
bool_eq_sound true true h = refl
bool_eq_sound true false h = cc
bool_eq_sound false true h = cc
bool_eq_sound false false h = refl

-- Over every flag byte, `flags_valid` accepts one of the seven flags or one of the four legal
-- compositions, and nothing else.
pub flags_valid-is_documented : (f : ℕ) → f < 256 → flags_valid f ≡ is_documented f
unfolding flags_valid is_documented bool_eq passes
flags_valid-is_documented f h =
    bool_eq_sound (flags_valid f) (is_documented f)
      (passes_at (λ x. bool_eq (flags_valid x) (is_documented x)) 256 h refl)

-- The reserved bit, as a comparison.
pub has_flag_reserved : (f : ℕ) → f < 256 → has_flag f flag_reserved_mask ≡ leb 128 f
unfolding has_flag bool_eq passes
has_flag_reserved f h =
    bool_eq_sound (has_flag f flag_reserved_mask) (leb 128 f)
      (passes_at (λ x. bool_eq (has_flag x flag_reserved_mask) (leb 128 x)) 256 h refl)

-- Every valid combination leaves the reserved bit clear.
pub flags_valid-unreserved : (f : ℕ) → flags_valid f ≡ true → has_flag f flag_reserved_mask ≡ false
flags_valid-unreserved f h = rw (has_flag_reserved f (small f h)) (low f h)
  where
    small : (f : ℕ) → flags_valid f ≡ true → f < 256
    small f h = unfold flags_valid in ground arith

    low : (f : ℕ) → flags_valid f ≡ true → leb 128 f ≡ false
    low f h = unfold flags_valid in ground arith
