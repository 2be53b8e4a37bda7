-- ===== src/Crockford.antt =====
-- crates/spl-core/src/crockford.rs: the base32 text of pair links. A character is its code, and the
-- bit buffer, a `u32`, keeps its wrap-around.
mod Symbols
pub mod RoundTrip
mod Tests
use spl_rust.Base.{
  ℕ, zero, suc, ◌+◌, ◌-◌, ◌*◌, ◌/◌, ◌%◌, ◌^◌, ◌<◌, ◌≡◌, refl, arith, bit_and, bit_or, Bool, true,
  false, not, ◌&&◌, ◌||◌, List, [], ◌∷◌, ◌++◌, Option, none, some, Result, ok, err, ltb, leb, ◌==◌,
  length, get_or, if◌then◌else◌, ==_iff,
}
use spl_rust.Base.Bits.{passes, passes_at}

abbrev pub alphabet : List ℕ
alphabet =
    48 ∷ 49 ∷ 50 ∷ 51 ∷ 52 ∷ 53 ∷ 54 ∷ 55 ∷ 56 ∷ 57 ∷ 65 ∷ 66 ∷ 67 ∷ 68 ∷ 69 ∷ 70 ∷ 71 ∷ 72 ∷ 74
    ∷ 75 ∷ 77 ∷ 78 ∷ 80 ∷ 81 ∷ 82 ∷ 83 ∷ 84 ∷ 86 ∷ 87 ∷ 88 ∷ 89 ∷ 90 ∷ []

pub data CrockfordError : Type 0 where
  invalid_symbol : ℕ → CrockfordError
  non_zero_padding : CrockfordError

unfoldable pub ascii_uppercase : ℕ → ℕ
ascii_uppercase c = if leb 97 c && leb c 122 then c - 32 else c

-- `I` and `L` read as `1`, `O` as `0`.
unfoldable pub normalized : ℕ → ℕ
normalized upper = if upper == 73 || upper == 76 then 49 else if upper == 79 then 48 else upper

-- `position` of a character in a list that starts at `index`.
unfoldable pub position_from : ℕ → ℕ → List ℕ → Option ℕ
position_from index c [] = none
position_from index c (a ∷ rest) =
    let later = position_from (suc index) c rest in if a == c then some index else later

unfoldable pub symbol_value : ℕ → Result CrockfordError ℕ
symbol_value c = elim (position_from 0 (normalized (ascii_uppercase c)) alphabet) [
  | some p ↦ ok (p % 256)
  | none ↦ err (invalid_symbol c)
]

-- What `decode` holds between two characters.
pub record DecodeState : Type 0 where
  pub out : List ℕ
  pub buffer : ℕ
  pub bits : ℕ

abbrev pub new_decode : DecodeState
new_decode = record { out = []; buffer = 0; bits = 0 }

unfoldable pub take_symbol : DecodeState → ℕ → DecodeState
take_symbol s value =
    let buffer = bit_or (s.buffer * 2 ^ 5 % 2 ^ 32) value in
    let bits = s.bits + 5 in
    if leb 8 bits
    then record {
      out = s.out ++ (buffer / 2 ^ (bits - 8) % 256) ∷ [];
      buffer = buffer;
      bits = bits - 8;
    }
    else record { out = s.out; buffer = buffer; bits = bits }

unfoldable pub decode_symbols : DecodeState → List ℕ → Result CrockfordError DecodeState
decode_symbols s [] = ok s
decode_symbols s (c ∷ cs) = if c == 45 then decode_symbols s cs else elim (symbol_value c) [
  | ok value ↦ decode_symbols (take_symbol s value) cs
  | err e ↦ err e
]

unfoldable pub decode : List ℕ → Result CrockfordError (List ℕ)
decode input = elim (decode_symbols new_decode input) [
  | err e ↦ err e
  | ok s ↦
      if ltb 0 s.bits && not (bit_and s.buffer (2 ^ s.bits - 1) == 0)
      then err non_zero_padding
      else ok s.out
]

-- The inner loop of `encode`: each round takes five bits, so `bits` rounds are enough.
unfoldable pub emit_symbols : ℕ → ℕ → ℕ → List ℕ → List ℕ × ℕ
emit_symbols zero buffer bits out = (out, bits)
emit_symbols (suc fuel) buffer bits out =
    let rest =
      emit_symbols fuel buffer (bits - 5)
        (out ++ get_or alphabet (bit_and (buffer / 2 ^ (bits - 5)) 0x1f) 0 ∷ []) in
    if leb 5 bits then rest else (out, bits)

unfoldable pub encode_bytes : List ℕ → ℕ → ℕ → List ℕ → List ℕ
encode_bytes [] buffer bits out =
    if ltb 0 bits
    then out ++ get_or alphabet (bit_and (buffer * 2 ^ (5 - bits) % 2 ^ 32) 0x1f) 0 ∷ []
    else out
encode_bytes (b ∷ bs) buffer bits out =
    let buffer' = bit_or (buffer * 2 ^ 8 % 2 ^ 32) b in
    let (out', bits') = emit_symbols (bits + 8) buffer' (bits + 8) out in
    encode_bytes bs buffer' bits' out'

unfoldable pub encode : List ℕ → List ℕ
encode bytes = encode_bytes bytes 0 0 []

-- The answer is the value `v`.
unfoldable pub reads_as : Result CrockfordError ℕ → ℕ → Bool
reads_as (ok w) v = w == v
reads_as (err e) v = false

-- Each of the 32 symbols that `encode` writes is read back as its value, in either case of a
-- letter.
pub symbol_value-alphabet :
    (v : ℕ)
    → v < 32
    → (reads_as (symbol_value (get_or alphabet v 0)) v ≡ true)
      × (reads_as (symbol_value (get_or alphabet v 0 + (if ltb v 10 then 0 else 32))) v ≡ true)
unfolding passes symbol_value position_from normalized ascii_uppercase reads_as
symbol_value-alphabet v h = (
  passes_at (λ x. reads_as (symbol_value (get_or alphabet x 0)) x) 32 h refl,
  passes_at (λ x. reads_as (symbol_value (get_or alphabet x 0 + (if ltb x 10 then 0 else 32))) x) 32
      h refl,
)
