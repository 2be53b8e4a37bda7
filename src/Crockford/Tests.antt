-- ===== src/Crockford/Tests.antt =====
-- Runs of the base32 codec, and its theorem at concrete bytes.
use spl_rust.Base.{ℕ, arith, ◌≡◌, refl, List, [], ◌∷◌, ok}
use spl_rust.Crockford.RoundTrip.{decode-encode}
use spl_rust.Crockford.{
  ascii_uppercase, normalized, position_from, symbol_value, take_symbol, decode_symbols, decode,
  emit_symbols, encode_bytes, encode,
}

abbrev two_bytes : List ℕ
two_bytes = 0xff ∷ 0x01 ∷ []

round_trip_runs : decode (encode two_bytes) ≡ ok two_bytes
unfolding encode encode_bytes emit_symbols decode decode_symbols take_symbol symbol_value
    position_from normalized ascii_uppercase
round_trip_runs = refl

decode-encode_example : decode (encode two_bytes) ≡ ok two_bytes
decode-encode_example = decode-encode two_bytes (omega arith, (omega arith, tt))
