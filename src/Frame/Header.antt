-- ===== src/Frame/Header.antt =====
-- `encode` of crates/spl-core/src/frame.rs against the layout of a frame on the wire, read as base-256
-- numbers.
use spl_rust.Base.{
  ℕ, ◌+◌, ◌*◌, ◌^◌, ◌≤◌, ◌<◌, ◌≡◌, refl, ◌⊎◌, inl, inr, arith, true, false, List, [], ◌∷◌, ◌++◌, ok,
  err, length, take, drop, All,
}
use spl_rust.Frame.{
  Frame, payload_too_large, reserved_flag, flag_reserved_mask, has_flag, header_bytes, encode,
}
use spl_rust.Frame.Flags.{has_flag_reserved}
use spl_rust.Frame.Sound.{IsByte}
use spl_rust.Frame.Wire.{encode_split, encode-IsSendable}

-- The number whose base-256 digits are these, the highest first.
big_endian_on : ℕ → List ℕ → ℕ
big_endian_on n [] = n
big_endian_on n (b ∷ bs) = big_endian_on (n * 256 + b) bs

pub big_endian : List ℕ → ℕ
unfolding big_endian_on
big_endian bytes = big_endian_on 0 bytes

-- The layout of a frame: four bytes of stream id, the flags, three bytes of length, the payload.
pub record IsLaidOut (f : Frame) (bytes : List ℕ) : Type 0 where
  pub id_digits : All IsByte (take 4 bytes)
  pub id : big_endian (take 4 bytes) ≡ f.stream_id
  pub flags : take 1 (drop 4 bytes) ≡ f.flags ∷ []
  pub length_digits : All IsByte (take 3 (drop 5 bytes))
  pub length_field : big_endian (take 3 (drop 5 bytes)) ≡ length f.payload
  pub payload : drop 8 bytes ≡ f.payload

header_bytes-IsLaidOut :
    (f : Frame)
    → f.stream_id < 2 ^ 32
    → length f.payload < 2 ^ 24
    → IsLaidOut f (header_bytes f.stream_id f.flags (length f.payload) ++ f.payload)
unfolding header_bytes big_endian
header_bytes-IsLaidOut f hs hl = record {
  id_digits = omega arith;
  id = omega arith;
  flags = refl;
  length_digits = omega arith;
  length_field = omega arith;
  payload = refl;
}

-- On a frame with a 32-bit stream id and a flag byte, `encode` refuses a payload of 2^24 bytes or
-- more and names its length; else it refuses flags from 0x80 on and names them; any other frame
-- becomes four bytes that are its id in base 256, its flags, three bytes that are its payload's
-- length in base 256, and its payload.
pub encode_cases :
    (f : Frame)
    → f.stream_id < 2 ^ 32
    → f.flags < 256
    → ((2 ^ 24 ≤ length f.payload) × (encode f ≡ err (payload_too_large (length f.payload))))
      ⊎ ((length f.payload < 2 ^ 24) × (0x80 ≤ f.flags) × (encode f ≡ err (reserved_flag f.flags)))
      ⊎ ((length f.payload < 2 ^ 24)
          × (f.flags < 0x80)
          × (bytes : List ℕ) × (encode f ≡ ok bytes)
          × IsLaidOut f bytes)
encode_cases f hs hf = elim (encode_split f) [
  | inl (long, e) ↦ inl (omega arith, e)
  | inr (inl (fits, high, e)) ↦ inr (inl (omega arith, reserved high, e))
  | inr (inr (v, _)) ↦ inr (
      inr (
        omega (arith, v.0),
        free v.1,
        _,
        encode-IsSendable f v,
        header_bytes-IsLaidOut f hs (omega (arith, v.0)),
      ))
]
  where
    reserved : has_flag f.flags flag_reserved_mask ≡ true → 0x80 ≤ f.flags
    reserved h = ground (arith, has_flag_reserved f.flags hf)

    free : has_flag f.flags flag_reserved_mask ≡ false → f.flags < 0x80
    free h = ground (arith, has_flag_reserved f.flags hf)
