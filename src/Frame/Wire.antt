-- ===== src/Frame/Wire.antt =====
-- The encoding of a frame and of the four-byte numbers, and the decoder on an encoded frame.
use spl_rust.Base.{
  ℕ, suc, ◌+◌, ◌*◌, ◌/◌, ◌%◌, ◌^◌, ◌≤◌, ◌<◌, bit_or, ◌≡◌, ◌∙◌, ◌⊎◌, inl, inr, Bool-cases, arith,
  true, false, List, ◌++◌, some, ok, err, ltb, le→ltb, length, length-append, drop,
  take-length-append, drop-length-append, append_assoc,
}
use spl_rust.Base.Bits.{bit_or-shift}
use spl_rust.Frame.{
  Frame, FrameDecoder, payload_too_large, reserved_flag, max_payload, flag_reserved_mask, has_flag,
  from_be_bytes, header_bytes, header_stream_id, header_flags, header_length, encode, cut_frame,
  next_frame,
}

pub from_be_bytes-to_be_bytes :
    (n : ℕ)
    → n < 2 ^ 32
    → from_be_bytes (n / 2 ^ 24 % 256) (n / 2 ^ 16 % 256) (n / 2 ^ 8 % 256) (n % 256) ≡ n
unfolding from_be_bytes
from_be_bytes-to_be_bytes n h = omega arith

-- Three length bytes joined by shifts and `|` are a base-256 number.
pub length_bytes :
    (a b c : ℕ)
    → b < 256
    → c < 256
    → bit_or (bit_or (a * 2 ^ 16) (b * 2 ^ 8)) c ≡ (a * 256 + b) * 256 + c
length_bytes a b c hb hc =
    let high : bit_or (a * 2 ^ 16) (b * 2 ^ 8) ≡ (a * 256 + b) * 2 ^ 8 =
      omega (arith, bit_or-shift 16 a (b * 2 ^ 8) (omega arith)) in
    rw high (bit_or-shift 8 (a * 256 + b) c hc)

pub header_stream_id-header_bytes :
    (stream_id flags len : ℕ) (rest : List ℕ)
    → stream_id < 2 ^ 32
    → header_stream_id (header_bytes stream_id flags len ++ rest) ≡ stream_id
unfolding header_stream_id header_bytes
header_stream_id-header_bytes stream_id flags len rest h = from_be_bytes-to_be_bytes stream_id h

pub header_length-header_bytes :
    (stream_id flags len : ℕ) (rest : List ℕ)
    → len ≤ max_payload
    → header_length (header_bytes stream_id flags len ++ rest) ≡ len
unfolding header_length header_bytes
header_length-header_bytes stream_id flags len rest h =
    length_bytes (len / 2 ^ 16 % 256) (len / 2 ^ 8 % 256) (len % 256) (omega arith) (omega arith)
    ∙ omega arith

drop-eight :
    (stream_id flags len n : ℕ) (rest : List ℕ)
    → drop (8 + n) (header_bytes stream_id flags len ++ rest) ≡ drop n rest
unfolding header_bytes
drop-eight stream_id flags len n rest = rw eight_add
  where
    eight_add : 8 + n ≡ suc (suc (suc (suc (suc (suc (suc (suc n)))))))
    eight_add = omega arith

-- With a whole frame in the buffer the decoder cuts it off.
pub next_frame_whole :
    (d : FrameDecoder)
    → 8 + header_length d.buf ≤ length d.buf
    → has_flag (header_flags d.buf) flag_reserved_mask ≡ false
    → next_frame d
      ≡ (ok (some (cut_frame d (header_length d.buf)).0), (cut_frame d (header_length d.buf)).1)
unfolding next_frame
next_frame_whole d h hf = rw (le→ltb (length d.buf) 8 (omega arith), hf, le→ltb _ _ h)

abbrev wire : Frame → List ℕ → FrameDecoder
wire f rest = record {
  buf = header_bytes f.stream_id f.flags (length f.payload) ++ (f.payload ++ rest);
}

length-wire : (f : Frame) (rest : List ℕ) → 8 + length f.payload ≤ length (wire f rest).buf
unfolding header_bytes
length-wire f rest = omega (arith, length-append f.payload rest)

cut_frame-wire :
    (f : Frame) (rest : List ℕ)
    → f.stream_id < 2 ^ 32
    → cut_frame (wire f rest) (length f.payload) ≡ (f, record { buf = rest })
unfolding cut_frame header_flags
cut_frame-wire f rest hs =
    rw
      (
        header_stream_id-header_bytes f.stream_id f.flags (length f.payload) (f.payload ++ rest) hs,
        drop-eight f.stream_id f.flags (length f.payload) (length f.payload) (f.payload ++ rest),
      )
      (unfold header_bytes in rw (take-length-append, drop-length-append))

-- The decoder cuts an encoded frame off the front of its buffer and keeps what follows.
pub next_frame-header_bytes :
    (f : Frame) (rest : List ℕ)
    → f.stream_id < 2 ^ 32
    → length f.payload ≤ max_payload
    → has_flag f.flags flag_reserved_mask ≡ false
    → next_frame (wire f rest) ≡ (ok (some f), record { buf = rest })
next_frame-header_bytes f rest hs hl hf =
    next_frame_whole (wire f rest) (omega (arith, len, length-wire f rest))
      (unfold header_flags header_bytes in hf)
    ∙ rw (len, cut_frame-wire f rest hs)
  where
    len : header_length (wire f rest).buf ≡ length f.payload
    len = header_length-header_bytes f.stream_id f.flags (length f.payload) _ hl

-- What the wire can carry: a length of three bytes, and no reserved flag.
abbrev pub IsSendable : Frame → Type 0
IsSendable f = (length f.payload ≤ max_payload) × (has_flag f.flags flag_reserved_mask ≡ false)

-- `encode` succeeds on such a frame with a header that carries its length.
pub encode-IsSendable :
    (f : Frame)
    → IsSendable f
    → encode f ≡ ok (header_bytes f.stream_id f.flags (length f.payload) ++ f.payload)
unfolding encode
encode-IsSendable f v = rw (le→ltb max_payload _ v.0, v.1, wraps)
  where
    wraps : length f.payload % 2 ^ 32 ≡ length f.payload
    wraps = omega (arith, v.0)

pub length-header_bytes :
    (stream_id flags len : ℕ) (rest : List ℕ)
    → length (header_bytes stream_id flags len ++ rest) ≡ 8 + length rest
unfolding header_bytes
length-header_bytes stream_id flags len rest = omega arith

pub encode_split :
    (f : Frame)
    → ((max_payload < length f.payload) × (encode f ≡ err (payload_too_large (length f.payload))))
      ⊎ ((length f.payload ≤ max_payload)
          × (has_flag f.flags flag_reserved_mask ≡ true)
          × (encode f ≡ err (reserved_flag f.flags)))
      ⊎ (IsSendable f
          × ((bytes : List ℕ) × (encode f ≡ ok bytes) × (length bytes ≡ 8 + length f.payload)))
encode_split f = elim (Bool-cases (ltb max_payload (length f.payload))) [
  | inl long ↦ inl (ground arith, unfold encode in rw long)
  | inr fits ↦ elim (Bool-cases (has_flag f.flags flag_reserved_mask)) [
    | inl reserved ↦ inr (inl (ground arith, reserved, unfold encode in rw (fits, reserved)))
    | inr free ↦
        let v : IsSendable f = (ground arith, free) in
        inr (inr (v, (_, encode-IsSendable f v, length-header_bytes f.stream_id f.flags _ _)))
  ]
]

pub encode-ok :
    (f : Frame) {bytes : List ℕ}
    → encode f ≡ ok bytes
    → IsSendable f × (bytes ≡ header_bytes f.stream_id f.flags (length f.payload) ++ f.payload)
encode-ok f e = elim (encode_split f) [
  | inl (_, r) ↦ cc
  | inr (inl (_, _, r)) ↦ cc
  | inr (inr (v, _)) ↦ (v, cc (encode-IsSendable f v))
]

-- An encoded frame with a 32-bit stream id, followed by any bytes, is decoded to that frame, and
-- the bytes that follow stay in the buffer.
pub next_frame-encode :
    (f : Frame) (rest : List ℕ) {bytes : List ℕ}
    → f.stream_id < 2 ^ 32
    → encode f ≡ ok bytes
    → next_frame (record { buf = bytes ++ rest }) ≡ (ok (some f), record { buf = rest })
next_frame-encode f rest hs e =
    let (v, shape) = encode-ok f e in
    rw (shape, append_assoc) (next_frame-header_bytes f rest hs v.0 v.1)
