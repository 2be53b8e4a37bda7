-- ===== src/Frame/Decoder.antt =====
-- `next_frame` and `drain` on any buffer: what they take, what they leave, and when they stop.
use spl_rust.Base.{
  ℕ, zero, suc, ◌+◌, ◌≤◌, ◌<◌, ◌≡◌, ◌⊎◌, inl, inr, arith, Bool-cases, true, false, List, [], ◌∷◌,
  ◌++◌, none, some, Result, ok, err, ltb, lt→ltb, le→ltb, length, drop, length-take, length-drop,
}
use spl_rust.Frame.{
  Frame, FrameError, FrameDecoder, reserved_flag, flag_reserved_mask, has_flag, header_flags,
  header_length, cut_frame, next_frame, drain_loop, drain,
}
use spl_rust.Frame.Wire.{next_frame_whole}

-- The header is not whole, or it is and the payload is not.
abbrev pub IsPartial : FrameDecoder → Type 0
IsPartial d =
    (length d.buf < 8)
    ⊎ ((has_flag (header_flags d.buf) flag_reserved_mask ≡ false)
        × (length d.buf < 8 + header_length d.buf))

abbrev pub IsReserved : FrameDecoder → Type 0
IsReserved d = (8 ≤ length d.buf) × (has_flag (header_flags d.buf) flag_reserved_mask ≡ true)

abbrev pub IsWhole : FrameDecoder → Type 0
IsWhole d =
    (8 + header_length d.buf ≤ length d.buf)
    × (has_flag (header_flags d.buf) flag_reserved_mask ≡ false)

pub next_frame_partial : (d : FrameDecoder) → IsPartial d → next_frame d ≡ (ok none, d)
unfolding next_frame
next_frame_partial d (inl h) = rw (lt→ltb _ _ h)
next_frame_partial d (inr (hf, h)) = elim (Bool-cases (ltb (length d.buf) 8)) [
  | inl short ↦ rw short
  | inr long ↦ rw (long, hf, lt→ltb _ _ h)
]

pub next_frame_reserved :
    (d : FrameDecoder) → IsReserved d → next_frame d ≡ (err (reserved_flag (header_flags d.buf)), d)
unfolding next_frame
next_frame_reserved d (h, hf) = rw (le→ltb _ 8 h, hf)

pub decoder_cases : (d : FrameDecoder) → IsPartial d ⊎ IsReserved d ⊎ IsWhole d
decoder_cases d = elim (Bool-cases (has_flag (header_flags d.buf) flag_reserved_mask)) [
  | inl reserved ↦ elim (Bool-cases (ltb (length d.buf) 8)) [
    | inl short ↦ inl (inl (ground arith))
    | inr long ↦ inr (inl (ground arith, reserved))
  ]
  | inr free ↦ elim (Bool-cases (ltb (length d.buf) (8 + header_length d.buf))) [
    | inl short ↦ inl (inr (free, ground arith))
    | inr long ↦ inr (inr (ground arith, free))
  ]
]

pub length-cut_frame :
    (d : FrameDecoder) (len : ℕ)
    → 8 + len ≤ length d.buf
    → let (f, d') = cut_frame d len in
      (length f.payload ≡ len) × (length d.buf ≡ 8 + length f.payload + length d'.buf)
unfolding cut_frame
length-cut_frame d len h =
    omega (arith, length-take len (drop 8 d.buf), length-drop 8 d.buf, length-drop (8 + len) d.buf)

-- A decoder waits, or is stopped by a reserved flag, with its buffer untouched; or it yields a
-- frame and takes exactly the header and the payload from the buffer.
pub next_frame_cases :
    (d : FrameDecoder)
    → (IsPartial d × (next_frame d ≡ (ok none, d)))
      ⊎ (IsReserved d × (next_frame d ≡ (err (reserved_flag (header_flags d.buf)), d)))
      ⊎ ((f : Frame) × (d' : FrameDecoder) × (next_frame d ≡ (ok (some f), d'))
          × (length d.buf ≡ 8 + length f.payload + length d'.buf))
next_frame_cases d = elim (decoder_cases d) [
  | inl p ↦ inl (p, next_frame_partial d p)
  | inr (inl r) ↦ inr (inl (r, next_frame_reserved d r))
  | inr (inr (h, free)) ↦
      inr (inr (_, _, next_frame_whole d h free, (length-cut_frame d (header_length d.buf) h).1))
]

-- `drain` stops only where `next_frame` has nothing more to give: it returns the frames with a
-- decoder that waits, or the error that the decoder it leaves keeps giving.
abbrev pub IsDrained : Result FrameError (List Frame) × FrameDecoder → Type 0
IsDrained (ok _, d) = next_frame d ≡ (ok none, d)
IsDrained (err e, d) = next_frame d ≡ (err e, d)

module _ (n : ℕ) (d : FrameDecoder) (out : List Frame) where
  pub drain_loop-none :
      {d' : FrameDecoder} → next_frame d ≡ (ok none, d') → drain_loop (suc n) d out ≡ (ok out, d')
  unfolding drain_loop
  drain_loop-none e = ground arith

  pub drain_loop-some :
      {f : Frame} {d' : FrameDecoder}
      → next_frame d ≡ (ok (some f), d')
      → drain_loop (suc n) d out ≡ drain_loop n d' (out ++ f ∷ [])
  unfolding drain_loop
  drain_loop-some e = ground arith

  pub drain_loop_err :
      {x : FrameError} {d' : FrameDecoder}
      → next_frame d ≡ (err x, d')
      → drain_loop (suc n) d out ≡ (err x, d')
  unfolding drain_loop
  drain_loop_err e = ground arith

drain_loop-IsDrained :
    (n : ℕ) (d : FrameDecoder) (out : List Frame)
    → length d.buf < n
    → IsDrained (drain_loop n d out)
drain_loop-IsDrained zero d out h = elim h [ ]
drain_loop-IsDrained (suc n) d out h = elim (next_frame_cases d) [
  | inl (_, e) ↦ rw (drain_loop-none n d out e) e
  | inr (inl (_, e)) ↦ rw (drain_loop_err n d out e) e
  | inr (inr (f, d', e, taken)) ↦
      rw (drain_loop-some n d out e) (drain_loop-IsDrained n d' (out ++ f ∷ []) (omega arith))
]

-- On any buffer `drain` runs to its end: it returns frames with a decoder that waits, or the error
-- that the decoder it leaves keeps giving.
pub drain-IsDrained : (d : FrameDecoder) → IsDrained (drain d)
unfolding drain
drain-IsDrained d = drain_loop-IsDrained (suc (length d.buf)) d [] (omega arith)
