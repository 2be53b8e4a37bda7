-- ===== src/Frame/Sound.antt =====
-- `next_frame` against `encode` of crates/spl-core/src/frame.rs, on a buffer of bytes.
use spl_rust.Base.{
  ℕ, ◌+◌, ◌*◌, ◌^◌, ◌≤◌, ◌<◌, ◌≡◌, sym, inl, inr, arith, List, [], ◌∷◌, ◌++◌, append_assoc, some,
  ok, length, drop, take-append-drop, drop-add, All,
}
use spl_rust.Frame.{
  Frame, FrameDecoder, header_bytes, header_stream_id, header_flags, header_length, max_payload,
  cut_frame, encode, next_frame,
}
use spl_rust.Frame.Wire.{length_bytes, next_frame_whole, encode-IsSendable}
use spl_rust.Frame.Decoder.{
  IsWhole, next_frame_partial, next_frame_reserved, decoder_cases, length-cut_frame,
}

abbrev pub IsByte : ℕ → Type 0
IsByte b = b < 256

-- The base-256 digits of a number built from bytes are those bytes.
header_bytes-digits :
    (a b c d e f g k : ℕ) (rest : List ℕ)
    → All IsByte (a ∷ b ∷ c ∷ d ∷ e ∷ f ∷ g ∷ k ∷ [])
    → header_bytes (((a * 256 + b) * 256 + c) * 256 + d) e ((f * 256 + g) * 256 + k) ++ rest
      ≡ a ∷ b ∷ c ∷ d ∷ e ∷ f ∷ g ∷ k ∷ rest
unfolding header_bytes
header_bytes-digits a b c d e f g k rest v = ground arith

-- The header fields of a buffer of bytes, written out again, are its first eight bytes.
pub header_bytes_again :
    (buf : List ℕ)
    → 8 ≤ length buf
    → All IsByte buf
    → (header_bytes (header_stream_id buf) (header_flags buf) (header_length buf) ++ drop 8 buf
        ≡ buf)
      × (header_length buf ≤ max_payload)
      × (header_stream_id buf < 2 ^ 32)
header_bytes_again [] h v = absurd (omega arith)
header_bytes_again (a ∷ []) h v = absurd (omega arith)
header_bytes_again (a ∷ b ∷ []) h v = absurd (omega arith)
header_bytes_again (a ∷ b ∷ c ∷ []) h v = absurd (omega arith)
header_bytes_again (a ∷ b ∷ c ∷ d ∷ []) h v = absurd (omega arith)
header_bytes_again (a ∷ b ∷ c ∷ d ∷ e ∷ []) h v = absurd (omega arith)
header_bytes_again (a ∷ b ∷ c ∷ d ∷ e ∷ f ∷ []) h v = absurd (omega arith)
header_bytes_again (a ∷ b ∷ c ∷ d ∷ e ∷ f ∷ g ∷ []) h v = absurd (omega arith)
header_bytes_again (a ∷ b ∷ c ∷ d ∷ e ∷ f ∷ g ∷ k ∷ rest) h v =
    let len : header_length (a ∷ b ∷ c ∷ d ∷ e ∷ f ∷ g ∷ k ∷ rest) ≡ (f * 256 + g) * 256 + k =
      unfold header_length in length_bytes f g k (omega arith) (omega arith) in
    rw len (
      unfold header_stream_id header_flags in
      (header_bytes-digits a b c d e f g k rest (omega arith), omega arith, omega arith))

abbrev Rebuilds : FrameDecoder → Frame → FrameDecoder → Type 0
Rebuilds d f d' =
    (bytes : List ℕ) × (encode f ≡ ok bytes) × (d.buf ≡ bytes ++ d'.buf) × (f.stream_id < 2 ^ 32)

cut_frame-Rebuilds :
    (d : FrameDecoder)
    → All IsByte d.buf
    → IsWhole d
    → Rebuilds d (cut_frame d (header_length d.buf)).0 (cut_frame d (header_length d.buf)).1
cut_frame-Rebuilds d v w =
    let (again, fits, id_fits) = header_bytes_again d.buf (omega (arith, w.0)) v in
    let taken = length-cut_frame d (header_length d.buf) w.0 in
    let f = (cut_frame d (header_length d.buf)).0 in
    (
      header_bytes f.stream_id f.flags (length f.payload) ++ f.payload,
      encode-IsSendable f (omega arith, unfold cut_frame in w.1),
      rw taken.0 (
          unfold cut_frame in
          rw (append_assoc, drop-add 8 (header_length d.buf) d.buf, take-append-drop) (sym again)),
      unfold cut_frame in id_fits,
    )

-- On a buffer of bytes, a frame that the decoder yields encodes to exactly the bytes that it took
-- from the buffer, and its stream id fits in 32 bits.
pub encode-next_frame :
    (d : FrameDecoder) {f : Frame} {d' : FrameDecoder}
    → All IsByte d.buf
    → next_frame d ≡ (ok (some f), d')
    → (bytes : List ℕ) × (encode f ≡ ok bytes) × (d.buf ≡ bytes ++ d'.buf) × (f.stream_id < 2 ^ 32)
encode-next_frame d {f} {d'} v e = elim (decoder_cases d) [
  | inl p ↦ cc (next_frame_partial d p)
  | inr (inl r) ↦ cc (next_frame_reserved d r)
  | inr (inr w) ↦
      let same_frame : (cut_frame d (header_length d.buf)).0 ≡ f =
        cc (next_frame_whole d w.0 w.1) in
      let same_rest : (cut_frame d (header_length d.buf)).1 ≡ d' =
        cc (next_frame_whole d w.0 w.1) in
      rw (← same_frame, ← same_rest) (cut_frame-Rebuilds d v w)
]
