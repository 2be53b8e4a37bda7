-- ===== src/Frame/Stream.antt =====
-- Frames written one after the other, and read back over any transport.
use spl_rust.Base.{
  ℕ, zero, suc, ◌^◌, ◌<◌, ◌≡◌, ap, ◌∙◌, inl, inr, arith, List, [], ◌∷◌, ◌++◌, flatten, append-nil,
  append_assoc, ok, length, length-append,
}
use spl_rust.Frame.{Frame, new_decoder, feed, encode, drain_loop, drain}
use spl_rust.Frame.Wire.{encode_split, next_frame-encode}
use spl_rust.Frame.Decoder.{next_frame_partial, drain_loop-none, drain_loop-some}
use spl_rust.Frame.Reframe.{feed_chunks, feed_chunks-drain}

-- `bytes` is what a writer sends for the frames `fs`: their encodings in order.
abbrev pub Encodes : List Frame → List ℕ → Type 0
Encodes [] bytes = bytes ≡ []
Encodes (f ∷ fs) bytes =
    (b : List ℕ) × (rest : List ℕ) × (f.stream_id < 2 ^ 32)
    × (encode f ≡ ok b)
    × (bytes ≡ b ++ rest)
    × Encodes fs rest

length-encode : (f : Frame) {b : List ℕ} → encode f ≡ ok b → 0 < length b
length-encode f e = elim (encode_split f) [
  | inl (_, r) ↦ cc
  | inr (inl (_, _, r)) ↦ cc
  | inr (inr (_, (b', r, n))) ↦ ground arith
]

drain_loop-Encodes :
    (n : ℕ) (fs out : List Frame) (bytes : List ℕ)
    → Encodes fs bytes
    → length bytes < n
    → drain_loop n (record { buf = bytes }) out ≡ (ok (out ++ fs), new_decoder)
drain_loop-Encodes zero fs out bytes v h = elim h [ ]
drain_loop-Encodes (suc n) [] out bytes v h =
    rw (v, append-nil)
      (drain_loop-none n new_decoder out (next_frame_partial new_decoder (inl (omega arith))))
drain_loop-Encodes (suc n) (f ∷ fs) out bytes (b, rest, fits, e, eq, v) h =
    rw (eq, drain_loop-some n (record { buf = b ++ rest }) out (next_frame-encode f rest fits e))
      (drain_loop-Encodes n fs (out ++ f ∷ []) rest v
          (omega (arith, ap length eq, length-append b rest, length-encode f e))
        ∙ rw append_assoc)

-- The encodings of a list of frames with 32-bit stream ids, cut anywhere into chunks of any sizes,
-- make the streaming decoder return exactly those frames.
pub feed_chunks-Encodes :
    (fs : List Frame) (chunks : List (List ℕ))
    → Encodes fs (flatten chunks)
    → (feed_chunks new_decoder chunks).0 ≡ ok fs
unfolding drain feed
feed_chunks-Encodes fs chunks v =
    feed_chunks-drain new_decoder chunks (next_frame_partial new_decoder (inl (omega arith)))
    ∙ rw (drain_loop-Encodes (suc (length (flatten chunks))) fs [] (flatten chunks) v (omega arith))
