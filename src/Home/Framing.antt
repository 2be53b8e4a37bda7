-- ===== src/Home/Framing.antt =====
-- How `feed` of crates/spl-home/src/mux.rs cuts the carrier's bytes into frames: what is buffered
-- between two bytes, and the ways a call may end.
use spl_rust.Base.{
  ℕ, suc, ◌+◌, ◌≤◌, ◌<◌, ◌≡◌, refl, ap, ◌⊎◌, inl, inr, arith, false, List, [], ◌∷◌, Option, none,
  some, ok, err, Result-cases, length, All,
}
use spl_rust.Base.Maybe.{checked_sub}
use spl_rust.Frame.{
  Frame, FrameDecoder, FrameViolation, header_len, max_payload, flag_reserved_mask, has_flag,
  header_flags, header_length, cut_frame,
}
use spl_rust.Frame.Wire.{next_frame_whole}
use spl_rust.Frame.Sound.{IsByte}
use spl_rust.Frame.Decoder.{IsPartial, IsWhole, next_frame_partial}
use spl_rust.Home.Types.{RefusalClass, protocol, HomeError, refused, MuxOutput}
use spl_rust.Home.State.{MuxAcceptor, violation, refuse_violation}
use spl_rust.Home.Dispatch.{handle_control, handle_frame}
use spl_rust.Home.Feed.{Pass, going, failed, handle_drained, drain_rounds}
use spl_rust.Home.Valid.{IsValid}
use spl_rust.Home.Receiving.{handle_frame-IsValid}
use spl_rust.Home.Untouched.{refuse_violation-keeps, handle_frame-keeps}

-- What the decoder holds while `remaining` payload bytes are still to come: nothing between frames,
-- and a whole header with a part of its payload inside one.
abbrev pub Holds : FrameDecoder → Option ℕ → Type 0
Holds d none = d.buf ≡ []
Holds d (some remaining) =
    (0 < remaining)
    × (8 ≤ length d.buf)
    × (header_length d.buf ≤ max_payload)
    × (length d.buf + remaining ≡ 8 + header_length d.buf)
    × (has_flag (header_flags d.buf) flag_reserved_mask ≡ false)

-- Between two bytes: the count of buffered bytes is right, a header is not whole yet, and the limits
-- are those that `validate` accepts.
pub record IsFramed (a : MuxAcceptor) : Type 0 where
  pub counted : a.decoder_buffered_bytes ≡ length a.header_buffer + length a.decoder.buf
  pub header_short : length a.header_buffer < 8
  pub header_bytes : All IsByte a.header_buffer
  pub holds : Holds a.decoder a.payload_remaining
  pub header_idle : (length a.header_buffer ≡ 0) ⊎ (a.payload_remaining ≡ none)
  pub roomy : 8 + max_payload ≤ a.limits.decoder_buffer_bytes

-- What may come out of a call: an acceptor that keeps both invariants, or a refusal that names a
-- frame on stream zero.
abbrev pub IsSound : Pass → Type 0
IsSound (going a out) = IsValid a × IsFramed a
IsSound (failed e a) =
    (v : FrameViolation) × (v.stream_id ≡ 0)
    × (e ≡ refused (record { class = protocol; violation = some v }))

handle_control-err :
    (f : Frame) (out : MuxOutput) {e : HomeError}
    → handle_control f out ≡ err e
    → e ≡ refused (record { class = protocol; violation = some (violation f) })
unfolding handle_control
handle_control-err f out h = ground arith

handle_frame-err :
    (a : MuxAcceptor) (out : MuxOutput) (f : Frame) {e : HomeError}
    → handle_frame a out f ≡ err e
    → (f.stream_id ≡ 0)
      × (e ≡ refused (record { class = protocol; violation = some (violation f) }))
unfolding handle_frame
handle_frame-err a out f {e} h = elim (Result-cases (handle_control f out)) [
  | inl (o, c) ↦ absurd (ground arith)
  | inr (x, c) ↦ ground (arith, handle_control-err f out c)
]

-- The fields that `feed` keeps for itself, as `P` of `Untouched`.
abbrev pub SameFraming : MuxAcceptor → MuxAcceptor → Type 0
SameFraming a b =
    (b.limits ≡ a.limits)
    × (b.decoder ≡ a.decoder)
    × (b.decoder_buffered_bytes ≡ a.decoder_buffered_bytes)
    × (b.header_buffer ≡ a.header_buffer)
    × (b.payload_remaining ≡ a.payload_remaining)
    × (b.discarded_payload_remaining ≡ a.discarded_payload_remaining)

same : (a : MuxAcceptor) → SameFraming a a
same a = (refl, refl, refl, refl, refl, refl)

pub handle_frame-SameFraming :
    (a : MuxAcceptor) (out : MuxOutput) (f : Frame) {a' : MuxAcceptor} {out' : MuxOutput}
    → handle_frame a out f ≡ ok (a', out')
    → SameFraming a a'
handle_frame-SameFraming a out f e =
    handle_frame-keeps (SameFraming a) (λ b m p. p) (λ b c p. p) (λ b h p. p) a out f (same a) e

pub refuse_violation-SameFraming :
    (a : MuxAcceptor) (out : MuxOutput) (v : FrameViolation) (class : RefusalClass)
    → SameFraming a (refuse_violation a out v class).0
refuse_violation-SameFraming a out v class =
    refuse_violation-keeps (SameFraming a) (λ b m p. p) (λ b c p. p) (λ b h p. p) a out v class
      (same a)

pub SameFraming-IsFramed : {a b : MuxAcceptor} → SameFraming a b → IsFramed a → IsFramed b
SameFraming-IsFramed (lim, dec, cnt, hdr, pay, dis) v = record {
  counted = rw (cnt, hdr, dec) v.counted;
  header_short = rw hdr v.header_short;
  header_bytes = rw hdr v.header_bytes;
  holds = rw (dec, pay) v.holds;
  header_idle = rw (hdr, pay) v.header_idle;
  roomy = rw lim v.roomy;
}

-- With no whole frame in the decoder nothing happens.
pub drain_rounds_partial :
    (n : ℕ) (a : MuxAcceptor) (out : MuxOutput)
    → IsPartial a.decoder
    → drain_rounds (suc n) a out ≡ going a out
unfolding drain_rounds
drain_rounds_partial n a out p = ground (arith, next_frame_partial a.decoder p)

-- With a whole frame, the frame is handled and the loop goes on.
pub continue : ℕ → Pass → Pass
continue n (going a out) = drain_rounds n a out
continue n (failed e a) = failed e a

pub drain_rounds_whole :
    (n : ℕ) (a : MuxAcceptor) (out : MuxOutput)
    → IsWhole a.decoder
    → let (f, d) = cut_frame a.decoder (header_length a.decoder.buf) in
      drain_rounds (suc n) a out ≡ continue n (handle_drained (record a { decoder = d }) out f)
unfolding drain_rounds continue
drain_rounds_whole n a out w = ground (arith, next_frame_whole a.decoder w.0 w.1)

-- A frame that has just been cut off, with nothing else buffered.
pub record IsCut (a : MuxAcceptor) (f : Frame) : Type 0 where
  pub counted : a.decoder_buffered_bytes ≡ 8 + length f.payload
  pub alone : a.decoder.buf ≡ []
  pub idle : length a.header_buffer ≡ 0
  pub between : a.payload_remaining ≡ none
  pub roomy : 8 + max_payload ≤ a.limits.decoder_buffer_bytes

cut-IsFramed :
    (a : MuxAcceptor) (f : Frame) → IsCut a f → IsFramed (record a { decoder_buffered_bytes = 0 })
cut-IsFramed a f c = record {
  counted = omega (arith, c.idle, ap length c.alone);
  header_short = omega (arith, c.idle);
  header_bytes = no_bytes a.header_buffer c.idle;
  holds = rw c.between c.alone;
  header_idle = inl c.idle;
  roomy = c.roomy;
}
  where
    no_bytes : (xs : List ℕ) → length xs ≡ 0 → All IsByte xs
    no_bytes [] h = tt
    no_bytes (x ∷ xs) h = absurd (omega arith)

handle_drained_cut :
    (a : MuxAcceptor) (out : MuxOutput) (f : Frame)
    → a.decoder_buffered_bytes ≡ 8 + length f.payload
    → checked_sub a.decoder_buffered_bytes (header_len + length f.payload) ≡ some 0
handle_drained_cut a out f h = ground arith

pub continue-IsSound :
    (n : ℕ) (a : MuxAcceptor) (out : MuxOutput) (f : Frame)
    → IsValid a
    → IsCut a f
    → IsSound (continue (suc n) (handle_drained a out f))
unfolding handle_drained
continue-IsSound n a out f v c = elim (Result-cases (handle_frame left out f)) [
  | inr (e, h) ↦
      let (zero_id, named) = handle_frame-err left out f h in
      rw (handle_drained_cut a out f c.counted, handle_drained, h)
        (unfold continue in (violation f, unfold violation in zero_id, named))
  | inl ((a', out'), h) ↦
      let kept = handle_frame-SameFraming left out f h in
      let valid = handle_frame-IsValid left out f left_valid h in
      let waits : IsPartial a'.decoder = inl (rw (kept.1, c.alone) (omega arith)) in
      rw (handle_drained_cut a out f c.counted, handle_drained, h)
        (unfold continue in
          rw (drain_rounds_partial n a' out' waits)
            (valid, SameFraming-IsFramed kept (cut-IsFramed a f c)))
]
  where
    left : MuxAcceptor
    left = record a { decoder_buffered_bytes = 0 }

    left_valid : IsValid left
    left_valid = record { entries = v.entries; distinct = v.distinct; bounded = v.bounded }
