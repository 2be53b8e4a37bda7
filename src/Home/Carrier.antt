-- ===== src/Home/Carrier.antt =====
-- `drain_decoder` and the header bytes of `feed` in crates/spl-home/src/mux.rs, against the invariants.
use spl_rust.Base.{
  ℕ, suc, ◌+◌, ◌-◌, ◌≤◌, ◌<◌, ◌≡◌, refl, ap, inl, inr, arith, false, List, [], ◌∷◌, ◌++◌, none,
  some, Bool-cases, ltb, length, length-append, ◌==◌, if_intro, All, All-append,
}
use spl_rust.Base.Maybe.{checked_sub}
use spl_rust.Frame.{
  Frame, FrameDecoder, FrameViolation, header_len, max_payload, flag_reserved_mask, has_flag,
  header_flags, header_length, header_stream_id, cut_frame, next_frame,
}
use spl_rust.Frame
use spl_rust.Frame.Sound.{IsByte, header_bytes_again}
use spl_rust.Frame.Decoder.{IsPartial, IsWhole, length-cut_frame}
use spl_rust.Home.Types.{protocol, MuxOutput}
use spl_rust.Home.State.{MuxAcceptor}
use spl_rust.Home.Feed.{going, some_if_pos, drain_decoder, discard_frame, feed_header_byte}
use spl_rust.Home.Valid.{IsValid, refuse_violation-IsValid}
use spl_rust.Home.Framing.{
  IsSound, SameFraming-IsFramed, refuse_violation-SameFraming, drain_rounds_partial,
  drain_rounds_whole, continue-IsSound,
}

pub drain_decoder_partial :
    (a : MuxAcceptor) (out : MuxOutput) → IsPartial a.decoder → drain_decoder a out ≡ going a out
unfolding drain_decoder
drain_decoder_partial a out p = drain_rounds_partial (length a.decoder.buf) a out p

empty_of_length : (xs : List ℕ) → length xs ≡ 0 → xs ≡ []
empty_of_length [] h = refl
empty_of_length (x ∷ xs) h = absurd (omega arith)

-- A decoder that holds exactly one frame gives it to the handlers.
pub record IsReady (a : MuxAcceptor) : Type 0 where
  pub whole : IsWhole a.decoder
  pub exact : length a.decoder.buf ≡ 8 + header_length a.decoder.buf
  pub counted : a.decoder_buffered_bytes ≡ length a.decoder.buf
  pub idle : length a.header_buffer ≡ 0
  pub between : a.payload_remaining ≡ none
  pub roomy : 8 + max_payload ≤ a.limits.decoder_buffer_bytes

pub drain_decoder-IsSound :
    (a : MuxAcceptor) (out : MuxOutput) → IsValid a → IsReady a → IsSound (drain_decoder a out)
unfolding drain_decoder
drain_decoder-IsSound a out v r =
    let taken = length-cut_frame a.decoder (header_length a.decoder.buf) r.whole.0 in
    let d = (cut_frame a.decoder (header_length a.decoder.buf)).1 in
    let f = (cut_frame a.decoder (header_length a.decoder.buf)).0 in
    let rounds : length a.decoder.buf ≡ suc (length a.decoder.buf - 1) = omega (arith, r.exact) in
    rw (drain_rounds_whole (length a.decoder.buf) a out r.whole) (
      rw rounds (
        continue-IsSound (length a.decoder.buf - 1) (record a { decoder = d }) out f
          (record { entries = v.entries; distinct = v.distinct; bounded = v.bounded })
          (record {
            counted = omega (arith, r.counted, r.exact, taken.0);
            alone = empty_of_length d.buf (omega (arith, r.exact, taken.0, taken.1));
            idle = r.idle;
            between = r.between;
            roomy = r.roomy;
          })))

discard_frame-IsSound :
    (a : MuxAcceptor) (out : MuxOutput) (w : FrameViolation)
    → IsValid a
    → a.decoder_buffered_bytes ≡ 8
    → a.decoder.buf ≡ []
    → a.payload_remaining ≡ none
    → 8 + max_payload ≤ a.limits.decoder_buffer_bytes
    → IsSound (discard_frame a out w)
unfolding discard_frame
discard_frame-IsSound a out w v counted alone between roomy =
    rw (eight, discard_frame)
      (if_intro IsSound (w.stream_id == 0) (λ h. (w, ground arith, refl))
        (λ _. (
          refuse_violation-IsValid cleared out w protocol
              (record { entries = v.entries; distinct = v.distinct; bounded = v.bounded }),
          SameFraming-IsFramed {a = cleared} (refuse_violation-SameFraming cleared out w protocol)
              (record {
                counted = omega (arith, ap length alone);
                header_short = omega arith;
                header_bytes = tt;
                holds = rw between alone;
                header_idle = inl refl;
                roomy = roomy;
              }),
        )))
  where
    eight : checked_sub a.decoder_buffered_bytes header_len ≡ some 0
    eight = ground arith

    cleared : MuxAcceptor
    cleared = record a {
      header_buffer = [];
      decoder_buffered_bytes = 0;
      discarded_payload_remaining = some_if_pos w.length;
    }

-- A whole header goes to the decoder; a frame with no payload is handled at once.
start_frame-IsSound :
    (a : MuxAcceptor) (out : MuxOutput) (header : List ℕ)
    → IsValid a
    → length header ≡ 8
    → All IsByte header
    → has_flag (header_flags header) flag_reserved_mask ≡ false
    → a.decoder_buffered_bytes ≡ 8
    → a.decoder.buf ≡ []
    → 8 + max_payload ≤ a.limits.decoder_buffer_bytes
    → IsSound (
        drain_decoder
          (record a {
            decoder = record { buf = header };
            header_buffer = [];
            payload_remaining = some_if_pos (header_length header);
          })
          out)
start_frame-IsSound a out header v eight bytes free counted alone roomy =
    elim (Bool-cases (ltb 0 (header_length header))) [
      | inl more ↦ rw (drain_decoder_partial started out (inr (free, ground arith))) (
        valid,
        record {
          counted = omega arith;
          header_short = omega arith;
          header_bytes = tt;
          holds = rw more (ground arith, omega arith, fits, omega arith, free);
          header_idle = inl refl;
          roomy = roomy;
        },
      )
      | inr done ↦ drain_decoder-IsSound started out valid (record {
        whole = (ground arith, free);
        exact = ground arith;
        counted = omega arith;
        idle = refl;
        between = rw done;
        roomy = roomy;
      })
    ]
  where
    started : MuxAcceptor
    started = record a {
      decoder = record { buf = header };
      header_buffer = [];
      payload_remaining = some_if_pos (header_length header);
    }

    valid : IsValid started
    valid = record { entries = v.entries; distinct = v.distinct; bounded = v.bounded }

    fits : header_length header ≤ max_payload
    fits = (header_bytes_again header (omega arith) bytes).1

pub feed_header_byte-IsSound :
    (a : MuxAcceptor) (out : MuxOutput) (byte : ℕ)
    → byte < 256
    → IsValid a
    → a.decoder_buffered_bytes ≡ length a.header_buffer + 1
    → length a.header_buffer < 8
    → All IsByte a.header_buffer
    → a.decoder.buf ≡ []
    → a.payload_remaining ≡ none
    → 8 + max_payload ≤ a.limits.decoder_buffer_bytes
    → IsSound (feed_header_byte a out byte)
unfolding feed_header_byte
feed_header_byte-IsSound a out byte hb v counted short bytes alone between roomy =
    if_intro IsSound (length header == header_len)
      (λ eight.
        if_intro IsSound (has_flag (header_flags header) flag_reserved_mask)
          (λ _.
            discard_frame-IsSound longer out _ valid (ground (arith, longer_by_one)) alone between
              roomy)
          (λ free.
            unfold Frame.feed in
            rw alone (
              start_frame-IsSound longer out header valid (ground arith) all_bytes free
                (ground (arith, longer_by_one)) alone roomy)))
      (λ rest. (
        valid,
        record {
          counted = omega (arith, longer_by_one, ap length alone);
          header_short = ground (arith, longer_by_one);
          header_bytes = all_bytes;
          holds = rw between alone;
          header_idle = inr between;
          roomy = roomy;
        },
      ))
  where
    header : List ℕ
    header = a.header_buffer ++ byte ∷ []

    longer_by_one : length header ≡ length a.header_buffer + 1
    longer_by_one = omega (arith, length-append a.header_buffer (byte ∷ []))

    all_bytes : All IsByte header
    all_bytes = All-append IsByte a.header_buffer (byte ∷ []) bytes (hb, tt)

    longer : MuxAcceptor
    longer = record a { header_buffer = header }

    valid : IsValid longer
    valid = record { entries = v.entries; distinct = v.distinct; bounded = v.bounded }
