-- ===== src/Home/Input.antt =====
-- `feed` of crates/spl-home/src/mux.rs over any bytes, against the invariants.
use spl_rust.Base.{
  ℕ, ◌+◌, ◌≤◌, ◌<◌, ◌≡◌, refl, ap, inl, inr, arith, true, false, List, [], ◌∷◌, ◌++◌, Option, none,
  some, ok, Bool-cases, le→ltb, ltb, leb, length, length-append, All,
}
use spl_rust.Base.Maybe.{word_max}
use spl_rust.Frame.{
  FrameDecoder, FrameViolation, header_len, max_payload, flag_reserved_mask, has_flag, header_flags,
  header_length,
}
use spl_rust.Frame
use spl_rust.Frame.Sound.{IsByte}
use spl_rust.Frame.Reframe.{header_flags-append, header_length-append}
use spl_rust.Home.Types.{MuxOutput, MuxLimits, no_output, validate}
use spl_rust.Home.State.{MuxAcceptor, new_acceptor}
use spl_rust.Home.Feed.{
  Pass, going, failed, one_less, feed_counted, feed_kept, feed_byte_on, feed_byte, feed_bytes, feed,
  create,
}
use spl_rust.Home.Valid.{IsValid}
use spl_rust.Home.Framing.{Holds, IsFramed, IsSound}
use spl_rust.Home.Carrier.{drain_decoder_partial, drain_decoder-IsSound, feed_header_byte-IsSound}

-- One more payload byte: the frame is handled when it was the last.
feed_payload_byte-IsSound :
    (a : MuxAcceptor) (out : MuxOutput) (byte remaining : ℕ)
    → IsValid a
    → Holds a.decoder (some remaining)
    → a.decoder_buffered_bytes ≡ length a.decoder.buf + 1
    → length a.header_buffer ≡ 0
    → All IsByte a.header_buffer
    → 8 + max_payload ≤ a.limits.decoder_buffer_bytes
    → IsSound (feed_counted a out byte (some remaining))
unfolding feed_counted Frame.feed
feed_payload_byte-IsSound a out byte remaining v (pos, whole, fits, exact, free) counted idle bytes
      roomy =
    elim (Bool-cases (ltb 1 remaining)) [
      | inl more ↦
          rw
            (drain_decoder_partial longer out
              (inr (same_flags, omega (arith, same_length, one_longer, ltb→gt more))))
            (
              valid,
              record {
                counted = omega (arith, one_longer, idle);
                header_short = omega (arith, idle);
                header_bytes = bytes;
                holds = rw more (
                  omega (arith, ltb→gt more),
                  omega (arith, one_longer),
                  rw same_length fits,
                  omega (arith, one_longer, same_length, ltb→gt more),
                  same_flags,
                );
                header_idle = inl idle;
                roomy = roomy;
              },
            )
      | inr last ↦
          let one : remaining ≡ 1 = ground arith in
          drain_decoder-IsSound longer out valid (record {
            whole = (omega (arith, one_longer, same_length), same_flags);
            exact = omega (arith, one_longer, same_length);
            counted = omega (arith, one_longer);
            idle = idle;
            between = rw last;
            roomy = roomy;
          })
    ]
  where
    buf : List ℕ
    buf = a.decoder.buf ++ byte ∷ []

    one_longer : length buf ≡ length a.decoder.buf + 1
    one_longer = omega (arith, length-append a.decoder.buf (byte ∷ []))

    same_length : header_length buf ≡ header_length a.decoder.buf
    same_length = header_length-append a.decoder.buf (byte ∷ []) whole

    same_flags : has_flag (header_flags buf) flag_reserved_mask ≡ false
    same_flags = rw (header_flags-append a.decoder.buf (byte ∷ []) whole) free

    longer : MuxAcceptor
    longer = record a { decoder = record { buf = buf }; payload_remaining = one_less remaining }

    valid : IsValid longer
    valid = record { entries = v.entries; distinct = v.distinct; bounded = v.bounded }

    ltb→gt : ltb 1 remaining ≡ true → 1 < remaining
    ltb→gt h = ground arith

-- Between two bytes less than a whole frame is buffered, so the ceiling leaves room for one more.
pub ceiling :
    (a : MuxAcceptor) (o : Option ℕ)
    → IsFramed a
    → a.payload_remaining ≡ o
    → (a.decoder_buffered_bytes < 8 + max_payload)
      × (a.decoder_buffered_bytes < a.limits.decoder_buffer_bytes)
ceiling a none v e =
    let empty : length a.decoder.buf ≡ 0 = ap length (rw e at v.holds) in
    omega (arith, v.counted, v.header_short, v.roomy, empty)
ceiling a (some r) v e =
    let inside : Holds a.decoder (some r) = rw e at v.holds in
    let idle : length a.header_buffer ≡ 0 = elim v.header_idle [ inl h ↦ h | inr h ↦ cc ] in
    omega (arith, v.counted, v.roomy, idle, inside)

feed_counted-IsSound :
    (a : MuxAcceptor) (out : MuxOutput) (byte : ℕ) (o : Option ℕ)
    → byte < 256
    → IsValid a
    → IsFramed a
    → a.payload_remaining ≡ o
    → IsSound (
        feed_counted
          (record a { decoder_buffered_bytes = a.decoder_buffered_bytes + 1 })
          out
          byte
          o)
feed_counted-IsSound a out byte none hb v w e =
    let alone : a.decoder.buf ≡ [] = rw e at w.holds in
    unfold feed_counted in
    feed_header_byte-IsSound (record a { decoder_buffered_bytes = a.decoder_buffered_bytes + 1 })
      out byte hb (record { entries = v.entries; distinct = v.distinct; bounded = v.bounded })
      (omega (arith, w.counted, ap length alone)) w.header_short w.header_bytes alone e w.roomy
feed_counted-IsSound a out byte (some r) hb v w e =
    let idle : length a.header_buffer ≡ 0 = elim w.header_idle [ inl h ↦ h | inr h ↦ cc ] in
    feed_payload_byte-IsSound (record a { decoder_buffered_bytes = a.decoder_buffered_bytes + 1 })
      out byte r (record { entries = v.entries; distinct = v.distinct; bounded = v.bounded })
      (rw e at w.holds) (omega (arith, w.counted, idle)) idle w.header_bytes w.roomy

feed_kept-IsSound :
    (a : MuxAcceptor) (out : MuxOutput) (byte : ℕ)
    → byte < 256
    → IsValid a
    → IsFramed a
    → IsSound (feed_kept a out byte)
unfolding feed_kept
feed_kept-IsSound a out byte hb v w =
    let (small, room) = ceiling a a.payload_remaining w refl in
    let open_door : leb a.limits.decoder_buffer_bytes a.decoder_buffered_bytes ≡ false =
      ground arith in
    let fits : ltb word_max (a.decoder_buffered_bytes + 1) ≡ false = le→ltb _ _ (omega arith) in
    rw (open_door, fits) (feed_counted-IsSound a out byte a.payload_remaining hb v w refl)

feed_byte_on-IsSound :
    (a : MuxAcceptor) (out : MuxOutput) (byte : ℕ) (o : Option ℕ)
    → byte < 256
    → IsValid a
    → IsFramed a
    → IsSound (feed_byte_on a out byte o)
unfolding feed_byte_on
feed_byte_on-IsSound a out byte none hb v w = feed_kept-IsSound a out byte hb v w
feed_byte_on-IsSound a out byte (some r) hb v w = (
  record { entries = v.entries; distinct = v.distinct; bounded = v.bounded },
  record {
    counted = w.counted;
    header_short = w.header_short;
    header_bytes = w.header_bytes;
    holds = w.holds;
    header_idle = w.header_idle;
    roomy = w.roomy;
  },
)

feed_bytes-IsSound :
    (bytes : List ℕ) (a : MuxAcceptor) (out : MuxOutput)
    → All IsByte bytes
    → IsValid a
    → IsFramed a
    → IsSound (feed_bytes a out bytes)
unfolding feed_bytes
feed_bytes-IsSound [] a out hb v w = (v, w)
feed_bytes-IsSound (byte ∷ bytes) a out (hb, hbs) v w =
    go (λ a' out' v' w'. feed_bytes-IsSound bytes a' out' hbs v' w') (feed_byte a out byte)
      (unfold feed_byte in feed_byte_on-IsSound a out byte a.discarded_payload_remaining hb v w)
  where
    go :
        ((a' : MuxAcceptor) (out' : MuxOutput)
          → IsValid a'
          → IsFramed a'
          → IsSound (feed_bytes a' out' bytes))
        → (p : Pass) → IsSound p
        → IsSound (elim p [ going a' out' ↦ feed_bytes a' out' bytes | failed e a' ↦ failed e a' ])
    go rest (going a' out') s = rest a' out' s.0 s.1
    go rest (failed e a') s = s

-- Whatever bytes the peer sends, `feed` of the home acceptor keeps both invariants, or fails with a
-- protocol refusal that names a frame on stream zero.
pub feed-IsSound :
    (a : MuxAcceptor) (bytes : List ℕ)
    → All IsByte bytes
    → IsValid a
    → IsFramed a
    → IsSound (feed a bytes)
unfolding feed
feed-IsSound a bytes hb v w = feed_bytes-IsSound bytes a no_output hb v w

-- An acceptor that `new` returns meets both invariants.
pub create-IsFramed :
    (limits : MuxLimits) {a : MuxAcceptor} → create limits ≡ ok a → IsValid a × IsFramed a
unfolding create validate
create-IsFramed limits {a} e =
    let made : new_acceptor limits ≡ a = ground arith in
    let room : 8 + max_payload ≤ limits.decoder_buffer_bytes = ground arith in
    rw (← made) (
      record { entries = tt; distinct = tt; bounded = omega arith },
      record {
        counted = omega arith;
        header_short = omega arith;
        header_bytes = tt;
        holds = refl;
        header_idle = inl refl;
        roomy = room;
      },
    )
