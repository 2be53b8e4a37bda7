-- ===== src/Home/Position.antt =====
-- `feed` of crates/spl-home/src/mux.rs against a reader of frame boundaries that knows only headers.
use spl_rust.Base.{
  ℕ, suc, ◌+◌, ◌-◌, ◌<◌, ◌≡◌, refl, inl, inr, arith, List, [], ◌∷◌, ◌++◌, Option, none, some,
  Bool-cases, Option-cases, leb, ◌==◌, length, if_intro, All,
}
use spl_rust.Base.Maybe.{checked_add, checked_sub}
use spl_rust.Frame.{
  FrameViolation, header_len, flag_reserved_mask, has_flag, header_flags, header_length,
}
use spl_rust.Frame.Sound.{IsByte}
use spl_rust.Home.Types.{protocol, MuxOutput, no_output}
use spl_rust.Home.State.{MuxAcceptor}
use spl_rust.Home.Feed.{
  Pass, going, failed, some_if_pos, discard_frame, feed_header_byte, feed_counted, feed_kept,
  feed_byte_on, feed_byte, feed_bytes, feed,
}
use spl_rust.Home.Valid.{IsValid}
use spl_rust.Home.Framing.{IsFramed, IsSound, refuse_violation-SameFraming}
use spl_rust.Home.Input.{feed-IsSound}
use spl_rust.Home.Boundary.{
  Position, advance_on, advance, amount, IsAt, InStep, SameFraming-IsAt, drain_decoder-InStep,
  amount-some_if_pos, amount-one_less,
}

discard_frame-InStep :
    (a : MuxAcceptor) (out : MuxOutput) (w : FrameViolation)
    → a.payload_remaining ≡ none
    → InStep (record { header = []; left = w.length }) (discard_frame a out w)
unfolding discard_frame
discard_frame-InStep a out w between =
    elim (Option-cases (checked_sub a.decoder_buffered_bytes header_len)) [
      | inl e ↦ rw (e, discard_frame) tt
      | inr (left, e) ↦
          let b : MuxAcceptor = record a {
            header_buffer = [];
            decoder_buffered_bytes = left;
            discarded_payload_remaining = some_if_pos w.length;
          } in
          let (exact, pos) = amount-some_if_pos w.length in
          rw (e, discard_frame)
            (if_intro (InStep (record { header = []; left = w.length })) (w.stream_id == 0)
              (λ _. tt)
              (λ _.
                SameFraming-IsAt (record { header = []; left = w.length }) {a = b}
                  (refuse_violation-SameFraming b out w protocol)
                  (record {
                    header = refl;
                    left = rw between (omega (arith, exact));
                    discards = pos;
                    awaits = rw between tt;
                  })))
    ]

feed_header_byte-InStep :
    (a : MuxAcceptor) (out : MuxOutput) (byte : ℕ)
    → a.payload_remaining ≡ none
    → a.discarded_payload_remaining ≡ none
    → InStep (advance_on a.header_buffer byte 0) (feed_header_byte a out byte)
unfolding feed_header_byte advance_on
feed_header_byte-InStep a out byte between kept = elim (Bool-cases (length header == 8)) [
  | inl eight ↦
      let (exact, pos) = amount-some_if_pos (header_length header) in
      rw eight (
        if_intro (InStep (record { header = []; left = header_length header }))
          (has_flag (header_flags header) flag_reserved_mask)
          (λ _. discard_frame-InStep (record a { header_buffer = header }) out _ between)
          (λ _. drain_decoder-InStep _ _ out (record {
            header = refl;
            left = rw kept (omega (arith, exact));
            discards = rw kept tt;
            awaits = pos;
          })))
  | inr short ↦ rw short (record {
    header = refl;
    left = rw (kept, between) refl;
    discards = rw kept tt;
    awaits = rw between tt;
  })
]
  where
    header : List ℕ
    header = a.header_buffer ++ byte ∷ []

feed_counted-InStep :
    (p : Position) (a : MuxAcceptor) (out : MuxOutput) (byte : ℕ) (o : Option ℕ)
    → a.payload_remaining ≡ o
    → a.discarded_payload_remaining ≡ none
    → IsAt p a
    → InStep (advance_on p.header byte p.left) (feed_counted a out byte o)
unfolding feed_counted advance_on
feed_counted-InStep p a out byte none e kept v =
    let all : 0 ≡ p.left = (rw (e, kept) at v.left) in
    let done : p.left ≡ 0 = omega arith in
    rw (done, ← v.header) (feed_header_byte-InStep a out byte e kept)
feed_counted-InStep p a out byte (some r) e kept v =
    let more : 0 + r ≡ p.left = (rw (e, kept) at v.left) in
    let pos : 0 < r = (rw e at v.awaits) in
    let (exact, still) = amount-one_less r pos in
    let next : p.left ≡ suc (r - 1) = omega arith in
    rw next (
      drain_decoder-InStep (record { header = p.header; left = r - 1 }) _ out
        (record {
          header = v.header;
          left = rw kept (omega (arith, exact));
          discards = rw kept tt;
          awaits = still;
        }))

feed_byte-InStep :
    (p : Position) (a : MuxAcceptor) (out : MuxOutput) (byte : ℕ) (o : Option ℕ)
    → a.discarded_payload_remaining ≡ o
    → IsAt p a
    → InStep (advance_on p.header byte p.left) (feed_byte_on a out byte o)
unfolding feed_byte_on feed_kept advance_on
feed_byte-InStep p a out byte none e v =
    if_intro (InStep (advance_on p.header byte p.left))
      (leb a.limits.decoder_buffer_bytes a.decoder_buffered_bytes) (λ _. tt)
      (λ _. elim (Option-cases (checked_add a.decoder_buffered_bytes 1)) [
        | inl over ↦ rw over tt
        | inr (counted, fits) ↦ rw fits (
            feed_counted-InStep p (record a { decoder_buffered_bytes = counted }) out byte
              a.payload_remaining refl e
              (record {
                header = v.header;
                left = v.left;
                discards = v.discards;
                awaits = v.awaits;
              }))
      ])
feed_byte-InStep p a out byte (some r) e v =
    let more : r + amount a.payload_remaining ≡ p.left = (rw e at v.left) in
    let pos : 0 < r = (rw e at v.discards) in
    let (exact, still) = amount-one_less r pos in
    let next : p.left ≡ suc (r - 1 + amount a.payload_remaining) = omega arith in
    rw next (record {
      header = v.header;
      left = omega (arith, exact);
      discards = still;
      awaits = v.awaits;
    })

feed_bytes-InStep :
    (bytes : List ℕ) (p : Position) (a : MuxAcceptor) (out : MuxOutput)
    → IsAt p a
    → InStep (advance p bytes) (feed_bytes a out bytes)
unfolding feed_bytes feed_byte advance
feed_bytes-InStep [] p a out v = v
feed_bytes-InStep (byte ∷ bytes) p a out v =
    go (λ a' out' v'. feed_bytes-InStep bytes (advance_on p.header byte p.left) a' out' v')
      (feed_byte_on a out byte a.discarded_payload_remaining)
      (feed_byte-InStep p a out byte a.discarded_payload_remaining refl v)
  where
    q : Position
    q = advance_on p.header byte p.left

    go :
        ((a' : MuxAcceptor) (out' : MuxOutput)
          → IsAt q a'
          → InStep (advance q bytes) (feed_bytes a' out' bytes))
        → (r : Pass) → InStep q r
        → InStep
            (advance q bytes)
            (elim r [ going a' out' ↦ feed_bytes a' out' bytes | failed e a' ↦ failed e a' ])
    go rest (going a' out') s = rest a' out' s
    go rest (failed e a') s = tt

-- Whatever bytes the peer sends, `feed` of the home acceptor keeps every stream valid and its buffers
-- framed, and stands after them where a reader stands that takes eight bytes for a header and skips
-- the payload that the header declares, refused frames included; or it fails with a protocol refusal
-- that names a frame on stream zero. It never ends with a decoder error, a decoder over its ceiling
-- or an internal accounting failure.
pub feed-InStep :
    (a : MuxAcceptor) (bytes : List ℕ) (p : Position)
    → All IsByte bytes
    → IsValid a
    → IsFramed a
    → IsAt p a
    → IsSound (feed a bytes) × InStep (advance p bytes) (feed a bytes)
unfolding feed
feed-InStep a bytes p hb v w at =
    (unfold feed in feed-IsSound a bytes hb v w, feed_bytes-InStep bytes p a no_output at)
