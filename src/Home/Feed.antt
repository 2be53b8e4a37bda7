-- ===== src/Home/Feed.antt =====
-- `MuxAcceptor::new`, `feed` and `drain_decoder` of crates/spl-home/src/mux.rs.
use spl_rust.Base.{
  ℕ, zero, suc, ◌+◌, ◌-◌, List, [], ◌∷◌, ◌++◌, Option, none, some, Result, ok, err, ltb, leb, ◌==◌,
  length, if◌then◌else◌,
}
use spl_rust.Base.Maybe.{checked_add, checked_sub}
use spl_rust.Frame.{
  Frame, FrameDecoder, FrameViolation, header_len, flag_reserved_mask, has_flag, header_stream_id,
  header_flags, header_length, next_frame,
}
use spl_rust.Frame
use spl_rust.Home.Types.{
  RefusalClass, protocol, flow_control, internal, HomeError, MuxLimits, refused, frame, config,
  MuxOutput, no_output, validate,
}
use spl_rust.Home.State.{MuxAcceptor, new_acceptor, refuse_violation}
use spl_rust.Home.Dispatch.{handle_frame}

unfoldable pub create : MuxLimits → Result HomeError MuxAcceptor
create limits = elim (validate limits) [ ok _ ↦ ok (new_acceptor limits) | err e ↦ err (config e) ]

-- What a call leaves: it goes on with the acceptor and the output so far, or has failed, which drops
-- the output and keeps the acceptor as it was then.
pub data Pass : Type 0 where
  going : MuxAcceptor → MuxOutput → Pass
  failed : HomeError → MuxAcceptor → Pass

-- `HomeError::Refused` with no violation.
abbrev pub refused_as : RefusalClass → HomeError
refused_as class = refused (record { class = class; violation = none })

-- The number of bytes still to come after one more of `remaining`: `(r > 1).then_some(r - 1)`.
abbrev pub one_less : ℕ → Option ℕ
one_less remaining = if ltb 1 remaining then some (remaining - 1) else none

abbrev pub some_if_pos : ℕ → Option ℕ
some_if_pos n = if ltb 0 n then some n else none

-- One round of `drain_decoder` on a frame that the decoder has cut off.
unfoldable pub handle_drained : MuxAcceptor → MuxOutput → Frame → Pass
handle_drained a out f =
    elim (checked_sub a.decoder_buffered_bytes (header_len + length f.payload)) [
      | none ↦ failed (refused_as internal) a
      | some left ↦
          let a' : MuxAcceptor = record a { decoder_buffered_bytes = left } in
          elim (handle_frame a' out f) [ ok (a'', out') ↦ going a'' out' | err e ↦ failed e a' ]
    ]

-- The loop of `drain_decoder`: each round takes eight bytes at least from the decoder's buffer.
unfoldable pub drain_rounds : ℕ → MuxAcceptor → MuxOutput → Pass
drain_rounds zero a out = going a out
drain_rounds (suc fuel) a out =
    let (r, d) = next_frame a.decoder in
    let a' : MuxAcceptor = record a { decoder = d } in
    elim r [
      | err e ↦ failed (frame e) a'
      | ok none ↦ going a' out
      | ok (some f) ↦ elim (handle_drained a' out f) [
        | going a'' out' ↦ drain_rounds fuel a'' out'
        | failed e a'' ↦ failed e a''
      ]
    ]

unfoldable pub drain_decoder : MuxAcceptor → MuxOutput → Pass
drain_decoder a out = drain_rounds (suc (length a.decoder.buf)) a out

-- A whole header with the reserved flag: its payload is to be discarded, and its stream is refused.
unfoldable pub discard_frame : MuxAcceptor → MuxOutput → FrameViolation → Pass
discard_frame a out v = elim (checked_sub a.decoder_buffered_bytes header_len) [
  | none ↦ failed (refused_as internal) (record a { header_buffer = [] })
  | some left ↦
      let a' : MuxAcceptor = record a {
        header_buffer = [];
        decoder_buffered_bytes = left;
        discarded_payload_remaining = some_if_pos v.length;
      } in
      if v.stream_id == 0
      then failed (refused (record { class = protocol; violation = some v })) a'
      else let (a'', out') = refuse_violation a' out v protocol in going a'' out'
]

-- `feed` on a header byte, once the byte is counted.
unfoldable pub feed_header_byte : MuxAcceptor → MuxOutput → ℕ → Pass
feed_header_byte a out byte =
    let header = a.header_buffer ++ byte ∷ [] in
    let a' : MuxAcceptor = record a { header_buffer = header } in
    if length header == header_len
    then if has_flag (header_flags header) flag_reserved_mask
      then (discard_frame a' out (record {
        stream_id = header_stream_id header;
        flags = header_flags header;
        length = header_length header;
      }))
      else (drain_decoder
          (record a' {
            decoder = Frame.feed a'.decoder header;
            header_buffer = [];
            payload_remaining = some_if_pos (header_length header);
          })
          out)
    else going a' out

-- `feed` on one byte, once it is counted.
unfoldable pub feed_counted : MuxAcceptor → MuxOutput → ℕ → Option ℕ → Pass
feed_counted a out byte none = feed_header_byte a out byte
feed_counted a out byte (some remaining) =
    drain_decoder
      (record a {
        decoder = Frame.feed a.decoder (byte ∷ []);
        payload_remaining = one_less remaining;
      })
      out

-- `feed` on one byte that is not discarded.
unfoldable pub feed_kept : MuxAcceptor → MuxOutput → ℕ → Pass
feed_kept a out byte =
    if leb a.limits.decoder_buffer_bytes a.decoder_buffered_bytes
    then failed (refused_as flow_control) a
    else elim (checked_add a.decoder_buffered_bytes 1) [
      | none ↦ failed (refused_as internal) a
      | some counted ↦
          feed_counted (record a { decoder_buffered_bytes = counted }) out byte a.payload_remaining
    ]

unfoldable pub feed_byte_on : MuxAcceptor → MuxOutput → ℕ → Option ℕ → Pass
feed_byte_on a out byte none = feed_kept a out byte
feed_byte_on a out byte (some remaining) =
    going (record a { discarded_payload_remaining = one_less remaining }) out

unfoldable pub feed_byte : MuxAcceptor → MuxOutput → ℕ → Pass
feed_byte a out byte = feed_byte_on a out byte a.discarded_payload_remaining

-- The loop of `feed` over the bytes.
unfoldable pub feed_bytes : MuxAcceptor → MuxOutput → List ℕ → Pass
feed_bytes a out [] = going a out
feed_bytes a out (byte ∷ bytes) = elim (feed_byte a out byte) [
  | going a' out' ↦ feed_bytes a' out' bytes
  | failed e a' ↦ failed e a'
]

unfoldable pub feed : MuxAcceptor → List ℕ → Pass
feed a bytes = feed_bytes a no_output bytes
