-- ===== src/Home/State.antt =====
-- The acceptor of crates/spl-home/src/mux.rs and the steps that its frame handlers share.
-- `streams`, a `HashMap<u32, StreamState>`, is an association list.
use spl_rust.Base.{
  ℕ, ◌-◌, ◌^◌, true, List, [], ◌∷◌, ◌++◌, Option, none, some, length, if◌then◌else◌,
}
use spl_rust.Base.Assoc.{lookup, contains_key, insert, remove}
use spl_rust.Frame.{Frame, FrameDecoder, FrameViolation, new_decoder}
use spl_rust.Frame
use spl_rust.Home.Types.{
  Refusal, RefusalClass, RefusalCounts, MuxLimits, MuxOutput, MuxEvent, StreamState, read_closed,
  no_refusals, reset_code, reason_from_class, record_refusal,
}

abbrev pub max_send_credit : ℕ
max_send_credit = 2 ^ 31 - 1

pub record MuxAcceptor : Type 0 where
  pub limits : MuxLimits
  pub decoder : FrameDecoder
  pub decoder_buffered_bytes : ℕ
  pub header_buffer : List ℕ
  pub payload_remaining : Option ℕ
  pub discarded_payload_remaining : Option ℕ
  pub peer_high_water : Option ℕ
  pub streams : List (ℕ × StreamState)
  pub refusals : RefusalCounts

abbrev pub new_acceptor : MuxLimits → MuxAcceptor
new_acceptor limits = record {
  limits = limits;
  decoder = new_decoder;
  decoder_buffered_bytes = 0;
  header_buffer = [];
  payload_remaining = none;
  discarded_payload_remaining = none;
  peer_high_water = none;
  streams = [];
  refusals = no_refusals;
}

abbrev pub push_frame : MuxOutput → Frame → MuxOutput
push_frame out f = record out { frames = out.frames ++ f ∷ [] }

abbrev pub push_event : MuxOutput → MuxEvent → MuxOutput
push_event out e = record out { events = out.events ++ e ∷ [] }

abbrev pub push_refusal : MuxOutput → Refusal → MuxOutput
push_refusal out r = record out { refusals = out.refusals ++ r ∷ [] }

abbrev pub push_writable : MuxOutput → ℕ → MuxOutput
push_writable out stream_id = record out {
  writable_streams = out.writable_streams ++ stream_id ∷ [];
}

unfoldable pub violation : Frame → FrameViolation
violation f = record { stream_id = f.stream_id; flags = f.flags; length = length f.payload }

unfoldable pub set_stream : MuxAcceptor → ℕ → StreamState → MuxAcceptor
set_stream a stream_id s = record a { streams = insert stream_id s a.streams }

unfoldable pub remove_stream : MuxAcceptor → ℕ → MuxAcceptor
remove_stream a stream_id = record a { streams = remove stream_id a.streams }

unfoldable pub refuse_violation :
    MuxAcceptor → MuxOutput → FrameViolation → RefusalClass → MuxAcceptor × MuxOutput
refuse_violation a out v class =
    let a' : MuxAcceptor = record a { refusals = record_refusal a.refusals class } in
    let answered : MuxOutput =
      push_refusal (push_frame out (Frame.reset v.stream_id (reset_code class)))
        (record { class = class; violation = some v }) in
    if contains_key v.stream_id a.streams
    then (
      remove_stream a' v.stream_id,
      push_event answered (MuxEvent.reset v.stream_id (reason_from_class class)),
    )
    else (a', answered)

unfoldable pub refuse : MuxAcceptor → MuxOutput → Frame → RefusalClass → MuxAcceptor × MuxOutput
unfolding violation
refuse a out f class = refuse_violation a out (violation f) class

-- The stream's last part of `mark_peer_closed`: its peer side is closed, and a stream that is closed
-- on both sides is forgotten.
unfoldable pub close_peer_side :
    MuxAcceptor → MuxOutput → ℕ → Option StreamState → MuxAcceptor × MuxOutput
close_peer_side a out stream_id none = (a, out)
close_peer_side a out stream_id (some s) =
    let a' = set_stream a stream_id (record s { peer_closed = true }) in
    let out' = push_event out (read_closed stream_id) in
    if s.local_closed then (remove_stream a' stream_id, out') else (a', out')

unfoldable pub mark_peer_closed : MuxAcceptor → MuxOutput → ℕ → MuxAcceptor × MuxOutput
mark_peer_closed a out stream_id = close_peer_side a out stream_id (lookup stream_id a.streams)
