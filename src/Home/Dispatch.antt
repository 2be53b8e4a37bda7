-- ===== src/Home/Dispatch.antt =====
-- `handle_frame` of crates/spl-home/src/mux.rs and the handlers that it calls.
use spl_rust.Base.{
  ℕ, ◌%◌, bit_or, Bool, true, false, not, ◌&&◌, ◌||◌, Option, none, some, Result, ok, err, ltb, leb,
  ◌==◌, length, if◌then◌else◌, get_or,
}
use spl_rust.Base.Assoc.{lookup, contains_key}
use spl_rust.Base.Maybe.{checked_add}
use spl_rust.Frame.{
  Frame, flags_valid, has_flag, flag_open, flag_data, flag_close, flag_reset, flag_window,
  flag_ping, flag_pong, control_nonce_len, control_pong, window_credit,
}
use spl_rust.Mux.{initial_window, new_recv_window, debit}
use spl_rust.Home.Types.{
  RefusalClass, protocol, stream_limit, flow_control, internal, HomeError, refused, MuxOutput,
  MuxEvent, opened, data_bytes, StreamState, reason_from_wire,
}
use spl_rust.Home.State.{
  MuxAcceptor, max_send_credit, push_frame, push_event, push_writable, violation, set_stream,
  remove_stream, refuse, mark_peer_closed,
}

unfoldable pub handle_control : Frame → MuxOutput → Result HomeError MuxOutput
unfolding control_pong
handle_control f out =
    let reject : Result HomeError MuxOutput =
      err (refused (record { class = protocol; violation = some (violation f) })) in
    let after_ping =
      if f.flags == flag_pong && length f.payload == control_nonce_len then ok out else reject in
    if f.flags == flag_ping && length f.payload == control_nonce_len
    then elim (control_pong f) [ some pong ↦ ok (push_frame out pong) | none ↦ after_ping ]
    else after_ping

-- `peer_high_water.is_none_or(|highest| stream_id > highest)`
unfoldable pub is_above : ℕ → Option ℕ → Bool
is_above stream_id none = true
is_above stream_id (some highest) = ltb highest stream_id

-- The state of a stream that the peer has just opened with `len` bytes of DATA.
unfoldable pub open_with : ℕ → Option StreamState
open_with len = elim (debit new_recv_window len) [
  | ok w ↦ some (record {
    receive_window = w;
    debited_not_consumed = len;
    send_credit = initial_window;
    peer_closed = false;
    local_closed = false;
  })
  | err _ ↦ none
]

-- `handle_open` from the insertion on.
unfoldable pub admit_stream :
    MuxAcceptor → MuxOutput → Frame → StreamState → MuxAcceptor × MuxOutput
unfolding has_flag
admit_stream a out f s =
    let a' = set_stream a f.stream_id s in
    let announced = push_event out (opened f.stream_id) in
    let out' =
      if not (length f.payload == 0) || has_flag f.flags flag_data
      then push_event announced (data_bytes f.stream_id f.payload)
      else announced in
    if has_flag f.flags flag_close then mark_peer_closed a' out' f.stream_id else (a', out')

-- `handle_open` once the id is valid: the stream cap, the initial credit, and the new stream.
unfoldable pub open_stream : MuxAcceptor → MuxOutput → Frame → MuxAcceptor × MuxOutput
open_stream a out f =
    if leb a.limits.max_concurrent_streams (length a.streams)
    then refuse a out f stream_limit
    else if ltb initial_window (length f.payload)
    then refuse a out f flow_control
    else elim (open_with (length f.payload)) [
      | some s ↦ admit_stream a out f s
      | none ↦ refuse a out f flow_control
    ]

unfoldable pub handle_open : MuxAcceptor → MuxOutput → Frame → MuxAcceptor × MuxOutput
unfolding is_above
handle_open a out f =
    if f.stream_id % 2 == 1 && is_above f.stream_id a.peer_high_water
    then open_stream (record a { peer_high_water = some f.stream_id }) out f
    else refuse a out f protocol

-- The debit of `handle_data` on one stream, with the class of its failure.
unfoldable pub receive : StreamState → ℕ → Result RefusalClass StreamState
receive s len = if s.peer_closed then err protocol else elim (debit s.receive_window len) [
  | ok w ↦ elim (checked_add s.debited_not_consumed len) [
    | some next ↦ ok (record s { receive_window = w; debited_not_consumed = next })
    | none ↦ err internal
  ]
  | err _ ↦ err flow_control
]

-- A stream that is not there fails the debit.
unfoldable pub receive_on : Option StreamState → ℕ → Result RefusalClass StreamState
receive_on none len = err flow_control
receive_on (some s) len = receive s len

unfoldable pub handle_data : MuxAcceptor → MuxOutput → Frame → Bool → MuxAcceptor × MuxOutput
handle_data a out f closes = elim (receive_on (lookup f.stream_id a.streams) (length f.payload)) [
  | ok s ↦
      let a' = set_stream a f.stream_id s in
      let out' = push_event out (data_bytes f.stream_id f.payload) in
      if closes then mark_peer_closed a' out' f.stream_id else (a', out')
  | err class ↦ refuse a out f class
]

unfoldable pub handle_close : MuxAcceptor → MuxOutput → Frame → MuxAcceptor × MuxOutput
handle_close a out f =
    if length f.payload == 0 then mark_peer_closed a out f.stream_id else handle_data a out f true

unfoldable pub handle_reset : MuxAcceptor → MuxOutput → Frame → MuxAcceptor × MuxOutput
handle_reset a out f =
    if length f.payload == 1
    then (
      remove_stream a f.stream_id,
      push_event out (MuxEvent.reset f.stream_id (reason_from_wire (get_or f.payload 0 0))),
    )
    else refuse a out f protocol

-- The closure of `handle_window`: the stream with the credit added, if it is there and the sum fits.
unfoldable pub add_send_credit : Option StreamState → ℕ → Option StreamState
add_send_credit none credit = none
add_send_credit (some s) credit = elim (checked_add s.send_credit credit) [
  | some next ↦ if ltb max_send_credit next then none else some (record s { send_credit = next })
  | none ↦ none
]

unfoldable pub handle_window : MuxAcceptor → MuxOutput → Frame → MuxAcceptor × MuxOutput
handle_window a out f = elim (window_credit f) [
  | none ↦ refuse a out f protocol
  | some credit ↦ elim (add_send_credit (lookup f.stream_id a.streams) credit) [
    | some s ↦ (set_stream a f.stream_id s, push_writable out f.stream_id)
    | none ↦ refuse a out f flow_control
  ]
]

-- `handle_frame` on a known stream.
unfoldable pub handle_known : MuxAcceptor → MuxOutput → Frame → MuxAcceptor × MuxOutput
handle_known a out f =
    if f.flags == bit_or flag_data flag_close
    then handle_data a out f true
    else if f.flags == flag_data
    then handle_data a out f false
    else if f.flags == flag_close
    then handle_close a out f
    else if f.flags == flag_reset
    then handle_reset a out f
    else if f.flags == flag_window
    then handle_window a out f
    else refuse a out f protocol

-- `handle_frame` on a stream other than zero, which always succeeds.
unfoldable pub handle_stream_frame : MuxAcceptor → MuxOutput → Frame → MuxAcceptor × MuxOutput
unfolding has_flag
handle_stream_frame a out f =
    if not (flags_valid f.flags)
    then refuse a out f protocol
    else if has_flag f.flags (bit_or flag_ping flag_pong)
    then refuse a out f protocol
    else if has_flag f.flags flag_open
    then handle_open a out f
    else if contains_key f.stream_id a.streams
    then handle_known a out f
    else if has_flag f.flags (bit_or flag_close flag_reset)
    then (a, out)
    else refuse a out f protocol

unfoldable pub handle_frame :
    MuxAcceptor → MuxOutput → Frame → Result HomeError (MuxAcceptor × MuxOutput)
handle_frame a out f =
    if f.stream_id == 0
    then elim (handle_control f out) [ ok out' ↦ ok (a, out') | err e ↦ err e ]
    else ok (handle_stream_frame a out f)
