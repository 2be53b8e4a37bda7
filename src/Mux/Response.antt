-- ===== src/Mux/Response.antt =====
-- `ResponseAssembler` of crates/spl-core/src/mux.rs: the one-shot response of one dialer stream. `lossy`
-- stands for `String::from_utf8_lossy`.
pub mod Bounds
pub mod Whole
mod Tests
use spl_rust.Base.{
  ℕ, Bool, true, false, List, [], ◌∷◌, ◌++◌, Option, none, some, Result, ok, err, ltb, ◌==◌, not,
  length, if◌then◌else◌,
}
use spl_rust.Base.Maybe.{checked_add}
use spl_rust.Frame
use spl_rust.Frame.{
  Frame, FrameDecoder, new_decoder, drain, encode, has_flag, flag_data, flag_close, flag_reset,
  control_pong, window_credit, window, reset_flow_control_error,
}
use spl_rust.Http.Message.{HttpResponse, parse_response}
use spl_rust.Mux
use spl_rust.Mux.{
  MuxError, RecvWindow, frame_error, http_error, stream_reset, incomplete, cap_exceeded,
  flow_control, max_assembled_bytes, new_recv_window, debit,
}

pub record FeedOutput : Type 0 where
  pub pongs : List (List ℕ)
  pub window_grants : List ℕ
  pub emit_frames : List (List ℕ)
  pub terminal_error : Option MuxError

abbrev pub no_feed_output : FeedOutput
no_feed_output = record { pongs = []; window_grants = []; emit_frames = []; terminal_error = none }

pub record ResponseAssembler : Type 0 where
  pub stream_id : ℕ
  pub cap : ℕ
  pub decoder : FrameDecoder
  pub body : List ℕ
  pub recv_window : RecvWindow
  pub closed : Bool
  pub was_reset : Bool
  pub flow_control_failed : Bool

abbrev pub with_cap : ℕ → ℕ → ResponseAssembler
with_cap stream_id cap = record {
  stream_id = stream_id;
  cap = cap;
  decoder = new_decoder;
  body = [];
  recv_window = new_recv_window;
  closed = false;
  was_reset = false;
  flow_control_failed = false;
}

abbrev pub new_response : ℕ → ResponseAssembler
new_response stream_id = with_cap stream_id max_assembled_bytes

-- What a frame comes to: the loop goes on or breaks with an output, or the call fails, or the receive
-- window panics.
pub data Fed : Type 0 where
  goes_on breaks_off : FeedOutput → ResponseAssembler → Fed
  fails : MuxError → ResponseAssembler → Fed
  panicked : Fed

-- The frame that `push(frame.encode()?)` adds to the emitted ones.
unfoldable pub emitting : ResponseAssembler → FeedOutput → Frame → (FeedOutput → Fed) → Fed
emitting a out f rest = elim (encode f) [
  | ok bytes ↦ rest (record out { emit_frames = out.emit_frames ++ bytes ∷ [] })
  | err e ↦ fails (frame_error e) a
]

unfoldable pub feed_close : ResponseAssembler → FeedOutput → Frame → Fed
feed_close a out f =
    if has_flag f.flags flag_close
    then goes_on (record out { emit_frames = [] }) (record a { closed = true })
    else goes_on out a

-- DATA within the receive window `w`, which gives it up at once.
unfoldable pub feed_payload : ResponseAssembler → FeedOutput → Frame → RecvWindow → Fed
feed_payload a out f w = elim (Mux.consume w (length f.payload)) [
  | none ↦ panicked
  | some (grant, w') ↦
      let a' : ResponseAssembler = record a { body = a.body ++ f.payload; recv_window = w' } in
      elim grant [
        | none ↦ feed_close a' out f
        | some g ↦ emitting a' out (window a.stream_id g) (λ out'. feed_close a' out' f)
      ]
]

unfoldable pub take_data : ResponseAssembler → FeedOutput → Frame → Fed
take_data a out f = elim (checked_add (length a.body) (length f.payload)) [
  | none ↦ fails cap_exceeded a
  | some assembled_len ↦
      if ltb a.cap assembled_len
      then fails cap_exceeded a
      else elim (debit a.recv_window (length f.payload)) [
        | ok w ↦ feed_payload a out f w
        | err _ ↦
            let a' : ResponseAssembler = record a { closed = true; flow_control_failed = true } in
            emitting a' out (Frame.reset a.stream_id reset_flow_control_error)
              (λ out'. breaks_off (record out' { terminal_error = some flow_control }) a')
      ]
]

-- A frame of this stream.
unfoldable pub feed_own : ResponseAssembler → FeedOutput → Frame → Fed
feed_own a out f = elim (window_credit f) [
  | some credit ↦ goes_on (record out { window_grants = out.window_grants ++ credit ∷ [] }) a
  | none ↦
      if has_flag f.flags flag_reset
      then goes_on (record out { emit_frames = [] }) (record a { was_reset = true; closed = true })
      else if has_flag f.flags flag_data
      then take_data a out f
      else feed_close a out f
]

unfoldable pub feed_frame : ResponseAssembler → FeedOutput → Frame → Fed
feed_frame a out f = elim (control_pong f) [
  | some pong ↦ elim (encode pong) [
    | ok bytes ↦ goes_on (record out { pongs = out.pongs ++ bytes ∷ [] }) a
    | err e ↦ fails (frame_error e) a
  ]
  | none ↦ if not (f.stream_id == a.stream_id) then goes_on out a else feed_own a out f
]

unfoldable pub feed_frames : ResponseAssembler → FeedOutput → List Frame → Fed
feed_frames a out [] = goes_on out a
feed_frames a out (f ∷ fs) = elim (feed_frame a out f) [
  | goes_on out' a' ↦ feed_frames a' out' fs
  | breaks_off out' a' ↦ breaks_off out' a'
  | fails e a' ↦ fails e a'
  | panicked ↦ panicked
]

unfoldable pub feed : ResponseAssembler → List ℕ → Fed
feed a bytes =
    let (r, decoder) = drain (Frame.feed a.decoder bytes) in
    let a' : ResponseAssembler = record a { decoder = decoder } in
    if a.flow_control_failed
    then fails flow_control a
    else elim r [ ok fs ↦ feed_frames a' no_feed_output fs | err e ↦ fails (frame_error e) a' ]

abbrev pub is_closed : ResponseAssembler → Bool
is_closed a = a.closed

unfoldable pub into_response : (List ℕ → List ℕ) → ResponseAssembler → Result MuxError HttpResponse
into_response lossy a =
    if a.was_reset
    then err stream_reset
    else if a.flow_control_failed
    then err flow_control
    else if not a.closed
    then err incomplete
    else elim (parse_response lossy a.body) [ ok r ↦ ok r | err e ↦ err (http_error e) ]
