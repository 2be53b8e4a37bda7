-- ===== src/Mux/Carrier.antt =====
-- `CarrierDemux` of crates/spl-core/src/mux.rs: the frames of a persistent carrier, routed to their
-- streams. `lossy` stands for `String::from_utf8_lossy`.
pub mod Accounts
pub mod Handlers
pub mod Routing
pub mod Sessions
pub mod Windows
pub mod Quiet
pub mod Silence
mod Tests
use spl_rust.Base.{
  ℕ, ◌+◌, ◌-◌, ◌<◌, bit_or, Bool, true, false, not, ◌&&◌, ◌||◌, List, [], ◌∷◌, ◌++◌, map, Option,
  none, some, Result, ok, err, ltb, ◌==◌, length, get_or, if◌then◌else◌,
}
use spl_rust.Base.Assoc.{lookup, contains_key, insert, remove}
use spl_rust.Frame.{
  Frame, FrameDecoder, FrameViolation, new_decoder, drain, encode, flags_valid, has_flag, flag_open,
  flag_data, flag_close, flag_reset, flag_window, flag_ping, flag_pong, control_pong,
  control_pong_nonce, window_credit, window, header_stream_id, header_flags, reset_protocol_error,
  reset_flow_control_error,
}
use spl_rust.Frame
use spl_rust.Mux
use spl_rust.Mux.{
  MuxError, RecvWindow, frame_error, http_error, cap_exceeded, flow_control, stream_reset,
  incomplete, protocol, new_recv_window, debit,
}
use spl_rust.Mux.Events.{
  ResetReason, protocol_error, flow_control_error, unspecified, from_payload, StreamEnd, StreamItem,
  ended, StreamEvent, uncosted,
}
use spl_rust.Mux.Events
use spl_rust.Mux.Assembler.{
  HttpStreamAssembler, AssemblerOutput, new_assembler, feed_data, close_assembler, reset_assembler,
}

pub record CarrierStream : Type 0 where
  pub assembler : HttpStreamAssembler
  pub recv_window : RecvWindow

pub record CarrierDemux : Type 0 where
  pub decoder : FrameDecoder
  pub streams : List (ℕ × CarrierStream)
  pub fatal_violation : Option FrameViolation

abbrev pub new_demux : CarrierDemux
new_demux = record { decoder = new_decoder; streams = []; fatal_violation = none }

pub record DemuxOutput : Type 0 where
  pub pongs : List (List ℕ)
  pub inbound_pongs : List (List ℕ)
  pub stream_events : List (ℕ × StreamEvent)
  pub window_grants : List (ℕ × ℕ)
  pub emit_frames : List (List ℕ)
  pub violations : List FrameViolation

abbrev pub no_demux_output : DemuxOutput
no_demux_output = record {
  pongs = [];
  inbound_pongs = [];
  stream_events = [];
  window_grants = [];
  emit_frames = [];
  violations = [];
}

unfoldable pub open_stream : CarrierDemux → ℕ → CarrierDemux
open_stream d stream_id = record d {
  streams =
      insert stream_id (record { assembler = new_assembler; recv_window = new_recv_window })
        d.streams;
}

unfoldable pub forget_stream : CarrierDemux → ℕ → CarrierDemux
forget_stream d stream_id = record d { streams = remove stream_id d.streams }

unfoldable pub update_stream : CarrierDemux → ℕ → CarrierStream → CarrierDemux
update_stream d stream_id s = record d { streams = insert stream_id s d.streams }

-- What a call comes to: an answer with the demultiplexer after it, an error, or a panic: an `expect`
-- or `debug_assert_eq` of the demultiplexer, or one of the receive window.
pub data Handled (A : Type 0) : Type 0 where
  proceeds : A → CarrierDemux → Handled A
  stops : MuxError → CarrierDemux → Handled A
  panics : Handled A

unfoldable pub consume : CarrierDemux → ℕ → ℕ → Handled (Option (List ℕ))
consume d stream_id bytes = elim (lookup stream_id d.streams) [
  | none ↦ proceeds none d
  | some s ↦ elim (Mux.consume s.recv_window bytes) [
    | none ↦ panics
    | some (grant, w) ↦
        let d' = update_stream d stream_id (record s { recv_window = w }) in
        elim grant [
          | none ↦ proceeds none d'
          | some g ↦ elim (encode (window stream_id g)) [
            | ok bytes ↦ proceeds (some bytes) d'
            | err e ↦ stops (frame_error e) d'
          ]
        ]
  ]
]

unfoldable pub frame_violation : Frame → FrameViolation
frame_violation f = record { stream_id = f.stream_id; flags = f.flags; length = length f.payload }

-- The frames that `remove_emitted_windows` keeps.
unfoldable pub is_kept : ℕ → List ℕ → Bool
is_kept stream_id bytes =
    ltb (length bytes) 5
    || not (header_stream_id bytes == stream_id)
    || not (has_flag (header_flags bytes) flag_window)

unfoldable pub remove_emitted_windows : ℕ → List (List ℕ) → List (List ℕ)
remove_emitted_windows stream_id [] = []
remove_emitted_windows stream_id (bytes ∷ rest) =
    let kept = remove_emitted_windows stream_id rest in
    if is_kept stream_id bytes then bytes ∷ kept else kept

abbrev pub without_windows : DemuxOutput → ℕ → DemuxOutput
without_windows out stream_id = record out {
  emit_frames = remove_emitted_windows stream_id out.emit_frames;
}

abbrev pub push_stream_event : DemuxOutput → ℕ → StreamEvent → DemuxOutput
push_stream_event out stream_id e = record out {
  stream_events = out.stream_events ++ (stream_id, e) ∷ [];
}

abbrev pub push_emitted : DemuxOutput → List ℕ → DemuxOutput
push_emitted out bytes = record out { emit_frames = out.emit_frames ++ bytes ∷ [] }

abbrev pub push_violation : DemuxOutput → FrameViolation → DemuxOutput
push_violation out v = record out { violations = out.violations ++ v ∷ [] }

-- `end`: the stream's terminal event goes out, its windows do not, and it is forgotten.
unfoldable pub end_stream : CarrierDemux → DemuxOutput → ℕ → StreamItem → Handled DemuxOutput
end_stream d out stream_id item =
    proceeds (push_stream_event (without_windows out stream_id) stream_id (uncosted item))
      (forget_stream d stream_id)

-- `push(frame.encode()?)` on the emitted frames.
unfoldable pub emit : CarrierDemux → DemuxOutput → Frame → Result MuxError DemuxOutput
emit d out f = elim (encode f) [
  | ok bytes ↦ ok (push_emitted out bytes)
  | err e ↦ err (frame_error e)
]

unfoldable pub reject_attributable : CarrierDemux → DemuxOutput → Frame → Handled DemuxOutput
reject_attributable d out f =
    let known = contains_key f.stream_id d.streams in
    let cleared = if known then without_windows out f.stream_id else out in
    elim (emit d cleared (Frame.reset f.stream_id reset_protocol_error)) [
      | err e ↦ stops e d
      | ok out' ↦
          if known
          then (proceeds
              (push_violation
                (push_stream_event out' f.stream_id
                  (uncosted (ended (Events.reset protocol_error))))
                (frame_violation f))
              (forget_stream d f.stream_id))
          else proceeds (push_violation out' (frame_violation f)) d
    ]

unfoldable pub handle_control : CarrierDemux → DemuxOutput → Frame → Handled DemuxOutput
handle_control d out f = elim (control_pong f) [
  | some pong ↦ elim (encode pong) [
    | ok bytes ↦ proceeds (record out { pongs = out.pongs ++ bytes ∷ [] }) d
    | err e ↦ stops (frame_error e) d
  ]
  | none ↦ elim (control_pong_nonce f) [
    | some nonce ↦ proceeds (record out { inbound_pongs = out.inbound_pongs ++ nonce ∷ [] }) d
    | none ↦
        stops (protocol (frame_violation f))
          (record d { fatal_violation = some (frame_violation f) })
  ]
]

-- DATA past the receive window.
unfoldable pub refuse_overrun : CarrierDemux → DemuxOutput → ℕ → Handled DemuxOutput
refuse_overrun d out stream_id =
    elim (emit d (without_windows out stream_id) (Frame.reset stream_id reset_flow_control_error)) [
      | err e ↦ stops e d
      | ok out' ↦
          proceeds
            (push_stream_event out' stream_id (uncosted (ended (Events.reset flow_control_error))))
            (forget_stream d stream_id)
    ]

-- `streams.get_mut(&stream_id).expect("known stream exists")` and what follows it: a stream that is
-- not there is a panic.
unfoldable pub expect_stream :
    CarrierDemux → ℕ → (CarrierStream → Handled DemuxOutput) → Handled DemuxOutput
expect_stream d stream_id rest = elim (lookup stream_id d.streams) [
  | none ↦ panics
  | some s ↦ rest s
]

-- The stream is there: its assembler is closed or reset, and it ends.
unfoldable pub close_known :
    CarrierDemux → DemuxOutput → Frame → CarrierStream → Handled DemuxOutput
close_known d out f s = end_stream d out f.stream_id (close_assembler s.assembler).0

unfoldable pub reset_known :
    CarrierDemux → DemuxOutput → Frame → CarrierStream → Handled DemuxOutput
reset_known d out f s =
    end_stream d out f.stream_id (reset_assembler s.assembler (from_payload f.payload)).0

-- The end of a DATA frame: its events, and the end of the stream if it closes.
unfoldable pub finish_data :
    CarrierDemux → DemuxOutput → Frame → List StreamEvent → Handled DemuxOutput
finish_data d out f events =
    let out' : DemuxOutput = record out {
      stream_events = out.stream_events ++ map (λ e. (f.stream_id, e)) events;
    } in
    if f.flags == bit_or flag_data flag_close
    then expect_stream d f.stream_id (close_known d out' f)
    else proceeds out' d

-- The receive window after the assembler: what it consumed at once may bring a grant.
unfoldable pub consume_known :
    CarrierDemux → DemuxOutput → Frame → AssemblerOutput → CarrierStream → Handled DemuxOutput
consume_known d out f assembled s = elim (Mux.consume s.recv_window assembled.auto_consumed) [
  | none ↦ panics
  | some (grant, w) ↦
      let d' = update_stream d f.stream_id (record s { recv_window = w }) in
      elim grant [
        | none ↦ finish_data d' out f assembled.events
        | some g ↦ elim (emit d' out (window f.stream_id g)) [
          | err e ↦ stops e d'
          | ok out' ↦ finish_data d' out' f assembled.events
        ]
      ]
]

unfoldable pub consume_data :
    CarrierDemux → DemuxOutput → Frame → AssemblerOutput → Handled DemuxOutput
consume_data d out f assembled = expect_stream d f.stream_id (consume_known d out f assembled)

-- The failures of an assembler that end its stream only.
unfoldable pub is_local : MuxError → Bool
is_local (http_error e) = true
is_local cap_exceeded = true
is_local (frame_error e) = false
is_local stream_reset = false
is_local incomplete = false
is_local flow_control = false
is_local (protocol v) = false

unfoldable pub handle_window : CarrierDemux → DemuxOutput → Frame → Handled DemuxOutput
handle_window d out f = elim (window_credit f) [
  | none ↦ reject_attributable d out f
  | some credit ↦
      proceeds (record out { window_grants = out.window_grants ++ (f.stream_id, credit) ∷ [] }) d
]

unfoldable pub handle_unknown : CarrierDemux → DemuxOutput → Frame → Handled DemuxOutput
handle_unknown d out f =
    if has_flag f.flags flag_data || f.flags == flag_window
    then reject_attributable d out f
    else proceeds out d

module _ (lossy : List ℕ → List ℕ) where
  -- DATA that the receive window has let in.
  unfoldable pub assemble_known :
      CarrierDemux → DemuxOutput → Frame → CarrierStream → Handled DemuxOutput
  assemble_known d out f s =
      let (r, a) = feed_data lossy s.assembler f.payload in
      let d' = update_stream d f.stream_id (record s { assembler = a }) in
      elim r [
        | ok assembled ↦ consume_data d' out f assembled
        | err e ↦
            if is_local e
            then end_stream d' out f.stream_id (ended (Events.reset unspecified))
            else stops e d'
      ]

  unfoldable pub assemble_data : CarrierDemux → DemuxOutput → Frame → Handled DemuxOutput
  assemble_data d out f = expect_stream d f.stream_id (assemble_known d out f)

  unfoldable pub debit_known :
      CarrierDemux → DemuxOutput → Frame → CarrierStream → Handled DemuxOutput
  debit_known d out f s = elim (debit s.recv_window (length f.payload)) [
    | err _ ↦ refuse_overrun d out f.stream_id
    | ok w ↦ assemble_data (update_stream d f.stream_id (record s { recv_window = w })) out f
  ]

  unfoldable pub handle_data : CarrierDemux → DemuxOutput → Frame → Handled DemuxOutput
  handle_data d out f = expect_stream d f.stream_id (debit_known d out f)

  -- A frame for a registered stream. The last `else` is `debug_assert_eq!(frame.flags, FLAG_WINDOW)`.
  unfoldable pub handle_known : CarrierDemux → DemuxOutput → Frame → Handled DemuxOutput
  handle_known d out f =
      if f.flags == flag_reset
      then expect_stream d f.stream_id (reset_known d out f)
      else if f.flags == flag_close
      then expect_stream d f.stream_id (close_known d out f)
      else if f.flags == flag_data || f.flags == bit_or flag_data flag_close
      then handle_data d out f
      else if f.flags == flag_window
      then handle_window d out f
      else panics

  unfoldable pub handle_frame : CarrierDemux → DemuxOutput → Frame → Handled DemuxOutput
  handle_frame d out f =
      if f.stream_id == 0
      then handle_control d out f
      else if not (flags_valid f.flags)
      then reject_attributable d out f
      else if has_flag f.flags flag_open
      then reject_attributable d out f
      else if f.flags == flag_ping || f.flags == flag_pong
      then reject_attributable d out f
      else if contains_key f.stream_id d.streams
      then handle_known d out f
      else handle_unknown d out f

  unfoldable pub handle_frames : CarrierDemux → DemuxOutput → List Frame → Handled DemuxOutput
  handle_frames d out [] = proceeds out d
  handle_frames d out (f ∷ fs) = elim (handle_frame d out f) [
    | proceeds out' d' ↦ handle_frames d' out' fs
    | stops e d' ↦ stops e d'
    | panics ↦ panics
  ]

  unfoldable pub feed : CarrierDemux → List ℕ → Handled DemuxOutput
  feed d bytes = elim d.fatal_violation [
    | some v ↦ stops (protocol v) d
    | none ↦
        let (r, decoder) = drain (Frame.feed d.decoder bytes) in
        let d' : CarrierDemux = record d { decoder = decoder } in
        elim r [ ok fs ↦ handle_frames d' no_demux_output fs | err e ↦ stops (frame_error e) d' ]
  ]
