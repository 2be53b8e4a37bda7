-- ===== src/Mux/Carrier/Tests.antt =====
-- A run of the persistent carrier on concrete bytes, and its theorems at concrete inputs.
use spl_rust.Base.{
  ℕ, ◌+◌, ◌<◌, ◌≡◌, ◌≢◌, refl, ◌-◌, arith, true, false, List, [], ◌∷◌, Option, some, All,
}
use spl_rust.Base.Assoc.{lookup, insert, contains_key}
use spl_rust.Frame.{
  Frame, FrameDecoder, next_frame, drain, drain_loop, has_flag, flags_valid, header_stream_id,
  header_flags, header_length, from_be_bytes, encode, header_bytes, to_be_bytes, flag_data,
}
use spl_rust.Frame
use spl_rust.Http.{find_subsequence, position_of, starts_with}
use spl_rust.Http.Message.{
  parse_head, header_lookup, is_chunked, parse_lines, split_lines, split_line, split_at,
  second_part, headers_of, parse_number, parse_digits, find_header,
}
use spl_rust.Mux.{initial_window, receive_grant_threshold, debit, grant_consumed, new_recv_window}
use spl_rust.Mux
use spl_rust.Mux.Credit.{IsBalanced, outstanding}
use spl_rust.Mux.Events.{StreamEvent, head, body}
use spl_rust.Mux.Assembler.{feed_data, feed_head, begin_body, feed_body, deliver, new_assembler}
use spl_rust.Mux.Carrier.{
  CarrierStream, CarrierDemux, DemuxOutput, no_demux_output, proceeds, panics, new_demux,
  open_stream, update_stream, consume, emit, finish_data, consume_data, consume_known,
  assemble_data, assemble_known, debit_known, expect_stream, handle_data, handle_known,
  handle_unknown, handle_frame, handle_frames, feed, reject_attributable, frame_violation,
}
use spl_rust.Mux.Carrier.Accounts.{owed}
use spl_rust.Mux.Carrier.Sessions.{
  Session, begins, opens, feeds, Session-outstanding, Session-open, Session-feed_total,
  Session-drain_total,
}
use spl_rust.Mux.Carrier.Windows.{IsWindowFor}
use spl_rust.Mux.Carrier.Silence.{no_late_window}

abbrev plain : List ℕ → List ℕ
plain text = text

-- DATA on stream 1: a response head and the body `hi`.
abbrev response_bytes : List ℕ
response_bytes =
    0 ∷ 0 ∷ 0 ∷ 1 ∷ 2 ∷ 0 ∷ 0 ∷ 21 ∷ 72 ∷ 84 ∷ 84 ∷ 80 ∷ 47 ∷ 49 ∷ 46 ∷ 49 ∷ 32 ∷ 50 ∷ 48 ∷ 48 ∷ 32
    ∷ 79 ∷ 75 ∷ 13 ∷ 10 ∷ 13 ∷ 10 ∷ 104 ∷ 105 ∷ []

abbrev opened_demux : CarrierDemux
opened_demux = open_stream new_demux 1

-- The stream after the response: its head is consumed, its body is not.
abbrev served : CarrierStream
served = record {
  assembler = record new_assembler { head_emitted = true };
  recv_window = record { credit = initial_window - 21; unacked = 19 };
}

abbrev served_demux : CarrierDemux
served_demux = record new_demux { streams = (1, served) ∷ [] }

abbrev head_event : StreamEvent
head_event = record { item = head (record { status = 200; headers = [] }); wire_cost = 0 }

abbrev body_event : StreamEvent
body_event = record { item = body (104 ∷ 105 ∷ []); wire_cost = 2 }

abbrev served_output : DemuxOutput
served_output = record no_demux_output { stream_events = (1, head_event) ∷ (1, body_event) ∷ [] }

feed_runs : feed plain opened_demux response_bytes ≡ proceeds served_output served_demux
unfolding open_stream feed Frame.feed drain drain_loop next_frame has_flag flags_valid
    header_stream_id header_flags header_length from_be_bytes handle_frames handle_frame
    handle_known handle_data debit_known assemble_data assemble_known consume_data consume_known
    finish_data expect_stream contains_key update_stream insert lookup debit Mux.consume
    grant_consumed feed_data feed_head begin_body feed_body deliver find_subsequence position_of
    starts_with parse_head parse_lines split_lines split_line split_at second_part headers_of
    parse_number parse_digits header_lookup find_header is_chunked
feed_runs = refl

session : Session plain false served_demux ((1, head_event) ∷ (1, body_event) ∷ [])
unfolding owed
session = feeds (opens begins 1 refl) response_bytes feed_runs

served_stream : lookup 1 served_demux.streams ≡ some served
unfolding lookup
served_stream = refl

Session-outstanding_example :
    IsBalanced served.recv_window
    × (served.assembler.pending_body_wire + owed 1 ((1, head_event) ∷ (1, body_event) ∷ [])
        ≡ outstanding served.recv_window)
Session-outstanding_example =
    Session-outstanding plain served_demux ((1, head_event) ∷ (1, body_event) ∷ []) 1 served session
      served_stream

Session-feed_total_example : feed plain served_demux response_bytes ≢ panics
Session-feed_total_example =
    Session-feed_total plain served_demux ((1, head_event) ∷ (1, body_event) ∷ []) response_bytes
      session

Session-drain_total_example :
    (granted : Option (List ℕ)) × (d' : CarrierDemux) × (consume served_demux 1 2
      ≡ proceeds granted d')
Session-drain_total_example =
    Session-drain_total plain served_demux ((1, head_event) ∷ []) [] 1 body_event session

-- A stream that nothing came in on is open to its peer.
Session-open_example : receive_grant_threshold < new_recv_window.credit
unfolding owed lookup open_stream insert
Session-open_example =
    Session-open plain opened_demux [] 1
      (record { assembler = new_assembler; recv_window = new_recv_window }) (opens begins 1 refl)
      refl refl refl

-- DATA for a stream that is not open.
abbrev stray : Frame
stray = record { stream_id = 3; flags = flag_data; payload = 0 ∷ [] }

abbrev refused_output : DemuxOutput
refused_output = record no_demux_output {
  emit_frames = (0 ∷ 0 ∷ 0 ∷ 3 ∷ 8 ∷ 0 ∷ 0 ∷ 1 ∷ 1 ∷ []) ∷ [];
  violations = record { stream_id = 3; flags = 2; length = 1 } ∷ [];
}

stray_runs :
    handle_frames plain new_demux no_demux_output (stray ∷ []) ≡ proceeds refused_output new_demux
unfolding handle_frames handle_frame handle_unknown reject_attributable flags_valid has_flag lookup
    contains_key emit encode Frame.reset header_bytes to_be_bytes frame_violation
stray_runs = refl

no_late_window_example :
    All (λ (bytes : List ℕ). ¬ IsWindowFor 3 bytes) ((0 ∷ 0 ∷ 0 ∷ 3 ∷ 8 ∷ 0 ∷ 0 ∷ 1 ∷ 1 ∷ []) ∷ [])
unfolding lookup
no_late_window_example =
    no_late_window plain new_demux new_demux (stray ∷ []) refused_output 3 (omega arith, tt)
      stray_runs refl (omega arith)
