-- ===== src/Home/Tests.antt =====
-- Runs of the home mux on concrete bytes, and its theorems at concrete inputs.
use spl_rust.Base.{
  ◌↔◌, Result, true, ℕ, ◌-◌, ◌*◌, ◌≤◌, ◌<◌, ◌≡◌, refl, ◌⊎◌, arith, false, List, [], ◌∷◌, none, some,
  ok, err, length,
}
use spl_rust.Base.Assoc.{lookup, contains_key, insert}
use spl_rust.Frame.{
  Frame, FrameViolation, new_decoder, flag_data, next_frame, has_flag, flags_valid,
  header_stream_id, header_flags, header_length,
}
use spl_rust.Frame
use spl_rust.Mux.{initial_window, debit}
use spl_rust.Home.Types.{
  no_output, default_limits, StreamState, opened, data_bytes, closed, protocol, internal, validate,
}
use spl_rust.Home.State.{MuxAcceptor, new_acceptor, set_stream, refuse_violation}
use spl_rust.Home.Dispatch
use spl_rust.Home.Feed.{
  going, refused_as, create, handle_drained, drain_rounds, drain_decoder, feed_header_byte,
  feed_counted, feed_kept, feed_byte_on, feed_byte, feed_bytes, feed,
}
use spl_rust.Home.Calls.{answered, consume}
use spl_rust.Home.Framing.{IsSound}
use spl_rust.Home.Input.{create-IsFramed}
use spl_rust.Home.Boundary.{IsAt, InStep, advance}
use spl_rust.Home.Position.{feed-InStep}
use spl_rust.Home.Local.{Consumes, consume_outcome}
use spl_rust.Home.Session.{IsHealthy, Session, Session-IsHealthy, unconsumed, Session-unconsumed}
use spl_rust.Home.PairWindow.{PairWindow, relay_key_matches, difference_of, admit, admit_once}
use spl_rust.Home.Types.{PairWindowRefusal, pair_window_refused, HomeError}
use spl_rust.Home.PairWindow.Key.{relay_key_matches_iff}
use spl_rust.Home.Refusals.{IsRefused, refuse_violation-IsRefused}

abbrev fresh : MuxAcceptor
fresh = new_acceptor default_limits

-- OPEN|DATA on stream 1 with one byte.
abbrev open_bytes : List ℕ
open_bytes = 0 ∷ 0 ∷ 0 ∷ 1 ∷ 3 ∷ 0 ∷ 0 ∷ 1 ∷ 0x68 ∷ []

abbrev first_stream : StreamState
first_stream = record {
  receive_window = record { credit = initial_window - 1; unacked = 0 };
  debited_not_consumed = 1;
  send_credit = initial_window;
  peer_closed = false;
  local_closed = false;
}

abbrev with_stream : MuxAcceptor
with_stream = record fresh { peer_high_water = some 1; streams = (1, first_stream) ∷ [] }

created : create default_limits ≡ ok fresh
unfolding create validate
created = refl

feed_runs :
    feed fresh open_bytes
    ≡ going with_stream (record no_output { events = opened 1 ∷ data_bytes 1 (0x68 ∷ []) ∷ [] })
unfolding feed feed_bytes feed_byte feed_byte_on feed_kept feed_counted feed_header_byte
    drain_decoder drain_rounds handle_drained next_frame has_flag flags_valid header_stream_id
    header_flags header_length Frame.feed debit lookup contains_key insert set_stream
    Dispatch.handle_frame Dispatch.handle_stream_frame Dispatch.handle_open Dispatch.is_above
    Dispatch.open_stream Dispatch.open_with Dispatch.admit_stream
feed_runs = refl

fresh-IsHealthy : IsHealthy fresh
fresh-IsHealthy = create-IsFramed default_limits created

reachable : Session default_limits with_stream
reachable = Session.fed (Session.opened created) open_bytes (omega arith) feed_runs

with_stream-IsHealthy : IsHealthy with_stream
with_stream-IsHealthy = Session-IsHealthy default_limits reachable

-- A new acceptor stands in front of the first header.
fresh-IsAt : IsAt (record { header = []; left = 0 }) fresh
fresh-IsAt = record { header = refl; left = refl; discards = tt; awaits = tt }

-- The header and two of the three payload bytes of a frame with the reserved flag on stream 1.
abbrev refused_bytes : List ℕ
refused_bytes = 0 ∷ 0 ∷ 0 ∷ 1 ∷ 0x80 ∷ 0 ∷ 0 ∷ 3 ∷ 7 ∷ 7 ∷ []

feed-InStep_example :
    IsSound (feed fresh refused_bytes)
    × InStep (advance (record { header = []; left = 0 }) refused_bytes) (feed fresh refused_bytes)
feed-InStep_example =
    feed-InStep fresh refused_bytes (record { header = []; left = 0 }) (omega arith)
      fresh-IsHealthy.0 fresh-IsHealthy.1 fresh-IsAt

-- One payload byte is left to skip.
refused_left : (advance (record { header = []; left = 0 }) refused_bytes).left ≡ 1
unfolding advance header_length
refused_left = refl

Session-IsHealthy_example : IsHealthy with_stream
Session-IsHealthy_example = Session-IsHealthy default_limits reachable

Session-unconsumed_example :
    (unconsumed with_stream.streams ≤ length with_stream.streams * initial_window)
    × (length with_stream.streams ≤ with_stream.limits.max_concurrent_streams)
    × (with_stream.decoder_buffered_bytes < with_stream.limits.decoder_buffer_bytes)
Session-unconsumed_example = Session-unconsumed default_limits reachable

create-IsFramed_example : IsHealthy fresh
create-IsFramed_example = create-IsFramed default_limits created

-- A frame with the reserved flag on stream 1.
abbrev bad_frame : FrameViolation
bad_frame = record { stream_id = 1; flags = 0x80; length = 3 }

refuse_violation-IsRefused_example :
    IsRefused with_stream no_output bad_frame protocol 3 internal
      (refuse_violation with_stream no_output bad_frame protocol)
refuse_violation-IsRefused_example =
    refuse_violation-IsRefused with_stream no_output bad_frame protocol 3 internal (omega arith)
      (cc)

consume_outcome_example :
    ((lookup 1 with_stream.streams ≡ none)
      × (consume with_stream 1 1 ≡ answered (err closed) with_stream))
    ⊎ ((s : StreamState) × (lookup 1 with_stream.streams ≡ some s)
        × (((s.debited_not_consumed < 1)
              × (consume with_stream 1 1 ≡ answered (err (refused_as internal)) with_stream))
            ⊎ Consumes with_stream 1 1 s))
consume_outcome_example = consume_outcome with_stream 1 1 with_stream-IsHealthy.0

abbrev two_bytes : List ℕ
two_bytes = 0x68 ∷ 0x69 ∷ []

-- A window for a key of one byte that expires at 100.
abbrev pair_window : PairWindow
pair_window = record { relay_key = 0x30 ∷ 0x37 ∷ []; expires_at = 100; is_consumed = false }

abbrev right_key : List ℕ
right_key = 0x30 ∷ 0x37 ∷ []

abbrev connected : Result HomeError ℕ
connected = ok 5

admit_runs :
    admit pair_window right_key 50 connected
    ≡ (connected, record pair_window { is_consumed = true })
unfolding admit relay_key_matches difference_of
admit_runs = refl

admit_once_example :
    ((e : HomeError) × (admit pair_window right_key 50 connected ≡ (err e, pair_window)))
    ⊎ ((c : ℕ) × (w' : PairWindow) × (admit pair_window right_key 50 connected ≡ (ok c, w'))
        × (connected ≡ ok c)
        × (relay_key_matches right_key pair_window.relay_key ≡ true)
        × (50 < pair_window.expires_at)
        × (r : PairWindowRefusal) × (admit w' right_key 60 connected
            ≡ (err (pair_window_refused r), w')))
admit_once_example = admit_once pair_window right_key 50 connected right_key 60 connected

relay_key_matches_iff_example :
    (relay_key_matches right_key (0x30 ∷ 0x38 ∷ []) ≡ true) ↔ (right_key ≡ 0x30 ∷ 0x38 ∷ [])
relay_key_matches_iff_example = relay_key_matches_iff right_key (0x30 ∷ 0x38 ∷ [])
