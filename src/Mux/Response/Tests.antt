-- ===== src/Mux/Response/Tests.antt =====
-- Runs of the one-shot response assembler, and its theorems at concrete inputs.
use spl_rust.Base.{ℕ, ◌-◌, ◌≡◌, ◌≢◌, refl, arith, true, List, [], ◌∷◌, flatten, ok, err}
use spl_rust.Frame.{
  Frame, encode, has_flag, header_bytes, to_be_bytes, drain, drain_loop, next_frame,
  header_stream_id, header_flags, header_length, from_be_bytes, control_pong, window_credit,
  new_decoder,
}
use spl_rust.Frame
use spl_rust.Http.Message.{parse_response}
use spl_rust.Mux.{http_error, initial_window, flow_control, debit, grant_consumed}
use spl_rust.Mux
use spl_rust.Mux.Response.{
  FeedOutput, no_feed_output, ResponseAssembler, with_cap, new_response, goes_on, panicked,
  feed_close, feed_payload, take_data, feed_own, feed_frame, feed_frames, feed, into_response,
}
use spl_rust.Mux.Response.Bounds.{IsValid, begins, goes, Calls-feed}
use spl_rust.Mux.Response.Whole.{response_frames, response_arrives}

abbrev plain : List ℕ → List ℕ
plain text = text

-- DATA with one byte, and CLOSE, on stream 1.
abbrev whole_bytes : List ℕ
whole_bytes = 0 ∷ 0 ∷ 0 ∷ 1 ∷ 2 ∷ 0 ∷ 0 ∷ 1 ∷ 104 ∷ 0 ∷ 0 ∷ 0 ∷ 1 ∷ 4 ∷ 0 ∷ 0 ∷ 0 ∷ []

abbrev closed_response : ResponseAssembler
closed_response = record (new_response 1) {
  body = 104 ∷ [];
  recv_window = record { credit = initial_window - 1; unacked = 1 };
  closed = true;
}

feed_runs : feed (new_response 1) whole_bytes ≡ goes_on no_feed_output closed_response
unfolding feed Frame.feed drain drain_loop next_frame header_stream_id header_flags header_length
    from_be_bytes has_flag control_pong window_credit feed_frames feed_frame feed_own take_data
    feed_payload feed_close debit Mux.consume grant_consumed
feed_runs = refl

Calls-feed_example : IsValid closed_response × (feed closed_response whole_bytes ≢ panicked)
Calls-feed_example =
    Calls-feed closed_response whole_bytes (goes (begins 1 _) whole_bytes feed_runs)

response_arrives_example :
    (out : FeedOutput) × (a : ResponseAssembler) × (feed (with_cap 1 10) whole_bytes
      ≡ goes_on out a)
    × (into_response plain a
        ≡ (elim (parse_response plain (104 ∷ [])) [ ok r ↦ ok r | err e ↦ err (http_error e) ]))
unfolding response_frames encode has_flag header_bytes to_be_bytes flatten
response_arrives_example =
    response_arrives plain 1 10 ((104 ∷ []) ∷ []) whole_bytes (λ e. cc) (omega arith, tt)
      (omega arith) (omega arith)
      (
        0 ∷ 0 ∷ 0 ∷ 1 ∷ 2 ∷ 0 ∷ 0 ∷ 1 ∷ 104 ∷ [],
        0 ∷ 0 ∷ 0 ∷ 1 ∷ 4 ∷ 0 ∷ 0 ∷ 0 ∷ [],
        omega arith,
        refl,
        refl,
        (0 ∷ 0 ∷ 0 ∷ 1 ∷ 4 ∷ 0 ∷ 0 ∷ 0 ∷ [], [], omega arith, refl, refl, refl),
      )
