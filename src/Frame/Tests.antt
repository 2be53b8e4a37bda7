-- ===== src/Frame/Tests.antt =====
-- Runs of frame.rs on concrete bytes, and the theorems at concrete inputs.
use spl_rust.Base.{
  ℕ, ◌^◌, ◌≤◌, ◌<◌, ◌≡◌, ◌≢◌, refl, ◌⊎◌, arith, List, [], ◌∷◌, ◌++◌, flatten, some, ok, err, length,
}
use spl_rust.Frame.{
  Frame, FrameDecoder, new_decoder, new_dialer, payload_too_large, reserved_flag, max_payload,
  flag_reserved_mask, flags_valid, has_flag, encode, next_frame, drain_loop, drain, feed, window,
  window_credit, header_flags, allocate, control_pong, control_pong_nonce,
}
use spl_rust.Frame
use spl_rust.Frame.Flags.{is_documented, flags_valid-is_documented}
use spl_rust.Frame.Wire.{next_frame-encode}
use spl_rust.Frame.Header.{IsLaidOut, encode_cases}
use spl_rust.Frame.Decoder.{IsDrained, drain-IsDrained}
use spl_rust.Frame.Reframe.{feed_chunks, feed_chunks-drain}
use spl_rust.Frame.Sound.{encode-next_frame}
use spl_rust.Frame.Stream.{feed_chunks-Encodes}
use spl_rust.Frame.Dialer.{nth_id, allocate_distinct}

-- The first frame of the module's own round-trip test, with a one-byte payload.
abbrev data_frame : Frame
data_frame = record { stream_id = 7; flags = 0x03; payload = 0x68 ∷ [] }

abbrev data_wire : List ℕ
data_wire = 0 ∷ 0 ∷ 0 ∷ 7 ∷ 3 ∷ 0 ∷ 0 ∷ 1 ∷ 0x68 ∷ []

encode_runs : encode data_frame ≡ ok data_wire
unfolding encode has_flag Frame.header_bytes
encode_runs = refl

next_frame_runs :
    next_frame (record { buf = data_wire ++ 9 ∷ [] })
    ≡ (ok (some data_frame), record { buf = 9 ∷ [] })
unfolding next_frame has_flag Frame.header_stream_id Frame.header_flags Frame.header_length
next_frame_runs = refl

reserved_runs :
    (next_frame (record { buf = 0 ∷ 0 ∷ 0 ∷ 1 ∷ 0x80 ∷ 0 ∷ 0 ∷ 0 ∷ [] })).0
    ≡ err (reserved_flag 0x80)
unfolding next_frame has_flag Frame.header_flags
reserved_runs = refl

window_runs : window_credit (window 5 524_599) ≡ some 524_599
unfolding window window_credit
window_runs = refl

encode_cases_example :
    ((2 ^ 24 ≤ length data_frame.payload)
      × (encode data_frame ≡ err (payload_too_large (length data_frame.payload))))
    ⊎ ((length data_frame.payload < 2 ^ 24)
        × (0x80 ≤ data_frame.flags)
        × (encode data_frame ≡ err (reserved_flag data_frame.flags)))
    ⊎ ((length data_frame.payload < 2 ^ 24)
        × (data_frame.flags < 0x80)
        × (bytes : List ℕ) × (encode data_frame ≡ ok bytes)
        × IsLaidOut data_frame bytes)
encode_cases_example = encode_cases data_frame (omega arith) (omega arith)

next_frame-encode_example :
    next_frame (record { buf = data_wire ++ 9 ∷ [] })
    ≡ (ok (some data_frame), record { buf = 9 ∷ [] })
next_frame-encode_example = next_frame-encode data_frame (9 ∷ []) (omega arith) encode_runs

encode-next_frame_example :
    (bytes : List ℕ) × (encode data_frame ≡ ok bytes)
    × (data_wire ++ 9 ∷ [] ≡ bytes ++ 9 ∷ [])
    × (7 < 2 ^ 32)
encode-next_frame_example =
    encode-next_frame (record { buf = data_wire ++ 9 ∷ [] }) (omega arith) next_frame_runs

abbrev waiting : FrameDecoder
waiting = record { buf = 0 ∷ 0 ∷ [] }

drain-IsDrained_example : IsDrained (drain (record { buf = data_wire ++ data_wire }))
drain-IsDrained_example = drain-IsDrained (record { buf = data_wire ++ data_wire })

-- Three reads that cut the header and the payload.
abbrev split_reads : List (List ℕ)
split_reads = (0 ∷ 0 ∷ 0 ∷ []) ∷ (7 ∷ 3 ∷ 0 ∷ []) ∷ (0 ∷ 1 ∷ 0x68 ∷ []) ∷ []

feed_chunks-drain_example :
    (feed_chunks new_decoder split_reads).0 ≡ (drain (feed new_decoder (flatten split_reads))).0
feed_chunks-drain_example = feed_chunks-drain new_decoder split_reads (unfold next_frame in refl)

feed_chunks-Encodes_example : (feed_chunks new_decoder split_reads).0 ≡ ok (data_frame ∷ [])
unfolding flatten
feed_chunks-Encodes_example =
    feed_chunks-Encodes (data_frame ∷ []) split_reads
      (data_wire, [], omega arith, encode_runs, refl, refl)

flags_valid-is_documented_example : flags_valid 0x81 ≡ is_documented 0x81
flags_valid-is_documented_example = flags_valid-is_documented 0x81 (omega arith)

allocate_distinct_example : nth_id 3 ≢ nth_id 4
allocate_distinct_example = allocate_distinct 3 4 (omega arith) (omega arith)
