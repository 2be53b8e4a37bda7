-- ===== src/Home/Calls.antt =====
-- The local side of crates/spl-home/src/mux.rs: `consume`, `try_send_data`, `close_write`, `reset`
-- and `finish_eof`.
use spl_rust.Base.{
  ℕ, true, not, List, [], ◌∷◌, Option, none, some, Result, ok, err, ltb, ◌==◌, length,
  if◌then◌else◌,
}
use spl_rust.Base.Assoc.{lookup, contains_key}
use spl_rust.Base.Maybe.{checked_sub}
use spl_rust.Frame.{Frame, recommended_chunk, flag_data, flag_close, window}
use spl_rust.Frame
use spl_rust.Mux
use spl_rust.Home.Types.{
  internal, HomeError, closed, MuxOutput, no_output, StreamState, ResetReason, reason_code,
  peer_gone,
}
use spl_rust.Home.State.{MuxAcceptor, push_frame, set_stream, remove_stream}
use spl_rust.Home.Feed.{refused_as}

-- A call's answer with the acceptor after it, or the panic of `RecvWindow::consume`.
pub data Answer (A : Type 0) : Type 0 where
  answered : Result HomeError A → MuxAcceptor → Answer A
  panicked : Answer A

-- The WINDOW frame of `consume`, if a grant is due.
abbrev pub window_output : ℕ → Option ℕ → MuxOutput
window_output stream_id none = no_output
window_output stream_id (some grant) = push_frame no_output (window stream_id grant)

unfoldable pub consume_on : MuxAcceptor → ℕ → ℕ → StreamState → Answer MuxOutput
consume_on a stream_id bytes s =
    if ltb s.debited_not_consumed bytes
    then answered (err (refused_as internal)) a
    else elim (Mux.consume s.receive_window bytes) [
      | none ↦ panicked
      | some (grant, w) ↦ elim (checked_sub s.debited_not_consumed bytes) [
        | none ↦
            answered (err (refused_as internal))
              (set_stream a stream_id (record s { receive_window = w }))
        | some left ↦
            answered (ok (window_output stream_id grant)) (
              set_stream a stream_id (record s { receive_window = w; debited_not_consumed = left }))
      ]
    ]

unfoldable pub consume : MuxAcceptor → ℕ → ℕ → Answer MuxOutput
consume a stream_id bytes = elim (lookup stream_id a.streams) [
  | none ↦ answered (err closed) a
  | some s ↦ consume_on a stream_id bytes s
]

unfoldable pub send_on :
    MuxAcceptor → ℕ → List ℕ → StreamState → Result HomeError (Option MuxOutput) × MuxAcceptor
send_on a stream_id bytes s =
    if s.local_closed
    then (err closed, a)
    else if ltb s.send_credit (length bytes)
    then (ok none, a)
    else elim (checked_sub s.send_credit (length bytes)) [
      | none ↦ (err (refused_as internal), a)
      | some left ↦ (
        ok (
            some (
              push_frame no_output
                (record { stream_id = stream_id; flags = flag_data; payload = bytes }))),
        set_stream a stream_id (record s { send_credit = left }),
      )
    ]

unfoldable pub try_send_data :
    MuxAcceptor → ℕ → List ℕ → Result HomeError (Option MuxOutput) × MuxAcceptor
try_send_data a stream_id bytes =
    if ltb recommended_chunk (length bytes)
    then (err (refused_as internal), a)
    else elim (lookup stream_id a.streams) [
      | none ↦ (err closed, a)
      | some s ↦ send_on a stream_id bytes s
    ]

unfoldable pub close_write_on :
    MuxAcceptor → ℕ → StreamState → Result HomeError MuxOutput × MuxAcceptor
close_write_on a stream_id s =
    if s.local_closed
    then (err closed, a)
    else let a' = set_stream a stream_id (record s { local_closed = true }) in
      (
        ok (
            push_frame no_output
              (record { stream_id = stream_id; flags = flag_close; payload = [] })),
        if s.peer_closed then remove_stream a' stream_id else a',
      )

unfoldable pub close_write : MuxAcceptor → ℕ → Result HomeError MuxOutput × MuxAcceptor
close_write a stream_id = elim (lookup stream_id a.streams) [
  | none ↦ (err closed, a)
  | some s ↦ close_write_on a stream_id s
]

unfoldable pub reset : MuxAcceptor → ℕ → ResetReason → Result HomeError MuxOutput × MuxAcceptor
reset a stream_id reason =
    if contains_key stream_id a.streams
    then (
      ok (push_frame no_output (Frame.reset stream_id (reason_code reason))),
      remove_stream a stream_id,
    )
    else (err closed, a)

unfoldable pub finish_eof : MuxAcceptor → MuxOutput × MuxAcceptor
finish_eof a = (
  record no_output { events = peer_gone (not (a.decoder_buffered_bytes == 0)) ∷ [] },
  record a { streams = [] },
)
