-- ===== src/Mux.antt =====
-- crates/spl-core/src/mux.rs: the errors and the receive window. Mux/Upload has the windowed upload.
pub mod Credit
pub mod Upload
pub mod Events
pub mod Assembler
pub mod Carrier
pub mod Response
mod Tests
use spl_rust.Base.{
  ℕ, ◌+◌, ◌-◌, ◌*◌, ◌/◌, ◌^◌, Option, none, some, Result, ok, err, ltb, if◌then◌else◌,
}
use spl_rust.Base.Maybe.{◌>>=◌, checked_sub}
use spl_rust.Frame.{FrameError, FrameViolation}
use spl_rust.Http.{HttpError}

abbrev pub initial_window : ℕ
initial_window = 2 ^ 20

abbrev pub upload_body_stage_capacity : ℕ
upload_body_stage_capacity = 256 * 1024

abbrev pub receive_grant_threshold : ℕ
receive_grant_threshold = initial_window / 2

abbrev pub max_assembled_bytes : ℕ
max_assembled_bytes = 4 * 1024 * 1024

pub data MuxError : Type 0 where
  frame_error : FrameError → MuxError
  stream_reset incomplete : MuxError
  http_error : HttpError → MuxError
  cap_exceeded flow_control : MuxError
  protocol : FrameViolation → MuxError

pub record RecvWindow : Type 0 where
  pub credit : ℕ
  pub unacked : ℕ

abbrev pub new_recv_window : RecvWindow
new_recv_window = record { credit = initial_window; unacked = 0 }

unfoldable pub debit : RecvWindow → ℕ → Result MuxError RecvWindow
debit w wire_len =
    if ltb w.credit wire_len
    then err flow_control
    else ok (record w { credit = w.credit - wire_len })

-- The grant, or its absence, with the window after it.
unfoldable pub grant_consumed : RecvWindow → Option (Option ℕ × RecvWindow)
grant_consumed w =
    if ltb w.unacked receive_grant_threshold
    then some (none, w)
    else if ltb w.unacked (2 ^ 32)
    then some (some w.unacked, record { credit = w.credit + w.unacked; unacked = 0 })
    else none

-- `none` is a panic: an `expect` on an accounting invariant, or the `assert` on the argument.
unfoldable pub consume : RecvWindow → ℕ → Option (Option ℕ × RecvWindow)
unfolding grant_consumed
consume w bytes = do
  debited ← checked_sub initial_window w.credit
  outstanding ← checked_sub debited w.unacked
  if ltb outstanding bytes then none else grant_consumed (record w { unacked = w.unacked + bytes })
