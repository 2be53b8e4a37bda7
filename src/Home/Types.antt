-- ===== src/Home/Types.antt =====
-- crates/spl-home/src/{config,error}.rs and the types of mux.rs.
use spl_rust.Base.{
  ℕ, ◌+◌, ◌-◌, ◌^◌, Bool, List, [], Option, Result, ok, err, ltb, ◌==◌, if◌then◌else◌, min,
}
use spl_rust.Frame.{
  Frame, FrameError, FrameViolation, header_len, max_payload, reset_protocol_error,
  reset_flow_control_error, reset_stream_limit_exceeded, reset_internal_error, reset_cancel,
  reset_unspecified,
}
use spl_rust.Mux.{RecvWindow}

pub data ConfigError : Type 0 where
  zero_concurrent_stream_cap decoder_below_maximum_frame : ConfigError

pub data PairWindowRefusal : Type 0 where
  wrong_relay_key consumed expired : PairWindowRefusal

pub data RefusalClass : Type 0 where
  protocol stream_limit flow_control internal : RefusalClass

pub record Refusal : Type 0 where
  pub class : RefusalClass
  pub violation : Option FrameViolation

pub data HomeError : Type 0 where
  tls tls_config pair_window_ca_identity : HomeError
  pair_window_refused : PairWindowRefusal → HomeError
  config : ConfigError → HomeError
  frame : FrameError → HomeError
  refused : Refusal → HomeError
  peer_gone stream_id_exhausted closed : HomeError

pub record MuxLimits : Type 0 where
  pub max_concurrent_streams : ℕ
  pub decoder_buffer_bytes : ℕ

abbrev pub default_max_concurrent_streams : ℕ
default_max_concurrent_streams = 256

abbrev pub default_decoder_buffer_bytes : ℕ
default_decoder_buffer_bytes = 16_777_223

abbrev pub default_limits : MuxLimits
default_limits = record {
  max_concurrent_streams = default_max_concurrent_streams;
  decoder_buffer_bytes = default_decoder_buffer_bytes;
}

unfoldable pub validate : MuxLimits → Result ConfigError (Unit {0})
validate limits =
    if limits.max_concurrent_streams == 0
    then err zero_concurrent_stream_cap
    else if ltb limits.decoder_buffer_bytes (header_len + max_payload)
    then err decoder_below_maximum_frame
    else ok tt

pub data ResetReason : Type 0 where
  protocol_error flow_control_error stream_limit_exceeded internal_error cancel unspecified :
      ResetReason

unfoldable pub reason_code : ResetReason → ℕ
reason_code protocol_error = reset_protocol_error
reason_code flow_control_error = reset_flow_control_error
reason_code stream_limit_exceeded = reset_stream_limit_exceeded
reason_code internal_error = reset_internal_error
reason_code cancel = reset_cancel
reason_code unspecified = reset_unspecified

unfoldable pub reason_from_wire : ℕ → ResetReason
reason_from_wire code =
    if code == reset_protocol_error
    then protocol_error
    else if code == reset_flow_control_error
    then flow_control_error
    else if code == reset_stream_limit_exceeded
    then stream_limit_exceeded
    else if code == reset_internal_error
    then internal_error
    else if code == reset_cancel
    then cancel
    else unspecified

unfoldable pub reason_from_class : RefusalClass → ResetReason
reason_from_class protocol = protocol_error
reason_from_class stream_limit = stream_limit_exceeded
reason_from_class flow_control = flow_control_error
reason_from_class internal = internal_error

unfoldable pub reset_code : RefusalClass → ℕ
unfolding reason_code reason_from_class
reset_code c = reason_code (reason_from_class c)

abbrev pub u64_max : ℕ
u64_max = 2 ^ 64 - 1

pub record RefusalCounts : Type 0 where
  pub stream_limit : ℕ
  pub flow_control : ℕ
  pub protocol : ℕ
  pub internal : ℕ

abbrev pub no_refusals : RefusalCounts
no_refusals = record { stream_limit = 0; flow_control = 0; protocol = 0; internal = 0 }

-- `*counter = counter.saturating_add(1)`
unfoldable pub record_refusal : RefusalCounts → RefusalClass → RefusalCounts
record_refusal c protocol = record c { protocol = min (c.protocol + 1) u64_max }
record_refusal c stream_limit = record c { stream_limit = min (c.stream_limit + 1) u64_max }
record_refusal c flow_control = record c { flow_control = min (c.flow_control + 1) u64_max }
record_refusal c internal = record c { internal = min (c.internal + 1) u64_max }

pub data MuxEvent : Type 0 where
  opened : ℕ → MuxEvent
  data_bytes : ℕ → List ℕ → MuxEvent
  read_closed : ℕ → MuxEvent
  reset : ℕ → ResetReason → MuxEvent
  peer_gone : Bool → MuxEvent

pub record MuxOutput : Type 0 where
  pub frames : List Frame
  pub events : List MuxEvent
  pub refusals : List Refusal
  pub writable_streams : List ℕ

abbrev pub no_output : MuxOutput
no_output = record { frames = []; events = []; refusals = []; writable_streams = [] }

pub record StreamState : Type 0 where
  pub receive_window : RecvWindow
  pub debited_not_consumed : ℕ
  pub send_credit : ℕ
  pub peer_closed : Bool
  pub local_closed : Bool
