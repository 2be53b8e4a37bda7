-- ===== src/Mux/Upload.antt =====
-- `WindowedUpload` of crates/spl-core/src/mux.rs: the request side of one dialer stream. A subtraction
-- here stops at 0; `IsStaged` of Mux/Upload/Staged says when each of them is in range.
pub mod Staged
pub mod Polling
pub mod Delivery
pub mod Capacity
mod Tests
use spl_rust.Base.{
  ℕ, ◌+◌, ◌-◌, ◌^◌, bit_or, Bool, true, false, not, ◌&&◌, ◌||◌, List, [], ◌∷◌, ◌++◌, Option, none,
  some, Result, ok, err, ltb, ◌==◌, length, take, drop, min, if◌then◌else◌,
}
use spl_rust.Base.Maybe.{checked_add}
use spl_rust.Frame.{
  Frame, FrameError, FrameViolation, encode, flag_open, flag_data, flag_close, flag_window,
  max_payload, recommended_chunk,
}
use spl_rust.Mux.{initial_window, upload_body_stage_capacity}

pub data UploadBodyError : Type 0 where
  declared_length_exceeded stage_capacity_exceeded : UploadBodyError

pub record WindowedUpload : Type 0 where
  pub stream_id : ℕ
  pub head : List ℕ
  pub head_offset : ℕ
  pub body : List ℕ
  pub declared_body_len : ℕ
  pub fed_body_len : ℕ
  pub emitted_body_len : ℕ
  pub send_credit : ℕ
  pub opened : Bool
  pub closed : Bool

abbrev pub new_upload : ℕ → List ℕ → ℕ → WindowedUpload
new_upload stream_id request_head declared_body_len = record {
  stream_id = stream_id;
  head = request_head;
  head_offset = 0;
  body = [];
  declared_body_len = declared_body_len;
  fed_body_len = 0;
  emitted_body_len = 0;
  send_credit = initial_window;
  opened = false;
  closed = false;
}

unfoldable pub body_capacity : WindowedUpload → ℕ
body_capacity u =
    min (upload_body_stage_capacity - length u.body) (u.declared_body_len - u.fed_body_len)

-- An error leaves the upload as it was.
unfoldable pub feed_body : WindowedUpload → List ℕ → Result UploadBodyError WindowedUpload
feed_body u bytes =
    if ltb (u.declared_body_len - u.fed_body_len) (length bytes)
    then err declared_length_exceeded
    else if ltb (upload_body_stage_capacity - length u.body) (length bytes)
    then err stage_capacity_exceeded
    else ok (record u { body = u.body ++ bytes; fed_body_len = u.fed_body_len + length bytes })

-- `i32::MAX`
abbrev pub max_credit : ℕ
max_credit = 2 ^ 31 - 1

unfoldable pub grant : WindowedUpload → ℕ → Result FrameViolation WindowedUpload
grant u credit =
    let violation : FrameViolation = record {
      stream_id = u.stream_id;
      flags = flag_window;
      length = 4;
    } in
    elim (checked_add u.send_credit credit) [
      | none ↦ err violation
      | some next ↦
          if ltb max_credit next then err violation else ok (record u { send_credit = next })
    ]

abbrev pub head_remaining : WindowedUpload → ℕ
head_remaining u = length u.head - u.head_offset

-- What the next DATA frame may be cut from: the head while some of it is left, then the body.
abbrev pub available : WindowedUpload → ℕ
available u = if ltb 0 (head_remaining u) then head_remaining u else length u.body

abbrev pub chunk_len : WindowedUpload → ℕ
chunk_len u = min (min (min (available u) recommended_chunk) max_payload) u.send_credit

unfoldable pub take_chunk : WindowedUpload → ℕ → List ℕ × WindowedUpload
take_chunk u n =
    if ltb 0 (head_remaining u)
    then (take n (drop u.head_offset u.head), record u { head_offset = u.head_offset + n })
    else (
      take n u.body,
      record u { body = drop n u.body; emitted_body_len = u.emitted_body_len + n },
    )

unfoldable pub data_frame : WindowedUpload → Frame × WindowedUpload
data_frame u =
    let n = chunk_len u in
    let (chunk, u') = take_chunk u n in
    (
      record {
        stream_id = u'.stream_id;
        flags = if u'.opened then flag_data else bit_or flag_open flag_data;
        payload = chunk;
      },
      record u' { opened = true; send_credit = u'.send_credit - n },
    )

unfoldable pub close_frame : WindowedUpload → Option Frame × WindowedUpload
close_frame u =
    if not u.closed
      && u.fed_body_len == u.declared_body_len
      && u.emitted_body_len == u.declared_body_len
    then (
      some (record { stream_id = u.stream_id; flags = flag_close; payload = [] }),
      record u { closed = true },
    )
    else (none, u)

-- The frame that `poll_send` encodes, with the upload after it.
unfoldable pub poll_frame : WindowedUpload → Option Frame × WindowedUpload
poll_frame u =
    if ltb 0 (available u)
    then if u.send_credit == 0 then (none, u) else (let (f, u') = data_frame u in (some f, u'))
    else close_frame u

unfoldable pub encode_polled :
    Option Frame → WindowedUpload → Result FrameError (Option (List ℕ)) × WindowedUpload
encode_polled none u = (ok none, u)
encode_polled (some f) u = elim (encode f) [ ok bytes ↦ (ok (some bytes), u) | err e ↦ (err e, u) ]

unfoldable pub poll_send : WindowedUpload → Result FrameError (Option (List ℕ)) × WindowedUpload
poll_send u = let (f, u') = poll_frame u in encode_polled f u'

abbrev pub is_done : WindowedUpload → Bool
is_done u = u.closed

unfoldable pub is_blocked : WindowedUpload → Bool
is_blocked u =
    not u.closed
    && u.send_credit == 0
    && (ltb u.head_offset (length u.head) || not (length u.body == 0))
