-- ===== src/Frame.antt =====
-- crates/spl-core/src/frame.rs: the eight-byte frame header, the encoder, the streaming decoder and
-- the stream-id allocator. A byte is a number below 256, a byte vector a list of numbers.
pub mod Wire
pub mod Flags
pub mod Decoder
pub mod Reframe
pub mod Sound
pub mod Stream
pub mod Header
pub mod Dialer
mod Tests
use spl_rust.Base.{
  ℕ, zero, suc, ◌+◌, ◌-◌, ◌*◌, ◌/◌, ◌%◌, ◌^◌, ◌≤◌, ◌<◌, bit_and, bit_or, Bool, true, false, not,
  ◌&&◌, ◌||◌, List, [], ◌∷◌, ◌++◌, Option, none, some, Result, ok, err, ltb, ◌==◌, if◌then◌else◌,
  length, get_or, take, drop, All,
}

abbrev pub flag_open : ℕ
flag_open = 0x01

abbrev pub flag_data : ℕ
flag_data = 0x02

abbrev pub flag_close : ℕ
flag_close = 0x04

abbrev pub flag_reset : ℕ
flag_reset = 0x08

abbrev pub flag_window : ℕ
flag_window = 0x10

abbrev pub flag_ping : ℕ
flag_ping = 0x20

abbrev pub flag_pong : ℕ
flag_pong = 0x40

abbrev pub flag_reserved_mask : ℕ
flag_reserved_mask = 0x80

abbrev pub reset_protocol_error : ℕ
reset_protocol_error = 0x01

abbrev pub reset_flow_control_error : ℕ
reset_flow_control_error = 0x02

abbrev pub reset_stream_limit_exceeded : ℕ
reset_stream_limit_exceeded = 0x03

abbrev pub reset_internal_error : ℕ
reset_internal_error = 0x04

abbrev pub reset_cancel : ℕ
reset_cancel = 0x05

abbrev pub reset_unspecified : ℕ
reset_unspecified = 0xff

abbrev pub header_len : ℕ
header_len = 8

-- The largest length that the three-byte field holds.
abbrev pub max_payload : ℕ
max_payload = 2 ^ 24 - 1

abbrev pub recommended_chunk : ℕ
recommended_chunk = 64 * 1024

abbrev pub control_nonce_len : ℕ
control_nonce_len = 8

unfoldable pub flags_valid : ℕ → Bool
flags_valid flags =
    flags == 0x01
    || flags == 0x02
    || flags == 0x03
    || flags == 0x04
    || flags == 0x05
    || flags == 0x06
    || flags == 0x07
    || flags == 0x08
    || flags == 0x10
    || flags == 0x20
    || flags == 0x40

-- `flags & mask != 0`
unfoldable pub has_flag : ℕ → ℕ → Bool
has_flag flags mask = not (bit_and flags mask == 0)

pub record FrameViolation : Type 0 where
  pub stream_id : ℕ
  pub flags : ℕ
  pub length : ℕ

pub record Frame : Type 0 where
  pub stream_id : ℕ
  pub flags : ℕ
  pub payload : List ℕ

pub data FrameError : Type 0 where
  payload_too_large reserved_flag : ℕ → FrameError

-- `u32::to_be_bytes` and `u32::from_be_bytes`.
unfoldable pub to_be_bytes : ℕ → List ℕ
to_be_bytes n = (n / 2 ^ 24 % 256) ∷ (n / 2 ^ 16 % 256) ∷ (n / 2 ^ 8 % 256) ∷ (n % 256) ∷ []

unfoldable pub from_be_bytes : ℕ → ℕ → ℕ → ℕ → ℕ
from_be_bytes a b c d = ((a * 256 + b) * 256 + c) * 256 + d

-- The eight header bytes: `len` is the payload's length as a `u32`.
unfoldable pub header_bytes : ℕ → ℕ → ℕ → List ℕ
unfolding to_be_bytes
header_bytes stream_id flags len =
    to_be_bytes stream_id ++ (flags ∷ (len / 2 ^ 16 % 256) ∷ (len / 2 ^ 8 % 256) ∷ (len % 256) ∷ [])

unfoldable pub encode : Frame → Result FrameError (List ℕ)
encode f =
    if ltb max_payload (length f.payload)
    then err (payload_too_large (length f.payload))
    else if has_flag f.flags flag_reserved_mask
    then err (reserved_flag f.flags)
    else ok (header_bytes f.stream_id f.flags (length f.payload % 2 ^ 32) ++ f.payload)

unfoldable pub control_ping : List ℕ → Frame
control_ping nonce = record { stream_id = 0; flags = flag_ping; payload = nonce }

unfoldable pub window : ℕ → ℕ → Frame
unfolding to_be_bytes
window stream_id credit = record {
  stream_id = stream_id;
  flags = flag_window;
  payload = to_be_bytes credit;
}

unfoldable pub reset : ℕ → ℕ → Frame
reset stream_id reason = record { stream_id = stream_id; flags = flag_reset; payload = reason ∷ [] }

unfoldable pub control_pong : Frame → Option Frame
control_pong f =
    if f.stream_id == 0 && f.flags == flag_ping && length f.payload == control_nonce_len
    then some (record { stream_id = 0; flags = flag_pong; payload = f.payload })
    else none

unfoldable pub control_pong_nonce : Frame → Option (List ℕ)
control_pong_nonce f =
    if f.stream_id == 0 && f.flags == flag_pong && length f.payload == control_nonce_len
    then some f.payload
    else none

unfoldable pub window_credit : Frame → Option ℕ
unfolding has_flag from_be_bytes
window_credit f =
    if has_flag f.flags flag_window && length f.payload == 4
    then some (
        from_be_bytes (get_or f.payload 0 0) (get_or f.payload 1 0) (get_or f.payload 2 0)
          (get_or f.payload 3 0))
    else none

pub record FrameDecoder : Type 0 where
  pub buf : List ℕ

abbrev pub new_decoder : FrameDecoder
new_decoder = record { buf = [] }

unfoldable pub feed : FrameDecoder → List ℕ → FrameDecoder
feed d bytes = record { buf = d.buf ++ bytes }

-- The three fields of the header at the front of a buffer of at least eight bytes.
unfoldable pub header_stream_id : List ℕ → ℕ
unfolding from_be_bytes
header_stream_id buf =
    from_be_bytes (get_or buf 0 0) (get_or buf 1 0) (get_or buf 2 0) (get_or buf 3 0)

unfoldable pub header_flags : List ℕ → ℕ
header_flags buf = get_or buf 4 0

unfoldable pub header_length : List ℕ → ℕ
header_length buf =
    bit_or (bit_or (get_or buf 5 0 * 2 ^ 16) (get_or buf 6 0 * 2 ^ 8)) (get_or buf 7 0)

-- What `next_frame` cuts off the buffer once a whole frame of `len` payload bytes is there.
unfoldable pub cut_frame : FrameDecoder → ℕ → Frame × FrameDecoder
cut_frame d len = (
  record {
    stream_id = header_stream_id d.buf;
    flags = header_flags d.buf;
    payload = take len (drop header_len d.buf);
  },
  record { buf = drop (header_len + len) d.buf },
)

unfoldable pub next_frame : FrameDecoder → Result FrameError (Option Frame) × FrameDecoder
unfolding cut_frame
next_frame d =
    if ltb (length d.buf) header_len
    then (ok none, d)
    else if has_flag (header_flags d.buf) flag_reserved_mask
    then (err (reserved_flag (header_flags d.buf)), d)
    else if ltb (length d.buf) (header_len + header_length d.buf)
    then (ok none, d)
    else let (f, d') = cut_frame d (header_length d.buf) in (ok (some f), d')

-- The loop of `drain`: it ends when `next_frame` finds no frame, or with its error.
unfoldable pub drain_loop :
    ℕ → FrameDecoder → List Frame → Result FrameError (List Frame) × FrameDecoder
drain_loop zero d out = (ok out, d)
drain_loop (suc fuel) d out =
    let (r, d') = next_frame d in
    elim r [
      | ok (some f) ↦ drain_loop fuel d' (out ++ f ∷ [])
      | ok none ↦ (ok out, d')
      | err e ↦ (err e, d')
    ]

-- Each round takes eight bytes at least, so `length d.buf` rounds and one more are enough.
unfoldable pub drain : FrameDecoder → Result FrameError (List Frame) × FrameDecoder
drain d = drain_loop (suc (length d.buf)) d []

pub record FrameDialer : Type 0 where
  pub next : ℕ

abbrev pub new_dialer : FrameDialer
new_dialer = record { next = 1 }

unfoldable pub allocate : FrameDialer → ℕ × FrameDialer
allocate d = (d.next, record { next = (d.next + 2) % 2 ^ 32 })
