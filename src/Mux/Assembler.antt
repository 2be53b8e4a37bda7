-- ===== src/Mux/Assembler.antt =====
-- `HttpStreamAssembler` of crates/spl-core/src/mux.rs: head, body and chunks of one response stream.
-- `lossy` stands for `String::from_utf8_lossy`.
pub mod Costs
use spl_rust.Base.{
  ℕ, ◌+◌, ◌-◌, Bool, true, false, List, [], ◌∷◌, ◌++◌, Option, none, some, Result, ok, err, ltb,
  ◌==◌, length, take, drop, min, if◌then◌else◌,
}
use spl_rust.Http.{crlf, find_subsequence}
use spl_rust.Http.Chunked.{ChunkedDecoder, new_chunked, push}
use spl_rust.Http.Message.{parse_head, header_lookup, is_chunked, transfer_encoding_name}
use spl_rust.Mux.{MuxError, http_error, cap_exceeded, max_assembled_bytes}
use spl_rust.Mux.Events.{
  ResetReason, StreamEnd, close, reset, eof, StreamItem, head, body, ended, StreamEvent, uncosted,
}

pub record HttpStreamAssembler : Type 0 where
  pub head_buf : List ℕ
  pub head_emitted : Bool
  pub chunked : Bool
  pub chunked_decoder : ChunkedDecoder
  pub pending_body_wire : ℕ
  pub closed : Bool

abbrev pub new_assembler : HttpStreamAssembler
new_assembler = record {
  head_buf = [];
  head_emitted = false;
  chunked = false;
  chunked_decoder = new_chunked;
  pending_body_wire = 0;
  closed = false;
}

pub record AssemblerOutput : Type 0 where
  pub events : List StreamEvent
  pub auto_consumed : ℕ

abbrev pub no_assembly : AssemblerOutput
no_assembly = record { events = []; auto_consumed = 0 }

abbrev pub Assembled : Type 0
Assembled = Result MuxError AssemblerOutput × HttpStreamAssembler

-- The end of `feed_body`: a body that is not empty takes the wire bytes that wait for it.
unfoldable pub deliver : HttpStreamAssembler → List ℕ → AssemblerOutput → Assembled
deliver a bytes out = if length bytes == 0 then (ok out, a) else (
  ok (record out {
    events = out.events ++ record { item = body bytes; wire_cost = a.pending_body_wire } ∷ [];
  }),
  record a { pending_body_wire = 0 },
)

-- `terminator` ends a response head.
abbrev pub terminator : List ℕ
terminator = crlf ++ crlf

module _ (lossy : List ℕ → List ℕ) where
  unfoldable pub decode_body : HttpStreamAssembler → List ℕ → AssemblerOutput → Assembled
  decode_body a payload out =
      let (r, d) = push lossy a.chunked_decoder payload in
      let a' : HttpStreamAssembler = record a { chunked_decoder = d } in
      elim r [ ok bytes ↦ deliver a' bytes out | err e ↦ (err (http_error e), a') ]

  unfoldable pub feed_body : HttpStreamAssembler → List ℕ → AssemblerOutput → Assembled
  feed_body a payload out =
      let a' : HttpStreamAssembler = record a {
        pending_body_wire = a.pending_body_wire + length payload;
      } in
      if length payload == 0
      then (ok out, a)
      else if a.chunked
      then decode_body a' payload out
      else deliver a' payload out

  -- `feed_data` once the head is whole and read: `buf` is the head with what follows it.
  unfoldable pub begin_body :
      HttpStreamAssembler → List ℕ → List ℕ → ℕ → ℕ × List (List ℕ × List ℕ) → Assembled
  begin_body a payload buf split (status, headers) =
      let a' : HttpStreamAssembler = record a {
        chunked = is_chunked lossy (header_lookup lossy headers transfer_encoding_name);
        head_emitted = true;
        head_buf = [];
      } in
      let out : AssemblerOutput = record {
        events = uncosted (head (record { status = status; headers = headers })) ∷ [];
        auto_consumed = min (split + 4 - length a.head_buf) (length payload);
      } in
      let rest = drop (split + 4) buf in
      if length rest == 0 then (ok out, a') else feed_body a' rest out

  -- `feed_data` while the head is not whole.
  unfoldable pub feed_head : HttpStreamAssembler → List ℕ → Assembled
  feed_head a payload =
      let buf = a.head_buf ++ payload in
      let a' : HttpStreamAssembler = record a { head_buf = buf } in
      elim (find_subsequence buf terminator) [
        | none ↦
            if ltb max_assembled_bytes (length buf)
            then (err cap_exceeded, a')
            else (ok (record { events = []; auto_consumed = length payload }), a')
        | some split ↦ elim (parse_head lossy (take split buf)) [
          | err e ↦ (err (http_error e), a')
          | ok parsed ↦ begin_body a payload buf split parsed
        ]
      ]

  unfoldable pub feed_data : HttpStreamAssembler → List ℕ → Assembled
  feed_data a payload =
      if a.head_emitted then feed_body a payload no_assembly else feed_head a payload

-- The three ways a stream ends: the assembler is closed, and no wire bytes wait any more.
abbrev shut : HttpStreamAssembler → HttpStreamAssembler
shut a = record a { closed = true; pending_body_wire = 0 }

unfoldable pub close_assembler : HttpStreamAssembler → StreamItem × HttpStreamAssembler
close_assembler a = (ended close, shut a)

unfoldable pub reset_assembler :
    HttpStreamAssembler → ResetReason → StreamItem × HttpStreamAssembler
reset_assembler a reason = (ended (reset reason), shut a)

unfoldable pub finish_assembler : HttpStreamAssembler → StreamItem × HttpStreamAssembler
finish_assembler a = (ended eof, shut a)
