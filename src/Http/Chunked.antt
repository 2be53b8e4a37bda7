-- ===== src/Http/Chunked.antt =====
-- `ChunkedDecoder` and `dechunk` of crates/spl-core/src/http.rs. `lossy` stands for
-- `String::from_utf8_lossy`, the text of a line of bytes.
use spl_rust.Base.{
  ℕ, zero, suc, ◌+◌, Bool, true, false, not, List, [], ◌++◌, Option, none, some, Result, ok, err,
  ltb, ◌==◌, length, take, drop, if◌then◌else◌,
}
use spl_rust.Http.{
  HttpError, bad_chunked_body, previously_failed, missing_chunk_terminator, missing_size_line,
  truncated_chunk, missing_terminal_chunk, crlf, starts_with, find_subsequence, parse_chunk_size,
}

pub data ChunkState : Type 0 where
  size : ChunkState
  chunk_data : ℕ → ChunkState
  data_crlf trailer done failed : ChunkState

pub record ChunkedDecoder : Type 0 where
  pub buf : List ℕ
  pub state : ChunkState

abbrev pub new_chunked : ChunkedDecoder
new_chunked = record { buf = []; state = size }

unfoldable pub is_complete : ChunkedDecoder → Bool
is_complete d = elim d.state [ done ↦ true | _ ↦ false ]

abbrev pub fail : HttpError → Result HttpError (List ℕ) × ChunkedDecoder
fail e = (err e, record { buf = []; state = failed })

-- What one round of the loop of `push` does: it breaks, goes on with newly decoded bytes, ends the
-- body, or fails.
pub data Round : Type 0 where
  waits : Round
  goes : List ℕ → ChunkedDecoder → Round
  ends : Round
  faults : HttpError → Round

module _ (lossy : List ℕ → List ℕ) where
  unfoldable pub round_on : ChunkState → List ℕ → Round
  round_on size buf = elim (find_subsequence buf crlf) [
    | none ↦ waits
    | some line_end ↦ elim (parse_chunk_size (lossy (take line_end buf))) [
      | ok n ↦ goes [] (record {
        buf = drop (line_end + 2) buf;
        state = if n == 0 then trailer else chunk_data n;
      })
      | err e ↦ faults e
    ]
  ]
  round_on (chunk_data n) buf =
      if ltb (length buf) n
      then waits
      else goes (take n buf) (record { buf = drop n buf; state = data_crlf })
  round_on data_crlf buf =
      if ltb (length buf) 2
      then waits
      else if not (starts_with buf crlf)
      then faults (bad_chunked_body missing_chunk_terminator)
      else goes [] (record { buf = drop 2 buf; state = size })
  round_on trailer buf =
      if starts_with buf crlf
      then ends
      else elim (find_subsequence buf (crlf ++ crlf)) [ none ↦ waits | some _ ↦ ends ]
  round_on done buf = waits
  round_on failed buf = waits

  unfoldable pub push_rounds :
      ℕ → ChunkedDecoder → List ℕ → Result HttpError (List ℕ) × ChunkedDecoder
  push_rounds zero d out = (ok out, d)
  push_rounds (suc fuel) d out = elim (round_on d.state d.buf) [
    | waits ↦ (ok out, d)
    | goes bytes d' ↦ push_rounds fuel d' (out ++ bytes)
    | ends ↦ (ok out, record { buf = []; state = done })
    | faults e ↦ fail e
  ]

  -- A round takes a byte at least, or turns from a chunk's data to its terminator.
  unfoldable pub push_open : ChunkedDecoder → Result HttpError (List ℕ) × ChunkedDecoder
  push_open d = push_rounds (suc (suc (length d.buf))) d []

  unfoldable pub push_on :
      ChunkState → ChunkedDecoder → List ℕ → Result HttpError (List ℕ) × ChunkedDecoder
  push_on done d bytes = (ok [], d)
  push_on failed d bytes = (err (bad_chunked_body previously_failed), d)
  push_on _ d bytes = push_open (record d { buf = d.buf ++ bytes })

  unfoldable pub push : ChunkedDecoder → List ℕ → Result HttpError (List ℕ) × ChunkedDecoder
  push d bytes = push_on d.state d bytes

  -- One chunk of `dechunk` off the bytes at `index`: `none` is the terminal chunk.
  unfoldable pub chunk_at : List ℕ → Result HttpError (Option (List ℕ × List ℕ))
  chunk_at raw = elim (find_subsequence raw crlf) [
    | none ↦ err (bad_chunked_body missing_size_line)
    | some line_end ↦ elim (parse_chunk_size (lossy (take line_end raw))) [
      | err e ↦ err e
      | ok n ↦
          let after_line = drop (line_end + 2) raw in
          if n == 0
          then ok none
          else if ltb (length after_line) n
          then err (bad_chunked_body truncated_chunk)
          else if not (starts_with (drop n after_line) crlf)
          then err (bad_chunked_body missing_chunk_terminator)
          else ok (some (take n after_line, drop (n + 2) after_line))
    ]
  ]

  unfoldable pub dechunk_rounds : ℕ → List ℕ → List ℕ → Result HttpError (List ℕ)
  dechunk_rounds zero raw out = err (bad_chunked_body missing_terminal_chunk)
  dechunk_rounds (suc fuel) raw out =
      if length raw == 0
      then err (bad_chunked_body missing_terminal_chunk)
      else elim (chunk_at raw) [
        | err e ↦ err e
        | ok none ↦ ok out
        | ok (some (bytes, rest)) ↦ dechunk_rounds fuel rest (out ++ bytes)
      ]

  -- Each round takes four bytes at least, so one round for each byte is enough.
  unfoldable pub dechunk : List ℕ → Result HttpError (List ℕ)
  dechunk raw = dechunk_rounds (suc (length raw)) raw []
