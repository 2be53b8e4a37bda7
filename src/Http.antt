-- ===== src/Http.antt =====
-- crates/spl-core/src/http.rs: errors, the search for a byte sequence, and the size of a chunk. A string
-- is the list of its characters, each a number.
pub mod Search
pub mod Chunked
pub mod Rounds
pub mod Split
pub mod Message
mod Tests
use spl_rust.Base.{
  ℕ, suc, ◌+◌, ◌-◌, ◌*◌, ◌/◌, ◌%◌, Bool, true, false, not, ◌&&◌, ◌||◌, List, [], ◌∷◌, ◌++◌, Option,
  none, some, Result, ok, err, ltb, leb, ◌==◌, length, if◌then◌else◌,
}
use spl_rust.Base.Maybe.{◌>>=◌, word_max}
use spl_rust.Frame.{max_payload}

-- What the text of `BadChunkedBody` tells: the cause, with the offending field or size.
pub data ChunkFault : Type 0 where
  bad_chunk_size : List ℕ → ChunkFault
  exceeds_max : ℕ → ChunkFault
  previously_failed missing_chunk_terminator missing_size_line truncated_chunk
        missing_terminal_chunk :
      ChunkFault

pub data HttpError : Type 0 where
  missing_terminator missing_status_line : HttpError
  bad_status_line : List ℕ → HttpError
  truncated_body : HttpError
  bad_chunked_body : ChunkFault → HttpError

abbrev pub crlf : List ℕ
crlf = 13 ∷ 10 ∷ []

-- `haystack.starts_with(needle)`
unfoldable pub starts_with : List ℕ → List ℕ → Bool
starts_with xs [] = true
starts_with [] (y ∷ ys) = false
starts_with (x ∷ xs) (y ∷ ys) = x == y && starts_with xs ys

abbrev pub one_further : Option ℕ → Option ℕ
one_further none = none
one_further (some p) = some (suc p)

-- `windows(needle.len()).position(..)` of a needle that is not empty.
unfoldable pub position_of : List ℕ → List ℕ → Option ℕ
position_of [] needle = none
position_of (x ∷ xs) needle =
    let rest = position_of xs needle in
    if starts_with (x ∷ xs) needle then some 0 else one_further rest

unfoldable pub find_subsequence : List ℕ → List ℕ → Option ℕ
find_subsequence haystack needle =
    if length needle == 0 || ltb (length haystack) (length needle)
    then none
    else position_of haystack needle

-- `char::is_whitespace`, the characters with the property White_Space.
unfoldable pub is_whitespace : ℕ → Bool
is_whitespace c =
    (leb 9 c && leb c 13)
    || c == 32
    || c == 0x85
    || c == 0xa0
    || c == 0x1680
    || (leb 0x2000 c && leb c 0x200a)
    || c == 0x2028
    || c == 0x2029
    || c == 0x202f
    || c == 0x205f
    || c == 0x3000

unfoldable pub trim_start : List ℕ → List ℕ
trim_start [] = []
trim_start (c ∷ cs) = let rest = trim_start cs in if is_whitespace c then rest else c ∷ cs

unfoldable pub trim_end : List ℕ → List ℕ
trim_end [] = []
trim_end (c ∷ cs) =
    let rest = trim_end cs in if length rest == 0 && is_whitespace c then [] else c ∷ rest

unfoldable pub trim : List ℕ → List ℕ
trim cs = trim_end (trim_start cs)

-- `line.split(';').next()`
unfoldable pub before_semicolon : List ℕ → List ℕ
before_semicolon [] = []
before_semicolon (c ∷ cs) = let rest = before_semicolon cs in if c == 59 then [] else c ∷ rest

-- `char::to_digit(16)`
unfoldable pub hex_digit : ℕ → Option ℕ
hex_digit c =
    if leb 48 c && leb c 57
    then some (c - 48)
    else if leb 65 c && leb c 70
    then some (c - 55)
    else if leb 97 c && leb c 102
    then some (c - 87)
    else none

unfoldable pub parse_hex : ℕ → List ℕ → Option ℕ
parse_hex value [] = some value
parse_hex value (c ∷ cs) = hex_digit c >>= λ d.
    if ltb word_max (value * 16 + d) then none else parse_hex (value * 16 + d) cs

-- `usize::from_str_radix(s, 16)`: a sign `+` is read, an empty number and an overflow are errors.
unfoldable pub from_str_radix : List ℕ → Option ℕ
from_str_radix [] = none
from_str_radix (c ∷ []) = parse_hex 0 (c ∷ [])
from_str_radix (c ∷ d ∷ cs) = if c == 43 then parse_hex 0 (d ∷ cs) else parse_hex 0 (c ∷ d ∷ cs)

unfoldable pub parse_chunk_size : List ℕ → Result HttpError ℕ
parse_chunk_size line =
    let size_field = trim (before_semicolon line) in
    elim (from_str_radix size_field) [
      | none ↦ err (bad_chunked_body (bad_chunk_size size_field))
      | some size ↦
          if ltb max_payload size then err (bad_chunked_body (exceeds_max size)) else ok size
    ]
