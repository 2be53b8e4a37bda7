-- ===== src/Http/Message.antt =====
-- Requests and responses of crates/spl-core/src/http.rs. What is written is a list of bytes, what is
-- read from a head is text: `lossy` stands for `String::from_utf8_lossy`.
use spl_rust.Base.{
  ℕ, zero, suc, ◌+◌, ◌-◌, ◌*◌, ◌/◌, ◌%◌, Bool, true, false, not, ◌&&◌, ◌||◌, List, [], ◌∷◌, ◌++◌,
  map, Option, none, some, Result, ok, err, ltb, leb, ◌==◌, length, take, drop, if◌then◌else◌,
}
use spl_rust.Base.Maybe.{◌>>=◌, word_max}
use spl_rust.Http.{
  HttpError, missing_terminator, bad_status_line, truncated_body, crlf, find_subsequence, trim,
}
use spl_rust.Http.Chunked.{dechunk}

pub record HttpResponse : Type 0 where
  pub status : ℕ
  pub headers : List (List ℕ × List ℕ)
  pub body : List ℕ

-- The first value under a key that `same` accepts.
unfoldable pub find_header : (List ℕ → Bool) → List (List ℕ × List ℕ) → Option (List ℕ × List ℕ)
find_header same [] = none
find_header same (h ∷ hs) = let rest = find_header same hs in if same h.0 then some h else rest

unfoldable pub is_success : HttpResponse → Bool
is_success r = leb 200 r.status && ltb r.status 300

unfoldable pub to_ascii_lowercase : ℕ → ℕ
to_ascii_lowercase c = if leb 65 c && leb c 90 then c + 32 else c

unfoldable pub same_text : List ℕ → List ℕ → Bool
same_text [] [] = true
same_text [] (y ∷ ys) = false
same_text (x ∷ xs) [] = false
same_text (x ∷ xs) (y ∷ ys) = x == y && same_text xs ys

unfoldable pub eq_ignore_ascii_case : List ℕ → List ℕ → Bool
eq_ignore_ascii_case xs ys = same_text (map to_ascii_lowercase xs) (map to_ascii_lowercase ys)

-- `spl.local`
abbrev pub default_http_host : List ℕ
default_http_host = 115 ∷ 112 ∷ 108 ∷ 46 ∷ 108 ∷ 111 ∷ 99 ∷ 97 ∷ 108 ∷ []

-- `host`
abbrev pub host_name : List ℕ
host_name = 104 ∷ 111 ∷ 115 ∷ 116 ∷ []

-- `content-length`
abbrev pub content_length_name : List ℕ
content_length_name =
    99 ∷ 111 ∷ 110 ∷ 116 ∷ 101 ∷ 110 ∷ 116 ∷ 45 ∷ 108 ∷ 101 ∷ 110 ∷ 103 ∷ 116 ∷ 104 ∷ []

-- `accept`
abbrev pub accept_name : List ℕ
accept_name = 97 ∷ 99 ∷ 99 ∷ 101 ∷ 112 ∷ 116 ∷ []

-- `transfer-encoding`
abbrev pub transfer_encoding_name : List ℕ
transfer_encoding_name =
    116 ∷ 114 ∷ 97 ∷ 110 ∷ 115 ∷ 102 ∷ 101 ∷ 114 ∷ 45 ∷ 101 ∷ 110 ∷ 99 ∷ 111 ∷ 100 ∷ 105 ∷ 110 ∷ 103
    ∷ []

-- `chunked`
abbrev pub chunked_value : List ℕ
chunked_value = 99 ∷ 104 ∷ 117 ∷ 110 ∷ 107 ∷ 101 ∷ 100 ∷ []

-- ` HTTP/1.1\r\n`
abbrev pub http_version : List ℕ
http_version = 32 ∷ 72 ∷ 84 ∷ 84 ∷ 80 ∷ 47 ∷ 49 ∷ 46 ∷ 49 ∷ 13 ∷ 10 ∷ []

-- `accept: application/json\r\n`
abbrev pub default_accept : List ℕ
default_accept =
    97 ∷ 99 ∷ 99 ∷ 101 ∷ 112 ∷ 116 ∷ 58 ∷ 32 ∷ 97 ∷ 112 ∷ 112 ∷ 108 ∷ 105 ∷ 99 ∷ 97 ∷ 116 ∷ 105
    ∷ 111 ∷ 110 ∷ 47 ∷ 106 ∷ 115 ∷ 111 ∷ 110 ∷ 13 ∷ 10 ∷ []

unfoldable pub header : HttpResponse → List ℕ → Option (List ℕ)
header r name = find_header (same_text (map to_ascii_lowercase name)) r.headers >>= λ h. some h.1

unfoldable pub is_framing_owned : List ℕ → Bool
is_framing_owned name =
    eq_ignore_ascii_case name host_name
    || eq_ignore_ascii_case name content_length_name
    || eq_ignore_ascii_case name accept_name

-- `name: value\r\n`
abbrev pub header_line : List ℕ → List ℕ → List ℕ
header_line name value = name ++ 58 ∷ 32 ∷ value ++ crlf

unfoldable pub caller_lines : List (List ℕ × List ℕ) → List ℕ
caller_lines [] = []
caller_lines (h ∷ hs) =
    let rest = caller_lines hs in
    if not (is_framing_owned h.0) then header_line h.0 h.1 ++ rest else rest

-- `n.to_string()`: the decimal digits in front of `digits`; a number below 10^20 has at most twenty.
unfoldable pub decimal_rounds : ℕ → ℕ → List ℕ → List ℕ
decimal_rounds zero n digits = digits
decimal_rounds (suc fuel) n digits =
    let rest = decimal_rounds fuel (n / 10) ((48 + n % 10) ∷ digits) in
    if ltb n 10 then (48 + n % 10) ∷ digits else rest

unfoldable pub decimal : ℕ → List ℕ
decimal n = decimal_rounds 20 n []

unfoldable pub accept_line : Option (List ℕ × List ℕ) → List ℕ
accept_line none = default_accept
accept_line (some h) = header_line h.0 h.1

unfoldable pub build_request_head_with_host :
    List ℕ → List ℕ → List ℕ → List (List ℕ × List ℕ) → ℕ → List ℕ
build_request_head_with_host method path host headers content_length =
    method
    ++ 32 ∷ path
    ++ http_version
    ++ header_line host_name host
    ++ accept_line (find_header (λ k. eq_ignore_ascii_case k accept_name) headers)
    ++ caller_lines headers
    ++ header_line content_length_name (decimal content_length)
    ++ crlf

unfoldable pub build_request_head : List ℕ → List ℕ → List (List ℕ × List ℕ) → ℕ → List ℕ
build_request_head method path headers content_length =
    build_request_head_with_host method path default_http_host headers content_length

unfoldable pub build_request_with_host :
    List ℕ → List ℕ → List ℕ → List (List ℕ × List ℕ) → List ℕ → List ℕ
build_request_with_host method path host headers body =
    build_request_head_with_host method path host headers (length body) ++ body

unfoldable pub build_request : List ℕ → List ℕ → List (List ℕ × List ℕ) → List ℕ → List ℕ
build_request method path headers body =
    build_request_with_host method path default_http_host headers body

-- `parse::<uN>()` with the largest number of the type: a sign `+` is read.
unfoldable pub parse_digits : ℕ → ℕ → List ℕ → Option ℕ
parse_digits most value [] = some value
parse_digits most value (c ∷ cs) =
    let next = value * 10 + (c - 48) in
    let rest = parse_digits most next cs in
    if leb 48 c && leb c 57 && leb next most then rest else none

unfoldable pub parse_number : ℕ → List ℕ → Option ℕ
parse_number most [] = none
parse_number most (c ∷ []) = parse_digits most 0 (c ∷ [])
parse_number most (c ∷ d ∷ cs) =
    if c == 43 then parse_digits most 0 (d ∷ cs) else parse_digits most 0 (c ∷ d ∷ cs)

-- The text in front of the first `\r\n`, and the text behind it if there is one.
unfoldable pub split_line : List ℕ → List ℕ × Option (List ℕ)
split_line text = elim (find_subsequence text crlf) [
  | none ↦ (text, none)
  | some p ↦ (take p text, some (drop (p + 2) text))
]

-- `split("\r\n")`: each line takes two characters at least, so one round for each is enough.
unfoldable pub split_lines : ℕ → List ℕ → List (List ℕ)
split_lines zero text = text ∷ []
split_lines (suc fuel) text =
    let (line, more) = split_line text in
    elim more [ none ↦ line ∷ [] | some rest ↦ line ∷ split_lines fuel rest ]

-- The text up to a character, and the text behind it.
unfoldable pub split_at : ℕ → List ℕ → Option (List ℕ × List ℕ)
split_at c [] = none
split_at c (x ∷ xs) =
    let rest = split_at c xs in
    if x == c then some ([], xs) else (rest >>= λ p. some (x ∷ p.0, p.1))

-- The second of the at most three parts of a status line.
unfoldable pub second_part : List ℕ → Option (List ℕ)
second_part line =
    split_at 32 line >>= λ p. elim (split_at 32 p.1) [ none ↦ some p.1 | some q ↦ some q.0 ]

unfoldable pub header_of : List ℕ → Option (List ℕ × List ℕ)
header_of line = split_at 58 line >>= λ p. some (map to_ascii_lowercase (trim p.0), trim p.1)

unfoldable pub headers_of : List (List ℕ) → List (List ℕ × List ℕ)
headers_of [] = []
headers_of (line ∷ lines) =
    let rest = headers_of lines in elim (header_of line) [ none ↦ rest | some h ↦ h ∷ rest ]

unfoldable pub parse_lines : List (List ℕ) → Result HttpError (ℕ × List (List ℕ × List ℕ))
parse_lines [] = err HttpError.missing_status_line
parse_lines (status_line ∷ lines) = elim (second_part status_line >>= parse_number 65535) [
  | none ↦ err (bad_status_line status_line)
  | some status ↦ ok (status, headers_of lines)
]

module _ (lossy : List ℕ → List ℕ) where
  unfoldable pub parse_head : List ℕ → Result HttpError (ℕ × List (List ℕ × List ℕ))
  parse_head head_bytes =
      let head = lossy head_bytes in parse_lines (split_lines (length head) head)

  -- `header_lookup` of `parse_response`.
  unfoldable pub header_lookup : List (List ℕ × List ℕ) → List ℕ → Option (List ℕ)
  header_lookup headers name = find_header (same_text name) headers >>= λ h. some h.1

  unfoldable pub is_chunked : Option (List ℕ) → Bool
  is_chunked none = false
  is_chunked (some value) = eq_ignore_ascii_case value chunked_value

  -- The body under the response's `content-length`, if it states one.
  unfoldable pub cut_body : Option ℕ → List ℕ → Result HttpError (List ℕ)
  cut_body none body = ok body
  cut_body (some len) body =
      if ltb len (length body)
      then ok (take len body)
      else if ltb (length body) len
      then err truncated_body
      else ok body

  unfoldable pub body_of : List (List ℕ × List ℕ) → List ℕ → Result HttpError (List ℕ)
  body_of headers body =
      if is_chunked (header_lookup headers transfer_encoding_name)
      then dechunk lossy body
      else cut_body (header_lookup headers content_length_name >>= parse_number word_max) body

  unfoldable pub parse_response : List ℕ → Result HttpError HttpResponse
  parse_response raw = elim (find_subsequence raw (crlf ++ crlf)) [
    | none ↦ err missing_terminator
    | some split ↦ elim (parse_head (take split raw)) [
      | err e ↦ err e
      | ok (status, headers) ↦ elim (body_of headers (drop (split + 4) raw)) [
        | err e ↦ err e
        | ok body ↦ ok (record { status = status; headers = headers; body = body })
      ]
    ]
  ]
