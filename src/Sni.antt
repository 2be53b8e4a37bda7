-- ===== src/Sni.antt =====
-- crates/spl-bridge/src/sni.rs: the routing data of a TLS ClientHello, from the bytes that a peek gives.
-- A cursor is the bytes it has not read. `from_utf8` stands for `std::str::from_utf8`.
pub mod Stable
pub mod Records
pub mod Peeks
pub mod Rounds
mod Tests
use spl_rust.Base.{
  ℕ, zero, suc, ◌+◌, ◌*◌, ◌^◌, bit_or, Bool, true, false, not, ◌&&◌, ◌||◌, List, [], ◌∷◌, ◌++◌,
  Option, none, some, Result, ok, err, ltb, ◌==◌, length, get_or, take, drop, min, if◌then◌else◌,
}
use spl_rust.Http.Message.{same_text}

pub data SniError : Type 0 where
  timeout malformed_client_hello no_server_name io : SniError

infixl 5 ◌>>=◌
abbrev ◌>>=◌ {ℓ κ} :
    {A : Type ℓ} {B : Type κ} → Result SniError A → (A → Result SniError B) → Result SniError B
ok a >>= f = f a
err e >>= f = err e

abbrev pub initial_peek_bytes : ℕ
initial_peek_bytes = 4 * 1024

abbrev pub tls_handshake : ℕ
tls_handshake = 0x16

abbrev pub client_hello : ℕ
client_hello = 0x01

abbrev pub server_name_extension : ℕ
server_name_extension = 0

abbrev pub alpn_extension : ℕ
alpn_extension = 16

abbrev pub host_name : ℕ
host_name = 0

pub record ClientHelloRouting : Type 0 where
  pub hostname : List ℕ
  pub acme_tls_alpn : Bool

pub record ClientHelloLimits : Type 0 where
  pub handshake_message_bytes : ℕ
  pub record_payload_bytes : ℕ
  pub record_count : ℕ
  pub encoded_wire_bytes : ℕ

abbrev pub client_hello_limits : ClientHelloLimits
client_hello_limits = record {
  handshake_message_bytes = 32_768;
  record_payload_bytes = 16_384;
  record_count = 32_768;
  encoded_wire_bytes = 196_608;
}

pub data ParseOutcome : Type 0 where
  complete : ClientHelloRouting → ParseOutcome
  incomplete : ParseOutcome

pub data PeekRound : Type 0 where
  answers : Result SniError ClientHelloRouting → PeekRound
  grows : ℕ → PeekRound
  waits : PeekRound

pub record Cursor : Type 0 where
  pub unread : List ℕ

abbrev pub cursor : List ℕ → Cursor
cursor bytes = record { unread = bytes }

abbrev pub is_empty : Cursor → Bool
is_empty c = length c.unread == 0

-- `Cursor::take`
unfoldable pub take_bytes : Cursor → ℕ → Result SniError (List ℕ × Cursor)
take_bytes c n =
    if ltb (length c.unread) n
    then err malformed_client_hello
    else ok (take n c.unread, cursor (drop n c.unread))

unfoldable pub skip : Cursor → ℕ → Result SniError Cursor
skip c n = take_bytes c n >>= λ p. ok p.1

unfoldable pub read_u8 : Cursor → Result SniError (ℕ × Cursor)
read_u8 c = take_bytes c 1 >>= λ p. ok (get_or p.0 0 0, p.1)

unfoldable pub read_u16 : Cursor → Result SniError (ℕ × Cursor)
read_u16 c = take_bytes c 2 >>= λ p. ok (get_or p.0 0 0 * 256 + get_or p.0 1 0, p.1)

-- Bytes behind a length of two bytes, which they fill to the end.
unfoldable pub read_list : List ℕ → Result SniError (List ℕ)
read_list data_bytes = do
  (n, c) ← read_u16 (cursor data_bytes)
  (bytes, c') ← take_bytes c n
  if not (is_empty c') then err malformed_client_hello else ok bytes

-- `acme-tls/1`
abbrev pub acme_protocol : List ℕ
acme_protocol = 97 ∷ 99 ∷ 109 ∷ 101 ∷ 45 ∷ 116 ∷ 108 ∷ 115 ∷ 47 ∷ 49 ∷ []

-- The loop over protocols: each takes a byte at least.
unfoldable pub alpn_rounds : ℕ → Cursor → Bool → Result SniError Bool
alpn_rounds zero c has_acme = ok has_acme
alpn_rounds (suc fuel) c has_acme = if is_empty c then ok has_acme else (do
  (n, c') ← read_u8 c
  (proto, c'') ← take_bytes c' n
  alpn_rounds fuel c'' (same_text proto acme_protocol || has_acme))

unfoldable pub parse_alpn_for_acme : List ℕ → Result SniError Bool
parse_alpn_for_acme data_bytes = do
  protocols ← read_list data_bytes
  alpn_rounds (length protocols) (cursor protocols) false

-- What a record header says, at the front of at least five bytes.
abbrev pub payload_length : List ℕ → ℕ
payload_length input = get_or input 3 0 * 256 + get_or input 4 0

-- What the loop over records keeps.
pub record Reassembly : Type 0 where
  pub record_count : ℕ
  pub encoded_wire_bytes : ℕ
  pub handshake : List ℕ
  pub handshake_length : Option ℕ

abbrev pub new_reassembly : Reassembly
new_reassembly = record {
  record_count = 0;
  encoded_wire_bytes = 0;
  handshake = [];
  handshake_length = none;
}

-- The bytes of a record: the reassembly after them, or the body of the whole message.
pub data Pushed : Type 0 where
  pending : List ℕ → Option ℕ → Pushed
  whole : List ℕ → Pushed
  refused : Pushed

-- The length that the first four bytes of the message state, with those bytes.
abbrev pub total_length : List ℕ → ℕ
total_length handshake =
    4
    + bit_or (bit_or (get_or handshake 1 0 * 2 ^ 16) (get_or handshake 2 0 * 2 ^ 8))
        (get_or handshake 3 0)

abbrev pub is_whole : Option ℕ → ℕ → Bool
is_whole none n = false
is_whole (some total) n = total == n

module _ (limits : ClientHelloLimits) where
  -- One byte of a handshake message that `length_so_far` may have sized already; `more` comes next.
  unfoldable pub push_sized : List ℕ → Option ℕ → List ℕ → Pushed → Pushed
  push_sized handshake handshake_length bytes more =
      if is_whole handshake_length (length handshake)
      then if not (length bytes == 0) then refused else whole (drop 4 handshake)
      else more

  unfoldable pub push_bytes : List ℕ → Option ℕ → List ℕ → Pushed
  push_bytes handshake handshake_length [] = pending handshake handshake_length
  push_bytes handshake handshake_length (byte ∷ bytes) =
      let h = handshake ++ byte ∷ [] in
      let more = push_bytes h handshake_length bytes in
      let sized = push_bytes h (some (total_length h)) bytes in
      if length handshake == limits.handshake_message_bytes
      then refused
      else if length h == 1 && not (get_or h 0 0 == client_hello)
      then refused
      else if length h == 4
      then if ltb limits.handshake_message_bytes (total_length h)
        then refused
        else push_sized h (some (total_length h)) bytes sized
      else push_sized h handshake_length bytes more

-- What the loop over extensions has seen: the host name and the ALPN, each once at most.
pub record Seen : Type 0 where
  pub hostname : Option (List ℕ)
  pub seen_sni : Bool
  pub seen_alpn : Bool
  pub acme_tls_alpn : Bool

module _ (from_utf8 : List ℕ → Option (List ℕ)) where
  unfoldable pub take_name : ℕ → List ℕ → Option (List ℕ) → Result SniError (Option (List ℕ))
  take_name name_type name (some h) = ok (some h)
  take_name name_type name none =
      if not (name_type == host_name)
      then ok none
      else if length name == 0
      then err malformed_client_hello
      else elim (from_utf8 name) [ some text ↦ ok (some text) | none ↦ err malformed_client_hello ]

  -- The loop over names: each takes three bytes at least.
  unfoldable pub name_rounds : ℕ → Cursor → Option (List ℕ) → Result SniError (Option (List ℕ))
  name_rounds zero c hostname = ok hostname
  name_rounds (suc fuel) c hostname = if is_empty c then ok hostname else (do
    (name_type, c1) ← read_u8 c
    (n, c2) ← read_u16 c1
    (name, c3) ← take_bytes c2 n
    found ← take_name name_type name hostname
    name_rounds fuel c3 found)

  abbrev pub required : Option (List ℕ) → Result SniError (List ℕ)
  required none = err no_server_name
  required (some h) = ok h

  unfoldable pub parse_server_name : List ℕ → Result SniError (List ℕ)
  parse_server_name data_bytes = do
    names ← read_list data_bytes
    hostname ← name_rounds (length names) (cursor names) none
    required hostname

  unfoldable pub take_extension : ℕ → List ℕ → Seen → Result SniError Seen
  take_extension extension_type bytes seen =
      if extension_type == server_name_extension
      then if seen.seen_sni
        then err malformed_client_hello
        else (parse_server_name bytes >>= λ h.
            ok (record seen { hostname = some h; seen_sni = true }))
      else if extension_type == alpn_extension
      then if seen.seen_alpn
        then err malformed_client_hello
        else (parse_alpn_for_acme bytes >>= λ acme.
            ok (record seen { seen_alpn = true; acme_tls_alpn = acme }))
      else ok seen

  -- The loop over extensions: each takes four bytes at least.
  unfoldable pub extension_rounds : ℕ → Cursor → Seen → Result SniError Seen
  extension_rounds zero c seen = ok seen
  extension_rounds (suc fuel) c seen = if is_empty c then ok seen else (do
    (extension_type, c1) ← read_u16 c
    (n, c2) ← read_u16 c1
    (bytes, c3) ← take_bytes c2 n
    seen' ← take_extension extension_type bytes seen
    extension_rounds fuel c3 seen')

  unfoldable pub parse_client_hello_body : List ℕ → Result SniError ClientHelloRouting
  parse_client_hello_body bytes = do
    c1 ← skip (cursor bytes) 2
    c2 ← skip c1 32
    (session_id_length, c3) ← read_u8 c2
    c4 ← skip c3 session_id_length
    (cipher_suites_length, c5) ← read_u16 c4
    c6 ← skip c5 cipher_suites_length
    (compression_methods_length, c7) ← read_u8 c6
    c8 ← skip c7 compression_methods_length
    (all_extensions_length, c9) ← read_u16 c8
    (extensions, c10) ← take_bytes c9 all_extensions_length
    if not (is_empty c10) then err malformed_client_hello else (do
      seen ←
          extension_rounds (length extensions) (cursor extensions)
            (record { hostname = none; seen_sni = false; seen_alpn = false; acme_tls_alpn = false })
      hostname ← required seen.hostname
      ok (record { hostname = hostname; acme_tls_alpn = seen.acme_tls_alpn }))

  abbrev pub completed : Result SniError ClientHelloRouting → Result SniError ParseOutcome
  completed (ok routing) = ok (complete routing)
  completed (err e) = err e

  module _ (limits : ClientHelloLimits) where
    -- One round of the loop over records, over the bytes that `record_cursor` has not passed: `next`
    -- is the rest of the loop.
    unfoldable pub record_round :
        (Reassembly → List ℕ → Result SniError ParseOutcome)
        → Reassembly
        → List ℕ
        → Result SniError ParseOutcome
    record_round next r input =
        let n = payload_length input in
        let next_wire = r.encoded_wire_bytes + (5 + n) in
        if length input == 0
        then ok incomplete
        else if r.record_count == limits.record_count
        then err malformed_client_hello
        else if ltb (length input) 5
        then ok incomplete
        else if not (get_or input 0 0 == tls_handshake)
        then err malformed_client_hello
        else if ltb limits.record_payload_bytes n
        then err malformed_client_hello
        else if ltb limits.encoded_wire_bytes next_wire
        then err malformed_client_hello
        else if ltb (length input) (5 + n)
        then ok incomplete
        else elim (push_bytes limits r.handshake r.handshake_length (take n (drop 5 input))) [
          | refused ↦ err malformed_client_hello
          | whole bytes ↦ completed (parse_client_hello_body bytes)
          | pending handshake handshake_length ↦
              next
                (record {
                  record_count = r.record_count + 1;
                  encoded_wire_bytes = next_wire;
                  handshake = handshake;
                  handshake_length = handshake_length;
                })
                (drop (5 + n) input)
        ]

    -- Each record takes five bytes at least.
    unfoldable pub record_rounds : ℕ → Reassembly → List ℕ → Result SniError ParseOutcome
    record_rounds zero r input = ok incomplete
    record_rounds (suc fuel) r input = record_round (record_rounds fuel) r input

    unfoldable pub parse_client_hello_with_limits : List ℕ → Result SniError ParseOutcome
    parse_client_hello_with_limits input = record_rounds (suc (length input)) new_reassembly input

  unfoldable pub parse_client_hello : List ℕ → Result SniError ParseOutcome
  parse_client_hello input = parse_client_hello_with_limits client_hello_limits input

  -- What one peek of `extract_sni_inner` comes to; no bytes stand for a socket error.
  unfoldable pub peek_round : ℕ → Option (List ℕ) → PeekRound
  peek_round capacity none = answers (err io)
  peek_round capacity (some bytes) =
      if length bytes == 0
      then answers (err malformed_client_hello)
      else elim (parse_client_hello bytes) [
        | err e ↦ answers (err e)
        | ok (complete routing) ↦ answers (ok routing)
        | ok incomplete ↦
            if capacity == client_hello_limits.encoded_wire_bytes
            then answers (err malformed_client_hello)
            else if length bytes == capacity
            then grows (min (capacity * 2) client_hello_limits.encoded_wire_bytes)
            else waits
      ]

  -- The loop over what the peeks give, from a capacity on; there is no answer while it waits.
  unfoldable pub extract_rounds :
      ℕ → List (Option (List ℕ)) → Option (Result SniError ClientHelloRouting)
  extract_rounds capacity [] = none
  extract_rounds capacity (peeked ∷ peeks) = elim (peek_round capacity peeked) [
    | answers r ↦ some r
    | grows larger ↦ extract_rounds larger peeks
    | waits ↦ extract_rounds capacity peeks
  ]

  unfoldable pub extract_sni_inner :
      List (Option (List ℕ)) → Option (Result SniError ClientHelloRouting)
  extract_sni_inner peeks = extract_rounds initial_peek_bytes peeks
