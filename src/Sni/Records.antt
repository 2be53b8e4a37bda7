-- ===== src/Sni/Records.antt =====
-- A ClientHello that is cut into TLS records, through `parse_client_hello` of
-- crates/spl-bridge/src/sni.rs.
use spl_rust.Base.{
  ℕ, ◌+◌, ◌*◌, ◌/◌, ◌%◌, ◌≤◌, ◌<◌, ◌≡◌, arith, false, List, [], ◌∷◌, ◌++◌, Option, none, some,
  Result, ltb, length, length-append, get_or, if◌then◌else◌,
}
use spl_rust.Sni.{SniError, ParseOutcome, client_hello, tls_handshake, total_length, Reassembly}

-- A handshake message: a ClientHello whose own length field is right, within the limit.
pub record IsMessage (message : List ℕ) : Type 0 where
  pub opener : get_or message 0 0 ≡ client_hello
  pub sized : total_length message ≡ length message
  pub headed : 4 ≤ length message
  pub limited : length message ≤ 32_768

-- One TLS record.
unfoldable pub tls_record : List ℕ → List ℕ
tls_record chunk = tls_handshake ∷ 3 ∷ 3 ∷ length chunk / 256 ∷ length chunk % 256 ∷ chunk

-- The length that is known once the first four bytes are there.
abbrev known : List ℕ → List ℕ → Option ℕ
known message pre = if ltb (length pre) 4 then none else some (length message)

module _ (message : List ℕ) (v : IsMessage message) where
  -- One byte, which leads from the first part of the message to a longer one.
  module _ (pre after : List ℕ) (b : ℕ) (e : message ≡ pre ++ b ∷ after) where
    abbrev longer : List ℕ
    longer = pre ++ b ∷ []

module _ (from_utf8 : List ℕ → Option (List ℕ)) where
  -- What a round needs of a record in front of `rest`.
  module _ (next : Reassembly → List ℕ → Result SniError ParseOutcome) (r : Reassembly)
      (chunk rest : List ℕ) (small : length chunk ≤ 16_384) (few : r.record_count < 32_768)
      (room : r.encoded_wire_bytes + (5 + length chunk) ≤ 196_608) where
    abbrev input : List ℕ
    input = tls_handshake ∷ 3 ∷ 3 ∷ length chunk / 256 ∷ length chunk % 256 ∷ (chunk ++ rest)

    length-input : length input ≡ 5 + (length chunk + length rest)
    length-input = omega (arith, length-append chunk rest)

    headed : ltb (length input) 5 ≡ false
    headed = ground (arith, length-input)

-- A record that is not empty, within the payload limit.
abbrev pub IsChunk : List ℕ → Type 0
IsChunk chunk = (0 < length chunk) × (length chunk ≤ 16_384)

-- What the loop has, once it has read the records of a first part of the message.
record HasRead (message pre : List ℕ) (r : Reassembly) : Type 0 where
  bytes : r.handshake ≡ pre
  size : r.handshake_length ≡ known message pre
  records : r.record_count ≤ length pre
  wire : r.encoded_wire_bytes ≡ 5 * r.record_count + length pre
