-- ===== src/Pairlink.antt =====
-- crates/spl-core/src/pairlink.rs: pair links, from their text to the endpoints or the relay they name.
-- Text is a list of characters; `from_utf8` stands for `std::str::from_utf8`.
pub mod Digits
pub mod Accepted
pub mod Admitted
pub mod Layout
pub mod RelayLayout
mod Fragments
mod Tests
use spl_rust.Base.{
  ℕ, zero, suc, ◌+◌, ◌*◌, ◌/◌, ◌%◌, Bool, true, false, not, ◌&&◌, ◌||◌, List, [], ◌∷◌, ◌++◌, Option,
  none, some, Result, ok, err, ltb, ◌==◌, length, get_or, take, drop, if◌then◌else◌,
}
use spl_rust.Http.{find_subsequence}
use spl_rust.Http.Message.{same_text, decimal}
use spl_rust.Crockford.{CrockfordError, decode}

abbrev pub default_direct_port : ℕ
default_direct_port = 7657

-- `https://link.solstone.app`
abbrev pub default_relay_origin : List ℕ
default_relay_origin =
    104 ∷ 116 ∷ 116 ∷ 112 ∷ 115 ∷ 58 ∷ 47 ∷ 47 ∷ 108 ∷ 105 ∷ 110 ∷ 107 ∷ 46 ∷ 115 ∷ 111 ∷ 108 ∷ 115
    ∷ 116 ∷ 111 ∷ 110 ∷ 101 ∷ 46 ∷ 97 ∷ 112 ∷ 112 ∷ []

pub record Endpoint : Type 0 where
  pub host : List ℕ
  pub port : ℕ

pub record PairLink : Type 0 where
  pub candidates : List Endpoint
  pub nonce_hex : List ℕ
  pub ca_fp_prefix : List ℕ

pub record RelayPairLink : Type 0 where
  pub s : List ℕ
  pub ca_fp_spki : List ℕ
  pub relay_origin : List ℕ

pub data ParsedPairLink : Type 0 where
  direct : PairLink → ParsedPairLink
  relay : RelayPairLink → ParsedPairLink

pub data PairLinkError : Type 0 where
  missing_fragment : PairLinkError
  crockford : CrockfordError → PairLinkError
  unsupported_version unsupported_address_type unknown_ca_fp_tag : ℕ → PairLinkError
  bad_relay_origin : PairLinkError
  truncated length_mismatch : ℕ → ℕ → PairLinkError
  disallowed_direct_ipv4 : List ℕ → PairLinkError
  invalid_candidate_count : ℕ → PairLinkError

abbrev pub addr_type_ipv4 : ℕ
addr_type_ipv4 = 0x01

abbrev pub nonce_len : ℕ
nonce_len = 16

abbrev pub ca_fp_len : ℕ
ca_fp_len = 16

abbrev pub max_direct_candidates : ℕ
max_direct_candidates = 4

abbrev pub relay_ca_fp_tag_spki_sha256 : ℕ
relay_ca_fp_tag_spki_sha256 = 0x01

abbrev pub relay_window_base_len : ℕ
relay_window_base_len = 27

unfoldable pub lower_digit : ℕ → ℕ
lower_digit n = if ltb n 10 then 48 + n else 87 + n

unfoldable pub hex_lower : List ℕ → List ℕ
hex_lower [] = []
hex_lower (b ∷ bs) = lower_digit (b / 16) ∷ lower_digit (b % 16) ∷ hex_lower bs

-- `[u8; 4]`
pub record Ipv4 : Type 0 where
  pub a : ℕ
  pub b : ℕ
  pub c : ℕ
  pub d : ℕ

unfoldable pub ipv4_string : Ipv4 → List ℕ
ipv4_string o = decimal o.a ++ 46 ∷ decimal o.b ++ 46 ∷ decimal o.c ++ 46 ∷ decimal o.d

unfoldable pub uuid_string : List ℕ → List ℕ
uuid_string raw =
    let h = hex_lower raw in
    take 8 h
    ++ 45 ∷ take 4 (drop 8 h)
    ++ 45 ∷ take 4 (drop 12 h)
    ++ 45 ∷ take 4 (drop 16 h)
    ++ 45 ∷ take 12 (drop 20 h)

unfoldable pub is_allowed_direct_ipv4 : Ipv4 → Bool
is_allowed_direct_ipv4 o = not (o.a == 0) && ltb o.a 224

unfoldable pub normalize_port : ℕ → ℕ
normalize_port raw = if raw == 0 then default_direct_port else raw

-- `require(blob, end)?` in front of `rest`.
unfoldable pub require {ℓ} :
    {A : Type ℓ} → List ℕ → ℕ → Result PairLinkError A → Result PairLinkError A
require blob end rest = if ltb (length blob) end then err (truncated end (length blob)) else rest

unfoldable pub require_exact {ℓ} :
    {A : Type ℓ} → List ℕ → ℕ → Result PairLinkError A → Result PairLinkError A
require_exact blob expected rest =
    require blob expected
      (if not (length blob == expected) then err (length_mismatch expected (length blob)) else rest)

abbrev pub slice : List ℕ → ℕ → ℕ → List ℕ
slice blob start len = take len (drop start blob)

-- The address at an offset, and `count` addresses from it on.
unfoldable pub octets_at : List ℕ → ℕ → Ipv4
octets_at blob offset = record {
  a = get_or blob offset 0;
  b = get_or blob (offset + 1) 0;
  c = get_or blob (offset + 2) 0;
  d = get_or blob (offset + 3) 0;
}

unfoldable pub octets_from : List ℕ → ℕ → ℕ → List Ipv4
octets_from blob offset zero = []
octets_from blob offset (suc count) = octets_at blob offset ∷ octets_from blob (offset + 4) count

unfoldable pub port_at : List ℕ → ℕ → ℕ
port_at blob offset = normalize_port (get_or blob offset 0 * 256 + get_or blob (offset + 1) 0)

unfoldable pub same_endpoint : Endpoint → Endpoint → Bool
same_endpoint x y = same_text x.host y.host && x.port == y.port

unfoldable pub is_listed : Endpoint → List Endpoint → Bool
is_listed e [] = false
is_listed e (c ∷ cs) = same_endpoint c e || is_listed e cs

-- The first loop of `parse_v05`: the first address that is not allowed is refused.
unfoldable pub check_candidates {ℓ} :
    {A : Type ℓ} → List Ipv4 → Result PairLinkError A → Result PairLinkError A
check_candidates [] rest = rest
check_candidates (o ∷ os) rest =
    if is_allowed_direct_ipv4 o
    then check_candidates os rest
    else err (disallowed_direct_ipv4 (ipv4_string o))

-- The second: an endpoint that is listed already is not pushed.
unfoldable pub push_candidates : ℕ → List Endpoint → List Ipv4 → List Endpoint
push_candidates port candidates [] = candidates
push_candidates port candidates (o ∷ os) =
    let e : Endpoint = record { host = ipv4_string o; port = port } in
    push_candidates port (if is_listed e candidates then candidates else candidates ++ e ∷ []) os

unfoldable pub parse_v04 : List ℕ → Result PairLinkError PairLink
parse_v04 blob =
    let octets = octets_at blob 2 in
    require blob 40 (
      if not (get_or blob 1 0 == addr_type_ipv4)
      then err (unsupported_address_type (get_or blob 1 0))
      else if not (is_allowed_direct_ipv4 octets)
      then err (disallowed_direct_ipv4 (ipv4_string octets))
      else ok (record {
        candidates = record { host = ipv4_string octets; port = port_at blob 6 } ∷ [];
        nonce_hex = hex_lower (slice blob 8 nonce_len);
        ca_fp_prefix = slice blob 24 ca_fp_len;
      }))

-- The part of `parse_v05` behind the count.
unfoldable pub parse_candidates : List ℕ → ℕ → Result PairLinkError PairLink
parse_candidates blob count =
    let octets = octets_from blob 5 count in
    let addrs_end = 5 + 4 * count in
    require blob 5 (
      require blob (addrs_end + nonce_len + ca_fp_len) (
        check_candidates octets (
          ok (record {
            candidates = push_candidates (port_at blob 3) [] octets;
            nonce_hex = hex_lower (slice blob addrs_end nonce_len);
            ca_fp_prefix = slice blob (addrs_end + nonce_len) ca_fp_len;
          }))))

unfoldable pub parse_v05 : List ℕ → Result PairLinkError PairLink
parse_v05 blob =
    let raw_count = get_or blob 2 0 in
    require blob 3 (
      if not (get_or blob 1 0 == addr_type_ipv4)
      then err (unsupported_address_type (get_or blob 1 0))
      else if raw_count == 0 || ltb max_direct_candidates raw_count
      then err (invalid_candidate_count raw_count)
      else parse_candidates blob raw_count)

-- `split_once('#')`: the text behind it.
unfoldable pub after_hash : List ℕ → Option (List ℕ)
after_hash [] = none
after_hash (c ∷ cs) = let rest = after_hash cs in if c == 35 then some cs else rest

-- `contains` of a text that is not empty.
unfoldable pub contains : List ℕ → List ℕ → Bool
contains text part = elim (find_subsequence text part) [ none ↦ false | some _ ↦ true ]

-- The fragment of a link: what follows `#`, or a bare fragment.
unfoldable pub fragment_of : List ℕ → Option (List ℕ)
fragment_of link = elim (after_hash link) [
  | some fragment ↦ some fragment
  | none ↦
      if not (contains link (58 ∷ 47 ∷ 47 ∷ [])) && not (contains link (47 ∷ []))
      then some link
      else none
]

abbrev pub map_direct : Result PairLinkError PairLink → Result PairLinkError ParsedPairLink
map_direct (ok link) = ok (direct link)
map_direct (err e) = err e

abbrev pub map_relay : Result PairLinkError RelayPairLink → Result PairLinkError ParsedPairLink
map_relay (ok link) = ok (relay link)
map_relay (err e) = err e

module _ (from_utf8 : List ℕ → Option (List ℕ)) where
  unfoldable pub relay_origin_of : List ℕ → ℕ → Result PairLinkError (List ℕ)
  relay_origin_of blob selector =
      if selector == 0
      then require_exact blob relay_window_base_len (ok default_relay_origin)
      else (require_exact blob (relay_window_base_len + selector)
          (elim (from_utf8 (slice blob relay_window_base_len selector)) [
            | some origin ↦ ok origin
            | none ↦ err bad_relay_origin
          ]))

  unfoldable pub parse_v06 : List ℕ → Result PairLinkError RelayPairLink
  parse_v06 blob = require blob relay_window_base_len (
      if not (get_or blob 9 0 == relay_ca_fp_tag_spki_sha256)
      then err (unknown_ca_fp_tag (get_or blob 9 0))
      else elim (relay_origin_of blob (get_or blob 26 0)) [
        | err e ↦ err e
        | ok origin ↦
            ok (record { s = slice blob 1 8; ca_fp_spki = slice blob 10 16; relay_origin = origin })
      ])

  unfoldable pub parse_blob : List ℕ → Result PairLinkError ParsedPairLink
  parse_blob [] = err (truncated 1 0)
  parse_blob (version ∷ rest) =
      let blob = version ∷ rest in
      if version == 0x04
      then map_direct (parse_v04 blob)
      else if version == 0x05
      then map_direct (parse_v05 blob)
      else if version == 0x06
      then map_relay (parse_v06 blob)
      else err (unsupported_version version)

  unfoldable pub parse : List ℕ → Result PairLinkError ParsedPairLink
  parse link = elim (fragment_of link) [
    | none ↦ err missing_fragment
    | some fragment ↦ elim (decode fragment) [
      | err e ↦ err (crockford e)
      | ok blob ↦ parse_blob blob
    ]
  ]
