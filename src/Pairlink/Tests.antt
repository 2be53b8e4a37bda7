-- ===== src/Pairlink/Tests.antt =====
-- Runs of the pair-link parser, and its theorems at concrete inputs.
use spl_rust.Base.{ℕ, ◌≡◌, refl, arith, List, [], ◌∷◌, ◌++◌, Option, some, ok}
use spl_rust.Http.Message.{decimal, decimal_rounds, same_text}
use spl_rust.Pairlink.{
  direct, relay, Ipv4, hex_lower, ipv4_string, is_allowed_direct_ipv4, normalize_port, require,
  octets_at, octets_from, port_at, same_endpoint, is_listed, check_candidates, push_candidates,
  parse_candidates, parse_v05, parse_blob, parse, default_relay_origin,
}
use spl_rust.Pairlink.Fragments.{parse-encode}
use spl_rust.Crockford.{encode}
use spl_rust.Pairlink.Admitted.{IsDialable, parse_blob-IsDialable}
use spl_rust.Pairlink.Layout.{address_bytes, direct_blob, endpoint, parse_blob-direct_blob}
use spl_rust.Pairlink.RelayLayout.{relay_blob, parse_blob-relay_blob}

abbrev any_text : List ℕ → Option (List ℕ)
any_text = some

abbrev router : Ipv4
router = record { a = 192; b = 168; c = 1; d = 20 }

abbrev public_host : Ipv4
public_host = record { a = 8; b = 8; c = 4; d = 4 }

abbrev sixteen : List ℕ
sixteen = 0 ∷ 1 ∷ 2 ∷ 3 ∷ 4 ∷ 5 ∷ 6 ∷ 7 ∷ 8 ∷ 9 ∷ 10 ∷ 11 ∷ 12 ∷ 13 ∷ 14 ∷ 255 ∷ []

-- `192.168.1.20`
router_text : ipv4_string router ≡ 49 ∷ 57 ∷ 50 ∷ 46 ∷ 49 ∷ 54 ∷ 56 ∷ 46 ∷ 49 ∷ 46 ∷ 50 ∷ 48 ∷ []
unfolding ipv4_string decimal decimal_rounds
router_text = refl

parse_blob-direct_blob_example :
    parse_blob any_text (direct_blob 0 (router ∷ public_host ∷ []) sixteen sixteen)
    ≡ ok (
        direct (record {
          candidates = endpoint 7657 router ∷ endpoint 7657 public_host ∷ [];
          nonce_hex = hex_lower sixteen;
          ca_fp_prefix = sixteen;
        }))
unfolding is_allowed_direct_ipv4 normalize_port is_listed same_endpoint same_text ipv4_string
    decimal decimal_rounds
parse_blob-direct_blob_example =
    parse_blob-direct_blob any_text 0 (router ∷ public_host ∷ []) sixteen sixteen (omega arith)
      (omega arith) (refl, (refl, tt)) (refl, (refl, tt)) refl refl

two_candidates :
    parse_blob any_text (direct_blob 0 (router ∷ public_host ∷ []) sixteen sixteen)
    ≡ ok (
        direct (record {
          candidates = endpoint 7657 router ∷ endpoint 7657 public_host ∷ [];
          nonce_hex = hex_lower sixteen;
          ca_fp_prefix = sixteen;
        }))
unfolding parse_blob parse_v05 parse_candidates require direct_blob address_bytes octets_from
    octets_at check_candidates push_candidates is_allowed_direct_ipv4 port_at normalize_port
    is_listed same_endpoint same_text ipv4_string decimal decimal_rounds
two_candidates = refl

parse_blob-IsDialable_example : IsDialable (record {
  candidates = endpoint 7657 router ∷ endpoint 7657 public_host ∷ [];
  nonce_hex = hex_lower sixteen;
  ca_fp_prefix = sixteen;
})
unfolding direct_blob address_bytes
parse_blob-IsDialable_example =
    parse_blob-IsDialable any_text (direct_blob 0 (router ∷ public_host ∷ []) sixteen sixteen) _
      (omega arith) two_candidates

parse_blob-relay_blob_example :
    parse_blob any_text (relay_blob (1 ∷ 2 ∷ 3 ∷ 4 ∷ 5 ∷ 6 ∷ 7 ∷ 8 ∷ []) sixteen [])
    ≡ ok (
        relay (record {
          s = 1 ∷ 2 ∷ 3 ∷ 4 ∷ 5 ∷ 6 ∷ 7 ∷ 8 ∷ [];
          ca_fp_spki = sixteen;
          relay_origin = default_relay_origin;
        }))
parse_blob-relay_blob_example =
    parse_blob-relay_blob any_text (1 ∷ 2 ∷ 3 ∷ 4 ∷ 5 ∷ 6 ∷ 7 ∷ 8 ∷ []) sixteen [] refl refl refl

abbrev blob_of_two : List ℕ
blob_of_two = 0x06 ∷ 0x5a ∷ []

-- `https://go` in front.
parse-encode_example :
    parse any_text
      ((104 ∷ 116 ∷ 116 ∷ 112 ∷ 115 ∷ 58 ∷ 47 ∷ 47 ∷ 103 ∷ 111 ∷ []) ++ 35 ∷ encode blob_of_two)
    ≡ parse_blob any_text blob_of_two
parse-encode_example =
    parse-encode any_text (104 ∷ 116 ∷ 116 ∷ 112 ∷ 115 ∷ 58 ∷ 47 ∷ 47 ∷ 103 ∷ 111 ∷ []) blob_of_two
      (refl, (refl, (refl, (refl, (refl, (refl, (refl, (refl, (refl, (refl, tt))))))))))
      (omega arith, (omega arith, tt))
