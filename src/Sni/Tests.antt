-- ===== src/Sni/Tests.antt =====
-- Runs of the ClientHello reader, and its theorems at concrete inputs.
use spl_rust.Base.{ℕ, ◌≡◌, refl, arith, false, List, [], ◌∷◌, ◌++◌, Option, none, some, ok, drop}
use spl_rust.Sni.{
  ClientHelloRouting, complete, incomplete, Cursor, Seen, take_bytes, skip, read_u8, read_u16,
  read_list, alpn_rounds, take_name, name_rounds, parse_server_name, take_extension,
  extension_rounds, parse_client_hello_body, push_sized, push_bytes, record_round, record_rounds,
  parse_client_hello_with_limits, parse_client_hello, peek_round, extract_rounds, extract_sni_inner,
}
use spl_rust.Sni.Stable.{parse_client_hello-append}
use spl_rust.Sni.Records.{IsMessage, tls_record}
use spl_rust.Sni.Peeks.{extract_sni_inner-parse_client_hello}
use spl_rust.Sni.Rounds.{rounds_enough}

abbrev any_text : List ℕ → Option (List ℕ)
any_text = some

-- A ClientHello for the host `a.b`, in two parts.
abbrev opening : List ℕ
opening = 1 ∷ 0 ∷ 0 ∷ 55 ∷ 3 ∷ 3 ∷ 0 ∷ 0 ∷ 0 ∷ 0 ∷ []

abbrev closing : List ℕ
closing =
    0 ∷ 0 ∷ 0 ∷ 0 ∷ 0 ∷ 0 ∷ 0 ∷ 0 ∷ 0 ∷ 0 ∷ 0 ∷ 0 ∷ 0 ∷ 0 ∷ 0 ∷ 0 ∷ 0 ∷ 0 ∷ 0 ∷ 0 ∷ 0 ∷ 0 ∷ 0 ∷ 0
    ∷ 0 ∷ 0 ∷ 0 ∷ 0 ∷ 0 ∷ 0 ∷ 2 ∷ 19 ∷ 1 ∷ 1 ∷ 0 ∷ 0 ∷ 12 ∷ 0 ∷ 0 ∷ 0 ∷ 8 ∷ 0 ∷ 6 ∷ 0 ∷ 0 ∷ 3 ∷ 97
    ∷ 46 ∷ 98 ∷ []

abbrev hello : List ℕ
hello = opening ++ closing

abbrev routing : ClientHelloRouting
routing = record { hostname = 97 ∷ 46 ∷ 98 ∷ []; acme_tls_alpn = false }

-- The message in one record.
abbrev sent : List ℕ
sent = tls_record hello

body_runs : parse_client_hello_body any_text (drop 4 hello) ≡ ok routing
unfolding parse_client_hello_body skip read_u8 read_u16 take_bytes extension_rounds take_extension
    parse_server_name read_list name_rounds take_name
body_runs = refl

abbrev is_message : IsMessage hello
is_message = record { opener = refl; sized = refl; headed = omega arith; limited = omega arith }

parse_runs : parse_client_hello any_text sent ≡ ok (complete routing)
unfolding parse_client_hello parse_client_hello_with_limits record_rounds record_round push_bytes
    push_sized tls_record parse_client_hello_body skip read_u8 read_u16 take_bytes extension_rounds
    take_extension parse_server_name read_list name_rounds take_name
parse_runs = refl

parse_client_hello-append_example :
    parse_client_hello any_text (sent ++ 23 ∷ []) ≡ parse_client_hello any_text sent
parse_client_hello-append_example =
    parse_client_hello-append any_text sent (23 ∷ [])
      (λ (e : parse_client_hello any_text sent ≡ ok incomplete). cc (rw parse_runs at e))

-- A first peek that is empty but for the record's type, and one that has it all.
abbrev peeks : List (Option (List ℕ))
peeks = some (22 ∷ []) ∷ some sent ∷ []

peeks_run : extract_sni_inner any_text peeks ≡ some (ok routing)
unfolding extract_sni_inner extract_rounds peek_round parse_client_hello
    parse_client_hello_with_limits record_rounds record_round push_bytes push_sized tls_record
    parse_client_hello_body skip read_u8 read_u16 take_bytes extension_rounds take_extension
    parse_server_name read_list name_rounds take_name
peeks_run = refl

extract_sni_inner-parse_client_hello_example :
    parse_client_hello any_text sent ≡ ok (complete routing)
unfolding tls_record
extract_sni_inner-parse_client_hello_example =
    extract_sni_inner-parse_client_hello any_text sent peeks routing
      ((drop 1 sent, refl), (([], refl), tt)) peeks_run

abbrev nothing_seen : Seen
nothing_seen = record {
  hostname = none;
  seen_sni = false;
  seen_alpn = false;
  acme_tls_alpn = false;
}

abbrev two_bytes : Cursor
two_bytes = record { unread = 1 ∷ 104 ∷ [] }

rounds_enough_example :
    (alpn_rounds 2 two_bytes false ≡ alpn_rounds 5 two_bytes false)
    × (name_rounds any_text 2 two_bytes none ≡ name_rounds any_text 5 two_bytes none)
    × (extension_rounds any_text 2 two_bytes nothing_seen
        ≡ extension_rounds any_text 5 two_bytes nothing_seen)
rounds_enough_example =
    rounds_enough any_text 2 5 two_bytes false none nothing_seen (omega arith) (omega arith)
