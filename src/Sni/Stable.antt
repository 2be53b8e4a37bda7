-- ===== src/Sni/Stable.antt =====
-- What `parse_client_hello` of crates/spl-bridge/src/sni.rs answers on a part of the input and on more.
use spl_rust.Base.{
  ℕ, zero, suc, ◌+◌, ◌≤◌, ◌<◌, ◌≡◌, ◌≢◌, refl, ◌∙◌, ap, ◌⊎◌, inl, inr, arith, Bool, true, false,
  not, List, ◌++◌, Option, Result, ok, Bool-cases, ltb, ◌==◌, length, length-append, length-drop,
  get_or, get_or-append, take, drop, take-append, drop-append, if◌then◌else◌,
}
use spl_rust.Sni.{
  SniError, ClientHelloLimits, ParseOutcome, incomplete, tls_handshake, payload_length, Reassembly,
  new_reassembly, Pushed, pending, whole, refused, push_bytes, record_round, record_rounds,
  parse_client_hello_with_limits, parse_client_hello, client_hello_limits,
}

-- An answer that more input may still change is `incomplete`.
abbrev Settles : Result SniError ParseOutcome → Result SniError ParseOutcome → Type 0
Settles now later = (now ≡ ok incomplete) ⊎ (later ≡ now)

same_test :
    (b : Bool) {x y x' y' : Result SniError ParseOutcome}
    → Settles x x'
    → Settles y y'
    → Settles (if b then x else y) (if b then x' else y')
same_test true s t = s
same_test false s t = t

Pushed-cases :
    (p : Pushed)
    → ((handshake : List ℕ) × (l : Option ℕ) × (p ≡ pending handshake l))
      ⊎ (((body : List ℕ) × (p ≡ whole body)) ⊎ (p ≡ refused))
Pushed-cases (pending handshake l) = inl (handshake, l, refl)
Pushed-cases (whole body) = inr (inl (body, refl))
Pushed-cases refused = inr (inr refl)

module _ (from_utf8 : List ℕ → Option (List ℕ)) (limits : ClientHelloLimits) where
  -- A round settles when the rest of the loop does, on input that is shorter.
  record_round-Settles :
      (next next' : Reassembly → List ℕ → Result SniError ParseOutcome) (r : Reassembly)
      (input more : List ℕ)
      → ((r' : Reassembly) (rest : List ℕ)
          → length rest < length input
          → Settles (next r' rest) (next' r' (rest ++ more)))
      → Settles
          (record_round from_utf8 limits next r input)
          (record_round from_utf8 limits next' r (input ++ more))
  unfolding record_round
  record_round-Settles next next' r input more settle = elim (Bool-cases (length input == 0)) [
    | inl nothing ↦ inl (rw nothing refl)
    | inr some_left ↦ elim (Bool-cases (ltb (length input) 5)) [
      | inl short ↦ elim (Bool-cases (r.record_count == limits.record_count)) [
        | inl over ↦
            let still : (length (input ++ more) == 0) ≡ false = ground (arith, longer) in
            inr (rw (some_left, still, over) refl)
        | inr under ↦ inl (rw (some_left, under, short) refl)
      ]
      | inr headed ↦
          let still : (length (input ++ more) == 0) ≡ false = ground (arith, longer) in
          let still_headed : ltb (length (input ++ more)) 5 ≡ false = ground (arith, longer) in
          let five : 5 ≤ length input = ground arith in
          let first = get_or-append input more 0 0 (omega (arith, five)) in
          let fourth = get_or-append input more 3 0 (omega (arith, five)) in
          let fifth = get_or-append input more 4 0 (omega (arith, five)) in
          rw (some_left, still, headed, still_headed, first, fourth, fifth)
            (same_test (r.record_count == limits.record_count) (inr refl) (
              same_test (not (get_or input 0 0 == tls_handshake)) (inr refl) (
                same_test (ltb limits.record_payload_bytes (payload_length input)) (inr refl) (
                  same_test
                    (ltb limits.encoded_wire_bytes
                      (r.encoded_wire_bytes + (5 + payload_length input)))
                    (inr refl)
                    (elim (Bool-cases (ltb (length input) (5 + payload_length input))) [
                      | inl cut ↦ inl (rw cut refl)
                      | inr fits ↦
                          let len = payload_length input in
                          let enough : 5 + len ≤ length input = ground arith in
                          let still_fits : ltb (length (input ++ more)) (5 + len) ≡ false =
                            ground (arith, longer) in
                          let left : length (drop (5 + len) input) < length input =
                            omega (arith, length-drop (5 + len) input, five) in
                          let same_payload : take len (drop 5 (input ++ more))
                              ≡ take len (drop 5 input) =
                            ap (take len) (drop-append 5 input more five)
                            ∙ take-append len (drop 5 input) more
                                (omega (arith, length-drop 5 input, enough)) in
                          let same_rest : drop (5 + len) (input ++ more)
                              ≡ drop (5 + len) input ++ more =
                            drop-append (5 + len) input more enough in
                          rw (fits, still_fits, same_payload)
                            (elim (Pushed-cases (
                              push_bytes limits r.handshake r.handshake_length
                                (take len (drop 5 input)))) [
                                  | inl (handshake, l, e) ↦ rw e (
                                      rw (fourth, fifth, same_rest)
                                        (settle _ (drop (5 + len) input) left))
                                  | inr (inl (body, e)) ↦ inr (rw e refl)
                                  | inr (inr e) ↦ inr (rw e refl)
                                ])
                    ])))))
    ]
  ]
    where
      longer : length (input ++ more) ≡ length input + length more
      longer = length-append input more

  record_rounds-Settles :
      (n m : ℕ) (r : Reassembly) (input more : List ℕ)
      → length input < n
      → length (input ++ more) < m
      → Settles
          (record_rounds from_utf8 limits n r input)
          (record_rounds from_utf8 limits m r (input ++ more))
  unfolding record_rounds
  record_rounds-Settles zero m r input more h k = elim h [ ]
  record_rounds-Settles (suc n) zero r input more h k = elim k [ ]
  record_rounds-Settles (suc n) (suc m) r input more h k =
      record_round-Settles (record_rounds from_utf8 limits n) (record_rounds from_utf8 limits m) r
        input more
        (λ r' rest shorter.
          record_rounds-Settles n m r' rest more (omega (arith, shorter, h))
            (omega (arith, shorter, k, length-append rest more, length-append input more)))

-- Whatever `parse_client_hello` answers on a first part of the input, other than that it is
-- incomplete, it answers on any longer input: routing data and refusals do not depend on how much
-- has arrived.
pub parse_client_hello-append :
    (from_utf8 : List ℕ → Option (List ℕ)) (input more : List ℕ)
    → parse_client_hello from_utf8 input ≢ ok incomplete
    → parse_client_hello from_utf8 (input ++ more) ≡ parse_client_hello from_utf8 input
unfolding parse_client_hello parse_client_hello_with_limits
parse_client_hello-append from_utf8 input more decided =
    elim (record_rounds-Settles from_utf8 client_hello_limits (suc (length input))
      (suc (length (input ++ more))) new_reassembly input more (omega arith) (omega arith)) [
        | inl open_end ↦ elim (decided open_end) [ ]
        | inr settled ↦ settled
      ]
