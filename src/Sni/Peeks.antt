-- ===== src/Sni/Peeks.antt =====
-- What `extract_sni_inner` of crates/spl-bridge/src/sni.rs answers from peeks, against the bytes that
-- the client sends.
use spl_rust.Base.{
  ℕ, ◌≡◌, refl, ◌∙◌, ap, ◌⊎◌, inl, inr, List, [], ◌∷◌, ◌++◌, Option, none, some, Result, ok, err,
  ◌==◌, length, if_intro, All,
}
use spl_rust.Sni.{
  SniError, ClientHelloRouting, client_hello_limits, ParseOutcome, complete, incomplete, PeekRound,
  answers, grows, waits, parse_client_hello, peek_round, extract_rounds, extract_sni_inner,
}
use spl_rust.Sni.Stable.{parse_client_hello-append}

-- A peek fails, or gives a first part of what the client sends.
abbrev pub IsPeek : List ℕ → Option (List ℕ) → Type 0
IsPeek sent none = Unit {0}
IsPeek sent (some bytes) = (more : List ℕ) × (sent ≡ bytes ++ more)

module _ (from_utf8 : List ℕ → Option (List ℕ)) (sent : List ℕ) where
  -- A round that answers with routing data answers what all the bytes give.
  abbrev Agrees : PeekRound → Type 0
  Agrees (answers (ok routing)) = parse_client_hello from_utf8 sent ≡ ok (complete routing)
  Agrees (answers (err e)) = Unit {0}
  Agrees (grows c) = Unit {0}
  Agrees waits = Unit {0}

  parsed_cases :
      (r : Result SniError ParseOutcome)
      → ((routing : ClientHelloRouting) × (r ≡ ok (complete routing)))
        ⊎ ((r ≡ ok incomplete) ⊎ ((e : SniError) × (r ≡ err e)))
  parsed_cases (ok (complete routing)) = inl (routing, refl)
  parsed_cases (ok incomplete) = inr (inl refl)
  parsed_cases (err e) = inr (inr (e, refl))

  peek_round-Agrees :
      (capacity : ℕ) (peeked : Option (List ℕ))
      → IsPeek sent peeked
      → Agrees (peek_round from_utf8 capacity peeked)
  unfolding peek_round
  peek_round-Agrees capacity none p = tt
  peek_round-Agrees capacity (some bytes) (more, whole) =
      if_intro Agrees (length bytes == 0) (λ _. tt)
        (λ _. elim (parsed_cases (parse_client_hello from_utf8 bytes)) [
          | inl (routing, e) ↦ rw e (
              ap (parse_client_hello from_utf8) whole
              ∙ parse_client_hello-append from_utf8 bytes more
                  (λ (open_end : parse_client_hello from_utf8 bytes ≡ ok incomplete). cc)
              ∙ e)
          | inr (inl e) ↦ rw e (
              if_intro Agrees (capacity == client_hello_limits.encoded_wire_bytes) (λ _. tt)
                (λ _. if_intro Agrees (length bytes == capacity) (λ _. tt) (λ _. tt)))
          | inr (inr (fault, e)) ↦ rw e tt
        ])

  Round-cases :
      (p : PeekRound)
      → ((r : Result SniError ClientHelloRouting) × (p ≡ answers r))
        ⊎ (((c : ℕ) × (p ≡ grows c)) ⊎ (p ≡ waits))
  Round-cases (answers r) = inl (r, refl)
  Round-cases (grows c) = inr (inl (c, refl))
  Round-cases waits = inr (inr refl)

  extract_rounds-Agrees :
      (capacity : ℕ) (peeks : List (Option (List ℕ))) (routing : ClientHelloRouting)
      → All (IsPeek sent) peeks
      → extract_rounds from_utf8 capacity peeks ≡ some (ok routing)
      → parse_client_hello from_utf8 sent ≡ ok (complete routing)
  unfolding extract_rounds
  extract_rounds-Agrees capacity [] routing h e = cc
  extract_rounds-Agrees capacity (peeked ∷ peeks) routing h e =
      elim (Round-cases (peek_round from_utf8 capacity peeked)) [
        | inl (r, answered) ↦
            let same : r ≡ ok routing = cc (rw (answered, extract_rounds) at e) in
            rw (answered, same) at (peek_round-Agrees capacity peeked h.0)
        | inr (inl (larger, grown)) ↦
            extract_rounds-Agrees larger peeks routing h.1 (rw (grown, extract_rounds) at e)
        | inr (inr quiet) ↦
            extract_rounds-Agrees capacity peeks routing h.1 (rw (quiet, extract_rounds) at e)
      ]

-- When each peek fails or gives a first part of what the client sends, routing data that the peek
-- loop answers are what `parse_client_hello` gives on all that the client sends.
pub extract_sni_inner-parse_client_hello :
    (from_utf8 : List ℕ → Option (List ℕ)) (sent : List ℕ) (peeks : List (Option (List ℕ)))
    (routing : ClientHelloRouting)
    → All (IsPeek sent) peeks
    → extract_sni_inner from_utf8 peeks ≡ some (ok routing)
    → parse_client_hello from_utf8 sent ≡ ok (complete routing)
unfolding extract_sni_inner
extract_sni_inner-parse_client_hello from_utf8 sent peeks routing h e =
    extract_rounds-Agrees from_utf8 sent _ peeks routing h e
