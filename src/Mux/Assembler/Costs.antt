-- ===== src/Mux/Assembler/Costs.antt =====
-- The wire bytes that `HttpStreamAssembler` of crates/spl-core/src/mux.rs is fed, against what it
-- consumes at once, attributes to its events and keeps.
use spl_rust.Base.{
  ℕ, ◌+◌, ◌≤◌, ◌<◌, ◌≡◌, ◌⊎◌, refl, inl, inr, arith, true, false, List, [], ◌∷◌, ◌++◌, none, some,
  ok, err, Option-cases, Result-cases, le_or_lt, length, length-append, length-drop, take, drop,
  ltb, ◌==◌, if_intro,
}
use spl_rust.Http.{find_subsequence}
use spl_rust.Http.Search.{find_subsequence-append, find_subsequence-prefix}
use spl_rust.Http.Chunked.{push}
use spl_rust.Http.Message.{parse_head}
use spl_rust.Mux.{MuxError, http_error, cap_exceeded, max_assembled_bytes}
use spl_rust.Mux.Events.{StreamEvent, body}
use spl_rust.Mux.Assembler.{
  HttpStreamAssembler, AssemblerOutput, no_assembly, Assembled, deliver, terminator, decode_body,
  feed_body, begin_body, feed_head, feed_data,
}
use spl_rust.Mux.Carrier.{is_local}

-- The wire bytes that events carry.
unfoldable pub costs : List StreamEvent → ℕ
costs [] = 0
costs (e ∷ es) = e.wire_cost + costs es

pub costs-append : (xs ys : List StreamEvent) → costs (xs ++ ys) ≡ costs xs + costs ys
unfolding costs
costs-append [] ys = omega arith
costs-append (x ∷ xs) ys = omega (arith, costs-append xs ys)

-- No head is buffered that is already whole.
abbrev pub IsSearching : HttpStreamAssembler → Type 0
IsSearching a = a.head_emitted ≡ false → find_subsequence a.head_buf terminator ≡ none

-- The slices of the buffered bytes, before and behind a head that was found, are in range.
pub head_split_within :
    (buf : List ℕ) (split : ℕ)
    → find_subsequence buf terminator ≡ some split
    → split + 4 ≤ length buf
head_split_within buf split e = (find_subsequence-append buf [] terminator e).1

-- What an assembler that keeps `kept` wire bytes comes to with `n` more.
pub data Outcome (kept n : ℕ) : Assembled → Type 0 where
  accepted :
      (out : AssemblerOutput) (a : HttpStreamAssembler)
      → a.pending_body_wire + (costs out.events + out.auto_consumed) ≡ kept + n
      → IsSearching a
      → Outcome kept n (ok out, a)
  refused : (e : MuxError) (a : HttpStreamAssembler) → is_local e ≡ true → Outcome kept n (err e, a)

pub Outcome-cases :
    (kept n : ℕ) (p : Assembled)
    → Outcome kept n p
    → ((out : AssemblerOutput) × (a : HttpStreamAssembler) × (p ≡ (ok out, a))
        × (a.pending_body_wire + (costs out.events + out.auto_consumed) ≡ kept + n)
        × IsSearching a)
      ⊎ ((e : MuxError) × (a : HttpStreamAssembler) × (p ≡ (err e, a)) × (is_local e ≡ true))
Outcome-cases kept n p (accepted out a e s) = inl (out, a, refl, e, s)
Outcome-cases kept n p (refused e a local) = inr (e, a, refl, local)

deliver-Outcome :
    (a : HttpStreamAssembler) (bytes : List ℕ) (out : AssemblerOutput) (kept n : ℕ)
    → IsSearching a
    → a.pending_body_wire + (costs out.events + out.auto_consumed) ≡ kept + n
    → Outcome kept n (deliver a bytes out)
unfolding deliver costs
deliver-Outcome a bytes out kept n s e =
    if_intro (Outcome kept n) (length bytes == 0) (λ _. accepted out a e s)
      (λ _.
        accepted
          (record out {
            events =
                out.events ++ record { item = body bytes; wire_cost = a.pending_body_wire } ∷ [];
          })
          (record a { pending_body_wire = 0 })
          (omega (
            arith,
            e,
            costs-append out.events
                (record { item = body bytes; wire_cost = a.pending_body_wire } ∷ []),
          ))
          s)

module _ (lossy : List ℕ → List ℕ) where
  decode_body-Outcome :
      (a : HttpStreamAssembler) (payload : List ℕ) (out : AssemblerOutput) (kept n : ℕ)
      → IsSearching a
      → a.pending_body_wire + (costs out.events + out.auto_consumed) ≡ kept + n
      → Outcome kept n (decode_body lossy a payload out)
  unfolding decode_body is_local
  decode_body-Outcome a payload out kept n s e =
      elim (Result-cases (push lossy a.chunked_decoder payload).0) [
        | inl (bytes, pushed) ↦
            rw (pushed, decode_body)
              (deliver-Outcome
                (record a { chunked_decoder = (push lossy a.chunked_decoder payload).1 }) bytes out
                kept n s e)
        | inr (fault, pushed) ↦
            rw (pushed, decode_body)
              (refused (http_error fault)
                (record a { chunked_decoder = (push lossy a.chunked_decoder payload).1 }) refl)
      ]

  feed_body-Outcome :
      (a : HttpStreamAssembler) (payload : List ℕ) (out : AssemblerOutput) (kept n : ℕ)
      → IsSearching a
      → a.pending_body_wire + length payload + (costs out.events + out.auto_consumed) ≡ kept + n
      → Outcome kept n (feed_body lossy a payload out)
  unfolding feed_body
  feed_body-Outcome a payload out kept n s e =
      if_intro (Outcome kept n) (length payload == 0) (λ h. accepted out a (ground arith) s)
        (λ _.
          if_intro (Outcome kept n) a.chunked (λ _. decode_body-Outcome more payload out kept n s e)
            (λ _. deliver-Outcome more payload out kept n s e))
    where
      more : HttpStreamAssembler
      more = record a { pending_body_wire = a.pending_body_wire + length payload }

  -- The head ends within the payload: what belongs to it is consumed, what follows it is the body's.
  begin_body-Outcome :
      (a : HttpStreamAssembler) (payload : List ℕ) (split : ℕ) (parsed : ℕ × List (List ℕ × List ℕ))
      → split + 4 ≤ length a.head_buf + length payload
      → length a.head_buf < split + 4
      → Outcome a.pending_body_wire
          (length payload)
          (begin_body lossy a payload (a.head_buf ++ payload) split parsed)
  unfolding begin_body costs
  begin_body-Outcome a payload split (status, headers) within after =
      if_intro (Outcome a.pending_body_wire (length payload)) (length rest == 0)
        (λ none_left. accepted _ _ (ground (arith, left)) (λ h. cc))
        (λ _.
          feed_body-Outcome _ rest _ a.pending_body_wire (length payload) (λ h. cc)
            (omega (arith, left)))
    where
      rest : List ℕ
      rest = drop (split + 4) (a.head_buf ++ payload)

      left : length rest + (split + 4) ≡ length a.head_buf + length payload
      left =
          omega (
            arith,
            length-drop (split + 4) (a.head_buf ++ payload),
            length-append a.head_buf payload,
          )

  feed_head-Outcome :
      (a : HttpStreamAssembler) (payload : List ℕ)
      → find_subsequence a.head_buf terminator ≡ none
      → Outcome a.pending_body_wire (length payload) (feed_head lossy a payload)
  unfolding feed_head is_local costs
  feed_head-Outcome a payload open_head =
      elim (Option-cases (find_subsequence (a.head_buf ++ payload) terminator)) [
        | inl more ↦
            rw (more, feed_head)
              (if_intro (Outcome a.pending_body_wire (length payload))
                (ltb max_assembled_bytes (length (a.head_buf ++ payload)))
                (λ _. refused cap_exceeded _ refl) (λ _. accepted _ _ (omega arith) (λ _. more)))
        | inr (split, found) ↦
            elim (Result-cases (parse_head lossy (take split (a.head_buf ++ payload)))) [
              | inr (fault, bad) ↦ rw (found, bad, feed_head) (refused (http_error fault) _ refl)
              | inl (parsed, good) ↦
                  rw (found, good, feed_head)
                    (begin_body-Outcome a payload split parsed (whole split found)
                      (beyond split found))
            ]
      ]
    where
      whole :
          (split : ℕ)
          → find_subsequence (a.head_buf ++ payload) terminator ≡ some split
          → split + 4 ≤ length a.head_buf + length payload
      whole split found = omega (
        arith,
        find_subsequence-append (a.head_buf ++ payload) [] terminator found,
        length-append a.head_buf payload,
      )

      beyond :
          (split : ℕ)
          → find_subsequence (a.head_buf ++ payload) terminator ≡ some split
          → length a.head_buf < split + 4
      beyond split found = elim (le_or_lt (split + 4) (length a.head_buf)) [
        | inr h ↦ h
        | inl inside ↦
            let again = find_subsequence-prefix a.head_buf payload terminator found inside in cc
      ]

  -- One DATA payload: the wire bytes kept before it and its own are kept, carried by the new events, or
  -- consumed at once; an error is one that ends the stream only.
  pub feed_data-Outcome :
      (a : HttpStreamAssembler) (payload : List ℕ)
      → IsSearching a
      → Outcome a.pending_body_wire (length payload) (feed_data lossy a payload)
  unfolding feed_data costs
  feed_data-Outcome a payload s =
      if_intro (Outcome a.pending_body_wire (length payload)) a.head_emitted
        (λ emitted.
          feed_body-Outcome a payload no_assembly a.pending_body_wire (length payload) s
            (omega arith))
        (λ fresh. feed_head-Outcome a payload (s fresh))
