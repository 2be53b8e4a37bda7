-- ===== src/Http/Split.antt =====
-- `ChunkedDecoder::push` of crates/spl-core/src/http.rs on input that comes in two parts.
use spl_rust.Base.{
  ℕ, zero, suc, ◌+◌, ◌≤◌, ◌<◌, ◌≡◌, refl, sym, ap, ◌∙◌, ◌⊎◌, inl, inr, arith, true, List, [], ◌++◌,
  append-nil, append_assoc, Result, ok, err, length, length-append,
}
use spl_rust.Http.{HttpError, bad_chunked_body, previously_failed}
use spl_rust.Http.Chunked.{
  ChunkState, size, chunk_data, data_crlf, trailer, done, failed, ChunkedDecoder, Round, waits,
  goes, ends, faults, round_on, fail, push_rounds, push_open, push_on, push,
}
use spl_rust.Http.Rounds.{extend, is_open, bonus, weight, Extends, round_on-Extends}

abbrev Answer : Type 0
Answer = Result HttpError (List ℕ) × ChunkedDecoder

abbrev pub after : List ℕ → Answer → Answer
after xs (ok ys, d) = (ok (xs ++ ys), d)
after xs (err e, d) = (err e, d)

module _ (lossy : List ℕ → List ℕ) where
  -- What one round of the loop leaves to do.
  abbrev then_rounds : ℕ → ChunkedDecoder → List ℕ → Round → Answer
  then_rounds fuel d out waits = (ok out, d)
  then_rounds fuel d out (goes bytes d') = push_rounds lossy fuel d' (out ++ bytes)
  then_rounds fuel d out ends = (ok out, record { buf = []; state = done })
  then_rounds fuel d out (faults e) = fail e

  push_rounds-round :
      (fuel : ℕ) (d : ChunkedDecoder) (out : List ℕ) {r : Round}
      → round_on lossy d.state d.buf ≡ r
      → push_rounds lossy (suc fuel) d out ≡ then_rounds fuel d out r
  unfolding push_rounds
  push_rounds-round fuel d out {r = waits} e = rw (e, push_rounds) refl
  push_rounds-round fuel d out {r = goes bytes d'} e = rw (e, push_rounds) refl
  push_rounds-round fuel d out {r = ends} e = rw (e, push_rounds) refl
  push_rounds-round fuel d out {r = faults x} e = rw (e, push_rounds) refl

  -- One round on `d`, beside what it does with `ys` behind its input.
  data Outcome (d : ChunkedDecoder) (ys : List ℕ) : Type 0 where
    waited : round_on lossy d.state d.buf ≡ waits → Outcome d ys
    went :
        (bytes : List ℕ) (d' : ChunkedDecoder)
        → round_on lossy d.state d.buf ≡ goes bytes d'
        → round_on lossy d.state (d.buf ++ ys) ≡ goes bytes (extend d' ys)
        → weight d' < weight d
        → is_open d'.state ≡ true
        → Outcome d ys
    ended :
        round_on lossy d.state d.buf ≡ ends
        → round_on lossy d.state (d.buf ++ ys) ≡ ends
        → Outcome d ys
    faulted :
        (x : HttpError)
        → round_on lossy d.state d.buf ≡ faults x
        → round_on lossy d.state (d.buf ++ ys) ≡ faults x
        → Outcome d ys

  classify :
      (d : ChunkedDecoder) (ys : List ℕ) (r : Round)
      → round_on lossy d.state d.buf ≡ r
      → Extends d ys (round_on lossy d.state (d.buf ++ ys)) r
      → Outcome d ys
  classify d ys waits e x = Outcome.waited e
  classify d ys (goes bytes d') e (more, lighter, open') =
      Outcome.went bytes d' e more lighter open'
  classify d ys ends e x = Outcome.ended e x
  classify d ys (faults y) e x = Outcome.faulted y e x

  next_round : (d : ChunkedDecoder) (ys : List ℕ) → Outcome d ys
  next_round d ys = classify d ys (round_on lossy d.state d.buf) refl (round_on-Extends lossy ys d)

  push_rounds_fuel :
      (n m : ℕ) (d : ChunkedDecoder) (out : List ℕ)
      → weight d < n
      → weight d < m
      → push_rounds lossy n d out ≡ push_rounds lossy m d out
  push_rounds_fuel zero m d out h k = elim h [ ]
  push_rounds_fuel (suc n) zero d out h k = elim k [ ]
  push_rounds_fuel (suc n) (suc m) d out h k = elim (next_round d []) [
    | Outcome.waited e ↦ push_rounds-round n d out e ∙ sym (push_rounds-round m d out e)
    | Outcome.went bytes d' e _ lighter _ ↦
        push_rounds-round n d out e
        ∙ push_rounds_fuel n m d' (out ++ bytes) (omega arith) (omega arith)
        ∙ sym (push_rounds-round m d out e)
    | Outcome.ended e _ ↦ push_rounds-round n d out e ∙ sym (push_rounds-round m d out e)
    | Outcome.faulted x e _ ↦ push_rounds-round n d out e ∙ sym (push_rounds-round m d out e)
  ]

  push_rounds-after :
      (n : ℕ) (d : ChunkedDecoder) (xs out : List ℕ)
      → push_rounds lossy n d (xs ++ out) ≡ after xs (push_rounds lossy n d out)
  push_rounds-after zero d xs out = unfold push_rounds in refl
  push_rounds-after (suc n) d xs out = elim (next_round d []) [
    | Outcome.waited e ↦ rw (push_rounds-round n d (xs ++ out) e, push_rounds-round n d out e) refl
    | Outcome.went bytes d' e _ _ _ ↦
        rw (push_rounds-round n d (xs ++ out) e, push_rounds-round n d out e, append_assoc)
          (push_rounds-after n d' xs (out ++ bytes))
    | Outcome.ended e _ ↦ rw (push_rounds-round n d (xs ++ out) e, push_rounds-round n d out e) refl
    | Outcome.faulted x e _ ↦
        rw (push_rounds-round n d (xs ++ out) e, push_rounds-round n d out e) refl
  ]

  -- `more` is the loop's answer with `ys` behind the input, the other argument the one without.
  abbrev Continues : Answer → List ℕ → Answer → Type 0
  Continues more ys (ok out, d) =
      ((d.state ≡ done) × (more ≡ (ok out, d)))
      ⊎ ((is_open d.state ≡ true)
          × (more ≡ push_rounds lossy (suc (suc (length (d.buf ++ ys)))) (extend d ys) out))
  Continues more ys (err e, d) = (d.state ≡ failed) × (more ≡ (err e, d))

  Continues-from :
      {more more' : Answer} (ys : List ℕ) (p : Answer)
      → more ≡ more'
      → Continues more' ys p
      → Continues more ys p
  Continues-from ys (ok out, d) e (inl (shut, h)) = inl (shut, e ∙ h)
  Continues-from ys (ok out, d) e (inr (still, h)) = inr (still, e ∙ h)
  Continues-from ys (err x, d) e (shut, h) = (shut, e ∙ h)

  bonus_small : (st : ChunkState) → bonus st ≤ 1
  bonus_small size = omega arith
  bonus_small (chunk_data n) = omega arith
  bonus_small data_crlf = omega arith
  bonus_small trailer = omega arith
  bonus_small done = omega arith
  bonus_small failed = omega arith

  push_rounds-Continues :
      (n m : ℕ) (d : ChunkedDecoder) (out ys : List ℕ)
      → is_open d.state ≡ true
      → weight d < n
      → weight d + length ys < m
      → Continues (push_rounds lossy m (extend d ys) out) ys (push_rounds lossy n d out)
  push_rounds-Continues zero m d out ys still h k = elim h [ ]
  push_rounds-Continues (suc n) zero d out ys still h k = elim k [ ]
  push_rounds-Continues (suc n) (suc m) d out ys still h k = elim (next_round d ys) [
    | Outcome.waited e ↦ rw (push_rounds-round n d out e) (
        inr (
          still,
          push_rounds_fuel _ _ (extend d ys) out (omega (arith, length-append d.buf ys))
              (omega (arith, bonus_small d.state)),
        ))
    | Outcome.went bytes d' e more lighter open' ↦ rw (push_rounds-round n d out e) (
        Continues-from ys (push_rounds lossy n d' (out ++ bytes))
          (push_rounds-round m (extend d ys) out more)
          (push_rounds-Continues n m d' (out ++ bytes) ys open' (omega arith) (omega arith)))
    | Outcome.ended e more ↦
        rw (push_rounds-round n d out e) (inl (refl, push_rounds-round m (extend d ys) out more))
    | Outcome.faulted x e more ↦
        rw (push_rounds-round n d out e) (refl, push_rounds-round m (extend d ys) out more)
  ]

  push_on-open :
      (st : ChunkState) (d : ChunkedDecoder) (bytes : List ℕ)
      → is_open st ≡ true
      → push_on lossy st d bytes ≡ push_open lossy (extend d bytes)
  unfolding push_on
  push_on-open size d bytes h = refl
  push_on-open (chunk_data n) d bytes h = refl
  push_on-open data_crlf d bytes h = refl
  push_on-open trailer d bytes h = refl
  push_on-open done d bytes h = cc
  push_on-open failed d bytes h = cc

  -- What the decoder answers to `ys` after it has answered `p`.
  unfoldable pub resume : Answer → List ℕ → Answer
  resume (ok out, d) ys = after out (push lossy d ys)
  resume (err e, d) ys = (err e, d)

  push_open-after :
      (d : ChunkedDecoder) (xs : List ℕ)
      → push_rounds lossy (suc (suc (length d.buf))) d xs ≡ after xs (push_open lossy d)
  unfolding push_open
  push_open-after d xs =
      ap (λ zs. push_rounds lossy (suc (suc (length d.buf))) d zs) (sym (append-nil xs))
      ∙ push_rounds-after (suc (suc (length d.buf))) d xs []

  push_on-done :
      (st : ChunkState) (d : ChunkedDecoder) (bytes : List ℕ)
      → st ≡ done
      → push_on lossy st d bytes ≡ (ok [], d)
  unfolding push_on
  push_on-done done d bytes h = refl
  push_on-done size d bytes h = cc
  push_on-done (chunk_data n) d bytes h = cc
  push_on-done data_crlf d bytes h = cc
  push_on-done trailer d bytes h = cc
  push_on-done failed d bytes h = cc

  Continues-resume :
      (more : Answer) (ys : List ℕ) (p : Answer) → Continues more ys p → more ≡ resume p ys
  unfolding resume push
  Continues-resume more ys (ok out, d) (inl (shut, h)) =
      rw (push_on-done d.state d ys shut, append-nil) h
  Continues-resume more ys (ok out, d) (inr (still, h)) =
      rw (push_on-open d.state d ys still) (h ∙ push_open-after (extend d ys) out)
  Continues-resume more ys (err e, d) (shut, h) = h

  push_open-append :
      (d : ChunkedDecoder) (ys : List ℕ)
      → is_open d.state ≡ true
      → push_open lossy (extend d ys) ≡ resume (push_open lossy d) ys
  push_open-append d ys still = Continues-resume _ ys (push_open lossy d) (
      unfold push_open in
      push_rounds-Continues (suc (suc (length d.buf))) (suc (suc (length (d.buf ++ ys)))) d [] ys
        still (omega (arith, bonus_small d.state))
        (omega (arith, bonus_small d.state, length-append d.buf ys)))

  open_cases : (st : ChunkState) → (is_open st ≡ true) ⊎ (st ≡ done) ⊎ (st ≡ failed)
  open_cases size = inl refl
  open_cases (chunk_data n) = inl refl
  open_cases data_crlf = inl refl
  open_cases trailer = inl refl
  open_cases done = inr (inl refl)
  open_cases failed = inr (inr refl)

  push_on-failed :
      (st : ChunkState) (d : ChunkedDecoder) (bytes : List ℕ)
      → st ≡ failed
      → push_on lossy st d bytes ≡ (err (bad_chunked_body previously_failed), d)
  unfolding push_on
  push_on-failed failed d bytes h = refl
  push_on-failed size d bytes h = cc
  push_on-failed (chunk_data n) d bytes h = cc
  push_on-failed data_crlf d bytes h = cc
  push_on-failed trailer d bytes h = cc
  push_on-failed done d bytes h = cc

  -- For any text decoding of the size lines, a chunked body pushed in two parts gives what it gives
  -- at once: the bytes of both parts in order, or the same error, with the same decoder left.
  pub push-append :
      (d : ChunkedDecoder) (xs ys : List ℕ) → push lossy d (xs ++ ys) ≡ resume (push lossy d xs) ys
  unfolding resume push
  push-append d xs ys = elim (open_cases d.state) [
    | inl still ↦
        rw (push_on-open d.state d (xs ++ ys) still, push_on-open d.state d xs still)
          (ap (λ b. push_open lossy (record d { buf = b })) (sym (append_assoc d.buf xs ys))
            ∙ push_open-append (extend d xs) ys still)
    | inr (inl shut) ↦
        rw
          (
            push_on-done d.state d (xs ++ ys) shut,
            push_on-done d.state d xs shut,
            resume,
            push_on-done d.state d ys shut,
          )
          refl
    | inr (inr shut) ↦
        rw (push_on-failed d.state d (xs ++ ys) shut, push_on-failed d.state d xs shut) refl
  ]
