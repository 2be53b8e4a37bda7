-- ===== src/Http/Rounds.antt =====
-- One round of `ChunkedDecoder::push` of crates/spl-core/src/http.rs on longer input.
use spl_rust.Base.{
  ℕ, ◌+◌, ◌≤◌, ◌<◌, ◌≡◌, refl, inl, inr, arith, Bool, true, false, List, ◌++◌, Bool-cases,
  Option-cases, Result-cases, ltb, ◌==◌, length, take, length-append, length-drop, take-append,
  drop-append, if◌then◌else◌, if_intro, le→ltb,
}
use spl_rust.Http.{crlf, starts_with, find_subsequence, parse_chunk_size}
use spl_rust.Http.Search.{starts_with-length, starts_with-append, find_subsequence-append}
use spl_rust.Http.Chunked.{
  ChunkState, size, chunk_data, data_crlf, trailer, done, failed, ChunkedDecoder, Round, waits,
  goes, ends, faults, round_on,
}

abbrev pub extend : ChunkedDecoder → List ℕ → ChunkedDecoder
extend d ys = record d { buf = d.buf ++ ys }

-- The states in which `push` reads its input.
abbrev pub is_open : ChunkState → Bool
is_open size = true
is_open (chunk_data n) = true
is_open data_crlf = true
is_open trailer = true
is_open done = false
is_open failed = false

-- A chunk's data may take no byte, but it is left for its terminator.
abbrev pub bonus : ChunkState → ℕ
bonus size = 0
bonus (chunk_data n) = 1
bonus data_crlf = 0
bonus trailer = 0
bonus done = 0
bonus failed = 0

abbrev pub weight : ChunkedDecoder → ℕ
weight d = length d.buf + bonus d.state

-- A round that did something does the same with `ys` behind its input, and it took something.
abbrev pub Extends : ChunkedDecoder → List ℕ → Round → Round → Type 0
Extends d ys more waits = Unit {0}
Extends d ys more (goes out d') =
    (more ≡ goes out (extend d' ys)) × (weight d' < weight d) × (is_open d'.state ≡ true)
Extends d ys more ends = more ≡ ends
Extends d ys more (faults e) = more ≡ faults e

after_size :
    (n : ℕ)
    → let st = if n == 0 then trailer else chunk_data n in (is_open st ≡ true) × (bonus st ≤ 1)
after_size n =
    if_intro (λ (st : ChunkState). (is_open st ≡ true) × (bonus st ≤ 1)) (n == 0)
      (λ _. (refl, omega arith)) (λ _. (refl, omega arith))

module _ (lossy : List ℕ → List ℕ) (ys : List ℕ) where
  size-Extends :
      (buf : List ℕ)
      → Extends
          (record { buf = buf; state = size })
          ys
          (round_on lossy size (buf ++ ys))
          (round_on lossy size buf)
  unfolding round_on
  size-Extends buf = elim (Option-cases (find_subsequence buf crlf)) [
    | inl e ↦ rw (e, round_on) tt
    | inr (p, e) ↦
        let (again, fits) = find_subsequence-append buf ys crlf e in
        elim (Result-cases (parse_chunk_size (lossy (take p buf)))) [
          | inr (x, c) ↦
              rw (e, again, round_on, take-append p buf ys (omega arith), c, round_on) refl
          | inl (n, c) ↦
              rw
                (
                  e,
                  again,
                  round_on,
                  take-append p buf ys (omega arith),
                  c,
                  round_on,
                  drop-append (p + 2) buf ys fits,
                )
                (refl, omega (arith, (after_size n).1, length-drop (p + 2) buf), (after_size n).0)
        ]
  ]

  data-Extends :
      (n : ℕ) (buf : List ℕ)
      → Extends
          (record { buf = buf; state = chunk_data n })
          ys
          (round_on lossy (chunk_data n) (buf ++ ys))
          (round_on lossy (chunk_data n) buf)
  unfolding round_on
  data-Extends n buf = elim (Bool-cases (ltb (length buf) n)) [
    | inl short ↦ rw short tt
    | inr enough ↦
        let fits : n ≤ length buf = ground arith in
        rw
          (
            enough,
            le→ltb (length (buf ++ ys)) n (omega (arith, length-append buf ys)),
            take-append n buf ys fits,
            drop-append n buf ys fits,
          )
          (refl, omega (arith, length-drop n buf), refl)
  ]

  crlf-Extends :
      (buf : List ℕ)
      → Extends
          (record { buf = buf; state = data_crlf })
          ys
          (round_on lossy data_crlf (buf ++ ys))
          (round_on lossy data_crlf buf)
  unfolding round_on
  crlf-Extends buf = elim (Bool-cases (ltb (length buf) 2)) [
    | inl short ↦ rw short tt
    | inr enough ↦
        let fits : 2 ≤ length buf = ground arith in
        elim (Bool-cases (starts_with buf crlf)) [
          | inl good ↦
              rw
                (
                  enough,
                  le→ltb (length (buf ++ ys)) 2 (omega (arith, length-append buf ys)),
                  starts_with-append buf ys crlf fits,
                  good,
                  drop-append 2 buf ys fits,
                )
                (refl, omega (arith, length-drop 2 buf), refl)
          | inr bad ↦
              rw
                (
                  enough,
                  le→ltb (length (buf ++ ys)) 2 (omega (arith, length-append buf ys)),
                  starts_with-append buf ys crlf fits,
                  bad,
                )
                refl
        ]
  ]

  trailer-Extends :
      (buf : List ℕ)
      → Extends
          (record { buf = buf; state = trailer })
          ys
          (round_on lossy trailer (buf ++ ys))
          (round_on lossy trailer buf)
  unfolding round_on
  trailer-Extends buf = elim (Bool-cases (starts_with buf crlf)) [
    | inl here ↦
        rw (here, starts_with-append buf ys crlf (starts_with-length buf crlf here), here) refl
    | inr other ↦ elim (Option-cases (find_subsequence buf (crlf ++ crlf))) [
      | inl e ↦ rw (other, e) tt
      | inr (p, e) ↦
          let (again, fits) = find_subsequence-append buf ys (crlf ++ crlf) e in
          rw (other, e, starts_with-append buf ys crlf (omega arith), other, again) refl
    ]
  ]

  round_state-Extends :
      (st : ChunkState) (buf : List ℕ)
      → Extends
          (record { buf = buf; state = st })
          ys
          (round_on lossy st (buf ++ ys))
          (round_on lossy st buf)
  unfolding round_on
  round_state-Extends size buf = size-Extends buf
  round_state-Extends (chunk_data n) buf = data-Extends n buf
  round_state-Extends data_crlf buf = crlf-Extends buf
  round_state-Extends trailer buf = trailer-Extends buf
  round_state-Extends done buf = tt
  round_state-Extends failed buf = tt

  -- More input changes no round that did something.
  pub round_on-Extends :
      (d : ChunkedDecoder)
      → Extends d ys (round_on lossy d.state (d.buf ++ ys)) (round_on lossy d.state d.buf)
  round_on-Extends d = round_state-Extends d.state d.buf
