-- ===== src/Frame/Reframe.antt =====
-- `FrameDecoder` of crates/spl-core/src/frame.rs on input that comes in parts.
use spl_rust.Base.{
  ℕ, zero, suc, ◌+◌, ◌≤◌, ◌<◌, ◌≡◌, refl, sym, ap, ◌∙◌, inl, inr, arith, List, [], ◌∷◌, ◌++◌,
  flatten, append-nil, append_assoc, none, some, Result, ok, err, length, length-append, drop,
  length-drop, get_or-append, take-append, drop-append,
}
use spl_rust.Frame.{
  Frame, FrameError, FrameDecoder, feed, reserved_flag, header_stream_id, header_flags,
  header_length, cut_frame, next_frame, drain_loop, drain,
}
use spl_rust.Frame.Wire.{next_frame_whole}
use spl_rust.Frame.Decoder.{
  IsReserved, IsWhole, next_frame_partial, next_frame_reserved, decoder_cases, length-cut_frame,
  drain_loop-none, drain_loop-some, drain_loop_err, drain-IsDrained,
}

-- Bytes behind a whole header do not change what it says.
module _ (xs ys : List ℕ) (h : 8 ≤ length xs) where
  pub header_flags-append : header_flags (xs ++ ys) ≡ header_flags xs
  unfolding header_flags
  header_flags-append = get_or-append xs ys 4 0 (omega arith)

  pub header_length-append : header_length (xs ++ ys) ≡ header_length xs
  unfolding header_length
  header_length-append = rw (
    get_or-append xs ys 5 0 (omega arith),
    get_or-append xs ys 6 0 (omega arith),
    get_or-append xs ys 7 0 (omega arith),
  )

  pub header_stream_id-append : header_stream_id (xs ++ ys) ≡ header_stream_id xs
  unfolding header_stream_id
  header_stream_id-append = rw (
    get_or-append xs ys 0 0 (omega arith),
    get_or-append xs ys 1 0 (omega arith),
    get_or-append xs ys 2 0 (omega arith),
    get_or-append xs ys 3 0 (omega arith),
  )

cut_frame-feed :
    (d : FrameDecoder) (ys : List ℕ) (len : ℕ)
    → 8 + len ≤ length d.buf
    → cut_frame (feed d ys) len ≡ ((cut_frame d len).0, feed (cut_frame d len).1 ys)
unfolding cut_frame feed
cut_frame-feed d ys len h = rw (
  header_stream_id-append d.buf ys (omega arith),
  header_flags-append d.buf ys (omega arith),
  drop-append 8 d.buf ys (omega arith),
  drop-append (8 + len) d.buf ys h,
  take-append len (drop 8 d.buf) ys (omega (arith, length-drop 8 d.buf)),
)

length-feed : (d : FrameDecoder) (ys : List ℕ) → length (feed d ys).buf ≡ length d.buf + length ys
unfolding feed
length-feed d ys = length-append d.buf ys

module _ (d : FrameDecoder) (ys : List ℕ) (h : 8 ≤ length d.buf) where
  header_flags-feed : header_flags (feed d ys).buf ≡ header_flags d.buf
  unfolding feed
  header_flags-feed = header_flags-append d.buf ys h

  header_length-feed : header_length (feed d ys).buf ≡ header_length d.buf
  unfolding feed
  header_length-feed = header_length-append d.buf ys h

-- More input keeps a frame that is whole, and a reserved flag that is refused.
next_frame-feed_whole :
    (d : FrameDecoder) (ys : List ℕ)
    → IsWhole d
    → next_frame (feed d ys) ≡ (
      ok (some (cut_frame d (header_length d.buf)).0),
      feed (cut_frame d (header_length d.buf)).1 ys,
    )
next_frame-feed_whole d ys (h, free) =
    next_frame_whole (feed d ys) (omega (arith, len, length-feed d ys))
      (rw (header_flags-feed d ys (omega arith)) free)
    ∙ rw (len, cut_frame-feed d ys (header_length d.buf) h)
  where
    len : header_length (feed d ys).buf ≡ header_length d.buf
    len = header_length-feed d ys (omega arith)

next_frame-feed_reserved :
    (d : FrameDecoder) (ys : List ℕ)
    → IsReserved d
    → next_frame (feed d ys) ≡ (err (reserved_flag (header_flags d.buf)), feed d ys)
next_frame-feed_reserved d ys (h, reserved) =
    next_frame_reserved (feed d ys)
      (omega (arith, length-feed d ys), rw (header_flags-feed d ys h) reserved)
    ∙ rw (header_flags-feed d ys h)

-- Fuel past the number of bytes changes nothing.
drain_loop_fuel :
    (n m : ℕ) (d : FrameDecoder) (out : List Frame)
    → length d.buf < n
    → length d.buf < m
    → drain_loop n d out ≡ drain_loop m d out
drain_loop_fuel zero m d out h k = elim h [ ]
drain_loop_fuel (suc n) zero d out h k = elim k [ ]
drain_loop_fuel (suc n) (suc m) d out h k = elim (decoder_cases d) [
  | inl p ↦
      let e = next_frame_partial d p in drain_loop-none n d out e ∙ sym (drain_loop-none m d out e)
  | inr (inl r) ↦
      let e = next_frame_reserved d r in drain_loop_err n d out e ∙ sym (drain_loop_err m d out e)
  | inr (inr w) ↦
      let e = next_frame_whole d w.0 w.1 in
      let taken = length-cut_frame d (header_length d.buf) w.0 in
      drain_loop-some n d out e
      ∙ drain_loop_fuel n m (cut_frame d (header_length d.buf)).1 _ (omega arith) (omega arith)
      ∙ sym (drain_loop-some m d out e)
]

-- The result with more frames in front.
abbrev pub after :
    List Frame
    → Result FrameError (List Frame) × FrameDecoder
    → Result FrameError (List Frame) × FrameDecoder
after fs (ok gs, d) = (ok (fs ++ gs), d)
after fs (err e, d) = (err e, d)

drain_loop-after :
    (n : ℕ) (d : FrameDecoder) (fs out : List Frame)
    → drain_loop n d (fs ++ out) ≡ after fs (drain_loop n d out)
drain_loop-after zero d fs out = unfold drain_loop in refl
drain_loop-after (suc n) d fs out = elim (decoder_cases d) [
  | inl p ↦
      let e = next_frame_partial d p in
      rw (drain_loop-none n d (fs ++ out) e, drain_loop-none n d out e)
  | inr (inl r) ↦
      let e = next_frame_reserved d r in
      rw (drain_loop_err n d (fs ++ out) e, drain_loop_err n d out e)
  | inr (inr w) ↦
      let e = next_frame_whole d w.0 w.1 in
      rw (drain_loop-some n d (fs ++ out) e, drain_loop-some n d out e, append_assoc)
        (drain_loop-after n (cut_frame d (header_length d.buf)).1 fs _)
]

-- What the loop does on a buffer with more bytes, by its result without them: it goes on from where
-- it stopped, or stops at the same error.
abbrev Continues :
    Result FrameError (List Frame) × FrameDecoder
    → List ℕ
    → Result FrameError (List Frame) × FrameDecoder
    → Type 0
Continues more ys (ok fs, d') = more ≡ drain_loop (suc (length (feed d' ys).buf)) (feed d' ys) fs
Continues more ys (err e, d') = more ≡ (err e, feed d' ys)

Continues-from :
    {more more' : Result FrameError (List Frame) × FrameDecoder} (ys : List ℕ)
    (r : Result FrameError (List Frame) × FrameDecoder)
    → more ≡ more'
    → Continues more' ys r
    → Continues more ys r
Continues-from ys (ok fs, d') e h = e ∙ h
Continues-from ys (err x, d') e h = e ∙ h

drain_loop-feed :
    (n m : ℕ) (d : FrameDecoder) (out : List Frame) (ys : List ℕ)
    → length d.buf < n
    → length d.buf + length ys < m
    → Continues (drain_loop m (feed d ys) out) ys (drain_loop n d out)
drain_loop-feed zero m d out ys h k = elim h [ ]
drain_loop-feed (suc n) zero d out ys h k = elim k [ ]
drain_loop-feed (suc n) (suc m) d out ys h k = elim (decoder_cases d) [
  | inl p ↦
      rw (drain_loop-none n d out (next_frame_partial d p))
        (drain_loop_fuel _ _ (feed d ys) out (omega (arith, length-feed d ys)) (omega arith))
  | inr (inl r) ↦
      rw (drain_loop_err n d out (next_frame_reserved d r))
        (drain_loop_err m (feed d ys) out (next_frame-feed_reserved d ys r))
  | inr (inr w) ↦
      let taken = length-cut_frame d (header_length d.buf) w.0 in
      let d' = (cut_frame d (header_length d.buf)).1 in
      let out' = out ++ (cut_frame d (header_length d.buf)).0 ∷ [] in
      rw (drain_loop-some n d out (next_frame_whole d w.0 w.1)) (
        Continues-from ys (drain_loop n d' out')
          (drain_loop-some m (feed d ys) out (next_frame-feed_whole d ys w))
          (drain_loop-feed n m d' out' ys (omega arith) (omega arith)))
]

drain-Continues : (d : FrameDecoder) (ys : List ℕ) → Continues (drain (feed d ys)) ys (drain d)
unfolding drain
drain-Continues d ys =
    drain_loop-feed (suc (length d.buf)) _ d [] ys (omega arith) (omega (arith, length-feed d ys))

-- After a successful `drain`, further bytes give what a single `drain` over all bytes gives behind
-- the frames that were taken before.
pub drain-feed :
    (d : FrameDecoder) (ys : List ℕ) {fs : List Frame} {d' : FrameDecoder}
    → drain d ≡ (ok fs, d')
    → drain (feed d ys) ≡ after fs (drain (feed d' ys))
drain-feed d ys {fs} {d'} e =
    (rw e at (drain-Continues d ys))
    ∙ ap (λ out. drain_loop (suc (length (feed d' ys).buf)) (feed d' ys) out) (sym (append-nil fs))
    ∙ drain_loop-after (suc (length (feed d' ys).buf)) (feed d' ys) fs []
    ∙ unfold drain in refl

-- A carrier that reads chunk by chunk and drains after each; the first error ends it.
unfoldable pub feed_chunks :
    FrameDecoder → List (List ℕ) → Result FrameError (List Frame) × FrameDecoder
feed_chunks d [] = (ok [], d)
feed_chunks d (c ∷ cs) =
    let (r, d') = drain (feed d c) in
    elim r [ ok fs ↦ after fs (feed_chunks d' cs) | err e ↦ (err e, d') ]

feed_chunks_ok :
    (d : FrameDecoder) (c : List ℕ) (cs : List (List ℕ)) {fs : List Frame} {d' : FrameDecoder}
    → drain (feed d c) ≡ (ok fs, d')
    → feed_chunks d (c ∷ cs) ≡ after fs (feed_chunks d' cs)
unfolding feed_chunks
feed_chunks_ok d c cs {d'} e = ground arith

feed_chunks_err :
    (d : FrameDecoder) (c : List ℕ) (cs : List (List ℕ)) {x : FrameError} {d' : FrameDecoder}
    → drain (feed d c) ≡ (err x, d')
    → feed_chunks d (c ∷ cs) ≡ (err x, d')
unfolding feed_chunks
feed_chunks_err d c cs e = ground arith

after-fst :
    (fs : List Frame) (p q : Result FrameError (List Frame) × FrameDecoder)
    → p.0 ≡ q.0
    → (after fs p).0 ≡ (after fs q).0
after-fst fs (ok gs, d) (ok hs, d') e = ap (λ (l : List Frame). ok (fs ++ l)) (ground arith)
after-fst fs (ok gs, d) (err x, d') e = cc
after-fst fs (err x, d) (ok hs, d') e = cc
after-fst fs (err x, d) (err y, d') e = e

feed-feed : (d : FrameDecoder) (xs ys : List ℕ) → feed (feed d xs) ys ≡ feed d (xs ++ ys)
unfolding feed
feed-feed d xs ys = rw append_assoc

drain_waiting : (d : FrameDecoder) → next_frame d ≡ (ok none, d) → drain (feed d []) ≡ (ok [], d)
unfolding drain feed
drain_waiting d e = rw append-nil (drain_loop-none (length d.buf) d [] e)

-- A decoder that waits gives, on chunks fed one after the other, the frames or the error that it
-- gives on all the bytes at once.
pub feed_chunks-drain :
    (d : FrameDecoder) (cs : List (List ℕ))
    → next_frame d ≡ (ok none, d)
    → (feed_chunks d cs).0 ≡ (drain (feed d (flatten cs))).0
unfolding flatten
feed_chunks-drain d [] e = rw (drain_waiting d e) (unfold feed_chunks in refl)
feed_chunks-drain d (c ∷ cs) e = go (λ d' h. feed_chunks-drain d' cs h) (drain (feed d c)) refl
  where
    go :
        ((d' : FrameDecoder)
          → next_frame d' ≡ (ok none, d')
          → (feed_chunks d' cs).0 ≡ (drain (feed d' (flatten cs))).0)
        → (r : Result FrameError (List Frame) × FrameDecoder) → drain (feed d c) ≡ r
        → (feed_chunks d (c ∷ cs)).0 ≡ (drain (feed d (c ++ flatten cs))).0
    go rest (ok fs, d') h =
        rw
          (
            feed_chunks_ok d c cs h,
            ← feed-feed d c (flatten cs),
            drain-feed (feed d c) (flatten cs) h,
          )
          (after-fst fs _ _ (rest d' (rw h at (drain-IsDrained (feed d c)))))
    go rest (err x, d') h =
        rw (feed_chunks_err d c cs h, ← feed-feed d c (flatten cs))
          (ap (λ (p : Result FrameError (List Frame) × FrameDecoder). p.0)
            (sym (rw h at (drain-Continues (feed d c) (flatten cs)))))
