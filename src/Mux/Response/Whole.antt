-- ===== src/Mux/Response/Whole.antt =====
-- A response that a peer sends in DATA frames and a CLOSE, through `ResponseAssembler` of
-- crates/spl-core/src/mux.rs.
use spl_rust.Base.{
  ℕ, ◌+◌, ◌≤◌, ◌≡◌, ◌≢◌, sym, ◌∙◌, refl, inl, inr, arith, true, false, List, [], ◌∷◌, ◌++◌, flatten,
  append_assoc, append-nil, none, some, ok, err, ltb, ◌==◌, length, length-append, All,
}
use spl_rust.Base.Maybe.{checked_add, word_max}
use spl_rust.Frame
use spl_rust.Frame.{
  Frame, new_decoder, drain, encode, has_flag, flag_data, flag_close, control_pong, window_credit,
  window,
}
use spl_rust.Frame.Decoder.{next_frame_partial}
use spl_rust.Frame.Reframe.{feed_chunks-drain}
use spl_rust.Frame.Stream.{Encodes, feed_chunks-Encodes}
use spl_rust.Http.Message.{parse_response}
use spl_rust.Mux.{RecvWindow, http_error, receive_grant_threshold}
use spl_rust.Mux.Credit.{IsBalanced, outstanding, debit_cases, consume_cases}
use spl_rust.Mux.Response.{
  FeedOutput, no_feed_output, ResponseAssembler, with_cap, Fed, goes_on, emitting, feed_close,
  feed_payload, take_data, feed_own, feed_frame, feed_frames, feed, into_response,
}
use spl_rust.Mux.Response.Bounds.{IsValid}

-- The frames of a response that is cut into chunks.
unfoldable pub response_frames : ℕ → List (List ℕ) → List Frame
response_frames stream_id [] =
    record { stream_id = stream_id; flags = flag_close; payload = [] } ∷ []
response_frames stream_id (chunk ∷ chunks) =
    record { stream_id = stream_id; flags = flag_data; payload = chunk }
    ∷ response_frames stream_id chunks

-- The assembler after one chunk: it is valid, it has the chunk, and the rest is as it was.
abbrev Takes : ResponseAssembler → List ℕ → Fed → Type 0
Takes a chunk r =
    (out' : FeedOutput) × (w : RecvWindow) × (r
      ≡ goes_on out' (record a { body = a.body ++ chunk; recv_window = w }))
    × IsValid (record a { body = a.body ++ chunk; recv_window = w })

-- A grant can be encoded.
emitting-window :
    (a : ResponseAssembler) (out : FeedOutput) (stream_id credit : ℕ) (rest : FeedOutput → Fed)
    → (out' : FeedOutput) × (emitting a out (window stream_id credit) rest ≡ rest out')
unfolding emitting encode window has_flag
emitting-window a out stream_id credit rest = (_, refl)

feed_payload-Takes :
    (a : ResponseAssembler) (out : FeedOutput) (f : Frame) (w : RecvWindow)
    → f.flags ≡ flag_data
    → IsBalanced w
    → outstanding w ≡ length f.payload
    → length a.body + length f.payload ≤ a.cap
    → Takes a f.payload (feed_payload a out f w)
unfolding feed_payload feed_close has_flag
feed_payload-Takes a out f w plain v owed fits = elim (consume_cases w (length f.payload) v) [
  | inl (over, _) ↦ let never : ⊥ = omega (arith, over, owed) in elim never [ ]
  | inr (none, w', c, balanced, left, _, _) ↦
      (out, w', rw (c, feed_payload) (rw plain refl), after w' balanced left)
  | inr (some g, w', c, balanced, left, _, _) ↦
      let (out', sent) =
        emitting-window (record a { body = a.body ++ f.payload; recv_window = w' }) out a.stream_id
          g (λ o. feed_close (record a { body = a.body ++ f.payload; recv_window = w' }) o f) in
      (out', w', rw (c, feed_payload) (rw sent (rw plain refl)), after w' balanced left)
]
  where
    after :
        (w' : RecvWindow)
        → IsBalanced w'
        → outstanding w' + length f.payload ≡ outstanding w
        → IsValid (record a { body = a.body ++ f.payload; recv_window = w' })
    after w' balanced left = record {
      balanced = balanced;
      settled = omega (arith, left, owed);
      capped = omega (arith, fits, length-append a.body f.payload);
    }

take_data-Takes :
    (a : ResponseAssembler) (out : FeedOutput) (f : Frame)
    → f.flags ≡ flag_data
    → IsValid a
    → length f.payload ≤ receive_grant_threshold
    → length a.body + length f.payload ≤ a.cap
    → a.cap ≤ word_max
    → Takes a f.payload (take_data a out f)
unfolding take_data
take_data-Takes a out f plain v small fits wide =
    let summed : checked_add (length a.body) (length f.payload)
        ≡ some (length a.body + length f.payload) =
      ground arith in
    let within : ltb a.cap (length a.body + length f.payload) ≡ false = ground arith in
    elim (debit_cases a.recv_window (length f.payload) v.balanced) [
      | inl (over, _) ↦
          let never : ⊥ = omega (arith, over, v.balanced, v.settled, small) in elim never [ ]
      | inr (w, taken, balanced, more) ↦
          rw (summed, take_data)
            (rw (within, taken)
              (feed_payload-Takes a out f w plain balanced (omega (arith, more, v.settled)) fits))
    ]

feed_frame-Takes :
    (a : ResponseAssembler) (out : FeedOutput) (chunk : List ℕ)
    → a.stream_id ≢ 0
    → IsValid a
    → length chunk ≤ receive_grant_threshold
    → length a.body + length chunk ≤ a.cap
    → a.cap ≤ word_max
    → Takes a chunk
        (feed_frame a out (record { stream_id = a.stream_id; flags = flag_data; payload = chunk }))
unfolding feed_frame feed_own control_pong window_credit has_flag
feed_frame-Takes a out chunk own v small fits wide =
    let mine : (a.stream_id == a.stream_id) ≡ true = ground arith in
    let peers : (a.stream_id == 0) ≡ false = ground arith in
    rw (peers, feed_frame)
      (rw mine (
        take_data-Takes a out
          (record { stream_id = a.stream_id; flags = flag_data; payload = chunk }) refl v small fits
          wide))

-- The assembler once the CLOSE has come.
abbrev pub after_close : ResponseAssembler → List ℕ → RecvWindow → ResponseAssembler
after_close a body w = record a { body = body; recv_window = w; closed = true }

feed_frame_closes :
    (a : ResponseAssembler) (out : FeedOutput)
    → a.stream_id ≢ 0
    → feed_frame a out (record { stream_id = a.stream_id; flags = flag_close; payload = [] })
      ≡ goes_on (record out { emit_frames = [] }) (record a { closed = true })
unfolding feed_frame feed_own feed_close control_pong window_credit has_flag
feed_frame_closes a out own =
    let mine : (a.stream_id == a.stream_id) ≡ true = ground arith in
    let peers : (a.stream_id == 0) ≡ false = ground arith in rw (peers, feed_frame) (rw mine refl)

feed_frames-Whole :
    (a : ResponseAssembler) (out : FeedOutput) (chunks : List (List ℕ))
    → a.stream_id ≢ 0
    → IsValid a
    → All (λ (chunk : List ℕ). length chunk ≤ receive_grant_threshold) chunks
    → length a.body + length (flatten chunks) ≤ a.cap
    → a.cap ≤ word_max
    → (out' : FeedOutput) × (w : RecvWindow) × (feed_frames a out
          (response_frames a.stream_id chunks)
        ≡ goes_on out' (after_close a (a.body ++ flatten chunks) w))
unfolding feed_frames response_frames flatten
feed_frames-Whole a out [] own v small fits wide = (
  record out { emit_frames = [] },
  a.recv_window,
  rw (feed_frame_closes a out own, feed_frames) (rw append-nil refl),
)
feed_frames-Whole a out (chunk ∷ chunks) own v small fits wide =
    let total = length-append chunk (flatten chunks) in
    let (out', w, step, v') =
      feed_frame-Takes a out chunk own v small.0 (omega (arith, fits, total)) wide in
    let (out'', w', e) =
      feed_frames-Whole (record a { body = a.body ++ chunk; recv_window = w }) out' chunks own v'
        small.1 (omega (arith, fits, total, length-append a.body chunk)) wide in
    (out'', w', rw (step, feed_frames) (rw (e, append_assoc) refl))

-- The decoder gives the frames that were encoded.
drain-Encodes :
    (fs : List Frame) (bytes : List ℕ)
    → Encodes fs bytes
    → (drain (Frame.feed new_decoder bytes)).0 ≡ ok fs
unfolding flatten
drain-Encodes fs bytes v =
    let waiting = next_frame_partial new_decoder (inl (omega arith)) in
    let whole : (drain (Frame.feed new_decoder (bytes ++ []))).0 ≡ ok fs =
      sym (feed_chunks-drain new_decoder (bytes ∷ []) waiting)
      ∙ feed_chunks-Encodes fs (bytes ∷ []) (rw append-nil v) in
    rw append-nil at whole

-- A response sent in DATA frames of at most 512 KiB on a stream other than zero, of at most the cap
-- in all, and ended by CLOSE, is assembled whole: feeding the encoded frames ends without an error,
-- and the answer is what parsing the sent bytes in order gives.
pub response_arrives :
    (lossy : List ℕ → List ℕ) (stream_id most : ℕ) (chunks : List (List ℕ)) (bytes : List ℕ)
    → stream_id ≢ 0
    → All (λ (chunk : List ℕ). length chunk ≤ receive_grant_threshold) chunks
    → length (flatten chunks) ≤ most
    → most ≤ word_max
    → Encodes (response_frames stream_id chunks) bytes
    → (out : FeedOutput) × (a : ResponseAssembler) × (feed (with_cap stream_id most) bytes
        ≡ goes_on out a)
      × (into_response lossy a ≡ (elim (parse_response lossy (flatten chunks)) [
        | ok r ↦ ok r
        | err e ↦ err (http_error e)
      ]))
unfolding feed into_response
response_arrives lossy stream_id most chunks bytes own small fits wide sent =
    let after : ResponseAssembler = record (with_cap stream_id most) {
      decoder = (drain (Frame.feed new_decoder bytes)).1;
    } in
    let fresh : IsValid after = record {
      balanced = record { within = omega arith; not_due = omega arith };
      settled = omega arith;
      capped = omega arith;
    } in
    let (out, w, e) =
      feed_frames-Whole after no_feed_output chunks own fresh small (omega (arith, fits)) wide in
    (
      out,
      after_close after (flatten chunks) w,
      rw (drain-Encodes (response_frames stream_id chunks) bytes sent, feed) (rw e refl),
      refl,
    )
