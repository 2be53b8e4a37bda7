-- ===== src/Mux/Response/Bounds.antt =====
-- `ResponseAssembler` of crates/spl-core/src/mux.rs fed with any bytes: its window, its cap, its errors.
use spl_rust.Base.{
  ℕ, ◌+◌, ◌≤◌, ◌≡◌, ◌≢◌, refl, inl, inr, arith, ◌⊎◌, true, not, List, [], ◌∷◌, ◌++◌, none, some,
  Option-cases, Result-cases, ltb, ◌==◌, length, length-append, if_intro,
}
use spl_rust.Base.Maybe.{checked_add}
use spl_rust.Frame
use spl_rust.Frame.{
  Frame, drain, encode, has_flag, flag_data, flag_close, flag_reset, control_pong, window_credit,
  window, reset_flow_control_error,
}
use spl_rust.Mux.{MuxError, RecvWindow, flow_control}
use spl_rust.Mux.Credit.{IsBalanced, outstanding, debit_cases, consume_cases}
use spl_rust.Mux.Response.{
  FeedOutput, no_feed_output, ResponseAssembler, with_cap, Fed, goes_on, breaks_off, fails,
  panicked, emitting, feed_close, feed_payload, take_data, feed_own, feed_frame, feed_frames, feed,
}

-- The window is balanced and nothing is outstanding in it, and the body is within the cap.
pub record IsValid (a : ResponseAssembler) : Type 0 where
  pub balanced : IsBalanced a.recv_window
  pub settled : outstanding a.recv_window ≡ 0
  pub capped : length a.body ≤ a.cap

-- A call keeps the assembler valid however it ends; it breaks off only as a flow-control failure.
abbrev pub Keeps : Fed → Type 0
Keeps (goes_on out a) = IsValid a
Keeps (breaks_off out a) =
    IsValid a × (a.flow_control_failed ≡ true) × (out.terminal_error ≡ some flow_control)
Keeps (fails e a) = IsValid a
Keeps panicked = ⊥

emitting-Keeps :
    (a : ResponseAssembler) (out : FeedOutput) (f : Frame) (rest : FeedOutput → Fed)
    → IsValid a
    → ((out' : FeedOutput) → Keeps (rest out'))
    → Keeps (emitting a out f rest)
unfolding emitting
emitting-Keeps a out f rest v k = elim (Result-cases (encode f)) [
  | inl (bytes, e) ↦ rw (e, emitting) (k _)
  | inr (fault, e) ↦ rw (e, emitting) v
]

-- Flags do not matter to what is valid.
closed-IsValid :
    (a : ResponseAssembler) {closed was_reset failed : _}
    → IsValid a
    → IsValid (record a { closed = closed; was_reset = was_reset; flow_control_failed = failed })
closed-IsValid a v = record { balanced = v.balanced; settled = v.settled; capped = v.capped }

feed_close-Keeps :
    (a : ResponseAssembler) (out : FeedOutput) (f : Frame) → IsValid a → Keeps (feed_close a out f)
unfolding feed_close
feed_close-Keeps a out f v =
    if_intro Keeps (has_flag f.flags flag_close) (λ _. closed-IsValid a v) (λ _. v)

feed_payload-Keeps :
    (a : ResponseAssembler) (out : FeedOutput) (f : Frame) (w : RecvWindow)
    → IsBalanced w
    → outstanding w ≡ length f.payload
    → length a.body + length f.payload ≤ a.cap
    → Keeps (feed_payload a out f w)
unfolding feed_payload
feed_payload-Keeps a out f w v owed fits = elim (consume_cases w (length f.payload) v) [
  | inl (over, _) ↦ let never : ⊥ = omega (arith, over, owed) in elim never [ ]
  | inr (none, w', c, balanced, left, _, _) ↦
      rw (c, feed_payload) (feed_close-Keeps (taken w') out f (after w' balanced left))
  | inr (some g, w', c, balanced, left, _, _) ↦
      rw (c, feed_payload)
        (emitting-Keeps (taken w') out (window a.stream_id g) _ (after w' balanced left)
          (λ out'. feed_close-Keeps (taken w') out' f (after w' balanced left)))
]
  where
    taken : RecvWindow → ResponseAssembler
    taken w' = record a { body = a.body ++ f.payload; recv_window = w' }

    after :
        (w' : RecvWindow)
        → IsBalanced w'
        → outstanding w' + length f.payload ≡ outstanding w
        → IsValid (taken w')
    after w' balanced left = record {
      balanced = balanced;
      settled = omega (arith, left, owed);
      capped = omega (arith, fits, length-append a.body f.payload);
    }

take_data-Keeps :
    (a : ResponseAssembler) (out : FeedOutput) (f : Frame) → IsValid a → Keeps (take_data a out f)
unfolding take_data
take_data-Keeps a out f v = elim (Option-cases (checked_add (length a.body) (length f.payload))) [
  | inl over ↦ rw (over, take_data) v
  | inr (total, summed) ↦
      rw (summed, take_data)
        (if_intro Keeps (ltb a.cap total) (λ _. v)
          (λ fits. elim (debit_cases a.recv_window (length f.payload) v.balanced) [
            | inl (_, refused) ↦ rw refused (
                emitting-Keeps _ out (Frame.reset a.stream_id reset_flow_control_error) _
                  (closed-IsValid a v) (λ out'. (closed-IsValid a v, refl, refl)))
            | inr (w, taken, balanced, more) ↦ rw taken (
                feed_payload-Keeps a out f w balanced (omega (arith, more, v.settled))
                  (ground arith))
          ]))
]

-- Any frame keeps the assembler valid.
feed_frame-Keeps :
    (a : ResponseAssembler) (out : FeedOutput) (f : Frame) → IsValid a → Keeps (feed_frame a out f)
unfolding feed_frame feed_own
feed_frame-Keeps a out f v = elim (Option-cases (control_pong f)) [
  | inr (pong, answer) ↦ elim (Result-cases (encode pong)) [
    | inl (bytes, e) ↦ rw (answer, e, feed_frame) v
    | inr (fault, e) ↦ rw (answer, e, feed_frame) v
  ]
  | inl quiet ↦
      rw (quiet, feed_frame)
        (if_intro Keeps (not (f.stream_id == a.stream_id)) (λ _. v)
          (λ _. elim (Option-cases (window_credit f)) [
            | inr (credit, e) ↦ rw (e, feed_own) v
            | inl e ↦
                rw (e, feed_own)
                  (if_intro Keeps (has_flag f.flags flag_reset) (λ _. closed-IsValid a v)
                    (λ _.
                      if_intro Keeps (has_flag f.flags flag_data) (λ _. take_data-Keeps a out f v)
                        (λ _. feed_close-Keeps a out f v)))
          ]))
]

Fed-cases :
    (r : Fed)
    → ((out : FeedOutput) × (a : ResponseAssembler) × (r ≡ goes_on out a))
      ⊎ (((out : FeedOutput) × (a : ResponseAssembler) × (r ≡ breaks_off out a))
          ⊎ (((e : MuxError) × (a : ResponseAssembler) × (r ≡ fails e a)) ⊎ (r ≡ panicked)))
Fed-cases (goes_on out a) = inl (out, a, refl)
Fed-cases (breaks_off out a) = inr (inl (out, a, refl))
Fed-cases (fails e a) = inr (inr (inl (e, a, refl)))
Fed-cases panicked = inr (inr (inr refl))

feed_frames-Keeps :
    (a : ResponseAssembler) (out : FeedOutput) (fs : List Frame)
    → IsValid a
    → Keeps (feed_frames a out fs)
unfolding feed_frames
feed_frames-Keeps a out [] v = v
feed_frames-Keeps a out (f ∷ fs) v =
    let kept = feed_frame-Keeps a out f v in
    elim (Fed-cases (feed_frame a out f)) [
      | inl (out', a', e) ↦
          let still : IsValid a' = rw e at kept in
          rw (e, feed_frames) (feed_frames-Keeps a' out' fs still)
      | inr (inl (out', a', e)) ↦ rw (e, feed_frames) (rw e at kept)
      | inr (inr (inl (fault, a', e))) ↦ rw (e, feed_frames) (rw e at kept)
      | inr (inr (inr e)) ↦ rw (e, feed_frames) (rw e at kept)
    ]

feed-Keeps : (a : ResponseAssembler) (bytes : List ℕ) → IsValid a → Keeps (feed a bytes)
unfolding feed
feed-Keeps a bytes v =
    if_intro Keeps a.flow_control_failed (λ _. v)
      (λ _. elim (Result-cases (drain (Frame.feed a.decoder bytes)).0) [
        | inl (fs, decoded) ↦ rw decoded (feed_frames-Keeps _ no_feed_output fs (read v))
        | inr (fault, malformed) ↦ rw malformed (read v)
      ])
  where
    read : IsValid a → IsValid (record a { decoder = (drain (Frame.feed a.decoder bytes)).1 })
    read v = record { balanced = v.balanced; settled = v.settled; capped = v.capped }

-- The assemblers that calls of `feed` reach from a new one, however each call ends.
pub data Calls : ResponseAssembler → Type 0 where
  begins : (stream_id most : ℕ) → Calls (with_cap stream_id most)
  goes :
      {a a' : ResponseAssembler} {out : FeedOutput}
      → Calls a
      → (bytes : List ℕ) → feed a bytes ≡ goes_on out a'
      → Calls a'
  breaks :
      {a a' : ResponseAssembler} {out : FeedOutput}
      → Calls a
      → (bytes : List ℕ) → feed a bytes ≡ breaks_off out a'
      → Calls a'
  errs :
      {a a' : ResponseAssembler} {e : MuxError}
      → Calls a
      → (bytes : List ℕ) → feed a bytes ≡ fails e a'
      → Calls a'

Calls-IsValid : {a : ResponseAssembler} → Calls a → IsValid a
Calls-IsValid (begins stream_id most) = record {
  balanced = record { within = omega arith; not_due = omega arith };
  settled = omega arith;
  capped = omega arith;
}
Calls-IsValid (goes {a = a} c bytes e) = rw e at (feed-Keeps a bytes (Calls-IsValid c))
Calls-IsValid (breaks {a = a} c bytes e) = (rw e at (feed-Keeps a bytes (Calls-IsValid c))).0
Calls-IsValid (errs {a = a} c bytes e) = rw e at (feed-Keeps a bytes (Calls-IsValid c))

-- Whatever bytes calls feed to a one-shot response assembler, and however each call ends, its
-- window stays balanced with nothing outstanding, its body stays within the cap, and the next call
-- does not panic.
pub Calls-feed :
    (a : ResponseAssembler) (bytes : List ℕ) → Calls a → IsValid a × (feed a bytes ≢ panicked)
Calls-feed a bytes c = (Calls-IsValid c, λ e. rw e at (feed-Keeps a bytes (Calls-IsValid c)))
