-- ===== src/Home/Untouched.antt =====
-- The frame handlers of crates/spl-home/src/mux.rs and the fields that they do not write: all but the
-- streams, the refusal counts and the high-water mark.
use spl_rust.Base.{
  ℕ, ◌%◌, ◌≡◌, inl, inr, arith, Bool, true, false, ◌&&◌, not, List, Option, none, some, ok,
  Result-cases, Option-cases, Bool-cases, ltb, leb, length, bit_or, ◌==◌, if_intro,
}
use spl_rust.Base.Assoc.{lookup, contains_key}
use spl_rust.Frame.{
  Frame, FrameViolation, flags_valid, has_flag, flag_open, flag_data, flag_close, flag_reset,
  flag_window, flag_ping, flag_pong, window_credit,
}
use spl_rust.Mux.{initial_window}
use spl_rust.Home.Types.{StreamState, RefusalClass, RefusalCounts, MuxOutput, record_refusal}
use spl_rust.Home.State.{
  MuxAcceptor, violation, set_stream, remove_stream, refuse_violation, refuse, close_peer_side,
  mark_peer_closed,
}
use spl_rust.Home.Dispatch.{
  handle_control, is_above, open_with, admit_stream, open_stream, handle_open, receive_on,
  handle_data, handle_close, handle_reset, add_send_credit, handle_window, handle_known,
  handle_stream_frame, handle_frame,
}

module _ (P : MuxAcceptor → Type 0)
    (on_streams : (a : MuxAcceptor) (m : List (ℕ × StreamState))
      → P a
      → P (record a { streams = m }))
    (on_refusals : (a : MuxAcceptor) (c : RefusalCounts) → P a → P (record a { refusals = c }))
    (on_high : (a : MuxAcceptor) (h : Option ℕ) → P a → P (record a { peer_high_water = h })) where
  abbrev Holds : MuxAcceptor × MuxOutput → Type 0
  Holds p = P p.0

  set_stream-keeps :
      (a : MuxAcceptor) (stream_id : ℕ) (s : StreamState) → P a → P (set_stream a stream_id s)
  unfolding set_stream
  set_stream-keeps a stream_id s p = on_streams a _ p

  remove_stream-keeps : (a : MuxAcceptor) (stream_id : ℕ) → P a → P (remove_stream a stream_id)
  unfolding remove_stream
  remove_stream-keeps a stream_id p = on_streams a _ p

  pub refuse_violation-keeps :
      (a : MuxAcceptor) (out : MuxOutput) (w : FrameViolation) (class : RefusalClass)
      → P a
      → P (refuse_violation a out w class).0
  unfolding refuse_violation
  refuse_violation-keeps a out w class p =
      if_intro Holds (contains_key w.stream_id a.streams)
        (λ _. remove_stream-keeps _ w.stream_id (on_refusals a (record_refusal a.refusals class) p))
        (λ _. on_refusals a (record_refusal a.refusals class) p)

  refuse-keeps :
      (a : MuxAcceptor) (out : MuxOutput) (f : Frame) (class : RefusalClass)
      → P a
      → Holds (refuse a out f class)
  unfolding refuse
  refuse-keeps a out f class p = refuse_violation-keeps a out (violation f) class p

  close_peer_side-keeps :
      (a : MuxAcceptor) (out : MuxOutput) (stream_id : ℕ) (o : Option StreamState)
      → P a
      → Holds (close_peer_side a out stream_id o)
  unfolding close_peer_side
  close_peer_side-keeps a out stream_id none p = p
  close_peer_side-keeps a out stream_id (some s) p =
      let p' = set_stream-keeps a stream_id (record s { peer_closed = true }) p in
      if_intro Holds s.local_closed (λ _. remove_stream-keeps _ stream_id p') (λ _. p')

  mark_peer_closed-keeps :
      (a : MuxAcceptor) (out : MuxOutput) (stream_id : ℕ)
      → P a
      → Holds (mark_peer_closed a out stream_id)
  unfolding mark_peer_closed
  mark_peer_closed-keeps a out stream_id p =
      close_peer_side-keeps a out stream_id (lookup stream_id a.streams) p

  admit_stream-keeps :
      (a : MuxAcceptor) (out : MuxOutput) (f : Frame) (s : StreamState)
      → P a
      → Holds (admit_stream a out f s)
  unfolding admit_stream
  admit_stream-keeps a out f s p =
      let p' = set_stream-keeps a f.stream_id s p in
      if_intro Holds (has_flag f.flags flag_close) (λ _. mark_peer_closed-keeps _ _ f.stream_id p')
        (λ _. p')

  open_stream-keeps :
      (a : MuxAcceptor) (out : MuxOutput) (f : Frame) → P a → Holds (open_stream a out f)
  unfolding open_stream
  open_stream-keeps a out f p =
      if_intro Holds (leb a.limits.max_concurrent_streams (length a.streams))
        (λ _. refuse-keeps a out f _ p)
        (λ _.
          if_intro Holds (ltb initial_window (length f.payload)) (λ _. refuse-keeps a out f _ p)
            (λ _. elim (Option-cases (open_with (length f.payload))) [
              | inl e ↦ rw e (refuse-keeps a out f _ p)
              | inr (s, e) ↦ rw e (admit_stream-keeps a out f s p)
            ]))

  module _ (a : MuxAcceptor) (out : MuxOutput) (f : Frame) (p : P a) where
    handle_open-keeps : Holds (handle_open a out f)
    unfolding handle_open
    handle_open-keeps =
        if_intro Holds (f.stream_id % 2 == 1 && is_above f.stream_id a.peer_high_water)
          (λ _. open_stream-keeps _ out f (on_high a (some f.stream_id) p))
          (λ _. refuse-keeps a out f _ p)

    handle_data-keeps : (closes : Bool) → Holds (handle_data a out f closes)
    unfolding handle_data
    handle_data-keeps closes =
        elim (Result-cases (receive_on (lookup f.stream_id a.streams) (length f.payload))) [
          | inr (class, e) ↦ rw (e, handle_data) (refuse-keeps a out f class p)
          | inl (s, e) ↦
              let p' = set_stream-keeps a f.stream_id s p in
              rw (e, handle_data)
                (if_intro Holds closes (λ _. mark_peer_closed-keeps _ _ f.stream_id p') (λ _. p'))
        ]

    handle_close-keeps : Holds (handle_close a out f)
    unfolding handle_close
    handle_close-keeps =
        if_intro Holds (length f.payload == 0) (λ _. mark_peer_closed-keeps a out f.stream_id p)
          (λ _. handle_data-keeps true)

    handle_reset-keeps : Holds (handle_reset a out f)
    unfolding handle_reset
    handle_reset-keeps =
        if_intro Holds (length f.payload == 1) (λ _. remove_stream-keeps a f.stream_id p)
          (λ _. refuse-keeps a out f _ p)

    handle_window-keeps : Holds (handle_window a out f)
    unfolding handle_window
    handle_window-keeps = elim (Option-cases (window_credit f)) [
      | inl e ↦ rw (e, handle_window) (refuse-keeps a out f _ p)
      | inr (credit, e) ↦
          rw (e, handle_window)
            (elim (Option-cases (add_send_credit (lookup f.stream_id a.streams) credit)) [
              | inl e' ↦ rw e' (refuse-keeps a out f _ p)
              | inr (s, e') ↦ rw e' (set_stream-keeps a f.stream_id s p)
            ])
    ]

    handle_known-keeps : Holds (handle_known a out f)
    unfolding handle_known
    handle_known-keeps =
        if_intro Holds (f.flags == bit_or flag_data flag_close) (λ _. handle_data-keeps true)
          (λ _.
            if_intro Holds (f.flags == flag_data) (λ _. handle_data-keeps false)
              (λ _.
                if_intro Holds (f.flags == flag_close) (λ _. handle_close-keeps)
                  (λ _.
                    if_intro Holds (f.flags == flag_reset) (λ _. handle_reset-keeps)
                      (λ _.
                        if_intro Holds (f.flags == flag_window) (λ _. handle_window-keeps)
                          (λ _. refuse-keeps a out f _ p)))))

    handle_stream_frame-keeps : Holds (handle_stream_frame a out f)
    unfolding handle_stream_frame
    handle_stream_frame-keeps =
        if_intro Holds (not (flags_valid f.flags)) (λ _. refuse-keeps a out f _ p)
          (λ _.
            if_intro Holds (has_flag f.flags (bit_or flag_ping flag_pong))
              (λ _. refuse-keeps a out f _ p)
              (λ _.
                if_intro Holds (has_flag f.flags flag_open) (λ _. handle_open-keeps)
                  (λ _.
                    if_intro Holds (contains_key f.stream_id a.streams) (λ _. handle_known-keeps)
                      (λ _.
                        if_intro Holds (has_flag f.flags (bit_or flag_close flag_reset)) (λ _. p)
                          (λ _. refuse-keeps a out f _ p)))))

    pub handle_frame-keeps :
        {a' : MuxAcceptor} {out' : MuxOutput} → handle_frame a out f ≡ ok (a', out') → P a'
    unfolding handle_frame
    handle_frame-keeps {a'} e = elim (Bool-cases (f.stream_id == 0)) [
      | inl zero ↦ elim (Result-cases (handle_control f out)) [
        | inl (o, h) ↦ let same : a ≡ a' = ground arith in rw (← same) p
        | inr (x, h) ↦ absurd (ground arith)
      ]
      | inr nonzero ↦
          let same : (handle_stream_frame a out f).0 ≡ a' = ground arith in
          rw (← same) handle_stream_frame-keeps
    ]
