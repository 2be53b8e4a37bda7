-- ===== src/Home/Receiving.antt =====
-- The handlers of frames on a known stream and `handle_frame` of crates/spl-home/src/mux.rs, against
-- the invariant of the streams.
use spl_rust.Base.{
  ℕ, ◌≡◌, refl, inl, inr, arith, Bool, true, false, not, Option, none, some, ok, Result-cases,
  Option-cases, Bool-cases, length, bit_or, ◌==◌, if_intro,
}
use spl_rust.Base.Assoc.{lookup, contains_key}
use spl_rust.Frame.{
  Frame, flags_valid, has_flag, flag_open, flag_data, flag_close, flag_reset, flag_window,
  flag_ping, flag_pong, window_credit,
}
use spl_rust.Mux.{debit}
use spl_rust.Home.Types.{StreamState, MuxOutput}
use spl_rust.Home.State.{MuxAcceptor}
use spl_rust.Home.Dispatch.{
  handle_control, receive, receive_on, handle_data, handle_close, handle_reset, add_send_credit,
  handle_window, handle_known, handle_stream_frame, handle_frame,
}
use spl_rust.Home.Valid.{
  IsLive, IsValid, lookup-IsPeerStream, set_stream-IsValid, remove_stream-IsValid, refuse-IsValid,
  mark_peer_closed-IsValid,
}
use spl_rust.Home.Opening.{Keeps, handle_open-IsValid}

receive-IsLive :
    (s : StreamState) (len : ℕ) {s' : StreamState} → IsLive s → receive s len ≡ ok s' → IsLive s'
unfolding receive debit
receive-IsLive s len live e = ground arith

add_send_credit-IsLive :
    (s : StreamState) (credit : ℕ) {s' : StreamState}
    → IsLive s
    → add_send_credit (some s) credit ≡ some s'
    → IsLive s'
unfolding add_send_credit
add_send_credit-IsLive s credit live e = ground arith

-- A debit that succeeds was made on a live stream, and leaves it live.
receive_on-IsLive :
    (o : Option StreamState) (len : ℕ) {s' : StreamState}
    → ((s : StreamState) → o ≡ some s → IsLive s)
    → receive_on o len ≡ ok s'
    → (s : StreamState) × (o ≡ some s) × IsLive s'
unfolding receive_on
receive_on-IsLive none len live e = cc
receive_on-IsLive (some s) len live e = (s, refl, receive-IsLive s len (live s refl) e)

credited-IsLive :
    (o : Option StreamState) (credit : ℕ) {s' : StreamState}
    → ((s : StreamState) → o ≡ some s → IsLive s)
    → add_send_credit o credit ≡ some s'
    → (s : StreamState) × (o ≡ some s) × IsLive s'
credited-IsLive none credit live e = unfold add_send_credit in cc
credited-IsLive (some s) credit live e = (s, refl, add_send_credit-IsLive s credit (live s refl) e)

module _ (a : MuxAcceptor) (out : MuxOutput) (f : Frame) (v : IsValid a) where
  stream-IsLive : (s : StreamState) → lookup f.stream_id a.streams ≡ some s → IsLive s
  stream-IsLive s e = (lookup-IsPeerStream a f.stream_id v e).2

  handle_data-IsValid : (closes : Bool) → Keeps (handle_data a out f closes)
  unfolding handle_data
  handle_data-IsValid closes =
      elim (Result-cases (receive_on (lookup f.stream_id a.streams) (length f.payload))) [
        | inr (class, e) ↦ rw (e, handle_data) (refuse-IsValid a out f class v)
        | inl (s', e) ↦
            let (s, here, live) =
              receive_on-IsLive (lookup f.stream_id a.streams) _ stream-IsLive e in
            let stored = set_stream-IsValid a f.stream_id s' v here live in
            rw (e, handle_data)
              (if_intro Keeps closes (λ _. mark_peer_closed-IsValid _ _ f.stream_id stored)
                (λ _. stored))
      ]

  handle_close-IsValid : Keeps (handle_close a out f)
  unfolding handle_close
  handle_close-IsValid =
      if_intro Keeps (length f.payload == 0) (λ _. mark_peer_closed-IsValid a out f.stream_id v)
        (λ _. handle_data-IsValid true)

  handle_reset-IsValid : Keeps (handle_reset a out f)
  unfolding handle_reset
  handle_reset-IsValid =
      if_intro Keeps (length f.payload == 1) (λ _. remove_stream-IsValid a f.stream_id v)
        (λ _. refuse-IsValid a out f _ v)

  handle_window-IsValid : Keeps (handle_window a out f)
  unfolding handle_window
  handle_window-IsValid = elim (Option-cases (window_credit f)) [
    | inl e ↦ rw (e, handle_window) (refuse-IsValid a out f _ v)
    | inr (credit, e) ↦
        rw (e, handle_window)
          (elim (Option-cases (add_send_credit (lookup f.stream_id a.streams) credit)) [
            | inl e' ↦ rw e' (refuse-IsValid a out f _ v)
            | inr (s', e') ↦
                let (s, here, live) =
                  credited-IsLive (lookup f.stream_id a.streams) credit stream-IsLive e' in
                rw e' (set_stream-IsValid a f.stream_id s' v here live)
          ])
  ]

  handle_known-IsValid : Keeps (handle_known a out f)
  unfolding handle_known
  handle_known-IsValid =
      if_intro Keeps (f.flags == bit_or flag_data flag_close) (λ _. handle_data-IsValid true)
        (λ _.
          if_intro Keeps (f.flags == flag_data) (λ _. handle_data-IsValid false)
            (λ _.
              if_intro Keeps (f.flags == flag_close) (λ _. handle_close-IsValid)
                (λ _.
                  if_intro Keeps (f.flags == flag_reset) (λ _. handle_reset-IsValid)
                    (λ _.
                      if_intro Keeps (f.flags == flag_window) (λ _. handle_window-IsValid)
                        (λ _. refuse-IsValid a out f _ v)))))

  pub handle_stream_frame-IsValid : Keeps (handle_stream_frame a out f)
  unfolding handle_stream_frame
  handle_stream_frame-IsValid =
      if_intro Keeps (not (flags_valid f.flags)) (λ _. refuse-IsValid a out f _ v)
        (λ _.
          if_intro Keeps (has_flag f.flags (bit_or flag_ping flag_pong))
            (λ _. refuse-IsValid a out f _ v)
            (λ _.
              if_intro Keeps (has_flag f.flags flag_open) (λ _. handle_open-IsValid a out f v)
                (λ _.
                  if_intro Keeps (contains_key f.stream_id a.streams) (λ _. handle_known-IsValid)
                    (λ _.
                      if_intro Keeps (has_flag f.flags (bit_or flag_close flag_reset)) (λ _. v)
                        (λ _. refuse-IsValid a out f _ v)))))

  -- Whatever frame the peer sends, the streams stay valid.
  pub handle_frame-IsValid :
      {a' : MuxAcceptor} {out' : MuxOutput} → handle_frame a out f ≡ ok (a', out') → IsValid a'
  unfolding handle_frame
  handle_frame-IsValid {a'} e = elim (Bool-cases (f.stream_id == 0)) [
    | inl zero ↦ elim (Result-cases (handle_control f out)) [
      | inl (o, h) ↦ let same : a ≡ a' = ground arith in rw (← same) v
      | inr (x, h) ↦ absurd (ground arith)
    ]
    | inr nonzero ↦
        let same : (handle_stream_frame a out f).0 ≡ a' = ground arith in
        rw (← same) handle_stream_frame-IsValid
  ]
