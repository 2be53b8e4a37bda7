-- ===== src/Home/Local.antt =====
-- `consume` and `try_send_data` of crates/spl-home/src/mux.rs on a valid acceptor, in each case.
use spl_rust.Base.{
  ℕ, ◌+◌, ◌*◌, ◌^◌, ◌-◌, ◌≤◌, ◌<◌, ◌≡◌, ◌∙◌, refl, ◌⊎◌, inl, inr, arith, true, false, List, [], ◌∷◌,
  Option, none, some, ok, err, Option-cases, Bool-cases, le_or_lt, le→ltb, lt→ltb, length, ◌==◌,
  if◌then◌else◌, All,
}
use spl_rust.Base.Assoc.{lookup}
use spl_rust.Frame.{
  Frame, recommended_chunk, flag_data, flag_window, window, window_credit, has_flag,
}
use spl_rust.Frame.Wire.{from_be_bytes-to_be_bytes}
use spl_rust.Mux.Credit.{consume_cases, granted}
use spl_rust.Home.Types.{internal, closed, MuxOutput, no_output, StreamState}
use spl_rust.Home.State.{MuxAcceptor, push_frame, set_stream}
use spl_rust.Home.Feed.{refused_as}
use spl_rust.Home.Calls.{answered, window_output, consume_on, consume, send_on, try_send_data}
use spl_rust.Home.Valid.{IsLive, IsValid, lookup-IsPeerStream}

-- The credit that a peer reads for one stream out of the frames that are sent to it.
pub credit_read : ℕ → List Frame → ℕ
credit_read stream_id [] = 0
credit_read stream_id (f ∷ fs) =
    (if f.stream_id == stream_id then granted (window_credit f) else 0) + credit_read stream_id fs

-- What a peer reads out of a WINDOW frame is the credit that was put in.
credit_read-window_output :
    (stream_id : ℕ) (g : Option ℕ)
    → granted g < 2 ^ 32
    → credit_read stream_id (window_output stream_id g).frames ≡ granted g
unfolding credit_read
credit_read-window_output stream_id none small = refl
credit_read-window_output stream_id (some g) small =
    let same : (stream_id == stream_id) ≡ true = ground arith in
    unfold window in
    rw same (unfold window_credit has_flag in omega (arith, from_be_bytes-to_be_bytes g small))

-- It is one WINDOW frame at most, for that stream, and nothing else goes out.
abbrev pub OnlyWindows : ℕ → MuxOutput → Type 0
OnlyWindows stream_id out =
    (length out.frames ≤ 1)
    × All (λ (f : Frame). (f.stream_id ≡ stream_id) × (f.flags ≡ flag_window)) out.frames
    × (out ≡ record no_output { frames = out.frames })

window_output-OnlyWindows :
    (stream_id : ℕ) (g : Option ℕ) → OnlyWindows stream_id (window_output stream_id g)
unfolding window
window_output-OnlyWindows stream_id none = (omega arith, tt, refl)
window_output-OnlyWindows stream_id (some g) = (omega arith, ((refl, refl), tt), refl)

-- What `consume` does on a live stream that still holds `n` bytes for the application.
abbrev pub Consumes : MuxAcceptor → ℕ → ℕ → StreamState → Type 0
Consumes a stream_id n s =
    (out : MuxOutput) × (s' : StreamState) × (consume a stream_id n
      ≡ answered (ok out) (set_stream a stream_id s'))
    × IsLive s'
    × (s'.debited_not_consumed + n ≡ s.debited_not_consumed)
    × (s'.receive_window.credit ≡ s.receive_window.credit + credit_read stream_id out.frames)
    × OnlyWindows stream_id out

consume_known :
    (a : MuxAcceptor) (stream_id n : ℕ) (s : StreamState)
    → lookup stream_id a.streams ≡ some s
    → consume a stream_id n ≡ consume_on a stream_id n s
unfolding consume
consume_known a stream_id n s e = rw (e, consume)

consume_live :
    (a : MuxAcceptor) (stream_id n : ℕ) (s : StreamState)
    → lookup stream_id a.streams ≡ some s
    → IsLive s
    → n ≤ s.debited_not_consumed
    → Consumes a stream_id n s
unfolding consume_on
consume_live a stream_id n s e live h = elim (consume_cases s.receive_window n live.balanced) [
  | inl (over, panic) ↦ absurd (omega (arith, live.accounted))
  | inr (g, w, step, balanced, left, credit, unacked) ↦ (
    window_output stream_id g,
    record s { receive_window = w; debited_not_consumed = s.debited_not_consumed - n },
    ground (arith, consume_known a stream_id n s e),
    record {
      balanced = balanced;
      accounted = omega (arith, live.accounted);
      capped = live.capped;
      half_open = live.half_open;
    },
    omega arith,
    omega (
      arith,
      credit,
      credit_read-window_output stream_id g (omega (arith, credit, balanced.within)),
    ),
    window_output-OnlyWindows stream_id g,
  )
]

-- On a valid acceptor, `consume` never panics: an unknown stream is closed, more bytes than were
-- delivered are an internal refusal that changes nothing, and otherwise the bytes leave the stream,
-- at most one frame is sent, a WINDOW for that stream, and the stream's credit grows by exactly the
-- credit that a peer reads out of what is sent.
pub consume_outcome :
    (a : MuxAcceptor) (stream_id n : ℕ)
    → IsValid a
    → ((lookup stream_id a.streams ≡ none) × (consume a stream_id n ≡ answered (err closed) a))
      ⊎ ((s : StreamState) × (lookup stream_id a.streams ≡ some s)
          × (((s.debited_not_consumed < n)
                × (consume a stream_id n ≡ answered (err (refused_as internal)) a))
              ⊎ Consumes a stream_id n s))
consume_outcome a stream_id n v = elim (Option-cases (lookup stream_id a.streams)) [
  | inl e ↦ inl (e, unfold consume in rw (e, consume))
  | inr (s, e) ↦ inr (
    s,
    e,
    elim (le_or_lt n s.debited_not_consumed) [
      | inl fits ↦ inr (consume_live a stream_id n s e (lookup-IsPeerStream a stream_id v e).2 fits)
      | inr over ↦
          inl (over, consume_known a stream_id n s e ∙ unfold consume_on in rw (lt→ltb _ _ over))
    ],
  )
]

-- The one DATA frame that a successful `try_send_data` hands to the writer.
abbrev pub data_output : ℕ → List ℕ → MuxOutput
data_output stream_id bytes =
    push_frame no_output (record { stream_id = stream_id; flags = flag_data; payload = bytes })

-- What `try_send_data` does with a chunk of a legal length on a known stream: nothing on one that is
-- closed locally, nothing on an open one whose credit is short, and on an open one with credit one
-- DATA frame that is paid for out of the credit. One case excludes the others.
abbrev pub Sends : MuxAcceptor → ℕ → List ℕ → StreamState → Type 0
Sends a stream_id bytes s =
    ((s.local_closed ≡ true) × (try_send_data a stream_id bytes ≡ (err closed, a)))
    ⊎ ((s.local_closed ≡ false)
        × (s.send_credit < length bytes)
        × (try_send_data a stream_id bytes ≡ (ok none, a)))
    ⊎ ((s.local_closed ≡ false)
        × (length bytes ≤ s.send_credit)
        × (s' : StreamState) × (try_send_data a stream_id bytes
            ≡ (ok (some (data_output stream_id bytes)), set_stream a stream_id s'))
        × IsLive s'
        × (s'.send_credit + length bytes ≡ s.send_credit))

send_known :
    (a : MuxAcceptor) (stream_id : ℕ) (bytes : List ℕ) (s : StreamState)
    → length bytes ≤ recommended_chunk
    → lookup stream_id a.streams ≡ some s
    → try_send_data a stream_id bytes ≡ send_on a stream_id bytes s
unfolding try_send_data
send_known a stream_id bytes s h e = rw (le→ltb recommended_chunk _ h, e, try_send_data)

send_live :
    (a : MuxAcceptor) (stream_id : ℕ) (bytes : List ℕ) (s : StreamState)
    → length bytes ≤ recommended_chunk
    → lookup stream_id a.streams ≡ some s
    → IsLive s
    → Sends a stream_id bytes s
send_live a stream_id bytes s h e live = elim (Bool-cases s.local_closed) [
  | inl shut ↦ inl (shut, known ∙ on_shut shut)
  | inr open_side ↦ elim (le_or_lt (length bytes) s.send_credit) [
    | inr short ↦ inr (inl (open_side, short, known ∙ unfold send_on in ground arith))
    | inl paid ↦ inr (
        inr (
          open_side,
          paid,
          record s { send_credit = s.send_credit - length bytes },
          known ∙ unfold send_on in ground arith,
          record {
            balanced = live.balanced;
            accounted = live.accounted;
            capped = omega (arith, live.capped);
            half_open = live.half_open;
          },
          omega arith,
        ))
  ]
]
  where
    known : try_send_data a stream_id bytes ≡ send_on a stream_id bytes s
    known = send_known a stream_id bytes s h e

    on_shut : s.local_closed ≡ true → send_on a stream_id bytes s ≡ (err closed, a)
    on_shut shut = unfold send_on in ground arith

pub try_send_outcome :
    (a : MuxAcceptor) (stream_id : ℕ) (bytes : List ℕ)
    → IsValid a
    → ((64 * 1024 < length bytes)
        × (try_send_data a stream_id bytes ≡ (err (refused_as internal), a)))
      ⊎ ((length bytes ≤ 64 * 1024)
          × (lookup stream_id a.streams ≡ none)
          × (try_send_data a stream_id bytes ≡ (err closed, a)))
      ⊎ ((length bytes ≤ 64 * 1024)
          × (s : StreamState) × (lookup stream_id a.streams ≡ some s)
          × Sends a stream_id bytes s)
try_send_outcome a stream_id bytes v = elim (le_or_lt (length bytes) recommended_chunk) [
  | inr long ↦ inl (long, unfold try_send_data in rw (lt→ltb recommended_chunk _ long))
  | inl h ↦ inr (elim (Option-cases (lookup stream_id a.streams)) [
    | inl e ↦
        inl (h, e, unfold try_send_data in rw (le→ltb recommended_chunk _ h, e, try_send_data))
    | inr (s, e) ↦
        inr (h, s, e, send_live a stream_id bytes s h e (lookup-IsPeerStream a stream_id v e).2)
  ])
]
