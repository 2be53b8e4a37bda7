-- ===== src/Home/Session.antt =====
-- Sessions of a home acceptor (crates/spl-home/src/mux.rs): any order of carrier input and local calls.
use spl_rust.Base.{
  ℕ, ◌+◌, ◌*◌, ◌≤◌, ◌<◌, ◌≡◌, refl, inl, inr, arith, true, List, [], ◌∷◌, Option, some, Result, ok,
  Option-cases, length, if_intro, All,
}
use spl_rust.Base.Assoc.{lookup, contains_key, AllEntries}
use spl_rust.Frame.Sound.{IsByte}
use spl_rust.Mux.{initial_window}
use spl_rust.Home.Types.{MuxLimits, MuxOutput, HomeError, StreamState, ResetReason}
use spl_rust.Home.State.{MuxAcceptor, set_stream, remove_stream}
use spl_rust.Home.Feed.{going, create, feed}
use spl_rust.Home.Calls.{answered, consume, try_send_data, close_write_on, close_write, reset}
use spl_rust.Home.Valid.{
  IsLive, IsPeerStream, IsValid, lookup-IsPeerStream, set_stream-IsValid, remove_stream-IsValid,
  remove_stream-set_stream,
}
use spl_rust.Home.Framing.{IsFramed}
use spl_rust.Home.Input.{ceiling, feed-IsSound, create-IsFramed}
use spl_rust.Home.Local.{consume_outcome, try_send_outcome}

abbrev pub IsHealthy : MuxAcceptor → Type 0
IsHealthy a = IsValid a × IsFramed a

-- The acceptors that a driver can reach: `feed` with bytes until it fails, and the local calls with
-- any arguments, in any order.
pub data Session (limits : MuxLimits) : MuxAcceptor → Type 0 where
  opened : {a : MuxAcceptor} → create limits ≡ ok a → Session limits a
  fed :
      {a a' : MuxAcceptor} {out : MuxOutput}
      → Session limits a
      → (bytes : List ℕ) → All IsByte bytes
      → feed a bytes ≡ going a' out
      → Session limits a'
  consumed :
      {a a' : MuxAcceptor} {r : Result HomeError MuxOutput}
      → Session limits a
      → (stream_id n : ℕ) → consume a stream_id n ≡ answered r a'
      → Session limits a'
  sent :
      {a a' : MuxAcceptor} {r : Result HomeError (Option MuxOutput)}
      → Session limits a
      → (stream_id : ℕ) (bytes : List ℕ) → try_send_data a stream_id bytes ≡ (r, a')
      → Session limits a'
  write_closed :
      {a a' : MuxAcceptor} {r : Result HomeError MuxOutput}
      → Session limits a
      → (stream_id : ℕ) → close_write a stream_id ≡ (r, a')
      → Session limits a'
  was_reset :
      {a a' : MuxAcceptor} {r : Result HomeError MuxOutput}
      → Session limits a
      → (stream_id : ℕ) (reason : ResetReason) → reset a stream_id reason ≡ (r, a')
      → Session limits a'

set_stream-IsFramed :
    (a : MuxAcceptor) (stream_id : ℕ) (s : StreamState)
    → IsFramed a
    → IsFramed (set_stream a stream_id s)
unfolding set_stream
set_stream-IsFramed a stream_id s v = record {
  counted = v.counted;
  header_short = v.header_short;
  header_bytes = v.header_bytes;
  holds = v.holds;
  header_idle = v.header_idle;
  roomy = v.roomy;
}

remove_stream-IsFramed :
    (a : MuxAcceptor) (stream_id : ℕ) → IsFramed a → IsFramed (remove_stream a stream_id)
unfolding remove_stream
remove_stream-IsFramed a stream_id v = record {
  counted = v.counted;
  header_short = v.header_short;
  header_bytes = v.header_bytes;
  holds = v.holds;
  header_idle = v.header_idle;
  roomy = v.roomy;
}

module _ (a : MuxAcceptor) (h : IsHealthy a) where
  set_live :
      (stream_id : ℕ) {s : StreamState} (s' : StreamState)
      → lookup stream_id a.streams ≡ some s
      → IsLive s'
      → IsHealthy (set_stream a stream_id s')
  set_live stream_id s' e live =
      (set_stream-IsValid a stream_id s' h.0 e live, set_stream-IsFramed a stream_id s' h.1)

  forget : (stream_id : ℕ) → IsHealthy (remove_stream a stream_id)
  forget stream_id = (remove_stream-IsValid a stream_id h.0, remove_stream-IsFramed a stream_id h.1)

  consume-IsHealthy :
      (stream_id n : ℕ) {r : Result HomeError MuxOutput} {a' : MuxAcceptor}
      → consume a stream_id n ≡ answered r a'
      → IsHealthy a'
  consume-IsHealthy stream_id n {r} {a'} e = elim (consume_outcome a stream_id n h.0) [
    | inl (_, c) ↦ let same : a ≡ a' = cc in rw (← same) h
    | inr (s, here, inl (_, c)) ↦ let same : a ≡ a' = cc in rw (← same) h
    | inr (s, here, inr (out, s', c, live, _, _, _)) ↦
        let same : set_stream a stream_id s' ≡ a' = cc in
        rw (← same) (set_live stream_id s' here live)
  ]

  try_send_data-IsHealthy :
      (stream_id : ℕ) (bytes : List ℕ) {r : Result HomeError (Option MuxOutput)} {a' : MuxAcceptor}
      → try_send_data a stream_id bytes ≡ (r, a')
      → IsHealthy a'
  try_send_data-IsHealthy stream_id bytes {r} {a'} e =
      elim (try_send_outcome a stream_id bytes h.0) [
        | inl (_, c) ↦ let same : a ≡ a' = cc in rw (← same) h
        | inr (inl (_, _, c)) ↦ let same : a ≡ a' = cc in rw (← same) h
        | inr (inr (_, s, here, inl (_, c))) ↦ let same : a ≡ a' = cc in rw (← same) h
        | inr (inr (_, s, here, inr (inl (_, _, c)))) ↦ let same : a ≡ a' = cc in rw (← same) h
        | inr (inr (_, s, here, inr (inr (_, _, s', c, live, _)))) ↦
            let same : set_stream a stream_id s' ≡ a' = cc in
            rw (← same) (set_live stream_id s' here live)
      ]

  close_write_on-IsHealthy :
      (stream_id : ℕ) (s : StreamState)
      → lookup stream_id a.streams ≡ some s
      → IsHealthy (close_write_on a stream_id s).1
  unfolding close_write_on
  close_write_on-IsHealthy stream_id s e =
      if_intro (λ (p : Result HomeError MuxOutput × MuxAcceptor). IsHealthy p.1) s.local_closed
        (λ _. h)
        (λ _.
          if_intro IsHealthy s.peer_closed (λ _. rw remove_stream-set_stream (forget stream_id))
            (λ half.
              set_live stream_id (record s { local_closed = true }) e
                (record {
                  balanced = live.balanced;
                  accounted = live.accounted;
                  capped = live.capped;
                  half_open = ground arith;
                })))
    where
      live : IsLive s
      live = (lookup-IsPeerStream a stream_id h.0 e).2

  close_write-IsHealthy : (stream_id : ℕ) → IsHealthy (close_write a stream_id).1
  unfolding close_write
  close_write-IsHealthy stream_id = elim (Option-cases (lookup stream_id a.streams)) [
    | inl e ↦ rw (e, close_write) h
    | inr (s, e) ↦ rw (e, close_write) (close_write_on-IsHealthy stream_id s e)
  ]

  reset-IsHealthy : (stream_id : ℕ) (reason : ResetReason) → IsHealthy (reset a stream_id reason).1
  unfolding reset
  reset-IsHealthy stream_id reason =
      if_intro (λ (p : Result HomeError MuxOutput × MuxAcceptor). IsHealthy p.1)
        (contains_key stream_id a.streams) (λ _. forget stream_id) (λ _. h)

-- Every acceptor reachable by `new`, `feed` of bytes until it fails, `consume`, `try_send_data`,
-- `close_write` and `reset`, in any order and with any arguments, is valid and framed: odd ids at
-- most the high-water mark, balanced windows, credit at most 2^31 - 1, no stream closed on both
-- sides, and an exact count of buffered bytes.
pub Session-IsHealthy : (limits : MuxLimits) {a : MuxAcceptor} → Session limits a → IsHealthy a
Session-IsHealthy limits (opened e) = create-IsFramed limits e
Session-IsHealthy limits (fed {a = a} s bytes hb e) =
    let (v, w) = Session-IsHealthy limits s in rw e at (feed-IsSound a bytes hb v w)
Session-IsHealthy limits (consumed {a = a} s stream_id n e) =
    consume-IsHealthy a (Session-IsHealthy limits s) stream_id n e
Session-IsHealthy limits (sent {a = a} s stream_id bytes e) =
    try_send_data-IsHealthy a (Session-IsHealthy limits s) stream_id bytes e
Session-IsHealthy limits (write_closed {a = a} s stream_id e) =
    rw e at (close_write-IsHealthy a (Session-IsHealthy limits s) stream_id)
Session-IsHealthy limits (was_reset {a = a} s stream_id reason e) =
    rw e at (reset-IsHealthy a (Session-IsHealthy limits s) stream_id reason)

-- The bytes that were delivered on live streams and that the application has not consumed.
pub unconsumed : List (ℕ × StreamState) → ℕ
unconsumed [] = 0
unconsumed ((stream_id, s) ∷ m) = s.debited_not_consumed + unconsumed m

unconsumed-le :
    (high : Option ℕ) (m : List (ℕ × StreamState))
    → AllEntries (IsPeerStream high) m
    → unconsumed m ≤ length m * initial_window
unfolding unconsumed
unconsumed-le high [] h = omega arith
unconsumed-le high ((k, s) ∷ m) h =
    omega (arith, unconsumed-le high m h.1, h.0.2.accounted, h.0.2.balanced)

-- In every session, from a new acceptor through input bytes, until they are refused, and local
-- calls, the data delivered and not consumed is at most 1 MiB for each live stream, there are at
-- most `max_concurrent_streams` streams, and less than the decoder ceiling is buffered.
pub Session-unconsumed :
    (limits : MuxLimits) {a : MuxAcceptor}
    → Session limits a
    → (unconsumed a.streams ≤ length a.streams * initial_window)
      × (length a.streams ≤ a.limits.max_concurrent_streams)
      × (a.decoder_buffered_bytes < a.limits.decoder_buffer_bytes)
Session-unconsumed limits {a} s =
    let (v, w) = Session-IsHealthy limits s in
    (
      unconsumed-le a.peer_high_water a.streams v.entries,
      v.bounded,
      (ceiling a a.payload_remaining w refl).1,
    )
