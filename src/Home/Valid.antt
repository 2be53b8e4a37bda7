-- ===== src/Home/Valid.antt =====
-- The invariant of the acceptor's streams, and the steps that keep it.
use spl_rust.Base.{
  ℕ, ◌%◌, ◌≤◌, ◌≡◌, refl, arith, true, false, ◌&&◌, Option, none, some, length, if_intro,
}
use spl_rust.Base.Assoc.{
  lookup, contains_key, length-insert_present, length-remove-le, remove-insert, HasDistinctKeys,
  insert-HasDistinctKeys, remove-HasDistinctKeys, AllEntries, AllEntries-insert, AllEntries-remove,
  AllEntries-lookup,
}
use spl_rust.Frame.{Frame, FrameViolation}
use spl_rust.Mux.Credit.{IsBalanced, outstanding}
use spl_rust.Home.Types.{StreamState, RefusalClass, MuxOutput, record_refusal}
use spl_rust.Home.State.{
  MuxAcceptor, max_send_credit, violation, set_stream, remove_stream, refuse_violation, refuse,
  close_peer_side, mark_peer_closed,
}

-- One live stream: its receive window is balanced and agrees with the bytes that the application has
-- not consumed, its send credit is within the protocol cap, and one side at least is open.
pub record IsLive (s : StreamState) : Type 0 where
  pub balanced : IsBalanced s.receive_window
  pub accounted : s.debited_not_consumed ≡ outstanding s.receive_window
  pub capped : s.send_credit ≤ max_send_credit
  pub half_open : (s.peer_closed && s.local_closed) ≡ false

abbrev pub IsAtMost : ℕ → Option ℕ → Type 0
IsAtMost stream_id none = ⊥
IsAtMost stream_id (some highest) = stream_id ≤ highest

-- A peer-owned stream: an odd id that the high-water mark has reached, and a live state.
abbrev pub IsPeerStream : Option ℕ → ℕ → StreamState → Type 0
IsPeerStream high stream_id s = (stream_id % 2 ≡ 1) × IsAtMost stream_id high × IsLive s

pub record IsValid (a : MuxAcceptor) : Type 0 where
  pub entries : AllEntries (IsPeerStream a.peer_high_water) a.streams
  pub distinct : HasDistinctKeys a.streams
  pub bounded : length a.streams ≤ a.limits.max_concurrent_streams

pub lookup-IsPeerStream :
    (a : MuxAcceptor) (stream_id : ℕ) {s : StreamState}
    → IsValid a
    → lookup stream_id a.streams ≡ some s
    → IsPeerStream a.peer_high_water stream_id s
lookup-IsPeerStream a stream_id v e =
    AllEntries-lookup (IsPeerStream a.peer_high_water) stream_id a.streams v.entries e

pub set_stream-IsValid :
    (a : MuxAcceptor) (stream_id : ℕ) {s : StreamState} (s' : StreamState)
    → IsValid a
    → lookup stream_id a.streams ≡ some s
    → IsLive s'
    → IsValid (set_stream a stream_id s')
unfolding set_stream
set_stream-IsValid a stream_id {s} s' v e live =
    let (odd, high, _) = lookup-IsPeerStream a stream_id v e in
    record {
      entries =
          AllEntries-insert (IsPeerStream a.peer_high_water) stream_id s' a.streams
            (odd, high, live) v.entries;
      distinct = insert-HasDistinctKeys stream_id s' a.streams v.distinct;
      bounded = rw (length-insert_present stream_id s' a.streams e) v.bounded;
    }

pub remove_stream-IsValid :
    (a : MuxAcceptor) (stream_id : ℕ) → IsValid a → IsValid (remove_stream a stream_id)
unfolding remove_stream
remove_stream-IsValid a stream_id v = record {
  entries = AllEntries-remove (IsPeerStream a.peer_high_water) stream_id a.streams v.entries;
  distinct = remove-HasDistinctKeys stream_id a.streams v.distinct;
  bounded = omega (arith, v.bounded, length-remove-le stream_id a.streams);
}

-- A stream that is written and forgotten at once leaves nothing behind.
pub remove_stream-set_stream :
    (a : MuxAcceptor) (stream_id : ℕ) (s : StreamState)
    → remove_stream (set_stream a stream_id s) stream_id ≡ remove_stream a stream_id
unfolding remove_stream set_stream
remove_stream-set_stream a stream_id s = rw (remove-insert stream_id s a.streams)

pub refuse_violation-IsValid :
    (a : MuxAcceptor) (out : MuxOutput) (w : FrameViolation) (class : RefusalClass)
    → IsValid a
    → IsValid (refuse_violation a out w class).0
unfolding refuse_violation
refuse_violation-IsValid a out w class v =
    if_intro (λ (p : MuxAcceptor × MuxOutput). IsValid p.0) (contains_key w.stream_id a.streams)
      (λ _. remove_stream-IsValid _ w.stream_id counted) (λ _. counted)
  where
    counted : IsValid (record a { refusals = record_refusal a.refusals class })
    counted = record { entries = v.entries; distinct = v.distinct; bounded = v.bounded }

pub refuse-IsValid :
    (a : MuxAcceptor) (out : MuxOutput) (f : Frame) (class : RefusalClass)
    → IsValid a
    → IsValid (refuse a out f class).0
unfolding refuse
refuse-IsValid a out f class v = refuse_violation-IsValid a out (violation f) class v

close_peer_side-IsValid :
    (a : MuxAcceptor) (out : MuxOutput) (stream_id : ℕ) (o : Option StreamState)
    → IsValid a
    → lookup stream_id a.streams ≡ o
    → IsValid (close_peer_side a out stream_id o).0
unfolding close_peer_side
close_peer_side-IsValid a out stream_id none v e = v
close_peer_side-IsValid a out stream_id (some s) v e =
    let (_, _, live) = lookup-IsPeerStream a stream_id v e in
    if_intro (λ (p : MuxAcceptor × MuxOutput). IsValid p.0) s.local_closed
      (λ _. rw remove_stream-set_stream (remove_stream-IsValid a stream_id v))
      (λ half.
        set_stream-IsValid a stream_id (record s { peer_closed = true }) v e
          (record {
            balanced = live.balanced;
            accounted = live.accounted;
            capped = live.capped;
            half_open = half;
          }))

pub mark_peer_closed-IsValid :
    (a : MuxAcceptor) (out : MuxOutput) (stream_id : ℕ)
    → IsValid a
    → IsValid (mark_peer_closed a out stream_id).0
unfolding mark_peer_closed
mark_peer_closed-IsValid a out stream_id v =
    close_peer_side-IsValid a out stream_id (lookup stream_id a.streams) v refl
