-- ===== src/Home/Opening.antt =====
-- `handle_open` of crates/spl-home/src/mux.rs against the invariant of the streams.
use spl_rust.Base.{
  ℕ, ◌%◌, ◌<◌, ◌≡◌, refl, inl, inr, arith, true, ◌&&◌, Option, none, some, Option-cases, ltb, leb,
  length, ◌==◌, if_intro,
}
use spl_rust.Base.Assoc.{
  lookup, length-insert_absent, insert-HasDistinctKeys, AllEntries-insert, AllEntries-mono,
}
use spl_rust.Frame.{Frame, has_flag, flag_close}
use spl_rust.Mux.{initial_window, debit}
use spl_rust.Home.Types.{StreamState, MuxOutput}
use spl_rust.Home.State.{MuxAcceptor, set_stream}
use spl_rust.Home.Dispatch.{is_above, open_with, admit_stream, open_stream, handle_open}
use spl_rust.Home.Valid.{
  IsLive, IsAtMost, IsPeerStream, IsValid, lookup-IsPeerStream, refuse-IsValid,
  mark_peer_closed-IsValid,
}

abbrev pub Keeps : MuxAcceptor × MuxOutput → Type 0
Keeps p = IsValid p.0

open_with-IsLive : (len : ℕ) {s : StreamState} → open_with len ≡ some s → IsLive s
unfolding open_with debit
open_with-IsLive len e = ground arith

-- An id above the high-water mark names no stream.
above-absent :
    (a : MuxAcceptor) (stream_id : ℕ)
    → IsValid a
    → is_above stream_id a.peer_high_water ≡ true
    → lookup stream_id a.streams ≡ none
above-absent a stream_id v h = elim (Option-cases (lookup stream_id a.streams)) [
  | inl e ↦ e
  | inr (s, e) ↦ absurd (clash a.peer_high_water (lookup-IsPeerStream a stream_id v e).1 h)
]
  where
    clash : (o : Option ℕ) → IsAtMost stream_id o → is_above stream_id o ≡ true → ⊥
    clash none m h = m
    clash (some k) m h = unfold is_above in ground arith

IsAtMost-mono : (j k : ℕ) (o : Option ℕ) → is_above k o ≡ true → IsAtMost j o → IsAtMost j (some k)
unfolding is_above
IsAtMost-mono j k none h m = absurd m
IsAtMost-mono j k (some i) h m = ground arith

raise-IsValid :
    (a : MuxAcceptor) (stream_id : ℕ)
    → IsValid a
    → is_above stream_id a.peer_high_water ≡ true
    → IsValid (record a { peer_high_water = some stream_id })
raise-IsValid a stream_id v h = record {
  entries =
      AllEntries-mono (IsPeerStream a.peer_high_water) (IsPeerStream (some stream_id))
        (λ k s p. (p.0, IsAtMost-mono k stream_id a.peer_high_water h p.1, p.2)) a.streams
        v.entries;
  distinct = v.distinct;
  bounded = v.bounded;
}

admit_stream-IsValid :
    (a : MuxAcceptor) (out : MuxOutput) (f : Frame) (s : StreamState)
    → IsValid a
    → lookup f.stream_id a.streams ≡ none
    → f.stream_id % 2 ≡ 1
    → a.peer_high_water ≡ some f.stream_id
    → length a.streams < a.limits.max_concurrent_streams
    → IsLive s
    → Keeps (admit_stream a out f s)
unfolding admit_stream
admit_stream-IsValid a out f s v fresh odd high room live =
    if_intro Keeps (has_flag f.flags flag_close)
      (λ _. mark_peer_closed-IsValid _ _ f.stream_id added) (λ _. added)
  where
    added : IsValid (set_stream a f.stream_id s)
    added =
        unfold set_stream in
        record {
          entries =
              AllEntries-insert (IsPeerStream a.peer_high_water) f.stream_id s a.streams
                (odd, rw high (omega arith), live) v.entries;
          distinct = insert-HasDistinctKeys f.stream_id s a.streams v.distinct;
          bounded = omega (arith, length-insert_absent f.stream_id s a.streams fresh);
        }

open_stream-IsValid :
    (a : MuxAcceptor) (out : MuxOutput) (f : Frame)
    → IsValid a
    → lookup f.stream_id a.streams ≡ none
    → f.stream_id % 2 ≡ 1
    → a.peer_high_water ≡ some f.stream_id
    → Keeps (open_stream a out f)
unfolding open_stream
open_stream-IsValid a out f v fresh odd high =
    if_intro Keeps (leb a.limits.max_concurrent_streams (length a.streams))
      (λ _. refuse-IsValid a out f _ v)
      (λ room.
        if_intro Keeps (ltb initial_window (length f.payload)) (λ _. refuse-IsValid a out f _ v)
          (λ _. elim (Option-cases (open_with (length f.payload))) [
            | inl e ↦ rw e (refuse-IsValid a out f _ v)
            | inr (s, e) ↦ rw e (
                admit_stream-IsValid a out f s v fresh odd high (ground arith)
                  (open_with-IsLive _ e))
          ]))

pub handle_open-IsValid :
    (a : MuxAcceptor) (out : MuxOutput) (f : Frame) → IsValid a → Keeps (handle_open a out f)
unfolding handle_open
handle_open-IsValid a out f v =
    if_intro Keeps (f.stream_id % 2 == 1 && is_above f.stream_id a.peer_high_water)
      (λ h.
        open_stream-IsValid (record a { peer_high_water = some f.stream_id }) out f
          (raise-IsValid a f.stream_id v (ground arith))
          (above-absent a f.stream_id v (ground arith)) (ground arith) refl)
      (λ _. refuse-IsValid a out f _ v)
