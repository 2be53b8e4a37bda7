-- ===== src/Mux/Carrier/Sessions.antt =====
-- Sessions of the persistent carrier (crates/spl-core/src/mux.rs): streams opened and forgotten, bytes
-- fed, and events drained, in any order.
use spl_rust.Base.{
  ℕ, ◌+◌, ◌<◌, ◌≡◌, ◌≢◌, refl, inl, inr, arith, Bool, true, false, List, [], ◌∷◌, ◌++◌, Option,
  none, some, ok, Bool-cases, Option-cases, ◌==◌, if◌then◌else◌,
}
use spl_rust.Base.Assoc.{lookup}
use spl_rust.Frame.{encode, window, has_flag}
use spl_rust.Http.{find_subsequence}
use spl_rust.Mux.{MuxError, RecvWindow, receive_grant_threshold, new_recv_window}
use spl_rust.Mux.Credit.{IsBalanced, outstanding, consume_cases}
use spl_rust.Mux.Events.{StreamEvent}
use spl_rust.Mux.Assembler.{new_assembler}
use spl_rust.Mux.Carrier.{
  CarrierStream, CarrierDemux, DemuxOutput, Handled, proceeds, stops, panics, new_demux,
  open_stream, forget_stream, update_stream, consume, feed,
}
use spl_rust.Mux.Carrier.Accounts.{
  Handled-cases, owed, owed-append, IsSound, sound_apart, same-IsSound, update_stream-IsSound,
  forget_stream-IsSound,
}
use spl_rust.Mux.Carrier.Routing.{feed-Keeps}

-- The carriers that a driver reaches, each with the events that were given out and are not drained
-- yet. The flag tells that a call has failed. A stream is opened under an id that no undrained wire
-- bytes are attributed to, as after the allocator of ids, which never gives one twice, and before any
-- call has failed.
pub data Session (lossy : List ℕ → List ℕ)
    : Bool → CarrierDemux → List (ℕ × StreamEvent) → Type 0 where
  begins : Session lossy false new_demux []
  opens :
      {d : CarrierDemux} {log : List (ℕ × StreamEvent)}
      → Session lossy false d log
      → (stream_id : ℕ) → owed stream_id log ≡ 0
      → Session lossy false (open_stream d stream_id) log
  feeds :
      {failed : Bool} {d d' : CarrierDemux} {log : List (ℕ × StreamEvent)} {out : DemuxOutput}
      → Session lossy failed d log
      → (bytes : List ℕ) → feed lossy d bytes ≡ proceeds out d'
      → Session lossy failed d' (log ++ out.stream_events)
  fails :
      {failed : Bool} {d d' : CarrierDemux} {log : List (ℕ × StreamEvent)} {e : MuxError}
      → Session lossy failed d log
      → (bytes : List ℕ) → feed lossy d bytes ≡ stops e d'
      → Session lossy true d' log
  drains :
      {failed : Bool} {d d' : CarrierDemux} {granted : Option (List ℕ)}
      → (before after : List (ℕ × StreamEvent)) (stream_id : ℕ) (event : StreamEvent)
      → Session lossy failed d (before ++ (stream_id, event) ∷ after)
      → consume d stream_id event.wire_cost ≡ proceeds granted d'
      → Session lossy failed d' (before ++ after)
  forgets :
      {failed : Bool} {d : CarrierDemux} {log : List (ℕ × StreamEvent)}
      → Session lossy failed d log
      → (stream_id : ℕ) → Session lossy failed (forget_stream d stream_id) log

-- A grant can be encoded.
encode-window :
    (stream_id credit : ℕ) → (bytes : List ℕ) × (encode (window stream_id credit) ≡ ok bytes)
unfolding encode window has_flag
encode-window stream_id credit = (_, refl)

-- Draining an event ends without an error, on a carrier that is accounted for.
abbrev pub Drains : (ℕ → ℕ) → Handled (Option (List ℕ)) → Type 0
Drains owes (proceeds granted d) = IsSound d owes
Drains owes (stops e d) = ⊥
Drains owes panics = ⊥

consume-Drains :
    (d : CarrierDemux) (stream_id cost : ℕ) (owes owes' : ℕ → ℕ)
    → IsSound d owes
    → owes stream_id ≡ owes' stream_id + cost
    → ((k : ℕ) → (stream_id == k) ≡ false → owes' k ≡ owes k)
    → Drains owes' (consume d stream_id cost)
unfolding consume
consume-Drains d stream_id cost owes owes' h paid same =
    elim (Option-cases (lookup stream_id d.streams)) [
      | inl absent ↦
          rw (absent, consume)
            (λ k s e. elim (Bool-cases (stream_id == k)) [
              | inl hit ↦ let same_key : stream_id ≡ k = ground arith in cc (rw same_key at absent)
              | inr miss ↦ rw (same k miss) (h k s e)
            ])
      | inr (s, here) ↦ elim (consume_cases s.recv_window cost (h stream_id s here).balanced) [
        | inl (over, _) ↦
            let never : ⊥ = omega (arith, over, (h stream_id s here).covered, paid) in
            elim never [ ]
        | inr (none, w, c, balanced, left, _, _) ↦
            rw (here, consume) (rw c (after s w here balanced left))
        | inr (some g, w, c, balanced, left, _, _) ↦
            let (bytes, sent) = encode-window stream_id g in
            rw (here, consume) (rw c (rw sent (after s w here balanced left)))
      ]
    ]
  where
    after :
        (s : CarrierStream) (w : RecvWindow)
        → lookup stream_id d.streams ≡ some s
        → IsBalanced w
        → outstanding w + cost ≡ outstanding s.recv_window
        → IsSound (update_stream d stream_id (record s { recv_window = w })) owes'
    after s w here balanced left =
        update_stream-IsSound d stream_id (record s { recv_window = w }) owes owes'
          (sound_apart d stream_id owes h)
          (record {
            balanced = balanced;
            covered = omega (arith, left, (h stream_id s here).covered, paid);
            searching = (h stream_id s here).searching;
          })
          same

open_stream-IsSound :
    (d : CarrierDemux) (stream_id : ℕ) (owes : ℕ → ℕ)
    → IsSound d owes
    → owes stream_id ≡ 0
    → IsSound (open_stream d stream_id) owes
unfolding open_stream update_stream find_subsequence
open_stream-IsSound d stream_id owes h idle =
    update_stream-IsSound d stream_id
      (record { assembler = new_assembler; recv_window = new_recv_window }) owes owes
      (sound_apart d stream_id owes h)
      (record {
        balanced = record { within = omega arith; not_due = omega arith };
        covered = omega (arith, idle);
        searching = λ _. refl;
      })
      (λ k _. refl)

-- The undrained bytes of a log in which one event is drained.
drained_owed :
    (before after : List (ℕ × StreamEvent)) (stream_id : ℕ) (event : StreamEvent) (k : ℕ)
    → owed k (before ++ (stream_id, event) ∷ after)
      ≡ owed k (before ++ after) + (if stream_id == k then event.wire_cost else 0)
unfolding owed
drained_owed before after stream_id event k =
    omega (arith, owed-append k before ((stream_id, event) ∷ after), owed-append k before after)

-- The bytes of events that failed calls did not give out; there are none before a call fails.
abbrev pub IsLost : Bool → (ℕ → ℕ) → Type 0
IsLost failed lost = failed ≡ false → (k : ℕ) → lost k ≡ 0

Session-IsSound :
    (lossy : List ℕ → List ℕ) {failed : Bool} {d : CarrierDemux} {log : List (ℕ × StreamEvent)}
    → Session lossy failed d log
    → (lost : ℕ → ℕ) × IsSound d (λ k. lost k + owed k log) × IsLost failed lost
unfolding lookup
Session-IsSound lossy begins = (λ _. 0, (λ k s e. cc), λ _ k. refl)
Session-IsSound lossy (opens {d} {log} s stream_id idle) =
    let (lost, h, gone) = Session-IsSound lossy s in
    (lost, open_stream-IsSound d stream_id _ h (omega (arith, idle, gone refl stream_id)), gone)
Session-IsSound lossy (feeds {d = d} {d' = d'} {log = log} {out = out} s bytes e) =
    let (lost, h, gone) = Session-IsSound lossy s in
    (
      lost,
      same-IsSound d' _ _ (rw e at (feed-Keeps (λ k. lost k + owed k log) lossy d bytes h))
          (λ k. omega (arith, owed-append k log out.stream_events)),
      gone,
    )
Session-IsSound lossy (fails {d = d} {d' = d'} {log = log} s bytes e) =
    let (lost, h, gone) = Session-IsSound lossy s in
    let (more, h') = rw e at (feed-Keeps (λ k. lost k + owed k log) lossy d bytes h) in
    ((λ k. lost k + more k), same-IsSound d' _ _ h' (λ k. omega arith), λ f. cc)
Session-IsSound lossy (drains {d = d} before after stream_id event s e) =
    let (lost, h, gone) = Session-IsSound lossy s in
    (
      lost,
      rw e at (
          consume-Drains d stream_id event.wire_cost _ (λ k. lost k + owed k (before ++ after)) h
            (ground (arith, drained_owed before after stream_id event stream_id))
            (λ k miss. ground (arith, drained_owed before after stream_id event k, miss))),
      gone,
    )
Session-IsSound lossy (forgets {d = d} s stream_id) =
    let (lost, h, gone) = Session-IsSound lossy s in
    (lost, forget_stream-IsSound d stream_id _ _ (sound_apart d stream_id _ h) (λ k _. refl), gone)

-- However streams are opened, fed, drained and forgotten on a persistent carrier, before any call
-- has failed, the receive window of every live stream is balanced, and the bytes outstanding in it
-- are exactly those that wait for a chunk to end and those of the events that are not drained yet.
pub Session-outstanding :
    (lossy : List ℕ → List ℕ) (d : CarrierDemux) (log : List (ℕ × StreamEvent)) (stream_id : ℕ)
    (s : CarrierStream)
    → Session lossy false d log
    → lookup stream_id d.streams ≡ some s
    → IsBalanced s.recv_window
      × (s.assembler.pending_body_wire + owed stream_id log ≡ outstanding s.recv_window)
Session-outstanding lossy d log stream_id s r here =
    let (lost, h, gone) = Session-IsSound lossy r in
    let a = h stream_id s here in (a.balanced, omega (arith, a.covered, gone refl stream_id))

-- In a session of a persistent carrier without a failed call, a live stream whose events are all
-- drained, and for which no partial chunk waits, has more than half of its window open to the peer.
pub Session-open :
    (lossy : List ℕ → List ℕ) (d : CarrierDemux) (log : List (ℕ × StreamEvent)) (stream_id : ℕ)
    (s : CarrierStream)
    → Session lossy false d log
    → lookup stream_id d.streams ≡ some s
    → owed stream_id log ≡ 0
    → s.assembler.pending_body_wire ≡ 0
    → receive_grant_threshold < s.recv_window.credit
Session-open lossy d log stream_id s r here drained whole =
    let (v, e) = Session-outstanding lossy d log stream_id s r here in
    omega (arith, v, e, drained, whole)

-- In every session of a persistent carrier, also after calls that failed, feeding any bytes does
-- not panic in the demultiplexer or in a receive window: each stream that `feed` expects is there,
-- the flags that its last branch asserts are WINDOW, and no window is asked for more than is
-- outstanding.
pub Session-feed_total :
    (lossy : List ℕ → List ℕ) {failed : Bool} (d : CarrierDemux) (log : List (ℕ × StreamEvent))
    (bytes : List ℕ)
    → Session lossy failed d log
    → feed lossy d bytes ≢ panics
Session-feed_total lossy d log bytes r e =
    let (lost, h, _) = Session-IsSound lossy r in
    rw e at (feed-Keeps (λ k. lost k + owed k log) lossy d bytes h)

-- In every session of a persistent carrier, also after calls that failed, an event that was given
-- out and is not drained yet can be drained: its wire bytes are consumed without a panic or an
-- error.
pub Session-drain_total :
    (lossy : List ℕ → List ℕ) {failed : Bool} (d : CarrierDemux)
    (before after : List (ℕ × StreamEvent)) (stream_id : ℕ) (event : StreamEvent)
    → Session lossy failed d (before ++ (stream_id, event) ∷ after)
    → (granted : Option (List ℕ)) × (d' : CarrierDemux) × (consume d stream_id event.wire_cost
        ≡ proceeds granted d')
Session-drain_total lossy d before after stream_id event r =
    let (lost, h, _) = Session-IsSound lossy r in
    let drained =
      consume-Drains d stream_id event.wire_cost _ (λ k. lost k + owed k (before ++ after)) h
        (ground (arith, drained_owed before after stream_id event stream_id))
        (λ k miss. ground (arith, drained_owed before after stream_id event k, miss)) in
    elim (Handled-cases (consume d stream_id event.wire_cost)) [
      | inl (granted, d', e) ↦ (granted, d', e)
      | inr (inl (fault, d', e)) ↦ elim (rw e at drained) [ ]
      | inr (inr e) ↦ elim (rw e at drained) [ ]
    ]
