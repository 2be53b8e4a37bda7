-- ===== src/Mux/Carrier/Accounts.antt =====
-- `CarrierDemux` of crates/spl-core/src/mux.rs against a ledger of the wire bytes that its events carry.
use spl_rust.Base.{
  ℕ, ◌+◌, ◌≡◌, refl, ap, inl, inr, arith, ◌⊎◌, true, false, bit_or, ◌||◌, List, [], ◌∷◌, ◌++◌, map,
  some, ok, err, Bool-cases, Result-cases, ◌==◌, ==_iff, if◌then◌else◌,
}
use spl_rust.Base.Assoc.{lookup, lookup-insert, lookup-remove}
use spl_rust.Frame.{
  Frame, encode, flags_valid, has_flag, flag_open, flag_data, flag_close, flag_reset, flag_window,
  flag_ping, flag_pong,
}
use spl_rust.Mux.{MuxError, frame_error}
use spl_rust.Mux.Credit.{IsBalanced, outstanding}
use spl_rust.Mux.Events.{StreamItem, StreamEvent, uncosted}
use spl_rust.Mux.Assembler.Costs.{costs, IsSearching}
use spl_rust.Mux.Carrier.{
  CarrierStream, CarrierDemux, DemuxOutput, Handled, proceeds, stops, panics, forget_stream,
  update_stream, push_emitted, end_stream, emit, expect_stream,
}

-- The wire bytes that the events of one stream carry.
unfoldable pub owed : ℕ → List (ℕ × StreamEvent) → ℕ
owed k [] = 0
owed k ((j, e) ∷ rest) = (if j == k then e.wire_cost else 0) + owed k rest

pub owed-append :
    (k : ℕ) (xs ys : List (ℕ × StreamEvent)) → owed k (xs ++ ys) ≡ owed k xs + owed k ys
unfolding owed
owed-append k [] ys = omega arith
owed-append k ((j, e) ∷ xs) ys = omega (arith, owed-append k xs ys)

pub owed-tagged :
    (k j : ℕ) (es : List StreamEvent)
    → owed j (map (λ e. (k, e)) es) ≡ (if k == j then costs es else 0)
unfolding owed costs
owed-tagged k j [] = ground arith
owed-tagged k j (e ∷ es) = ground (arith, owed-tagged k j es)

-- An event without a cost is owed nothing.
pub owed-uncosted :
    (k j : ℕ) (events : List (ℕ × StreamEvent)) (item : StreamItem)
    → owed j (events ++ (k, uncosted item) ∷ []) ≡ owed j events
unfolding owed
owed-uncosted k j events item = ground (arith, owed-append j events ((k, uncosted item) ∷ []))

-- One live stream: its window is balanced, the bytes outstanding in it are those that wait for a
-- chunk to end and those that `n` counts, and no whole head waits to be read.
pub record IsAccounted (s : CarrierStream) (n : ℕ) : Type 0 where
  pub balanced : IsBalanced s.recv_window
  pub covered : s.assembler.pending_body_wire + n ≡ outstanding s.recv_window
  pub searching : IsSearching s.assembler

-- Every live stream is accounted for; `owes` has the undrained wire bytes of each id.
abbrev pub IsSound : CarrierDemux → (ℕ → ℕ) → Type 0
IsSound d owes = (k : ℕ) (s : CarrierStream) → lookup k d.streams ≡ some s → IsAccounted s (owes k)

pub same-IsSound :
    (d : CarrierDemux) (owes owes' : ℕ → ℕ)
    → IsSound d owes
    → ((k : ℕ) → owes' k ≡ owes k)
    → IsSound d owes'
same-IsSound d owes owes' h same k s e = rw (same k) (h k s e)

-- Every live stream but one is accounted for.
abbrev pub IsSoundApart : CarrierDemux → ℕ → (ℕ → ℕ) → Type 0
IsSoundApart d stream_id owes =
    (k : ℕ) (s : CarrierStream)
    → (stream_id == k) ≡ false
    → lookup k d.streams ≡ some s
    → IsAccounted s (owes k)

pub sound_apart :
    (d : CarrierDemux) (stream_id : ℕ) (owes : ℕ → ℕ)
    → IsSound d owes
    → IsSoundApart d stream_id owes
sound_apart d stream_id owes h k s _ e = h k s e

pub update_stream-IsSoundApart :
    (d : CarrierDemux) (stream_id : ℕ) (s : CarrierStream) (owes : ℕ → ℕ)
    → IsSoundApart d stream_id owes
    → IsSoundApart (update_stream d stream_id s) stream_id owes
unfolding update_stream
update_stream-IsSoundApart d stream_id s owes h k t miss e =
    let before : lookup k d.streams ≡ some t =
      cc (rw miss at (lookup-insert stream_id k s d.streams)) in
    h k t miss before

pub update_stream-IsSound :
    (d : CarrierDemux) (stream_id : ℕ) (s : CarrierStream) (owes owes' : ℕ → ℕ)
    → IsSoundApart d stream_id owes
    → IsAccounted s (owes' stream_id)
    → ((k : ℕ) → (stream_id == k) ≡ false → owes' k ≡ owes k)
    → IsSound (update_stream d stream_id s) owes'
unfolding update_stream
update_stream-IsSound d stream_id s owes owes' h new same k t e =
    let found = lookup-insert stream_id k s d.streams in
    elim (Bool-cases (stream_id == k)) [
      | inl hit ↦
          let same_key : stream_id ≡ k = (==_iff stream_id k).0 hit in
          let same_stream : s ≡ t = cc (rw hit at found) in rw (← same_key, ← same_stream) new
      | inr miss ↦
          let before : lookup k d.streams ≡ some t = cc (rw miss at found) in
          rw (same k miss) (h k t miss before)
    ]

pub forget_stream-IsSound :
    (d : CarrierDemux) (stream_id : ℕ) (owes owes' : ℕ → ℕ)
    → IsSoundApart d stream_id owes
    → ((k : ℕ) → (stream_id == k) ≡ false → owes' k ≡ owes k)
    → IsSound (forget_stream d stream_id) owes'
unfolding forget_stream
forget_stream-IsSound d stream_id owes owes' h same k t e =
    let found = lookup-remove stream_id k d.streams in
    elim (Bool-cases (stream_id == k)) [
      | inl hit ↦ cc (rw hit at found)
      | inr miss ↦
          let before : lookup k d.streams ≡ some t = cc (rw miss at found) in
          rw (same k miss) (h k t miss before)
    ]

pub Handled-cases :
    {A : Type 0} (h : Handled A)
    → ((a : A) × (d : CarrierDemux) × (h ≡ proceeds a d))
      ⊎ (((e : MuxError) × (d : CarrierDemux) × (h ≡ stops e d)) ⊎ (h ≡ panics))
Handled-cases (proceeds a d) = inl (a, d, refl)
Handled-cases (stops e d) = inr (inl (e, d, refl))
Handled-cases panics = inr (inr refl)

-- The ledger of `base` and of the events of an output.
abbrev pub ledger : (ℕ → ℕ) → DemuxOutput → ℕ → ℕ
ledger base out k = base k + owed k out.stream_events

-- What a handler leaves is accounted for; after an error the events of its pass, which are not given
-- out, are owed for ever. It does not panic.
abbrev pub Keeps : (ℕ → ℕ) → Handled DemuxOutput → Type 0
Keeps base (proceeds out d) = IsSound d (ledger base out)
Keeps base (stops e d) = (lost : ℕ → ℕ) × IsSound d (λ k. base k + lost k)
Keeps base panics = ⊥

pub stops-Keeps :
    (base : ℕ → ℕ) (d : CarrierDemux) (out : DemuxOutput) (e : MuxError)
    → IsSound d (ledger base out)
    → Keeps base (stops e d)
stops-Keeps base d out e h = (λ k. owed k out.stream_events, h)

pub emit_cases :
    (d : CarrierDemux) (out : DemuxOutput) (f : Frame)
    → ((bytes : List ℕ) × (emit d out f ≡ ok (push_emitted out bytes)))
      ⊎ ((e : MuxError) × (emit d out f ≡ err e))
unfolding emit
emit_cases d out f = elim (Result-cases (encode f)) [
  | inl (bytes, e) ↦ inl (bytes, rw (e, emit) refl)
  | inr (fault, e) ↦ inr (frame_error fault, rw (e, emit) refl)
]

-- A stream that is forgotten with an event that costs nothing leaves the others accounted for.
pub forget_uncosted :
    (base : ℕ → ℕ) (d : CarrierDemux) (out : DemuxOutput) (stream_id : ℕ) (item : StreamItem)
    → IsSoundApart d stream_id (ledger base out)
    → IsSound
        (forget_stream d stream_id)
        (λ k. base k + owed k (out.stream_events ++ (stream_id, uncosted item) ∷ []))
forget_uncosted base d out stream_id item h =
    forget_stream-IsSound d stream_id (ledger base out) _ h
      (λ k _. ap (λ n. base k + n) (owed-uncosted stream_id k out.stream_events item))

pub end_stream-Keeps :
    (base : ℕ → ℕ) (d : CarrierDemux) (out : DemuxOutput) (stream_id : ℕ) (item : StreamItem)
    → IsSoundApart d stream_id (ledger base out)
    → Keeps base (end_stream d out stream_id item)
unfolding end_stream
end_stream-Keeps base d out stream_id item h = forget_uncosted base d out stream_id item h

-- A stream that is there is found by `expect`.
pub expect_stream_intro {ℓ} :
    (P : Handled DemuxOutput → Type ℓ) (d : CarrierDemux) (stream_id : ℕ)
    (rest : CarrierStream → Handled DemuxOutput) (s : CarrierStream)
    → lookup stream_id d.streams ≡ some s
    → P (rest s)
    → P (expect_stream d stream_id rest)
unfolding expect_stream
expect_stream_intro P d stream_id rest s here p = rw (here, expect_stream) p

pub update_stream_here :
    (d : CarrierDemux) (stream_id : ℕ) (s : CarrierStream)
    → lookup stream_id (update_stream d stream_id s).streams ≡ some s
unfolding update_stream
update_stream_here d stream_id s =
    let itself : (stream_id == stream_id) ≡ true = ground arith in
    rw (lookup-insert stream_id stream_id s d.streams, itself) refl

-- The flags that are left for a registered stream: those tests leave WINDOW only.
pub window_only :
    (flags : ℕ)
    → flags_valid flags ≡ true
    → has_flag flags flag_open ≡ false
    → (flags == flag_ping || flags == flag_pong) ≡ false
    → (flags == flag_reset) ≡ false
    → (flags == flag_close) ≡ false
    → (flags == flag_data || flags == bit_or flag_data flag_close) ≡ false
    → (flags == flag_window) ≡ true
unfolding flags_valid has_flag
window_only flags v o p r c d = ground arith
