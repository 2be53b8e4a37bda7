-- ===== src/Mux/Carrier/Windows.antt =====
-- The WINDOW frames that `CarrierDemux` of crates/spl-core/src/mux.rs emits, and the streams they are for.
use spl_rust.Base.{
  ℕ, ◌%◌, ◌≡◌, ◌<◌, ◌^◌, refl, inl, inr, arith, true, false, List, [], ◌∷◌, ◌++◌, none, ok,
  Bool-cases, ◌==◌, length, if_intro, All,
}
use spl_rust.Base.Assoc.{lookup, lookup-insert, lookup-remove}
use spl_rust.Frame.{
  Frame, encode, flags_valid, has_flag, flag_open, flag_data, flag_close, flag_reset, flag_window,
  flag_ping, flag_pong, window, window_credit, control_pong, control_pong_nonce,
  reset_flow_control_error, reset_protocol_error, header_stream_id, header_flags, from_be_bytes,
  to_be_bytes, header_bytes,
}
use spl_rust.Frame
use spl_rust.Frame.Wire.{header_stream_id-header_bytes, length-header_bytes, encode-ok}
use spl_rust.Mux.Carrier.{
  CarrierStream, CarrierDemux, DemuxOutput, Handled, proceeds, stops, panics, forget_stream,
  update_stream, is_kept, remove_emitted_windows, push_emitted, emit,
}

-- No frame is a WINDOW for one stream.
abbrev pub IsFreeOf : ℕ → List (List ℕ) → Type 0
IsFreeOf k frames = All (λ (bytes : List ℕ). is_kept k bytes ≡ true) frames

removed-IsFreeOf : (k : ℕ) (frames : List (List ℕ)) → IsFreeOf k (remove_emitted_windows k frames)
unfolding remove_emitted_windows
removed-IsFreeOf k [] = tt
removed-IsFreeOf k (bytes ∷ rest) =
    if_intro (IsFreeOf k) (is_kept k bytes) (λ h. (h, removed-IsFreeOf k rest))
      (λ _. removed-IsFreeOf k rest)

removed_still_free :
    (k j : ℕ) (frames : List (List ℕ))
    → IsFreeOf k frames
    → IsFreeOf k (remove_emitted_windows j frames)
unfolding remove_emitted_windows
removed_still_free k j [] h = tt
removed_still_free k j (bytes ∷ rest) h =
    if_intro (IsFreeOf k) (is_kept j bytes) (λ _. (h.0, removed_still_free k j rest h.1))
      (λ _. removed_still_free k j rest h.1)

-- WINDOW frames are for live streams only.
abbrev pub IsSilent : CarrierDemux → List (List ℕ) → Type 0
IsSilent d frames = (k : ℕ) → lookup k d.streams ≡ none → IsFreeOf k frames

-- The frames of an output, if there is one.
abbrev pub Silences : Handled DemuxOutput → Type 0
Silences (proceeds out d) = IsSilent d out.emit_frames
Silences (stops e d) = Unit
Silences panics = Unit

pub forget-IsSilent :
    (d : CarrierDemux) (stream_id : ℕ) (frames : List (List ℕ))
    → IsSilent d frames
    → IsSilent (forget_stream d stream_id) (remove_emitted_windows stream_id frames)
unfolding forget_stream
forget-IsSilent d stream_id frames h k gone =
    let removed = lookup-remove stream_id k d.streams in
    elim (Bool-cases (stream_id == k)) [
      | inl hit ↦
          let same_key : stream_id ≡ k = ground arith in rw same_key (removed-IsFreeOf k frames)
      | inr miss ↦
          let before : lookup k d.streams ≡ none = cc (rw miss at removed) in
          removed_still_free k stream_id frames (h k before)
    ]

pub update-IsSilent :
    (d : CarrierDemux) (stream_id : ℕ) (s : CarrierStream) (frames : List (List ℕ))
    → IsSilent d frames
    → IsSilent (update_stream d stream_id s) frames
unfolding update_stream
update-IsSilent d stream_id s frames h k gone =
    let found = lookup-insert stream_id k s d.streams in
    elim (Bool-cases (stream_id == k)) [
      | inl hit ↦ cc (rw hit at found)
      | inr miss ↦ h k (cc (rw miss at found))
    ]

-- A RESET is a WINDOW for no stream.
pub emit-reset :
    (d : CarrierDemux) (out : DemuxOutput) (stream_id reason : ℕ)
    → (bytes : List ℕ) × (emit d out (Frame.reset stream_id reason) ≡ ok (push_emitted out bytes))
      × ((k : ℕ) → is_kept k bytes ≡ true)
unfolding emit encode Frame.reset is_kept header_flags has_flag header_bytes to_be_bytes
emit-reset d out stream_id reason = (_, refl, λ k. ground arith)

-- A WINDOW is for its own stream only.
pub emit-window :
    (d : CarrierDemux) (out : DemuxOutput) (stream_id credit : ℕ)
    → stream_id < 2 ^ 32
    → (bytes : List ℕ) × (emit d out (window stream_id credit) ≡ ok (push_emitted out bytes))
      × ((k : ℕ) → (stream_id == k) ≡ false → is_kept k bytes ≡ true)
unfolding emit encode window is_kept has_flag
emit-window d out stream_id credit h = (
  header_bytes stream_id flag_window (4 % 2 ^ 32) ++ to_be_bytes credit,
  refl,
  λ k miss.
      let named =
        header_stream_id-header_bytes stream_id flag_window (4 % 2 ^ 32) (to_be_bytes credit) h in
      ground (arith, named, miss),
)

-- The wire bytes of a WINDOW frame for one stream, with any payload.
abbrev pub IsWindowFor : ℕ → List ℕ → Type 0
IsWindowFor k bytes =
    (payload : List ℕ) × (encode (record { stream_id = k; flags = 0x10; payload = payload })
      ≡ ok bytes)

window_flagged :
    (k n : ℕ) (payload : List ℕ)
    → has_flag (header_flags (header_bytes k 0x10 n ++ payload)) flag_window ≡ true
unfolding has_flag header_flags header_bytes to_be_bytes
window_flagged k n payload = refl

window_bytes_removed :
    (k : ℕ) (payload : List ℕ)
    → k < 2 ^ 32
    → is_kept k (header_bytes k 0x10 (length payload) ++ payload) ≡ false
unfolding is_kept
window_bytes_removed k payload small = ground (
  arith,
  header_stream_id-header_bytes k 0x10 (length payload) payload small,
  length-header_bytes k 0x10 (length payload) payload,
  window_flagged k (length payload) payload,
)

-- What the demultiplexer keeps is no WINDOW for the stream.
kept-IsWindowFor :
    (k : ℕ) (bytes : List ℕ) → k < 2 ^ 32 → is_kept k bytes ≡ true → ¬ IsWindowFor k bytes
kept-IsWindowFor k bytes small kept (payload, e) =
    let shape = (encode-ok (record { stream_id = k; flags = 0x10; payload = payload }) e).1 in
    cc (rw shape at kept, window_bytes_removed k payload small)

pub IsFreeOf-IsWindowFor :
    (k : ℕ) (frames : List (List ℕ))
    → k < 2 ^ 32
    → IsFreeOf k frames
    → All (λ (bytes : List ℕ). ¬ IsWindowFor k bytes) frames
IsFreeOf-IsWindowFor k [] small h = tt
IsFreeOf-IsWindowFor k (bytes ∷ rest) small h =
    (kept-IsWindowFor k bytes small h.0, IsFreeOf-IsWindowFor k rest small h.1)
