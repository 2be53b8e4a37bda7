-- ===== src/Mux/Carrier/Quiet.antt =====
-- What the handlers of single frames of `CarrierDemux` of crates/spl-core/src/mux.rs emit.
use spl_rust.Base.{
  ℕ, ◌≡◌, ◌<◌, ◌^◌, inl, inr, bit_or, true, false, List, [], ◌∷◌, ◌++◌, map, none, some, Bool-cases,
  Option-cases, Result-cases, ◌==◌, if_intro, All-append,
}
use spl_rust.Base.Assoc.{lookup, contains_key, lookup-insert}
use spl_rust.Frame.{
  Frame, encode, flag_data, flag_close, control_pong, control_pong_nonce, reset_flow_control_error,
  reset_protocol_error,
}
use spl_rust.Mux
use spl_rust.Mux.{MuxError, RecvWindow, debit}
use spl_rust.Mux.Events.{StreamItem, StreamEvent}
use spl_rust.Mux.Assembler.{AssemblerOutput, close_assembler}
use spl_rust.Mux.Carrier.{
  CarrierStream, CarrierDemux, DemuxOutput, Handled, forget_stream, update_stream, is_kept,
  without_windows, push_emitted, end_stream, reject_attributable, handle_control, refuse_overrun,
  expect_stream, close_known, finish_data, consume_known,
}
use spl_rust.Mux.Carrier.Windows.{
  IsSilent, Silences, forget-IsSilent, update-IsSilent, emit-reset, emit-window,
}

-- One more frame, which is for no stream that is not live.
push-IsSilent :
    (d : CarrierDemux) (frames : List (List ℕ)) (bytes : List ℕ)
    → IsSilent d frames
    → ((k : ℕ) → lookup k d.streams ≡ none → is_kept k bytes ≡ true)
    → IsSilent d (frames ++ bytes ∷ [])
push-IsSilent d frames bytes h free k gone =
    All-append (λ (b : List ℕ). is_kept k b ≡ true) frames (bytes ∷ []) (h k gone) (free k gone, tt)

pub end_stream-Silences :
    (d : CarrierDemux) (out : DemuxOutput) (stream_id : ℕ) (item : StreamItem)
    → IsSilent d out.emit_frames
    → Silences (end_stream d out stream_id item)
unfolding end_stream
end_stream-Silences d out stream_id item h = forget-IsSilent d stream_id out.emit_frames h

pub reject_attributable-Silences :
    (d : CarrierDemux) (out : DemuxOutput) (f : Frame)
    → IsSilent d out.emit_frames
    → Silences (reject_attributable d out f)
unfolding reject_attributable
reject_attributable-Silences d out f h = elim (Bool-cases (contains_key f.stream_id d.streams)) [
  | inl known ↦
      let (bytes, sent, free) =
        emit-reset d (without_windows out f.stream_id) f.stream_id reset_protocol_error in
      rw (known, sent, reject_attributable)
        (rw known (
          push-IsSilent (forget_stream d f.stream_id) _ bytes
            (forget-IsSilent d f.stream_id out.emit_frames h) (λ k _. free k)))
  | inr unknown ↦
      let (bytes, sent, free) = emit-reset d out f.stream_id reset_protocol_error in
      rw (unknown, sent, reject_attributable)
        (rw unknown (push-IsSilent d out.emit_frames bytes h (λ k _. free k)))
]

pub refuse_overrun-Silences :
    (d : CarrierDemux) (out : DemuxOutput) (stream_id : ℕ)
    → IsSilent d out.emit_frames
    → Silences (refuse_overrun d out stream_id)
unfolding refuse_overrun
refuse_overrun-Silences d out stream_id h =
    let (bytes, sent, free) =
      emit-reset d (without_windows out stream_id) stream_id reset_flow_control_error in
    rw (sent, refuse_overrun)
      (push-IsSilent (forget_stream d stream_id) _ bytes
        (forget-IsSilent d stream_id out.emit_frames h) (λ k _. free k))

pub handle_control-Silences :
    (d : CarrierDemux) (out : DemuxOutput) (f : Frame)
    → IsSilent d out.emit_frames
    → Silences (handle_control d out f)
unfolding handle_control
handle_control-Silences d out f h = elim (Option-cases (control_pong f)) [
  | inr (pong, answer) ↦ elim (Result-cases (encode pong)) [
    | inl (bytes, e) ↦ rw (answer, e, handle_control) h
    | inr (fault, e) ↦ rw (answer, e, handle_control) tt
  ]
  | inl quiet ↦ elim (Option-cases (control_pong_nonce f)) [
    | inr (nonce, e) ↦ rw (quiet, e, handle_control) h
    | inl e ↦ rw (quiet, e, handle_control) tt
  ]
]

-- A stream that is not there ends the call by a panic, which emits nothing.
pub expect_stream-Silences :
    (d : CarrierDemux) (stream_id : ℕ) (rest : CarrierStream → Handled DemuxOutput)
    → ((s : CarrierStream) → lookup stream_id d.streams ≡ some s → Silences (rest s))
    → Silences (expect_stream d stream_id rest)
unfolding expect_stream
expect_stream-Silences d stream_id rest h = elim (Option-cases (lookup stream_id d.streams)) [
  | inl absent ↦ rw (absent, expect_stream) tt
  | inr (s, here) ↦ rw (here, expect_stream) (h s here)
]

finish_data-Silences :
    (d : CarrierDemux) (out : DemuxOutput) (f : Frame) (events : List StreamEvent)
    → IsSilent d out.emit_frames
    → Silences (finish_data d out f events)
unfolding finish_data
finish_data-Silences d out f events h =
    if_intro Silences (f.flags == bit_or flag_data flag_close)
      (λ _. expect_stream-Silences d f.stream_id (close_known d out' f) (λ s _.
        unfold close_known in
        end_stream-Silences d out' f.stream_id (close_assembler s.assembler).0 h))
      (λ _. h)
  where
    out' : DemuxOutput
    out' = record out { stream_events = out.stream_events ++ map (λ e. (f.stream_id, e)) events }

-- A grant goes out for the stream whose DATA is handled, which is live.
pub consume_known-Silences :
    (d : CarrierDemux) (out : DemuxOutput) (f : Frame) (assembled : AssemblerOutput)
    (s : CarrierStream)
    → f.stream_id < 2 ^ 32
    → IsSilent d out.emit_frames
    → Silences (consume_known d out f assembled s)
unfolding consume_known update_stream
consume_known-Silences d out f assembled s small h =
    elim (Option-cases (Mux.consume s.recv_window assembled.auto_consumed)) [
      | inl panic ↦ rw (panic, consume_known) tt
      | inr ((none, w), c) ↦
          rw (c, consume_known)
            (finish_data-Silences (with_window w) out f assembled.events (after w))
      | inr ((some g, w), c) ↦
          let (bytes, sent, free) = emit-window (with_window w) out f.stream_id g small in
          rw (c, consume_known)
            (rw sent (
              finish_data-Silences (with_window w) (push_emitted out bytes) f assembled.events (
                push-IsSilent (with_window w) out.emit_frames bytes (after w)
                  (λ k gone. free k (live w k gone)))))
    ]
  where
    with_window : RecvWindow → CarrierDemux
    with_window w = update_stream d f.stream_id (record s { recv_window = w })

    after : (w : RecvWindow) → IsSilent (with_window w) out.emit_frames
    after w = update-IsSilent d f.stream_id _ out.emit_frames h

    live :
        (w : RecvWindow) (k : ℕ)
        → lookup k (with_window w).streams ≡ none
        → (f.stream_id == k) ≡ false
    live w k gone = elim (Bool-cases (f.stream_id == k)) [
      | inr miss ↦ miss
      | inl hit ↦
          cc (rw hit at (lookup-insert f.stream_id k (record s { recv_window = w }) d.streams))
    ]
