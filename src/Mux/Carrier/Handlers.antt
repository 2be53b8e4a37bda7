-- ===== src/Mux/Carrier/Handlers.antt =====
-- The frame handlers of `CarrierDemux` of crates/spl-core/src/mux.rs keep the ledger of wire bytes.
use spl_rust.Base.{
  ℕ, ◌+◌, ◌≡◌, inl, inr, arith, bit_or, List, ◌++◌, map, none, some, Bool-cases, Option-cases,
  Result-cases, ◌==◌, if◌then◌else◌, if_intro,
}
use spl_rust.Base.Assoc.{lookup, contains_key}
use spl_rust.Frame.{
  Frame, FrameDecoder, encode, drain, flags_valid, has_flag, flag_open, flag_data, flag_close,
  flag_reset, flag_window, flag_ping, flag_pong, window, window_credit, control_pong,
  control_pong_nonce, reset_flow_control_error, reset_protocol_error,
}
use spl_rust.Frame
use spl_rust.Mux.{RecvWindow, protocol, frame_error}
use spl_rust.Mux.Credit.{IsBalanced, outstanding, consume_cases}
use spl_rust.Mux.Events
use spl_rust.Mux.Events.{
  StreamItem, StreamEvent, ended, protocol_error, flow_control_error, unspecified, from_payload,
}
use spl_rust.Mux.Assembler.{AssemblerOutput, close_assembler}
use spl_rust.Mux.Assembler.Costs.{costs, IsSearching}
use spl_rust.Mux.Carrier.{
  CarrierStream, CarrierDemux, DemuxOutput, update_stream, frame_violation, without_windows,
  push_emitted, reject_attributable, handle_control, refuse_overrun, close_known, finish_data,
  consume_known, handle_window,
}
use spl_rust.Mux.Carrier.Accounts.{
  owed, owed-append, owed-tagged, IsSound, same-IsSound, update_stream-IsSound, forget_uncosted,
  IsSoundApart, sound_apart, ledger, Keeps, stops-Keeps, emit_cases, end_stream-Keeps,
  expect_stream_intro, update_stream_here,
}

module _ (base : ℕ → ℕ) where
  pub reject_attributable-Keeps :
      (d : CarrierDemux) (out : DemuxOutput) (f : Frame)
      → IsSound d (ledger base out)
      → Keeps base (reject_attributable d out f)
  unfolding reject_attributable
  reject_attributable-Keeps d out f h = elim (Bool-cases (contains_key f.stream_id d.streams)) [
    | inl known ↦
        elim (emit_cases d (without_windows out f.stream_id)
          (Frame.reset f.stream_id reset_protocol_error)) [
            | inl (bytes, sent) ↦
                rw (known, sent, reject_attributable)
                  (rw known (
                    forget_uncosted base d out f.stream_id (ended (Events.reset protocol_error))
                      (sound_apart d f.stream_id (ledger base out) h)))
            | inr (e, unsent) ↦ rw (known, unsent, reject_attributable) (stops-Keeps base d out e h)
          ]
    | inr unknown ↦ elim (emit_cases d out (Frame.reset f.stream_id reset_protocol_error)) [
      | inl (bytes, sent) ↦ rw (unknown, sent, reject_attributable) (rw unknown h)
      | inr (e, unsent) ↦ rw (unknown, unsent, reject_attributable) (stops-Keeps base d out e h)
    ]
  ]

  pub refuse_overrun-Keeps :
      (d : CarrierDemux) (out : DemuxOutput) (stream_id : ℕ)
      → IsSound d (ledger base out)
      → Keeps base (refuse_overrun d out stream_id)
  unfolding refuse_overrun
  refuse_overrun-Keeps d out stream_id h =
      elim (emit_cases d (without_windows out stream_id)
        (Frame.reset stream_id reset_flow_control_error)) [
          | inl (bytes, sent) ↦
              rw (sent, refuse_overrun)
                (forget_uncosted base d out stream_id (ended (Events.reset flow_control_error))
                  (sound_apart d stream_id (ledger base out) h))
          | inr (e, unsent) ↦ rw (unsent, refuse_overrun) (stops-Keeps base d out e h)
        ]

  pub handle_control-Keeps :
      (d : CarrierDemux) (out : DemuxOutput) (f : Frame)
      → IsSound d (ledger base out)
      → Keeps base (handle_control d out f)
  unfolding handle_control
  handle_control-Keeps d out f h = elim (Option-cases (control_pong f)) [
    | inr (pong, answer) ↦ elim (Result-cases (encode pong)) [
      | inl (bytes, e) ↦ rw (answer, e, handle_control) h
      | inr (fault, e) ↦
          rw (answer, e, handle_control) (stops-Keeps base d out (frame_error fault) h)
    ]
    | inl quiet ↦ elim (Option-cases (control_pong_nonce f)) [
      | inr (nonce, e) ↦ rw (quiet, e, handle_control) h
      | inl e ↦
          rw (quiet, e, handle_control)
            (stops-Keeps base (record d { fatal_violation = some (frame_violation f) }) out
              (protocol (frame_violation f)) h)
    ]
  ]

  pub handle_window-Keeps :
      (d : CarrierDemux) (out : DemuxOutput) (f : Frame)
      → IsSound d (ledger base out)
      → Keeps base (handle_window d out f)
  unfolding handle_window
  handle_window-Keeps d out f h = elim (Option-cases (window_credit f)) [
    | inl e ↦ rw (e, handle_window) (reject_attributable-Keeps d out f h)
    | inr (credit, e) ↦ rw (e, handle_window) h
  ]

  -- The events of one stream, put behind those given out before.
  events_ledger :
      (out : DemuxOutput) (stream_id k : ℕ) (events : List StreamEvent)
      → owed k (out.stream_events ++ map (λ e. (stream_id, e)) events)
        ≡ owed k out.stream_events + (if stream_id == k then costs events else 0)
  events_ledger out stream_id k events = omega (
    arith,
    owed-append k out.stream_events (map (λ e. (stream_id, e)) events),
    owed-tagged stream_id k events,
  )

  finish_data-Keeps :
      (d : CarrierDemux) (out : DemuxOutput) (f : Frame) (s : CarrierStream)
      (events : List StreamEvent)
      → lookup f.stream_id d.streams ≡ some s
      → IsSound d (λ k. ledger base out k + (if f.stream_id == k then costs events else 0))
      → Keeps base (finish_data d out f events)
  unfolding finish_data
  finish_data-Keeps d out f s events here h =
      if_intro (Keeps base) (f.flags == bit_or flag_data flag_close)
        (λ _. expect_stream_intro (Keeps base) d f.stream_id (close_known d out' f) s here (
          unfold close_known in
          end_stream-Keeps base d out' f.stream_id (close_assembler s.assembler).0
            (sound_apart d f.stream_id (ledger base out') after)))
        (λ _. after)
    where
      out' : DemuxOutput
      out' = record out { stream_events = out.stream_events ++ map (λ e. (f.stream_id, e)) events }

      after : IsSound d (ledger base out')
      after =
          same-IsSound d _ (ledger base out') h
            (λ k. omega (arith, events_ledger out f.stream_id k events))

  -- The window gives up what the assembler consumed at once, which is outstanding.
  pub consume_known-Keeps :
      (d : CarrierDemux) (out : DemuxOutput) (f : Frame) (s : CarrierStream)
      (assembled : AssemblerOutput)
      → IsSoundApart d f.stream_id (ledger base out)
      → IsBalanced s.recv_window
      → s.assembler.pending_body_wire
          + (costs assembled.events + assembled.auto_consumed)
          + ledger base out f.stream_id
        ≡ outstanding s.recv_window
      → IsSearching s.assembler
      → Keeps base (consume_known d out f assembled s)
  unfolding consume_known
  consume_known-Keeps d out f s assembled h v e seeks =
      elim (consume_cases s.recv_window assembled.auto_consumed v) [
        | inl (more, _) ↦ let never : ⊥ = omega (arith, more, e) in elim never [ ]
        | inr (none, w, c, balanced, left, _, _) ↦
            rw (c, consume_known)
              (finish_data-Keeps _ out f _ assembled.events (there w) (after w balanced left))
        | inr (some g, w, c, balanced, left, _, _) ↦
            elim (emit_cases (with_window w) out (window f.stream_id g)) [
              | inl (bytes, sent) ↦
                  rw (c, sent, consume_known)
                    (finish_data-Keeps _ (push_emitted out bytes) f _ assembled.events (there w)
                      (after w balanced left))
              | inr (e, unsent) ↦
                  rw (c, unsent, consume_known)
                    (
                      λ k. owed k out.stream_events + events_cost k,
                      same-IsSound (with_window w) _ _ (after w balanced left) (λ k. omega arith),
                    )
            ]
      ]
    where
      with_window : RecvWindow → CarrierDemux
      with_window w = update_stream d f.stream_id (record s { recv_window = w })

      there :
          (w : RecvWindow)
          → lookup f.stream_id (with_window w).streams ≡ some (record s { recv_window = w })
      there w = update_stream_here d f.stream_id (record s { recv_window = w })

      events_cost : ℕ → ℕ
      events_cost k = if f.stream_id == k then costs assembled.events else 0

      after :
          (w : RecvWindow)
          → IsBalanced w
          → outstanding w + assembled.auto_consumed ≡ outstanding s.recv_window
          → IsSound
              (with_window w)
              (λ k. ledger base out k + (if f.stream_id == k then costs assembled.events else 0))
      after w balanced left =
          update_stream-IsSound d f.stream_id _ (ledger base out) _ h
            (record { balanced = balanced; covered = ground (arith, left, e); searching = seeks })
            (λ k miss. ground (arith, miss))
