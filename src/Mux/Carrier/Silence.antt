-- ===== src/Mux/Carrier/Silence.antt =====
-- The frame handlers of `CarrierDemux` of crates/spl-core/src/mux.rs and the WINDOW frames they emit.
use spl_rust.Base.{
  ℕ, ◌≡◌, ◌<◌, ◌^◌, inl, inr, bit_or, not, ◌||◌, List, [], ◌∷◌, none, Option-cases, Result-cases,
  ◌==◌, length, if_intro, All,
}
use spl_rust.Base.Assoc.{lookup, contains_key}
use spl_rust.Frame.{
  Frame, flags_valid, has_flag, flag_open, flag_data, flag_close, flag_reset, flag_window,
  flag_ping, flag_pong, window_credit,
}
use spl_rust.Mux.{debit}
use spl_rust.Mux.Events
use spl_rust.Mux.Events.{StreamItem, StreamEvent, ended, unspecified}
use spl_rust.Mux.Assembler.{feed_data}
use spl_rust.Mux.Carrier.{
  CarrierStream, CarrierDemux, DemuxOutput, no_demux_output, proceeds, update_stream,
  reject_attributable, close_known, reset_known, consume_known, consume_data, is_local,
  assemble_known, assemble_data, debit_known, handle_data, handle_window, handle_known,
  handle_unknown, handle_frame, handle_frames,
}
use spl_rust.Mux.Carrier.Accounts.{Handled-cases}
use spl_rust.Mux.Carrier.Windows.{
  IsSilent, Silences, update-IsSilent, IsWindowFor, IsFreeOf-IsWindowFor,
}
use spl_rust.Mux.Carrier.Quiet.{
  end_stream-Silences, reject_attributable-Silences, refuse_overrun-Silences,
  handle_control-Silences, expect_stream-Silences, consume_known-Silences,
}

module _ (lossy : List ℕ → List ℕ) where
  assemble_known-Silences :
      (d : CarrierDemux) (out : DemuxOutput) (f : Frame) (s : CarrierStream)
      → f.stream_id < 2 ^ 32
      → IsSilent d out.emit_frames
      → Silences (assemble_known lossy d out f s)
  unfolding assemble_known consume_data
  assemble_known-Silences d out f s small h =
      elim (Result-cases (feed_data lossy s.assembler f.payload).0) [
        | inl (assembled, fed) ↦
            rw (fed, assemble_known)
              (expect_stream-Silences after f.stream_id (consume_known after out f assembled)
                (λ t _. consume_known-Silences after out f assembled t small silent))
        | inr (fault, refused) ↦
            rw (refused, assemble_known)
              (if_intro Silences (is_local fault)
                (λ _.
                  end_stream-Silences after out f.stream_id (ended (Events.reset unspecified))
                    silent)
                (λ _. tt))
      ]
    where
      after : CarrierDemux
      after =
          update_stream d f.stream_id
            (record s { assembler = (feed_data lossy s.assembler f.payload).1 })

      silent : IsSilent after out.emit_frames
      silent = update-IsSilent d f.stream_id _ out.emit_frames h

  handle_data-Silences :
      (d : CarrierDemux) (out : DemuxOutput) (f : Frame)
      → f.stream_id < 2 ^ 32
      → IsSilent d out.emit_frames
      → Silences (handle_data lossy d out f)
  unfolding handle_data debit_known assemble_data
  handle_data-Silences d out f small h =
      expect_stream-Silences d f.stream_id (debit_known lossy d out f) (λ s _.
        elim (Result-cases (debit s.recv_window (length f.payload))) [
          | inr (_, over) ↦ rw (over, debit_known) (refuse_overrun-Silences d out f.stream_id h)
          | inl (w, fits) ↦
              let paid = update_stream d f.stream_id (record s { recv_window = w }) in
              rw (fits, debit_known)
                (expect_stream-Silences paid f.stream_id (assemble_known lossy paid out f) (λ t _.
                  assemble_known-Silences paid out f t small
                    (update-IsSilent d f.stream_id _ out.emit_frames h)))
        ])

  handle_window-Silences :
      (d : CarrierDemux) (out : DemuxOutput) (f : Frame)
      → IsSilent d out.emit_frames
      → Silences (handle_window d out f)
  unfolding handle_window
  handle_window-Silences d out f h = elim (Option-cases (window_credit f)) [
    | inl e ↦ rw (e, handle_window) (reject_attributable-Silences d out f h)
    | inr (credit, e) ↦ rw (e, handle_window) h
  ]

  handle_known-Silences :
      (d : CarrierDemux) (out : DemuxOutput) (f : Frame)
      → f.stream_id < 2 ^ 32
      → IsSilent d out.emit_frames
      → Silences (handle_known lossy d out f)
  unfolding handle_known reset_known close_known
  handle_known-Silences d out f small h =
      if_intro Silences (f.flags == flag_reset)
        (λ _.
          expect_stream-Silences d f.stream_id (reset_known d out f)
            (λ s _. end_stream-Silences d out f.stream_id _ h))
        (λ _.
          if_intro Silences (f.flags == flag_close)
            (λ _.
              expect_stream-Silences d f.stream_id (close_known d out f)
                (λ s _. end_stream-Silences d out f.stream_id _ h))
            (λ _.
              if_intro Silences (f.flags == flag_data || f.flags == bit_or flag_data flag_close)
                (λ _. handle_data-Silences d out f small h)
                (λ _.
                  if_intro Silences (f.flags == flag_window) (λ _. handle_window-Silences d out f h)
                    (λ _. tt))))

  handle_frame-Silences :
      (d : CarrierDemux) (out : DemuxOutput) (f : Frame)
      → f.stream_id < 2 ^ 32
      → IsSilent d out.emit_frames
      → Silences (handle_frame lossy d out f)
  unfolding handle_frame handle_unknown
  handle_frame-Silences d out f small h =
      if_intro Silences (f.stream_id == 0) (λ _. handle_control-Silences d out f h)
        (λ _.
          if_intro Silences (not (flags_valid f.flags)) (λ _. refusal)
            (λ _.
              if_intro Silences (has_flag f.flags flag_open) (λ _. refusal)
                (λ _.
                  if_intro Silences (f.flags == flag_ping || f.flags == flag_pong) (λ _. refusal)
                    (λ _.
                      if_intro Silences (contains_key f.stream_id d.streams)
                        (λ _. handle_known-Silences d out f small h)
                        (λ _.
                          if_intro Silences (has_flag f.flags flag_data || f.flags == flag_window)
                            (λ _. refusal) (λ _. h))))))
    where
      refusal : Silences (reject_attributable d out f)
      refusal = reject_attributable-Silences d out f h

  handle_frames-Silences :
      (d : CarrierDemux) (out : DemuxOutput) (fs : List Frame)
      → All (λ (f : Frame). f.stream_id < 2 ^ 32) fs
      → IsSilent d out.emit_frames
      → Silences (handle_frames lossy d out fs)
  unfolding handle_frames
  handle_frames-Silences d out [] small h = h
  handle_frames-Silences d out (f ∷ fs) small h =
      let silent = handle_frame-Silences d out f small.0 h in
      elim (Handled-cases (handle_frame lossy d out f)) [
        | inl (out', d', e) ↦
            let sound : IsSilent d' out'.emit_frames = rw e at silent in
            rw (e, handle_frames) (handle_frames-Silences d' out' fs small.1 sound)
        | inr (inl (fault, d', e)) ↦ rw (e, handle_frames) tt
        | inr (inr e) ↦ rw (e, handle_frames) tt
      ]

-- After frames with 32-bit stream ids are handled without an error, nothing that is to be emitted
-- is the encoding of a WINDOW frame for a stream that is not live any more.
pub no_late_window :
    (lossy : List ℕ → List ℕ) (d d' : CarrierDemux) (fs : List Frame) (out : DemuxOutput) (k : ℕ)
    → All (λ (f : Frame). f.stream_id < 2 ^ 32) fs
    → handle_frames lossy d no_demux_output fs ≡ proceeds out d'
    → lookup k d'.streams ≡ none
    → k < 2 ^ 32
    → All (λ (bytes : List ℕ). ¬ IsWindowFor k bytes) out.emit_frames
no_late_window lossy d d' fs out k small e gone is_id =
    IsFreeOf-IsWindowFor k out.emit_frames is_id
      ((rw e at (handle_frames-Silences lossy d no_demux_output fs small (λ _ _. tt))) k gone)
