-- ===== src/Mux/Carrier/Routing.antt =====
-- DATA and the dispatch of frames in `CarrierDemux::feed` of crates/spl-core/src/mux.rs keep the ledger
-- of wire bytes, and no panic is reached.
use spl_rust.Base.{
  ℕ, ◌+◌, ◌≡◌, true, false, inl, inr, arith, bit_or, not, ◌||◌, List, [], ◌∷◌, some, Option-cases,
  Result-cases, ◌==◌, length, if_intro,
}
use spl_rust.Base.Assoc.{lookup, contains_key, contains_key-some}
use spl_rust.Frame.{
  Frame, FrameDecoder, encode, drain, flags_valid, has_flag, flag_open, flag_data, flag_close,
  flag_reset, flag_window, flag_ping, flag_pong, window, window_credit, control_pong,
  control_pong_nonce, reset_flow_control_error, reset_protocol_error,
}
use spl_rust.Frame
use spl_rust.Mux.{RecvWindow}
use spl_rust.Mux.Credit.{IsBalanced, outstanding, debit_cases}
use spl_rust.Mux.Events
use spl_rust.Mux.Events.{
  StreamItem, StreamEvent, ended, protocol_error, flow_control_error, unspecified, from_payload,
}
use spl_rust.Mux.Assembler.{HttpStreamAssembler, feed_data}
use spl_rust.Mux.Assembler.Costs.{feed_data-Outcome, Outcome-cases, IsSearching}
use spl_rust.Mux.Carrier.{
  CarrierStream, CarrierDemux, DemuxOutput, no_demux_output, update_stream, Handled, end_stream,
  reject_attributable, expect_stream, close_known, reset_known, consume_known, consume_data,
  assemble_known, assemble_data, debit_known, handle_data, handle_known, handle_unknown,
  handle_frame, handle_frames, feed,
}
use spl_rust.Mux.Carrier.Accounts.{
  Handled-cases, owed, IsAccounted, IsSound, same-IsSound, IsSoundApart, sound_apart,
  update_stream-IsSoundApart, ledger, Keeps, end_stream-Keeps, expect_stream_intro,
  update_stream_here, window_only,
}
use spl_rust.Mux.Carrier.Handlers.{
  reject_attributable-Keeps, refuse_overrun-Keeps, handle_control-Keeps, handle_window-Keeps,
  consume_known-Keeps,
}

module _ (base : ℕ → ℕ) where
  module _ (lossy : List ℕ → List ℕ) where
    assemble_known-Keeps :
        (d : CarrierDemux) (out : DemuxOutput) (f : Frame) (s : CarrierStream)
        → IsSoundApart d f.stream_id (ledger base out)
        → IsBalanced s.recv_window
        → s.assembler.pending_body_wire + length f.payload + ledger base out f.stream_id
          ≡ outstanding s.recv_window
        → IsSearching s.assembler
        → Keeps base (assemble_known lossy d out f s)
    unfolding assemble_known consume_data
    assemble_known-Keeps d out f s h v e seeks =
        elim (Outcome-cases s.assembler.pending_body_wire (length f.payload)
          (feed_data lossy s.assembler f.payload)
          (feed_data-Outcome lossy s.assembler f.payload seeks)) [
            | inl (assembled, a, c, kept, still) ↦
                rw (c, assemble_known)
                  (rw c (
                    expect_stream_intro (Keeps base) (after a) f.stream_id
                      (consume_known (after a) out f assembled) (record s { assembler = a })
                      (update_stream_here d f.stream_id (record s { assembler = a }))
                      (consume_known-Keeps base (after a) out f (record s { assembler = a })
                        assembled (apart a) v (omega (arith, kept, e)) still)))
            | inr (fault, a, c, local) ↦
                rw (c, assemble_known)
                  (rw (local, c)
                    (end_stream-Keeps base (after a) out f.stream_id
                      (ended (Events.reset unspecified)) (apart a)))
          ]
      where
        after : HttpStreamAssembler → CarrierDemux
        after a = update_stream d f.stream_id (record s { assembler = a })

        apart : (a : HttpStreamAssembler) → IsSoundApart (after a) f.stream_id (ledger base out)
        apart a = update_stream-IsSoundApart d f.stream_id _ (ledger base out) h

    debit_known-Keeps :
        (d : CarrierDemux) (out : DemuxOutput) (f : Frame) (s : CarrierStream)
        → IsSound d (ledger base out)
        → IsAccounted s (ledger base out f.stream_id)
        → Keeps base (debit_known lossy d out f s)
    unfolding debit_known assemble_data
    debit_known-Keeps d out f s h a =
        elim (debit_cases s.recv_window (length f.payload) a.balanced) [
          | inl (_, over) ↦ rw (over, debit_known) (refuse_overrun-Keeps base d out f.stream_id h)
          | inr (w, fits, balanced, more) ↦
              rw (fits, debit_known)
                (expect_stream_intro (Keeps base) (paid w) f.stream_id
                  (assemble_known lossy (paid w) out f) (record s { recv_window = w })
                  (update_stream_here d f.stream_id (record s { recv_window = w }))
                  (assemble_known-Keeps (paid w) out f (record s { recv_window = w }) (apart w)
                    balanced (omega (arith, more, a.covered)) a.searching))
        ]
      where
        paid : RecvWindow → CarrierDemux
        paid w = update_stream d f.stream_id (record s { recv_window = w })

        apart : (w : RecvWindow) → IsSoundApart (paid w) f.stream_id (ledger base out)
        apart w =
            update_stream-IsSoundApart d f.stream_id _ (ledger base out)
              (sound_apart d f.stream_id (ledger base out) h)

    -- A frame whose flags have passed the tests before, for a stream that is there.
    handle_known-Keeps :
        (d : CarrierDemux) (out : DemuxOutput) (f : Frame) (s : CarrierStream)
        → lookup f.stream_id d.streams ≡ some s
        → flags_valid f.flags ≡ true
        → has_flag f.flags flag_open ≡ false
        → (f.flags == flag_ping || f.flags == flag_pong) ≡ false
        → IsSound d (ledger base out)
        → Keeps base (handle_known lossy d out f)
    unfolding handle_known handle_data
    handle_known-Keeps d out f s here valid unopened uncontrolled h =
        if_intro (Keeps base) (f.flags == flag_reset)
          (λ _. expected (reset_known d out f) (unfold reset_known in ends _))
          (λ r.
            if_intro (Keeps base) (f.flags == flag_close)
              (λ _. expected (close_known d out f) (unfold close_known in ends _))
              (λ c.
                if_intro (Keeps base)
                  (f.flags == flag_data || f.flags == bit_or flag_data flag_close)
                  (λ _.
                    expected (debit_known lossy d out f)
                      (debit_known-Keeps d out f s h (h f.stream_id s here)))
                  (λ n.
                    let last = window_only f.flags valid unopened uncontrolled r c n in
                    rw last (handle_window-Keeps base d out f h))))
      where
        expected :
            (rest : CarrierStream → Handled DemuxOutput)
            → Keeps base (rest s)
            → Keeps base (expect_stream d f.stream_id rest)
        expected rest p = expect_stream_intro (Keeps base) d f.stream_id rest s here p

        ends : (item : StreamItem) → Keeps base (end_stream d out f.stream_id item)
        ends item =
            end_stream-Keeps base d out f.stream_id item
              (sound_apart d f.stream_id (ledger base out) h)

    -- Any frame on any stream keeps the ledger, and no handler panics.
    pub handle_frame-Keeps :
        (d : CarrierDemux) (out : DemuxOutput) (f : Frame)
        → IsSound d (ledger base out)
        → Keeps base (handle_frame lossy d out f)
    unfolding handle_frame handle_unknown
    handle_frame-Keeps d out f h =
        if_intro (Keeps base) (f.stream_id == 0) (λ _. handle_control-Keeps base d out f h)
          (λ _.
            if_intro (Keeps base) (not (flags_valid f.flags)) (λ _. refusal)
              (λ valid.
                if_intro (Keeps base) (has_flag f.flags flag_open) (λ _. refusal)
                  (λ unopened.
                    if_intro (Keeps base) (f.flags == flag_ping || f.flags == flag_pong)
                      (λ _. refusal)
                      (λ uncontrolled.
                        if_intro (Keeps base) (contains_key f.stream_id d.streams)
                          (λ known.
                            let (s, here) = contains_key-some f.stream_id d.streams known in
                            handle_known-Keeps d out f s here (ground arith) unopened uncontrolled
                              h)
                          (λ _.
                            if_intro (Keeps base)
                              (has_flag f.flags flag_data || f.flags == flag_window) (λ _. refusal)
                              (λ _. h))))))
      where
        refusal : Keeps base (reject_attributable d out f)
        refusal = reject_attributable-Keeps base d out f h

    pub handle_frames-Keeps :
        (d : CarrierDemux) (out : DemuxOutput) (fs : List Frame)
        → IsSound d (ledger base out)
        → Keeps base (handle_frames lossy d out fs)
    unfolding handle_frames
    handle_frames-Keeps d out [] h = h
    handle_frames-Keeps d out (f ∷ fs) h =
        let kept = handle_frame-Keeps d out f h in
        elim (Handled-cases (handle_frame lossy d out f)) [
          | inl (out', d', e) ↦
              let sound : IsSound d' (ledger base out') = rw e at kept in
              rw (e, handle_frames) (handle_frames-Keeps d' out' fs sound)
          | inr (inl (fault, d', e)) ↦ rw (e, handle_frames) (rw e at kept)
          | inr (inr e) ↦ rw (e, handle_frames) (rw e at kept)
        ]

    pub feed-Keeps :
        (d : CarrierDemux) (bytes : List ℕ) → IsSound d base → Keeps base (feed lossy d bytes)
    unfolding feed owed
    feed-Keeps d bytes h = elim (Option-cases d.fatal_violation) [
      | inr (v, dead) ↦ rw (dead, feed) (λ _. 0, same-IsSound d base _ h (λ k. omega arith))
      | inl alive ↦ elim (Result-cases (drain (Frame.feed d.decoder bytes)).0) [
        | inl (fs, decoded) ↦
            rw (alive, feed)
              (rw decoded (
                handle_frames-Keeps after no_demux_output fs
                  (same-IsSound after base _ h (λ k. omega arith))))
        | inr (fault, malformed) ↦
            rw (alive, feed) (rw malformed (λ _. 0, same-IsSound after base _ h (λ k. omega arith)))
      ]
    ]
      where
        after : CarrierDemux
        after = record d { decoder = (drain (Frame.feed d.decoder bytes)).1 }
