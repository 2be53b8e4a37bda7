-- ===== src/Mux/Upload/Polling.antt =====
-- `WindowedUpload::poll_send` of crates/spl-core/src/mux.rs, case by case.
use spl_rust.Base.{
  ℕ, ◌+◌, ◌≤◌, ◌<◌, ◌≡◌, refl, ◌⊎◌, inl, inr, arith, bit_and, bit_or, true, false, not, List, [],
  ◌++◌, none, some, ok, Bool-cases, le_or_lt, ltb, ◌==◌, length, if◌then◌else◌, if_intro,
}
use spl_rust.Frame.{
  Frame, encode, has_flag, flag_open, flag_data, flag_close, flag_reserved_mask, max_payload,
  recommended_chunk,
}
use spl_rust.Frame.Wire.{encode_split}
use spl_rust.Mux.Upload.{
  WindowedUpload, available, chunk_len, take_chunk, data_frame, close_frame, poll_frame,
  encode_polled, poll_send,
}
use spl_rust.Mux.Upload.Staged.{
  pending, IsStaged, length-pending, data_frame-takes, data_frame-stream_id, data_frame-opened,
  data_frame-SameUpload, SameUpload,
}

-- A frame of a legal length without the reserved flag is encoded.
encode_legal :
    (f : Frame)
    → length f.payload ≤ max_payload
    → has_flag f.flags flag_reserved_mask ≡ false
    → (bytes : List ℕ) × (encode f ≡ ok bytes)
encode_legal f h free = elim (encode_split f) [
  | inl (long, _) ↦ absurd (omega arith)
  | inr (inl (_, reserved, _)) ↦ cc
  | inr (inr (_, (bytes, e, _))) ↦ (bytes, e)
]

data_frame-flags : (u : WindowedUpload) → has_flag (data_frame u).0.flags flag_reserved_mask ≡ false
unfolding data_frame has_flag
data_frame-flags u =
    if_intro (λ (flags : ℕ). not (bit_and flags flag_reserved_mask == 0) ≡ false)
      (take_chunk u (chunk_len u)).1.opened (λ _. refl) (λ _. refl)

data_frame-opens : (u : WindowedUpload) → (data_frame u).1.opened ≡ true
unfolding data_frame
data_frame-opens u = refl

-- Something is sent: one DATA frame with the first staged bytes, paid for out of the credit.
abbrev pub Sends : WindowedUpload → Type 0
Sends u =
    (f : Frame) × (bytes : List ℕ) × (u' : WindowedUpload) × (encode f ≡ ok bytes)
    × (poll_frame u ≡ (some f, u'))
    × (poll_send u ≡ (ok (some bytes), u'))
    × IsStaged u'
    × (f.payload ++ pending u' ≡ pending u)
    × (0 < length f.payload)
    × (length f.payload ≤ recommended_chunk)
    × (u'.send_credit + length f.payload ≡ u.send_credit)
    × (f.stream_id ≡ u.stream_id)
    × SameUpload u u'
    × (f.flags ≡ (if u.opened then flag_data else bit_or flag_open flag_data))
    × (u'.opened ≡ true)

send_data : (u : WindowedUpload) → IsStaged u → 0 < available u → 0 < u.send_credit → Sends u
send_data u v some_left credit =
    let (kept, split, pos, short, paid) = data_frame-takes u v some_left credit in
    let (bytes, e) = encode_legal (data_frame u).0 (omega (arith, short)) (data_frame-flags u) in
    let polled : poll_frame u ≡ (some (data_frame u).0, (data_frame u).1) =
      unfold poll_frame in ground arith in
    (
      (data_frame u).0,
      bytes,
      (data_frame u).1,
      e,
      polled,
      unfold poll_send encode_polled in rw (polled, e, encode_polled) refl,
      kept,
      split,
      pos,
      short,
      paid,
      data_frame-stream_id u,
      data_frame-SameUpload u,
      data_frame-opened u,
      data_frame-opens u,
    )

-- Nothing is staged any more: the half-close goes out once, when the declared body is complete.
abbrev pub Closes : WindowedUpload → Type 0
Closes u =
    (f : Frame) × (bytes : List ℕ) × (encode f ≡ ok bytes)
    × (f ≡ record { stream_id = u.stream_id; flags = flag_close; payload = [] })
    × (poll_frame u ≡ (some f, record u { closed = true }))
    × (poll_send u ≡ (ok (some bytes), record u { closed = true }))
    × IsStaged (record u { closed = true })
    × (u.fed_body_len ≡ u.declared_body_len)
    × (u.closed ≡ false)

abbrev pub Idles : WindowedUpload → Type 0
Idles u =
    (poll_frame u ≡ (none, u))
    × (poll_send u ≡ (ok none, u))
    × ((u.closed ≡ true) ⊎ (u.fed_body_len < u.declared_body_len))

pub poll_send-none : (u : WindowedUpload) → poll_frame u ≡ (none, u) → poll_send u ≡ (ok none, u)
unfolding poll_send encode_polled
poll_send-none u e = rw (e, encode_polled) refl

module _ (u : WindowedUpload) (v : IsStaged u) (empty : available u ≡ 0) where
  pending-empty : length (pending u) ≡ 0
  pending-empty = ground (arith, length-pending u v.within_head, v.within_head)

  nothing_sent : ltb 0 (available u) ≡ false
  nothing_sent = rw empty refl

  send_close : u.closed ≡ false → u.fed_body_len ≡ u.declared_body_len → Closes u
  send_close still_open all_fed =
      let f : Frame = record { stream_id = u.stream_id; flags = flag_close; payload = [] } in
      let (bytes, e) = encode_legal f (omega arith) (unfold has_flag in refl) in
      let polled : poll_frame u ≡ (some f, record u { closed = true }) =
        unfold poll_frame close_frame in ground (arith, nothing_sent, v.counted, pending-empty) in
      (
        f,
        bytes,
        e,
        refl,
        polled,
        unfold poll_send encode_polled in rw (polled, e, encode_polled) refl,
        record {
          within_head = v.within_head;
          counted = v.counted;
          declared = v.declared;
          bounded = v.bounded;
          capped = v.capped;
          head_first = v.head_first;
          finished = inr (pending-empty, all_fed);
        },
        all_fed,
        still_open,
      )

  idle : (u.closed ≡ true) ⊎ (u.fed_body_len < u.declared_body_len) → Idles u
  idle why =
      let polled : poll_frame u ≡ (none, u) =
        unfold poll_frame close_frame in ground (arith, nothing_sent, why) in
      (polled, poll_send-none u polled, why)

  close_or_idle : Closes u ⊎ Idles u
  close_or_idle = elim (Bool-cases u.closed) [
    | inl shut ↦ inr (idle (inl shut))
    | inr still_open ↦ elim (le_or_lt u.declared_body_len u.fed_body_len) [
      | inl all ↦ inl (send_close still_open (omega (arith, v.declared)))
      | inr short ↦ inr (idle (inr short))
    ]
  ]

-- `poll_send` of a staged upload never fails: while bytes are staged it waits for credit, or sends
-- one DATA frame with the first of them, with OPEN exactly when the upload was not opened before,
-- pays its length and leaves the upload opened; with none staged it sends the CLOSE once, when the
-- declared body is complete, and otherwise changes nothing.
pub poll_send_cases :
    (u : WindowedUpload)
    → IsStaged u
    → ((0 < length (pending u)) × (u.send_credit ≡ 0) × (poll_send u ≡ (ok none, u)))
      ⊎ Sends u
      ⊎ ((length (pending u) ≡ 0) × (Closes u ⊎ Idles u))
poll_send_cases u v = elim (le_or_lt (available u) 0) [
  | inl none_left ↦
      let empty : available u ≡ 0 = omega arith in
      inr (inr (pending-empty u v empty, close_or_idle u v empty))
  | inr some_left ↦ elim (le_or_lt u.send_credit 0) [
    | inr credit ↦ inr (inl (send_data u v some_left credit))
    | inl broke ↦
        let no_credit : u.send_credit ≡ 0 = omega arith in
        inl (
          ground (arith, length-pending u v.within_head, v.within_head),
          no_credit,
          poll_send-none u (unfold poll_frame in ground arith),
        )
  ]
]
