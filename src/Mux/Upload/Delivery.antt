-- ===== src/Mux/Upload/Delivery.antt =====
-- Whole uploads through `WindowedUpload` (crates/spl-core/src/mux.rs): any order of feeding, granting
-- and polling, and what the peer reads.
use spl_rust.Base.{
  ℕ, ◌+◌, ◌^◌, ◌<◌, ◌≡◌, refl, sym, ap, ◌∙◌, inl, inr, arith, true, List, [], ◌∷◌, ◌++◌, flatten,
  none, some, ok, length, length-append, append_assoc, append-nil,
}
use spl_rust.Frame.{Frame, encode, new_decoder}
use spl_rust.Frame.Reframe.{feed_chunks}
use spl_rust.Frame.Stream.{Encodes, feed_chunks-Encodes}
use spl_rust.Mux.{initial_window}
use spl_rust.Mux.Upload.{WindowedUpload, new_upload, feed_body, grant, poll_send}
use spl_rust.Mux.Upload.Staged.{
  pending, IsStaged, new_upload-IsStaged, feed_body-IsStaged, feed_body-SameStream, grant-IsStaged,
  grant-SameUpload, nil_of_length,
}
use spl_rust.Mux.Upload.Polling.{Sends, Closes, poll_send_cases}

-- What went in and out of an upload so far.
pub record Log : Type 0 where
  pub fed : List ℕ
  pub wire : List ℕ
  pub granted : ℕ

abbrev pub nothing_yet : Log
nothing_yet = record { fed = []; wire = []; granted = 0 }

-- The uploads that a transport can reach, with their logs.
pub data Uploads (stream_id : ℕ) (head : List ℕ) (declared : ℕ)
    : WindowedUpload → Log → Type 0 where
  started : Uploads stream_id head declared (new_upload stream_id head declared) nothing_yet
  fed :
      {u u' : WindowedUpload} {l : Log}
      → Uploads stream_id head declared u l
      → (bytes : List ℕ) → feed_body u bytes ≡ ok u'
      → Uploads stream_id head declared u' (record l { fed = l.fed ++ bytes })
  granted :
      {u u' : WindowedUpload} {l : Log}
      → Uploads stream_id head declared u l
      → (credit : ℕ) → grant u credit ≡ ok u'
      → Uploads stream_id head declared u' (record l { granted = l.granted + credit })
  polled :
      {u u' : WindowedUpload} {l : Log}
      → Uploads stream_id head declared u l
      → (bytes : List ℕ) → poll_send u ≡ (ok (some bytes), u')
      → Uploads stream_id head declared u' (record l { wire = l.wire ++ bytes })

unfoldable pub payloads : List Frame → List ℕ
payloads [] = []
payloads (f ∷ fs) = f.payload ++ payloads fs

payloads-append : (fs : List Frame) (f : Frame) → payloads (fs ++ f ∷ []) ≡ payloads fs ++ f.payload
unfolding payloads
payloads-append [] f = append-nil f.payload
payloads-append (g ∷ fs) f =
    rw (payloads-append fs f) (sym (append_assoc g.payload (payloads fs) f.payload))

Encodes-append :
    (fs : List Frame) (f : Frame) (bytes b : List ℕ)
    → Encodes fs bytes
    → f.stream_id < 2 ^ 32
    → encode f ≡ ok b
    → Encodes (fs ++ f ∷ []) (bytes ++ b)
Encodes-append [] f bytes b v fits e = (b, [], fits, e, rw (v, append-nil b) refl, refl)
Encodes-append (g ∷ fs) f bytes b (b', rest, fits', e', eq, v) fits e =
    (b', rest ++ b, fits', e', rw eq (append_assoc b' rest b), Encodes-append fs f rest b v fits e)

-- The frames `fs` that went out hold what was fed, in order, and were paid for.
pub record IsDelivered (stream_id : ℕ) (head : List ℕ) (declared : ℕ) (u : WindowedUpload) (l : Log)
    (fs : List Frame) : Type 0 where
  pub staged : IsStaged u
  pub same_stream : u.stream_id ≡ stream_id
  pub same_length : u.declared_body_len ≡ declared
  pub counted : length l.fed ≡ u.fed_body_len
  pub written : Encodes fs l.wire
  pub in_order : payloads fs ++ pending u ≡ head ++ l.fed
  pub paid : length (payloads fs) + u.send_credit ≡ initial_window + l.granted

module _ (stream_id : ℕ) (head : List ℕ) (declared : ℕ) (id_fits : stream_id < 2 ^ 32) where
  abbrev Delivers : WindowedUpload → Log → Type 0
  Delivers u l = (fs : List Frame) × IsDelivered stream_id head declared u l fs

  Sends-Delivers :
      (u : WindowedUpload) (l : Log) (fs : List Frame)
      → IsDelivered stream_id head declared u l fs
      → (s : Sends u) → Delivers s.2 (record l { wire = l.wire ++ s.1 })
  Sends-Delivers u l fs d (f, b, u', e, _, _, kept, split, _, _, paid, id, same, _, _) = (
    fs ++ f ∷ [],
    record {
      staged = kept;
      same_stream = same.0 ∙ d.same_stream;
      same_length = same.1 ∙ d.same_length;
      counted = d.counted ∙ sym same.2;
      written = Encodes-append fs f l.wire b d.written (rw (id, d.same_stream) id_fits) e;
      in_order =
          ap (λ xs. xs ++ pending u') (payloads-append fs f)
          ∙ append_assoc (payloads fs) f.payload (pending u')
          ∙ ap (λ xs. payloads fs ++ xs) split
          ∙ d.in_order;
      paid = omega (
        arith,
        ap length (payloads-append fs f),
        length-append (payloads fs) f.payload,
        d.paid,
        paid,
      );
    },
  )

  Closes-Delivers :
      (u : WindowedUpload) (l : Log) (fs : List Frame)
      → IsDelivered stream_id head declared u l fs
      → (c : Closes u) → Delivers (record u { closed = true }) (record l { wire = l.wire ++ c.1 })
  Closes-Delivers u l fs d (f, b, e, shape, _, _, kept, _, _) = (
    fs ++ f ∷ [],
    record {
      staged = kept;
      same_stream = d.same_stream;
      same_length = d.same_length;
      counted = d.counted;
      written =
          Encodes-append fs f l.wire b d.written
            (rw (ap (λ (g : Frame). g.stream_id) shape, d.same_stream) id_fits) e;
      in_order = ap (λ xs. xs ++ pending u) same_payloads ∙ d.in_order;
      paid = omega (arith, ap length same_payloads, d.paid);
    },
  )
    where
      same_payloads : payloads (fs ++ f ∷ []) ≡ payloads fs
      same_payloads =
          payloads-append fs f ∙ rw (ap (λ (g : Frame). g.payload) shape) (append-nil (payloads fs))

  polled-Delivers :
      (u : WindowedUpload) (l : Log) (bytes : List ℕ) {u' : WindowedUpload}
      → Delivers u l
      → poll_send u ≡ (ok (some bytes), u')
      → Delivers u' (record l { wire = l.wire ++ bytes })
  polled-Delivers u l bytes {u'} (fs, d) e = elim (poll_send_cases u d.staged) [
    | inl (_, _, waits) ↦
        let never : (ok none, u) ≡ (ok (some bytes), u') = sym waits ∙ e in absurd (cc never)
    | inr (inl s) ↦
        let same : s.2 ≡ u' = cc (s.5, e) in
        let sent : s.1 ≡ bytes = cc (s.5, e) in rw (← same, ← sent) (Sends-Delivers u l fs d s)
    | inr (inr (_, inl c)) ↦
        let same : record u { closed = true } ≡ u' = cc (c.5, e) in
        let sent : c.1 ≡ bytes = cc (c.5, e) in rw (← same, ← sent) (Closes-Delivers u l fs d c)
    | inr (inr (_, inr (_, waits, _))) ↦
        let never : (ok none, u) ≡ (ok (some bytes), u') = sym waits ∙ e in absurd (cc never)
  ]

  -- However an upload on a 32-bit stream id is fed, granted and polled, what is on the wire is the
  -- encodings of frames whose payloads, with what is still staged, are the head and the fed body in
  -- order; and their length and the credit left make the initial window and all that was granted.
  pub Uploads-Delivers :
      {u : WindowedUpload} {l : Log} → Uploads stream_id head declared u l → Delivers u l
  unfolding payloads
  Uploads-Delivers started = (
    [],
    record {
      staged = new_upload-IsStaged stream_id head declared;
      same_stream = refl;
      same_length = refl;
      counted = refl;
      written = refl;
      in_order = refl;
      paid = omega arith;
    },
  )
  Uploads-Delivers (fed {u = u} {l = l} r bytes e) =
      let (fs, d) = Uploads-Delivers r in
      let (kept, longer, credit) = feed_body-IsStaged u bytes d.staged e in
      let (same_id, same_len, more) = feed_body-SameStream u bytes e in
      (
        fs,
        record {
          staged = kept;
          same_stream = same_id ∙ d.same_stream;
          same_length = same_len ∙ d.same_length;
          counted = omega (arith, d.counted, more, length-append l.fed bytes);
          written = d.written;
          in_order =
              ap (λ xs. payloads fs ++ xs) longer
              ∙ sym (append_assoc (payloads fs) (pending u) bytes)
              ∙ ap (λ xs. xs ++ bytes) d.in_order
              ∙ append_assoc head l.fed bytes;
          paid = omega (arith, d.paid, credit);
        },
      )
  Uploads-Delivers (granted {u = u} {l = l} r credit e) =
      let (fs, d) = Uploads-Delivers r in
      let (kept, same, more) = grant-IsStaged u credit d.staged e in
      let (same_id, same_len, same_fed) = grant-SameUpload u credit e in
      (
        fs,
        record {
          staged = kept;
          same_stream = same_id ∙ d.same_stream;
          same_length = same_len ∙ d.same_length;
          counted = d.counted ∙ sym same_fed;
          written = d.written;
          in_order = ap (λ xs. payloads fs ++ xs) same ∙ d.in_order;
          paid = omega (arith, d.paid, more);
        },
      )
  Uploads-Delivers (polled {u = u} {l = l} r bytes e) =
      polled-Delivers u l bytes (Uploads-Delivers r) e

  -- Take a closed upload on a 32-bit stream id, however it was fed, granted and polled. However the
  -- transport cuts what was sent, the peer decoder reads frames whose payloads are the request head
  -- and every body byte that was fed, in order, and these are as many as were declared.
  pub Uploads-read :
      {u : WindowedUpload} {l : Log} (chunks : List (List ℕ))
      → Uploads stream_id head declared u l
      → u.closed ≡ true
      → flatten chunks ≡ l.wire
      → (fs : List Frame) × ((feed_chunks new_decoder chunks).0 ≡ ok fs)
        × (payloads fs ≡ head ++ l.fed)
        × (length l.fed ≡ declared)
  Uploads-read {u} {l} chunks r shut whole =
      let (fs, d) = Uploads-Delivers r in
      elim d.staged.finished [
        | inl still_open ↦ cc
        | inr (gone, all) ↦ (
          fs,
          feed_chunks-Encodes fs chunks (rw whole d.written),
          sym (append-nil (payloads fs))
              ∙ ap (λ xs. payloads fs ++ xs) (sym (nil_of_length (pending u) gone))
              ∙ d.in_order,
          d.counted ∙ all ∙ d.same_length,
        )
      ]
