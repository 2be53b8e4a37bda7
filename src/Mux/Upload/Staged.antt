-- ===== src/Mux/Upload/Staged.antt =====
-- The invariant of `WindowedUpload` (crates/spl-core/src/mux.rs) and the operations under it.
use spl_rust.Base.{
  ℕ, ◌+◌, ◌-◌, ◌≤◌, ◌<◌, ◌≡◌, refl, sym, ap, ◌∙◌, ◌⊎◌, inl, inr, arith, bit_or, false, List, [],
  ◌∷◌, ◌++◌, ok, ltb, length, take, drop, if◌then◌else◌, if_intro, length-append, length-take,
  length-drop, take-append-drop, drop-add, append_assoc,
}
use spl_rust.Frame.{flag_open, flag_data, recommended_chunk}
use spl_rust.Mux.{upload_body_stage_capacity}
use spl_rust.Mux.Upload.{
  WindowedUpload, new_upload, feed_body, max_credit, grant, head_remaining, available, chunk_len,
  take_chunk, data_frame,
}

-- The bytes that are staged and not sent yet.
abbrev pub pending : WindowedUpload → List ℕ
pending u = drop u.head_offset u.head ++ u.body

-- Every count is what it says, and a closed upload has sent all that it declared.
pub record IsStaged (u : WindowedUpload) : Type 0 where
  pub within_head : u.head_offset ≤ length u.head
  pub counted : u.emitted_body_len + length u.body ≡ u.fed_body_len
  pub declared : u.fed_body_len ≤ u.declared_body_len
  pub bounded : length u.body ≤ upload_body_stage_capacity
  pub capped : u.send_credit ≤ max_credit
  pub head_first : (u.head_offset ≡ length u.head) ⊎ (u.emitted_body_len ≡ 0)
  pub finished :
      (u.closed ≡ false) ⊎ ((length (pending u) ≡ 0) × (u.fed_body_len ≡ u.declared_body_len))

pub nil_of_length : (xs : List ℕ) → length xs ≡ 0 → xs ≡ []
nil_of_length [] h = refl
nil_of_length (x ∷ xs) h = absurd (omega arith)

pub length-pending :
    (u : WindowedUpload)
    → u.head_offset ≤ length u.head
    → length (pending u) + u.head_offset ≡ length u.head + length u.body
length-pending u h =
    omega
      (arith, length-append (drop u.head_offset u.head) u.body, length-drop u.head_offset u.head)

-- While something may be cut, the upload is not closed.
pub available-open : (u : WindowedUpload) → IsStaged u → 0 < available u → u.closed ≡ false
available-open u v h = elim v.finished [
  | inl e ↦ e
  | inr (gone, _) ↦ absurd (ground (arith, length-pending u v.within_head, v.within_head))
]

-- What no operation but `feed_body` changes.
abbrev pub SameUpload : WindowedUpload → WindowedUpload → Type 0
SameUpload u u' =
    (u'.stream_id ≡ u.stream_id)
    × (u'.declared_body_len ≡ u.declared_body_len)
    × (u'.fed_body_len ≡ u.fed_body_len)

pub data_frame-SameUpload : (u : WindowedUpload) → SameUpload u (data_frame u).1
unfolding data_frame take_chunk
data_frame-SameUpload u = ground arith

pub data_frame-stream_id : (u : WindowedUpload) → (data_frame u).0.stream_id ≡ u.stream_id
unfolding data_frame take_chunk
data_frame-stream_id u = ground arith

pub data_frame-opened :
    (u : WindowedUpload)
    → (data_frame u).0.flags ≡ (if u.opened then flag_data else bit_or flag_open flag_data)
unfolding data_frame take_chunk
data_frame-opened u = ground arith

-- `p` is the first `n` staged bytes with what stays.
abbrev IsTaken : WindowedUpload → ℕ → List ℕ × WindowedUpload → Type 0
IsTaken u n p =
    IsStaged p.1
    × (p.0 ++ pending p.1 ≡ pending u)
    × (length p.0 ≡ n)
    × (p.1.send_credit ≡ u.send_credit)

module _ (u : WindowedUpload) (n : ℕ) (v : IsStaged u) (still_open : u.closed ≡ false) where
  take_head-IsTaken :
      n ≤ head_remaining u
      → 0 < n
      → IsTaken u n
          (take n (drop u.head_offset u.head), record u { head_offset = u.head_offset + n })
  take_head-IsTaken fits pos = (
    record {
      within_head = omega (arith, v.within_head);
      counted = v.counted;
      declared = v.declared;
      bounded = v.bounded;
      capped = v.capped;
      head_first = inr (ground (arith, v.head_first));
      finished = inl still_open;
    },
    sym (append_assoc (take n staged) (drop (u.head_offset + n) u.head) u.body)
        ∙ ap (λ xs. xs ++ u.body)
            (ap (λ xs. take n staged ++ xs) (drop-add u.head_offset n u.head)
              ∙ take-append-drop n staged),
    omega (arith, length-take n staged, length-drop u.head_offset u.head),
    refl,
  )
    where
      staged : List ℕ
      staged = drop u.head_offset u.head

  take_body-IsTaken :
      head_remaining u ≡ 0
      → n ≤ length u.body
      → IsTaken u n (
        take n u.body,
        record u { body = drop n u.body; emitted_body_len = u.emitted_body_len + n },
      )
  take_body-IsTaken over fits = (
    record {
      within_head = v.within_head;
      counted = omega (arith, v.counted, length-drop n u.body);
      declared = v.declared;
      bounded = omega (arith, v.bounded, length-drop n u.body);
      capped = v.capped;
      head_first = inl (omega (arith, v.within_head));
      finished = inl still_open;
    },
    rw head_gone (take-append-drop n u.body),
    omega (arith, length-take n u.body),
    refl,
  )
    where
      head_gone : drop u.head_offset u.head ≡ []
      head_gone = nil_of_length _ (omega (arith, length-drop u.head_offset u.head))

  take_chunk-IsTaken : n ≤ available u → 0 < n → IsTaken u n (take_chunk u n)
  unfolding take_chunk
  take_chunk-IsTaken fits pos =
      if_intro (IsTaken u n) (ltb 0 (head_remaining u))
        (λ more. take_head-IsTaken (rw more at fits) pos)
        (λ over. take_body-IsTaken (ground arith) (rw over at fits))

-- What a data frame takes: the first `n` staged bytes.
pub data_frame-takes :
    (u : WindowedUpload)
    → IsStaged u
    → 0 < available u
    → 0 < u.send_credit
    → let (f, u') = data_frame u in
      IsStaged u'
      × (f.payload ++ pending u' ≡ pending u)
      × (0 < length f.payload)
      × (length f.payload ≤ recommended_chunk)
      × (u'.send_credit + length f.payload ≡ u.send_credit)
unfolding data_frame take_chunk
data_frame-takes u v some_left credit =
    let n_fits : chunk_len u ≤ available u = omega arith in
    let n_pos : 0 < chunk_len u = omega arith in
    let (kept, split, len, same) =
      take_chunk-IsTaken u (chunk_len u) v (available-open u v some_left) n_fits n_pos in
    (
      record {
        within_head = kept.within_head;
        counted = kept.counted;
        declared = kept.declared;
        bounded = kept.bounded;
        capped = omega (arith, kept.capped);
        head_first = kept.head_first;
        finished = kept.finished;
      },
      split,
      omega (arith, len),
      omega (arith, len),
      omega (arith, len, same),
    )

-- A new upload is staged, and so is one that has been fed or granted credit.
pub new_upload-IsStaged :
    (stream_id : ℕ) (head : List ℕ) (declared : ℕ) → IsStaged (new_upload stream_id head declared)
new_upload-IsStaged stream_id head declared = record {
  within_head = omega arith;
  counted = refl;
  declared = omega arith;
  bounded = omega arith;
  capped = omega arith;
  head_first = inr refl;
  finished = inl refl;
}

feed_body-ok :
    (u : WindowedUpload) (bytes : List ℕ) {u' : WindowedUpload}
    → feed_body u bytes ≡ ok u'
    → (length bytes ≤ u.declared_body_len - u.fed_body_len)
      × (length bytes ≤ upload_body_stage_capacity - length u.body)
      × (record u { body = u.body ++ bytes; fed_body_len = u.fed_body_len + length bytes } ≡ u')
unfolding feed_body
feed_body-ok u bytes e = ground arith

pub feed_body-IsStaged :
    (u : WindowedUpload) (bytes : List ℕ) {u' : WindowedUpload}
    → IsStaged u
    → feed_body u bytes ≡ ok u'
    → IsStaged u' × (pending u' ≡ pending u ++ bytes) × (u'.send_credit ≡ u.send_credit)
feed_body-IsStaged u bytes {u'} v e =
    let (declared_fits, stage_fits, same) = feed_body-ok u bytes e in
    rw (← same) (
      record {
        within_head = v.within_head;
        counted = omega (arith, v.counted, length-append u.body bytes);
        declared = omega (arith, v.declared);
        bounded = omega (arith, v.bounded, length-append u.body bytes);
        capped = v.capped;
        head_first = v.head_first;
        finished = elim v.finished [
          | inl still_open ↦ inl still_open
          | inr (gone, all) ↦ inr (omega (arith, gone, all, longer), omega (arith, all))
        ];
      },
      sym (append_assoc (drop u.head_offset u.head) u.body bytes),
      refl,
    )
  where
    longer :
        length (drop u.head_offset u.head ++ (u.body ++ bytes)) ≡ length (pending u) + length bytes
    longer =
        ap length (sym (append_assoc (drop u.head_offset u.head) u.body bytes))
        ∙ length-append (pending u) bytes

grant-ok :
    (u : WindowedUpload) (credit : ℕ) {u' : WindowedUpload}
    → grant u credit ≡ ok u'
    → (u.send_credit + credit ≤ max_credit)
      × (record u { send_credit = u.send_credit + credit } ≡ u')
unfolding grant
grant-ok u credit e = ground arith

pub grant-IsStaged :
    (u : WindowedUpload) (credit : ℕ) {u' : WindowedUpload}
    → IsStaged u
    → grant u credit ≡ ok u'
    → IsStaged u' × (pending u' ≡ pending u) × (u'.send_credit ≡ u.send_credit + credit)
grant-IsStaged u credit {u'} v e =
    let (fits, same) = grant-ok u credit e in
    rw (← same) (
      record {
        within_head = v.within_head;
        counted = v.counted;
        declared = v.declared;
        bounded = v.bounded;
        capped = fits;
        head_first = v.head_first;
        finished = v.finished;
      },
      refl,
      refl,
    )

pub feed_body-SameStream :
    (u : WindowedUpload) (bytes : List ℕ) {u' : WindowedUpload}
    → feed_body u bytes ≡ ok u'
    → (u'.stream_id ≡ u.stream_id)
      × (u'.declared_body_len ≡ u.declared_body_len)
      × (u'.fed_body_len ≡ u.fed_body_len + length bytes)
unfolding feed_body
feed_body-SameStream u bytes e = ground arith

pub grant-SameUpload :
    (u : WindowedUpload) (credit : ℕ) {u' : WindowedUpload}
    → grant u credit ≡ ok u'
    → SameUpload u u'
unfolding grant
grant-SameUpload u credit e = ground arith
