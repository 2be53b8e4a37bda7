-- ===== src/Mux/Upload/Capacity.antt =====
-- `body_capacity`, `feed_body` and `is_blocked` of `WindowedUpload` (crates/spl-core/src/mux.rs), against
-- each other and `poll_send`.
use spl_rust.Base.{
  ℕ, ◌+◌, ◌-◌, ◌≤◌, ◌<◌, ◌≡◌, ◌⊎◌, inl, inr, arith, true, false, ◌++◌, List, none, ok, err, length,
  le_or_lt,
}
use spl_rust.Mux.{upload_body_stage_capacity}
use spl_rust.Mux.Upload.{
  WindowedUpload, UploadBodyError, declared_length_exceeded, stage_capacity_exceeded, body_capacity,
  feed_body, available, poll_frame, poll_send, is_blocked,
}
use spl_rust.Mux.Upload.Staged.{IsStaged}
use spl_rust.Mux.Upload.Polling.{poll_send-none}

-- `feed_body` takes bytes exactly when they are at most `body_capacity`, and then stages and counts
-- all of them; otherwise it is an error.
pub feed_body-body_capacity :
    (u : WindowedUpload) (bytes : List ℕ)
    → ((length bytes ≤ body_capacity u)
        × (feed_body u bytes
            ≡ ok (record u {
              body = u.body ++ bytes;
              fed_body_len = u.fed_body_len + length bytes;
            })))
      ⊎ ((body_capacity u < length bytes) × ((e : UploadBodyError) × (feed_body u bytes ≡ err e)))
unfolding feed_body body_capacity
feed_body-body_capacity u bytes =
    elim (le_or_lt (length bytes) (u.declared_body_len - u.fed_body_len)) [
      | inr over ↦ inr (omega arith, (declared_length_exceeded, ground arith))
      | inl declared ↦ elim (le_or_lt (length bytes) (upload_body_stage_capacity - length u.body)) [
        | inr over ↦ inr (omega arith, (stage_capacity_exceeded, ground arith))
        | inl staged ↦ inl (omega arith, ground arith)
      ]
    ]

-- When a staged upload reports that it is blocked, `poll_send` sends nothing and changes nothing,
-- the upload is not closed, some bytes are left to send, and there is no credit for them.
pub poll_send-is_blocked :
    (u : WindowedUpload)
    → IsStaged u
    → is_blocked u ≡ true
    → (poll_send u ≡ (ok none, u)) × (u.closed ≡ false) × (0 < available u) × (u.send_credit ≡ 0)
poll_send-is_blocked u v h =
    let (still, some_left, no_credit) = blocked u v h in
    (poll_send-none u (unfold poll_frame in ground arith), still, some_left, no_credit)
  where
    blocked :
        (u : WindowedUpload)
        → IsStaged u
        → is_blocked u ≡ true
        → (u.closed ≡ false) × (0 < available u) × (u.send_credit ≡ 0)
    blocked u v h = unfold is_blocked in ground (arith, v.within_head)
