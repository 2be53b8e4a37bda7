-- ===== src/Mux/Upload/Tests.antt =====
-- A small upload, run step by step, and its theorems at concrete inputs.
use spl_rust.Base.{
  inl, inr, true, ℕ, ◌-◌, ◌<◌, ◌≡◌, refl, ◌⊎◌, arith, List, [], ◌∷◌, ◌++◌, flatten, none, some, ok,
  length,
}
use spl_rust.Frame.{Frame, encode, new_decoder, header_bytes, has_flag}
use spl_rust.Frame.Reframe.{feed_chunks}
use spl_rust.Mux.{initial_window}
use spl_rust.Mux.Upload.{
  WindowedUpload, new_upload, feed_body, take_chunk, data_frame, close_frame, poll_frame,
  encode_polled, poll_send,
}
use spl_rust.Mux.Upload.{is_blocked}
use spl_rust.Mux.Upload.Staged.{IsStaged, pending, new_upload-IsStaged}
use spl_rust.Mux.Upload.Polling.{Sends, Closes, Idles, poll_send_cases}
use spl_rust.Mux.Upload.Delivery.{
  Log, Uploads, IsDelivered, payloads, Uploads-Delivers, Uploads-read,
}

-- A head of two bytes and a declared body of one byte, on stream 1.
abbrev two_head : List ℕ
two_head = 0x47 ∷ 0x0a ∷ []

abbrev fresh : WindowedUpload
fresh = new_upload 1 two_head 1

abbrev fed_one : WindowedUpload
fed_one = record fresh { body = 7 ∷ []; fed_body_len = 1 }

abbrev head_sent : WindowedUpload
head_sent = record fed_one { head_offset = 2; send_credit = initial_window - 2; opened = true }

abbrev body_sent : WindowedUpload
body_sent = record head_sent { body = []; emitted_body_len = 1; send_credit = initial_window - 3 }

abbrev done : WindowedUpload
done = record body_sent { closed = true }

abbrev head_wire : List ℕ
head_wire = 0 ∷ 0 ∷ 0 ∷ 1 ∷ 3 ∷ 0 ∷ 0 ∷ 2 ∷ 0x47 ∷ 0x0a ∷ []

abbrev body_wire : List ℕ
body_wire = 0 ∷ 0 ∷ 0 ∷ 1 ∷ 2 ∷ 0 ∷ 0 ∷ 1 ∷ 7 ∷ []

abbrev close_wire : List ℕ
close_wire = 0 ∷ 0 ∷ 0 ∷ 1 ∷ 4 ∷ 0 ∷ 0 ∷ 0 ∷ []

fed_runs : feed_body fresh (7 ∷ []) ≡ ok fed_one
unfolding feed_body
fed_runs = refl

head_runs : poll_send fed_one ≡ (ok (some head_wire), head_sent)
unfolding poll_send encode_polled poll_frame data_frame take_chunk encode header_bytes has_flag
head_runs = refl

body_runs : poll_send head_sent ≡ (ok (some body_wire), body_sent)
unfolding poll_send encode_polled poll_frame data_frame take_chunk encode header_bytes has_flag
body_runs = refl

close_runs : poll_send body_sent ≡ (ok (some close_wire), done)
unfolding poll_send encode_polled poll_frame close_frame encode header_bytes has_flag
close_runs = refl

abbrev whole_log : Log
whole_log = record { fed = 7 ∷ []; wire = head_wire ++ body_wire ++ close_wire; granted = 0 }

uploaded : Uploads 1 two_head 1 done whole_log
uploaded =
    Uploads.polled
      (Uploads.polled
        (Uploads.polled (Uploads.fed Uploads.started (7 ∷ []) fed_runs) head_wire head_runs)
        body_wire body_runs)
      close_wire close_runs

-- The wire, cut inside the first header and inside the second frame.
abbrev cut_wire : List (List ℕ)
cut_wire =
    (0 ∷ 0 ∷ 0 ∷ [])
    ∷ (1 ∷ 3 ∷ 0 ∷ 0 ∷ 2 ∷ 0x47 ∷ 0x0a ∷ 0 ∷ 0 ∷ 0 ∷ 1 ∷ 2 ∷ 0 ∷ 0 ∷ 1 ∷ [])
    ∷ (7 ∷ close_wire)
    ∷ []

cut_runs : flatten cut_wire ≡ whole_log.wire
unfolding flatten
cut_runs = refl

Uploads-read_example :
    (fs : List Frame) × ((feed_chunks new_decoder cut_wire).0 ≡ ok fs)
    × (payloads fs ≡ two_head ++ 7 ∷ [])
    × (length whole_log.fed ≡ 1)
Uploads-read_example = Uploads-read 1 two_head 1 (omega arith) cut_wire uploaded refl cut_runs

Uploads-Delivers_example : (fs : List Frame) × IsDelivered 1 two_head 1 done whole_log fs
Uploads-Delivers_example = Uploads-Delivers 1 two_head 1 (omega arith) uploaded

poll_send_cases_example :
    ((0 < length (pending fresh)) × (fresh.send_credit ≡ 0) × (poll_send fresh ≡ (ok none, fresh)))
    ⊎ Sends fresh
    ⊎ ((length (pending fresh) ≡ 0) × (Closes fresh ⊎ Idles fresh))
poll_send_cases_example = poll_send_cases fresh (new_upload-IsStaged 1 two_head 1)

-- Two bytes of head are left and there is no credit for them.
abbrev spent : WindowedUpload
spent = record fresh { send_credit = 0 }

spent-IsStaged : IsStaged spent
spent-IsStaged = record {
  within_head = omega arith;
  counted = refl;
  declared = omega arith;
  bounded = omega arith;
  capped = omega arith;
  head_first = inr refl;
  finished = inl refl;
}

spent_runs : is_blocked spent ≡ true
unfolding is_blocked
spent_runs = refl
