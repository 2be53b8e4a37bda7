-- ===== src/Home/Close.antt =====
-- `CarrierClose` and `carrier_gaps` of crates/spl-home/src/mux.rs: how a carrier's end and its silence
-- are published.
use spl_rust.Base.{
  ℕ, ◌+◌, ◌-◌, ◌≤◌, ◌<◌, ◌≡◌, refl, ◌⊎◌, inl, inr, arith, Bool, true, false, ◌==◌, Option, none,
  some, max, if◌then◌else◌, Bool-cases, ==_iff,
}

-- `still_open` is the source's `Open`.
pub data CarrierClose : Type 0 where
  still_open : CarrierClose
  peer_eof : Bool → CarrierClose
  peer_read_failed acceptor_refused write_failed owner_gone local_close : CarrierClose

unfoldable pub close_code : CarrierClose → ℕ
close_code still_open = 0
close_code (peer_eof false) = 1
close_code (peer_eof true) = 2
close_code peer_read_failed = 3
close_code acceptor_refused = 4
close_code write_failed = 5
close_code owner_gone = 6
close_code local_close = 7

unfoldable pub close_from_code : ℕ → CarrierClose
close_from_code code =
    if code == 1
    then peer_eof false
    else if code == 2
    then peer_eof true
    else if code == 3
    then peer_read_failed
    else if code == 4
    then acceptor_refused
    else if code == 5
    then write_failed
    else if code == 6
    then owner_gone
    else if code == 7
    then local_close
    else still_open

unfoldable pub is_abnormal : CarrierClose → Bool
is_abnormal still_open = false
is_abnormal (peer_eof truncated) = truncated
is_abnormal peer_read_failed = true
is_abnormal acceptor_refused = true
is_abnormal write_failed = true
is_abnormal owner_gone = false
is_abnormal local_close = false

pub record CarrierCounts : Type 0 where
  pub pings_answered : ℕ
  pub current_gap_ms : Option ℕ
  pub longest_gap_ms : Option ℕ
  pub close : CarrierClose

-- `saturating_sub` is the subtraction that stops at 0.
unfoldable pub carrier_gaps : ℕ → ℕ → ℕ → ℕ → Option ℕ × Option ℕ
carrier_gaps pings_answered now_elapsed_ms last_answer_elapsed_ms longest_completed_gap_ms =
    if pings_answered == 0
    then (none, none)
    else let current = now_elapsed_ms - last_answer_elapsed_ms in
      (some current, some (max longest_completed_gap_ms current))

-- A close that is published as its code, one of eight, is read back as it was.
pub close_from_code-close_code :
    (c : CarrierClose) → (close_from_code (close_code c) ≡ c) × (close_code c < 8)
unfolding close_from_code close_code
close_from_code-close_code still_open = (refl, omega arith)
close_from_code-close_code (peer_eof false) = (refl, omega arith)
close_from_code-close_code (peer_eof true) = (refl, omega arith)
close_from_code-close_code peer_read_failed = (refl, omega arith)
close_from_code-close_code acceptor_refused = (refl, omega arith)
close_from_code-close_code write_failed = (refl, omega arith)
close_from_code-close_code owner_gone = (refl, omega arith)
close_from_code-close_code local_close = (refl, omega arith)

-- A carrier that answered nothing reports no gap. Otherwise both gaps are reported, whatever times
-- were recorded: the current one is at least the time since the last answer, and the longest is at
-- least the current one and the longest completed one.
pub carrier_gaps_cases :
    (pings now last longest : ℕ)
    → ((pings ≡ 0) × (carrier_gaps pings now last longest ≡ (none, none)))
      ⊎ ((current : ℕ) × (reported : ℕ) × (0 < pings)
          × (carrier_gaps pings now last longest ≡ (some current, some reported))
          × (now ≤ last + current)
          × (current ≤ reported)
          × (longest ≤ reported))
unfolding carrier_gaps
carrier_gaps_cases pings now last longest = elim (Bool-cases (pings == 0)) [
  | inl none_yet ↦ inl ((==_iff pings 0).0 none_yet, rw none_yet refl)
  | inr some_yet ↦ inr (
    now - last,
    max longest (now - last),
    ground arith,
    rw some_yet refl,
    omega arith,
    omega arith,
    omega arith,
  )
]
