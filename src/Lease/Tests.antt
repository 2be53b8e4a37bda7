-- ===== src/Lease/Tests.antt =====
-- Runs of the lease supervisor, and its theorems at concrete inputs.
use spl_rust.Base.{ℕ, ◌+◌, ◌*◌, ◌^◌, ◌≤◌, ◌≡◌, refl, ◌⊎◌, arith, true, false, [], none, some}
use spl_rust.Lease.{
  one_second, attempt_floor, deadline_due, Clocks, checked_later, earlier_deadline,
  effective_deadline, deadline_from_wall, install, floor_after, next_attempt_at, Journal,
  replace_expiry, renewed, Supervisor, goes_on, attempt, reconcile_after, new_supervisor,
  run_attempt, finish_attempt, start_attempt, take_branch, turn,
}
use spl_rust.Lease.Turns.{
  IsBefore, IsRatcheted, Renews, next_attempt_at-attempt_floor, turn-IsRatcheted,
}

abbrev last_instant : ℕ
last_instant = 2 ^ 63 * one_second

-- The clocks at the start, when the lease has 300 seconds left, and when it is renewed.
abbrev at_start : Clocks
at_start = record { wall_now = some (700 * one_second); monotonic_now = 0 }

abbrev at_renewal : Clocks
at_renewal = record { wall_now = some (881 * one_second); monotonic_now = 181 * one_second }

abbrev journal : Journal
journal = record { retired = false; current_expiry = 1000 }

abbrev served : Supervisor
served = record {
  schedule = record {
    renewal_start = some (180 * one_second);
    max_deadline = some (300 * one_second);
  };
  current_expiry = 1000;
  has_stream = true;
  next_reconciliation = one_second;
  last_attempt_start = none;
  poisoned = false;
}

install_runs : new_supervisor last_instant 1000 at_start ≡ served
unfolding install deadline_from_wall checked_later reconcile_after
install_runs = refl

-- An attempt that starts when the window opens is cut off after ten seconds.
attempt_cut_off :
    effective_deadline last_instant (180 * one_second) served.schedule ≡ some (190 * one_second)
unfolding effective_deadline earlier_deadline checked_later
attempt_cut_off = refl

abbrev renewed_lease : Supervisor
renewed_lease = record {
  schedule = record {
    renewal_start = some (480 * one_second);
    max_deadline = some (600 * one_second);
  };
  current_expiry = 1300;
  has_stream = true;
  next_reconciliation = 182 * one_second;
  last_attempt_start = some (180 * one_second);
  poisoned = false;
}

turn_runs :
    turn last_instant served journal 0 (attempt (180 * one_second) [] (renewed 1300) at_renewal)
    ≡ goes_on renewed_lease (record journal { current_expiry = 1300 })
unfolding turn take_branch start_attempt run_attempt finish_attempt replace_expiry deadline_due
    install deadline_from_wall checked_later reconcile_after
turn_runs = refl

turn-IsRatcheted_example :
    IsBefore 0 served.schedule.max_deadline
    × ((IsRatcheted renewed_lease.schedule served.schedule
          × (renewed_lease.current_expiry ≡ served.current_expiry)
          × ((record journal { current_expiry = 1300 }) ≡ journal))
        ⊎ Renews last_instant
            (attempt (180 * one_second) [] (renewed 1300) at_renewal)
            served
            journal
            renewed_lease
            (record journal { current_expiry = 1300 }))
turn-IsRatcheted_example =
    turn-IsRatcheted last_instant served renewed_lease journal
      (record journal { current_expiry = 1300 }) 0
      (attempt (180 * one_second) [] (renewed 1300) at_renewal) turn_runs

next_attempt_at-attempt_floor_example :
    (185 * one_second ≤ 195 * one_second) × (180 * one_second + attempt_floor ≤ 195 * one_second)
unfolding next_attempt_at floor_after checked_later
next_attempt_at-attempt_floor_example =
    next_attempt_at-attempt_floor last_instant served.schedule (180 * one_second) (180 * one_second)
      (185 * one_second) refl (omega arith) (omega arith) refl
