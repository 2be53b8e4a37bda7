-- ===== src/Lease.antt =====
-- crates/spl-bridge/src/lease.rs: when a journal's lease is renewed and when it is retired. A `Duration`
-- and an `Instant` are numbers of nanoseconds, and `latest` is the last instant that the platform can
-- represent. A wall-clock time is the time since the Unix epoch; there is none before it.
pub mod Turns
mod Tests
use spl_rust.Base.{
  ℕ, ◌+◌, ◌-◌, ◌*◌, ◌^◌, Bool, true, false, not, ◌||◌, List, [], ◌∷◌, Option, none, some, ltb, leb,
  ◌==◌, if◌then◌else◌,
}

abbrev pub one_second : ℕ
one_second = 1_000_000_000

abbrev pub renewal_window : ℕ
renewal_window = 120 * one_second

abbrev pub attempt_timeout : ℕ
attempt_timeout = 10 * one_second

abbrev pub attempt_floor : ℕ
attempt_floor = 15 * one_second

abbrev pub reconciliation_interval : ℕ
reconciliation_interval = one_second

pub record LeaseSchedule : Type 0 where
  pub renewal_start : Option ℕ
  pub max_deadline : Option ℕ

unfoldable pub ratchet_deadline : Option ℕ → Option ℕ → Option ℕ
ratchet_deadline none (some candidate) = some candidate
ratchet_deadline none none = none
ratchet_deadline (some installed) none = some installed
ratchet_deadline (some installed) (some candidate) =
    if ltb candidate installed then some candidate else some installed

unfoldable pub earlier_deadline : Option ℕ → Option ℕ → Option ℕ
earlier_deadline (some first) (some second) = if leb first second then some first else some second
earlier_deadline (some first) none = some first
earlier_deadline none second = second

unfoldable pub deadline_due : Option ℕ → ℕ → Bool
deadline_due none now = false
deadline_due (some deadline) now = leb deadline now

-- A sample of the wall clock and of the monotonic clock.
pub record Clocks : Type 0 where
  pub wall_now : Option ℕ
  pub monotonic_now : ℕ

module _ (latest : ℕ) where
  -- `Instant::checked_add`
  unfoldable pub checked_later : ℕ → ℕ → Option ℕ
  checked_later instant duration =
      if ltb latest (instant + duration) then none else some (instant + duration)

  -- `expires_at` is in seconds, and so is the lead time that is taken off it.
  unfoldable pub deadline_from_wall : ℕ → ℕ → Clocks → Option ℕ
  deadline_from_wall expires_at lead_seconds c = elim c.wall_now [
    | none ↦ some c.monotonic_now
    | some now ↦ checked_later c.monotonic_now ((expires_at - lead_seconds) * one_second - now)
  ]

  unfoldable pub install : ℕ → Clocks → LeaseSchedule
  install expires_at c = record {
    renewal_start = deadline_from_wall expires_at 120 c;
    max_deadline = deadline_from_wall expires_at 0 c;
  }

  unfoldable pub ratchet_earlier : LeaseSchedule → ℕ → Clocks → LeaseSchedule
  ratchet_earlier schedule expires_at c = record {
    renewal_start = ratchet_deadline schedule.renewal_start (deadline_from_wall expires_at 120 c);
    max_deadline = ratchet_deadline schedule.max_deadline (deadline_from_wall expires_at 0 c);
  }

  -- The instant from which the floor lets the next attempt start, if it is still to come.
  unfoldable pub floor_after : Option ℕ → Option ℕ
  floor_after none = none
  floor_after (some start) = checked_later start attempt_floor

  unfoldable pub next_attempt_at : LeaseSchedule → Option ℕ → ℕ → Option ℕ
  next_attempt_at schedule last_attempt_start now = elim schedule.renewal_start [
    | none ↦ none
    | some renewal_start ↦
        if ltb now renewal_start
        then some renewal_start
        else elim (floor_after last_attempt_start) [
          | none ↦ some now
          | some floor ↦ if ltb now floor then some floor else some now
        ]
  ]

-- The registration that the supervisor serves: whether it is retired, and its expiry.
pub record Journal : Type 0 where
  pub retired : Bool
  pub current_expiry : ℕ

unfoldable pub retire : Journal → Journal
retire j = record j { retired = true }

-- `compare_exchange` on the expiry.
unfoldable pub replace_expiry : Journal → ℕ → ℕ → Option Journal
replace_expiry j expected replacement =
    if j.current_expiry == expected then some (record j { current_expiry = replacement }) else none

pub data AttemptResult : Type 0 where
  renewed : ℕ → AttemptResult
  retryable challenge_undeliverable response_timed_out terminal : AttemptResult

-- The local variables of `run_supervisor_with_clock`.
pub record Supervisor : Type 0 where
  pub schedule : LeaseSchedule
  pub current_expiry : ℕ
  pub has_stream : Bool
  pub next_reconciliation : ℕ
  pub last_attempt_start : Option ℕ
  pub poisoned : Bool

-- What the loop over `select!` comes to: it goes on, or the supervisor returns.
pub data Turn : Type 0 where
  goes_on : Supervisor → Journal → Turn
  returns : Journal → Turn

-- The branch of `select!` that is ready, with the clocks that it reads. An attempt has its start, the
-- reconciliations while it runs, its outcome, and the clocks after a renewal.
pub data Event : Type 0 where
  gone : Event
  reconciliation : Clocks → Event
  expiry : Event
  attempt : ℕ → List Clocks → AttemptResult → Clocks → Event

unfoldable pub poison : Supervisor → Supervisor
poison s = record s { has_stream = false; poisoned = true }

module _ (latest : ℕ) where
  -- The next reconciliation after a sample.
  unfoldable pub reconcile_after : Clocks → ℕ
  reconcile_after c = elim (checked_later latest c.monotonic_now reconciliation_interval) [
    | none ↦ c.monotonic_now
    | some next ↦ next
  ]

  unfoldable pub reconcile : Supervisor → Clocks → Supervisor
  reconcile s c = record s {
    schedule = ratchet_earlier latest s.schedule s.current_expiry c;
    next_reconciliation = reconcile_after c;
  }

  abbrev pub new_supervisor : ℕ → Clocks → Supervisor
  new_supervisor expires_at c = record {
    schedule = install latest expires_at c;
    current_expiry = expires_at;
    has_stream = true;
    next_reconciliation = reconcile_after c;
    last_attempt_start = none;
    poisoned = false;
  }

  -- The reconciliations of a running attempt; one that finds the deadline due ends it.
  unfoldable pub run_attempt : Supervisor → List Clocks → AttemptResult → AttemptResult × Supervisor
  run_attempt s [] outcome = (outcome, s)
  run_attempt s (c ∷ cs) outcome =
      let s' = reconcile s c in
      let rest = run_attempt s' cs outcome in
      if deadline_due s'.schedule.max_deadline c.monotonic_now then (terminal, s') else rest

  unfoldable pub finish_attempt : Supervisor → Journal → AttemptResult → Clocks → Turn
  finish_attempt s j (renewed successor_expiry) c =
      if j.retired
      then goes_on (poison s) j
      else elim (replace_expiry j s.current_expiry successor_expiry) [
        | none ↦ goes_on (poison s) j
        | some j' ↦
            goes_on
              (record s {
                current_expiry = successor_expiry;
                schedule = install latest successor_expiry c;
                next_reconciliation = reconcile_after c;
              })
              j'
      ]
  finish_attempt s j retryable c = goes_on s j
  finish_attempt s j challenge_undeliverable c = goes_on (poison s) j
  finish_attempt s j response_timed_out c = goes_on (poison s) j
  finish_attempt s j terminal c = goes_on (poison s) j

  unfoldable pub start_attempt :
      Supervisor → Journal → ℕ → List Clocks → AttemptResult → Clocks → Turn
  start_attempt s j started cs outcome c =
      let s' : Supervisor = record s { last_attempt_start = some started } in
      let (result, s'') = run_attempt s' cs outcome in
      if not s.has_stream
      then goes_on (record s' { poisoned = true }) j
      else finish_attempt s'' j result c

  -- The attempt's branch has the guard `if !poisoned`: once poisoned it is disabled, and the
  -- supervisor waits on.
  unfoldable pub take_branch : Supervisor → Journal → Event → Turn
  take_branch s j gone = returns j
  take_branch s j (reconciliation c) = goes_on (reconcile s c) j
  take_branch s j expiry = returns (retire j)
  take_branch s j (attempt started cs outcome c) =
      if s.poisoned then goes_on s j else start_attempt s j started cs outcome c

  unfoldable pub turn : Supervisor → Journal → ℕ → Event → Turn
  turn s j now event =
      if deadline_due s.schedule.max_deadline now then returns (retire j) else take_branch s j event

  -- When a running attempt times out: its cap, or the deadline of the lease if that is earlier.
  unfoldable pub effective_deadline : ℕ → LeaseSchedule → Option ℕ
  effective_deadline started schedule =
      earlier_deadline (checked_later latest started attempt_timeout) schedule.max_deadline

  -- When the next attempt may start.
  unfoldable pub attempt_at : Supervisor → ℕ → Option ℕ
  attempt_at s now =
      if s.poisoned then none else next_attempt_at latest s.schedule s.last_attempt_start now
