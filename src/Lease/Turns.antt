-- ===== src/Lease/Turns.antt =====
-- Runs of the lease supervisor of crates/spl-bridge/src/lease.rs.
use spl_rust.Base.{
  ℕ, ◌+◌, ◌≤◌, ◌<◌, ◌≡◌, refl, inl, inr, ◌⊎◌, arith, false, not, List, [], ◌∷◌, Option, none, some,
  Bool-cases, ltb, ◌==◌, if◌then◌else◌, if_intro,
}
use spl_rust.Lease.{
  LeaseSchedule, ratchet_deadline, deadline_due, attempt_floor, Clocks, checked_later, install,
  ratchet_earlier, floor_after, next_attempt_at, Journal, replace_expiry, AttemptResult, renewed,
  retryable, challenge_undeliverable, response_timed_out, terminal, Supervisor, Turn, goes_on,
  returns, Event, gone, reconciliation, expiry, attempt, poison, reconcile, run_attempt,
  finish_attempt, start_attempt, take_branch, turn,
}

-- Once the renewal window is open, the next attempt is not in the past and starts at least fifteen
-- seconds after the last one, if that instant can be represented.
pub next_attempt_at-attempt_floor :
    (latest : ℕ) (schedule : LeaseSchedule) (start window now : ℕ) {next : ℕ}
    → schedule.renewal_start ≡ some window
    → window ≤ now
    → start + attempt_floor ≤ latest
    → next_attempt_at latest schedule (some start) now ≡ some next
    → (now ≤ next) × (start + attempt_floor ≤ next)
unfolding next_attempt_at floor_after checked_later
next_attempt_at-attempt_floor latest schedule start window now {next} opened past fits e =
    let unfit : ltb latest (start + attempt_floor) ≡ false = ground arith in
    let open_now : ltb now window ≡ false = ground arith in
    let e' : (if ltb now (start + attempt_floor) then some (start + attempt_floor) else some now)
        ≡ some next =
      rw (opened, open_now, unfit, next_attempt_at) at e in
    ground arith

-- A deadline that is not later than another; no deadline is the latest.
abbrev pub IsNoLater : Option ℕ → Option ℕ → Type 0
IsNoLater a none = Unit {0}
IsNoLater none (some b) = ⊥
IsNoLater (some a) (some b) = a ≤ b

IsNoLater-refl : (a : Option ℕ) → IsNoLater a a
IsNoLater-refl none = tt
IsNoLater-refl (some a) = omega arith

ratchet_deadline-IsNoLater : (a b c : Option ℕ) → IsNoLater a c → IsNoLater (ratchet_deadline a b) c
unfolding ratchet_deadline
ratchet_deadline-IsNoLater a b none h = tt
ratchet_deadline-IsNoLater none b (some c) h = elim h [ ]
ratchet_deadline-IsNoLater (some a) none (some c) h = h
ratchet_deadline-IsNoLater (some a) (some b) (some c) h =
    if_intro (λ (d : Option ℕ). IsNoLater d (some c)) (ltb b a) (λ earlier. ground arith) (λ _. h)

-- Neither deadline of a schedule is later than in another.
abbrev pub IsRatcheted : LeaseSchedule → LeaseSchedule → Type 0
IsRatcheted new old =
    IsNoLater new.renewal_start old.renewal_start × IsNoLater new.max_deadline old.max_deadline

-- An instant strictly before a deadline; no deadline is ever reached.
abbrev pub IsBefore : ℕ → Option ℕ → Type 0
IsBefore now none = Unit {0}
IsBefore now (some deadline) = now < deadline

not_due-IsBefore : (d : Option ℕ) (now : ℕ) → deadline_due d now ≡ false → IsBefore now d
unfolding deadline_due
not_due-IsBefore none now h = tt
not_due-IsBefore (some deadline) now h = ground arith

-- A renewal: the supervisor was not poisoned, and the attempt of the event was answered for a
-- registration that is not retired, whose expiry and schedule are the successor's.
abbrev pub Renews : ℕ → Event → Supervisor → Journal → Supervisor → Journal → Type 0
Renews latest event s j s' j' =
    (started : ℕ) × (cs : List Clocks) × (next : ℕ) × (c : Clocks) × (event
      ≡ attempt started cs (renewed next) c)
    × (s.poisoned ≡ false)
    × (j.retired ≡ false)
    × (s'.schedule ≡ install latest next c)
    × (s'.current_expiry ≡ next)
    × (j'.current_expiry ≡ next)

module _ (latest : ℕ) (s : Supervisor) (j : Journal) where
  -- What a turn with an event leaves of the lease, if the supervisor goes on.
  abbrev Leases : Event → Turn → Type 0
  Leases event (goes_on s' j') =
      (IsRatcheted s'.schedule s.schedule × (s'.current_expiry ≡ s.current_expiry) × (j' ≡ j))
      ⊎ Renews latest event s j s' j'
  Leases event (returns j') = Unit {0}

  run_attempt-IsRatcheted :
      (t : Supervisor) (cs : List Clocks) (outcome : AttemptResult)
      → IsRatcheted t.schedule s.schedule
      → IsRatcheted (run_attempt latest t cs outcome).1.schedule s.schedule
        × ((run_attempt latest t cs outcome).1.current_expiry ≡ t.current_expiry)
        × (((run_attempt latest t cs outcome).0 ≡ outcome)
            ⊎ ((run_attempt latest t cs outcome).0 ≡ terminal))
  unfolding run_attempt reconcile ratchet_earlier
  run_attempt-IsRatcheted t [] outcome v = (v, refl, inl refl)
  run_attempt-IsRatcheted t (c ∷ cs) outcome v =
      if_intro
        (λ (p : AttemptResult × Supervisor).
          IsRatcheted p.1.schedule s.schedule
          × (p.1.current_expiry ≡ t.current_expiry)
          × ((p.0 ≡ outcome) ⊎ (p.0 ≡ terminal)))
        (deadline_due (reconcile latest t c).schedule.max_deadline c.monotonic_now)
        (λ _. (w, refl, inr refl))
        (λ _. run_attempt-IsRatcheted (reconcile latest t c) cs outcome w)
    where
      w : IsRatcheted (reconcile latest t c).schedule s.schedule
      w = (
        ratchet_deadline-IsNoLater t.schedule.renewal_start _ _ v.0,
        ratchet_deadline-IsNoLater t.schedule.max_deadline _ _ v.1,
      )

  finish_attempt-Leases :
      (event : Event) (t : Supervisor) (result : AttemptResult) (c : Clocks)
      → IsRatcheted t.schedule s.schedule
      → t.current_expiry ≡ s.current_expiry
      → s.poisoned ≡ false
      → ((next : ℕ)
          → result ≡ renewed next
          → (started : ℕ) × (cs : List Clocks) × (event ≡ attempt started cs (renewed next) c))
      → Leases event (finish_attempt latest t j result c)
  unfolding finish_attempt poison replace_expiry
  finish_attempt-Leases event t (renewed next) c v e healthy k =
      if_intro (Leases event) j.retired (λ _. inl (v, e, refl))
        (λ live. elim (Bool-cases (j.current_expiry == t.current_expiry)) [
          | inl same ↦
              let (started, cs, what) = k next refl in
              rw same (inr (started, cs, next, c, what, healthy, live, refl, refl, refl))
          | inr other ↦ rw other (inl (v, e, refl))
        ])
  finish_attempt-Leases event t retryable c v e _ k = inl (v, e, refl)
  finish_attempt-Leases event t challenge_undeliverable c v e _ k = inl (v, e, refl)
  finish_attempt-Leases event t response_timed_out c v e _ k = inl (v, e, refl)
  finish_attempt-Leases event t terminal c v e _ k = inl (v, e, refl)

  start_attempt-Leases :
      (started : ℕ) (cs : List Clocks) (outcome : AttemptResult) (c : Clocks)
      → s.poisoned ≡ false
      → Leases (attempt started cs outcome c) (start_attempt latest s j started cs outcome c)
  unfolding start_attempt
  start_attempt-Leases started cs outcome c healthy =
      let itself : IsRatcheted s.schedule s.schedule =
        (IsNoLater-refl s.schedule.renewal_start, IsNoLater-refl s.schedule.max_deadline) in
      let (w, same, told) =
        run_attempt-IsRatcheted (record s { last_attempt_start = some started }) cs outcome
          itself in
      if_intro (Leases (attempt started cs outcome c)) (not s.has_stream)
        (λ _. inl (itself, refl, refl))
        (λ _. finish_attempt-Leases (attempt started cs outcome c) _ _ c w same healthy (λ next e.
          elim told [
            | inl kept ↦
                let answered : outcome ≡ renewed next = cc in (started, cs, rw answered refl)
            | inr ended ↦ cc
          ]))

  take_branch-Leases : (event : Event) → Leases event (take_branch latest s j event)
  unfolding take_branch reconcile ratchet_earlier
  take_branch-Leases gone = tt
  take_branch-Leases (reconciliation c) = inl (
    (
      ratchet_deadline-IsNoLater s.schedule.renewal_start _ _
          (IsNoLater-refl s.schedule.renewal_start),
      ratchet_deadline-IsNoLater s.schedule.max_deadline _ _
          (IsNoLater-refl s.schedule.max_deadline),
    ),
    refl,
    refl,
  )
  take_branch-Leases expiry = tt
  take_branch-Leases (attempt started cs outcome c) =
      if_intro (Leases (attempt started cs outcome c)) s.poisoned
        (λ _. inl (
          (IsNoLater-refl s.schedule.renewal_start, IsNoLater-refl s.schedule.max_deadline),
          refl,
          refl,
        ))
        (λ healthy. start_attempt-Leases started cs outcome c healthy)

-- A turn of the lease supervisor after which it goes on starts strictly before the deadline, if
-- there is one. It keeps the expiry and the registration and moves neither deadline later; or it is
-- a renewal: its attempt was answered, the supervisor was not poisoned and the registration not
-- retired, and schedule, expiry and registration are those of the successor.
pub turn-IsRatcheted :
    (latest : ℕ) (s s' : Supervisor) (j j' : Journal) (now : ℕ) (event : Event)
    → turn latest s j now event ≡ goes_on s' j'
    → IsBefore now s.schedule.max_deadline
      × ((IsRatcheted s'.schedule s.schedule × (s'.current_expiry ≡ s.current_expiry) × (j' ≡ j))
          ⊎ Renews latest event s j s' j')
unfolding turn
turn-IsRatcheted latest s s' j j' now event e =
    elim (Bool-cases (deadline_due s.schedule.max_deadline now)) [
      | inl due ↦ cc (rw (due, turn) at e)
      | inr early ↦
          let went : take_branch latest s j event ≡ goes_on s' j' = rw (early, turn) at e in
          (
            not_due-IsBefore s.schedule.max_deadline now early,
            rw went at (take_branch-Leases latest s j event),
          )
    ]
