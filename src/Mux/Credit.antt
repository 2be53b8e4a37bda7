-- ===== src/Mux/Credit.antt =====
-- `RecvWindow` of crates/spl-core/src/mux.rs against a ledger of what arrived, was consumed and granted.
use spl_rust.Base.{
  ℕ, ◌+◌, ◌-◌, ◌≤◌, ◌<◌, ◌≡◌, ◌⊎◌, inl, inr, arith, Option, none, some, ok, err, le_or_lt,
}
use spl_rust.Mux.{
  RecvWindow, initial_window, receive_grant_threshold, flow_control, new_recv_window, debit,
  consume,
}

-- Credit and unacknowledged bytes together never exceed the window, and a grant is never overdue.
pub record IsBalanced (w : RecvWindow) : Type 0 where
  pub within : w.credit + w.unacked ≤ initial_window
  pub not_due : w.unacked < receive_grant_threshold

-- The bytes that arrived and are not consumed yet.
abbrev pub outstanding : RecvWindow → ℕ
outstanding w = initial_window - w.credit - w.unacked

-- On a balanced window, inbound bytes over the credit are a flow-control error; otherwise the
-- window stays balanced and the bytes become outstanding.
pub debit_cases :
    (w : RecvWindow) (n : ℕ)
    → IsBalanced w
    → ((w.credit < n) × (debit w n ≡ err flow_control))
      ⊎ ((w' : RecvWindow) × (debit w n ≡ ok w')
          × IsBalanced w'
          × (outstanding w' ≡ outstanding w + n))
unfolding debit
debit_cases w n v = elim (le_or_lt n w.credit) [
  | inl h ↦ inr (record w { credit = w.credit - n }, ground arith, ground arith, omega arith)
  | inr h ↦ inl (h, ground arith)
]

-- The credit after a consumption: the bytes that wait come back together at half the window.
abbrev pub granted : Option ℕ → ℕ
granted none = 0
granted (some g) = g

-- On a balanced window, `consume` panics exactly when it is asked for more than is outstanding;
-- otherwise the bytes stop being outstanding, what is granted moves from the waiting bytes to the
-- credit, fewer than half a window wait after it, and the window stays balanced.
pub consume_cases :
    (w : RecvWindow) (n : ℕ)
    → IsBalanced w
    → ((outstanding w < n) × (consume w n ≡ none))
      ⊎ ((g : Option ℕ) × (w' : RecvWindow) × (consume w n ≡ some (g, w'))
          × IsBalanced w'
          × (outstanding w' + n ≡ outstanding w)
          × (w'.credit ≡ w.credit + granted g)
          × (w'.unacked + granted g ≡ w.unacked + n))
unfolding consume
consume_cases w n v = elim (le_or_lt n (outstanding w)) [
  | inr h ↦ inl (h, ground arith)
  | inl h ↦ inr (elim (le_or_lt receive_grant_threshold (w.unacked + n)) [
    | inl due ↦ (
      some (w.unacked + n),
      record { credit = w.credit + (w.unacked + n); unacked = 0 },
      ground arith,
      ground arith,
      omega arith,
      omega arith,
      omega arith,
    )
    | inr early ↦ (
      none,
      record w { unacked = w.unacked + n },
      ground arith,
      ground arith,
      omega arith,
      omega arith,
      omega arith,
    )
  ])
]

-- The bytes that arrived, were consumed and were granted back since the start.
pub record Ledger : Type 0 where
  pub arrived : ℕ
  pub consumed : ℕ
  pub returned : ℕ

abbrev pub new_ledger : Ledger
new_ledger = record { arrived = 0; consumed = 0; returned = 0 }

-- The windows that accepted calls reach, each with its ledger.
pub data Reach : RecvWindow → Ledger → Type 0 where
  start : Reach new_recv_window new_ledger
  debits :
      {w w' : RecvWindow} {l : Ledger}
      → Reach w l
      → (n : ℕ) → debit w n ≡ ok w'
      → Reach w' (record l { arrived = l.arrived + n })
  consumes :
      {w w' : RecvWindow} {l : Ledger} {g : Option ℕ}
      → Reach w l
      → (n : ℕ) → consume w n ≡ some (g, w')
      → Reach w' (record l { consumed = l.consumed + n; returned = l.returned + granted g })

-- The window's two numbers, read off the ledger.
pub record Agrees (w : RecvWindow) (l : Ledger) : Type 0 where
  pub balanced : IsBalanced w
  pub credit_left : w.credit + l.arrived ≡ initial_window + l.returned
  pub waiting : w.unacked + l.returned ≡ l.consumed
  pub outstanding_left : outstanding w + l.consumed ≡ l.arrived

debit-Agrees :
    {w w' : RecvWindow} {l : Ledger} (n : ℕ)
    → Agrees w l
    → debit w n ≡ ok w'
    → Agrees w' (record l { arrived = l.arrived + n })
unfolding debit
debit-Agrees n a e = ground arith

consume-Agrees :
    {w w' : RecvWindow} {l : Ledger} {g : Option ℕ} (n : ℕ)
    → Agrees w l
    → consume w n ≡ some (g, w')
    → Agrees w' (record l { consumed = l.consumed + n; returned = l.returned + granted g })
consume-Agrees {w} n a e = elim (consume_cases w n a.balanced) [
  | inl (_, panic) ↦ cc
  | inr (g', w'', r, v, out, c, u) ↦ ground arith
]

-- However arrivals and consumptions interleave from a new window, its credit is the initial window
-- plus everything granted less everything that arrived, and what waits for a grant is what was
-- consumed less what was granted.
pub Reach-Agrees : {w : RecvWindow} {l : Ledger} → Reach w l → Agrees w l
Reach-Agrees start = omega arith
Reach-Agrees (debits r n e) = debit-Agrees n (Reach-Agrees r) e
Reach-Agrees (consumes r n e) = consume-Agrees n (Reach-Agrees r) e

-- A peer whose bytes have all been consumed is never starved: more than half of the window is open
-- to it.
pub drained_credit :
    (w : RecvWindow) (l : Ledger)
    → Reach w l
    → l.consumed ≡ l.arrived
    → receive_grant_threshold < w.credit
drained_credit w l r e = omega (arith, Reach-Agrees r)
