-- ===== src/Mux/Tests.antt =====
-- Runs of the receive window, and its theorems at concrete inputs.
use spl_rust.Base.{◌+◌, ◌-◌, ◌<◌, ◌≡◌, refl, none, some, ok}
use spl_rust.Mux.{
  RecvWindow, initial_window, receive_grant_threshold, new_recv_window, debit, consume,
}
use spl_rust.Mux.Credit.{Reach, start, debits, consumes, Agrees, Reach-Agrees, drained_credit}

-- The module's own test: 524,461 bytes arrive and are consumed in two parts.
abbrev debited : RecvWindow
debited = record { credit = initial_window - 524_461; unacked = 0 }

abbrev half_consumed : RecvWindow
half_consumed = record { credit = initial_window - 524_461; unacked = 524_259 }

debit_runs : debit new_recv_window 524_461 ≡ ok debited
unfolding debit
debit_runs = refl

first_consume : consume debited 524_259 ≡ some (none, half_consumed)
unfolding consume
first_consume = refl

second_consume : consume half_consumed 202 ≡ some (some 524_461, new_recv_window)
unfolding consume
second_consume = refl

reached :
    Reach new_recv_window
      (record { arrived = 0 + 524_461; consumed = 0 + 524_259 + 202; returned = 0 + 0 + 524_461 })
reached =
    consumes (consumes (debits start 524_461 debit_runs) 524_259 first_consume) 202 second_consume

Reach-Agrees_example :
    Agrees new_recv_window (record { arrived = 524_461; consumed = 524_461; returned = 524_461 })
Reach-Agrees_example = Reach-Agrees reached

drained_credit_example : receive_grant_threshold < new_recv_window.credit
drained_credit_example =
    drained_credit new_recv_window
      (record { arrived = 524_461; consumed = 524_461; returned = 524_461 }) reached refl
