-- ===== src/Mux/Events.antt =====
-- The events and outputs of the carrier in crates/spl-core/src/mux.rs.
use spl_rust.Base.{ℕ, List, [], ◌∷◌, ◌==◌, if◌then◌else◌}
use spl_rust.Frame.{reset_protocol_error, reset_flow_control_error}

pub record HttpHead : Type 0 where
  pub status : ℕ
  pub headers : List (List ℕ × List ℕ)

pub data ResetReason : Type 0 where
  protocol_error flow_control_error unspecified : ResetReason

unfoldable pub from_payload : List ℕ → ResetReason
from_payload [] = unspecified
from_payload (code ∷ _) =
    if code == reset_protocol_error
    then protocol_error
    else if code == reset_flow_control_error
    then flow_control_error
    else unspecified

pub data StreamEnd : Type 0 where
  close : StreamEnd
  reset : ResetReason → StreamEnd
  eof : StreamEnd

pub data StreamItem : Type 0 where
  head : HttpHead → StreamItem
  body : List ℕ → StreamItem
  ended : StreamEnd → StreamItem

pub record StreamEvent : Type 0 where
  pub item : StreamItem
  pub wire_cost : ℕ

abbrev pub uncosted : StreamItem → StreamEvent
uncosted item = record { item = item; wire_cost = 0 }
