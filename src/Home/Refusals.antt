-- ===== src/Home/Refusals.antt =====
-- `refuse_violation` and the reset reasons of crates/spl-home/src/mux.rs.
use spl_rust.Base.{
  ℕ, ◌+◌, ◌-◌, ◌^◌, ◌≡◌, ◌≢◌, refl, inl, inr, arith, [], ◌∷◌, ◌++◌, append-nil, some, none, min,
  Bool-cases, if◌then◌else◌,
}
use spl_rust.Base.Assoc.{lookup, contains_key, lookup-remove, contains_key-none}
use spl_rust.Frame.{Frame, FrameViolation}
use spl_rust.Frame
use spl_rust.Home.Types.{
  RefusalClass, protocol, stream_limit, flow_control, internal, MuxOutput, MuxEvent, ResetReason,
  protocol_error, flow_control_error, stream_limit_exceeded, internal_error, cancel, unspecified,
  reason_code, reason_from_wire, reason_from_class, reset_code, RefusalCounts, record_refusal,
}
use spl_rust.Home.State.{MuxAcceptor, remove_stream, refuse_violation}

-- The reason that is read back from the code of a RESET is the reason that was sent.
pub reason_from_wire-reason_code : (r : ResetReason) → reason_from_wire (reason_code r) ≡ r
unfolding reason_from_wire reason_code
reason_from_wire-reason_code protocol_error = refl
reason_from_wire-reason_code flow_control_error = refl
reason_from_wire-reason_code stream_limit_exceeded = refl
reason_from_wire-reason_code internal_error = refl
reason_from_wire-reason_code cancel = refl
reason_from_wire-reason_code unspecified = refl

-- The reset codes of the protocol, for the class of each refusal.
abbrev pub wire_code : RefusalClass → ℕ
wire_code protocol = 1
wire_code flow_control = 2
wire_code stream_limit = 3
wire_code internal = 4

-- The refusals that were counted for a class.
abbrev pub tally : RefusalCounts → RefusalClass → ℕ
tally c protocol = c.protocol
tally c flow_control = c.flow_control
tally c stream_limit = c.stream_limit
tally c internal = c.internal

-- A RESET frame on the wire: flag 0x08, and its code as the only payload byte.
abbrev pub reset_frame : ℕ → ℕ → Frame
reset_frame stream_id code = record { stream_id = stream_id; flags = 0x08; payload = code ∷ [] }

-- A refusal leaves this state and this output; `j` is any other stream and `other` any other class.
pub record IsRefused (a : MuxAcceptor) (out : MuxOutput) (v : FrameViolation) (class : RefusalClass)
    (j : ℕ) (other : RefusalClass) (p : MuxAcceptor × MuxOutput) : Type 0 where
  pub answered : p.1.frames ≡ out.frames ++ reset_frame v.stream_id (wire_code class) ∷ []
  pub reported : p.1.refusals ≡ out.refusals ++ record { class = class; violation = some v } ∷ []
  pub told :
      p.1.events
      ≡ out.events
        ++ (if contains_key v.stream_id a.streams
            then MuxEvent.reset v.stream_id (reason_from_wire (wire_code class)) ∷ []
            else [])
  pub unblocked : p.1.writable_streams ≡ out.writable_streams
  pub forgotten : lookup v.stream_id p.0.streams ≡ none
  pub untouched : lookup j p.0.streams ≡ lookup j a.streams
  pub tallied : tally p.0.refusals class ≡ min (tally a.refusals class + 1) (2 ^ 64 - 1)
  pub untallied : tally p.0.refusals other ≡ tally a.refusals other

reset-wire_code :
    (stream_id : ℕ) (class : RefusalClass)
    → Frame.reset stream_id (reset_code class) ≡ reset_frame stream_id (wire_code class)
unfolding Frame.reset reset_code reason_code reason_from_class
reset-wire_code stream_id protocol = refl
reset-wire_code stream_id flow_control = refl
reset-wire_code stream_id stream_limit = refl
reset-wire_code stream_id internal = refl

reason-wire_code :
    (class : RefusalClass) → reason_from_class class ≡ reason_from_wire (wire_code class)
unfolding reason_from_class reason_from_wire
reason-wire_code protocol = refl
reason-wire_code flow_control = refl
reason-wire_code stream_limit = refl
reason-wire_code internal = refl

record_refusal-tally :
    (c : RefusalCounts) (class : RefusalClass)
    → tally (record_refusal c class) class ≡ min (tally c class + 1) (2 ^ 64 - 1)
unfolding record_refusal
record_refusal-tally c protocol = refl
record_refusal-tally c flow_control = refl
record_refusal-tally c stream_limit = refl
record_refusal-tally c internal = refl

record_refusal-other :
    (c : RefusalCounts) (class other : RefusalClass)
    → class ≢ other
    → tally (record_refusal c class) other ≡ tally c other
unfolding record_refusal
record_refusal-other c protocol protocol h = absurd (h refl)
record_refusal-other c protocol flow_control h = refl
record_refusal-other c protocol stream_limit h = refl
record_refusal-other c protocol internal h = refl
record_refusal-other c flow_control protocol h = refl
record_refusal-other c flow_control flow_control h = absurd (h refl)
record_refusal-other c flow_control stream_limit h = refl
record_refusal-other c flow_control internal h = refl
record_refusal-other c stream_limit protocol h = refl
record_refusal-other c stream_limit flow_control h = refl
record_refusal-other c stream_limit stream_limit h = absurd (h refl)
record_refusal-other c stream_limit internal h = refl
record_refusal-other c internal protocol h = refl
record_refusal-other c internal flow_control h = refl
record_refusal-other c internal stream_limit h = refl
record_refusal-other c internal internal h = absurd (h refl)

-- A refused frame is answered by exactly one RESET with the wire code of its class: 1 for the
-- protocol, 2 for flow control, 3 for the stream limit, 4 for an internal refusal. It is reported
-- once, and told to the local side when its stream was open; the count of its class, and of no
-- other, grows by one up to 2^64 - 1. Its stream is forgotten; any other stream is as it was.
pub refuse_violation-IsRefused :
    (a : MuxAcceptor) (out : MuxOutput) (v : FrameViolation) (class : RefusalClass) (j : ℕ)
    (other : RefusalClass)
    → v.stream_id ≢ j
    → class ≢ other
    → IsRefused a out v class j other (refuse_violation a out v class)
unfolding refuse_violation
refuse_violation-IsRefused a out v class j other apart differs =
    elim (Bool-cases (contains_key v.stream_id a.streams)) [
      | inl known ↦
          rw (known, refuse_violation)
            (record {
              answered = rw (reset-wire_code v.stream_id class) refl;
              reported = refl;
              told = rw (known, reason-wire_code class) refl;
              unblocked = refl;
              forgotten =
                  unfold remove_stream in
                  ground (arith, lookup-remove v.stream_id v.stream_id a.streams);
              untouched =
                  unfold remove_stream in ground (arith, lookup-remove v.stream_id j a.streams);
              tallied = unfold remove_stream in record_refusal-tally a.refusals class;
              untallied =
                  unfold remove_stream in record_refusal-other a.refusals class other differs;
            })
      | inr unknown ↦
          rw (unknown, refuse_violation)
            (record {
              answered = rw (reset-wire_code v.stream_id class) refl;
              reported = refl;
              told = rw (unknown, append-nil) refl;
              unblocked = refl;
              forgotten = contains_key-none v.stream_id a.streams unknown;
              untouched = refl;
              tallied = record_refusal-tally a.refusals class;
              untallied = record_refusal-other a.refusals class other differs;
            })
    ]
