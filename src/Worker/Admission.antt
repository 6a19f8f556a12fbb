-- ===== src/Worker/Admission.antt =====
-- src/semantic/worker/admission.rs: what the worker admits, and the tickets that give it back.
pub mod Bounds
pub mod Decision
use trufflepig.Prelude.{
  ℕ, ◌+◌, ◌-◌, ◌≤◌, ◌*◌, Bool, true, false, Option, none, some, if◌then◌else◌, ltb, leb, add_usize,
  saturating_add, checked_add,
}

pub record AdmissionLimits : Type 0 where
  pub max_admitted : ℕ
  pub max_raw_input_bytes : ℕ
  pub max_inputs : ℕ

pub record AdmissionState : Type 0 where
  pub queued : ℕ
  pub inflight : ℕ
  pub raw_input_bytes : ℕ

-- The `Arc` of a ticket is the one state that the operations thread.
pub record AdmissionTicket : Type 0 where
  pub raw_input_bytes : ℕ
  pub started : Bool

pub record InflightTicket : Type 0 where
  pub raw_input_bytes : ℕ

-- One constructor for each `bail!` of `try_admit`, in order.
pub data AdmissionError : Type 0 where
  too_many_inputs too_many_bytes queue_full byte_counter_overflow too_many_bytes_in_flight :
      AdmissionError

pub data Admitted : Type 0 where
  refused : AdmissionError → Admitted
  admitted : AdmissionState → AdmissionTicket → Admitted

-- `AdmissionState::default()`
unfoldable pub new : AdmissionState
new = record { queued = 0; inflight = 0; raw_input_bytes = 0 }

unfoldable pub try_admit : AdmissionLimits → AdmissionState → ℕ → ℕ → Admitted
try_admit limits state inputs raw_input_bytes =
    if ltb limits.max_inputs inputs
    then refused too_many_inputs
    else if ltb limits.max_raw_input_bytes raw_input_bytes
    then refused too_many_bytes
    else if leb limits.max_admitted (saturating_add state.queued state.inflight)
    then refused queue_full
    else elim (checked_add state.raw_input_bytes raw_input_bytes) [
      | none ↦ refused byte_counter_overflow
      | some total ↦
          if ltb limits.max_raw_input_bytes total
          then refused too_many_bytes_in_flight
          else admitted
              (record state { queued = add_usize state.queued 1; raw_input_bytes = total })
              (record { raw_input_bytes = raw_input_bytes; started = false })
    ]

-- `Drop for AdmissionTicket`
unfoldable pub drop_ticket : AdmissionState → AdmissionTicket → AdmissionState
drop_ticket state ticket = if ticket.started then state else record state {
  queued = state.queued - 1;
  raw_input_bytes = state.raw_input_bytes - ticket.raw_input_bytes;
}

-- `begin` consumes the ticket: its destructor runs, on `started`, when the call returns.
unfoldable pub begin : AdmissionState → AdmissionTicket → AdmissionState × InflightTicket
unfolding drop_ticket
begin state ticket =
    let moved : AdmissionState = record state {
      queued = state.queued - 1;
      inflight = add_usize state.inflight 1;
    } in
    (
      drop_ticket moved (record ticket { started = true }),
      record { raw_input_bytes = ticket.raw_input_bytes },
    )

-- `Drop for InflightTicket`
unfoldable pub drop_inflight : AdmissionState → InflightTicket → AdmissionState
drop_inflight state ticket = record state {
  inflight = state.inflight - 1;
  raw_input_bytes = state.raw_input_bytes - ticket.raw_input_bytes;
}
