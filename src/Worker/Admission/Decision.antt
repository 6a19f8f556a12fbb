-- ===== src/Worker/Admission/Decision.antt =====
-- When src/semantic/worker/admission.rs admits a batch, and what gives it back.
use trufflepig.Prelude.{ℕ, ◌+◌, ◌≤◌, ◌<◌, ◌≡◌, ◌↔◌, arith, false, add_usize}
use trufflepig.Worker.Admission.{
  AdmissionLimits, AdmissionState, AdmissionTicket, admitted, try_admit, begin, drop_ticket,
  drop_inflight,
}
use trufflepig.Worker.Admission.Bounds.{System, IsCounted, IsUsizeLimits}

-- A batch is admitted exactly when it has no more inputs than one batch may have, its bytes fit
-- beside those of the live tickets, and there is a place for one more batch.
pub try_admit_iff :
    (limits : AdmissionLimits) (s : System) (inputs bytes : ℕ)
    → IsUsizeLimits limits
    → IsCounted limits s
    → ((inputs ≤ limits.max_inputs)
        × (s.state.raw_input_bytes + bytes ≤ limits.max_raw_input_bytes)
        × (s.state.queued + s.state.inflight < limits.max_admitted))
      ↔ ((state : AdmissionState) × (ticket : AdmissionTicket) × (try_admit limits s.state inputs
              bytes
            ≡ admitted state ticket))
unfolding try_admit
try_admit_iff limits s inputs bytes u v = (
  λ h. (
    record s.state {
      queued = add_usize s.state.queued 1;
      raw_input_bytes = s.state.raw_input_bytes + bytes;
    },
    record { raw_input_bytes = bytes; started = false },
    ground arith,
  ),
  λ (state, ticket, e). ground arith,
)

-- A ticket gives back all that its admission took: the counters are as before, whether the batch is
-- dropped while it waits or after it has run.
pub try_admit-drop :
    (limits : AdmissionLimits) (s : System) (inputs bytes : ℕ) (state : AdmissionState)
    (ticket : AdmissionTicket)
    → IsUsizeLimits limits
    → IsCounted limits s
    → try_admit limits s.state inputs bytes ≡ admitted state ticket
    → (drop_ticket state ticket ≡ s.state)
      × (drop_inflight (begin state ticket).0 (begin state ticket).1 ≡ s.state)
unfolding try_admit begin drop_ticket drop_inflight
try_admit-drop limits s inputs bytes state ticket u v e = ground arith
