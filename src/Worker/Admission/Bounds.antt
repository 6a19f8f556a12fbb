-- ===== src/Worker/Admission/Bounds.antt =====
-- The counters of src/semantic/worker/admission.rs against the tickets that are alive.
use trufflepig.Prelude.{
  ℕ, ◌+◌, ◌≤◌, ◌≡◌, arith, List, [], ◌∷◌, ◌++◌, length, length-append, max_usize, false,
}
use trufflepig.Worker.Admission.{
  AdmissionLimits, AdmissionState, AdmissionTicket, InflightTicket, admitted, new, try_admit, begin,
  drop_ticket, drop_inflight,
}

-- The controller with every ticket that has been handed out and not yet dropped.
pub record System : Type 0 where
  pub state : AdmissionState
  pub tickets : List AdmissionTicket
  pub running : List InflightTicket

abbrev pub ticket_bytes : List AdmissionTicket → ℕ
ticket_bytes [] = 0
ticket_bytes (t ∷ ts) = t.raw_input_bytes + ticket_bytes ts

abbrev pub running_bytes : List InflightTicket → ℕ
running_bytes [] = 0
running_bytes (t ∷ ts) = t.raw_input_bytes + running_bytes ts

pub ticket_bytes-append :
    (xs ys : List AdmissionTicket) → ticket_bytes (xs ++ ys) ≡ ticket_bytes xs + ticket_bytes ys
ticket_bytes-append [] ys = omega arith
ticket_bytes-append (x ∷ xs) ys = omega (arith, ticket_bytes-append xs ys)

pub running_bytes-append :
    (xs ys : List InflightTicket) → running_bytes (xs ++ ys) ≡ running_bytes xs + running_bytes ys
running_bytes-append [] ys = omega arith
running_bytes-append (x ∷ xs) ys = omega (arith, running_bytes-append xs ys)

-- A ticket that has not been begun is dropped as one.
abbrev pub AllWaiting : List AdmissionTicket → Type 0
AllWaiting [] = Unit
AllWaiting (t ∷ ts) = (t.started ≡ false) × AllWaiting ts

AllWaiting-append :
    (before after : List AdmissionTicket) (ticket : AdmissionTicket)
    → AllWaiting (before ++ (ticket ∷ after))
    → (ticket.started ≡ false) × AllWaiting (before ++ after)
AllWaiting-append [] after ticket h = h
AllWaiting-append (t ∷ before) after ticket h =
    let (f, rest) = AllWaiting-append before after ticket h.1 in (f, (h.0, rest))

-- Any client may ask, and any live ticket may be begun or dropped, in any order.
pub data Step (limits : AdmissionLimits) : System → System → Type 0 where
  admit :
      (s : System) (inputs bytes : ℕ) (state : AdmissionState) (ticket : AdmissionTicket)
      → try_admit limits s.state inputs bytes ≡ admitted state ticket
      → Step limits s (record { state = state; tickets = ticket ∷ s.tickets; running = s.running })
  start :
      (state : AdmissionState) (before after : List AdmissionTicket) (ticket : AdmissionTicket)
      (running : List InflightTicket)
      → Step limits
          (record { state = state; tickets = before ++ (ticket ∷ after); running = running })
          (record {
            state = (begin state ticket).0;
            tickets = before ++ after;
            running = (begin state ticket).1 ∷ running;
          })
  abandon :
      (state : AdmissionState) (before after : List AdmissionTicket) (ticket : AdmissionTicket)
      (running : List InflightTicket)
      → Step limits
          (record { state = state; tickets = before ++ (ticket ∷ after); running = running })
          (record {
            state = drop_ticket state ticket;
            tickets = before ++ after;
            running = running;
          })
  finish :
      (state : AdmissionState) (before after : List InflightTicket) (ticket : InflightTicket)
      (tickets : List AdmissionTicket)
      → Step limits
          (record { state = state; tickets = tickets; running = before ++ (ticket ∷ after) })
          (record {
            state = drop_inflight state ticket;
            tickets = tickets;
            running = before ++ after;
          })

pub data Reach (limits : AdmissionLimits) : System → Type 0 where
  fresh : Reach limits (record { state = new; tickets = []; running = [] })
  next : {s t : System} → Reach limits s → Step limits s t → Reach limits t

-- Each counter is what the live tickets hold, and the limits are kept.
pub record IsCounted (limits : AdmissionLimits) (s : System) : Type 0 where
  pub waiting : AllWaiting s.tickets
  pub queued : s.state.queued ≡ length s.tickets
  pub inflight : s.state.inflight ≡ length s.running
  pub bytes : s.state.raw_input_bytes ≡ ticket_bytes s.tickets + running_bytes s.running
  pub admitted_le : s.state.queued + s.state.inflight ≤ limits.max_admitted
  pub bytes_le : s.state.raw_input_bytes ≤ limits.max_raw_input_bytes

abbrev pub IsUsizeLimits : AdmissionLimits → Type 0
IsUsizeLimits limits = (limits.max_admitted ≤ max_usize) × (limits.max_raw_input_bytes ≤ max_usize)

-- What an admission that succeeds says of the state before and after it.
admit-IsCounted :
    (limits : AdmissionLimits) (s : System) (inputs bytes : ℕ) (state : AdmissionState)
    (ticket : AdmissionTicket)
    → IsUsizeLimits limits
    → IsCounted limits s
    → try_admit limits s.state inputs bytes ≡ admitted state ticket
    → IsCounted limits (record { state = state; tickets = ticket ∷ s.tickets; running = s.running })
unfolding try_admit
admit-IsCounted limits s inputs bytes state ticket u v e = ground arith

Step-IsCounted :
    {limits : AdmissionLimits} {s t : System}
    → IsUsizeLimits limits
    → Step limits s t
    → IsCounted limits s
    → IsCounted limits t
unfolding begin drop_ticket drop_inflight
Step-IsCounted {limits} u (admit s inputs bytes state ticket e) v =
    admit-IsCounted limits s inputs bytes state ticket u v e
Step-IsCounted u (start state before after ticket running) v = ground (
  arith,
  AllWaiting-append before after ticket v.waiting,
  length-append before (ticket ∷ after),
  length-append before after,
  ticket_bytes-append before (ticket ∷ after),
  ticket_bytes-append before after,
)
Step-IsCounted u (abandon state before after ticket running) v = ground (
  arith,
  AllWaiting-append before after ticket v.waiting,
  length-append before (ticket ∷ after),
  length-append before after,
  ticket_bytes-append before (ticket ∷ after),
  ticket_bytes-append before after,
)
Step-IsCounted u (finish state before after ticket tickets) v = ground (
  arith,
  length-append before (ticket ∷ after),
  length-append before after,
  running_bytes-append before (ticket ∷ after),
  running_bytes-append before after,
)

-- Whatever clients do and in whatever order, every counter is what the live tickets hold, and the
-- limits on batches and on bytes are kept.
pub Reach-IsCounted :
    {limits : AdmissionLimits} {s : System}
    → IsUsizeLimits limits
    → Reach limits s
    → IsCounted limits s
unfolding new
Reach-IsCounted u fresh = record {
  waiting = tt;
  queued = omega arith;
  inflight = omega arith;
  bytes = omega arith;
  admitted_le = omega arith;
  bytes_le = omega arith;
}
Reach-IsCounted u (next r st) = Step-IsCounted u st (Reach-IsCounted u r)
