-- ===== src/Worker/Tests.antt =====
-- Runs of the models of src/semantic/worker, and its theorems at concrete inputs.
use native.Mathlib.Omega.{arith}
use trufflepig.Prelude.{
  ℕ, ◌+◌, ◌*◌, ◌^◌, ◌≤◌, ◌<◌, ◌≡◌, ◌⊎◌, ◌↔◌, refl, min, some, none, [], ◌∷◌, ◌++◌, true, ℕ_key,
  false,
}
use trufflepig.Prelude.Maps.{ℕ_ord}
use trufflepig.Worker.Scheduler.{
  FairScheduler, preferred, RequestClass, query, background, default, enqueue, pop,
}
use trufflepig.Worker.Scheduler.Views.{IsValid, waiting}
use trufflepig.Worker.Scheduler.Reach.{created, enqueued, popped, Reach-IsValid}
use trufflepig.Worker.Scheduler.Enqueue.{waiting-enqueue}
use trufflepig.Worker.Scheduler.Pop.{IsServed, pop_refines, IsPopped}
use trufflepig.Worker.Scheduler.Fairness.{
  pop_serves_preferred, background_not_starved, QueryRun, start, serves,
}
use trufflepig.Worker.Admission.{
  AdmissionLimits, AdmissionState, AdmissionTicket, admitted, try_admit, begin, drop_ticket,
  drop_inflight, new,
}
use trufflepig.Worker.Admission.Bounds.{System, IsCounted, fresh, next, admit, Reach-IsCounted}
use trufflepig.Worker.Admission.Decision.{try_admit_iff, try_admit-drop}
use trufflepig.Worker.LoadRetry.{is_ready, failed, initial_cooldown, max_cooldown}
use trufflepig.Worker.LoadRetry.Backoff.{
  history, fails, succeeds, failures, cooldown-failures, failed-is_ready,
}

-- Root 7 has a query and background work, root 3 a query.
abbrev busy : FairScheduler ℕ ℕ
busy = enqueue (enqueue (enqueue default 7 query 1) 7 background 2) 3 query 4

busy-IsValid : IsValid busy
busy-IsValid =
    Reach-IsValid (enqueued 3 query 4 (enqueued 7 background 2 (enqueued 7 query 1 created)))

-- The queries of both roots come first, the background work last.
busy_runs :
    ((pop busy).1 ≡ some 1)
    × ((pop (pop busy).0).1 ≡ some 4)
    × ((pop (pop (pop busy).0).0).1 ≡ some 2)
    × ((pop (pop (pop (pop busy).0).0).0).1 ≡ none)
unfolding pop enqueue default
busy_runs = (refl, refl, refl, refl)

pop_refines_example :
    ((pop busy ≡ (busy, none)) × ((root : ℕ) (class : RequestClass) → waiting busy root class ≡ []))
    ⊎ ((after : FairScheduler ℕ ℕ) × (item : ℕ) × (pop busy ≡ (after, some item))
        × IsServed busy after item)
pop_refines_example = pop_refines busy busy-IsValid

Reach-IsValid_example : IsValid (pop (enqueue (default {K = ℕ} {T = ℕ}) 7 query 1)).0
Reach-IsValid_example = Reach-IsValid (popped (enqueued 7 query 1 created))

waiting-enqueue_example :
    waiting (enqueue busy 7 query 9) 7 query ≡ waiting busy 7 query ++ (9 ∷ [])
waiting-enqueue_example = waiting-enqueue busy 7 7 query query 9

pop_serves_preferred_example : (p : IsPopped busy) × (p.class ≡ query)
unfolding enqueue default preferred
pop_serves_preferred_example = pop_serves_preferred busy 7 1 [] busy-IsValid refl

query_first : QueryRun busy (pop busy).0 1
unfolding enqueue default preferred
query_first =
    let (p, is) = pop_serves_preferred busy 7 1 [] busy-IsValid refl in
    serves 7 2 [] p start refl is

background_not_starved_example : 1 ≤ 3
unfolding enqueue default
background_not_starved_example = background_not_starved busy-IsValid query_first

abbrev limits : AdmissionLimits
limits = record { max_admitted = 2; max_raw_input_bytes = 10; max_inputs = 3 }

abbrev idle : System
idle = record {
  state = record { queued = 0; inflight = 0; raw_input_bytes = 0 };
  tickets = [];
  running = [];
}

abbrev one_queued : AdmissionState
one_queued = record { queued = 1; inflight = 0; raw_input_bytes = 6 }

abbrev ticket : AdmissionTicket
ticket = record { raw_input_bytes = 6; started = false }

admits : try_admit limits idle.state 2 6 ≡ admitted one_queued ticket
unfolding try_admit
admits = refl

idle-IsCounted : IsCounted limits idle
unfolding new
idle-IsCounted = Reach-IsCounted (omega arith) fresh

Reach-IsCounted_example :
    IsCounted limits (record { state = one_queued; tickets = ticket ∷ []; running = [] })
unfolding new try_admit
Reach-IsCounted_example =
    Reach-IsCounted (omega arith) (next fresh (admit idle 2 6 one_queued ticket refl))

try_admit_iff_example : ((2 ≤ 3) × (0 + 6 ≤ 10) × (0 + 0 < 2)) ↔ (
    (state : AdmissionState) × (t : AdmissionTicket) × (try_admit limits idle.state 2 6
      ≡ admitted state t))
try_admit_iff_example = try_admit_iff limits idle 2 6 (omega arith) idle-IsCounted

try_admit-drop_example :
    (drop_ticket one_queued ticket ≡ idle.state)
    × (drop_inflight (begin one_queued ticket).0 (begin one_queued ticket).1 ≡ idle.state)
try_admit-drop_example =
    try_admit-drop limits idle 2 6 one_queued ticket (omega arith) idle-IsCounted admits

cooldown-failures_example :
    ((history (failures (5 ∷ 3 ∷ []) [])).cooldown ≡ min (initial_cooldown * 2 ^ 2) max_cooldown)
    × ((history (failures (5 ∷ 3 ∷ []) (succeeds ∷ []))).cooldown
        ≡ min (initial_cooldown * 2 ^ 2) max_cooldown)
cooldown-failures_example = cooldown-failures (5 ∷ 3 ∷ []) []

failed-is_ready_example :
    (is_ready (failed (history (fails 5 ∷ [])) 9) 40 ≡ true → 9 + initial_cooldown ≤ 40)
    × (9 + max_cooldown ≤ 40 → is_ready (failed (history (fails 5 ∷ [])) 9) 40 ≡ true)
failed-is_ready_example = failed-is_ready (fails 5 ∷ []) 9 40
