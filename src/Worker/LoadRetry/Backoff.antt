-- ===== src/Worker/LoadRetry/Backoff.antt =====
-- The back-off of src/semantic/worker/load_retry.rs over a history of load attempts.
use native.Mathlib.Nat.{pow-suc}
use trufflepig.Prelude.{
  ℕ, suc, ◌+◌, ◌*◌, ◌^◌, ◌≤◌, ◌≡◌, refl, arith, min, true, List, [], ◌∷◌, length,
}
use trufflepig.Worker.LoadRetry.{
  LoadRetry, default, is_ready, failed, succeeded, initial_cooldown, max_cooldown, max_duration,
}

pub data Attempt : Type 0 where
  fails : ℕ → Attempt
  succeeds : Attempt

abbrev pub after : LoadRetry → Attempt → LoadRetry
after s (fails now) = failed s now
after s succeeds = succeeded s

-- Load attempts, the latest first.
abbrev pub history : List Attempt → LoadRetry
history [] = default
history (a ∷ attempts) = after (history attempts) a

pub record IsBounded (s : LoadRetry) : Type 0 where
  pub least : initial_cooldown ≤ s.cooldown
  pub most : s.cooldown ≤ max_cooldown

history-IsBounded : (attempts : List Attempt) → IsBounded (history attempts)
unfolding default failed succeeded
history-IsBounded [] = omega arith
history-IsBounded (fails now ∷ attempts) =
    let h = history-IsBounded attempts in omega (arith, h.least, h.most)
history-IsBounded (succeeds ∷ attempts) = omega arith

-- After any history a failed load bars the next attempt for at least half a second, and for no more
-- than half a minute.
pub failed-is_ready :
    (attempts : List Attempt) (now later : ℕ)
    → (is_ready (failed (history attempts) now) later ≡ true → now + initial_cooldown ≤ later)
      × (now + max_cooldown ≤ later → is_ready (failed (history attempts) now) later ≡ true)
unfolding is_ready failed
failed-is_ready attempts now later =
    let h = history-IsBounded attempts in
    (λ r. ground (arith, h.least), λ r. ground (arith, h.most))

-- A success makes the next attempt free, whatever failed before it.
pub succeeded-is_ready :
    (attempts : List Attempt) (now : ℕ) → is_ready (history (succeeds ∷ attempts)) now ≡ true
unfolding is_ready succeeded
succeeded-is_ready attempts now = refl

-- The failures of a list of instants, the latest first, with no success between.
abbrev pub failures : List ℕ → List Attempt → List Attempt
failures [] attempts = attempts
failures (now ∷ nows) attempts = fails now ∷ failures nows attempts

double :
    (cooldown n : ℕ)
    → cooldown ≡ min (initial_cooldown * 2 ^ n) max_cooldown
    → min (min (cooldown * 2) max_duration) max_cooldown
      ≡ min (initial_cooldown * 2 ^ suc n) max_cooldown
double cooldown n h = omega (arith, pow-suc 2 n)

-- `n` failures in a row after a success, or from the start, double the cooldown `n` times, up to
-- the maximum.
pub cooldown-failures :
    (nows : List ℕ) (attempts : List Attempt)
    → ((history (failures nows [])).cooldown
        ≡ min (initial_cooldown * 2 ^ length nows) max_cooldown)
      × ((history (failures nows (succeeds ∷ attempts))).cooldown
          ≡ min (initial_cooldown * 2 ^ length nows) max_cooldown)
unfolding default failed succeeded
cooldown-failures [] attempts = (refl, refl)
cooldown-failures (now ∷ nows) attempts =
    let (h, k) = cooldown-failures nows attempts in (double _ _ h, double _ _ k)
