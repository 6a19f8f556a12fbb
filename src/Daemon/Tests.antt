-- ===== src/Daemon/Tests.antt =====
-- The theorems on src/daemon at concrete inputs.
use trufflepig.Prelude.{ℕ, ◌+◌, ◌≤◌, ◌≡◌, ◌↔◌, ◌⊎◌, arith, true, false, refl}
use trufflepig.Daemon.Deadline.{
  QueryDeadline, expired, remaining, pause_during, cap, cap_bounds, remaining-pause_during,
}

abbrev deadline : QueryDeadline
deadline = record { expires = 100 }

cap_runs : cap deadline 90 25 ≡ 10
unfolding cap
cap_runs = refl

cap_bounds_example :
    (cap deadline 90 25 ≤ 25)
    × (((expired deadline 90 ≡ true) × (cap deadline 90 25 ≡ 0))
        ⊎ ((expired deadline 90 ≡ false)
            × (90 + cap deadline 90 25 ≤ 100)
            × ((cap deadline 90 25 ≡ 25) ⊎ (90 + cap deadline 90 25 ≡ 100))
            × ((cap deadline 90 25 ≡ 0) ↔ (◌≡◌ {A = ℕ} 25 0))))
cap_bounds_example = cap_bounds deadline 90 25

remaining-pause_during_example : remaining (pause_during deadline 40 70) 70 ≡ remaining deadline 40
remaining-pause_during_example = remaining-pause_during deadline 40 70 (omega arith) (omega arith)
