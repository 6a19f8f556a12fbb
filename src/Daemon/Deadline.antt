-- ===== src/Daemon/Deadline.antt =====
-- src/daemon/deadline.rs: the wall-clock budget of one request.
-- Each call reads the clock at an instant that is its argument `now`; instants and durations are
-- nanoseconds.
use trufflepig.Prelude.{
  ℕ, ◌+◌, ◌-◌, ◌≤◌, ◌≡◌, ◌↔◌, ◌⊎◌, inl, inr, min, arith, Bool, true, false, leb, Bool-cases,
}

abbrev pub query_deadline : ℕ
query_deadline = 20_000_000_000

pub record QueryDeadline : Type 0 where
  pub expires : ℕ

unfoldable pub after : ℕ → ℕ → QueryDeadline
after now budget = record { expires = now + budget }

unfoldable pub start : ℕ → QueryDeadline
unfolding after
start now = after now query_deadline

unfoldable pub expired : QueryDeadline → ℕ → Bool
expired d now = leb d.expires now

-- `saturating_duration_since`
unfoldable pub remaining : QueryDeadline → ℕ → ℕ
remaining d now = d.expires - now

-- The work starts at `started` and ends at `ended`.
unfoldable pub pause_during : QueryDeadline → ℕ → ℕ → QueryDeadline
pause_during d started ended = record { expires = d.expires + (ended - started) }

unfoldable pub cap : QueryDeadline → ℕ → ℕ → ℕ
unfolding remaining
cap d now wait = min wait (remaining d now)

unfoldable pub capped : QueryDeadline → ℕ → ℕ → QueryDeadline
capped d now maximum = record { expires = min d.expires (now + maximum) }

-- A capped wait is never longer than asked for. Once the deadline has expired it is cut to nothing.
-- Before, it ends no later than the deadline; it is either as long as asked for or ends with the
-- deadline; and it is nothing only where nothing was asked for.
pub cap_bounds :
    (d : QueryDeadline) (now wait : ℕ)
    → (cap d now wait ≤ wait)
      × (((expired d now ≡ true) × (cap d now wait ≡ 0))
          ⊎ ((expired d now ≡ false)
              × (now + cap d now wait ≤ d.expires)
              × ((cap d now wait ≡ wait) ⊎ (now + cap d now wait ≡ d.expires))
              × ((cap d now wait ≡ 0) ↔ (wait ≡ 0))))
unfolding cap expired remaining
cap_bounds d now wait = (
  ground arith,
  elim (Bool-cases (leb d.expires now)) [
    | inl over ↦ inl (over, ground arith)
    | inr before ↦ inr (
      before,
      ground arith,
      elim (Bool-cases (leb wait (d.expires - now))) [
        | inl whole ↦ inl (ground arith)
        | inr cut ↦ inr (ground arith)
      ],
      (λ h. ground arith, λ h. ground arith),
    )
  ],
)

-- Work that is paused for costs nothing: where time is left when it starts, as much is left when it
-- ends.
pub remaining-pause_during :
    (d : QueryDeadline) (started ended : ℕ)
    → started ≤ ended
    → started ≤ d.expires
    → remaining (pause_during d started ended) ended ≡ remaining d started
unfolding remaining pause_during
remaining-pause_during d started ended h k = omega arith

-- Capping a deadline never extends it, and leaves no more than the maximum.
pub capped_bounds :
    (d : QueryDeadline) (now maximum later : ℕ)
    → (expired d later ≡ true → expired (capped d now maximum) later ≡ true)
      × (remaining (capped d now maximum) now ≡ min (remaining d now) maximum)
unfolding expired remaining capped
capped_bounds d now maximum later = (λ h. ground arith, omega arith)
