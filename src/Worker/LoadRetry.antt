-- ===== src/Worker/LoadRetry.antt =====
-- src/semantic/worker/load_retry.rs: when a failed model load may be tried again.
-- Instants and durations are nanoseconds; an instant is a number with no upper end.
pub mod Backoff
use trufflepig.Prelude.{
  ℕ, ◌+◌, ◌-◌, ◌*◌, ◌^◌, min, Bool, true, Option, none, some, List, [], ◌∷◌, leb,
}

abbrev pub initial_cooldown : ℕ
initial_cooldown = 500_000_000

abbrev pub max_cooldown : ℕ
max_cooldown = 30_000_000_000

-- `Duration::MAX`
abbrev pub max_duration : ℕ
max_duration = (2 ^ 64 - 1) * 1_000_000_000 + 999_999_999

pub record LoadRetry : Type 0 where
  pub retry_at : Option ℕ
  pub cooldown : ℕ

-- `LoadRetry::default()`
unfoldable pub default : LoadRetry
default = record { retry_at = none; cooldown = initial_cooldown }

unfoldable pub is_ready : LoadRetry → ℕ → Bool
is_ready s now = elim s.retry_at [ none ↦ true | some retry_at ↦ leb retry_at now ]

unfoldable pub failed : LoadRetry → ℕ → LoadRetry
failed s now = record {
  retry_at = some (now + s.cooldown);
  cooldown = min (min (s.cooldown * 2) max_duration) max_cooldown;
}

unfoldable pub succeeded : LoadRetry → LoadRetry
succeeded s = record { retry_at = none; cooldown = initial_cooldown }
