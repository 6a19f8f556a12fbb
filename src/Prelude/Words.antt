-- ===== src/Prelude/Words.antt =====
-- The arithmetic of `usize` (64 bits) and `u8` that the program writes out.
use Prim.Native.Nat.{ℕ, ◌+◌, ◌-◌, ◌*◌, ◌%◌, ◌^◌, min}
use mathlib.Core.Option.{Option, none, some}
use trufflepig.Prelude.Tests.{ltb, if◌then◌else◌}

abbrev pub max_usize : ℕ
max_usize = 2 ^ 64 - 1

-- `a + b` on `usize`.
abbrev pub add_usize : ℕ → ℕ → ℕ
add_usize a b = (a + b) % 2 ^ 64

-- `a.saturating_add(b)`; `saturating_sub` is the subtraction of ℕ.
abbrev pub saturating_add : ℕ → ℕ → ℕ
saturating_add a b = min (a + b) max_usize

-- `a.checked_add(b)`
abbrev pub checked_add : ℕ → ℕ → Option ℕ
checked_add a b = if ltb max_usize (a + b) then none else some (a + b)

-- `a.saturating_mul(b)`
abbrev pub saturating_mul : ℕ → ℕ → ℕ
saturating_mul a b = min (a * b) max_usize
