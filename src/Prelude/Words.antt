-- ===== src/Prelude/Words.antt =====
-- `u64` arithmetic. A value is a native number, and every operation that can leave the range
-- wraps, saturates or reports as the source does.
use Prim.Native.Nat.{ℕ, ◌+◌, ◌-◌, ◌*◌, ◌%◌, ◌^◌, min}
use mathlib.Core.Option.{Option, none, some}
use xernel.Prelude.Tests.{ltb, leb, if◌then◌else◌}

abbrev pub u64_mod : ℕ
u64_mod = 2 ^ 64

-- `u64::MAX`, which the system calls return for an error.
abbrev pub u64_max : ℕ
u64_max = 2 ^ 64 - 1

-- `a + b`, `a - b` and `a * b` of the release profile, which wrap.
abbrev pub add64 : ℕ → ℕ → ℕ
add64 a b = (a + b) % u64_mod

abbrev pub sub64 : ℕ → ℕ → ℕ
sub64 a b = (a + u64_mod - b) % u64_mod

abbrev pub mul64 : ℕ → ℕ → ℕ
mul64 a b = (a * b) % u64_mod

abbrev pub checked_add : ℕ → ℕ → Option ℕ
checked_add a b = if ltb (a + b) u64_mod then some (a + b) else none

abbrev pub checked_sub : ℕ → ℕ → Option ℕ
checked_sub a b = if leb b a then some (a - b) else none

abbrev pub saturating_add : ℕ → ℕ → ℕ
saturating_add a b = min (a + b) u64_max

-- Truncated subtraction is what `saturating_sub` computes.
abbrev pub saturating_sub : ℕ → ℕ → ℕ
saturating_sub a b = a - b
