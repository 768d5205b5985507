-- ===== src/Common/Integers.antt =====
-- Python's unbounded integers over the native numbers, as far as the program computes with a
-- number that may be negative.
use Prim.Native.Nat.{ℕ}
use mathlib.Core.Option.{Option, none, some}

-- `negsuc n` is -(n + 1).
pub data ℤ : Type 0 where
  pos : ℕ → ℤ
  negsuc : ℕ → ℤ

-- The number, if it is not negative.
abbrev pub nonneg? : ℤ → Option ℕ
nonneg? (pos n) = some n
nonneg? (negsuc n) = none

-- `max(0, i)`
abbrev pub clamp_zero : ℤ → ℕ
clamp_zero (pos n) = n
clamp_zero (negsuc n) = 0
