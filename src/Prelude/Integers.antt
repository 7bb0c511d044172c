-- ===== src/Prelude/Integers.antt =====
-- Signed integers over the native numbers, as far as niceness needs them.
use Prim.Native.Nat.{ℕ}
use mathlib.Core.Bool.{Bool}
use app_powerd.Prelude.Tests.{leb}

-- `negsuc n` is -(n + 1).
pub data ℤ : Type 0 where
  pos : ℕ → ℤ
  negsuc : ℕ → ℤ

-- `(-(lo + 1)..=hi).contains(&n)`.
abbrev pub in_range : ℕ → ℕ → ℤ → Bool
in_range lo hi (pos n) = leb n hi
in_range lo hi (negsuc n) = leb n lo
