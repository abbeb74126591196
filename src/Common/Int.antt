-- ===== src/Common/Int.antt =====
-- Signed integers over the native numbers: what an `int` holds.
use Prim.Native.Nat.{ℕ, ◌-◌, ◌%◌, ◌^◌}
use mathlib.Core.Bool.{Bool, false}
use tju_tcp.Common.Tests.{ltb, ◌==◌, if◌then◌else◌}

-- `negsuc n` is -(n + 1).
pub data ℤ : Type 0 where
  pos : ℕ → ℤ
  negsuc : ℕ → ℤ

abbrev pub neg : ℕ → ℤ
neg n = if n == 0 then pos 0 else negsuc (n - 1)

abbrev pub eq_ℤ : ℤ → ℤ → Bool
eq_ℤ (pos a) (pos b) = a == b
eq_ℤ (pos a) (negsuc b) = false
eq_ℤ (negsuc a) (pos b) = false
eq_ℤ (negsuc a) (negsuc b) = a == b

-- C's `%` on a 32-bit pattern read as an `int`: it truncates towards zero.
abbrev pub rem32 : ℕ → ℕ → ℤ
rem32 w k = if ltb w (2 ^ 31) then pos (w % k) else neg ((2 ^ 32 - w) % k)
