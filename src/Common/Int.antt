-- ===== src/Common/Int.antt =====
-- Signed integers over the native numbers. `negsuc n` is -(n + 1).
use Prim.Native.Nat.{ℕ}
use mathlib.Core.Bool.{Bool}
use gtu_cse344_systems_progr.Common.Tests.{leb}

pub data ℤ : Type 0 where
  pos : ℕ → ℤ
  negsuc : ℕ → ℤ

-- INT_MAX and LONG_MAX; INT_MIN and LONG_MIN are `negsuc` of them.
abbrev pub int_max : ℕ
int_max = 2147483647

abbrev pub long_max : ℕ
long_max = 9223372036854775807

-- INT_MIN <= v && v <= INT_MAX
abbrev pub in_int : ℤ → Bool
in_int (pos n) = leb n int_max
in_int (negsuc n) = leb n int_max
