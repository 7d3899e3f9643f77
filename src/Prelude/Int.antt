-- ===== src/Prelude/Int.antt =====
-- C integers. A signed 32-bit value is kept as its bit pattern, a number below 2 ^ 32, and read as
-- an integer by `int32`. The results of library calls that may be negative are integers outright.
use Prim.Native.Nat.{ℕ, ◌-◌, ◌^◌, ◌%◌, ◌<◌}
use mathlib.Core.Path.{◌≡◌}
use mathlib.Core.Bool.{Bool, true, false}
use native.Mathlib.Omega.{arith}
use sgx_erlang_extension.Prelude.Tests.{ltb, ◌==◌, if◌then◌else◌}

-- `negsuc n` is -(n + 1).
pub data ℤ : Type 0 where
  pos : ℕ → ℤ
  negsuc : ℕ → ℤ

abbrev pub is_negative : ℤ → Bool
is_negative (pos n) = false
is_negative (negsuc n) = true

-- `z <= 0`
abbrev pub is_not_positive : ℤ → Bool
is_not_positive (pos n) = n == 0
is_not_positive (negsuc n) = true

-- `z == -1`
abbrev pub is_minus_one : ℤ → Bool
is_minus_one (pos n) = false
is_minus_one (negsuc n) = n == 0

-- The integer that a 32-bit pattern stands for.
unfoldable pub int32 : ℕ → ℤ
int32 p = if ltb p (2 ^ 31) then pos p else negsuc (2 ^ 32 - 1 - p)

pub int32_nonneg : (n : ℕ) → n < 2 ^ 31 → int32 (n % 2 ^ 32) ≡ pos n
unfolding int32
int32_nonneg n h = ground arith

-- `z == 0`
abbrev pub is_zero : ℤ → Bool
is_zero (pos n) = n == 0
is_zero (negsuc n) = false
