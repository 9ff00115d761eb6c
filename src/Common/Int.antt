-- ===== src/Common/Int.antt =====
-- The C type `int`, where a program returns -1, compares with 0 or reads a signed setting.
use Prim.Native.Nat.{ℕ, ◌-◌, ◌%◌}
use mathlib.Core.Bool.{Bool, true, false}
use robotd.Common.Tests.{ltb}

-- `negsuc n` is -(n + 1).
pub data ℤ : Type 0 where
  pos : ℕ → ℤ
  negsuc : ℕ → ℤ

-- `x != 0`
abbrev pub is_nonzero : ℤ → Bool
is_nonzero (pos n) = ltb 0 n
is_nonzero (negsuc n) = true

-- `x < 0`
abbrev pub is_negative : ℤ → Bool
is_negative (pos n) = false
is_negative (negsuc n) = true

-- The status that a parent sees after `exit(x)`: the low eight bits.
abbrev pub exit_status : ℤ → ℕ
exit_status (pos n) = n % 256
exit_status (negsuc n) = 255 - n % 256
