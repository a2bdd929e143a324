-- ===== src/Prelude/Int.antt =====
-- C's `int`, as far as return values and exit codes need it: integers over the native numbers.
use Prim.Native.Nat.{ℕ, zero, suc, ◌-◌, ◌%◌, ◌^◌}
use mathlib.Core.Bool.{Bool, false}
use cellframe_node.Prelude.Tests.{◌==◌}

-- `negsuc n` is -(n + 1).
pub data ℤ : Type 0 where
  pos : ℕ → ℤ
  negsuc : ℕ → ℤ

-- The negative literals of the source: `neg 3` is -3.
abbrev pub neg : ℕ → ℤ
neg zero = pos 0
neg (suc n) = negsuc n

abbrev pub is_zero : ℤ → Bool
is_zero (pos n) = n == 0
is_zero (negsuc n) = false

-- The conversion to an unsigned type of `w` bits.
abbrev pub unsigned : ℕ → ℤ → ℕ
unsigned w (pos n) = n % 2 ^ w
unsigned w (negsuc n) = 2 ^ w - 1 - n % 2 ^ w
