-- ===== src/Prelude/Int.antt =====
-- Signed integers, and the `int` that a 32-bit pattern stands for.
use mathlib.Core.Bool.{Bool, false}
use Prim.Native.Nat.{ℕ, suc, ◌-◌, ◌/◌, ◌^◌}
use boi_os.Prelude.Tests.{ltb, leb, ◌==◌, if◌then◌else◌}

-- `negsuc n` is -(n + 1).
pub data ℤ : Type 0 where
  pos : ℕ → ℤ
  negsuc : ℕ → ℤ

abbrev pub signed32 : ℕ → ℤ
signed32 w = if ltb w (2 ^ 31) then pos w else negsuc (2 ^ 32 - w - 1)

-- -q
abbrev pub neg : ℕ → ℤ
neg q = if q == 0 then pos 0 else negsuc (q - 1)

-- C division by a positive divisor: towards zero.
abbrev pub div_int : ℤ → ℕ → ℤ
div_int (pos n) d = pos (n / d)
div_int (negsuc n) d = neg (suc n / d)

-- a - b
abbrev pub sub_ℕ : ℕ → ℕ → ℤ
sub_ℕ a b = if leb b a then pos (a - b) else negsuc (b - a - 1)

abbrev pub is_zero : ℤ → Bool
is_zero (pos n) = n == 0
is_zero (negsuc n) = false
