-- ===== src/Common/Numbers.antt =====
-- JavaScript numbers as far as the code tells them apart: an integer, or anything else.
use Prim.Native.Nat.{ℕ}
use mathlib.Core.Bool.{Bool, true, false}
use friendly_ai_explorer.Common.Tests.{ltb}

-- `negsuc n` is -(n + 1).
pub data ℤ : Type 0 where
  pos : ℕ → ℤ
  negsuc : ℕ → ℤ

-- `fractional` stands for every number that is no integer: fractions, NaN and the infinities.
pub data Number : Type 0 where
  integer : ℤ → Number
  fractional : Number

-- `Number.isInteger(n)`
abbrev pub is_integer : Number → Bool
is_integer (integer i) = true
is_integer fractional = false

-- `n < k` and `n > k` for a constant k, at an integer; the code asks for an integer first.
abbrev pub number_below : Number → ℕ → Bool
number_below (integer (pos n)) k = ltb n k
number_below (integer (negsuc n)) k = true
number_below fractional k = false

abbrev pub number_above : Number → ℕ → Bool
number_above (integer (pos n)) k = ltb k n
number_above (integer (negsuc n)) k = false
number_above fractional k = false

abbrev pub natural : ℕ → Number
natural n = integer (pos n)
