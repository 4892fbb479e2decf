-- ===== src/Prelude/Integers.antt =====
-- Signed numbers over the native ones.
use Prim.Native.Nat.{ℕ, ◌-◌, ◌%◌}
use mathlib.Core.Bool.{Bool, true, false}
use koperator.Prelude.Tests.{ltb, ◌==◌, if◌then◌else◌}

-- negsuc n is - (n + 1)
pub data ℤ : Type 0 where
  pos negsuc : ℕ → ℤ

unfoldable pub less_int : ℤ → ℤ → Bool
less_int (pos a) (pos b) = ltb a b
less_int (pos a) (negsuc b) = false
less_int (negsuc a) (pos b) = true
less_int (negsuc a) (negsuc b) = ltb b a

unfoldable pub equal_int : ℤ → ℤ → Bool
equal_int (pos a) (pos b) = a == b
equal_int (negsuc a) (negsuc b) = a == b
equal_int _ _ = false

-- 16 bits as a two's complement
abbrev pub of_bits16 : ℕ → ℤ
of_bits16 r = if ltb r 32768 then pos r else negsuc (65535 - r)

-- int16(n)
unfoldable pub int16 : ℤ → ℤ
int16 (pos n) = of_bits16 (n % 65536)
int16 (negsuc n) = of_bits16 (65535 - n % 65536)
