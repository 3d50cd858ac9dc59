-- ===== src/Prelude/Int.antt =====
-- The `int` and `long` of the machine: 32-bit two's complement, wrapping at both ends.
use Prim.Native.Nat.{ℕ, zero, suc, ◌+◌, ◌-◌, ◌%◌}
use mathlib.Core.Bool.{Bool, true, false}
use hoca_operating_system.Prelude.Tests.{◌==◌, ltb, leb, if◌then◌else◌}

-- `negsuc n` is -(n + 1).
pub data ℤ : Type 0 where
  pos : ℕ → ℤ
  negsuc : ℕ → ℤ

abbrev pub int_max : ℕ
int_max = 2147483647

-- `x + 1` as the machine computes it: the largest `int` is followed by the smallest.
abbrev pub inc : ℤ → ℤ
inc (pos n) = if n == int_max then negsuc int_max else pos (n + 1)
inc (negsuc zero) = pos 0
inc (negsuc (suc n)) = negsuc n

-- `x - 1` as the machine computes it.
abbrev pub dec : ℤ → ℤ
dec (pos zero) = negsuc 0
dec (pos (suc n)) = pos n
dec (negsuc n) = if n == int_max then pos int_max else negsuc (n + 1)

-- The 32 bits of a value, and the value of 32 bits.
abbrev pub bits : ℤ → ℕ
bits (pos n) = n % 4294967296
bits (negsuc n) = 4294967295 - n % 4294967296

abbrev pub of_bits : ℕ → ℤ
of_bits n = if leb n int_max then pos n else negsuc (4294967295 - n)

abbrev pub add32 : ℤ → ℤ → ℤ
add32 a b = of_bits ((bits a + bits b) % 4294967296)

abbrev pub sub32 : ℤ → ℤ → ℤ
sub32 a b = of_bits ((bits a + 4294967296 - bits b) % 4294967296)

abbrev pub is_neg : ℤ → Bool
is_neg (pos _) = false
is_neg (negsuc _) = true

abbrev pub same_int : ℤ → ℤ → Bool
same_int (pos a) (pos b) = a == b
same_int (pos a) (negsuc b) = false
same_int (negsuc a) (pos b) = false
same_int (negsuc a) (negsuc b) = a == b

-- `a < b` on signed values.
abbrev pub lt_int : ℤ → ℤ → Bool
lt_int (pos a) (pos b) = ltb a b
lt_int (pos a) (negsuc b) = false
lt_int (negsuc a) (pos b) = true
lt_int (negsuc a) (negsuc b) = ltb b a
