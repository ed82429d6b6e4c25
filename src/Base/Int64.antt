-- ===== src/Base/Int64.antt =====
-- Go's int64 as its 64-bit pattern, a number below 2 ^ 64: arithmetic wraps around.
use Prim.Native.Nat.{ℕ, ◌+◌, ◌-◌, ◌%◌, ◌^◌}
use mathlib.Core.Bool.{Bool}
use push_component.Base.Tests.{ltb, leb}

abbrev pub modulus : ℕ
modulus = 2 ^ 64

abbrev pub sign_bit : ℕ
sign_bit = 2 ^ 63

abbrev pub of_int : ℕ → ℕ
of_int n = n % modulus

abbrev pub add64 : ℕ → ℕ → ℕ
add64 a b = (a + b) % modulus

abbrev pub sub64 : ℕ → ℕ → ℕ
sub64 a b = (a + modulus - b) % modulus

abbrev pub is_negative : ℕ → Bool
is_negative a = leb sign_bit a

-- Signed comparison: flip the sign bit and compare the patterns.
abbrev pub lt64 : ℕ → ℕ → Bool
lt64 a b = ltb ((a + sign_bit) % modulus) ((b + sign_bit) % modulus)

abbrev pub le64 : ℕ → ℕ → Bool
le64 a b = leb ((a + sign_bit) % modulus) ((b + sign_bit) % modulus)
