-- ===== src/Base/Int64.antt =====
-- Go's int64 as its bit pattern, a natural number below 2^64. Arithmetic wraps around as in Go;
-- the order and the division read the top bit as the sign.
use Prim.Native.Nat.{ℕ, ◌+◌, ◌-◌, ◌*◌, ◌/◌, ◌%◌, ◌^◌, ◌<◌}
use mathlib.Core.Path.{◌≡◌}
use mathlib.Core.Bool.{Bool, false, xor}
use native.Mathlib.Omega.{arith}
use pget.Base.Tests.{ltb, leb, if◌then◌else◌}

abbrev pub modulus : ℕ
modulus = 2 ^ 64

abbrev pub half : ℕ
half = 2 ^ 63

abbrev pub add64 : ℕ → ℕ → ℕ
add64 a b = (a + b) % modulus

abbrev pub sub64 : ℕ → ℕ → ℕ
sub64 a b = (a + modulus - b) % modulus

abbrev pub mul64 : ℕ → ℕ → ℕ
mul64 a b = a * b % modulus

abbrev pub is_negative : ℕ → Bool
is_negative a = leb half a

-- a < b and a ≤ b on the signed values.
abbrev pub lt64 : ℕ → ℕ → Bool
lt64 a b = ltb ((a + half) % modulus) ((b + half) % modulus)

abbrev pub le64 : ℕ → ℕ → Bool
le64 a b = leb ((a + half) % modulus) ((b + half) % modulus)

magnitude : ℕ → ℕ
magnitude a = if is_negative a then modulus - a else a

-- Go's division truncates towards zero. The divisor is not zero: the caller tests for the fault.
unfoldable pub div64 : ℕ → ℕ → ℕ
unfolding magnitude
div64 a b =
    let q = magnitude a / magnitude b in
    if xor (is_negative a) (is_negative b) then (modulus - q) % modulus else q % modulus

pub mul64-eq : (a b : ℕ) → a * b < half → mul64 a b ≡ a * b
mul64-eq a b h = omega arith

is_negative_small : (a : ℕ) → a < half → is_negative a ≡ false
is_negative_small a h = ground arith

pub div64-eq : (a b : ℕ) → a < half → b < half → a / b < half → div64 a b ≡ a / b
unfolding div64 xor
div64-eq a b h k q = rw (is_negative_small a h, is_negative_small b k) (omega arith)
