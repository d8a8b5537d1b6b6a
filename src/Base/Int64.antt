-- ===== src/Base/Int64.antt =====
-- Go's `int64`, and with it `time.Duration`, as its two's complement bit pattern: a number below
-- 2 ^ 64. Sums wrap, and the signed order compares the patterns after the sign bit is flipped.
use Prim.Native.Nat.{ℕ, ◌+◌, ◌-◌, ◌%◌, ◌^◌, ◌<◌}
use mathlib.Core.Path.{◌≡◌}
use mathlib.Core.Bool.{Bool}
use native.Mathlib.Omega.{arith}
use launce.Base.Tests.{ltb, leb, if◌then◌else◌}

abbrev pub add64 : ℕ → ℕ → ℕ
add64 a b = (a + b) % 2 ^ 64

abbrev pub sub64 : ℕ → ℕ → ℕ
sub64 a b = (a + 2 ^ 64 - b % 2 ^ 64) % 2 ^ 64

-- The place of a pattern in the signed order.
abbrev pub rank : ℕ → ℕ
rank a = (a + 2 ^ 63) % 2 ^ 64

abbrev pub lt64 : ℕ → ℕ → Bool
lt64 a b = ltb (rank a) (rank b)

abbrev pub le64 : ℕ → ℕ → Bool
le64 a b = leb (rank a) (rank b)

-- Go's built-in `max`.
abbrev pub max64 : ℕ → ℕ → ℕ
max64 a b = if lt64 a b then b else a

-- The pattern of -1.
abbrev pub minus_one : ℕ
minus_one = 2 ^ 64 - 1

-- The patterns, and those of them that stand for numbers that are not negative.
abbrev pub IsInt64 : ℕ → Type 0
IsInt64 a = a < 2 ^ 64

abbrev pub IsNonneg : ℕ → Type 0
IsNonneg a = a < 2 ^ 63

pub add64_comm : (a b : ℕ) → add64 a b ≡ add64 b a
add64_comm a b = omega arith

pub add64_assoc : (a b c : ℕ) → add64 (add64 a b) c ≡ add64 a (add64 b c)
add64_assoc a b c = omega arith

-- On patterns that are not negative the signed order is that of the numbers.
pub lt64-nonneg : (a b : ℕ) → IsNonneg a → IsNonneg b → lt64 a b ≡ ltb a b
lt64-nonneg a b h k = ground arith

-- Exactly the patterns from 2 ^ 63 on are negative.
pub lt64-zero : (a : ℕ) → IsInt64 a → lt64 a 0 ≡ leb (2 ^ 63) a
lt64-zero a h = ground arith
