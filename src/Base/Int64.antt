-- ===== src/Base/Int64.antt =====
-- Go's int64 in two's complement: a word below 2^64, whose upper half stands for the negatives.
use Prim.Native.Nat.{ℕ, ◌+◌, ◌-◌, ◌*◌, ◌/◌, ◌%◌}
use mathlib.Core.Bool.{Bool}
use finnri_api.Base.Tests.{ltb, leb, if◌then◌else◌}

abbrev pub Int64 : Type 0
Int64 = ℕ

abbrev pub two_63 : ℕ
two_63 = 9223372036854775808

abbrev pub two_64 : ℕ
two_64 = 18446744073709551616

abbrev pub max_int64 : Int64
max_int64 = 9223372036854775807

abbrev pub is_negative : Int64 → Bool
is_negative a = leb two_63 a

abbrev pub add64 : Int64 → Int64 → Int64
add64 a b = (a + b) % two_64

abbrev pub sub64 : Int64 → Int64 → Int64
sub64 a b = (a + (two_64 - b)) % two_64

abbrev pub mul64 : Int64 → Int64 → Int64
mul64 a b = a * b % two_64

abbrev pub neg64 : Int64 → Int64
neg64 a = (two_64 - a) % two_64

-- `a / n` and `a % n` by a positive constant n, which round towards zero
abbrev pub div64 : Int64 → ℕ → Int64
div64 a n = if is_negative a then neg64 ((two_64 - a) / n) else a / n

abbrev pub rem64 : Int64 → ℕ → Int64
rem64 a n = if is_negative a then neg64 ((two_64 - a) % n) else a % n

-- `a < b` and `a <= b` between signed words
abbrev pub lt64 : Int64 → Int64 → Bool
lt64 a b = ltb ((a + two_63) % two_64) ((b + two_63) % two_64)

abbrev pub le64 : Int64 → Int64 → Bool
le64 a b = leb ((a + two_63) % two_64) ((b + two_63) % two_64)
