-- ===== src/Prelude/Int64.antt =====
-- Go's `int64`, as an integer with the wrap-around of its addition and subtraction.
use Prim.Native.Nat.{ℕ, suc, ◌+◌, ◌-◌, ◌^◌, ◌≤◌}
use mathlib.Core.Path.{◌≡◌}
use mathlib.Core.Bool.{Bool, true, false}
use native.Mathlib.Omega.{arith}
use hubnot.Prelude.Tests.{ℤ, pos, negsuc, ltb, leb, if◌then◌else◌}

abbrev pub max_int64 : ℕ
max_int64 = 2 ^ 63 - 1

-- `x > 0`, `x >= 0` and `x <= y`.
abbrev pub is_positive : ℤ → Bool
is_positive (pos n) = ltb 0 n
is_positive (negsuc n) = false

abbrev pub is_nonnegative : ℤ → Bool
is_nonnegative (pos n) = true
is_nonnegative (negsuc n) = false

abbrev pub le64 : ℤ → ℤ → Bool
le64 (pos m) (pos n) = leb m n
le64 (pos m) (negsuc n) = false
le64 (negsuc m) (pos n) = true
le64 (negsuc m) (negsuc n) = leb n m

-- An integer a - b that may have left the range by one wrap.
abbrev pub difference : ℕ → ℕ → ℤ
difference a b = if leb b a then pos (a - b) else negsuc (b - a - 1)

abbrev pub wrap64 : ℤ → ℤ
wrap64 (pos n) = if leb n max_int64 then pos n else difference n (2 ^ 64)
wrap64 (negsuc n) = if leb n max_int64 then negsuc n else difference (2 ^ 64) (suc n)

abbrev pub plus : ℤ → ℤ → ℤ
plus (pos a) (pos b) = pos (a + b)
plus (pos a) (negsuc b) = difference a (suc b)
plus (negsuc a) (pos b) = difference b (suc a)
plus (negsuc a) (negsuc b) = negsuc (suc (a + b))

abbrev pub negate : ℤ → ℤ
negate (pos n) = difference 0 n
negate (negsuc n) = pos (suc n)

unfoldable pub add64 : ℤ → ℤ → ℤ
add64 a b = wrap64 (plus a b)

unfoldable pub sub64 : ℤ → ℤ → ℤ
sub64 a b = wrap64 (plus a (negate b))

-- In range, the sum of two counts is exact.
pub add64_exact : (a b : ℕ) → a + b ≤ max_int64 → add64 (pos a) (pos b) ≡ pos (a + b)
unfolding add64
add64_exact a b h = ground arith

-- `x > max_int64 - y`, for a count `y` in range, asks whether the sum leaves the range.
pub sub64_exact : (b : ℕ) → b ≤ max_int64 → sub64 (pos max_int64) (pos b) ≡ pos (max_int64 - b)
unfolding sub64
sub64_exact b h = ground arith
