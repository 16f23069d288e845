-- ===== src/Values/Number.antt =====
-- A `number` as the program tests it: the finite ones as fractions, the sign apart, so that the
-- order, `Math.floor`, `Math.ceil` and products by whole numbers are exact.
use plug_node.Base.{ℕ, suc, ◌+◌, ◌*◌, ◌/◌, ◌%◌, Bool, false, ◌&&◌, ltb, ◌==◌}

-- `fraction n d` is n / (d + 1), and `negative n d` is -(n + 1) / (d + 1).
pub data Number : Type 0 where
  nan infinity neg_infinity : Number
  fraction negative : (n d : ℕ) → Number

abbrev pub whole : ℕ → Number
whole n = fraction n 0

-- `Number.isFinite(x) && x > 0`
abbrev pub is_positive : Number → Bool
is_positive (fraction n d) = ltb 0 n
is_positive _ = false

-- `Math.floor(x)` of a number that is not negative.
abbrev pub floor : (n d : ℕ) → ℕ
floor n d = n / suc d

-- `Math.ceil(x)` of a number that is not negative.
abbrev pub ceil : (n d : ℕ) → ℕ
ceil n d = (n + d) / suc d

-- `Number.isInteger(x) && x > 0`
abbrev pub is_positive_integer : Number → Bool
is_positive_integer (fraction n d) = ltb 0 n && (n % suc d == 0)
is_positive_integer _ = false

-- `x === -k`, for a whole number k that is not 0.
abbrev pub is_minus : ℕ → Number → Bool
is_minus k (negative n d) = suc n == k * suc d
is_minus k _ = false
