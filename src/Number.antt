-- ===== src/Number.antt =====
-- The numbers of the language at the library's boundary, and the checks that
-- packages/core/src/index.ts makes of them. A number that has passed a check is an ℕ.
use mcp_usage_control.Base.{
  ℕ, ◌+◌, ◌≤◌, ◌<◌, ◌≡◌, arith, leb, ltb, ◌&&◌, if◌then◌else◌, Result, ok, throw, range_error,
}

-- `neg n` is -(n + 1); `non_integer` stands for fractions, infinities and not-a-number.
pub data Number : Type 0 where
  nat neg : ℕ → Number
  non_integer : Number

-- `Number.MAX_SAFE_INTEGER`.
abbrev pub max_safe_integer : ℕ
max_safe_integer = 9007199254740991

unfoldable pub assert_non_negative_integer : Number → Result ℕ
assert_non_negative_integer (nat n) = if leb n max_safe_integer then ok n else throw range_error
assert_non_negative_integer (neg n) = throw range_error
assert_non_negative_integer non_integer = throw range_error

unfoldable pub assert_positive_integer : Number → Result ℕ
assert_positive_integer (nat n) =
    if leb n max_safe_integer && ltb 0 n then ok n else throw range_error
assert_positive_integer (neg n) = throw range_error
assert_positive_integer non_integer = throw range_error

-- Of two checked numbers: the sum, if it is a safe integer.
unfoldable pub safe_add : ℕ → ℕ → Result ℕ
safe_add left right =
    if leb (left + right) max_safe_integer then ok (left + right) else throw range_error

pub assert_non_negative_integer_bound :
    (x : Number) (n : ℕ)
    → assert_non_negative_integer x ≡ ok n
    → (x ≡ nat n) × (n ≤ max_safe_integer)
unfolding assert_non_negative_integer
assert_non_negative_integer_bound (nat m) n h = ground arith
assert_non_negative_integer_bound (neg m) n h = ground arith
assert_non_negative_integer_bound non_integer n h = ground arith

pub assert_positive_integer_bound :
    (x : Number) (n : ℕ)
    → assert_positive_integer x ≡ ok n
    → (x ≡ nat n) × (0 < n) × (n ≤ max_safe_integer)
unfolding assert_positive_integer
assert_positive_integer_bound (nat m) n h = ground arith
assert_positive_integer_bound (neg m) n h = ground arith
assert_positive_integer_bound non_integer n h = ground arith

pub safe_add_sum : (a b n : ℕ) → safe_add a b ≡ ok n → (n ≡ a + b) × (n ≤ max_safe_integer)
unfolding safe_add
safe_add_sum a b n h = ground arith

pub safe_add_fits : (a b : ℕ) → a + b ≤ max_safe_integer → safe_add a b ≡ ok (a + b)
unfolding safe_add
safe_add_fits a b h = ground arith
