-- ===== src/Thresholds.antt =====
-- Quota thresholds of packages/core/src/thresholds.ts. The quotient of two floating-point numbers
-- and its comparison with a ratio are parameters: see `Ratios`.
pub mod Crossing
use mcp_usage_control.Base.{
  ℕ, ◌≤◌, ◌≡◌, Bool, true, false, not, eqb, ltb, leb, Result, ok, throw, throw_if, range_error,
  ◌>>=◌, ◌>>◌, if◌then◌else◌,
}
use mcp_usage_control.Number.{Number, assert_non_negative_integer}

-- Ratios as the language has them. A quotient by a fixed limit does not fall when the dividend
-- rises, as division of floating-point numbers rounds monotonically.
pub record Ratios : Type 1 where
  pub Ratio : Type 0
  pub zero_ratio : Ratio
  pub divide : ℕ → ℕ → Ratio
  pub le : Ratio → Ratio → Bool
  -- Finite and from 0 to 1.
  pub is_unit : Ratio → Bool
  pub divide_monotone :
      (a b limit : ℕ) (r : Ratio)
      → a ≤ b
      → le (divide b limit) r ≡ true
      → le (divide a limit) r ≡ true

pub record ScopedQuota : Type 0 where
  pub limit : Number
  pub remaining : Number

-- A quota that has passed its check.
pub record CheckedQuota : Type 0 where
  pub limit : ℕ
  pub remaining : ℕ

unfoldable pub validate_quota : ScopedQuota → Result CheckedQuota
validate_quota quota = do
  limit ← assert_non_negative_integer quota.limit
  remaining ← assert_non_negative_integer quota.remaining
  throw_if (ltb limit remaining) range_error
  ok (record { limit = limit; remaining = remaining })

module _ (R : Ratios) where
  pub data UsageQuotaThreshold : Type 0 where
    remaining_units : Number → UsageQuotaThreshold
    remaining_ratio : R.Ratio → UsageQuotaThreshold

  -- A threshold that has passed its check.
  pub data CheckedThreshold : Type 0 where
    units : ℕ → CheckedThreshold
    ratio : R.Ratio → CheckedThreshold

  pub record UsageQuotaThresholdEvaluation : Type 0 where
    pub reached : Bool
    pub exhausted : Bool
    pub remaining : ℕ
    pub remaining_ratio : R.Ratio

  unfoldable pub validate_threshold : UsageQuotaThreshold → Result CheckedThreshold
  validate_threshold (remaining_units value) =
      assert_non_negative_integer value >>= λ n. ok (units n)
  validate_threshold (remaining_ratio value) =
      if R.is_unit value then ok (ratio value) else throw range_error

  unfoldable pub ratio_of : CheckedQuota → R.Ratio
  ratio_of quota = if eqb quota.limit 0 then R.zero_ratio else R.divide quota.remaining quota.limit

  unfoldable pub is_reached : CheckedQuota → CheckedThreshold → Bool
  unfolding ratio_of
  is_reached quota (units n) = leb quota.remaining n
  is_reached quota (ratio r) = R.le (ratio_of quota) r

  unfoldable pub evaluate_usage_quota_threshold :
      ScopedQuota → UsageQuotaThreshold → Result UsageQuotaThresholdEvaluation
  unfolding validate_quota validate_threshold is_reached ratio_of
  evaluate_usage_quota_threshold quota threshold = do
    q ← validate_quota quota
    t ← validate_threshold threshold
    ok (record {
      reached = is_reached q t;
      exhausted = eqb q.remaining 0;
      remaining = q.remaining;
      remaining_ratio = ratio_of q;
    })

  -- The second evaluation is made only where the first is not reached.
  unfoldable pub did_usage_quota_threshold_cross :
      ScopedQuota → ScopedQuota → UsageQuotaThreshold → Result Bool
  unfolding evaluate_usage_quota_threshold validate_quota
  did_usage_quota_threshold_cross previous current threshold = do
    p ← validate_quota previous
    q ← validate_quota current
    throw_if (not (eqb p.limit q.limit)) range_error
    before ← evaluate_usage_quota_threshold previous threshold
    if before.reached
        then ok false
        else (evaluate_usage_quota_threshold current threshold >>= λ after. ok after.reached)
