-- ===== src/Memory/Checks.antt =====
-- What the methods of `MemoryUsageStore` check and compute of their inputs before they look at the
-- state: the lines above each `this.recoverExpired(now)`.
use mcp_usage_control.Base.{ℕ, List, String, Result, ok, ◌>>=◌, ◌>>◌}
use mcp_usage_control.Number.{assert_non_negative_integer, assert_positive_integer, safe_add}
use mcp_usage_control.Types.{
  CanonicalBudget, Demand, ReserveInput, RenewInput, SettleInput, GrowReservationInput,
  VectorReserveInput, VectorGrowReservationInput,
}
use mcp_usage_control.Collation.{Collation}
use mcp_usage_control.Input.{assert_usage_identifier, validate_usage_request_envelope}
use mcp_usage_control.Budgets.{canonicalize_budgets}
use mcp_usage_control.Dimensions.{
  canonicalize_usage_dimensions, canonicalize_vector_growth_dimensions,
}

pub record Admission : Type 0 where
  pub units : ℕ
  pub budgets : List CanonicalBudget
  pub expires_at : ℕ

unfoldable pub check_reserve_input : ⦃c : Collation⦄ → ℕ → ReserveInput → Result Admission
check_reserve_input now input = do
  units ← assert_non_negative_integer input.units
  budgets ← canonicalize_budgets input.budgets
  ttl ← assert_positive_integer input.ttl_ms
  validate_usage_request_envelope input.request
  expires_at ← safe_add now ttl
  ok (record { units = units; budgets = budgets; expires_at = expires_at })

pub record VectorAdmission : Type 0 where
  pub dimensions : List Demand
  pub expires_at : ℕ

unfoldable pub check_reserve_vector_input :
    ⦃c : Collation⦄ → ℕ → VectorReserveInput → Result VectorAdmission
check_reserve_vector_input now input = do
  ttl ← assert_positive_integer input.ttl_ms
  validate_usage_request_envelope input.request
  dimensions ← canonicalize_usage_dimensions input.dimensions
  expires_at ← safe_add now ttl
  ok (record { dimensions = dimensions; expires_at = expires_at })

unfoldable pub check_renew_input : ℕ → RenewInput → Result ℕ
check_renew_input now input = do ttl ← assert_positive_integer input.ttl_ms; safe_add now ttl

pub record Settlement : Type 0 where
  pub actual_units : ℕ
  pub tombstone_expires_at : ℕ

unfoldable pub check_settle_input : ℕ → ℕ → SettleInput → Result Settlement
check_settle_input now idempotency_ttl_ms input = do
  actual ← assert_non_negative_integer input.actual_units
  tombstone ← safe_add now idempotency_ttl_ms
  ok (record { actual_units = actual; tombstone_expires_at = tombstone })

pub record Increment : Type 0 where
  pub reservation_id : String
  pub increment_id : String
  pub expected_growth_cursor : String
  pub units : ℕ
  pub budgets : List CanonicalBudget

-- `validateGrowthInput` and the canonical budgets.
unfoldable pub check_growth_input : ⦃c : Collation⦄ → GrowReservationInput → Result Increment
check_growth_input input = do
  assert_usage_identifier input.reservation_id
  assert_usage_identifier input.increment_id
  assert_usage_identifier input.expected_growth_cursor
  units ← assert_positive_integer input.additional_units
  budgets ← canonicalize_budgets input.budgets
  ok (record {
    reservation_id = input.reservation_id;
    increment_id = input.increment_id;
    expected_growth_cursor = input.expected_growth_cursor;
    units = units;
    budgets = budgets;
  })

pub record VectorIncrement : Type 0 where
  pub reservation_id : String
  pub increment_id : String
  pub expected_growth_cursor : String
  pub dimensions : List Demand

-- `validateVectorGrowthInput` and the canonical dimensions.
unfoldable pub check_vector_growth_input :
    ⦃c : Collation⦄ → VectorGrowReservationInput → Result VectorIncrement
check_vector_growth_input input = do
  assert_usage_identifier input.reservation_id
  assert_usage_identifier input.increment_id
  assert_usage_identifier input.expected_growth_cursor
  dimensions ← canonicalize_vector_growth_dimensions input.dimensions
  ok (record {
    reservation_id = input.reservation_id;
    increment_id = input.increment_id;
    expected_growth_cursor = input.expected_growth_cursor;
    dimensions = dimensions;
  })
