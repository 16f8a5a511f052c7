-- ===== src/Answers/Scalar.antt =====
-- The checks of a store's answers to `reserve` and `growReservation`.
use mcp_usage_control.Base.{
  ℕ, Bool, false, List, String, ◌==◌, not, any, eqb, Result, ok, throw_if, type_error, ◌>>=◌, ◌>>◌,
  if◌then◌else◌,
}
use mcp_usage_control.Number.{safe_add}
use mcp_usage_control.Types.{
  UsageRequest, CanonicalBudget, BudgetRemaining, ReservationRecord, StoreGrowResult,
}
use mcp_usage_control.Budgets.{budget_keys}
use mcp_usage_control.Value.{
  Value, Fields, property, require_record, validate_non_empty_string,
  validate_optional_non_empty_string, assert_non_negative_store_integer,
  assert_positive_store_integer, is_text, cast_text, cast_optional,
}
use mcp_usage_control.Answers.{
  ReserveDenial, require_store_result, validate_growth_common, validate_reserve_denial,
  has_identity, validate_string_set, validate_budget_remaining_topology,
}

-- A checked answer to `reserve`.
pub data ReserveAnswer : Type 0 where
  accepted : ReservationRecord → List BudgetRemaining → ReserveAnswer
  rejected : ReserveDenial → ReserveAnswer

unfoldable pub validate_scalar_accepted_reservation :
    Fields → UsageRequest → ℕ → List CanonicalBudget → Result ReserveAnswer
unfolding require_record validate_non_empty_string validate_optional_non_empty_string
    assert_non_negative_store_integer assert_positive_store_integer validate_string_set
    validate_budget_remaining_topology
validate_scalar_accepted_reservation result request units budgets = do
  reservation ← require_record (property "reservation" result)
  id ← validate_non_empty_string (property "id" reservation)
  throw_if (not (has_identity reservation request)) type_error
  reserved_units ← assert_non_negative_store_integer (property "reservedUnits" reservation)
  throw_if (not (eqb reserved_units units)) type_error
  expires_at ← assert_positive_store_integer (property "expiresAt" reservation)
  growth_cursor ← validate_optional_non_empty_string (property "growthCursor" reservation)
  keys ← validate_string_set (property "budgetKeys" reservation) (budget_keys budgets)
  balances ←
      validate_budget_remaining_topology (property "remainingByBudget" result) (budget_keys budgets)
  ok (
      ReserveAnswer.accepted
        (record {
          id = id;
          operation_id = cast_text (property "operationId" reservation);
          principal_id = cast_text (property "principalId" reservation);
          tenant_id = cast_optional (property "tenantId" reservation);
          plan = cast_optional (property "plan" reservation);
          tool = cast_text (property "tool" reservation);
          budget_keys = keys;
          reserved_units = reserved_units;
          expires_at = expires_at;
          growth_cursor = growth_cursor;
        })
        balances)

unfoldable pub validate_store_reserve_result :
    Value → UsageRequest → ℕ → List CanonicalBudget → Result ReserveAnswer
unfolding require_store_result validate_scalar_accepted_reservation validate_reserve_denial
validate_store_reserve_result value request units budgets = do
  answer ← require_store_result value
  if answer.1
      then validate_scalar_accepted_reservation answer.0 request units budgets
      else (validate_reserve_denial answer.0 false >>= λ denial. ok (ReserveAnswer.rejected denial))

-- A growth request after `canonicalizeGrowthRequest`.
pub record GrowthRequest : Type 0 where
  pub increment_id : String
  pub additional_units : ℕ
  pub budgets : List CanonicalBudget

-- `validateStoreGrowthResult` of a refusal.
unfoldable pub validate_growth_denial :
    Fields → Bool → String → GrowthRequest → Result StoreGrowResult
unfolding validate_non_empty_string assert_non_negative_store_integer
validate_growth_denial result replayed cursor request = do
  throw_if (not (is_text (property "reason" result) "quota_exceeded")) type_error
  key ← validate_non_empty_string (property "limitingBudgetKey" result)
  remaining ← assert_non_negative_store_integer (property "remaining" result)
  throw_if (not (any (λ budget. budget.key == key) request.budgets)) type_error
  ok (
      StoreGrowResult.denied (record {
        replayed = replayed;
        reservation_id = cast_text (property "reservationId" result);
        increment_id = cast_text (property "incrementId" result);
        growth_cursor = cursor;
        limiting_budget_key = key;
        remaining = remaining;
      }))

-- `validateStoreGrowthResult` of an acceptance.
unfoldable pub validate_growth_acceptance :
    Fields → Bool → String → ReservationRecord → GrowthRequest → Result StoreGrowResult
unfolding assert_non_negative_store_integer validate_budget_remaining_topology
validate_growth_acceptance result replayed cursor reservation request = do
  previous ← assert_non_negative_store_integer (property "previousReservedUnits" result)
  units ← assert_non_negative_store_integer (property "reservedUnits" result)
  throw_if (not (eqb previous reservation.reserved_units)) type_error
  expected ← safe_add reservation.reserved_units request.additional_units
  throw_if (not (eqb units expected)) type_error
  balances ←
      validate_budget_remaining_topology (property "remainingByBudget" result)
        (budget_keys request.budgets)
  ok (
      StoreGrowResult.accepted (record {
        replayed = replayed;
        reservation_id = cast_text (property "reservationId" result);
        increment_id = cast_text (property "incrementId" result);
        previous_reserved_units = previous;
        reserved_units = units;
        growth_cursor = cursor;
        remaining_by_budget = balances;
      }))

unfoldable pub validate_store_growth_result :
    Value → ReservationRecord → GrowthRequest → Result StoreGrowResult
unfolding require_store_result validate_growth_common validate_growth_acceptance
    validate_growth_denial
validate_store_growth_result value reservation request = do
  answer ← require_store_result value
  common ← validate_growth_common answer.0 reservation.id request.increment_id
  if answer.1
      then validate_growth_acceptance answer.0 common.0 common.1 reservation request
      else validate_growth_denial answer.0 common.0 common.1 request
