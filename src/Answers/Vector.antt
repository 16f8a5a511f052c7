-- ===== src/Answers/Vector.antt =====
-- The checks of a store's answers to `reserveVector` and `growVectorReservation`.
use mcp_usage_control.Base.{
  ℕ, Bool, true, false, List, [], ◌∷◌, ◌++◌, String, ◌==◌, ◌||◌, not, map, Option, none, some, any,
  eqb, length, includes, Result, ok, throw, throw_if, type_error, ◌>>=◌, ◌>>◌, each, if◌then◌else◌,
}
use mcp_usage_control.Number.{safe_add}
use mcp_usage_control.Types.{
  UsageRequest, Demand, VectorBudgetRemaining, VectorReservationRecord, VectorReservationDimension,
  UsageDimensionReserved, StoreVectorGrowResult,
}
use mcp_usage_control.Budgets.{budget_keys}
use mcp_usage_control.Dimensions.{demand_key}
use mcp_usage_control.Value.{
  Value, Values, nil, cons, Fields, property, require_record, validate_non_empty_string,
  validate_optional_non_empty_string, assert_non_negative_store_integer,
  assert_positive_store_integer, is_text, cast_text, cast_optional,
}
use mcp_usage_control.Answers.{
  ReserveDenial, last_by, first_by, require_items, require_store_result, validate_growth_common,
  validate_reserve_denial, has_identity, validate_string_set,
}
use Prim.Native.String

-- The text by which the source compares a dimension with a budget: the keys around a NUL.
unfoldable pub pair_key : String → String → String
pair_key dimension budget = String.◌++◌ dimension (String.◌++◌ "\0" budget)

-- The pairs of all dimensions.
unfoldable pub expected_pairs : List Demand → List String
unfolding pair_key
expected_pairs [] = []
expected_pairs (d ∷ ds) = map (pair_key d.key) (budget_keys d.budgets) ++ expected_pairs ds

-- The texts of a `Set`, and its size.
abbrev pub distinct : List String → List String
distinct [] = []
distinct (k ∷ ks) = if includes k ks then distinct ks else k ∷ distinct ks

-- The loop of `validateVectorRemainingTopology`.
unfoldable pub vector_balances_from :
    List String → List String → Values → Result (List VectorBudgetRemaining)
unfolding require_record validate_non_empty_string assert_non_negative_store_integer pair_key
vector_balances_from expected seen nil = ok []
vector_balances_from expected seen (cons value rest) = do
  balance ← require_record value
  dimension ← validate_non_empty_string (property "dimensionKey" balance)
  budget ← validate_non_empty_string (property "budgetKey" balance)
  let key = pair_key dimension budget
  throw_if (not (includes key expected) || includes key seen) type_error
  remaining ← assert_non_negative_store_integer (property "remaining" balance)
  balances ← vector_balances_from expected (key ∷ seen) rest
  ok (record { dimension_key = dimension; budget_key = budget; remaining = remaining } ∷ balances)

unfoldable pub validate_vector_remaining_topology :
    Value → List Demand → Result (List VectorBudgetRemaining)
unfolding vector_balances_from expected_pairs
validate_vector_remaining_topology value dimensions = do
  items ← require_items value (length (distinct (expected_pairs dimensions)))
  vector_balances_from (expected_pairs dimensions) [] items

-- The loop over an accepted reservation's dimensions.
unfoldable pub dimensions_from :
    List Demand → List String → Values → Result (List VectorReservationDimension)
unfolding require_record validate_non_empty_string assert_non_negative_store_integer
    validate_string_set
dimensions_from expected seen nil = ok []
dimensions_from expected seen (cons value rest) = do
  dimension ← require_record value
  key ← validate_non_empty_string (property "key" dimension)
  demand ← elim (last_by demand_key key expected) [
    | none ↦ throw type_error
    | some demand ↦ ok demand
  ]
  throw_if (includes key seen) type_error
  reserved_units ← assert_non_negative_store_integer (property "reservedUnits" dimension)
  throw_if (not (eqb reserved_units demand.units)) type_error
  keys ← validate_string_set (property "budgetKeys" dimension) (budget_keys demand.budgets)
  dimensions ← dimensions_from expected (key ∷ seen) rest
  ok (record { key = key; budget_keys = keys; reserved_units = reserved_units } ∷ dimensions)

-- A checked answer to `reserveVector`.
pub data VectorReserveAnswer : Type 0 where
  accepted : VectorReservationRecord → List VectorBudgetRemaining → VectorReserveAnswer
  rejected : ReserveDenial → VectorReserveAnswer

unfoldable pub validate_vector_accepted_reservation :
    Fields → UsageRequest → List Demand → Result VectorReserveAnswer
unfolding require_record validate_non_empty_string validate_optional_non_empty_string
    assert_positive_store_integer dimensions_from validate_vector_remaining_topology
validate_vector_accepted_reservation result request demands = do
  reservation ← require_record (property "reservation" result)
  id ← validate_non_empty_string (property "id" reservation)
  throw_if (not (has_identity reservation request)) type_error
  expires_at ← assert_positive_store_integer (property "expiresAt" reservation)
  growth_cursor ← validate_optional_non_empty_string (property "growthCursor" reservation)
  items ← require_items (property "dimensions" reservation) (length demands)
  dimensions ← dimensions_from demands [] items
  balances ← validate_vector_remaining_topology (property "remainingByBudget" result) demands
  ok (
      VectorReserveAnswer.accepted
        (record {
          id = id;
          operation_id = cast_text (property "operationId" reservation);
          principal_id = cast_text (property "principalId" reservation);
          tenant_id = cast_optional (property "tenantId" reservation);
          plan = cast_optional (property "plan" reservation);
          tool = cast_text (property "tool" reservation);
          dimensions = dimensions;
          expires_at = expires_at;
          growth_cursor = growth_cursor;
        })
        balances)

unfoldable pub validate_store_vector_reserve_result :
    Value → UsageRequest → List Demand → Result VectorReserveAnswer
unfolding require_store_result validate_vector_accepted_reservation validate_reserve_denial
validate_store_vector_reserve_result value request demands = do
  answer ← require_store_result value
  if answer.1
      then validate_vector_accepted_reservation answer.0 request demands
      else (validate_reserve_denial answer.0 true >>= λ denial.
          ok (VectorReserveAnswer.rejected denial))

abbrev pub reserved_dimension_key : UsageDimensionReserved → String
reserved_dimension_key d = d.key

-- `expectedByKey.get(key) !== units`.
abbrev is_reserved : Option UsageDimensionReserved → ℕ → Bool
is_reserved none units = false
is_reserved (some d) units = eqb d.reserved_units units

-- The loop of `validateReservedDimensionTopology`.
unfoldable pub reserved_from :
    List UsageDimensionReserved → List String → Values → Result (List UsageDimensionReserved)
unfolding require_record validate_non_empty_string assert_non_negative_store_integer
reserved_from expected seen nil = ok []
reserved_from expected seen (cons value rest) = do
  dimension ← require_record value
  key ← validate_non_empty_string (property "key" dimension)
  units ← assert_non_negative_store_integer (property "reservedUnits" dimension)
  throw_if
      (includes key seen || not (is_reserved (last_by reserved_dimension_key key expected) units))
      type_error
  dimensions ← reserved_from expected (key ∷ seen) rest
  ok (record { key = key; reserved_units = units } ∷ dimensions)

unfoldable pub validate_reserved_dimension_topology :
    Value → List UsageDimensionReserved → Result (List UsageDimensionReserved)
unfolding reserved_from
validate_reserved_dimension_topology value expected = do
  items ← require_items value (length expected)
  reserved_from expected [] items

-- A growth request after `canonicalizeVectorGrowthRequest`.
pub record VectorGrowthRequest : Type 0 where
  pub increment_id : String
  pub dimensions : List Demand

-- `growthByKey.get(key)?.additionalUnits ?? 0`.
abbrev growth_of : String → List Demand → ℕ
growth_of key demands = elim (last_by demand_key key demands) [
  | none ↦ 0
  | some demand ↦ demand.units
]

abbrev pub as_reserved : VectorReservationDimension → UsageDimensionReserved
as_reserved d = record { key = d.key; reserved_units = d.reserved_units }

-- A dimension with the units that the request adds.
unfoldable pub expected_growth :
    List Demand → VectorReservationDimension → Result UsageDimensionReserved
expected_growth demands d = do
  units ← safe_add d.reserved_units (growth_of d.key demands)
  ok (record { key = d.key; reserved_units = units })

-- `validateStoreVectorGrowthResult` of a refusal.
unfoldable pub validate_vector_growth_denial :
    Fields → Bool → String → VectorGrowthRequest → Result StoreVectorGrowResult
unfolding validate_non_empty_string assert_non_negative_store_integer
validate_vector_growth_denial result replayed cursor request = do
  throw_if (not (is_text (property "reason" result) "quota_exceeded")) type_error
  dimension_key ← validate_non_empty_string (property "limitingDimensionKey" result)
  budget_key ← validate_non_empty_string (property "limitingBudgetKey" result)
  remaining ← assert_non_negative_store_integer (property "remaining" result)
  demand ← elim (first_by demand_key dimension_key request.dimensions) [
    | none ↦ throw type_error
    | some demand ↦ ok demand
  ]
  throw_if (not (any (λ budget. budget.key == budget_key) demand.budgets)) type_error
  ok (
      StoreVectorGrowResult.denied (record {
        replayed = replayed;
        reservation_id = cast_text (property "reservationId" result);
        increment_id = cast_text (property "incrementId" result);
        growth_cursor = cursor;
        limiting = record {
          dimension_key = dimension_key;
          budget_key = budget_key;
          remaining = remaining;
        };
      }))

-- `validateStoreVectorGrowthResult` of an acceptance.
unfoldable pub validate_vector_growth_acceptance :
    Fields
    → Bool
    → String
    → VectorReservationRecord
    → VectorGrowthRequest
    → Result StoreVectorGrowResult
unfolding validate_reserved_dimension_topology validate_vector_remaining_topology expected_growth
validate_vector_growth_acceptance result replayed cursor reservation request = do
  previous ←
      validate_reserved_dimension_topology (property "previousReservedByDimension" result)
        (map as_reserved reservation.dimensions)
  expected ← each (expected_growth request.dimensions) reservation.dimensions
  reserved ← validate_reserved_dimension_topology (property "reservedByDimension" result) expected
  balances ←
      validate_vector_remaining_topology (property "remainingByBudget" result) request.dimensions
  ok (
      StoreVectorGrowResult.accepted (record {
        replayed = replayed;
        reservation_id = cast_text (property "reservationId" result);
        increment_id = cast_text (property "incrementId" result);
        previous_reserved_by_dimension = previous;
        reserved_by_dimension = reserved;
        growth_cursor = cursor;
        remaining_by_budget = balances;
      }))

unfoldable pub validate_store_vector_growth_result :
    Value → VectorReservationRecord → VectorGrowthRequest → Result StoreVectorGrowResult
unfolding require_store_result validate_growth_common validate_vector_growth_acceptance
    validate_vector_growth_denial
validate_store_vector_growth_result value reservation request = do
  answer ← require_store_result value
  common ← validate_growth_common answer.0 reservation.id request.increment_id
  if answer.1
      then validate_vector_growth_acceptance answer.0 common.0 common.1 reservation request
      else validate_vector_growth_denial answer.0 common.0 common.1 request
