-- ===== src/Answers.antt =====
-- The checks of packages/core/src/index.ts that a store's answer passes before the client uses it:
-- the parts that scalar and vector answers share. A checked answer is the value that the source
-- casts, read by its fields.
pub mod Scalar
pub mod Vector
pub mod Sound
pub mod Growth
pub mod Encoding
pub mod Complete
pub mod Collisions
use mcp_usage_control.Base.{
  ℕ, Bool, true, false, List, [], ◌∷◌, String, ◌==◌, ◌||◌, ◌&&◌, not, Option, none, some, eqb,
  length, includes, Result, ok, throw, throw_if, type_error, ◌>>=◌, ◌>>◌, if◌then◌else◌,
}
use mcp_usage_control.Types.{UsageRequest, BudgetRemaining, DenialReason}
use mcp_usage_control.Types.DenialReason.{quota_exceeded, duplicate_operation}
use mcp_usage_control.Value.{
  Value, Values, nil, cons, Fields, property, require_record, require_array, require_boolean,
  validate_non_empty_string, optional, assert_non_negative_store_integer, is_text, is_optional_text,
}

-- `Map.get` where the map was built from a list: the last of equal keys counts.
abbrev pub last_by {ℓ} : {A : Type ℓ} → (A → String) → String → List A → Option A
last_by key k [] = none
last_by key k (x ∷ xs) = elim (last_by key k xs) [
  | some later ↦ some later
  | none ↦ if key x == k then some x else none
]

-- `Array.prototype.find` by key.
abbrev pub first_by {ℓ} : {A : Type ℓ} → (A → String) → String → List A → Option A
first_by key k [] = none
first_by key k (x ∷ xs) = if key x == k then some x else first_by key k xs

abbrev pub size : Values → ℕ
size nil = 0
size (cons v vs) = ℕ.suc (size vs)

-- An array of an expected length.
abbrev pub require_items : Value → ℕ → Result Values
require_items value expected = do
  items ← require_array value
  throw_if (not (eqb (size items) expected)) type_error
  ok items

-- A refused admission. Each of the last three fields may be absent.
pub record ReserveDenial : Type 0 where
  pub reason : DenialReason
  pub limiting_dimension_key : Option String
  pub limiting_budget_key : Option String
  pub remaining : Option ℕ

unfoldable pub require_store_result : Value → Result (Fields × Bool)
unfolding require_record
require_store_result value = do
  result ← require_record value
  accepted ← require_boolean (property "accepted" result)
  ok (result, accepted)

-- `validateGrowthCommon`: the flag and the new cursor, once the identity is the request's.
unfoldable pub validate_growth_common : Fields → String → String → Result (Bool × String)
unfolding validate_non_empty_string
validate_growth_common result reservation_id increment_id = do
  replayed ← require_boolean (property "replayed" result)
  throw_if
      (not (is_text (property "reservationId" result) reservation_id)
        || not (is_text (property "incrementId" result) increment_id))
      type_error
  cursor ← validate_non_empty_string (property "growthCursor" result)
  ok (replayed, cursor)

unfoldable pub denial_reason : Value → Result DenialReason
denial_reason value =
    if is_text value "quota_exceeded"
    then ok quota_exceeded
    else if is_text value "duplicate_operation"
    then ok duplicate_operation
    else throw type_error

-- `validateReserveDenial`. Of a scalar answer the dimension is not looked at.
unfoldable pub validate_reserve_denial : Fields → Bool → Result ReserveDenial
unfolding denial_reason validate_non_empty_string assert_non_negative_store_integer
validate_reserve_denial result vector = do
  reason ← denial_reason (property "reason" result)
  budget ← optional validate_non_empty_string (property "limitingBudgetKey" result)
  dimension ←
      if vector
      then optional validate_non_empty_string (property "limitingDimensionKey" result)
      else ok none
  remaining ← optional assert_non_negative_store_integer (property "remaining" result)
  ok (record {
    reason = reason;
    limiting_dimension_key = dimension;
    limiting_budget_key = budget;
    remaining = remaining;
  })

-- The identity of an accepted reservation.
abbrev pub has_identity : Fields → UsageRequest → Bool
has_identity reservation request =
    is_text (property "operationId" reservation) request.operation_id
    && is_text (property "principalId" reservation) request.principal.id
    && is_optional_text (property "tenantId" reservation) request.principal.tenant_id
    && is_optional_text (property "plan" reservation) request.principal.plan
    && is_text (property "tool" reservation) request.tool

-- The loop of `validateStringSet`.
unfoldable pub strings_from : List String → List String → Values → Result (List String)
unfolding validate_non_empty_string
strings_from expected seen nil = ok []
strings_from expected seen (cons value rest) = do
  item ← validate_non_empty_string value
  throw_if (not (includes item expected) || includes item seen) type_error
  items ← strings_from expected (item ∷ seen) rest
  ok (item ∷ items)

unfoldable pub validate_string_set : Value → List String → Result (List String)
unfolding strings_from
validate_string_set value expected = do
  items ← require_items value (length expected)
  strings_from expected [] items

-- The loop of `validateBudgetRemainingTopology`.
unfoldable pub balances_from : List String → List String → Values → Result (List BudgetRemaining)
unfolding require_record validate_non_empty_string assert_non_negative_store_integer
balances_from expected seen nil = ok []
balances_from expected seen (cons value rest) = do
  balance ← require_record value
  key ← validate_non_empty_string (property "key" balance)
  throw_if (not (includes key expected) || includes key seen) type_error
  remaining ← assert_non_negative_store_integer (property "remaining" balance)
  balances ← balances_from expected (key ∷ seen) rest
  ok (record { key = key; remaining = remaining } ∷ balances)

unfoldable pub validate_budget_remaining_topology :
    Value → List String → Result (List BudgetRemaining)
unfolding balances_from
validate_budget_remaining_topology value expected = do
  items ← require_items value (length expected)
  balances_from expected [] items
