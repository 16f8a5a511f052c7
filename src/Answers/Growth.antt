-- ===== src/Answers/Growth.antt =====
-- What the checks of an answer to `growReservation` show.
use mcp_usage_control.Answers.Sound.{
  balance_keys, HasKeys, validate_budget_remaining_topology-HasKeys,
}
use mcp_usage_control.Answers.Scalar.{
  validate_store_growth_result, validate_growth_acceptance, validate_growth_denial, GrowthRequest,
}
use mcp_usage_control.Base.{
  ◌==◌, any, eqb→eq, throw_unless_passes, throw_if_passes, ok_injective, type_error, eqb, Bool, ◌+◌,
  ◌≤◌, ◌≡◌, subst, true, false, not, Bool-cases, inl, inr, String, arith, ok, >>=-eq-ok, ◌||◌,
  throw_if,
}
use mcp_usage_control.Number.{safe_add_sum, safe_add, max_safe_integer}
use mcp_usage_control.Types.{StoreGrowResult, ReservationRecord}
use mcp_usage_control.Budgets.{budget_keys}
use mcp_usage_control.Value.{
  require_boolean, cast_text, is_text, is_text-cast, Value, Fields, property,
  validate_non_empty_string, assert_non_negative_store_integer,
}
use mcp_usage_control.Answers.{
  validate_growth_common, require_store_result, validate_budget_remaining_topology,
}

-- What an answer to a growth must say of the reservation and of the request.
abbrev pub IsGrowthAnswer : ReservationRecord → GrowthRequest → StoreGrowResult → Type 0
IsGrowthAnswer reservation request (StoreGrowResult.accepted r) =
    (r.reservation_id ≡ reservation.id)
    × (r.increment_id ≡ request.increment_id)
    × (r.previous_reserved_units ≡ reservation.reserved_units)
    × (r.reserved_units ≡ reservation.reserved_units + request.additional_units)
    × (r.reserved_units ≤ max_safe_integer)
    × HasKeys (budget_keys request.budgets) (balance_keys r.remaining_by_budget)
IsGrowthAnswer reservation request (StoreGrowResult.denied r) =
    (r.reservation_id ≡ reservation.id)
    × (r.increment_id ≡ request.increment_id)
    × (any (λ b. b.key == r.limiting_budget_key) request.budgets ≡ true)

-- A growth answer names the reservation and the increment.
abbrev IsNamed : Fields → ReservationRecord → GrowthRequest → Type 0
IsNamed fields reservation request =
    (cast_text (property "reservationId" fields) ≡ reservation.id)
    × (cast_text (property "incrementId" fields) ≡ request.increment_id)

neither_differs : (a b : Bool) → not a || not b ≡ false → (a ≡ true) × (b ≡ true)
neither_differs a b h = ground arith

validate_growth_common-IsNamed :
    (fields : Fields) (reservation : ReservationRecord) (request : GrowthRequest)
    (common : Bool × String)
    → validate_growth_common fields reservation.id request.increment_id ≡ ok common
    → IsNamed fields reservation request
unfolding validate_growth_common
validate_growth_common-IsNamed fields reservation request common h =
    let reserved = property "reservationId" fields in
    let increment = property "incrementId" fields in
    let (_, _, h1) = >>=-eq-ok (require_boolean (property "replayed" fields)) _ h in
    let (_, passed, _) =
      >>=-eq-ok
        (throw_if
          (not (is_text reserved reservation.id) || not (is_text increment request.increment_id))
          type_error)
        _ h1 in
    let (first, second) = neither_differs _ _ (throw_if_passes _ _ _ passed) in
    (is_text-cast reserved reservation.id first, is_text-cast increment request.increment_id second)

growth_denial-IsGrowthAnswer :
    (fields : Fields) (replayed : Bool) (cursor : String) (reservation : ReservationRecord)
    (request : GrowthRequest) (answer : StoreGrowResult)
    → IsNamed fields reservation request
    → validate_growth_denial fields replayed cursor request ≡ ok answer
    → IsGrowthAnswer reservation request answer
unfolding validate_growth_denial
growth_denial-IsGrowthAnswer fields replayed cursor reservation request answer (r, i) h =
    let (_, _, h1) =
      >>=-eq-ok (throw_if (not (is_text (property "reason" fields) "quota_exceeded")) type_error) _
        h in
    let (k, _, h2) =
      >>=-eq-ok (validate_non_empty_string (property "limitingBudgetKey" fields)) _ h1 in
    let (n, _, h3) =
      >>=-eq-ok (assert_non_negative_store_integer (property "remaining" fields)) _ h2 in
    let (_, named, h4) =
      >>=-eq-ok (throw_if (not (any (λ b. b.key == k) request.budgets)) type_error) _ h3 in
    subst (IsGrowthAnswer reservation request) (ok_injective h4)
      (r, i, throw_unless_passes (any (λ b. b.key == k) request.budgets) _ _ named)

growth_acceptance-IsGrowthAnswer :
    (fields : Fields) (replayed : Bool) (cursor : String) (reservation : ReservationRecord)
    (request : GrowthRequest) (answer : StoreGrowResult)
    → IsNamed fields reservation request
    → validate_growth_acceptance fields replayed cursor reservation request ≡ ok answer
    → IsGrowthAnswer reservation request answer
unfolding validate_growth_acceptance
growth_acceptance-IsGrowthAnswer fields replayed cursor reservation request answer (r, i) h =
    let (previous, _, h1) =
      >>=-eq-ok (assert_non_negative_store_integer (property "previousReservedUnits" fields)) _ h in
    let (units, _, h2) =
      >>=-eq-ok (assert_non_negative_store_integer (property "reservedUnits" fields)) _ h1 in
    let (_, same, h3) =
      >>=-eq-ok (throw_if (not (eqb previous reservation.reserved_units)) type_error) _ h2 in
    let (expected, sum, h4) =
      >>=-eq-ok (safe_add reservation.reserved_units request.additional_units) _ h3 in
    let (_, fits, h5) = >>=-eq-ok (throw_if (not (eqb units expected)) type_error) _ h4 in
    let (balances, hb, h6) =
      >>=-eq-ok
        (validate_budget_remaining_topology (property "remainingByBudget" fields)
          (budget_keys request.budgets))
        _ h5 in
    let (e, bound) = safe_add_sum _ _ _ sum in
    let found = eqb→eq units expected (throw_unless_passes (eqb units expected) _ _ fits) in
    subst (IsGrowthAnswer reservation request) (ok_injective h6) (
      r,
      i,
      eqb→eq previous reservation.reserved_units
          (throw_unless_passes (eqb previous reservation.reserved_units) _ _ same),
      omega arith,
      omega arith,
      validate_budget_remaining_topology-HasKeys (budget_keys request.budgets)
          (property "remainingByBudget" fields) balances hb,
    )

-- An answer to a growth that passes the client's checks names the reservation and the increment.
-- If it accepts, the units are those of the reservation before and the additional ones, a safe
-- integer, and the balances are exactly those of the budgets in the request. If it denies, the
-- limiting budget is one of the request.
pub validate_store_growth_result-IsGrowthAnswer :
    (value : Value) (reservation : ReservationRecord) (request : GrowthRequest)
    (answer : StoreGrowResult)
    → validate_store_growth_result value reservation request ≡ ok answer
    → IsGrowthAnswer reservation request answer
unfolding validate_store_growth_result
validate_store_growth_result-IsGrowthAnswer value reservation request answer h =
    let (result, _, h1) = >>=-eq-ok (require_store_result value) _ h in
    let (common, hc, h2) =
      >>=-eq-ok (validate_growth_common result.0 reservation.id request.increment_id) _ h1 in
    let named = validate_growth_common-IsNamed result.0 reservation request common hc in
    elim (Bool-cases result.1) [
      | inl granted ↦
          growth_acceptance-IsGrowthAnswer result.0 common.0 common.1 reservation request answer
            named (rw granted at h2)
      | inr refused ↦
          growth_denial-IsGrowthAnswer result.0 common.0 common.1 reservation request answer named
            (rw refused at h2)
    ]
