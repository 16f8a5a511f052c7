-- ===== src/Memory/Vector.antt =====
-- The vector methods of `MemoryUsageStore` but growth: `reserveVector` and `settleVector`.
use mcp_usage_control.Base.{
  ℕ, ◌-◌, Bool, false, List, [], ◌∷◌, ◌++◌, String, Option, none, some, map, get_or, ltb, eqb,
  is_empty, ◌==◌, ◌||◌, not, if◌then◌else◌, Result, ok, throw, state_error, not_found, wrong_mode,
  already_settled,
}
use mcp_usage_control.JsMap.{JsMap, get, has}
use mcp_usage_control.Number.{safe_add}
use mcp_usage_control.Types.{
  UsageRequest, CanonicalBudget, Demand, VectorBudgetRemaining, VectorReserveInput,
  VectorReservationRecord, VectorReservationDimension, StoreVectorReserveResult, quota_exceeded,
  duplicate_operation, UsageDimensionActual, VectorSettleInput, VectorSettlementResult,
  VectorSettlementDimension,
}
use mcp_usage_control.Collation.{Collation}
use mcp_usage_control.Budgets.{budget_keys}
use mcp_usage_control.Dimensions.{canonicalize_vector_actuals, same_vector_actuals}
use mcp_usage_control.OperationKey.{operation_key_for}
use mcp_usage_control.Records.{clone_vector_reservation_record}
use mcp_usage_control.Memory.State.{
  pending, settled, VectorPart, scalar, vector, InternalReservation,
}
use mcp_usage_control.Memory.Action.{Action, lift, raise, ◌>>=◌, ◌>>◌}
use mcp_usage_control.Memory.Checks.{check_reserve_vector_input}
use mcp_usage_control.Memory.Recovery.{after_recovery, release_across_budgets, used_at}
use mcp_usage_control.Memory.Limits.{
  new_growth_cursor, assert_operation_capacity, assert_budget_capacity, track_recovery_at,
  charge_safely,
}
use mcp_usage_control.Memory.Scalar.{is_settled, put_reservation, same_outcome, store_reservation}

abbrev pub dimension_balances : JsMap ℕ → Demand → List CanonicalBudget → List VectorBudgetRemaining
dimension_balances used d [] = []
dimension_balances used d (b ∷ bs) =
    record { dimension_key = d.key; budget_key = b.key; remaining = b.limit - used_at b.key used }
    ∷ dimension_balances used d bs

unfoldable pub vector_balances : JsMap ℕ → List Demand → List VectorBudgetRemaining
vector_balances used [] = []
vector_balances used (d ∷ ds) = dimension_balances used d d.budgets ++ vector_balances used ds

abbrev pub limiting_in : ℕ → List VectorBudgetRemaining → Option VectorBudgetRemaining
limiting_in units [] = none
limiting_in units (b ∷ bs) = if ltb b.remaining units then some b else limiting_in units bs

abbrev pub or_else {ℓ} : {A : Type ℓ} → Option A → Option A → Option A
or_else (some a) o = some a
or_else none o = o

-- The first balance, over all dimensions, that its dimension's units exceed.
unfoldable pub find_vector_limiting : JsMap ℕ → List Demand → Option VectorBudgetRemaining
find_vector_limiting used [] = none
find_vector_limiting used (d ∷ ds) =
    or_else (limiting_in d.units (dimension_balances used d d.budgets))
      (find_vector_limiting used ds)

-- `Map.get` of the units by dimension key, where no key occurs twice.
unfoldable pub units_of : String → List Demand → ℕ
units_of k [] = 0
units_of k (d ∷ ds) = if d.key == k then d.units else units_of k ds

abbrev pub charged_balance : List Demand → VectorBudgetRemaining → VectorBudgetRemaining
charged_balance ds b = record b { remaining = b.remaining - units_of b.dimension_key ds }

unfoldable pub after_vector_charge :
    List Demand → List VectorBudgetRemaining → List VectorBudgetRemaining
unfolding units_of
after_vector_charge ds balances = map (charged_balance ds) balances

-- The budgets of the dimensions that ask for units.
unfoldable pub charged_budgets : List Demand → List CanonicalBudget
charged_budgets [] = []
charged_budgets (d ∷ ds) = (if ltb 0 d.units then d.budgets else []) ++ charged_budgets ds

abbrev pub charge_rest :
    (JsMap ℕ → Result (Unit {0}) × JsMap ℕ)
    → Result (Unit {0}) × JsMap ℕ
    → Result (Unit {0}) × JsMap ℕ
charge_rest f (ok _, used) = f used
charge_rest f (throw e, used) = (throw e, used)

-- The loop that charges each dimension that asks for units.
unfoldable pub charge_dimensions : List Demand → JsMap ℕ → Result (Unit {0}) × JsMap ℕ
charge_dimensions [] used = (ok tt, used)
charge_dimensions (d ∷ ds) used =
    charge_rest (charge_dimensions ds)
      (if eqb d.units 0 then (ok tt, used) else charge_safely d.budgets d.units used)

abbrev pub reserved_dimensions : List Demand → List VectorReservationDimension
reserved_dimensions ds =
    map (λ d. record { key = d.key; budget_keys = budget_keys d.budgets; reserved_units = d.units })
      ds

abbrev pub vector_record : InternalReservation → VectorPart → VectorReservationRecord
vector_record r p = record {
  id = r.id;
  operation_id = r.operation_id;
  principal_id = r.principal_id;
  tenant_id = r.tenant_id;
  plan = r.plan;
  tool = r.tool;
  dimensions = p.dimensions;
  expires_at = r.expires_at;
  growth_cursor = r.growth_cursor;
}

abbrev pub new_vector_part : List Demand → VectorPart
new_vector_part ds = record {
  dimensions = reserved_dimensions ds;
  actual_by_dimension = none;
  last_vector_growth = none;
}

unfoldable pub new_vector_reservation :
    UsageRequest → String → List Demand → ℕ → InternalReservation
new_vector_reservation request uuid ds expires_at = record {
  id = operation_key_for request;
  operation_id = request.operation_id;
  principal_id = request.principal.id;
  tenant_id = request.principal.tenant_id;
  plan = request.principal.plan;
  tool = request.tool;
  expires_at = expires_at;
  growth_cursor = some (new_growth_cursor uuid);
  operation_key = operation_key_for request;
  state = pending;
  outcome = none;
  tombstone_expires_at = none;
  mode = vector (new_vector_part ds);
}

abbrev pub assert_capacity_of : List CanonicalBudget → Action (Unit {0})
assert_capacity_of budgets =
    if is_empty budgets then lift (ok tt) else assert_budget_capacity budgets

-- The charges of an admission; a sum that is not safe ends it with the earlier ones written.
unfoldable pub charge_vector : List Demand → Action (Unit {0})
charge_vector ds s =
    let (done, used) = charge_dimensions ds s.used in (done, record s { used = used })

unfoldable pub keep_reservation : InternalReservation → Action (Unit {0})
unfolding store_reservation
keep_reservation r s = store_reservation r s.used s

-- The writes and the answer of an admission.
unfoldable pub write_vector :
    ⦃c : Collation⦄ → String → UsageRequest → List Demand → ℕ → Action StoreVectorReserveResult
unfolding charge_vector keep_reservation new_vector_reservation
write_vector uuid request ds expires_at s =
    let r = new_vector_reservation request uuid ds expires_at in
    (do
      charge_vector ds
      keep_reservation r
      track_recovery_at expires_at
      reservation ← lift (clone_vector_reservation_record (vector_record r (new_vector_part ds)))
      lift (
          ok (
            StoreVectorReserveResult.accepted reservation
              (after_vector_charge ds (vector_balances s.used ds)))))
      s

unfoldable pub admit_vector :
    ⦃c : Collation⦄ → String → UsageRequest → List Demand → ℕ → Action StoreVectorReserveResult
admit_vector uuid request ds expires_at = do
  assert_operation_capacity
  assert_capacity_of (charged_budgets ds)
  write_vector uuid request ds expires_at

unfoldable pub reserve_vector_checked :
    ⦃c : Collation⦄ → String → UsageRequest → List Demand → ℕ → Action StoreVectorReserveResult
unfolding admit_vector
reserve_vector_checked uuid request ds expires_at s =
    if has (operation_key_for request) s.operations
    then (ok (StoreVectorReserveResult.rejected duplicate_operation none), s)
    else elim (find_vector_limiting s.used ds) [
      | some limiting ↦ (ok (StoreVectorReserveResult.rejected quota_exceeded (some limiting)), s)
      | none ↦ admit_vector uuid request ds expires_at s
    ]

unfoldable pub reserve_vector :
    ⦃c : Collation⦄ → ℕ → String → VectorReserveInput → Action StoreVectorReserveResult
unfolding reserve_vector_checked
reserve_vector now uuid input =
    after_recovery now (check_reserve_vector_input now input)
      λ a. reserve_vector_checked uuid input.request a.dimensions a.expires_at

-- `Map.get` of the actual units by dimension key.
unfoldable pub actual_of : String → List UsageDimensionActual → Option ℕ
actual_of k [] = none
actual_of k (a ∷ as') = if a.key == k then some a.actual_units else actual_of k as'

unfoldable pub actuals_or_reserved : VectorPart → List UsageDimensionActual
actuals_or_reserved p = elim p.actual_by_dimension [
  | some actuals ↦ actuals
  | none ↦ map (λ d. record { key = d.key; actual_units = d.reserved_units }) p.dimensions
]

abbrev pub settlement_line :
    List UsageDimensionActual → VectorReservationDimension → VectorSettlementDimension
settlement_line actuals d =
    let actual = get_or (actual_of d.key actuals) d.reserved_units in
    record {
      key = d.key;
      reserved_units = d.reserved_units;
      actual_units = actual;
      released_units = d.reserved_units - actual;
    }

unfoldable pub to_vector_settlement : InternalReservation → VectorPart → VectorSettlementResult
unfolding actuals_or_reserved
to_vector_settlement r p = record {
  reservation_id = r.id;
  dimensions = map (settlement_line (actuals_or_reserved p)) p.dimensions;
  outcome = get_or r.outcome "unknown";
}

-- The loop of `settleVector`. Every reserved dimension has its actual units by then.
unfoldable pub release_unused :
    List UsageDimensionActual → List VectorReservationDimension → JsMap ℕ → JsMap ℕ
release_unused actuals [] used = used
release_unused actuals (d ∷ ds) used =
    let released = d.reserved_units - get_or (actual_of d.key actuals) 0 in
    release_unused actuals ds
      (if ltb 0 released then release_across_budgets d.budget_keys released used else used)

abbrev pub same_recorded_actuals :
    Option (List UsageDimensionActual) → List UsageDimensionActual → Bool
same_recorded_actuals none ys = false
same_recorded_actuals (some xs) ys = same_vector_actuals xs ys

abbrev pub settled_vector :
    InternalReservation → VectorPart → List UsageDimensionActual → String → ℕ → InternalReservation
settled_vector r p actuals outcome tombstone = record r {
  state = settled;
  outcome = some outcome;
  tombstone_expires_at = some tombstone;
  mode = vector (record p { actual_by_dimension = some actuals });
}

unfoldable pub finish_vector_settlement :
    String
    → InternalReservation
    → VectorPart
    → List UsageDimensionActual
    → String
    → ℕ
    → Action VectorSettlementResult
unfolding to_vector_settlement release_unused
finish_vector_settlement id r p actuals outcome tombstone s =
    (do
      track_recovery_at tombstone
      lift (
          ok (
            to_vector_settlement (settled_vector r p actuals outcome tombstone)
              (record p { actual_by_dimension = some actuals }))))
      (put_reservation id (settled_vector r p actuals outcome tombstone)
        (record s { used = release_unused actuals p.dimensions s.used }))

unfoldable pub settle_vector_part :
    ⦃c : Collation⦄
    → VectorSettleInput
    → InternalReservation
    → VectorPart
    → ℕ
    → Action VectorSettlementResult
unfolding finish_vector_settlement
settle_vector_part input r p tombstone = do
  actuals ← lift (canonicalize_vector_actuals input.actual_by_dimension p.dimensions)
  if is_settled r.state
      then (if not (same_outcome r.outcome input.outcome)
            || not (same_recorded_actuals p.actual_by_dimension actuals)
          then raise (state_error already_settled)
          else lift (ok (to_vector_settlement r p)))
      else finish_vector_settlement input.reservation_id r p actuals input.outcome tombstone

unfoldable pub settle_vector_found :
    ⦃c : Collation⦄ → VectorSettleInput → ℕ → Action VectorSettlementResult
unfolding settle_vector_part
settle_vector_found input tombstone s = elim (get input.reservation_id s.reservations) [
  | none ↦ raise (state_error not_found) s
  | some r ↦ elim r.mode [
    | scalar _ ↦ raise (state_error wrong_mode) s
    | vector p ↦ settle_vector_part input r p tombstone s
  ]
]

unfoldable pub settle_vector :
    ⦃c : Collation⦄ → ℕ → VectorSettleInput → Action VectorSettlementResult
unfolding settle_vector_found
settle_vector now input s =
    after_recovery now (safe_add now s.idempotency_ttl_ms)
      (λ tombstone. settle_vector_found input tombstone) s
