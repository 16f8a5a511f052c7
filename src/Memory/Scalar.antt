-- ===== src/Memory/Scalar.antt =====
-- The scalar methods of `MemoryUsageStore` but growth: `reserve`, `markLiable`, `renew`, `settle`.
-- `now` is what `Date.now()` returns and `uuid` what `randomUUID()` does.
use mcp_usage_control.Base.{
  ℕ, ◌-◌, Bool, true, false, List, String, Option, none, some, get_or, ltb, eqb, ◌==◌, ◌||◌, not,
  if◌then◌else◌, ok, state_error, not_found, not_active, wrong_mode, actual_exceeds_reserved,
  already_settled,
}
use mcp_usage_control.JsMap.{JsMap, get, has, set}
use mcp_usage_control.Types.{
  UsageRequest, CanonicalBudget, ReserveInput, ReservationRecord, StoreReserveResult,
  quota_exceeded, duplicate_operation, MarkLiableResult, RenewInput, RenewResult, SettleInput,
  SettlementResult,
}
use mcp_usage_control.Collation.{Collation}
use mcp_usage_control.Budgets.{budget_keys}
use mcp_usage_control.OperationKey.{operation_key_for}
use mcp_usage_control.Records.{clone_reservation_record}
use mcp_usage_control.Memory.State.{
  ReservationState, pending, liable, settled, ScalarPart, scalar, vector, InternalReservation,
  MemoryUsageStore,
}
use mcp_usage_control.Memory.Action.{Action, lift, raise, ◌>>=◌, ◌>>◌}
use mcp_usage_control.Memory.Checks.{check_reserve_input, check_renew_input, check_settle_input}
use mcp_usage_control.Memory.Recovery.{after_recovery, release_across_budgets}
use mcp_usage_control.Memory.Limits.{
  new_growth_cursor, remaining_by_budget, find_limiting, after_charge, assert_operation_capacity,
  assert_budget_capacity, track_recovery_at, charge_budgets,
}

abbrev pub is_settled : ReservationState → Bool
is_settled pending = false
is_settled liable = false
is_settled settled = true

-- The public fields of an internal scalar reservation.
abbrev pub scalar_record : InternalReservation → ScalarPart → ReservationRecord
scalar_record r p = record {
  id = r.id;
  operation_id = r.operation_id;
  principal_id = r.principal_id;
  tenant_id = r.tenant_id;
  plan = r.plan;
  tool = r.tool;
  budget_keys = p.budget_keys;
  reserved_units = p.reserved_units;
  expires_at = r.expires_at;
  growth_cursor = r.growth_cursor;
}

abbrev pub new_part : ℕ → List CanonicalBudget → ScalarPart
new_part units budgets = record {
  budget_keys = budget_keys budgets;
  reserved_units = units;
  actual_units = none;
  last_growth = none;
}

unfoldable pub new_reservation :
    UsageRequest → String → ℕ → List CanonicalBudget → ℕ → InternalReservation
new_reservation request uuid units budgets expires_at = record {
  id = operation_key_for request;
  operation_id = request.operation_id;
  principal_id = request.principal.id;
  tenant_id = request.principal.tenant_id;
  plan = request.principal.plan;
  tool = request.tool;
  expires_at = expires_at;
  growth_cursor = some (new_growth_cursor uuid);
  operation_key = operation_key_for request;
  state = pending;
  outcome = none;
  tombstone_expires_at = none;
  mode = scalar (new_part units budgets);
}

abbrev pub charge_if_positive : List CanonicalBudget → ℕ → JsMap ℕ → JsMap ℕ
charge_if_positive budgets units used =
    if ltb 0 units then charge_budgets budgets units used else used

-- The writes of an admission: the charges, the reservation and the operation.
unfoldable pub store_reservation : InternalReservation → JsMap ℕ → Action (Unit {0})
store_reservation r used s = (
  ok tt,
  record s {
    used = used;
    reservations = set r.id r s.reservations;
    operations = set r.operation_key r.id s.operations;
  },
)

-- `reserve` once the balances suffice.
unfoldable pub admit :
    String → UsageRequest → ℕ → List CanonicalBudget → ℕ → Action StoreReserveResult
unfolding store_reservation new_reservation
admit uuid request units budgets expires_at s =
    let r = new_reservation request uuid units budgets expires_at in
    (do
      assert_operation_capacity
      if ltb 0 units then assert_budget_capacity budgets else lift (ok tt)
      store_reservation r (charge_if_positive budgets units s.used)
      track_recovery_at expires_at
      reservation ← lift (clone_reservation_record (scalar_record r (new_part units budgets)))
      lift (
          ok (
            StoreReserveResult.accepted reservation
              (after_charge units (remaining_by_budget s.used budgets)))))
      s

-- `reserve` once expired reservations are recovered.
unfoldable pub reserve_checked :
    String → UsageRequest → ℕ → List CanonicalBudget → ℕ → Action StoreReserveResult
unfolding admit
reserve_checked uuid request units budgets expires_at s =
    if has (operation_key_for request) s.operations
    then (ok (StoreReserveResult.rejected duplicate_operation none), s)
    else elim (find_limiting units (remaining_by_budget s.used budgets)) [
      | some limiting ↦ (ok (StoreReserveResult.rejected quota_exceeded (some limiting)), s)
      | none ↦ admit uuid request units budgets expires_at s
    ]

unfoldable pub reserve : ⦃c : Collation⦄ → ℕ → String → ReserveInput → Action StoreReserveResult
unfolding reserve_checked
reserve now uuid input =
    after_recovery now (check_reserve_input now input)
      λ a. reserve_checked uuid input.request a.units a.budgets a.expires_at

-- Replaces the object that the map holds at a key, as a write to its fields does.
abbrev pub put_reservation : String → InternalReservation → MemoryUsageStore → MemoryUsageStore
put_reservation id r s = record s { reservations = set id r s.reservations }

unfoldable pub set_liable : String → Action MarkLiableResult
set_liable id s = elim (get id s.reservations) [
  | none ↦ raise (state_error not_active) s
  | some r ↦ if is_settled r.state then raise (state_error not_active) s else (
    ok (record { reservation_id = r.id; expires_at = r.expires_at }),
    put_reservation id (record r { state = liable }) s,
  )
]

unfoldable pub mark_liable : ℕ → String → Action MarkLiableResult
unfolding set_liable
mark_liable now id = after_recovery now (ok tt) λ _. set_liable id

unfoldable pub extend : String → ℕ → Action RenewResult
extend id expires_at s = elim (get id s.reservations) [
  | none ↦ raise (state_error not_active) s
  | some r ↦
      if is_settled r.state
      then raise (state_error not_active) s
      else (do
        track_recovery_at expires_at
        lift (ok (record { reservation_id = r.id; expires_at = expires_at })))
          (put_reservation id (record r { expires_at = expires_at }) s)
]

unfoldable pub renew : ℕ → RenewInput → Action RenewResult
unfolding extend
renew now input =
    after_recovery now (check_renew_input now input)
      λ expires_at. extend input.reservation_id expires_at

unfoldable pub to_settlement : InternalReservation → ScalarPart → SettlementResult
to_settlement r p = record {
  reservation_id = r.id;
  reserved_units = p.reserved_units;
  actual_units = get_or p.actual_units p.reserved_units;
  released_units = p.reserved_units - get_or p.actual_units p.reserved_units;
  outcome = get_or r.outcome "unknown";
}

abbrev pub same_units : Option ℕ → ℕ → Bool
same_units none n = false
same_units (some m) n = eqb m n

abbrev pub same_outcome : Option String → String → Bool
same_outcome none t = false
same_outcome (some s) t = s == t

abbrev pub settled_part : ScalarPart → ℕ → ScalarPart
settled_part p actual = record p { actual_units = some actual }

abbrev pub settled_reservation :
    InternalReservation → ScalarPart → ℕ → String → ℕ → InternalReservation
settled_reservation r p actual outcome tombstone = record r {
  state = settled;
  outcome = some outcome;
  tombstone_expires_at = some tombstone;
  mode = scalar (settled_part p actual);
}

-- The writes of a settlement: what was not used is released.
unfoldable pub finish_settlement :
    String → InternalReservation → ScalarPart → ℕ → String → ℕ → Action SettlementResult
unfolding to_settlement
finish_settlement id r p actual outcome tombstone s =
    (do
      track_recovery_at tombstone
      lift (
          ok (
            to_settlement (settled_reservation r p actual outcome tombstone)
              (settled_part p actual))))
      (put_reservation id (settled_reservation r p actual outcome tombstone) (record s {
        used =
            if ltb 0 (p.reserved_units - actual)
            then release_across_budgets p.budget_keys (p.reserved_units - actual) s.used
            else s.used;
      }))

unfoldable pub settle_scalar :
    String → InternalReservation → ScalarPart → ℕ → String → ℕ → Action SettlementResult
unfolding finish_settlement
settle_scalar id r p actual outcome tombstone s =
    if ltb p.reserved_units actual
    then raise (state_error actual_exceeds_reserved) s
    else if is_settled r.state
    then (if not (same_units p.actual_units actual) || not (same_outcome r.outcome outcome)
        then raise (state_error already_settled) s
        else (ok (to_settlement r p), s))
    else finish_settlement id r p actual outcome tombstone s

unfoldable pub settle_found : String → ℕ → String → ℕ → Action SettlementResult
unfolding settle_scalar
settle_found id actual outcome tombstone s = elim (get id s.reservations) [
  | none ↦ raise (state_error not_found) s
  | some r ↦ elim r.mode [
    | vector _ ↦ raise (state_error wrong_mode) s
    | scalar p ↦ settle_scalar id r p actual outcome tombstone s
  ]
]

unfoldable pub settle : ℕ → SettleInput → Action SettlementResult
unfolding settle_found
settle now input s =
    after_recovery now (check_settle_input now s.idempotency_ttl_ms input)
      (λ a. settle_found input.reservation_id a.actual_units input.outcome a.tombstone_expires_at) s
