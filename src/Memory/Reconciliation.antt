-- ===== src/Memory/Reconciliation.antt =====
-- The read-only methods `reconcileOperation` and `reconcileVectorOperation` of `MemoryUsageStore`.
use mcp_usage_control.Base.{
  ℕ, Bool, false, List, String, Option, none, some, leb, eqb, ◌||◌, not, if◌then◌else◌, Result, ok,
  throw, state_error, wrong_mode, reconciliation_mismatch, missing_settlement,
}
use mcp_usage_control.JsMap.{get}
use mcp_usage_control.Number.{Number, assert_non_negative_integer}
use mcp_usage_control.Types.{
  UsageRequest, Budget, CanonicalBudget, Demand, UsageDimension, ReservationRecord,
  VectorReservationRecord, UsageDimensionReserved, UsageDimensionActual,
}
use mcp_usage_control.Collation.{Collation}
use mcp_usage_control.Input.{validate_usage_request_envelope}
use mcp_usage_control.Budgets.{canonicalize_budgets, same_budget_keys}
use mcp_usage_control.Dimensions.{
  canonicalize_usage_dimensions, same_vector_reconciliation_topology,
}
use mcp_usage_control.OperationKey.{operation_key_for}
use mcp_usage_control.Records.{clone_reservation_record, clone_vector_reservation_record}
use mcp_usage_control.Memory.State.{
  ReservationState, ScalarPart, VectorPart, scalar, vector, InternalReservation,
}
use mcp_usage_control.Memory.Action.{Action, lift, raise, ◌>>=◌, ◌>>◌}
use mcp_usage_control.Memory.Recovery.{expired_outcome}
use mcp_usage_control.Memory.Scalar.{scalar_record, same_outcome}
use mcp_usage_control.Memory.Vector.{vector_record}
use mcp_usage_control.Memory.VectorGrowth.{reserved_by_dimension}

pub record ReconciliationInput : Type 0 where
  pub request : UsageRequest
  pub units : Number
  pub budgets : List Budget

pub record VectorReconciliationInput : Type 0 where
  pub request : UsageRequest
  pub dimensions : List UsageDimension

-- The state of an operation that has not been settled by its owner.
pub data OpenState : Type 0 where
  pending liable : OpenState

pub data Reconciliation : Type 0 where
  absent : String → Reconciliation
  active : OpenState → ReservationRecord → Reconciliation
  expired : OpenState → String → ℕ → Reconciliation
  settled_with : String → ℕ → ℕ → ℕ → Reconciliation

pub data VectorReconciliation : Type 0 where
  absent : String → VectorReconciliation
  active : OpenState → VectorReservationRecord → VectorReconciliation
  expired : OpenState → String → ℕ → VectorReconciliation
  settled_with :
      String → List UsageDimensionReserved → List UsageDimensionActual → ℕ → VectorReconciliation

unfoldable pub reconcile_open :
    ℕ → OpenState → InternalReservation → ScalarPart → Result Reconciliation
reconcile_open now state r p =
    if leb r.expires_at now
    then ok (Reconciliation.expired state r.id r.expires_at)
    else elim (clone_reservation_record (scalar_record r p)) [
      | throw e ↦ throw e
      | ok copy ↦ ok (Reconciliation.active state copy)
    ]

unfoldable pub is_past : ℕ → Option ℕ → Bool
is_past now none = false
is_past now (some at) = leb at now

abbrev pub settled_answer : String → ℕ → Option ℕ → Option ℕ → Result Reconciliation
settled_answer id reserved (some actual) (some tombstone) =
    ok (Reconciliation.settled_with id reserved actual tombstone)
settled_answer id reserved (some actual) none = throw (state_error missing_settlement)
settled_answer id reserved none tombstone = throw (state_error missing_settlement)

unfoldable pub reconcile_settled :
    ℕ → String → InternalReservation → ScalarPart → Result Reconciliation
unfolding is_past
reconcile_settled now id r p =
    if is_past now r.tombstone_expires_at
    then ok (Reconciliation.absent id)
    else if same_outcome r.outcome expired_outcome
    then ok (Reconciliation.expired OpenState.liable r.id r.expires_at)
    else settled_answer r.id p.reserved_units p.actual_units r.tombstone_expires_at

unfoldable pub reconcile_state :
    ReservationState → ℕ → String → InternalReservation → ScalarPart → Result Reconciliation
unfolding reconcile_open reconcile_settled
reconcile_state ReservationState.pending now id r p = reconcile_open now OpenState.pending r p
reconcile_state ReservationState.liable now id r p = reconcile_open now OpenState.liable r p
reconcile_state ReservationState.settled now id r p = reconcile_settled now id r p

unfoldable pub reconcile_found : ℕ → String → ℕ → List CanonicalBudget → Action Reconciliation
unfolding reconcile_state
reconcile_found now id units budgets s = elim (get id s.reservations) [
  | none ↦ (ok (Reconciliation.absent id), s)
  | some r ↦ elim r.mode [
    | vector _ ↦ raise (state_error wrong_mode) s
    | scalar p ↦
        if not (eqb p.reserved_units units) || not (same_budget_keys p.budget_keys budgets)
        then raise (state_error reconciliation_mismatch) s
        else (reconcile_state r.state now id r p, s)
  ]
]

unfoldable pub reconcile_operation :
    ⦃c : Collation⦄ → ℕ → ReconciliationInput → Action Reconciliation
unfolding reconcile_found
reconcile_operation now input = do
  units ← lift (assert_non_negative_integer input.units)
  budgets ← lift (canonicalize_budgets input.budgets)
  lift (validate_usage_request_envelope input.request)
  reconcile_found now (operation_key_for input.request) units budgets

unfoldable pub reconcile_vector_open :
    ⦃c : Collation⦄ → ℕ → OpenState → InternalReservation → VectorPart → Result VectorReconciliation
reconcile_vector_open now state r p =
    if leb r.expires_at now
    then ok (VectorReconciliation.expired state r.id r.expires_at)
    else elim (clone_vector_reservation_record (vector_record r p)) [
      | throw e ↦ throw e
      | ok copy ↦ ok (VectorReconciliation.active state copy)
    ]

abbrev pub settled_vector_answer :
    String
    → VectorPart
    → Option (List UsageDimensionActual)
    → Option ℕ
    → Result VectorReconciliation
settled_vector_answer id p (some actuals) (some tombstone) =
    ok (VectorReconciliation.settled_with id (reserved_by_dimension p.dimensions) actuals tombstone)
settled_vector_answer id p (some actuals) none = throw (state_error missing_settlement)
settled_vector_answer id p none tombstone = throw (state_error missing_settlement)

unfoldable pub reconcile_vector_settled :
    ℕ → String → InternalReservation → VectorPart → Result VectorReconciliation
unfolding is_past
reconcile_vector_settled now id r p =
    if is_past now r.tombstone_expires_at
    then ok (VectorReconciliation.absent id)
    else if same_outcome r.outcome expired_outcome
    then ok (VectorReconciliation.expired OpenState.liable r.id r.expires_at)
    else settled_vector_answer r.id p p.actual_by_dimension r.tombstone_expires_at

unfoldable pub reconcile_vector_state :
    ⦃c : Collation⦄
    → ReservationState
    → ℕ
    → String
    → InternalReservation
    → VectorPart
    → Result VectorReconciliation
unfolding reconcile_vector_open reconcile_vector_settled
reconcile_vector_state ReservationState.pending now id r p =
    reconcile_vector_open now OpenState.pending r p
reconcile_vector_state ReservationState.liable now id r p =
    reconcile_vector_open now OpenState.liable r p
reconcile_vector_state ReservationState.settled now id r p = reconcile_vector_settled now id r p

unfoldable pub reconcile_vector_found :
    ⦃c : Collation⦄ → ℕ → String → List Demand → Action VectorReconciliation
unfolding reconcile_vector_state
reconcile_vector_found now id dimensions s = elim (get id s.reservations) [
  | none ↦ (ok (VectorReconciliation.absent id), s)
  | some r ↦ elim r.mode [
    | scalar _ ↦ raise (state_error wrong_mode) s
    | vector p ↦
        if not (same_vector_reconciliation_topology p.dimensions dimensions)
        then raise (state_error reconciliation_mismatch) s
        else (reconcile_vector_state r.state now id r p, s)
  ]
]

unfoldable pub reconcile_vector_operation :
    ⦃c : Collation⦄ → ℕ → VectorReconciliationInput → Action VectorReconciliation
unfolding reconcile_vector_found
reconcile_vector_operation now input = do
  lift (validate_usage_request_envelope input.request)
  dimensions ← lift (canonicalize_usage_dimensions input.dimensions)
  reconcile_vector_found now (operation_key_for input.request) dimensions
