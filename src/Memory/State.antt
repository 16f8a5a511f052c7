-- ===== src/Memory/State.antt =====
-- The state of `MemoryUsageStore` and the reservations that it retains.
use mcp_usage_control.Base.{
  refl, inr, inl, ◌⊎◌, ◌≡◌, ℕ, List, [], ◌∷◌, ◌++◌, String, Option, none, some, min,
}
use mcp_usage_control.JsMap.{JsMap}
use mcp_usage_control.Types.{
  CanonicalBudget, Demand, VectorReservationDimension, UsageDimensionActual, StoreGrowResult,
  StoreVectorGrowResult,
}

pub data ReservationState : Type 0 where
  pending liable settled : ReservationState

-- The values whose JSON text `growthFingerprint` returns. `JSON.stringify` is injective on them, so
-- fingerprints are compared by structure.
pub record GrowthFingerprint : Type 0 where
  pub additional_units : ℕ
  pub budgets : List CanonicalBudget

pub record LastGrowth : Type 0 where
  pub increment_id : String
  pub expected_growth_cursor : String
  pub fingerprint : GrowthFingerprint
  pub result : StoreGrowResult

pub record LastVectorGrowth : Type 0 where
  pub increment_id : String
  pub expected_growth_cursor : String
  pub fingerprint : List Demand
  pub result : StoreVectorGrowResult

-- The fields of `InternalScalarReservation` alone.
pub record ScalarPart : Type 0 where
  pub budget_keys : List String
  pub reserved_units : ℕ
  pub actual_units : Option ℕ
  pub last_growth : Option LastGrowth

-- The fields of `InternalVectorReservation` alone.
pub record VectorPart : Type 0 where
  pub dimensions : List VectorReservationDimension
  pub actual_by_dimension : Option (List UsageDimensionActual)
  pub last_vector_growth : Option LastVectorGrowth

pub data Mode : Type 0 where
  scalar : ScalarPart → Mode
  vector : VectorPart → Mode

pub record InternalReservation : Type 0 where
  pub id : String
  pub operation_id : String
  pub principal_id : String
  pub tenant_id : Option String
  pub plan : Option String
  pub tool : String
  pub expires_at : ℕ
  pub growth_cursor : Option String
  pub operation_key : String
  pub state : ReservationState
  pub outcome : Option String
  pub tombstone_expires_at : Option ℕ
  pub mode : Mode

pub data Recovery : Type 0 where
  pending_released liable_retained : Recovery

-- What the two kinds of recovery event say of the reservation.
pub data RecoveredUsage : Type 0 where
  recovered_budgets : List String → ℕ → RecoveredUsage
  recovered_dimensions : ℕ → ℕ → RecoveredUsage

pub record RecoveryEvent : Type 0 where
  pub timestamp : ℕ
  pub recovery : Recovery
  pub reservation_id : String
  pub principal_id : String
  pub tenant_id : Option String
  pub tool : String
  pub usage : RecoveredUsage

-- `next_recovery_at` is none for `Number.POSITIVE_INFINITY`. `emitted` is what the observer has
-- been handed; an observer cannot make an operation fail.
pub record MemoryUsageStore : Type 0 where
  pub used : JsMap ℕ
  pub reservations : JsMap InternalReservation
  pub operations : JsMap String
  pub idempotency_ttl_ms : ℕ
  pub max_retained_operations : ℕ
  pub max_retained_budget_keys : ℕ
  pub next_recovery_at : Option ℕ
  pub emitted : List RecoveryEvent

-- `Math.min(deadline, at)`, where the deadline may be infinite.
abbrev pub earlier : Option ℕ → ℕ → Option ℕ
earlier none at = some at
earlier (some deadline) at = some (min deadline at)

abbrev pub dimension_budget_keys : List VectorReservationDimension → List String
dimension_budget_keys [] = []
dimension_budget_keys (d ∷ ds) = d.budget_keys ++ dimension_budget_keys ds

unfoldable pub internal_reservation_budget_keys : InternalReservation → List String
internal_reservation_budget_keys r = elim r.mode [
  | scalar p ↦ p.budget_keys
  | vector p ↦ dimension_budget_keys p.dimensions
]

pub Mode-cases :
    (m : Mode) → ((p : ScalarPart) × (m ≡ scalar p)) ⊎ ((p : VectorPart) × (m ≡ vector p))
Mode-cases (scalar p) = inl (p, refl)
Mode-cases (vector p) = inr (p, refl)
