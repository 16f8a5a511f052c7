-- ===== src/Memory/Moves.antt =====
-- The writes of `MemoryUsageStore`, each with the guards that stand before it. Every method that
-- changes the store is a recovery followed by at most one of them (Moves/Methods), so an
-- invariant of the store is a property that every write keeps.
pub mod Methods
pub mod GrowthMethods
use mcp_usage_control.Base.{
  ℕ, ◌≤◌, ◌≡◌, true, false, Bool, String, Option, none, some, List, Result, ok, throw,
}
use mcp_usage_control.JsMap.{JsMap, get, has, delete}
use mcp_usage_control.Types.{UsageRequest, CanonicalBudget, Demand, UsageDimensionActual}
use mcp_usage_control.Collation.{Collation}
use mcp_usage_control.OperationKey.{operation_key_for}
use mcp_usage_control.Budgets.{same_budget_keys}
use mcp_usage_control.Dimensions.{same_vector_topology}
use mcp_usage_control.Memory.State.{
  InternalReservation, MemoryUsageStore, ScalarPart, VectorPart, scalar, vector, Mode, liable,
  earlier,
}
use mcp_usage_control.Memory.Action.{Action, Keeps}
use mcp_usage_control.Memory.Recovery.{recover_expired}
use mcp_usage_control.Memory.Limits.{find_limiting, remaining_by_budget}
use mcp_usage_control.Memory.Scalar.{is_settled, put_reservation, admit, finish_settlement}
use mcp_usage_control.Memory.Checks.{Increment, VectorIncrement}
use mcp_usage_control.Memory.Growth.{attempt_growth}
use mcp_usage_control.Memory.Vector.{find_vector_limiting, admit_vector, finish_vector_settlement}
use mcp_usage_control.Memory.VectorGrowth.{attempt_vector_growth}
use mcp_usage_control.Memory.Maintenance.{is_referenced}

-- A reservation of the store that is not settled.
pub record IsOpen (s : MemoryUsageStore) (id : String) (r : InternalReservation) : Type 0 where
  pub found : get id s.reservations ≡ some r
  pub unsettled : is_settled r.state ≡ false

-- No reservation is retained for the operation.
abbrev pub IsNew : MemoryUsageStore → UsageRequest → Type 0
IsNew s request = has (operation_key_for request) s.operations ≡ false

pub data Move ⦃c : Collation⦄ : MemoryUsageStore → MemoryUsageStore → Type 0 where
  recovers : (now : ℕ) (s : MemoryUsageStore) → Move s (recover_expired now s).1
  marks :
      (id : String) (r : InternalReservation) (s : MemoryUsageStore)
      → IsOpen s id r
      → Move s (put_reservation id (record r { state = liable }) s)
  extends :
      (id : String) (r : InternalReservation) (at : ℕ) (s : MemoryUsageStore)
      → IsOpen s id r
      → Move s (record (put_reservation id (record r { expires_at = at }) s) {
        next_recovery_at = earlier s.next_recovery_at at;
      })
  admits :
      (uuid : String) (request : UsageRequest) (units : ℕ) (budgets : List CanonicalBudget)
      (expires_at : ℕ) (s : MemoryUsageStore)
      → IsNew s request
      → find_limiting units (remaining_by_budget s.used budgets) ≡ none
      → Move s (admit uuid request units budgets expires_at s).1
  settles :
      (id : String) (r : InternalReservation) (p : ScalarPart) (actual : ℕ) (outcome : String)
      (tombstone : ℕ) (s : MemoryUsageStore)
      → IsOpen s id r
      → r.mode ≡ scalar p
      → actual ≤ p.reserved_units
      → Move s (finish_settlement id r p actual outcome tombstone s).1
  grows :
      (g : Increment) (cursor : String) (r : InternalReservation) (p : ScalarPart)
      (s : MemoryUsageStore)
      → IsOpen s g.reservation_id r
      → r.mode ≡ scalar p
      → same_budget_keys p.budget_keys g.budgets ≡ true
      → Move s (attempt_growth g cursor r p s).1
  admits_vector :
      (uuid : String) (request : UsageRequest) (ds : List Demand) (expires_at : ℕ)
      (s : MemoryUsageStore)
      → IsNew s request
      → find_vector_limiting s.used ds ≡ none
      → Move s (admit_vector uuid request ds expires_at s).1
  settles_vector :
      (id : String) (r : InternalReservation) (p : VectorPart) (actuals : List UsageDimensionActual)
      (outcome : String) (tombstone : ℕ) (s : MemoryUsageStore)
      → IsOpen s id r
      → r.mode ≡ vector p
      → Move s (finish_vector_settlement id r p actuals outcome tombstone s).1
  grows_vector :
      (g : VectorIncrement) (cursor : String) (r : InternalReservation) (p : VectorPart)
      (s : MemoryUsageStore)
      → IsOpen s g.reservation_id r
      → r.mode ≡ vector p
      → same_vector_topology p.dimensions g.dimensions ≡ true
      → Move s (attempt_vector_growth g cursor r p s).1
  retires :
      (key : String) (s : MemoryUsageStore)
      → is_referenced key s.reservations ≡ false
      → Move s (record s { used = delete key s.used })

-- A property that every write keeps.
abbrev pub IsInvariant : ⦃c : Collation⦄ → (MemoryUsageStore → Type 0) → Type 0
IsInvariant P = (s t : MemoryUsageStore) → Move s t → P s → P t
