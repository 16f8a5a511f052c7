-- ===== src/Memory/Duplicates.antt =====
-- An operation that has been admitted is not admitted again.
use mcp_usage_control.Base.{
  eq_refl, true, leb, Failure, ◌⊎◌, ltb, Result, ◌≡◌, List, ℕ, String, refl, subst, inl, inr, none,
  Bool-cases, Option-cases, Result-cases, ok, throw,
}
use mcp_usage_control.Types.{
  duplicate_operation, BudgetRemaining, ReservationRecord, UsageRequest, CanonicalBudget,
  StoreReserveResult,
}
use mcp_usage_control.Types.StoreReserveResult.{accepted, rejected}
use mcp_usage_control.Memory.Limits.{
  track_recovery_at, assert_budget_capacity, assert_operation_capacity, remaining_by_budget,
  find_limiting,
}
use mcp_usage_control.JsMap.{get-set, set, size, has, JsMap}
use mcp_usage_control.Memory.State.{InternalReservation, MemoryUsageStore}
use mcp_usage_control.Memory.Scalar.{
  new_part, new_reservation, scalar_record, store_reservation, admit, reserve_checked,
}
use mcp_usage_control.OperationKey.{operation_key_for}
use mcp_usage_control.Records.{clone_reservation_record}
use mcp_usage_control.Memory.Outcomes.{keys_exceed}

-- After an acceptance the store knows the operation.
abbrev IsKnown : UsageRequest → Result StoreReserveResult × MemoryUsageStore → Type 0
IsKnown request (ok (accepted r balances), t) = has (operation_key_for request) t.operations ≡ true
IsKnown request (ok (rejected reason limiting), t) = Unit
IsKnown request (throw e, t) = Unit

has-set : {V : Type 0} (k : String) (v : V) (m : JsMap V) → has k (set k v m) ≡ true
has-set k v m = rw (get-set k k v m, eq_refl k) refl

module _ (uuid : String) (request : UsageRequest) (units : ℕ) (budgets : List CanonicalBudget)
    (expires_at : ℕ) (s : MemoryUsageStore) where
  admit-IsKnown : IsKnown request (admit uuid request units budgets expires_at s)
  unfolding new_reservation admit assert_operation_capacity assert_budget_capacity track_recovery_at
      store_reservation
  admit-IsKnown = elim (Bool-cases (leb s.max_retained_operations (size s.reservations))) [
    | inl full ↦ rw full tt
    | inr room ↦ elim (Bool-cases (ltb 0 units)) [
      | inl positive ↦ elim (Bool-cases (keys_exceed budgets s)) [
        | inl full ↦ rw (room, positive, full) tt
        | inr fits ↦ elim copied [
          | inl (copy, good) ↦ rw (room, positive, fits, good) written
          | inr (e, bad) ↦ rw (room, positive, fits, bad) tt
        ]
      ]
      | inr none_asked ↦ elim copied [
        | inl (copy, good) ↦ rw (room, none_asked, good) written
        | inr (e, bad) ↦ rw (room, none_asked, bad) tt
      ]
    ]
  ]
    where
      r : InternalReservation
      r = new_reservation request uuid units budgets expires_at

      written : has (operation_key_for request) (set r.operation_key r.id s.operations) ≡ true
      written = has-set (operation_key_for request) r.id s.operations

      copied :
          ((x : ReservationRecord) × (clone_reservation_record
                (scalar_record r (new_part units budgets))
              ≡ ok x))
          ⊎ ((e : Failure) × (clone_reservation_record (scalar_record r (new_part units budgets))
                ≡ throw e))
      copied = Result-cases (clone_reservation_record (scalar_record r (new_part units budgets)))

  reserve_checked-IsKnown :
      IsKnown request (reserve_checked uuid request units budgets expires_at s)
  unfolding reserve_checked
  reserve_checked-IsKnown = elim (Bool-cases (has (operation_key_for request) s.operations)) [
    | inl known ↦ rw known tt
    | inr new ↦ elim (Option-cases (find_limiting units (remaining_by_budget s.used budgets))) [
      | inr (limiting, short) ↦ rw (new, short) tt
      | inl enough ↦ rw (new, enough) admit-IsKnown
    ]
  ]

-- An operation for which `reserve` has just been accepted is known: a second reservation for it, of
-- any units and budgets and by any cursor, is refused as a duplicate and leaves the store alone.
pub reserve_checked-refuses_duplicate :
    (uuid : String) (request : UsageRequest) (units : ℕ) (budgets : List CanonicalBudget)
    (expires_at : ℕ) (s t : MemoryUsageStore) (r : ReservationRecord)
    (balances : List BudgetRemaining) (uuid' : String) (units' : ℕ)
    (budgets' : List CanonicalBudget) (expires_at' : ℕ)
    → reserve_checked uuid request units budgets expires_at s ≡ (ok (accepted r balances), t)
    → reserve_checked uuid' request units' budgets' expires_at' t
      ≡ (ok (rejected duplicate_operation none), t)
unfolding reserve_checked
reserve_checked-refuses_duplicate uuid request units budgets expires_at s t r balances uuid' units'
      budgets' expires_at' h =
    rw (subst (IsKnown request) h (reserve_checked-IsKnown uuid request units budgets expires_at s))
      refl
