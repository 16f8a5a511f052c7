-- ===== src/Memory/Outcomes.antt =====
-- The stores that the longer writes can end in. Before its first write a method may throw on a
-- capacity; in the vector methods it may also throw between two charges.
use mcp_usage_control.Base.{
  is_empty, Failure, ◌⊎◌, ℕ, ◌≡◌, refl, false, Bool, String, none, List, Result, ok, throw,
  Option-cases, Bool-cases, inl, inr, ltb, leb, ◌+◌, length, Result-cases, [],
}
use mcp_usage_control.JsMap.{JsMap, set, size}
use mcp_usage_control.Memory.State.{
  VectorPart, MemoryUsageStore, InternalReservation, ScalarPart, earlier,
}
use mcp_usage_control.Memory.Limits.{
  remaining_by_budget, find_limiting, assert_operation_capacity, assert_budget_capacity,
  new_budget_keys, track_recovery_at, charge_safely,
}
use mcp_usage_control.Memory.Scalar.{
  admit, new_reservation, charge_if_positive, scalar_record, new_part, put_reservation,
}
use mcp_usage_control.Types.{
  StoreVectorGrowResult, VectorBudgetRemaining, VectorReservationRecord, BudgetRemaining, Demand,
  ReservationRecord, UsageRequest, CanonicalBudget,
}
use mcp_usage_control.Records.{clone_vector_reservation_record, clone_reservation_record}
use mcp_usage_control.Memory.Checks.{VectorIncrement, Increment}
use mcp_usage_control.Collation.{Collation}
use mcp_usage_control.Memory.Growth.{
  accepted_growth, with_used, denied_growth, grown, attempt_growth,
}
use mcp_usage_control.Memory.Vector.{
  find_vector_limiting, vector_balances, new_vector_part, vector_record, write_vector,
  charged_budgets, charge_dimensions, admit_vector, new_vector_reservation,
}
use mcp_usage_control.Number.{safe_add}
use mcp_usage_control.Memory.VectorGrowth.{
  with_dimensions, denied_vector_growth, grown_vector, finish_vector_growth, accept_vector_growth,
  raise_dimensions, attempt_vector_growth, Raised,
}

-- The store with a reservation written, its operation known, and its expiry tracked.
abbrev pub stored : InternalReservation → JsMap ℕ → MemoryUsageStore → MemoryUsageStore
stored r used s = record s {
  used = used;
  reservations = set r.id r s.reservations;
  operations = set r.operation_key r.id s.operations;
  next_recovery_at = earlier s.next_recovery_at r.expires_at;
}

module _ (P : MemoryUsageStore → Type 0) (uuid : String) (request : UsageRequest) (units : ℕ)
    (budgets : List CanonicalBudget) (expires_at : ℕ) (s : MemoryUsageStore) where
  abbrev admitted_here : MemoryUsageStore
  admitted_here =
      stored (new_reservation request uuid units budgets expires_at)
        (charge_if_positive budgets units s.used) s

  abbrev new_record : ReservationRecord
  new_record =
      scalar_record (new_reservation request uuid units budgets expires_at) (new_part units budgets)

  -- An admission leaves the store alone or writes all of the reservation.
  pub admit_cases : P s → P admitted_here → P (admit uuid request units budgets expires_at s).1
  unfolding admit assert_operation_capacity assert_budget_capacity track_recovery_at
  admit_cases same all = elim (Bool-cases (leb s.max_retained_operations (size s.reservations))) [
    | inl full ↦ rw full same
    | inr room ↦ elim (Bool-cases (ltb 0 units)) [
      | inl positive ↦
          elim (Bool-cases (
            ltb s.max_retained_budget_keys
              (size s.used + length (new_budget_keys s.used [] budgets)))) [
                | inl full ↦ rw (room, positive, full) same
                | inr fits ↦ elim copied [
                  | inl (copy, good) ↦ rw (room, positive, fits, good) (rw positive at all)
                  | inr (e, bad) ↦ rw (room, positive, fits, bad) (rw positive at all)
                ]
              ]
      | inr zero_units ↦ elim copied [
        | inl (copy, good) ↦ rw (room, zero_units, good) (rw zero_units at all)
        | inr (e, bad) ↦ rw (room, zero_units, bad) (rw zero_units at all)
      ]
    ]
  ]
    where
      copied :
          ((a : ReservationRecord) × (clone_reservation_record new_record ≡ ok a))
          ⊎ ((e : Failure) × (clone_reservation_record new_record ≡ throw e))
      copied = Result-cases (clone_reservation_record new_record)

abbrev pub keys_exceed : List CanonicalBudget → MemoryUsageStore → Bool
keys_exceed budgets s =
    ltb s.max_retained_budget_keys (size s.used + length (new_budget_keys s.used [] budgets))

-- The outcomes of a loop that charges, with the equation of each.
pub charges_cases :
    (x : Result (Unit {0}) × JsMap ℕ)
    → ((used : JsMap ℕ) × (x ≡ (ok tt, used)))
      ⊎ ((e : Failure) × (used : JsMap ℕ) × (x ≡ (throw e, used)))
charges_cases (ok tt', used) = inl (used, refl)
charges_cases (throw e, used) = inr (e, used, refl)

module _ (P : MemoryUsageStore → Type 0) (g : Increment) (cursor : String) (r : InternalReservation)
    (p : ScalarPart) (s : MemoryUsageStore) where
  -- An increment that is denied is recorded; one that is accepted is charged and recorded; one
  -- that throws leaves the store alone, or with a part of the charges.
  pub attempt_growth_cases :
      P s
      → ((limiting : BudgetRemaining)
          → P (
              put_reservation g.reservation_id
                (grown r p p.reserved_units cursor g (denied_growth r cursor g limiting))
                s))
      → ((e : Failure) (used : JsMap ℕ)
          → charge_safely g.budgets g.units s.used ≡ (throw e, used)
          → P (with_used used s))
      → ((units : ℕ) (used : JsMap ℕ)
          → find_limiting g.units (remaining_by_budget s.used g.budgets) ≡ none
          → keys_exceed g.budgets s ≡ false
          → safe_add p.reserved_units g.units ≡ ok units
          → charge_safely g.budgets g.units s.used ≡ (ok tt, used)
          → P (
              put_reservation g.reservation_id
                (grown r p units cursor g (
                  accepted_growth r p.reserved_units units cursor g
                    (remaining_by_budget s.used g.budgets)))
                (with_used used s)))
      → P (attempt_growth g cursor r p s).1
  unfolding attempt_growth assert_budget_capacity
  attempt_growth_cases same denied partly accepted =
      elim (Option-cases (find_limiting g.units (remaining_by_budget s.used g.budgets))) [
        | inr (limiting, short) ↦ rw (short, attempt_growth) (denied limiting)
        | inl enough ↦ elim (Bool-cases (keys_exceed g.budgets s)) [
          | inl full ↦ rw (enough, attempt_growth, full) same
          | inr fits ↦ elim (Result-cases (safe_add p.reserved_units g.units)) [
            | inr (e, unsafe) ↦ rw (enough, attempt_growth, fits, unsafe) same
            | inl (units, safe) ↦ elim (charges_cases (charge_safely g.budgets g.units s.used)) [
              | inr (e, used, stop) ↦
                  rw (enough, attempt_growth, fits, safe, stop) (partly e used stop)
              | inl (used, charged) ↦
                  rw (enough, attempt_growth, fits, safe, charged)
                    (accepted units used enough fits safe charged)
            ]
          ]
        ]
      ]

module _ ⦃c : Collation⦄ (P : MemoryUsageStore → Type 0) (uuid : String) (request : UsageRequest)
    (ds : List Demand) (expires_at : ℕ) (s : MemoryUsageStore) where
  abbrev new_vector : InternalReservation
  new_vector = new_vector_reservation request uuid ds expires_at

  abbrev new_vector_record : VectorReservationRecord
  new_vector_record = vector_record new_vector (new_vector_part ds)

  write_vector_cases :
      ((e : Failure) (used : JsMap ℕ)
        → charge_dimensions ds s.used ≡ (throw e, used)
        → P (with_used used s))
      → ((used : JsMap ℕ)
          → charge_dimensions ds s.used ≡ (ok tt, used)
          → P (stored new_vector used s))
      → P (write_vector uuid request ds expires_at s).1
  unfolding write_vector track_recovery_at
  write_vector_cases partly all = elim (charges_cases (charge_dimensions ds s.used)) [
    | inr (e, used, stop) ↦ rw stop (partly e used stop)
    | inl (used, charged) ↦
        elim (Result-cases (clone_vector_reservation_record new_vector_record)) [
          | inl (copy, good) ↦ rw (charged, good) (all used charged)
          | inr (e, bad) ↦ rw (charged, bad) (all used charged)
        ]
  ]

  -- A vector admission that throws between two charges leaves the first of them.
  pub admit_vector_cases :
      P s
      → ((e : Failure) (used : JsMap ℕ)
          → charge_dimensions ds s.used ≡ (throw e, used)
          → P (with_used used s))
      → ((used : JsMap ℕ)
          → charge_dimensions ds s.used ≡ (ok tt, used)
          → P (stored new_vector used s))
      → P (admit_vector uuid request ds expires_at s).1
  unfolding admit_vector assert_operation_capacity assert_budget_capacity
  admit_vector_cases same partly all =
      elim (Bool-cases (leb s.max_retained_operations (size s.reservations))) [
        | inl full ↦ rw full same
        | inr room ↦ elim (Bool-cases (is_empty (charged_budgets ds))) [
          | inl free ↦ rw (room, free) (write_vector_cases partly all)
          | inr charging ↦ elim (Bool-cases (keys_exceed (charged_budgets ds) s)) [
            | inl full ↦ rw (room, charging, full) same
            | inr fits ↦ rw (room, charging, fits) (write_vector_cases partly all)
          ]
        ]
      ]

module _ (P : MemoryUsageStore → Type 0) (g : VectorIncrement) (cursor : String)
    (r : InternalReservation) (p : VectorPart) (s : MemoryUsageStore) where
  abbrev raised_here : Raised
  raised_here = raise_dimensions p.dimensions g.dimensions s.used

  pub attempt_vector_growth_cases :
      P s
      → ((limiting : VectorBudgetRemaining)
          → P (
              put_reservation g.reservation_id
                (grown_vector r p p.dimensions cursor g (denied_vector_growth r cursor g limiting))
                s))
      → P (
          put_reservation g.reservation_id
            (with_dimensions r p raised_here.dimensions)
            (with_used raised_here.used s))
      → ((result : StoreVectorGrowResult)
          → P (
              put_reservation g.reservation_id
                (grown_vector r p raised_here.dimensions cursor g result)
                (with_used raised_here.used s)))
      → P (attempt_vector_growth g cursor r p s).1
  unfolding attempt_vector_growth accept_vector_growth finish_vector_growth assert_budget_capacity
  attempt_vector_growth_cases same denied partly accepted =
      elim (Option-cases (find_vector_limiting s.used g.dimensions)) [
        | inr (limiting, short) ↦ rw (short, attempt_vector_growth) (denied limiting)
        | inl enough ↦ rw (enough, attempt_vector_growth) accept
      ]
    where
      finish :
          (done : Result (Unit {0}))
          → raised_here.done ≡ done
          → P
              (finish_vector_growth g cursor r p
                (vector_balances s.used g.dimensions)
                raised_here
                s).1
      finish (ok _) e = rw (e, finish_vector_growth) (accepted _)
      finish (throw _) e = rw (e, finish_vector_growth) partly

      accept : P (accept_vector_growth g cursor r p s).1
      accept = elim (Bool-cases (is_empty (charged_budgets g.dimensions))) [
        | inl free ↦ rw free (finish raised_here.done refl)
        | inr charging ↦ elim (Bool-cases (keys_exceed (charged_budgets g.dimensions) s)) [
          | inl full ↦ rw (charging, full) same
          | inr fits ↦ rw (charging, fits) (finish raised_here.done refl)
        ]
      ]
