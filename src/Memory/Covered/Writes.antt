-- ===== src/Memory/Covered/Writes.antt =====
-- Every write of `MemoryUsageStore` keeps the accounting invariant, so every sequence of calls does.
use mcp_usage_control.Memory.Moves.{IsOpen}
use mcp_usage_control.Base.{
  if◌then◌else◌, inl, inr, ◌*◌, occurrences, subst, ok, ltb, Bool-cases, true, total, arith, some,
  ◌≤◌, ◌+◌, ◌≡◌, List, ℕ, String,
}
use mcp_usage_control.Memory.Checks.{VectorIncrement, Increment}
use mcp_usage_control.Memory.Vector.{
  release_unused, settled_vector, admit_vector, new_vector_reservation, finish_vector_settlement,
}
use mcp_usage_control.Memory.State.{
  vector, scalar, VectorPart, ScalarPart, InternalReservation, MemoryUsageStore,
}
use mcp_usage_control.Types.{Demand, UsageDimensionActual, CanonicalBudget, UsageRequest}
use mcp_usage_control.Memory.Limits.{remaining_by_budget, track_recovery_at}
use mcp_usage_control.JsMap.{set, get, JsMap}
use mcp_usage_control.Memory.Usage.{
  charge_safely-Charged, Charged, dimension_held, used_at-charge_budgets, held,
}
use mcp_usage_control.Memory.Recovery.{used_at}
use mcp_usage_control.Memory.Scalar.{is_settled, charge_if_positive, admit, new_reservation}
use mcp_usage_control.Collation.{Collation}
use mcp_usage_control.Memory.Covered.{active, all_active, IsCovered}
use mcp_usage_control.Budgets.{budget_keys, same_budget_keys}
use mcp_usage_control.Dimensions.{same_vector_topology}
use mcp_usage_control.Memory.Outcomes.{
  attempt_growth_cases, attempt_vector_growth_cases, admit_cases, admit_vector_cases, stored,
}
use mcp_usage_control.Memory.Covered.Scalar.{all_active-set-le, all_active-set}
use mcp_usage_control.Memory.Covered.Vector.{
  mul_add, raise_dimensions-covers, same_budget_keys-occurrences, charge_dimensions-ChargedAll,
  ChargedAll, held-reserved_dimensions, release_unused-holds, demand_held,
}
use mcp_usage_control.Memory.Growth.{accepted_growth, denied_growth, grown, attempt_growth}
use mcp_usage_control.Memory.VectorGrowth.{
  with_dimensions, denied_vector_growth, grown_vector, raise_dimensions, Raised,
  attempt_vector_growth,
}
use mcp_usage_control.Number.{safe_add_sum, safe_add}

module _ (k : String) (s : MemoryUsageStore) where
  -- A store that writes a reservation and raises the balance by what the reservation adds.
  written_covers :
      (id : String) (r : InternalReservation) (old : InternalReservation) (used : JsMap ℕ)
      → get id s.reservations ≡ some old
      → active k r + used_at k s.used ≤ active k old + used_at k used
      → IsCovered s
      → all_active k (set id r s.reservations) ≤ used_at k used
  written_covers id r old used h le c =
      omega (arith, all_active-set k id r old s.reservations h, le, c k)

  stored_covers :
      (r : InternalReservation) (used : JsMap ℕ)
      → held k r + used_at k s.used ≤ used_at k used
      → IsCovered s
      → all_active k (stored r used s).reservations ≤ used_at k used
  stored_covers r used le c =
      let added = all_active-set-le k r.id r s.reservations in
      let less : active k r ≤ held k r = ground arith in omega (arith, added, less, le, c k)

  raised_covers :
      (used : JsMap ℕ)
      → used_at k s.used ≤ used_at k used
      → IsCovered s
      → all_active k s.reservations ≤ used_at k used
  raised_covers used le c = omega (arith, le, c k)

module _ (uuid : String) (request : UsageRequest) (expires_at : ℕ) (s : MemoryUsageStore) where
  pub admit-covers :
      (units : ℕ) (budgets : List CanonicalBudget)
      → IsCovered s
      → IsCovered (admit uuid request units budgets expires_at s).1
  unfolding new_reservation
  admit-covers units budgets c =
      admit_cases IsCovered uuid request units budgets expires_at s c (λ k.
        stored_covers k s (new_reservation request uuid units budgets expires_at)
          (charge_if_positive budgets units s.used) (charged k) c)
    where
      charged :
          (k : String)
          → held k (new_reservation request uuid units budgets expires_at) + used_at k s.used
            ≤ used_at k (charge_if_positive budgets units s.used)
      charged k = elim (Bool-cases (ltb 0 units)) [
        | inl positive ↦ rw positive (omega (arith, used_at-charge_budgets k budgets units s.used))
        | inr nothing ↦ rw nothing (let z : units ≡ 0 = ground arith in rw z (omega arith))
      ]

  pub admit_vector-covers :
      ⦃c : Collation⦄ (ds : List Demand)
      → IsCovered s
      → IsCovered (admit_vector uuid request ds expires_at s).1
  unfolding new_vector_reservation
  admit_vector-covers ds c =
      admit_vector_cases IsCovered uuid request ds expires_at s c
        (λ e used stop k.
          raised_covers k s used
            (subst (ChargedAll k ds s.used) stop (charge_dimensions-ChargedAll k ds s.used)) c)
        (λ used charged k.
          stored_covers k s (new_vector_reservation request uuid ds expires_at) used
            (all_held k used
              (subst (ChargedAll k ds s.used) charged (charge_dimensions-ChargedAll k ds s.used)))
            c)
    where
      all_held :
          (k : String) (used : JsMap ℕ)
          → used_at k used ≡ used_at k s.used + total (demand_held k) ds
          → held k (new_vector_reservation request uuid ds expires_at) + used_at k s.used
            ≤ used_at k used
      all_held k used h = omega (arith, held-reserved_dimensions k ds)

pub attempt_growth-covers :
    (g : Increment) (cursor : String) (r : InternalReservation) (p : ScalarPart)
    (s : MemoryUsageStore)
    → IsOpen s g.reservation_id r
    → r.mode ≡ scalar p
    → same_budget_keys p.budget_keys g.budgets ≡ true
    → IsCovered s
    → IsCovered (attempt_growth g cursor r p s).1
attempt_growth-covers g cursor r p s is_open mode same c =
    attempt_growth_cases IsCovered g cursor r p s c
      (λ limiting k.
        written_covers k s g.reservation_id
          (grown r p p.reserved_units cursor g (denied_growth r cursor g limiting)) r s.used
          is_open.found (rw mode (omega arith)) c)
      (λ e used stop k.
        raised_covers k s used
          (subst (Charged k g.budgets g.units s.used) stop
            (charge_safely-Charged k g.budgets g.units s.used))
          c)
      (λ units used enough fits safe charged k.
        written_covers k s g.reservation_id
          (grown r p units cursor g (
            accepted_growth r p.reserved_units units cursor g
              (remaining_by_budget s.used g.budgets)))
          r used is_open.found
          (rise k units used safe (
            subst (Charged k g.budgets g.units s.used) charged
              (charge_safely-Charged k g.budgets g.units s.used)))
          c)
  where
    rise :
        (k : String) (units : ℕ) (used : JsMap ℕ)
        → safe_add p.reserved_units g.units ≡ ok units
        → used_at k used ≡ used_at k s.used + occurrences k (budget_keys g.budgets) * g.units
        → (if is_settled r.state then 0 else occurrences k p.budget_keys * units) + used_at k s.used
          ≤ active k r + used_at k used
    rise k units used safe q =
        let n = occurrences k p.budget_keys in
        let q' : used_at k used ≡ used_at k s.used + n * g.units =
          rw (same_budget_keys-occurrences k p.budget_keys g.budgets same) q in
        let m : n * units ≡ n * p.reserved_units + n * g.units =
          rw ((safe_add_sum p.reserved_units g.units units safe).0)
            (mul_add n p.reserved_units g.units) in
        rw (is_open.unsettled, mode) (omega (arith, m, q'))

pub attempt_vector_growth-covers :
    (g : VectorIncrement) (cursor : String) (r : InternalReservation) (p : VectorPart)
    (s : MemoryUsageStore)
    → IsOpen s g.reservation_id r
    → r.mode ≡ vector p
    → same_vector_topology p.dimensions g.dimensions ≡ true
    → IsCovered s
    → IsCovered (attempt_vector_growth g cursor r p s).1
attempt_vector_growth-covers g cursor r p s is_open mode same c =
    attempt_vector_growth_cases IsCovered g cursor r p s c
      (λ limiting k.
        written_covers k s g.reservation_id
          (grown_vector r p p.dimensions cursor g (denied_vector_growth r cursor g limiting)) r
          s.used is_open.found (rw mode (omega arith)) c)
      (λ k.
        written_covers k s g.reservation_id (with_dimensions r p raised.dimensions) r raised.used
          is_open.found (rise k) c)
      (λ result k.
        written_covers k s g.reservation_id (grown_vector r p raised.dimensions cursor g result) r
          raised.used is_open.found (rise k) c)
  where
    raised : Raised
    raised = raise_dimensions p.dimensions g.dimensions s.used

    rise :
        (k : String)
        → (if is_settled r.state then 0 else total (dimension_held k) raised.dimensions)
            + used_at k s.used
          ≤ active k r + used_at k raised.used
    rise k =
        rw (is_open.unsettled, mode)
          (raise_dimensions-covers k p.dimensions g.dimensions s.used same)

pub finish_vector_settlement-covers :
    (id : String) (r : InternalReservation) (p : VectorPart) (actuals : List UsageDimensionActual)
    (outcome : String) (tombstone : ℕ) (s : MemoryUsageStore)
    → IsOpen s id r
    → r.mode ≡ vector p
    → IsCovered s
    → IsCovered (finish_vector_settlement id r p actuals outcome tombstone s).1
unfolding finish_vector_settlement track_recovery_at
finish_vector_settlement-covers id r p actuals outcome tombstone s is_open mode c k =
    written_covers k s id (settled_vector r p actuals outcome tombstone) r
      (release_unused actuals p.dimensions s.used) is_open.found
      (rw (is_open.unsettled, mode)
        (omega (arith, release_unused-holds k actuals p.dimensions s.used)))
      c
