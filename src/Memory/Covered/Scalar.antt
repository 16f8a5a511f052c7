-- ===== src/Memory/Covered/Scalar.antt =====
-- The scalar methods keep the accounting invariant.
use mcp_usage_control.Base.{
  ltb, ◌-◌, occurrences, ◌*◌, ℕ, ◌+◌, ◌≤◌, ◌≡◌, String, some, arith, Option-cases, Bool-cases, inl,
  inr,
}
use mcp_usage_control.JsMap.{JsMap, get, set}
use mcp_usage_control.JsMap.Sums.{sum-set, sum-set_new}
use mcp_usage_control.Memory.State.{scalar, ScalarPart, InternalReservation, MemoryUsageStore}
use mcp_usage_control.Memory.Scalar.{settled_reservation, finish_settlement, put_reservation}
use mcp_usage_control.Memory.Covered.{active, all_active, IsCovered}
use mcp_usage_control.Memory.Limits.{track_recovery_at}
use mcp_usage_control.Memory.Moves.{IsOpen}
use mcp_usage_control.Memory.Usage.{used_at-release_across_budgets}

-- A write to a retained reservation moves the sum by what it moves there.
pub all_active-set :
    (k id : String) (r old : InternalReservation) (m : JsMap InternalReservation)
    → get id m ≡ some old
    → all_active k (set id r m) + active k old ≡ all_active k m + active k r
all_active-set k id r old m h = sum-set (active k) id r old m h

-- A write at any key adds at most what the new reservation holds.
pub all_active-set-le :
    (k id : String) (r : InternalReservation) (m : JsMap InternalReservation)
    → all_active k (set id r m) ≤ all_active k m + active k r
all_active-set-le k id r m = elim (Option-cases (get id m)) [
  | inl new ↦ omega (arith, sum-set_new (active k) id r m new)
  | inr (old, h) ↦ omega (arith, sum-set (active k) id r old m h)
]

-- A write that holds no more than what it replaces keeps the invariant.
pub put_reservation-covers :
    (id : String) (r old : InternalReservation) (s : MemoryUsageStore)
    → get id s.reservations ≡ some old
    → ((k : String) → active k r ≤ active k old)
    → IsCovered s
    → IsCovered (put_reservation id r s)
put_reservation-covers id r old s h le c k =
    omega (arith, all_active-set k id r old s.reservations h, le k, c k)

track_covers : (s : MemoryUsageStore) (at : ℕ) → IsCovered s → IsCovered (track_recovery_at at s).1
unfolding track_recovery_at
track_covers s at c = c

pub mul_le : (a b n : ℕ) → a ≤ b → n * a ≤ n * b
mul_le a b n h = grind arith

-- What a settlement releases is at most what the reservation held.
pub finish_settlement-covers :
    (id : String) (r : InternalReservation) (p : ScalarPart) (actual : ℕ) (outcome : String)
    (tombstone : ℕ) (s : MemoryUsageStore)
    → IsOpen s id r
    → r.mode ≡ scalar p
    → IsCovered s
    → IsCovered (finish_settlement id r p actual outcome tombstone s).1
unfolding finish_settlement track_recovery_at
finish_settlement-covers id r p actual outcome tombstone s is_open mode c k =
    let r' = settled_reservation r p actual outcome tombstone in
    let moved = all_active-set k id r' r s.reservations is_open.found in
    let before : active k r ≡ occurrences k p.budget_keys * p.reserved_units =
      rw (is_open.unsettled, mode) in
    let less =
      mul_le (p.reserved_units - actual) p.reserved_units (occurrences k p.budget_keys)
        (omega arith) in
    elim (Bool-cases (ltb 0 (p.reserved_units - actual))) [
      | inl some_left ↦ rw some_left (
          omega (
            arith,
            moved,
            before,
            less,
            c k,
            used_at-release_across_budgets k p.budget_keys (p.reserved_units - actual) s.used,
          ))
      | inr none_left ↦ rw none_left (omega (arith, moved, c k))
    ]
