-- ===== src/Memory/Replay.antt =====
-- What `growReservation` answers when the same increment is asked for again.
use mcp_usage_control.Memory.Growth.{
  fingerprint, new_increment, with_used, grown, finish_growth, accept_growth, attempt_growth,
  recorded, replay_growth_result, same_fingerprint, grow_scalar, grow_found, same_budgets,
}
use mcp_usage_control.Memory.Limits.{
  new_growth_cursor, charge_safely, remaining_by_budget, find_limiting, assert_budget_capacity,
}
use mcp_usage_control.Budgets.{same_budget_keys}
use mcp_usage_control.Records.{is_blank}
pub mod Any
use mcp_usage_control.Base.{
  sym, ◌∙◌, ok_injective, ◌||◌, not, Failure, ap, ◌==◌, subst, Result, eqb, ℕ, ◌∷◌, [], arith, some,
  String, ◌≡◌, List, refl, eq_refl, inl, inr, true, false, Bool-cases, Option-cases, ok, throw,
  Result-cases,
}
use mcp_usage_control.Memory.State.{
  Mode-cases, ScalarPart, InternalReservation, MemoryUsageStore, scalar,
}
use mcp_usage_control.Memory.Checks.{Increment}
use mcp_usage_control.Types.{BudgetRemaining, CanonicalBudget, StoreGrowResult}
use mcp_usage_control.JsMap.{get-set, JsMap, get}
use mcp_usage_control.Memory.Scalar.{put_reservation, is_settled}
use mcp_usage_control.Memory.Moves.{IsOpen}
use mcp_usage_control.Memory.Outcomes.{keys_exceed}
use mcp_usage_control.Number.{safe_add}

pub eqb_refl : (n : ℕ) → eqb n n ≡ true
eqb_refl n = ground arith

pub same_budgets_refl : (bs : List CanonicalBudget) → same_budgets bs bs ≡ true
unfolding same_budgets
same_budgets_refl [] = refl
same_budgets_refl (b ∷ bs) = ground (arith, eq_refl b.key, same_budgets_refl bs)

-- The increment is the last one that the reservation has recorded.
abbrev pub HoldsGrowth : Increment → StoreGrowResult → MemoryUsageStore → Type 0
HoldsGrowth g v t =
    (r : InternalReservation) × (p : ScalarPart) × (get g.reservation_id t.reservations ≡ some r)
    × (is_settled r.state ≡ false)
    × (r.mode ≡ scalar p)
    × (p.last_growth ≡ some (recorded g v))

held_growth_replays :
    (g : Increment) (v : StoreGrowResult) (t : MemoryUsageStore) (uuid : String)
    → HoldsGrowth g v t
    → grow_found g uuid t ≡ (ok (replay_growth_result v), t)
unfolding grow_found grow_scalar same_fingerprint
held_growth_replays g v t uuid (r, p, found, live, mode, last) =
    rw (found, grow_found)
      (rw mode (
        rw (live, grow_scalar)
          (rw (last, grow_scalar)
            (rw
              (
                eq_refl g.increment_id,
                eq_refl g.expected_growth_cursor,
                same_budgets_refl g.budgets,
                eqb_refl g.units,
              )
              refl))))

abbrev Recorded : Increment → Result StoreGrowResult × MemoryUsageStore → Type 0
Recorded g (ok v, t) = HoldsGrowth g v t
Recorded g (throw e, t) = Unit

module _ (g : Increment) (cursor : String) (r : InternalReservation) (p : ScalarPart)
    (s : MemoryUsageStore) (is_open : IsOpen s g.reservation_id r) where
  put_holds :
      (units : ℕ) (v : StoreGrowResult) (used : JsMap ℕ)
      → HoldsGrowth g v
          (put_reservation g.reservation_id (grown r p units cursor g v) (with_used used s))
  put_holds units v used =
      let r' = grown r p units cursor g v in
      (
        r',
        record p { reserved_units = units; last_growth = some (recorded g v) },
        rw (get-set g.reservation_id g.reservation_id r' s.reservations, eq_refl g.reservation_id)
            refl,
        is_open.unsettled,
        refl,
        refl,
      )

  finish_growth-Recorded :
      (units : ℕ) (balances : List BudgetRemaining) (x : Result (Unit {0}) × JsMap ℕ)
      → Recorded g (finish_growth g cursor r p units balances x s)
  finish_growth-Recorded units balances (throw e, used) = tt
  finish_growth-Recorded units balances (ok _, used) = put_holds units _ used

  -- An increment that is accepted or denied is recorded as the last one of its reservation.
  attempt_growth-Recorded : Recorded g (attempt_growth g cursor r p s)
  unfolding attempt_growth accept_growth assert_budget_capacity
  attempt_growth-Recorded =
      elim (Option-cases (find_limiting g.units (remaining_by_budget s.used g.budgets))) [
        | inr (limiting, short) ↦ rw (short, attempt_growth) (put_holds p.reserved_units _ s.used)
        | inl enough ↦ elim (Bool-cases (keys_exceed g.budgets s)) [
          | inl full ↦ rw (enough, attempt_growth, full) tt
          | inr fits ↦ elim (Result-cases (safe_add p.reserved_units g.units)) [
            | inr (e, unsafe) ↦ rw (enough, attempt_growth, fits, unsafe) tt
            | inl (units, safe) ↦
                rw (enough, attempt_growth, fits, safe)
                  (finish_growth-Recorded units (remaining_by_budget s.used g.budgets)
                    (charge_safely g.budgets g.units s.used))
          ]
        ]
      ]

  -- An increment of an active reservation that was answered, accepted or denied, and is asked for
  -- again, leaves the store alone and answers as before, marked as a replay: it is charged once.
  pub attempt_growth-replayed :
      (v : StoreGrowResult) (t : MemoryUsageStore) (uuid : String)
      → attempt_growth g cursor r p s ≡ (ok v, t)
      → grow_found g uuid t ≡ (ok (replay_growth_result v), t)
  attempt_growth-replayed v t uuid h =
      held_growth_replays g v t uuid (subst (Recorded g) h attempt_growth-Recorded)
