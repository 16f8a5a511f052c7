-- ===== src/Memory/Growth.antt =====
-- `growReservation` of `MemoryUsageStore`: one increment of a scalar reservation, replayed when it
-- is asked for again.
use mcp_usage_control.Base.{
  ℕ, Bool, true, false, List, [], ◌∷◌, String, none, some, eqb, ◌==◌, ◌&&◌, ◌||◌, not,
  if◌then◌else◌, Result, ok, throw, state_error, not_found, wrong_mode, settled_growth,
  increment_conflict, no_growth_support, stale_cursor, topology_mismatch,
}
use mcp_usage_control.JsMap.{JsMap, get}
use mcp_usage_control.Number.{safe_add}
use mcp_usage_control.Types.{
  CanonicalBudget, BudgetRemaining, GrowReservationInput, StoreGrowResult,
}
use mcp_usage_control.Collation.{Collation}
use mcp_usage_control.Budgets.{same_budget_keys}
use mcp_usage_control.Records.{is_blank}
use mcp_usage_control.Memory.State.{
  scalar, vector, ScalarPart, InternalReservation, MemoryUsageStore, LastGrowth, GrowthFingerprint,
}
use mcp_usage_control.Memory.Action.{Action, lift, raise, ◌>>=◌, ◌>>◌}
use mcp_usage_control.Memory.Checks.{Increment, check_growth_input}
use mcp_usage_control.Memory.Recovery.{after_recovery}
use mcp_usage_control.Memory.Limits.{
  new_growth_cursor, remaining_by_budget, find_limiting, after_charge, assert_budget_capacity,
  charge_safely,
}
use mcp_usage_control.Memory.Scalar.{is_settled, put_reservation}

unfoldable pub same_budgets : List CanonicalBudget → List CanonicalBudget → Bool
same_budgets [] [] = true
same_budgets [] (y ∷ ys) = false
same_budgets (x ∷ xs) [] = false
same_budgets (x ∷ xs) (y ∷ ys) = (x.key == y.key) && eqb x.limit y.limit && same_budgets xs ys

unfoldable pub same_fingerprint : GrowthFingerprint → GrowthFingerprint → Bool
unfolding same_budgets
same_fingerprint a b = eqb a.additional_units b.additional_units && same_budgets a.budgets b.budgets

-- `replayGrowthResult`: the recorded result, marked as a replay.
unfoldable pub replay_growth_result : StoreGrowResult → StoreGrowResult
replay_growth_result (StoreGrowResult.accepted r) =
    StoreGrowResult.accepted (record r { replayed = true })
replay_growth_result (StoreGrowResult.denied r) =
    StoreGrowResult.denied (record r { replayed = true })

abbrev pub fingerprint : Increment → GrowthFingerprint
fingerprint g = record { additional_units = g.units; budgets = g.budgets }

abbrev pub recorded : Increment → StoreGrowResult → LastGrowth
recorded g result = record {
  increment_id = g.increment_id;
  expected_growth_cursor = g.expected_growth_cursor;
  fingerprint = fingerprint g;
  result = result;
}

-- The reservation with a new cursor, a number of units, and the increment recorded.
abbrev pub grown :
    InternalReservation
    → ScalarPart
    → ℕ
    → String
    → Increment
    → StoreGrowResult
    → InternalReservation
grown r p units cursor g result = record r {
  growth_cursor = some cursor;
  mode = scalar (record p { reserved_units = units; last_growth = some (recorded g result) });
}

unfoldable pub denied_growth :
    InternalReservation → String → Increment → BudgetRemaining → StoreGrowResult
denied_growth r cursor g limiting = StoreGrowResult.denied (record {
  replayed = false;
  reservation_id = r.id;
  increment_id = g.increment_id;
  growth_cursor = cursor;
  limiting_budget_key = limiting.key;
  remaining = limiting.remaining;
})

unfoldable pub accepted_growth :
    InternalReservation → ℕ → ℕ → String → Increment → List BudgetRemaining → StoreGrowResult
accepted_growth r previous units cursor g balances = StoreGrowResult.accepted (record {
  replayed = false;
  reservation_id = r.id;
  increment_id = g.increment_id;
  previous_reserved_units = previous;
  reserved_units = units;
  growth_cursor = cursor;
  remaining_by_budget = after_charge g.units balances;
})

abbrev pub with_used : JsMap ℕ → MemoryUsageStore → MemoryUsageStore
with_used used s = record s { used = used }

abbrev pub finish_growth :
    Increment
    → String
    → InternalReservation
    → ScalarPart
    → ℕ
    → List BudgetRemaining
    → Result (Unit {0}) × JsMap ℕ
    → Action StoreGrowResult
finish_growth g cursor r p units balances (throw e, used) s = (throw e, with_used used s)
finish_growth g cursor r p units balances (ok _, used) s =
    let result = accepted_growth r p.reserved_units units cursor g balances in
    (
      ok result,
      put_reservation g.reservation_id (grown r p units cursor g result) (with_used used s),
    )

-- The increment once the balances suffice.
unfoldable pub accept_growth :
    Increment → String → InternalReservation → ScalarPart → Action StoreGrowResult
unfolding accepted_growth
accept_growth g cursor r p s =
    (do
      assert_budget_capacity g.budgets
      units ← lift (safe_add p.reserved_units g.units)
      finish_growth g cursor r p units (remaining_by_budget s.used g.budgets)
          (charge_safely g.budgets g.units s.used))
      s

unfoldable pub attempt_growth :
    Increment → String → InternalReservation → ScalarPart → Action StoreGrowResult
unfolding accept_growth denied_growth
attempt_growth g cursor r p s =
    elim (find_limiting g.units (remaining_by_budget s.used g.budgets)) [
      | none ↦ accept_growth g cursor r p s
      | some limiting ↦
          (let result = denied_growth r cursor g limiting in
            (
              ok result,
              put_reservation g.reservation_id (grown r p p.reserved_units cursor g result) s,
            ))
    ]

-- A new increment: the cursor and the budgets must be the reservation's.
unfoldable pub new_increment :
    Increment → String → InternalReservation → ScalarPart → Action StoreGrowResult
unfolding attempt_growth
new_increment g uuid r p s = elim r.growth_cursor [
  | none ↦ raise (state_error no_growth_support) s
  | some cursor ↦
      if is_blank cursor
      then raise (state_error no_growth_support) s
      else if not (cursor == g.expected_growth_cursor)
      then raise (state_error stale_cursor) s
      else if not (same_budget_keys p.budget_keys g.budgets)
      then raise (state_error topology_mismatch) s
      else attempt_growth g (new_growth_cursor uuid) r p s
]

unfoldable pub grow_scalar :
    Increment → String → InternalReservation → ScalarPart → Action StoreGrowResult
unfolding new_increment same_fingerprint replay_growth_result
grow_scalar g uuid r p s =
    if is_settled r.state then raise (state_error settled_growth) s else elim p.last_growth [
      | none ↦ new_increment g uuid r p s
      | some last ↦
          if last.increment_id == g.increment_id
          then (if not (last.expected_growth_cursor == g.expected_growth_cursor)
                || not (same_fingerprint last.fingerprint (fingerprint g))
              then raise (state_error increment_conflict) s
              else (ok (replay_growth_result last.result), s))
          else new_increment g uuid r p s
    ]

unfoldable pub grow_found : Increment → String → Action StoreGrowResult
unfolding grow_scalar
grow_found g uuid s = elim (get g.reservation_id s.reservations) [
  | none ↦ raise (state_error not_found) s
  | some r ↦ elim r.mode [
    | vector _ ↦ raise (state_error wrong_mode) s
    | scalar p ↦ grow_scalar g uuid r p s
  ]
]

unfoldable pub grow_reservation :
    ⦃c : Collation⦄ → ℕ → String → GrowReservationInput → Action StoreGrowResult
unfolding grow_found
grow_reservation now uuid input =
    after_recovery now (check_growth_input input) λ increment. grow_found increment uuid
