-- ===== src/Examples/Active.antt =====
-- The methods on an active reservation at concrete inputs.
use mcp_usage_control.Examples.{
  request, day, canonical_day, calls_dimension, part, reservation, held_store, held-IsOpen,
}
use mcp_usage_control.Base.{
  budget_in_use, ◌==◌, if◌then◌else◌, All, already_settled, ◌⊎◌, state_error, Failure, ◌≡◌, refl,
  arith, ok, throw, [], ◌∷◌, String, false,
}
use mcp_usage_control.JsMap.{set, has, get}
use mcp_usage_control.Memory.Limits.{
  after_charge, charge_safely, new_budget_keys, assert_budget_capacity, remaining_by_budget,
  find_limiting,
}
use mcp_usage_control.Number.{safe_add, nat}
use mcp_usage_control.Collation.ByCode.{by_code}
use mcp_usage_control.Memory.State.{MemoryUsageStore}
use mcp_usage_control.Types.{StoreGrowResult}
use mcp_usage_control.Memory.Checks.{Increment}
use mcp_usage_control.Memory.Maintenance.{retire}
use mcp_usage_control.Memory.Covered.{all_active}
use mcp_usage_control.Memory.Scalar.{settle_found}
use mcp_usage_control.Memory.Recovery.{used_at, recover_all}
use mcp_usage_control.Memory.Settlement.{settle_found-again, settle_found-releases}
use mcp_usage_control.Memory.Current.{recover_all-IsCurrent, IsCurrent}
use mcp_usage_control.Memory.Growth.{replay_growth_result, grow_found, attempt_growth, grown}
use mcp_usage_control.Memory.Reconciliation.{reconcile_vector_operation, reconcile_operation}
use mcp_usage_control.Memory.Replay.{attempt_growth-replayed}
use mcp_usage_control.Memory.ReadOnly.{reconcile-readonly}
use mcp_usage_control.Memory.Retirement.{retire-unheld}

recover_all-IsCurrent_example :
    ((e : Failure) × (recover_all 75 held_store ≡ (throw e, held_store)))
    ⊎ (((recover_all 75 held_store).0 ≡ ok tt)
        × All (λ e. IsCurrent 75 e.1) (recover_all 75 held_store).1.reservations)
recover_all-IsCurrent_example = recover_all-IsCurrent 75 held_store (omega arith)

settle_found-again_example :
    settle_found "r1" 4 "ok" 2000 (settle_found "r1" 3 "ok" 1500 held_store).1
    ≡ (throw (state_error already_settled), (settle_found "r1" 3 "ok" 1500 held_store).1)
settle_found-again_example =
    settle_found-again "r1" reservation part 3 "ok" 1500 held_store held-IsOpen refl (omega arith) 4
      "ok" 2000

settle_found-releases_example :
    ((settle_found "r1" 3 "ok" 1500 held_store).0
      ≡ ok (record {
        reservation_id = "r1";
        reserved_units = 8;
        actual_units = 3;
        released_units = 5;
        outcome = "ok";
      }))
    × (used_at "day" (settle_found "r1" 3 "ok" 1500 held_store).1.used ≡ 3)
unfolding get
settle_found-releases_example =
    settle_found-releases "r1" reservation part 3 "ok" 1500 held_store held-IsOpen refl
      (omega arith) "day"

abbrev increment : Increment
increment = record {
  reservation_id = "r1";
  increment_id = "i1";
  expected_growth_cursor = "g1.a";
  units = 4;
  budgets = canonical_day ∷ [];
}

-- The reservation and its answer once the increment is accepted.
abbrev answer : StoreGrowResult
answer = StoreGrowResult.accepted (record {
  replayed = false;
  reservation_id = "r1";
  increment_id = "i1";
  previous_reserved_units = 8;
  reserved_units = 12;
  growth_cursor = "g1.b";
  remaining_by_budget = record { key = "day"; remaining = 88 } ∷ [];
})

abbrev grown_store : MemoryUsageStore
grown_store = record held_store {
  used = ("day", 12) ∷ [];
  reservations = ("r1", grown reservation part 12 "g1.b" increment answer) ∷ [];
}

grows_once : attempt_growth increment "g1.b" reservation part held_store ≡ (ok answer, grown_store)
unfolding attempt_growth find_limiting remaining_by_budget get assert_budget_capacity
    new_budget_keys safe_add charge_safely after_charge set
grows_once = refl

attempt_growth-replayed_example :
    grow_found increment "c" grown_store ≡ (ok (replay_growth_result answer), grown_store)
attempt_growth-replayed_example =
    attempt_growth-replayed increment "g1.b" reservation part held_store held-IsOpen answer
      grown_store "c" grows_once

retire-unheld_example :
    (((retire "day" held_store).0 ≡ ok (has "day" held_store.used))
      × (all_active "day" held_store.reservations ≡ 0)
      × ((k : String)
          → used_at k (retire "day" held_store).1.used
            ≡ (if "day" == k then 0 else used_at k held_store.used)))
    ⊎ (retire "day" held_store ≡ (throw (state_error budget_in_use), held_store))
retire-unheld_example = retire-unheld "day" held_store

reconcile-readonly_example :
    ((reconcile_operation 80
        (record { request = request; units = nat 8; budgets = day ∷ [] })
        held_store).1
      ≡ held_store)
    × ((reconcile_vector_operation 80
          (record { request = request; dimensions = calls_dimension ∷ [] })
          held_store).1
        ≡ held_store)
reconcile-readonly_example =
    reconcile-readonly 80 (record { request = request; units = nat 8; budgets = day ∷ [] })
      (record { request = request; dimensions = calls_dimension ∷ [] }) held_store
