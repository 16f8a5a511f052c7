-- ===== src/Memory/Limits.antt =====
-- Steps that the scalar and the vector methods of `MemoryUsageStore` share: capacities, balances and
-- charges.
use Prim.Native.String.{◌++◌ as append_text}
use mcp_usage_control.Base.{
  ℕ, ◌+◌, ◌-◌, List, [], ◌∷◌, String, Option, none, some, map, length, leb, ltb, if◌then◌else◌,
  Result, ok, throw, capacity_error, retained_operations, retained_budget_keys, includes,
}
use mcp_usage_control.JsMap.{JsMap, has, set, size}
use mcp_usage_control.Number.{safe_add}
use mcp_usage_control.Types.{CanonicalBudget, BudgetRemaining}
use mcp_usage_control.Memory.State.{earlier}
use mcp_usage_control.Memory.Action.{Action, raise}
use mcp_usage_control.Memory.Recovery.{used_at}

-- `newGrowthCursor`, of a random text.
unfoldable pub new_growth_cursor : String → String
new_growth_cursor uuid = append_text "g1." uuid

unfoldable pub remaining_by_budget : JsMap ℕ → List CanonicalBudget → List BudgetRemaining
remaining_by_budget used budgets =
    map (λ b. record { key = b.key; remaining = b.limit - used_at b.key used }) budgets

-- The first balance that the units exceed.
unfoldable pub find_limiting : ℕ → List BudgetRemaining → Option BudgetRemaining
find_limiting units [] = none
find_limiting units (b ∷ bs) = if ltb b.remaining units then some b else find_limiting units bs

unfoldable pub after_charge : ℕ → List BudgetRemaining → List BudgetRemaining
after_charge units balances =
    map (λ b. record { key = b.key; remaining = b.remaining - units }) balances

unfoldable pub assert_operation_capacity : Action (Unit {0})
assert_operation_capacity s =
    if leb s.max_retained_operations (size s.reservations)
    then raise (capacity_error retained_operations s.max_retained_operations) s
    else (ok tt, s)

-- The set of the keys that the map does not hold yet.
unfoldable pub new_budget_keys : JsMap ℕ → List String → List CanonicalBudget → List String
new_budget_keys used seen [] = seen
new_budget_keys used seen (b ∷ bs) =
    new_budget_keys used
      (if has b.key used then seen else if includes b.key seen then seen else b.key ∷ seen) bs

unfoldable pub assert_budget_capacity : List CanonicalBudget → Action (Unit {0})
assert_budget_capacity budgets s =
    if ltb s.max_retained_budget_keys (size s.used + length (new_budget_keys s.used [] budgets))
    then raise (capacity_error retained_budget_keys s.max_retained_budget_keys) s
    else (ok tt, s)

unfoldable pub track_recovery_at : ℕ → Action (Unit {0})
track_recovery_at at s = (ok tt, record s { next_recovery_at = earlier s.next_recovery_at at })

-- The loop of `reserve` that charges each budget.
unfoldable pub charge_budgets : List CanonicalBudget → ℕ → JsMap ℕ → JsMap ℕ
charge_budgets [] units used = used
charge_budgets (b ∷ bs) units used =
    charge_budgets bs units (set b.key (used_at b.key used + units) used)

-- The same loop where each sum is checked: what was charged before a throw stays charged.
unfoldable pub charge_safely : List CanonicalBudget → ℕ → JsMap ℕ → Result (Unit {0}) × JsMap ℕ
charge_safely [] units used = (ok tt, used)
charge_safely (b ∷ bs) units used = elim (safe_add (used_at b.key used) units) [
  | ok sum ↦ charge_safely bs units (set b.key sum used)
  | throw e ↦ (throw e, used)
]
