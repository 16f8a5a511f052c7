-- ===== src/Dimensions.antt =====
-- The canonical forms of vector inputs in packages/core/src/index.ts: dimensions checked and sorted
-- by key, with a topology in which neither a dimension nor a budget occurs twice.
pub mod Topology
use mcp_usage_control.Base.{
  ℕ, ◌≡◌, Bool, true, false, List, [], ◌∷◌, ◌++◌, String, ◌==◌, ◌||◌, ◌&&◌, map, length, any, eqb,
  ltb, Result, ok, throw_if, range_error, state_error, dimension_mismatch, actual_exceeds_reserved,
  not, includes, ◌>>=◌, ◌>>◌, each, len,
}
use mcp_usage_control.Number.{assert_non_negative_integer}
use mcp_usage_control.Types.{
  CanonicalBudget, Demand, UsageDimension, UsageDimensionGrowth, UsageDimensionActual, ActualInput,
  VectorReservationDimension,
}
use mcp_usage_control.Collation.{Collation, sort_by}
use mcp_usage_control.Input.{validate_usage_vector_envelope, validate_usage_vector_growth_envelope}
use mcp_usage_control.Budgets.{canonicalize_budgets, budget_keys, same_budget_keys}

abbrev pub demand_key : Demand → String
demand_key d = d.key

-- The keys of all budgets, dimension by dimension.
abbrev pub topology_keys : List Demand → List String
topology_keys [] = []
topology_keys (d ∷ ds) = budget_keys d.budgets ++ topology_keys ds

-- The inner loop of `assertUniqueVectorTopology`: the set of budget keys, grown.
unfoldable pub add_budget_keys : List String → List CanonicalBudget → Result (List String)
add_budget_keys seen [] = ok seen
add_budget_keys seen (budget ∷ rest) = do
  throw_if (includes budget.key seen) range_error
  add_budget_keys (budget.key ∷ seen) rest

unfoldable pub unique_topology_from : List String → List String → List Demand → Result (Unit {0})
unique_topology_from dimension_keys seen [] = ok tt
unique_topology_from dimension_keys seen (dimension ∷ rest) = do
  throw_if (includes dimension.key dimension_keys) range_error
  seen' ← add_budget_keys seen dimension.budgets
  unique_topology_from (dimension.key ∷ dimension_keys) seen' rest

unfoldable pub assert_unique_vector_topology : List Demand → Result (Unit {0})
unfolding unique_topology_from add_budget_keys
assert_unique_vector_topology dimensions = unique_topology_from [] [] dimensions

unfoldable pub normalize_dimension : ⦃c : Collation⦄ → UsageDimension → Result Demand
normalize_dimension dimension = do
  units ← assert_non_negative_integer dimension.units
  budgets ← canonicalize_budgets dimension.budgets
  ok (record { key = dimension.key; units = units; budgets = budgets })

unfoldable pub canonicalize_usage_dimensions :
    ⦃c : Collation⦄ → List UsageDimension → Result (List Demand)
canonicalize_usage_dimensions dimensions = do
  validate_usage_vector_envelope dimensions
  normalized ← each normalize_dimension dimensions
  assert_unique_vector_topology (sort_by demand_key normalized)
  ok (sort_by demand_key normalized)

unfoldable pub normalize_growth : ⦃c : Collation⦄ → UsageDimensionGrowth → Result Demand
normalize_growth dimension = do
  units ← assert_non_negative_integer dimension.additional_units
  budgets ← canonicalize_budgets dimension.budgets
  ok (record { key = dimension.key; units = units; budgets = budgets })

unfoldable pub canonicalize_vector_growth_dimensions :
    ⦃c : Collation⦄ → List UsageDimensionGrowth → Result (List Demand)
canonicalize_vector_growth_dimensions dimensions = do
  validate_usage_vector_growth_envelope dimensions
  normalized ← each normalize_growth dimensions
  assert_unique_vector_topology (sort_by demand_key normalized)
  throw_if (not (any (λ d. ltb 0 d.units) (sort_by demand_key normalized))) range_error
  ok (sort_by demand_key normalized)

unfoldable pub normalize_actual : ActualInput → Result UsageDimensionActual
normalize_actual item = do
  throw_if (eqb (len item.key) 0) range_error
  actual_units ← assert_non_negative_integer item.actual_units
  ok (record { key = item.key; actual_units = actual_units })

-- The loop that holds each actual against the reserved dimension of its index. The two lists have
-- one length here; past the end of the second the source would fail on `undefined`.
unfoldable pub check_actuals :
    List UsageDimensionActual → List VectorReservationDimension → Result (Unit {0})
check_actuals [] reserved = ok tt
check_actuals (actual ∷ rest) [] = throw_if true (state_error dimension_mismatch)
check_actuals (actual ∷ rest) (dimension ∷ reserved) = do
  throw_if (not (actual.key == dimension.key)) (state_error dimension_mismatch)
  throw_if (ltb dimension.reserved_units actual.actual_units) (state_error actual_exceeds_reserved)
  check_actuals rest reserved

abbrev pub actual_key : UsageDimensionActual → String
actual_key a = a.key

unfoldable pub canonicalize_vector_actuals :
    ⦃c : Collation⦄
    → List ActualInput
    → List VectorReservationDimension
    → Result (List UsageDimensionActual)
canonicalize_vector_actuals actuals reserved = do
  throw_if (not (eqb (length actuals) (length reserved))) (state_error dimension_mismatch)
  normalized ← each normalize_actual actuals
  check_actuals (sort_by actual_key normalized) reserved
  ok (sort_by actual_key normalized)

unfoldable pub same_vector_topology : List VectorReservationDimension → List Demand → Bool
unfolding same_budget_keys
same_vector_topology [] [] = true
same_vector_topology [] (d ∷ ds) = false
same_vector_topology (r ∷ rs) [] = false
same_vector_topology (r ∷ rs) (d ∷ ds) =
    (r.key == d.key) && same_budget_keys r.budget_keys d.budgets && same_vector_topology rs ds

unfoldable pub same_vector_reconciliation_topology :
    List VectorReservationDimension → List Demand → Bool
unfolding same_budget_keys
same_vector_reconciliation_topology [] [] = true
same_vector_reconciliation_topology [] (d ∷ ds) = false
same_vector_reconciliation_topology (r ∷ rs) [] = false
same_vector_reconciliation_topology (r ∷ rs) (d ∷ ds) =
    (r.key == d.key)
    && eqb r.reserved_units d.units
    && same_budget_keys r.budget_keys d.budgets
    && same_vector_reconciliation_topology rs ds

unfoldable pub same_vector_actuals : List UsageDimensionActual → List UsageDimensionActual → Bool
same_vector_actuals [] [] = true
same_vector_actuals [] (y ∷ ys) = false
same_vector_actuals (x ∷ xs) [] = false
same_vector_actuals (x ∷ xs) (y ∷ ys) =
    (x.key == y.key) && eqb x.actual_units y.actual_units && same_vector_actuals xs ys
