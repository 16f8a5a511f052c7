-- ===== src/Budgets.antt =====
-- `canonicalizeBudgets` and `sameBudgetKeys` of packages/core/src/index.ts: budgets checked,
-- sorted by key, and refused if two neighbours then have one key.
pub mod Canonical
pub mod Collisions
use mcp_usage_control.Base.{
  ◌≡◌, Bool, true, false, List, [], ◌∷◌, String, ◌==◌, ◌||◌, ◌&&◌, map, Result, ok, throw_if,
  range_error, ◌>>=◌, ◌>>◌, each,
}
use mcp_usage_control.Number.{assert_non_negative_integer}
use mcp_usage_control.Types.{Budget, CanonicalBudget}
use mcp_usage_control.Collation.{Collation, sort_by}
use mcp_usage_control.Input.{validate_usage_budget_envelope}

abbrev pub budget_key : CanonicalBudget → String
budget_key b = b.key

abbrev pub budget_keys : List CanonicalBudget → List String
budget_keys bs = map budget_key bs

-- One round of the `map` that checks each limit.
unfoldable pub normalize_budget : Budget → Result CanonicalBudget
normalize_budget budget = do
  limit ← assert_non_negative_integer budget.limit
  ok (record { key = budget.key; limit = limit })

-- The loop that compares each budget with the one before it.
unfoldable pub has_equal_neighbours : List CanonicalBudget → Bool
has_equal_neighbours [] = false
has_equal_neighbours (a ∷ []) = false
has_equal_neighbours (a ∷ b ∷ rest) = (a.key == b.key) || has_equal_neighbours (b ∷ rest)

unfoldable pub canonicalize_budgets : ⦃c : Collation⦄ → List Budget → Result (List CanonicalBudget)
canonicalize_budgets budgets = do
  validate_usage_budget_envelope budgets
  normalized ← each normalize_budget budgets
  throw_if (has_equal_neighbours (sort_by budget_key normalized)) range_error
  ok (sort_by budget_key normalized)

unfoldable pub same_budget_keys : List String → List CanonicalBudget → Bool
same_budget_keys [] [] = true
same_budget_keys [] (b ∷ bs) = false
same_budget_keys (k ∷ ks) [] = false
same_budget_keys (k ∷ ks) (b ∷ bs) = (k == b.key) && same_budget_keys ks bs
