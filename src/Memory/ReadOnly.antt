-- ===== src/Memory/ReadOnly.antt =====
-- Reconciliation only reads.
use mcp_usage_control.Memory.Action.{◌>>=◌, lift, Action}
use mcp_usage_control.Base.{
  Result, ◌||◌, eqb, not, ◌≡◌, List, String, ℕ, refl, inl, inr, ok, throw, Option-cases, Bool-cases,
}
use mcp_usage_control.Memory.Reconciliation.{
  VectorReconciliationInput, ReconciliationInput, reconcile_vector_operation, reconcile_operation,
  reconcile_vector_found, reconcile_found,
}
use mcp_usage_control.Types.{Demand, CanonicalBudget}
use mcp_usage_control.Memory.State.{Mode-cases, MemoryUsageStore}
use mcp_usage_control.JsMap.{get}
use mcp_usage_control.Budgets.{canonicalize_budgets, same_budget_keys}
use mcp_usage_control.Collation.{Collation}
use mcp_usage_control.Dimensions.{
  canonicalize_usage_dimensions, same_vector_reconciliation_topology,
}
use mcp_usage_control.Number.{assert_non_negative_integer}
use mcp_usage_control.Input.{validate_usage_request_envelope}
use mcp_usage_control.OperationKey.{operation_key_for}

reconcile_found-readonly :
    (now : ℕ) (id : String) (units : ℕ) (budgets : List CanonicalBudget) (s : MemoryUsageStore)
    → (reconcile_found now id units budgets s).1 ≡ s
unfolding reconcile_found
reconcile_found-readonly now id units budgets s = elim (Option-cases (get id s.reservations)) [
  | inl missing ↦ rw (missing, reconcile_found) refl
  | inr (r, found) ↦ elim (Mode-cases r.mode) [
    | inr (p, mode) ↦ rw (found, reconcile_found, mode) refl
    | inl (p, mode) ↦
        elim (Bool-cases
          (not (eqb p.reserved_units units) || not (same_budget_keys p.budget_keys budgets))) [
            | inl differs ↦ rw (found, reconcile_found, mode, differs) refl
            | inr same ↦ rw (found, reconcile_found, mode, same) refl
          ]
  ]
]

reconcile_vector_found-readonly :
    ⦃c : Collation⦄ (now : ℕ) (id : String) (dimensions : List Demand) (s : MemoryUsageStore)
    → (reconcile_vector_found now id dimensions s).1 ≡ s
unfolding reconcile_vector_found
reconcile_vector_found-readonly now id dimensions s = elim (Option-cases (get id s.reservations)) [
  | inl missing ↦ rw (missing, reconcile_vector_found) refl
  | inr (r, found) ↦ elim (Mode-cases r.mode) [
    | inl (p, mode) ↦ rw (found, reconcile_vector_found, mode) refl
    | inr (p, mode) ↦
        elim (Bool-cases (not (same_vector_reconciliation_topology p.dimensions dimensions))) [
          | inl differs ↦ rw (found, reconcile_vector_found, mode, differs) refl
          | inr same ↦ rw (found, reconcile_vector_found, mode, same) refl
        ]
  ]
]

lift_readonly :
    {A B : Type 0} (x : Result A) (f : A → Action B) (s : MemoryUsageStore)
    → ((a : A) → (f a s).1 ≡ s)
    → ((lift x >>= f) s).1 ≡ s
lift_readonly (ok a) f s h = h a
lift_readonly (throw e) f s h = refl

-- Both reconciliations leave the store as it is, whatever the input and whether they answer or
-- throw: no expiry is acted on and nothing is charged or released.
pub reconcile-readonly :
    ⦃c : Collation⦄ (now : ℕ) (input : ReconciliationInput)
    (vector_input : VectorReconciliationInput) (s : MemoryUsageStore)
    → ((reconcile_operation now input s).1 ≡ s)
      × ((reconcile_vector_operation now vector_input s).1 ≡ s)
unfolding reconcile_operation reconcile_vector_operation
reconcile-readonly now input vector_input s = (
  lift_readonly (assert_non_negative_integer input.units) _ s (λ units.
      lift_readonly (canonicalize_budgets input.budgets) _ s λ budgets.
        lift_readonly (validate_usage_request_envelope input.request) _ s
          λ _. reconcile_found-readonly now (operation_key_for input.request) units budgets s),
  lift_readonly (validate_usage_request_envelope vector_input.request) _ s (λ _.
      lift_readonly (canonicalize_usage_dimensions vector_input.dimensions) _ s λ dimensions.
        reconcile_vector_found-readonly now (operation_key_for vector_input.request) dimensions s),
)
