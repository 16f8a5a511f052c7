-- ===== src/Input.antt =====
-- The input envelopes of packages/core/src/index.ts. The checks that an argument has its declared
-- TypeScript type hold of every value of the model and are left out.
pub mod UsageInputLimits
use mcp_usage_control.Base.{
  ℕ, suc, ◌+◌, ◌≤◌, ◌<◌, ◌≡◌, List, [], ◌∷◌, String, len, Option, none, some, arith, eqb, ltb,
  length, map, Result, ok, throw, throw_if, range_error, ◌>>=◌, ◌>>◌, check_each, All, is_empty,
  >>=-eq-ok,
}
use UsageInputLimits
use mcp_usage_control.Types.{UsageRequest, Budget, UsageDimension, UsageDimensionGrowth}

unfoldable pub assert_usage_identifier : String → Result (Unit {0})
assert_usage_identifier value = do
  throw_if (eqb (len value) 0) range_error
  throw_if (ltb UsageInputLimits.identifier_bytes (len value)) range_error

assert_optional_identifier : Option String → Result (Unit {0})
assert_optional_identifier none = ok tt
assert_optional_identifier (some value) = assert_usage_identifier value

unfoldable pub validate_usage_request_envelope : UsageRequest → Result (Unit {0})
unfolding assert_optional_identifier
validate_usage_request_envelope request = do
  assert_usage_identifier request.operation_id
  assert_usage_identifier request.principal.id
  assert_usage_identifier request.tool
  assert_optional_identifier request.principal.tenant_id
  assert_optional_identifier request.principal.plan

unfoldable pub validate_usage_budget_envelope : List Budget → Result (Unit {0})
validate_usage_budget_envelope budgets = do
  throw_if (is_empty budgets) range_error
  throw_if (ltb UsageInputLimits.scalar_budgets (length budgets)) range_error
  check_each (λ budget. assert_usage_identifier budget.key) budgets

-- The loop over the dimensions, with the budgets counted so far.
unfoldable pub validate_dimensions_from : ℕ → List UsageDimension → Result (Unit {0})
validate_dimensions_from total_budgets [] = ok tt
validate_dimensions_from total_budgets (dimension ∷ rest) = do
  assert_usage_identifier dimension.key
  throw_if (is_empty dimension.budgets) range_error
  throw_if (ltb UsageInputLimits.vector_budgets_per_dimension (length dimension.budgets))
      range_error
  throw_if (ltb UsageInputLimits.vector_budgets_total (total_budgets + length dimension.budgets))
      range_error
  validate_usage_budget_envelope dimension.budgets
  validate_dimensions_from (total_budgets + length dimension.budgets) rest

unfoldable pub validate_usage_vector_envelope : List UsageDimension → Result (Unit {0})
unfolding validate_dimensions_from
validate_usage_vector_envelope dimensions = do
  throw_if (is_empty dimensions) range_error
  throw_if (ltb UsageInputLimits.vector_dimensions (length dimensions)) range_error
  validate_dimensions_from 0 dimensions

unfoldable pub validate_usage_vector_growth_envelope : List UsageDimensionGrowth → Result (Unit {0})
validate_usage_vector_growth_envelope dimensions = validate_usage_vector_envelope (
    map
      (λ dimension. record {
        key = dimension.key;
        units = dimension.additional_units;
        budgets = dimension.budgets;
      })
      dimensions)

-- What an accepted text is.
abbrev pub IsIdentifier : String → Type 0
IsIdentifier s = (0 < len s) × (len s ≤ UsageInputLimits.identifier_bytes)

pub assert_usage_identifier-IsIdentifier :
    (s : String) → assert_usage_identifier s ≡ ok tt → IsIdentifier s
unfolding assert_usage_identifier
assert_usage_identifier-IsIdentifier s h = ground arith

pub assert_usage_identifier-accepts :
    (s : String) → IsIdentifier s → assert_usage_identifier s ≡ ok tt
unfolding assert_usage_identifier
assert_usage_identifier-accepts s h = ground arith

check_keys-IsIdentifier :
    (budgets : List Budget)
    → check_each (λ budget. assert_usage_identifier budget.key) budgets ≡ ok tt
    → All (λ budget. IsIdentifier budget.key) budgets
check_keys-IsIdentifier [] h = tt
check_keys-IsIdentifier (b ∷ bs) h =
    ground (arith, assert_usage_identifier-IsIdentifier b.key, check_keys-IsIdentifier bs)

check_keys-accepts :
    (budgets : List Budget)
    → All (λ budget. IsIdentifier budget.key) budgets
    → check_each (λ budget. assert_usage_identifier budget.key) budgets ≡ ok tt
check_keys-accepts [] h = ground arith
check_keys-accepts (b ∷ bs) h =
    ground (arith, assert_usage_identifier-accepts b.key h.0, check_keys-accepts bs h.1)

-- What an accepted list of budgets is.
pub record IsBudgetEnvelope (budgets : List Budget) : Type 0 where
  pub nonempty : 0 < length budgets
  pub bounded : length budgets ≤ UsageInputLimits.scalar_budgets
  pub identified : All (λ budget. IsIdentifier budget.key) budgets

pub validate_usage_budget_envelope-IsBudgetEnvelope :
    (budgets : List Budget)
    → validate_usage_budget_envelope budgets ≡ ok tt
    → IsBudgetEnvelope budgets
unfolding validate_usage_budget_envelope
validate_usage_budget_envelope-IsBudgetEnvelope [] h = ground arith
validate_usage_budget_envelope-IsBudgetEnvelope (b ∷ bs) h =
    let keys = check_keys-IsIdentifier (b ∷ bs) in ground (arith, keys)

pub validate_usage_budget_envelope-accepts :
    (budgets : List Budget)
    → IsBudgetEnvelope budgets
    → validate_usage_budget_envelope budgets ≡ ok tt
unfolding validate_usage_budget_envelope
validate_usage_budget_envelope-accepts [] h = ground arith
validate_usage_budget_envelope-accepts (b ∷ bs) h =
    let keys = check_keys-accepts (b ∷ bs) h.identified in ground (arith, keys)
