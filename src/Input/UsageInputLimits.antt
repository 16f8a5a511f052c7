-- ===== src/Input/UsageInputLimits.antt =====
-- The constants of `USAGE_INPUT_LIMITS` in packages/core/src/index.ts.
use mcp_usage_control.Base.{ℕ}

abbrev pub identifier_bytes : ℕ
identifier_bytes = 1024

abbrev pub scalar_budgets : ℕ
scalar_budgets = 64

abbrev pub vector_dimensions : ℕ
vector_dimensions = 32

abbrev pub vector_budgets_per_dimension : ℕ
vector_budgets_per_dimension = 32

abbrev pub vector_budgets_total : ℕ
vector_budgets_total = 128
