-- ===== src/WeightedCredits.antt =====
-- packages/core/src/weighted-credits.ts: the validation of a weighted-credit configuration, and the
-- quotes of the policy made from it. Objects with text keys are maps; that an argument is a plain
-- object with the fields expected is left to the types. The resolvers of plans and budgets belong to
-- the application: they are parameters, which may throw.
use Prim.Native.Char.{Char, code}
use Prim.Native.String
use mcp_usage_control.Base.{
  List, is_empty, Option, ℕ, Result, String, Bool, ltb, leb, eqb, ◌&&◌, ◌||◌, not, if◌then◌else◌,
  throw_if, range_error, type_error, ◌>>=◌, ◌>>◌, ok, throw, none, some, [], ◌∷◌, true, false,
}
use mcp_usage_control.Number.{Number, nat, assert_non_negative_integer, assert_positive_integer}
use mcp_usage_control.JsMap.{get, set, JsMap}
use mcp_usage_control.Types.{Budget, UsageRequest}
use mcp_usage_control.Records.{is_blank}
pub mod Kept
pub mod Quotes

pub data UnknownTool (A : Type 0) : Type 0 where
  deny_unknown : UnknownTool A
  fallback_units : A → UnknownTool A

-- A configuration as it is given, with any numbers, and as it is kept, with natural numbers.
pub record WeightedCreditPolicyConfig (A : Type 0) : Type 0 where
  pub tools : JsMap A
  pub plans : JsMap (JsMap A)
  pub unknown_tool : UnknownTool A

-- The characters that `trim` removes.
unfoldable pub is_white_space : Char → Bool
is_white_space c =
    let n = code c in
    (leb 9 n && leb n 13)
    || eqb n 32
    || eqb n 160
    || eqb n 5760
    || (leb 8192 n && leb n 8202)
    || eqb n 8232
    || eqb n 8233
    || eqb n 8239
    || eqb n 8287
    || eqb n 12288
    || eqb n 65279

-- `value.trim().length === 0`.
unfoldable pub trims_to_nothing : String → Bool
trims_to_nothing String.[] = true
trims_to_nothing (String.◌∷◌ c s) = is_white_space c && trims_to_nothing s

unfoldable pub assert_non_empty_key : String → Result (Unit {0})
unfolding trims_to_nothing
assert_non_empty_key key = throw_if (trims_to_nothing key) type_error

-- The loop over the entries of a map from names to units.
unfoldable pub define_units : JsMap Number → JsMap ℕ → Result (JsMap ℕ)
unfolding assert_non_empty_key
define_units [] kept = ok kept
define_units ((key, units) ∷ rest) kept = do
  assert_non_empty_key key
  n ← assert_non_negative_integer units
  define_units rest (set key n kept)

unfoldable pub define_plans : JsMap (JsMap Number) → JsMap (JsMap ℕ) → Result (JsMap (JsMap ℕ))
unfolding define_units
define_plans [] kept = ok kept
define_plans ((plan, entry) ∷ rest) kept = do
  assert_non_empty_key plan
  limits ← define_units entry []
  throw_if (is_empty limits) range_error
  define_plans rest (set plan limits kept)

abbrev pub define_unknown_tool : UnknownTool Number → Result (UnknownTool ℕ)
define_unknown_tool deny_unknown = ok deny_unknown
define_unknown_tool (fallback_units units) =
    assert_non_negative_integer units >>= λ n. ok (fallback_units n)

unfoldable pub define_weighted_credit_policy_config :
    WeightedCreditPolicyConfig Number → Result (WeightedCreditPolicyConfig ℕ)
unfolding define_plans
define_weighted_credit_policy_config config = do
  tools ← define_units config.tools []
  plans ← define_plans config.plans []
  throw_if (is_empty plans) range_error
  unknown_tool ← define_unknown_tool config.unknown_tool
  ok (record { tools = tools; plans = plans; unknown_tool = unknown_tool })

pub data Denial : Type 0 where
  unknown_tool_denied unknown_plan_denied : Denial

pub data Quote : Type 0 where
  deny : Denial → Quote
  allow : ℕ → List Budget → Option ℕ → Quote

-- What the budget resolver is given besides the request: the plan and the lookup of its limits.
unfoldable pub limit_of : JsMap ℕ → String → Result ℕ
limit_of limits name = elim (get name limits) [ none ↦ throw range_error | some n ↦ ok n ]

abbrev pub PlanResolver : Type 0
PlanResolver = UsageRequest → Result (Option String)

abbrev pub BudgetResolver : Type 0
BudgetResolver = UsageRequest → String → (String → Result ℕ) → Result (List Budget)

abbrev pub fallback : UnknownTool ℕ → Option ℕ
fallback deny_unknown = none
fallback (fallback_units n) = some n

unfoldable pub units_for : WeightedCreditPolicyConfig ℕ → String → Option ℕ
units_for config tool = elim (get tool config.tools) [
  | some n ↦ some n
  | none ↦ fallback config.unknown_tool
]

abbrev pub plan_limits : WeightedCreditPolicyConfig ℕ → Option String → Option (String × JsMap ℕ)
plan_limits config none = none
plan_limits config (some plan) = elim (get plan config.plans) [
  | none ↦ none
  | some limits ↦ some (plan, limits)
]

abbrev pub is_empty_text : Option String → Bool
is_empty_text none = false
is_empty_text (some s) = is_blank s

unfoldable pub quote_units :
    WeightedCreditPolicyConfig ℕ
    → PlanResolver
    → BudgetResolver
    → Option ℕ
    → UsageRequest
    → ℕ
    → Result Quote
unfolding limit_of
quote_units config resolve_plan budgets ttl request units = do
  plan ← resolve_plan request
  throw_if (is_empty_text plan) type_error
  elim (plan_limits config plan) [
    | none ↦ ok (deny unknown_plan_denied)
    | some (name, limits) ↦
        budgets request name (limit_of limits) >>= λ resolved. ok (allow units resolved ttl)
  ]

-- `quote` of the policy.
unfoldable pub quote :
    WeightedCreditPolicyConfig ℕ
    → PlanResolver
    → BudgetResolver
    → Option ℕ
    → UsageRequest
    → Result Quote
unfolding units_for quote_units
quote config resolve_plan budgets ttl request = elim (units_for config request.tool) [
  | none ↦ ok (deny unknown_tool_denied)
  | some units ↦ quote_units config resolve_plan budgets ttl request units
]

abbrev pub check_ttl : Option Number → Result (Option ℕ)
check_ttl none = ok none
check_ttl (some ttl) = assert_positive_integer ttl >>= λ n. ok (some n)

abbrev pub default_plan : PlanResolver
default_plan request = ok request.principal.plan

abbrev pub plan_or_default : Option PlanResolver → PlanResolver
plan_or_default none = default_plan
plan_or_default (some resolve) = resolve

pub record WeightedCreditsPolicyOptions : Type 0 where
  pub config : WeightedCreditPolicyConfig Number
  pub budgets : BudgetResolver
  pub resolve_plan : Option PlanResolver
  pub reservation_ttl_ms : Option Number

-- The policy is its `quote` function.
unfoldable pub create_weighted_credits_policy :
    WeightedCreditsPolicyOptions → Result (UsageRequest → Result Quote)
unfolding define_weighted_credit_policy_config quote
create_weighted_credits_policy options = do
  ttl ← check_ttl options.reservation_ttl_ms
  config ← define_weighted_credit_policy_config options.config
  ok (quote config (plan_or_default options.resolve_plan) options.budgets ttl)
