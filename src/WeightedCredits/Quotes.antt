-- ===== src/WeightedCredits/Quotes.antt =====
-- What the quotes of a weighted-credit policy rest on.
use mcp_usage_control.Base.{
  Result, refl, ap, ◌∙◌, ◌⊎◌, ok_injective, type_error, sym, ◌>>=◌, List, Option, throw_if, ◌≡◌,
  String, ℕ, subst, ok, none, some, inl, inr, Option-cases, >>=-eq-ok, ◌≤◌,
}
use mcp_usage_control.WeightedCredits.{
  check_ttl, plan_or_default, Quote, WeightedCreditsPolicyOptions, unknown_tool_denied,
  create_weighted_credits_policy, quote, is_empty_text, unknown_plan_denied, plan_limits, limit_of,
  quote_units, BudgetResolver, PlanResolver, units_for, WeightedCreditPolicyConfig,
  define_weighted_credit_policy_config, deny, allow,
}
use mcp_usage_control.JsMap.{get, JsMap}
use mcp_usage_control.Number.{max_safe_integer}
use mcp_usage_control.Types.{Budget, UsageRequest}
use mcp_usage_control.WeightedCredits.Kept.{
  units_for_safe, define-SafeConfig, IsDefined, define-IsDefined, units_for-IsWeighted,
  units_for-IsUnknown, IsWeighted, IsUnknown,
}

module _ (config : WeightedCreditPolicyConfig ℕ) (resolve_plan : PlanResolver)
    (budgets : BudgetResolver) (ttl : Option ℕ) (request : UsageRequest) where
  -- The plan and the budgets that an allowance rests on.
  pub record IsAllowed (resolved : List Budget) (until : Option ℕ) : Type 0 where
    pub plan : String
    pub limits : JsMap ℕ
    pub planned : resolve_plan request ≡ ok (some plan)
    pub known : get plan config.plans ≡ some limits
    pub budgeted : budgets request plan (limit_of limits) ≡ ok resolved
    pub same_ttl : until ≡ ttl

  -- The resolver names no plan, or one that the configuration does not have.
  abbrev pub IsPlanless : Type 0
  IsPlanless =
      (resolve_plan request ≡ ok none)
      ⊎ ((plan : String) × (resolve_plan request ≡ ok (some plan)) × (get plan config.plans ≡ none))

  -- A quote for a tool whose units are known.
  abbrev IsQuoteAt : ℕ → Quote → Type 0
  IsQuoteAt n (allow units resolved until) = (n ≡ units) × IsAllowed resolved until
  IsQuoteAt n (deny unknown_tool_denied) = ⊥
  IsQuoteAt n (deny unknown_plan_denied) = IsPlanless

  by_plan :
      (n : ℕ) (plan : Option String) (q : Quote)
      → resolve_plan request ≡ ok plan
      → (elim (plan_limits config plan) [
        | none ↦ ok (deny unknown_plan_denied)
        | some (name, limits) ↦
            budgets request name (limit_of limits) >>= λ resolved. ok (allow n resolved ttl)
      ])
        ≡ ok q
      → IsQuoteAt n q
  by_plan n none q planned h = subst (IsQuoteAt n) (ok_injective h) (inl planned)
  by_plan n (some plan) q planned h = elim (Option-cases (get plan config.plans)) [
    | inl unknown ↦
        subst (IsQuoteAt n) (ok_injective (rw unknown at h)) (inr (plan, planned, unknown))
    | inr (limits, known) ↦
        (let (found, budgeted, h1) =
            >>=-eq-ok (budgets request plan (limit_of limits)) _ (rw known at h) in
          subst (IsQuoteAt n) (ok_injective h1) (
            refl,
            record {
              plan = plan;
              limits = limits;
              planned = planned;
              known = known;
              budgeted = budgeted;
              same_ttl = refl;
            },
          ))
  ]

  quote_units-IsQuoteAt :
      (n : ℕ) (q : Quote)
      → quote_units config resolve_plan budgets ttl request n ≡ ok q
      → IsQuoteAt n q
  unfolding quote_units
  quote_units-IsQuoteAt n q h =
      let (plan, planned, h1) = >>=-eq-ok (resolve_plan request) _ h in
      let (_, named, h2) = >>=-eq-ok (throw_if (is_empty_text plan) type_error) _ h1 in
      by_plan n plan q planned h2

-- A quote, of the options that the policy was made with and the configuration that they define.
abbrev pub IsQuote :
    WeightedCreditsPolicyOptions → WeightedCreditPolicyConfig ℕ → UsageRequest → Quote → Type 0
IsQuote options config request (allow units resolved until) =
    IsWeighted options.config request.tool units
    × (units ≤ max_safe_integer)
    × (check_ttl options.reservation_ttl_ms ≡ ok until)
    × IsAllowed config (plan_or_default options.resolve_plan) options.budgets until request resolved
        until
IsQuote options config request (deny unknown_tool_denied) = IsUnknown options.config request.tool
IsQuote options config request (deny unknown_plan_denied) =
    IsPlanless config (plan_or_default options.resolve_plan) options.budgets none request

quote-IsQuote :
    (options : WeightedCreditsPolicyOptions) (config : WeightedCreditPolicyConfig ℕ)
    (ttl : Option ℕ) (request : UsageRequest) (q : Quote)
    → define_weighted_credit_policy_config options.config ≡ ok config
    → check_ttl options.reservation_ttl_ms ≡ ok ttl
    → quote config (plan_or_default options.resolve_plan) options.budgets ttl request ≡ ok q
    → IsQuote options config request q
unfolding quote
quote-IsQuote options config ttl request q defined timed h =
    elim (Option-cases (units_for config request.tool)) [
      | inl unknown ↦
          subst (IsQuote options config request) (ok_injective (rw (unknown, quote) at h))
            (units_for-IsUnknown options.config config request.tool kept unknown)
      | inr (n, weighted) ↦ at_units n weighted q (
          quote_units-IsQuoteAt config (plan_or_default options.resolve_plan) options.budgets ttl
            request n q (rw (weighted, quote) at h))
    ]
  where
    kept : IsDefined options.config config
    kept = define-IsDefined options.config config defined

    at_units :
        (n : ℕ)
        → units_for config request.tool ≡ some n
        → (q : Quote)
        → IsQuoteAt config (plan_or_default options.resolve_plan) options.budgets ttl request n q
        → IsQuote options config request q
    at_units n weighted (allow units resolved until) (same, allowed) =
        let found : units_for config request.tool ≡ some units = weighted ∙ ap some same in
        (
          units_for-IsWeighted options.config config request.tool kept units found,
          units_for_safe config request.tool units (define-SafeConfig options.config config defined)
              found,
          subst (λ t. check_ttl options.reservation_ttl_ms ≡ ok t) (sym allowed.same_ttl) timed,
          subst
              (λ t.
                IsAllowed config (plan_or_default options.resolve_plan) options.budgets t request
                  resolved until)
              (sym allowed.same_ttl) allowed,
        )
    at_units n weighted (deny unknown_tool_denied) none_such = absurd none_such
    at_units n weighted (deny unknown_plan_denied) planless = planless

-- A policy that was made quotes by the configuration as it was given. It allows a request only with
-- the units of the tool's own entry, or with the fallback for a tool without one, and these are a
-- safe integer; and only for a plan that the resolver names and the checked configuration has, with
-- the budgets that the other resolver returns and the lifetime that the options give. It denies a
-- tool as unknown only if the tool has no entry and there is no fallback, and a plan only if the
-- resolver names none or one that the checked configuration does not have.
pub create_weighted_credits_policy-IsQuote :
    (options : WeightedCreditsPolicyOptions) (policy : UsageRequest → Result Quote)
    (request : UsageRequest) (q : Quote)
    → create_weighted_credits_policy options ≡ ok policy
    → policy request ≡ ok q
    → (config : WeightedCreditPolicyConfig ℕ) × (define_weighted_credit_policy_config options.config
        ≡ ok config)
      × IsQuote options config request q
unfolding create_weighted_credits_policy
create_weighted_credits_policy-IsQuote options policy request q made h =
    let (ttl, timed, h1) = >>=-eq-ok (check_ttl options.reservation_ttl_ms) _ made in
    let (config, defined, h2) =
      >>=-eq-ok (define_weighted_credit_policy_config options.config) _ h1 in
    (
      config,
      defined,
      quote-IsQuote options config ttl request q defined timed
          (subst (λ f. f request ≡ ok q) (sym (ok_injective h2)) h),
    )
