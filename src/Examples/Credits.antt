-- ===== src/Examples/Credits.antt =====
-- The weighted-credit policy at a concrete configuration.
use mcp_usage_control.Examples.{request, day}
use mcp_usage_control.WeightedCredits.Quotes.{create_weighted_credits_policy-IsQuote, IsQuote}
use mcp_usage_control.WeightedCredits.{
  is_white_space, allow, define_weighted_credit_policy_config, default_plan, deny_unknown, quote,
  create_weighted_credits_policy, WeightedCreditPolicyConfig, WeightedCreditsPolicyOptions,
  BudgetResolver,
}
use mcp_usage_control.Base.{◌>>=◌, ℕ, ◌≡◌, refl, none, ok, [], ◌∷◌}
use mcp_usage_control.JsMap.{set, get}
use mcp_usage_control.Number.{assert_non_negative_integer, nat}
use mcp_usage_control.Collation.ByCode.{by_code}

daily : BudgetResolver
daily r plan limit = limit "day" >>= λ n. ok (record { key = "day"; limit = nat n } ∷ [])

abbrev weighted_options : WeightedCreditsPolicyOptions
weighted_options = record {
  config = record {
    tools = ("search", nat 3) ∷ [];
    plans = ("free", ("day", nat 100) ∷ []) ∷ [];
    unknown_tool = deny_unknown;
  };
  budgets = daily;
  resolve_plan = none;
  reservation_ttl_ms = none;
}

abbrev weighted_config : WeightedCreditPolicyConfig ℕ
weighted_config = record {
  tools = ("search", 3) ∷ [];
  plans = ("free", ("day", 100) ∷ []) ∷ [];
  unknown_tool = deny_unknown;
}

policy_made :
    create_weighted_credits_policy weighted_options
    ≡ ok (quote weighted_config default_plan daily none)
unfolding create_weighted_credits_policy is_white_space assert_non_negative_integer set
policy_made = refl

search_allowed :
    quote weighted_config default_plan daily none request ≡ ok (allow 3 (day ∷ []) none)
unfolding quote daily get
search_allowed = refl

create_weighted_credits_policy-IsQuote_example :
    (config : WeightedCreditPolicyConfig ℕ) × (define_weighted_credit_policy_config
        weighted_options.config
      ≡ ok config)
    × IsQuote weighted_options config request (allow 3 (day ∷ []) none)
create_weighted_credits_policy-IsQuote_example =
    create_weighted_credits_policy-IsQuote weighted_options
      (quote weighted_config default_plan daily none) request (allow 3 (day ∷ []) none) policy_made
      search_allowed
