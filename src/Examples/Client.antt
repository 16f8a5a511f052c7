-- ===== src/Examples/Client.antt =====
-- The client at concrete inputs.
use mcp_usage_control.Input.{
  assert_usage_identifier, validate_usage_budget_envelope, validate_usage_request_envelope,
}
use mcp_usage_control.Collation.{sort_by}
use mcp_usage_control.Budgets.{has_equal_neighbours, normalize_budget, canonicalize_budgets}
use mcp_usage_control.Number.{assert_non_negative_integer, nat}
use mcp_usage_control.Examples.{request, day, canonical_day, held_store, empty_store}
use mcp_usage_control.Base.{◌≡◌, refl, ◌⊎◌, [], ◌∷◌, String, none, some, ok}
use mcp_usage_control.Types.{ReservationRecord}
use mcp_usage_control.Collation.ByCode.{by_code, by_code-IsStrictOn}
use mcp_usage_control.Memory.State.{MemoryUsageStore}
use mcp_usage_control.Memory.Scalar
use mcp_usage_control.Value.{text, undefined}
use mcp_usage_control.Answers.Scalar.{GrowthRequest}
use mcp_usage_control.Client.{UsageStore, World, no_metadata}
use mcp_usage_control.Client.Quotes.{
  UsagePolicyAnswer, NormalizedUsagePolicyQuote, normalize_usage_policy_quote,
}
use mcp_usage_control.Client.Requests.{ReservationGrowthRequest}
use mcp_usage_control.Client.Lease.{UsageLease, grow}
use mcp_usage_control.Client.Lease.Pinning.{IsIdle, IsSent, IsGrown, grow-IsPinned, grow-IsGrown}
use mcp_usage_control.Client.Control.{UsageControl, as_reserve_input, reserve_in_store, reserve}
use mcp_usage_control.Client.Control.Decisions.{IsDecision, reserve-IsDecision}
use mcp_usage_control.Client.OverMemory.{memory_usage_store}
use mcp_usage_control.Client.OverMemory.Transparent.{unchecked, reserve_in_store-unchecked}

abbrev store : UsageStore MemoryUsageStore
store = memory_usage_store 10 "u"

abbrev held : World MemoryUsageStore
held = record { store = held_store; events = [] }

abbrev fresh : World MemoryUsageStore
fresh = record { store = empty_store; events = [] }

abbrev leased : ReservationRecord
leased = record {
  id = "r1";
  operation_id = "op1";
  principal_id = "agent";
  tenant_id = none;
  plan = none;
  tool = "search";
  budget_keys = "day" ∷ [];
  reserved_units = 8;
  expires_at = 70;
  growth_cursor = some "g1.a";
}

abbrev pending_request : GrowthRequest
pending_request = record { increment_id = "i1"; additional_units = 2; budgets = canonical_day ∷ [] }

abbrev pinned_lease : UsageLease
pinned_lease = record {
  reservation = leased;
  ttl_ms = 60;
  metadata = none;
  unresolved_growth = some pending_request;
}

abbrev other_request : ReservationGrowthRequest
other_request = record { increment_id = "i2"; additional_units = nat 3; budgets = day ∷ [] }

grow-IsPinned_example :
    let done = grow store other_request pinned_lease held in
    IsIdle store pinned_lease other_request held done.1 done.2
    ⊎ ((cursor : String) × IsSent store pinned_lease other_request held pending_request cursor done)
grow-IsPinned_example = grow-IsPinned store pinned_lease other_request held pending_request refl

grow-IsGrown_example :
    IsGrown store pinned_lease other_request held (grow store other_request pinned_lease held)
grow-IsGrown_example = grow-IsGrown store pinned_lease other_request held

abbrev quoted_answer : UsagePolicyAnswer
quoted_answer = UsagePolicyAnswer.quote (record {
  decision = text "allow";
  reason = undefined;
  units = nat 5;
  budget = some day;
  budgets = none;
  reservation_ttl_ms = none;
})

abbrev normal_quote : NormalizedUsagePolicyQuote
normal_quote = NormalizedUsagePolicyQuote.allow 5 (canonical_day ∷ []) none

abbrev control : UsageControl
control = record { default_reservation_ttl_ms = 60; metadata = no_metadata }

quote_is_normal : normalize_usage_policy_quote quoted_answer ≡ ok normal_quote
unfolding normalize_usage_policy_quote assert_non_negative_integer canonicalize_budgets
    validate_usage_budget_envelope assert_usage_identifier normalize_budget has_equal_neighbours
    sort_by
quote_is_normal = refl

request_is_valid : validate_usage_request_envelope request ≡ ok tt
unfolding validate_usage_request_envelope assert_usage_identifier
request_is_valid = refl

reserve-IsDecision_example :
    IsDecision store request 60 fresh normal_quote
      (reserve store (λ _. ok quoted_answer) control 20 request fresh)
reserve-IsDecision_example =
    reserve-IsDecision store (λ _. ok quoted_answer) control 20 request fresh normal_quote
      request_is_valid quote_is_normal

reserve_in_store-unchecked_example :
    reserve_in_store store 10 none request 5 (canonical_day ∷ []) 60 fresh
    ≡ unchecked 10 "u" none request 60 fresh
        (Scalar.reserve 10 "u" (as_reserve_input request 5 (canonical_day ∷ []) 60) empty_store)
reserve_in_store-unchecked_example =
    reserve_in_store-unchecked 10 "u" none request quoted_answer 5 60 (canonical_day ∷ []) none
      fresh (by_code-IsStrictOn ("day" ∷ [])) quote_is_normal
