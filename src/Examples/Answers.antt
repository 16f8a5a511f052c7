-- ===== src/Examples/Answers.antt =====
-- The client's checks of answers and quotes, and a resumed lease, at concrete inputs.
use mcp_usage_control.Collation.{insert_by, sort_by}
use mcp_usage_control.Examples.{month, canonical_month, request, day, canonical_day}
use mcp_usage_control.Value.{undefined, Value, text}
use mcp_usage_control.Budgets.{has_equal_neighbours, normalize_budget, canonicalize_budgets}
use mcp_usage_control.Number.{assert_non_negative_integer, assert_positive_integer, safe_add, nat}
use mcp_usage_control.Input.{assert_usage_identifier, validate_usage_budget_envelope}
use mcp_usage_control.Records.{clone_reservation_record}
use mcp_usage_control.Base.{◌≡◌, refl, arith, List, [], ◌∷◌, none, some, ok, false}
use mcp_usage_control.Collation.ByCode.{by_code, text_le}
use mcp_usage_control.Types.{
  ReservationRecord, StoreReserveResult, StoreGrowResult, BudgetRemaining,
}
use mcp_usage_control.Budgets.Canonical.{canonicalize_budgets-IsCanonical}
use mcp_usage_control.Answers.Scalar.{
  ReserveAnswer, GrowthRequest, validate_store_reserve_result, validate_store_growth_result,
}
use mcp_usage_control.Answers.Encoding.{of_reserve_result, of_grow_result}
use mcp_usage_control.Answers.Sound.{IsReserveAnswer, validate_store_reserve_result-IsReserveAnswer}
use mcp_usage_control.Answers.Growth.{IsGrowthAnswer, validate_store_growth_result-IsGrowthAnswer}
use mcp_usage_control.Client.Quotes.{
  UsagePolicyAnswer, NormalizedUsagePolicyQuote, normalize_usage_policy_quote,
}
use mcp_usage_control.Client.Quotes.Checked.{
  IsNormalQuote, normalize_usage_policy_quote-IsNormalQuote,
}
use mcp_usage_control.Client.Lease.{UsageLease, UsageLeaseResumeState, to_resume_state}
use mcp_usage_control.Client.Lease.Resuming.{resume_lease-to_resume_state, IsPending}
use mcp_usage_control.Client.Control.{resume_lease}

abbrev asked : ReservationRecord
asked = record {
  id = "r1";
  operation_id = "op1";
  principal_id = "agent";
  tenant_id = none;
  plan = some "free";
  tool = "search";
  budget_keys = "day" ∷ [];
  reserved_units = 8;
  expires_at = 70;
  growth_cursor = some "g1.a";
}

abbrev left : List BudgetRemaining
left = record { key = "day"; remaining = 92 } ∷ []

abbrev acceptance : Value
acceptance = of_reserve_result (StoreReserveResult.accepted asked left)

acceptance_checked :
    validate_store_reserve_result acceptance request 8 (canonical_day ∷ [])
    ≡ ok (ReserveAnswer.accepted asked left)
unfolding validate_store_reserve_result of_reserve_result
acceptance_checked = refl

validate_store_reserve_result-IsReserveAnswer_example :
    IsReserveAnswer request 8 (canonical_day ∷ []) (ReserveAnswer.accepted asked left)
validate_store_reserve_result-IsReserveAnswer_example =
    validate_store_reserve_result-IsReserveAnswer acceptance request 8 (canonical_day ∷ [])
      (ReserveAnswer.accepted asked left) acceptance_checked

abbrev increment_request : GrowthRequest
increment_request = record {
  increment_id = "i1";
  additional_units = 2;
  budgets = canonical_day ∷ [];
}

abbrev grown_answer : StoreGrowResult
grown_answer = StoreGrowResult.accepted (record {
  replayed = false;
  reservation_id = "r1";
  increment_id = "i1";
  previous_reserved_units = 8;
  reserved_units = 10;
  growth_cursor = "g1.b";
  remaining_by_budget = left;
})

growth_checked :
    validate_store_growth_result (of_grow_result grown_answer) asked increment_request
    ≡ ok grown_answer
unfolding validate_store_growth_result of_grow_result safe_add
growth_checked = refl

validate_store_growth_result-IsGrowthAnswer_example :
    IsGrowthAnswer asked increment_request grown_answer
validate_store_growth_result-IsGrowthAnswer_example =
    validate_store_growth_result-IsGrowthAnswer (of_grow_result grown_answer) asked
      increment_request grown_answer growth_checked

abbrev granting_quote : UsagePolicyAnswer
granting_quote = UsagePolicyAnswer.quote (record {
  decision = text "allow";
  reason = undefined;
  units = nat 8;
  budget = none;
  budgets = some (month ∷ day ∷ []);
  reservation_ttl_ms = some (nat 60);
})

abbrev granted : NormalizedUsagePolicyQuote
granted = NormalizedUsagePolicyQuote.allow 8 (canonical_day ∷ canonical_month ∷ []) (some 60)

granting_checked : normalize_usage_policy_quote granting_quote ≡ ok granted
unfolding normalize_usage_policy_quote assert_non_negative_integer assert_positive_integer
    canonicalize_budgets validate_usage_budget_envelope assert_usage_identifier normalize_budget
    has_equal_neighbours sort_by insert_by text_le
granting_checked = refl

normalize_usage_policy_quote-IsNormalQuote_example : IsNormalQuote granting_quote granted
normalize_usage_policy_quote-IsNormalQuote_example =
    normalize_usage_policy_quote-IsNormalQuote granting_quote granted granting_checked

abbrev exported_lease : UsageLease
exported_lease = record {
  reservation = asked;
  ttl_ms = 60;
  metadata = none;
  unresolved_growth = some increment_request;
}

abbrev exported : UsageLeaseResumeState
exported = record {
  reservation = asked;
  ttl_ms = nat 60;
  metadata = none;
  unresolved_growth =
      some (record { increment_id = "i1"; additional_units = nat 2; budgets = day ∷ [] });
}

lease_exported : to_resume_state exported_lease ≡ ok exported
unfolding to_resume_state clone_reservation_record assert_non_negative_integer
    assert_positive_integer
lease_exported = refl

day_canonical : canonicalize_budgets (day ∷ []) ≡ ok (canonical_day ∷ [])
unfolding canonicalize_budgets validate_usage_budget_envelope assert_usage_identifier
    normalize_budget assert_non_negative_integer has_equal_neighbours sort_by
day_canonical = refl

request-IsPending : IsPending (some increment_request)
request-IsPending = (
  refl,
  omega arith,
  omega arith,
  (canonicalize_budgets-IsCanonical (day ∷ []) (canonical_day ∷ []) day_canonical).0,
)

resume_lease-to_resume_state_example : resume_lease exported ≡ ok exported_lease
resume_lease-to_resume_state_example =
    resume_lease-to_resume_state exported_lease exported (omega arith) (omega arith)
      request-IsPending lease_exported
