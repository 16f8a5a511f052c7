-- ===== src/Examples/Retries.antt =====
-- A lost answer, crossed thresholds and colliding keys at concrete inputs.
use mcp_usage_control.Number.{assert_non_negative_integer, safe_add, assert_positive_integer, nat}
use mcp_usage_control.JsMap.{set, get}
use mcp_usage_control.Memory.Limits.{
  after_charge, new_growth_cursor, charge_safely, new_budget_keys, assert_budget_capacity,
  remaining_by_budget, find_limiting,
}
use mcp_usage_control.Budgets.{
  same_budget_keys, has_equal_neighbours, normalize_budget, canonicalize_budgets,
}
use mcp_usage_control.Collation.{sort_by}
use mcp_usage_control.Input.{validate_usage_budget_envelope, assert_usage_identifier}
use mcp_usage_control.Client.Requests.{canonicalize_growth_request, ReservationGrowthRequest}
use mcp_usage_control.Examples.{day, canonical_day, held_store, reservation, part}
use mcp_usage_control.Base.{
  ℕ, ◌≡◌, ◌≤◌, refl, arith, [], ◌∷◌, none, some, ok, throw, true, false, leb, type_error, ◌*◌,
  leb→le, le→leb,
}
use mcp_usage_control.Collation.ByCode.{by_code}
use mcp_usage_control.Types.{StoreGrowResult, ReservationRecord}
use mcp_usage_control.Memory.State.{MemoryUsageStore}
use mcp_usage_control.Memory.Checks.{Increment, check_growth_input}
use mcp_usage_control.Memory.Recovery.{recover_expired}
use mcp_usage_control.Memory.Growth.{grow_found, grown, with_used, replay_growth_result}
use mcp_usage_control.Memory.Scalar.{put_reservation}
use mcp_usage_control.Value.{array}
use mcp_usage_control.Answers.Scalar.{GrowthRequest}
use mcp_usage_control.Answers.Encoding.{of_list, of_grow_result, of_vector_balance}
use mcp_usage_control.Answers.Vector.{validate_vector_remaining_topology}
use mcp_usage_control.Answers.Collisions.{
  around_nul, lone_demand, validate_vector_remaining_topology-refuses,
}
use mcp_usage_control.Client.{World}
use mcp_usage_control.Client.Lease.{
  UsageLease, begin_growth, growth_input, with_unresolved, end_growth, grow,
}
use mcp_usage_control.Client.OverMemory.{memory_usage_store}
use mcp_usage_control.Client.OverMemory.Retry.{lost, losing_store, grow-lost_answer}
use mcp_usage_control.Thresholds.{
  Ratios, ScopedQuota, CheckedQuota, validate_quota, UsageQuotaThreshold, remaining_ratio,
  did_usage_quota_threshold_cross,
}
use mcp_usage_control.Thresholds.Crossing.{did_usage_quota_threshold_cross-once}

abbrev leased : ReservationRecord
leased = record {
  id = "r1";
  operation_id = "op1";
  principal_id = "agent";
  tenant_id = none;
  plan = none;
  tool = "search";
  budget_keys = "day" ∷ [];
  reserved_units = 8;
  expires_at = 70;
  growth_cursor = some "g1.a";
}

abbrev lease : UsageLease
lease = record { reservation = leased; ttl_ms = 60; metadata = none; unresolved_growth = none }

abbrev input : ReservationGrowthRequest
input = record { increment_id = "i1"; additional_units = nat 2; budgets = day ∷ [] }

abbrev request : GrowthRequest
request = record { increment_id = "i1"; additional_units = 2; budgets = canonical_day ∷ [] }

abbrev step : Increment
step = record {
  reservation_id = "r1";
  increment_id = "i1";
  expected_growth_cursor = "g1.a";
  units = 2;
  budgets = canonical_day ∷ [];
}

abbrev answer : StoreGrowResult
answer = StoreGrowResult.accepted (record {
  replayed = false;
  reservation_id = "r1";
  increment_id = "i1";
  previous_reserved_units = 8;
  reserved_units = 10;
  growth_cursor = "g1.u";
  remaining_by_budget = record { key = "day"; remaining = 90 } ∷ [];
})

abbrev grown_store : MemoryUsageStore
grown_store =
    put_reservation "r1" (grown reservation part 10 "g1.u" step answer)
      (with_used (("day", 10) ∷ []) held_store)

lease_begins : begin_growth true lease input ≡ ok (request, "g1.a")
unfolding begin_growth canonicalize_growth_request assert_positive_integer canonicalize_budgets
    validate_usage_budget_envelope assert_usage_identifier normalize_budget
    assert_non_negative_integer has_equal_neighbours sort_by
lease_begins = refl

input_checks : check_growth_input (growth_input lease request "g1.a") ≡ ok step
unfolding check_growth_input assert_usage_identifier growth_input assert_positive_integer
    canonicalize_budgets validate_usage_budget_envelope normalize_budget assert_non_negative_integer
    has_equal_neighbours sort_by
input_checks = refl

nothing_due : recover_expired 10 held_store ≡ (ok tt, held_store)
unfolding recover_expired
nothing_due = refl

store_answers : grow_found step "u" held_store ≡ (ok answer, grown_store)
unfolding grow_found get same_budget_keys find_limiting remaining_by_budget assert_budget_capacity
    new_budget_keys safe_add charge_safely new_growth_cursor after_charge set
store_answers = refl

still_nothing_due : recover_expired 20 grown_store ≡ (ok tt, grown_store)
unfolding recover_expired
still_nothing_due = refl

abbrev world : World MemoryUsageStore
world = record { store = held_store; events = [] }

grow-lost_answer_example :
    let first = grow (losing_store 10 "u") input lease world in
    let second = grow (memory_usage_store 20 "v") input first.1 first.2 in
    let done =
      end_growth request
        (ok (of_grow_result (replay_growth_result answer)))
        (with_unresolved (some request) lease) in
    (first.0 ≡ throw lost)
    × (first.1 ≡ with_unresolved (some request) lease)
    × (first.2.store ≡ grown_store)
    × (second.2.store ≡ grown_store)
    × (second.0 ≡ done.0)
    × (second.1 ≡ done.1)
grow-lost_answer_example =
    grow-lost_answer lease input request "g1.a" lease_begins 10 20 "u" "v" world step held_store
      grown_store answer input_checks nothing_due store_answers still_nothing_due

below :
    (a b limit : ℕ) (r : ℕ × ℕ)
    → a ≤ b
    → leb (b * 100) (r.0 * limit) ≡ true
    → leb (a * 100) (r.0 * limit) ≡ true
below a b limit r h k =
    let z = leb→le (b * 100) (r.0 * limit) k in
    le→leb (a * 100) (r.0 * limit) (bound (r.0 * limit) z)
  where
    bound : (n : ℕ) → b * 100 ≤ n → a * 100 ≤ n
    bound n m = omega arith

-- Exact quotients, as a dividend and a divisor, compared with a number of hundredths.
abbrev hundredths : Ratios
hundredths = record {
  Ratio = ℕ × ℕ;
  zero_ratio = (0, 1);
  divide = λ a b. (a, b);
  le = λ x y. leb (x.0 * 100) (y.0 * x.1);
  is_unit = λ r. leb r.0 100;
  divide_monotone = below;
}

abbrev quota : ℕ → ScopedQuota
quota n = record { limit = nat 100; remaining = nat n }

abbrev checked_quota : ℕ → CheckedQuota
checked_quota n = record { limit = 100; remaining = n }

abbrev tenth : UsageQuotaThreshold hundredths
tenth = remaining_ratio (10, 100)

crosses : did_usage_quota_threshold_cross hundredths (quota 20) (quota 9) tenth ≡ ok true
unfolding did_usage_quota_threshold_cross assert_non_negative_integer
crosses = refl

quota_checks_9 : validate_quota (quota 9) ≡ ok (checked_quota 9)
unfolding validate_quota assert_non_negative_integer
quota_checks_9 = refl

quota_checks_5 : validate_quota (quota 5) ≡ ok (checked_quota 5)
unfolding validate_quota assert_non_negative_integer
quota_checks_5 = refl

did_usage_quota_threshold_cross-once_example :
    did_usage_quota_threshold_cross hundredths (quota 9) (quota 5) tenth ≡ ok false
did_usage_quota_threshold_cross-once_example =
    did_usage_quota_threshold_cross-once hundredths (quota 20) (quota 9) (quota 9) (quota 5) tenth
      (checked_quota 9) (checked_quota 9) (checked_quota 5) crosses quota_checks_9 quota_checks_9
      quota_checks_5 refl refl (omega arith)

validate_vector_remaining_topology-refuses_example :
    validate_vector_remaining_topology
      (array (
        of_list of_vector_balance (
          record { dimension_key = "a"; budget_key = around_nul "b" "c"; remaining = 3 }
          ∷ record { dimension_key = around_nul "a" "b"; budget_key = "c"; remaining = 4 }
          ∷ [])))
      (lone_demand "a" (around_nul "b" "c") 1 9 ∷ lone_demand (around_nul "a" "b") "c" 1 9 ∷ [])
    ≡ throw type_error
validate_vector_remaining_topology-refuses_example =
    validate_vector_remaining_topology-refuses "a" "b" "c" 1 9 3 4
