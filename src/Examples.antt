-- ===== src/Examples.antt =====
-- Requests, budgets and stores at which the theorems are applied.
pub mod Store
pub mod Active
pub mod Canonical
pub mod Credits
pub mod Client
pub mod Answers
pub mod Views
pub mod Retries
use mcp_usage_control.WeightedCredits.{
  is_white_space, check_ttl, allow, define_weighted_credit_policy_config, default_plan,
  deny_unknown, quote, create_weighted_credits_policy, WeightedCreditPolicyConfig,
  WeightedCreditsPolicyOptions, BudgetResolver,
}
use mcp_usage_control.Memory.Limits.{
  charge_budgets, new_growth_cursor, track_recovery_at, assert_operation_capacity, after_charge,
  charge_safely, new_budget_keys, assert_budget_capacity, remaining_by_budget, find_limiting,
}
use mcp_usage_control.Records.{clone_reservation_record}
use mcp_usage_control.Base.{
  ◌>>=◌, eq_iff, budget_in_use, ◌==◌, if◌then◌else◌, occurrences, len, Unique, All, already_settled,
  ◌⊎◌, state_error, Failure, length, ℕ, ◌≡◌, ◌≤◌, refl, arith, none, some, ok, throw, List, [], ◌∷◌,
  String, true, false, leb,
}
use mcp_usage_control.Dimensions.{
  assert_unique_vector_topology, normalize_dimension, canonicalize_usage_dimensions,
}
use mcp_usage_control.Input.{
  validate_usage_vector_envelope, validate_usage_request_envelope, assert_usage_identifier,
  validate_usage_budget_envelope,
}
use mcp_usage_control.JsMap.{set, has, get}
use mcp_usage_control.Number.{
  max_safe_integer, safe_add, assert_non_negative_integer, assert_positive_integer, nat,
}
use mcp_usage_control.Collation.{insert_by, sort_by, Collation}
use mcp_usage_control.Collation.ByCode.{text_le, by_code}
use mcp_usage_control.Memory.State.{
  InternalReservation, ScalarPart, MemoryUsageStore, pending, scalar,
}
use mcp_usage_control.Types.{
  duplicate_operation, StoreReserveResult, ReservationRecord, Demand, UsageDimension,
  StoreGrowResult, ReserveInput, CanonicalBudget, Budget, UsageRequest, Principal,
}
use mcp_usage_control.Memory.Checks.{Increment, check_reserve_input, Admission}
use mcp_usage_control.Memory.Maintenance.{retire, new_memory_usage_store, MemoryUsageStoreOptions}
use mcp_usage_control.Memory.Calls.{run, Call}
use mcp_usage_control.Memory.Covered.{all_active}
use mcp_usage_control.Memory.Admission.{reserve-IsAdmission, IsAdmission}
use mcp_usage_control.Memory.Scalar.{reserve_checked, reserve, settle_found}
use mcp_usage_control.OperationKey.{operation_key_for}
use mcp_usage_control.Memory.Recovery.{used_at, recover_all, recover_expired}
use mcp_usage_control.Memory.Moves.{IsOpen}
use mcp_usage_control.Memory.Covered.Invariant.{run-IsCovered}
use mcp_usage_control.Memory.Capacity.{run-IsWithinCapacity}
use mcp_usage_control.Memory.Settlement.{settle_found-again, settle_found-releases}
use mcp_usage_control.Memory.Current.{recover_all-IsCurrent, IsCurrent}
use mcp_usage_control.Memory.Growth.{replay_growth_result, grow_found, attempt_growth, grown}
use mcp_usage_control.OperationKey.Injective.{operation_key_for-injective}
use mcp_usage_control.Budgets.{has_equal_neighbours, normalize_budget, canonicalize_budgets}
use mcp_usage_control.Budgets.Canonical.{
  canonicalize_budgets-IsCanonical, canonicalize_budgets-Unique, IsCanonical,
}
use mcp_usage_control.Memory.Reconciliation.{reconcile_vector_operation, reconcile_operation}
use mcp_usage_control.Dimensions.Topology.{canonicalize_usage_dimensions-Unique}
use mcp_usage_control.Budgets.Collisions.{
  canonicalize_budgets-hides_duplicate, canonicalize_budgets_idem,
}
use mcp_usage_control.Memory.Replay.{attempt_growth-replayed}
use mcp_usage_control.Memory.ReadOnly.{reconcile-readonly}
use mcp_usage_control.Memory.Retirement.{retire-unheld}
use mcp_usage_control.Memory.Duplicates.{reserve_checked-refuses_duplicate}

abbrev pub agent : Principal
agent = record { id = "agent"; tenant_id = none; plan = some "free" }

abbrev pub request : UsageRequest
request = record { operation_id = "op1"; principal = agent; tool = "search" }

abbrev pub day : Budget
day = record { key = "day"; limit = nat 100 }

abbrev pub month : Budget
month = record { key = "month"; limit = nat 500 }

abbrev pub canonical_day : CanonicalBudget
canonical_day = record { key = "day"; limit = 100 }

abbrev pub canonical_month : CanonicalBudget
canonical_month = record { key = "month"; limit = 500 }

abbrev pub reserve_input : ReserveInput
reserve_input = record {
  request = request;
  units = nat 5;
  budgets = month ∷ day ∷ [];
  ttl_ms = nat 60;
}

abbrev pub empty_store : MemoryUsageStore
empty_store = record {
  used = [];
  reservations = [];
  operations = [];
  idempotency_ttl_ms = 1000;
  max_retained_operations = 10;
  max_retained_budget_keys = 10;
  next_recovery_at = none;
  emitted = [];
}

abbrev pub part : ScalarPart
part = record {
  budget_keys = "day" ∷ [];
  reserved_units = 8;
  actual_units = none;
  last_growth = none;
}

-- An active reservation of 8 units of one budget.
abbrev pub reservation : InternalReservation
reservation = record {
  id = "r1";
  operation_id = "op1";
  principal_id = "agent";
  tenant_id = none;
  plan = none;
  tool = "search";
  expires_at = 70;
  growth_cursor = some "g1.a";
  operation_key = "r1";
  state = pending;
  outcome = none;
  tombstone_expires_at = none;
  mode = scalar part;
}

abbrev pub held_store : MemoryUsageStore
held_store = record empty_store {
  used = ("day", 8) ∷ [];
  reservations = ("r1", reservation) ∷ [];
  operations = ("r1", "r1") ∷ [];
  next_recovery_at = some 70;
}

pub held-IsOpen : IsOpen held_store "r1" reservation
unfolding get
held-IsOpen = record { found = refl; unsettled = refl }

abbrev pub calls_dimension : UsageDimension
calls_dimension = record { key = "calls"; units = nat 1; budgets = day ∷ [] }
