-- ===== src/Events/Projection.antt =====
-- `projectUsageEvent` of packages/core/src/observability.ts: an event as a record for logs, without
-- identities, keys and texts of the application.
use mcp_usage_control.Base.{
  ℕ, Bool, List, [], ◌∷◌, String, ◌==◌, Option, none, some, min, length, if◌then◌else◌, ltb,
}
use mcp_usage_control.Types.{BudgetRemaining}
use mcp_usage_control.Memory.State.{Recovery}
use mcp_usage_control.Events.{
  UsageEventMetadata, EventBase, Phase, Source, RecoveryStore, UsageEvent, reserve_accepted,
  reserve_denied, vector_reserve_accepted, vector_reserve_denied, settlement_completed,
  vector_settlement_completed, reservation_recovered, vector_reservation_recovered, operation_error,
}

pub data UsageLogResult : Type 0 where
  success denied error recovery : UsageLogResult

pub data UsageLogPhase : Type 0 where
  during : Phase → UsageLogPhase
  recovery : UsageLogPhase

pub data UsageLogDenialReason : Type 0 where
  quota_exceeded duplicate_operation policy_denied : UsageLogDenialReason

pub data UsageLogErrorClass : Type 0 where
  plain type_error range_error usage_state_error usage_denied_error : UsageLogErrorClass
  cloudflare_usage_transport_error unknown_error other_error : UsageLogErrorClass

-- `event.type`.
pub data EventType : Type 0 where
  accepted refused vector_accepted vector_refused settled vector_settled : EventType
  recovered vector_recovered failed : EventType

pub record UsageLogRecord : Type 0 where
  pub timestamp : ℕ
  pub event_type : EventType
  pub phase : UsageLogPhase
  pub result : UsageLogResult
  pub source : Option Source
  pub denial_reason : Option UsageLogDenialReason
  pub error_class : Option UsageLogErrorClass
  pub store : Option RecoveryStore
  pub recovery : Option Recovery
  pub reserved_units : Option ℕ
  pub actual_units : Option ℕ
  pub released_units : Option ℕ
  pub remaining : Option ℕ
  pub budget_count : Option ℕ
  pub remaining_min : Option ℕ
  pub remaining_max : Option ℕ
  pub count : Option ℕ
  pub dimension_count : Option ℕ
  pub metadata : Option UsageEventMetadata

unfoldable pub normalize_denial_reason : String → UsageLogDenialReason
normalize_denial_reason reason =
    if reason == "quota_exceeded"
    then UsageLogDenialReason.quota_exceeded
    else if reason == "duplicate_operation"
    then UsageLogDenialReason.duplicate_operation
    else UsageLogDenialReason.policy_denied

unfoldable pub normalize_error_class : String → UsageLogErrorClass
normalize_error_class name =
    if name == "Error"
    then UsageLogErrorClass.plain
    else if name == "TypeError"
    then UsageLogErrorClass.type_error
    else if name == "RangeError"
    then UsageLogErrorClass.range_error
    else if name == "UsageStateError"
    then UsageLogErrorClass.usage_state_error
    else if name == "UsageDeniedError"
    then UsageLogErrorClass.usage_denied_error
    else if name == "CloudflareUsageTransportError"
    then UsageLogErrorClass.cloudflare_usage_transport_error
    else if name == "UnknownError"
    then UsageLogErrorClass.unknown_error
    else UsageLogErrorClass.other_error

abbrev max : ℕ → ℕ → ℕ
max a b = if ltb a b then b else a

-- `Math.min` and `Math.max` of the balances, the first of which is given.
abbrev pub minimum : ℕ → List BudgetRemaining → ℕ
minimum n [] = n
minimum n (b ∷ bs) = minimum (min n b.remaining) bs

abbrev pub maximum : ℕ → List BudgetRemaining → ℕ
maximum n [] = n
maximum n (b ∷ bs) = maximum (max n b.remaining) bs

pub record Summary : Type 0 where
  pub budget_count : ℕ
  pub remaining_min : Option ℕ
  pub remaining_max : Option ℕ

unfoldable pub summarize_remaining : List BudgetRemaining → Summary
summarize_remaining [] = record { budget_count = 0; remaining_min = none; remaining_max = none }
summarize_remaining (b ∷ bs) = record {
  budget_count = length (b ∷ bs);
  remaining_min = some (minimum b.remaining bs);
  remaining_max = some (maximum b.remaining bs);
}

-- The fields that every record has, with all others absent.
abbrev plain_record : Bool → EventBase → EventType → UsageLogPhase → UsageLogResult → UsageLogRecord
plain_record include_metadata base event_type phase result = record {
  timestamp = base.timestamp;
  event_type = event_type;
  phase = phase;
  result = result;
  source = none;
  denial_reason = none;
  error_class = none;
  store = none;
  recovery = none;
  reserved_units = none;
  actual_units = none;
  released_units = none;
  remaining = none;
  budget_count = none;
  remaining_min = none;
  remaining_max = none;
  count = none;
  dimension_count = none;
  metadata = if include_metadata then base.metadata else none;
}

unfoldable pub project_usage_event : Bool → UsageEvent → UsageLogRecord
unfolding normalize_denial_reason normalize_error_class summarize_remaining
project_usage_event m (reserve_accepted base identity e) =
    let summary = summarize_remaining e.remaining_by_budget in
    record (plain_record m base EventType.accepted (UsageLogPhase.during Phase.reserve)
      UsageLogResult.success) {
        reserved_units = some e.reserved_units;
        budget_count = some summary.budget_count;
        remaining_min = summary.remaining_min;
        remaining_max = summary.remaining_max;
      }
project_usage_event m (reserve_denied base identity e) =
    record (plain_record m base EventType.refused (UsageLogPhase.during Phase.reserve)
      UsageLogResult.denied) {
        denial_reason = some (normalize_denial_reason e.reason);
        remaining = e.remaining;
      }
project_usage_event m (vector_reserve_accepted base identity e) =
    record (plain_record m base EventType.vector_accepted (UsageLogPhase.during Phase.reserve)
      UsageLogResult.success) {
        dimension_count = some (length e.dimensions);
        budget_count = some (length e.remaining_by_budget);
      }
project_usage_event m (vector_reserve_denied base identity e) =
    record (plain_record m base EventType.vector_refused (UsageLogPhase.during Phase.reserve)
      UsageLogResult.denied) {
        denial_reason = some (normalize_denial_reason e.reason);
        remaining = e.remaining;
      }
project_usage_event m (settlement_completed base identity e) =
    record (plain_record m base EventType.settled (UsageLogPhase.during Phase.settle)
      UsageLogResult.success) {
        reserved_units = some e.reserved_units;
        actual_units = some e.actual_units;
        released_units = some e.released_units;
      }
project_usage_event m (vector_settlement_completed base identity e) =
    record (plain_record m base EventType.vector_settled (UsageLogPhase.during Phase.settle)
      UsageLogResult.success) { dimension_count = some (length e.dimensions) }
project_usage_event m (vector_reservation_recovered base e dimensions budgets) =
    record (plain_record m base EventType.vector_recovered UsageLogPhase.recovery
      UsageLogResult.recovery) {
        store = some e.store;
        recovery = some e.recovery;
        dimension_count = dimensions;
        budget_count = budgets;
        count = some e.count;
      }
project_usage_event m (reservation_recovered base e identifiers units) =
    record (plain_record m base EventType.recovered UsageLogPhase.recovery
      UsageLogResult.recovery) {
        store = some e.store;
        recovery = some e.recovery;
        reserved_units = some units;
        count = some e.count;
      }
project_usage_event m (operation_error base identity e) =
    record (plain_record m base EventType.failed (UsageLogPhase.during e.phase)
      UsageLogResult.error) {
        source = some e.source;
        error_class = some (normalize_error_class e.error_name);
      }
