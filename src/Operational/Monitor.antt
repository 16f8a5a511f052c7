-- ===== src/Operational/Monitor.antt =====
-- `UsageOperationalMonitor` of packages/core/src/operational.ts: counters of the events seen.
pub mod Attempts
use mcp_usage_control.Base.{
  Result, ok, ◌>>=◌, ltb, ℕ, ◌+◌, ◌-◌, leb, List, [], ◌∷◌, Option, none, some, if◌then◌else◌,
}
use mcp_usage_control.Number.{Number, nat, neg, non_integer, max_safe_integer}
use mcp_usage_control.Memory.State.{Recovery, pending_released, liable_retained}
use mcp_usage_control.Events.{
  EventBase, Phase, quote, reserve, mark_liable, renew, settle, UsageEvent, reserve_accepted,
  reserve_denied, vector_reserve_accepted, vector_reserve_denied, settlement_completed,
  vector_settlement_completed, reservation_recovered, vector_reservation_recovered, operation_error,
}
use mcp_usage_control.Operational.{
  UsageRuntimeIdentity, UsageRuntimeIdentityInput, create_usage_runtime_identity,
}
use mcp_usage_control.Collation.{Collation}

pub record ErrorCounters : Type 0 where
  pub quote : ℕ
  pub reserve : ℕ
  pub mark_liable : ℕ
  pub renew : ℕ
  pub settle : ℕ

pub record ObservedAttempts : Type 0 where
  pub reserve : ℕ
  pub settle : ℕ

pub record LifecycleCounters : Type 0 where
  pub events_observed : ℕ
  pub reserve_accepted : ℕ
  pub reserve_denied : ℕ
  pub settlements_completed : ℕ
  pub pending_reservations_released : ℕ
  pub liable_reservations_retained : ℕ
  pub invalid_settlement_outcomes : ℕ
  pub observed_attempts : ObservedAttempts
  pub errors : ErrorCounters

pub record UsageOperationalMonitor : Type 0 where
  pub identity : Option UsageRuntimeIdentity
  pub counters : LifecycleCounters
  pub last_event_at : Option ℕ

abbrev pub empty_counters : LifecycleCounters
empty_counters = record {
  events_observed = 0;
  reserve_accepted = 0;
  reserve_denied = 0;
  settlements_completed = 0;
  pending_reservations_released = 0;
  liable_reservations_retained = 0;
  invalid_settlement_outcomes = 0;
  observed_attempts = record { reserve = 0; settle = 0 };
  errors = record { quote = 0; reserve = 0; mark_liable = 0; renew = 0; settle = 0 };
}

-- A sum that stays at the greatest safe integer.
unfoldable pub add : ℕ → ℕ → ℕ
add value amount =
    if ltb max_safe_integer amount
    then max_safe_integer
    else if leb (max_safe_integer - amount) value
    then max_safe_integer
    else value + amount

unfoldable pub increment : ℕ → ℕ
unfolding add
increment value = add value 1

unfoldable pub count_error : Phase → ErrorCounters → ErrorCounters
unfolding increment
count_error quote e = record e { quote = increment e.quote }
count_error reserve e = record e { reserve = increment e.reserve }
count_error mark_liable e = record e { mark_liable = increment e.mark_liable }
count_error renew e = record e { renew = increment e.renew }
count_error settle e = record e { settle = increment e.settle }

unfoldable pub count_attempt : Phase → ObservedAttempts → ObservedAttempts
unfolding increment
count_attempt quote a = a
count_attempt reserve a = record a { reserve = increment a.reserve }
count_attempt mark_liable a = a
count_attempt renew a = a
count_attempt settle a = record a { settle = increment a.settle }

abbrev pub count_accepted : LifecycleCounters → LifecycleCounters
count_accepted c = record c {
  reserve_accepted = increment c.reserve_accepted;
  observed_attempts = count_attempt reserve c.observed_attempts;
}

abbrev pub count_denied : LifecycleCounters → LifecycleCounters
count_denied c = record c {
  reserve_denied = increment c.reserve_denied;
  observed_attempts = count_attempt reserve c.observed_attempts;
}

abbrev pub count_settled : LifecycleCounters → LifecycleCounters
count_settled c = record c {
  settlements_completed = increment c.settlements_completed;
  observed_attempts = count_attempt settle c.observed_attempts;
}

abbrev pub count_recovered : Recovery → ℕ → LifecycleCounters → LifecycleCounters
count_recovered pending_released n c = record c {
  pending_reservations_released = add c.pending_reservations_released n;
}
count_recovered liable_retained n c = record c {
  liable_reservations_retained = add c.liable_reservations_retained n;
}

abbrev pub count_failed : Phase → LifecycleCounters → LifecycleCounters
count_failed phase c = record c {
  errors = count_error phase c.errors;
  observed_attempts = count_attempt phase c.observed_attempts;
}

-- The `switch` of `onEvent`.
unfoldable pub count_event : UsageEvent → LifecycleCounters → LifecycleCounters
unfolding count_attempt count_error
count_event (reserve_accepted base identity e) c = count_accepted c
count_event (vector_reserve_accepted base identity e) c = count_accepted c
count_event (reserve_denied base identity e) c = count_denied c
count_event (vector_reserve_denied base identity e) c = count_denied c
count_event (settlement_completed base identity e) c = count_settled c
count_event (vector_settlement_completed base identity e) c = count_settled c
count_event (reservation_recovered base e identifiers units) c =
    count_recovered e.recovery e.count c
count_event (vector_reservation_recovered base e dimensions budgets) c =
    count_recovered e.recovery e.count c
count_event (operation_error base identity e) c = count_failed e.phase c

abbrev pub event_base : UsageEvent → EventBase
event_base (reserve_accepted base identity e) = base
event_base (vector_reserve_accepted base identity e) = base
event_base (reserve_denied base identity e) = base
event_base (vector_reserve_denied base identity e) = base
event_base (settlement_completed base identity e) = base
event_base (vector_settlement_completed base identity e) = base
event_base (reservation_recovered base e identifiers units) = base
event_base (vector_reservation_recovered base e dimensions budgets) = base
event_base (operation_error base identity e) = base

unfoldable pub on_event : UsageEvent → UsageOperationalMonitor → UsageOperationalMonitor
unfolding count_event increment
on_event event m = record m {
  counters =
      count_event event
        (record m.counters { events_observed = increment m.counters.events_observed });
  last_event_at = some (event_base event).timestamp;
}

unfoldable pub on_invalid_settlement_outcome : UsageOperationalMonitor → UsageOperationalMonitor
unfolding increment
on_invalid_settlement_outcome m = record m {
  counters = record m.counters {
    invalid_settlement_outcomes = increment m.counters.invalid_settlement_outcomes;
  };
}

-- An identity as the input of `createUsageRuntimeIdentity`.
abbrev pub as_identity_input : UsageRuntimeIdentity → UsageRuntimeIdentityInput
as_identity_input identity = record {
  provider = identity.provider;
  capabilities = some identity.capabilities;
  package_name = some identity.package_name;
  package_version = some identity.package_version;
  storage_schema_version = identity.storage_schema_version;
}

abbrev pub check_identity :
    ⦃c : Collation⦄ → Option UsageRuntimeIdentity → Result (Option UsageRuntimeIdentity)
check_identity none = ok none
check_identity (some identity) =
    create_usage_runtime_identity (as_identity_input identity) >>= λ checked. ok (some checked)

unfoldable pub new_monitor :
    ⦃c : Collation⦄ → Option UsageRuntimeIdentity → Result UsageOperationalMonitor
new_monitor identity = do
  checked ← check_identity identity
  ok (record { identity = checked; counters = empty_counters; last_event_at = none })
