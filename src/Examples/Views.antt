-- ===== src/Examples/Views.antt =====
-- Windows, monitors and settlement outcomes at concrete inputs.
use mcp_usage_control.Number.{nat}
use mcp_usage_control.Denials.{
  UsageDenialContext, UsageDeniedError, Thrown, ServerDenialContexts, get_usage_denial_context,
  new_usage_denied_error,
}
use mcp_usage_control.Denials.Reading.{
  IsConstructed, IsIssued, new_usage_denied_error-IsConstructed, new_usage_denied_error-earlier,
}
use mcp_usage_control.Windows.{
  Formatter, calendar_day, Direction, find_window_boundary, in_window, at, day_search_span_ms,
  format_window_id,
}
use mcp_usage_control.Base.{
  ℕ, ◌≡◌, refl, arith, List, [], ◌∷◌, String, Option, none, some, ok, true, if◌then◌else◌, ltb,
}
use mcp_usage_control.Value.{text}
use mcp_usage_control.Events.{
  EventBase, RequestIdentity, reserve_denied, operation_error, Phase, Source,
}
use mcp_usage_control.Operational.Monitor.{
  UsageOperationalMonitor, new_monitor, empty_counters, on_invalid_settlement_outcome,
}
use mcp_usage_control.Operational.{UsageRuntimeIdentity, create_usage_runtime_identity}
use mcp_usage_control.Collation.{sort_by}
use mcp_usage_control.Collation.ByCode.{by_code}
use mcp_usage_control.Operational.Monitor.Attempts.{
  Notice, event, invalid_outcome, observe, IsConsistent, observe-IsConsistent,
}
use mcp_usage_control.SettlementOutcomes.{
  SettlementOutcomeDiagnosticSink, normalize_settlement_outcome, default_settlement_outcome_aliases,
}
use mcp_usage_control.SettlementOutcomes.Normal.{IsNormal, normalize_settlement_outcome-IsNormal}
use mcp_usage_control.Windows.Search.{IsFound, find_window_boundary-IsFound}
use mcp_usage_control.Windows.Key.{WindowedBudgetKey, WindowedBudgetKeyInput, Resolved}

abbrev quota_reached : UsageDenialContext
quota_reached = record { limiting_budget_key = some "team"; remaining = some (nat 0) }

abbrev one_denial : ServerDenialContexts
one_denial = record {
  next = 1;
  entries = (0, record { limiting_budget_key = some "agent"; remaining = none }) ∷ [];
}

new_usage_denied_error-IsConstructed_example :
    IsConstructed "quota_exceeded"
      (some quota_reached)
      one_denial
      (new_usage_denied_error "quota_exceeded" (some quota_reached) one_denial)
    × IsIssued ((new_usage_denied_error "quota_exceeded" (some quota_reached) one_denial).1)
new_usage_denied_error-IsConstructed_example =
    new_usage_denied_error-IsConstructed "quota_exceeded" (some quota_reached) one_denial
      (omega arith, tt)

abbrev first_denial : UsageDeniedError
first_denial = record { identity = 0; reason = "quota_exceeded" }

new_usage_denied_error-earlier_example :
    get_usage_denial_context
      (Thrown.denied first_denial)
      ((new_usage_denied_error "quota_exceeded" (some quota_reached) one_denial).1)
    ≡ get_usage_denial_context (Thrown.denied first_denial) one_denial
new_usage_denied_error-earlier_example =
    new_usage_denied_error-earlier "quota_exceeded" (some quota_reached) one_denial first_denial
      (omega arith)

abbrev unnamed_monitor : UsageOperationalMonitor
unnamed_monitor = record { identity = none; counters = empty_counters; last_event_at = none }

abbrev runtime : UsageRuntimeIdentity
runtime = record {
  package_name = "mcp-usage-control";
  package_version = "1.3.1";
  provider = "memory";
  capabilities = [];
  storage_schema_version = none;
}

abbrev named_monitor : UsageOperationalMonitor
named_monitor = record unnamed_monitor { identity = some runtime }

monitor_made : new_monitor (some runtime) ≡ ok named_monitor
unfolding new_monitor create_usage_runtime_identity sort_by
monitor_made = refl

-- A monitor as the sink.
abbrev monitor_sink : SettlementOutcomeDiagnosticSink UsageOperationalMonitor
monitor_sink m = (ok tt, on_invalid_settlement_outcome m)

normalize_settlement_outcome-IsNormal_example :
    IsNormal default_settlement_outcome_aliases
      (some monitor_sink)
      unnamed_monitor
      (text "refund")
      (normalize_settlement_outcome
        (text "refund")
        default_settlement_outcome_aliases
        (some monitor_sink)
        unnamed_monitor)
normalize_settlement_outcome-IsNormal_example =
    normalize_settlement_outcome-IsNormal default_settlement_outcome_aliases (some monitor_sink)
      unnamed_monitor (text "refund")

abbrev identity : RequestIdentity
identity = record {
  principal_id = "agent";
  tenant_id = none;
  plan = none;
  tool = "search";
  operation_id = "op1";
}

abbrev moment : EventBase
moment = record { timestamp = 10; metadata = none }

abbrev notices : List Notice
notices =
    event (
      reserve_denied moment identity (record {
        reason = "quota_exceeded";
        limiting_dimension_key = none;
        limiting_budget_key = none;
        remaining = none;
      }))
    ∷ event (
        operation_error moment (some identity) (record {
          phase = Phase.reserve;
          source = Source.store;
          reservation_id = none;
          error_name = "TypeError";
        }))
    ∷ invalid_outcome
    ∷ []

observe-IsConsistent_example : IsConsistent (observe notices named_monitor).counters
observe-IsConsistent_example =
    observe-IsConsistent (some runtime) named_monitor notices monitor_made

-- A calendar of three days, the second from 300000000 up to 386400000.
abbrev day_of : ℕ → String
day_of t = if ltb t 300000000 then "01" else if ltb t 386400000 then "02" else "03"

abbrev formatter : Formatter
formatter t =
    record { type = "year"; value = "2000" }
    ∷ record { type = "month"; value = "01" }
    ∷ record { type = "day"; value = day_of t }
    ∷ []

starts_inside : in_window formatter calendar_day "2000-01-02" 350000000 ≡ ok true
unfolding format_window_id
starts_inside = refl

find_window_boundary-IsFound_example :
    IsFound formatter calendar_day "2000-01-02" 350000000 day_search_span_ms Direction.forward (
      find_window_boundary formatter calendar_day "2000-01-02" 350000000 Direction.forward
        day_search_span_ms)
find_window_boundary-IsFound_example =
    find_window_boundary-IsFound formatter calendar_day "2000-01-02" 350000000 day_search_span_ms
      Direction.forward (omega arith) starts_inside

abbrev encode : String → Option String
encode s = some s

abbrev formatter_for : String → Option Formatter
formatter_for zone = some formatter

abbrev daily : WindowedBudgetKey
daily = record {
  period = calendar_day;
  namespace_segment = "calls";
  time_zone_segment = "UTC";
  clock = none;
  formatter = formatter;
}

abbrev key_input : WindowedBudgetKeyInput
key_input = record { scope = "user"; id = "u1"; now = some (at 350000000) }

abbrev resolved : Resolved
resolved = record {
  timestamp = 350000000;
  key = "calls:day:tz=UTC:user:u1:2000-01-02";
  window_id = "2000-01-02";
}
