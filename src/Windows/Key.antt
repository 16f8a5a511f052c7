-- ===== src/Windows/Key.antt =====
-- `createWindowedBudgetKey` of packages/core/src/windowed-budget-keys.ts: the configuration, the key
-- and the window with its boundaries. The checks that a configuration is a plain record with the
-- declared fields hold of every value of the model.
use mcp_usage_control.Base.{
  ℕ, String, Option, none, some, eqb, len, ◌||◌, Result, ok, throw, throw_if, range_error,
  type_error, ◌>>=◌, ◌>>◌,
}
use mcp_usage_control.WeightedCredits.{trims_to_nothing}
use mcp_usage_control.Windows.{
  AccountingWindowPeriod, AccountingWindowInstant, Formatter, calendar_day, calendar_month,
  day_search_span_ms, month_search_span_ms, format_window_id, Direction, find_window_boundary,
  to_valid_date, ◌and◌,
}

pub record WindowedBudgetKeyConfig : Type 0 where
  pub period : AccountingWindowPeriod
  pub time_zone : String
  pub namespace : String
  pub clock : Option AccountingWindowInstant

pub record WindowedBudgetKeyInput : Type 0 where
  pub scope : String
  pub id : String
  pub now : Option AccountingWindowInstant

pub record AccountingWindowProjection : Type 0 where
  pub key : String
  pub starts_at : ℕ
  pub ends_at : ℕ

unfoldable pub assert_identity_string : String → Result (Unit {0})
assert_identity_string value = throw_if (eqb (len value) 0 || trims_to_nothing value) type_error

abbrev pub period_token : AccountingWindowPeriod → String
period_token calendar_day = "day"
period_token calendar_month = "month"

abbrev pub search_span_ms : AccountingWindowPeriod → ℕ
search_span_ms calendar_day = day_search_span_ms
search_span_ms calendar_month = month_search_span_ms

pub record Resolved : Type 0 where
  pub timestamp : ℕ
  pub key : String
  pub window_id : String

-- What the constructor keeps of a checked configuration.
pub record WindowedBudgetKey : Type 0 where
  pub period : AccountingWindowPeriod
  pub namespace_segment : String
  pub time_zone_segment : String
  pub clock : Option AccountingWindowInstant
  pub formatter : Formatter

module _ (encode_uri_component : String → Option String)
    (formatter_for : String → Option Formatter) where
  unfoldable pub encode_identity_segment : String → Result String
  encode_identity_segment value = elim (encode_uri_component value) [
    | none ↦ throw type_error
    | some segment ↦ ok segment
  ]

  unfoldable pub create_windowed_budget_key : WindowedBudgetKeyConfig → Result WindowedBudgetKey
  unfolding assert_identity_string encode_identity_segment
  create_windowed_budget_key config = do
    assert_identity_string config.time_zone
    assert_identity_string config.namespace
    namespace ← encode_identity_segment config.namespace
    time_zone ← encode_identity_segment config.time_zone
    formatter ← elim (formatter_for config.time_zone) [
      | none ↦ throw range_error
      | some formatter ↦ ok formatter
    ]
    ok (record {
      period = config.period;
      namespace_segment = namespace;
      time_zone_segment = time_zone;
      clock = config.clock;
      formatter = formatter;
    })

  -- `input.now ?? clock?.()`.
  abbrev instant_of :
      Option AccountingWindowInstant
      → Option AccountingWindowInstant
      → Result AccountingWindowInstant
  instant_of (some now) clock = ok now
  instant_of none (some now) = ok now
  instant_of none none = throw type_error

  -- The segments, joined by colons.
  unfoldable pub joined_key :
      String → AccountingWindowPeriod → String → String → String → String → String
  joined_key namespace period time_zone scope id window_id =
      namespace
      and ":"
      and period_token period
      and ":"
      and "tz="
      and time_zone
      and ":"
      and scope
      and ":"
      and id
      and ":"
      and window_id

  unfoldable pub resolve : WindowedBudgetKey → WindowedBudgetKeyInput → Result Resolved
  unfolding assert_identity_string encode_identity_segment joined_key
  resolve k input = do
    assert_identity_string input.scope
    assert_identity_string input.id
    instant ← instant_of input.now k.clock
    timestamp ← to_valid_date instant
    window_id ← format_window_id k.formatter timestamp k.period
    scope ← encode_identity_segment input.scope
    id ← encode_identity_segment input.id
    ok (record {
      timestamp = timestamp;
      key = joined_key k.namespace_segment k.period k.time_zone_segment scope id window_id;
      window_id = window_id;
    })

  unfoldable pub key : WindowedBudgetKey → WindowedBudgetKeyInput → Result String
  unfolding resolve
  key k input = resolve k input >>= λ resolved. ok resolved.key

  -- The boundary, or `none` where its search was cut short.
  unfoldable pub boundary : WindowedBudgetKey → Resolved → Direction → Option (Result ℕ)
  boundary k resolved direction =
      find_window_boundary k.formatter k.period resolved.window_id resolved.timestamp direction
        (search_span_ms k.period)

  abbrev both :
      String → Option (Result ℕ) → Option (Result ℕ) → Option (Result AccountingWindowProjection)
  both key none ends = none
  both key (some starts) none = none
  both key (some starts) (some ends) = some (do
    starts_at ← starts
    ends_at ← ends
    ok (record { key = key; starts_at = starts_at; ends_at = ends_at }))

  unfoldable pub window :
      WindowedBudgetKey → WindowedBudgetKeyInput → Option (Result AccountingWindowProjection)
  unfolding resolve boundary
  window k input = elim (resolve k input) [
    | throw e ↦ some (throw e)
    | ok resolved ↦
        both resolved.key (boundary k resolved Direction.backward)
          (boundary k resolved Direction.forward)
  ]
