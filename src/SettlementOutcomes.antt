-- ===== src/SettlementOutcomes.antt =====
-- The vocabulary of settlement outcomes in packages/core/src/settlement-outcomes.ts.
pub mod Normal
use mcp_usage_control.Base.{
  Bool, true, false, List, [], ◌∷◌, String, Option, none, some, includes, eqb, ltb, ◌||◌, Result,
  ok, throw, Failure, other_error, if◌then◌else◌,
}
use mcp_usage_control.JsMap.{JsMap, get}
use mcp_usage_control.Value.{
  Value, undefined, null, boolean, number, text, array, object, cast_text,
}
use mcp_usage_control.Client.Quotes.{utf16_length}

abbrev pub canonical_settlement_outcomes : List String
canonical_settlement_outcomes =
    "authorization_denied" ∷ "invalid_arguments" ∷ "pre_dispatch_rejected"
    ∷ "pre_dispatch_no_effect" ∷ "cancelled_before_dispatch" ∷ "completed" ∷ "proven_no_effect"
    ∷ "dispatched_conservative" ∷ "cancelled_after_dispatch" ∷ []

abbrev pub SettlementOutcomeAliases : Type 0
SettlementOutcomeAliases = JsMap Value

abbrev pub default_settlement_outcome_aliases : SettlementOutcomeAliases
default_settlement_outcome_aliases =
    ("success", text "completed")
    ∷ ("tool_error", text "completed")
    ∷ ("error", text "dispatched_conservative")
    ∷ ("unsupported_input_required", text "dispatched_conservative")
    ∷ ("input_required_round_limit", text "dispatched_conservative")
    ∷ ("invalid_input_required_state", text "dispatched_conservative")
    ∷ ("input_required_suspend_failed", text "dispatched_conservative")
    ∷ []

abbrev pub invalid_settlement_outcome : Failure
invalid_settlement_outcome = other_error (some "InvalidSettlementOutcomeError")

unfoldable pub is_canonical_settlement_outcome : Value → Bool
is_canonical_settlement_outcome (text s) = includes s canonical_settlement_outcomes
is_canonical_settlement_outcome undefined = false
is_canonical_settlement_outcome null = false
is_canonical_settlement_outcome (boolean b) = false
is_canonical_settlement_outcome (number n) = false
is_canonical_settlement_outcome (array vs) = false
is_canonical_settlement_outcome (object fields) = false

-- The sink for diagnostics, over the state of the world: its call may change the world and may
-- throw. The rejection of a promise that it returns is dropped.
abbrev pub SettlementOutcomeDiagnosticSink : Type 0 → Type 0
SettlementOutcomeDiagnosticSink S = S → Result (Unit {0}) × S

module _ {S : Type 0} where
  -- The `try` and the `throw` after it.
  unfoldable pub after_diagnostics : Result (Unit {0}) × S → Result String × S
  after_diagnostics (ok _, w) = (throw invalid_settlement_outcome, w)
  after_diagnostics (throw e, w) = (throw invalid_settlement_outcome, w)

  unfoldable pub reject_invalid_settlement_outcome :
      Option (SettlementOutcomeDiagnosticSink S) → S → Result String × S
  unfolding after_diagnostics
  reject_invalid_settlement_outcome none w = (throw invalid_settlement_outcome, w)
  reject_invalid_settlement_outcome (some sink) w = after_diagnostics (sink w)

  -- The value that the aliases give.
  unfoldable pub accept_alias :
      Option Value → Option (SettlementOutcomeDiagnosticSink S) → S → Result String × S
  unfolding reject_invalid_settlement_outcome is_canonical_settlement_outcome
  accept_alias none diagnostics w = reject_invalid_settlement_outcome diagnostics w
  accept_alias (some normalized) diagnostics w =
      if is_canonical_settlement_outcome normalized
      then (ok (cast_text normalized), w)
      else reject_invalid_settlement_outcome diagnostics w

  -- The part below the first test.
  unfoldable pub look_up :
      Value
      → SettlementOutcomeAliases
      → Option (SettlementOutcomeDiagnosticSink S)
      → S
      → Result String × S
  unfolding reject_invalid_settlement_outcome accept_alias
  look_up (text s) aliases diagnostics w =
      if eqb (utf16_length s) 0 || ltb 128 (utf16_length s)
      then reject_invalid_settlement_outcome diagnostics w
      else accept_alias (get s aliases) diagnostics w
  look_up undefined aliases diagnostics w = reject_invalid_settlement_outcome diagnostics w
  look_up null aliases diagnostics w = reject_invalid_settlement_outcome diagnostics w
  look_up (boolean b) aliases diagnostics w = reject_invalid_settlement_outcome diagnostics w
  look_up (number n) aliases diagnostics w = reject_invalid_settlement_outcome diagnostics w
  look_up (array vs) aliases diagnostics w = reject_invalid_settlement_outcome diagnostics w
  look_up (object fields) aliases diagnostics w = reject_invalid_settlement_outcome diagnostics w

  unfoldable pub normalize_settlement_outcome :
      Value
      → SettlementOutcomeAliases
      → Option (SettlementOutcomeDiagnosticSink S)
      → S
      → Result String × S
  unfolding look_up is_canonical_settlement_outcome
  normalize_settlement_outcome value aliases diagnostics w =
      if is_canonical_settlement_outcome value
      then (ok (cast_text value), w)
      else look_up value aliases diagnostics w
