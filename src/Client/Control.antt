-- ===== src/Client/Control.antt =====
-- `UsageControl` of packages/core/src/index.ts: admission by a policy and a store, and the
-- resumption of a lease.
pub mod Decisions
use mcp_usage_control.Base.{
  ℕ, List, map, String, Option, none, some, get_or, Result, ok, throw, Failure, ◌>>=◌, ◌>>◌,
}
use mcp_usage_control.Number.{Number, nat, assert_positive_integer}
use mcp_usage_control.Types.{
  UsageRequest, CanonicalBudget, BudgetRemaining, ReserveInput, ReservationRecord, DenialReason,
}
use mcp_usage_control.Types.DenialReason.{quota_exceeded, duplicate_operation}
use mcp_usage_control.Collation.{Collation}
use mcp_usage_control.Input.{validate_usage_request_envelope}
use mcp_usage_control.Records.{clone_reservation_record}
use mcp_usage_control.Value.{Value}
use mcp_usage_control.Events.{
  UsageEventMetadata, Phase, Source, reserve_accepted, reserve_denied, request_identity,
}
use mcp_usage_control.Answers.{ReserveDenial}
use mcp_usage_control.Answers.Scalar.{ReserveAnswer, validate_store_reserve_result}
use mcp_usage_control.Client.{
  UsageStore, World, MetadataSource, no_metadata, emit_usage_event, call, emit_error,
  resolve_metadata,
}
use mcp_usage_control.Client.Quotes.{
  UsagePolicyAnswer, NormalizedUsagePolicyQuote, normalize_usage_policy_quote,
}
use mcp_usage_control.Client.Requests.{as_budget}
use mcp_usage_control.Client.Lease.{UsageLease, UsageLeaseResumeState, new_usage_lease}

pub record UsageControl : Type 0 where
  pub default_reservation_ttl_ms : ℕ
  pub metadata : MetadataSource

pub record UsageControlOptions : Type 0 where
  pub default_reservation_ttl_ms : Option Number
  pub metadata : MetadataSource

-- The third argument of the constructor.
pub data OptionsOrTtl : Type 0 where
  ttl : Number → OptionsOrTtl
  options : UsageControlOptions → OptionsOrTtl

abbrev pub default_ttl_ms : Number
default_ttl_ms = nat 60000

unfoldable pub new_usage_control : OptionsOrTtl → Result UsageControl
new_usage_control (ttl n) = do
  ttl_ms ← assert_positive_integer n
  ok (record { default_reservation_ttl_ms = ttl_ms; metadata = no_metadata })
new_usage_control (options o) = do
  ttl_ms ← assert_positive_integer (get_or o.default_reservation_ttl_ms default_ttl_ms)
  ok (record { default_reservation_ttl_ms = ttl_ms; metadata = o.metadata })

unfoldable pub resume_lease : ⦃c : Collation⦄ → UsageLeaseResumeState → Result UsageLease
resume_lease state = do
  ttl_ms ← assert_positive_integer state.ttl_ms
  reservation ← clone_reservation_record state.reservation
  new_usage_lease reservation ttl_ms state.metadata state.unresolved_growth

pub data AdmissionResult : Type 0 where
  allowed : UsageLease → List BudgetRemaining → AdmissionResult
  denied : String → Option String → Option ℕ → AdmissionResult

abbrev pub reason_text : DenialReason → String
reason_text quota_exceeded = "quota_exceeded"
reason_text duplicate_operation = "duplicate_operation"

abbrev pub as_reserve_input : UsageRequest → ℕ → List CanonicalBudget → ℕ → ReserveInput
as_reserve_input request units budgets ttl_ms = record {
  request = request;
  units = nat units;
  budgets = map as_budget budgets;
  ttl_ms = nat ttl_ms;
}

abbrev pub fresh_lease : ReservationRecord → ℕ → Option UsageEventMetadata → UsageLease
fresh_lease reservation ttl_ms metadata = record {
  reservation = reservation;
  ttl_ms = ttl_ms;
  metadata = metadata;
  unresolved_growth = none;
}

module _ {S : Type 0} (store : UsageStore S) (now : ℕ) (metadata : Option UsageEventMetadata)
    (request : UsageRequest) where
  -- What follows a checked answer of the store.
  unfoldable pub admit_answer : ℕ → ReserveAnswer → World S → Result AdmissionResult × World S
  unfolding request_identity
  admit_answer ttl_ms (ReserveAnswer.rejected d) w = (
    ok (AdmissionResult.denied (reason_text d.reason) d.limiting_budget_key d.remaining),
    emit_usage_event
        (reserve_denied (record { timestamp = now; metadata = metadata }) (request_identity request)
          (record {
            reason = reason_text d.reason;
            limiting_dimension_key = none;
            limiting_budget_key = d.limiting_budget_key;
            remaining = d.remaining;
          }))
        w,
  )
  admit_answer ttl_ms (ReserveAnswer.accepted reservation balances) w = (
    ok (AdmissionResult.allowed (fresh_lease reservation ttl_ms metadata) balances),
    emit_usage_event
        (reserve_accepted (record { timestamp = now; metadata = metadata })
          (request_identity request)
          (record {
            reservation_id = reservation.id;
            budget_keys = reservation.budget_keys;
            reserved_units = reservation.reserved_units;
            remaining_by_budget = balances;
          }))
        w,
  )

  -- The store's part of an admission.
  unfoldable pub reserve_in_store :
      ℕ → List CanonicalBudget → ℕ → World S → Result AdmissionResult × World S
  unfolding admit_answer request_identity emit_error
  reserve_in_store units budgets ttl_ms w =
      let done = call (store.reserve (as_reserve_input request units budgets ttl_ms)) w in
      elim (done.0 >>= λ value. validate_store_reserve_result value request units budgets) [
        | ok answer ↦ admit_answer ttl_ms answer done.1
        | throw e ↦ (
          throw e,
          emit_error now metadata Phase.reserve Source.store none (request_identity request) e
              done.1,
        )
      ]

  -- What follows a checked quote.
  unfoldable pub admit_quote :
      ℕ → NormalizedUsagePolicyQuote → World S → Result AdmissionResult × World S
  unfolding reserve_in_store request_identity
  admit_quote default_ms (NormalizedUsagePolicyQuote.deny reason) w = (
    ok (AdmissionResult.denied reason none none),
    emit_usage_event
        (reserve_denied (record { timestamp = now; metadata = metadata }) (request_identity request)
          (record {
            reason = reason;
            limiting_dimension_key = none;
            limiting_budget_key = none;
            remaining = none;
          }))
        w,
  )
  admit_quote default_ms (NormalizedUsagePolicyQuote.allow units budgets quoted) w =
      elim (assert_positive_integer (nat (get_or quoted default_ms))) [
        | throw e ↦ (throw e, w)
        | ok ttl_ms ↦ reserve_in_store units budgets ttl_ms w
      ]

-- `policy` is the policy's answer to the request.
unfoldable pub reserve :
    ⦃c : Collation⦄
    → {S : Type 0} → UsageStore S
    → (UsageRequest → Result UsagePolicyAnswer)
    → UsageControl
    → ℕ
    → UsageRequest
    → World S
    → Result AdmissionResult × World S
unfolding admit_quote request_identity emit_error
reserve store policy control now request w = elim (validate_usage_request_envelope request) [
  | throw e ↦ (throw e, w)
  | ok _ ↦
      (let metadata = resolve_metadata control.metadata request in
        elim (policy request >>= normalize_usage_policy_quote) [
          | ok quote ↦
              admit_quote store now metadata request control.default_reservation_ttl_ms quote w
          | throw e ↦ (
            throw e,
            emit_error now metadata Phase.quote Source.policy none (request_identity request) e w,
          )
        ])
]
