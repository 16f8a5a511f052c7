-- ===== src/Client/VectorControl.antt =====
-- `VectorUsageControl` of packages/core/src/index.ts: admission of a vector by a policy and a store,
-- and the resumption of its lease.
use mcp_usage_control.Base.{
  ℕ, List, map, String, Option, none, some, get_or, is_some, not, Result, ok, throw, throw_if,
  state_error, unsupported_store, ◌>>=◌, ◌>>◌, if◌then◌else◌,
}
use mcp_usage_control.Number.{nat, assert_positive_integer}
use mcp_usage_control.Types.{
  UsageRequest, Demand, VectorBudgetRemaining, VectorReserveInput, VectorReservationRecord,
}
use mcp_usage_control.Collation.{Collation}
use mcp_usage_control.Input.{validate_usage_request_envelope}
use mcp_usage_control.Records.{clone_vector_reservation_record}
use mcp_usage_control.Value.{Value}
use mcp_usage_control.Events.{
  UsageEventMetadata, Phase, Source, vector_reserve_accepted, vector_reserve_denied,
  request_identity,
}
use mcp_usage_control.Answers.Vector.{VectorReserveAnswer, validate_store_vector_reserve_result}
use mcp_usage_control.Client.{
  UsageStore, World, emit_usage_event, call, emit_error, resolve_metadata,
}
use mcp_usage_control.Client.Quotes.{
  VectorUsagePolicyAnswer, NormalizedVectorQuote, normalize_vector_usage_policy_quote,
}
use mcp_usage_control.Client.Requests.{as_dimension}
use mcp_usage_control.Client.VectorLease.{
  VectorUsageLease, VectorUsageLeaseResumeState, new_vector_usage_lease,
}
use mcp_usage_control.Client.Control.{UsageControl, reason_text}

unfoldable pub resume_lease :
    ⦃c : Collation⦄
    → {S : Type 0} → UsageStore S
    → VectorUsageLeaseResumeState
    → Result VectorUsageLease
resume_lease store state = do
  throw_if (not (is_some store.vector)) (state_error unsupported_store)
  ttl_ms ← assert_positive_integer state.ttl_ms
  reservation ← clone_vector_reservation_record state.reservation
  new_vector_usage_lease reservation ttl_ms state.metadata state.unresolved_growth

pub data VectorAdmissionResult : Type 0 where
  allowed : VectorUsageLease → List VectorBudgetRemaining → VectorAdmissionResult
  denied : String → Option String → Option String → Option ℕ → VectorAdmissionResult

abbrev reserve_operation : {S : Type 0} → UsageStore S → VectorReserveInput → S → Result Value × S
reserve_operation store input s = elim store.vector [
  | none ↦ (throw (state_error unsupported_store), s)
  | some operations ↦ operations.reserve_vector input s
]

abbrev as_reserve_input : UsageRequest → List Demand → ℕ → VectorReserveInput
as_reserve_input request demands ttl_ms = record {
  request = request;
  dimensions = map as_dimension demands;
  ttl_ms = nat ttl_ms;
}

abbrev pub fresh_lease : VectorReservationRecord → ℕ → Option UsageEventMetadata → VectorUsageLease
fresh_lease reservation ttl_ms metadata = record {
  reservation = reservation;
  ttl_ms = ttl_ms;
  metadata = metadata;
  unresolved_growth = none;
}

module _ {S : Type 0} (store : UsageStore S) (now : ℕ) (metadata : Option UsageEventMetadata)
    (request : UsageRequest) where
  -- What follows a checked answer of the store.
  unfoldable pub admit_answer :
      ℕ → VectorReserveAnswer → World S → Result VectorAdmissionResult × World S
  unfolding request_identity
  admit_answer ttl_ms (VectorReserveAnswer.rejected d) w = (
    ok (
        VectorAdmissionResult.denied (reason_text d.reason) d.limiting_dimension_key
          d.limiting_budget_key d.remaining),
    emit_usage_event
        (vector_reserve_denied (record { timestamp = now; metadata = metadata })
          (request_identity request)
          (record {
            reason = reason_text d.reason;
            limiting_dimension_key = d.limiting_dimension_key;
            limiting_budget_key = d.limiting_budget_key;
            remaining = d.remaining;
          }))
        w,
  )
  admit_answer ttl_ms (VectorReserveAnswer.accepted reservation balances) w = (
    ok (VectorAdmissionResult.allowed (fresh_lease reservation ttl_ms metadata) balances),
    emit_usage_event
        (vector_reserve_accepted (record { timestamp = now; metadata = metadata })
          (request_identity request)
          (record {
            reservation_id = reservation.id;
            dimensions = reservation.dimensions;
            remaining_by_budget = balances;
          }))
        w,
  )

  -- The store's part of an admission.
  unfoldable pub reserve_in_store :
      List Demand → ℕ → World S → Result VectorAdmissionResult × World S
  unfolding admit_answer request_identity emit_error
  reserve_in_store demands ttl_ms w =
      let done = call (reserve_operation store (as_reserve_input request demands ttl_ms)) w in
      elim (done.0 >>= λ value. validate_store_vector_reserve_result value request demands) [
        | ok answer ↦ admit_answer ttl_ms answer done.1
        | throw e ↦ (
          throw e,
          emit_error now metadata Phase.reserve Source.store none (request_identity request) e
              done.1,
        )
      ]

  -- What follows a checked quote.
  unfoldable pub admit_quote :
      ℕ → NormalizedVectorQuote → World S → Result VectorAdmissionResult × World S
  unfolding reserve_in_store request_identity
  admit_quote default_ms (NormalizedVectorQuote.deny reason) w = (
    ok (VectorAdmissionResult.denied reason none none none),
    emit_usage_event
        (vector_reserve_denied (record { timestamp = now; metadata = metadata })
          (request_identity request)
          (record {
            reason = reason;
            limiting_dimension_key = none;
            limiting_budget_key = none;
            remaining = none;
          }))
        w,
  )
  admit_quote default_ms (NormalizedVectorQuote.allow demands quoted) w =
      elim (assert_positive_integer (nat (get_or quoted default_ms))) [
        | throw e ↦ (throw e, w)
        | ok ttl_ms ↦ reserve_in_store demands ttl_ms w
      ]

-- `policy` is the policy's answer to the request.
unfoldable pub reserve :
    ⦃c : Collation⦄
    → {S : Type 0} → UsageStore S
    → (UsageRequest → Result VectorUsagePolicyAnswer)
    → UsageControl
    → ℕ
    → UsageRequest
    → World S
    → Result VectorAdmissionResult × World S
unfolding admit_quote request_identity emit_error
reserve store policy control now request w = elim (validate_usage_request_envelope request) [
  | throw e ↦ (throw e, w)
  | ok _ ↦
      if not (is_some store.vector)
      then (throw (state_error unsupported_store), w)
      else (let metadata = resolve_metadata control.metadata request in
          elim (policy request >>= normalize_vector_usage_policy_quote) [
            | ok quote ↦
                admit_quote store now metadata request control.default_reservation_ttl_ms quote w
            | throw e ↦ (
              throw e,
              emit_error now metadata Phase.quote Source.policy none (request_identity request) e w,
            )
          ])
]
