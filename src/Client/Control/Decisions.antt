-- ===== src/Client/Control/Decisions.antt =====
-- What an admission through `UsageControl` may end with, on any store and under any policy.
use mcp_usage_control.Base.{
  ℕ, ◌≡◌, refl, ap, ◌⊎◌, inl, inr, List, Option, none, get_or, Result-cases, Result, ok, throw,
  ◌>>=◌, >>=-eq-ok,
}
use mcp_usage_control.Number.{nat, assert_positive_integer, assert_positive_integer_bound}
use mcp_usage_control.Types.{UsageRequest, CanonicalBudget}
use mcp_usage_control.Collation.{Collation}
use mcp_usage_control.Input.{validate_usage_request_envelope}
use mcp_usage_control.Events.{UsageEventMetadata}
use mcp_usage_control.Answers.Scalar.{ReserveAnswer, validate_store_reserve_result}
use mcp_usage_control.Answers.Sound.{
  IsReserved, IsReserveAnswer, validate_store_reserve_result-IsReserveAnswer,
}
use mcp_usage_control.Client.{UsageStore, World, call, resolve_metadata}
use mcp_usage_control.Client.Quotes.{
  UsagePolicyAnswer, NormalizedUsagePolicyQuote, normalize_usage_policy_quote,
}
use mcp_usage_control.Client.Control.{
  UsageControl, AdmissionResult, as_reserve_input, admit_answer, reserve_in_store, admit_quote,
  reserve,
}

module _ {S : Type 0} (store : UsageStore S) (request : UsageRequest) (default_ms : ℕ)
    (w : World S) where
  -- What one call of the store's `reserve` leaves.
  abbrev pub reserved_state : ℕ → List CanonicalBudget → Option ℕ → S
  reserved_state units budgets quoted =
      (store.reserve (as_reserve_input request units budgets (get_or quoted default_ms)) w.store).1

  -- Given the normalised quote. An admission makes one call, with the units and budgets of the
  -- quote, and its lease holds exactly what was quoted. A refusal or a failure makes that call or
  -- none.
  abbrev pub IsDecision : NormalizedUsagePolicyQuote → Result AdmissionResult × World S → Type 0
  IsDecision (NormalizedUsagePolicyQuote.deny reason) (ok (AdmissionResult.allowed l b), w') = ⊥
  IsDecision (NormalizedUsagePolicyQuote.deny reason) (ok (AdmissionResult.denied r k n), w') =
      (r ≡ reason) × (k ≡ none) × (n ≡ none) × (w'.store ≡ w.store)
  IsDecision (NormalizedUsagePolicyQuote.deny reason) (throw e, w') = ⊥
  IsDecision (NormalizedUsagePolicyQuote.allow units budgets quoted)
        (ok (AdmissionResult.allowed lease balances), w') =
      (w'.store ≡ reserved_state units budgets quoted)
      × IsReserved request units budgets lease.reservation balances
      × (lease.ttl_ms ≡ get_or quoted default_ms)
      × (lease.unresolved_growth ≡ none)
  IsDecision (NormalizedUsagePolicyQuote.allow units budgets quoted)
        (ok (AdmissionResult.denied r k n), w') =
      w'.store ≡ reserved_state units budgets quoted
  IsDecision (NormalizedUsagePolicyQuote.allow units budgets quoted) (throw e, w') =
      (w'.store ≡ w.store) ⊎ (w'.store ≡ reserved_state units budgets quoted)

  module _ (now : ℕ) (metadata : Option UsageEventMetadata) where
    answered-IsDecision :
        (units ttl_ms : ℕ) (budgets : List CanonicalBudget) (quoted : Option ℕ)
        (answer : ReserveAnswer) (w' : World S)
        → ttl_ms ≡ get_or quoted default_ms
        → w'.store ≡ reserved_state units budgets quoted
        → IsReserveAnswer request units budgets answer
        → IsDecision
            (NormalizedUsagePolicyQuote.allow units budgets quoted)
            (admit_answer store now metadata request ttl_ms answer w')
    unfolding admit_answer
    answered-IsDecision units ttl_ms budgets quoted (ReserveAnswer.accepted r b) w' same e h =
        (e, h, same, refl)
    answered-IsDecision units ttl_ms budgets quoted (ReserveAnswer.rejected d) w' same e h = e

    stored-IsDecision :
        (units ttl_ms : ℕ) (budgets : List CanonicalBudget) (quoted : Option ℕ)
        → ttl_ms ≡ get_or quoted default_ms
        → IsDecision
            (NormalizedUsagePolicyQuote.allow units budgets quoted)
            (reserve_in_store store now metadata request units budgets ttl_ms w)
    unfolding reserve_in_store
    stored-IsDecision units ttl_ms budgets quoted same =
        let done = call (store.reserve (as_reserve_input request units budgets ttl_ms)) w in
        let e : done.1.store ≡ reserved_state units budgets quoted =
          ap (λ t. (store.reserve (as_reserve_input request units budgets t) w.store).1) same in
        elim (Result-cases
          (done.0 >>= λ value. validate_store_reserve_result value request units budgets)) [
            | inr (failure, bad) ↦ rw (bad, reserve_in_store) (inr e)
            | inl (answer, good) ↦
                (let (value, _, valid) = >>=-eq-ok done.0 _ good in
                  rw (good, reserve_in_store)
                    (answered-IsDecision units ttl_ms budgets quoted answer done.1 same e (
                      validate_store_reserve_result-IsReserveAnswer value request units budgets
                        answer valid)))
          ]

    quoted-IsDecision :
        (quote : NormalizedUsagePolicyQuote)
        → IsDecision quote (admit_quote store now metadata request default_ms quote w)
    unfolding admit_quote
    quoted-IsDecision (NormalizedUsagePolicyQuote.deny reason) = (refl, refl, refl, refl)
    quoted-IsDecision (NormalizedUsagePolicyQuote.allow units budgets quoted) =
        elim (Result-cases (assert_positive_integer (nat (get_or quoted default_ms)))) [
          | inr (e, bad) ↦ rw (bad, admit_quote) (inl refl)
          | inl (ttl_ms, good) ↦
              (let (same, _, _) =
                  assert_positive_integer_bound (nat (get_or quoted default_ms)) ttl_ms good in
                let e : ttl_ms ≡ get_or quoted default_ms = cc in
                rw (good, admit_quote) (stored-IsDecision units ttl_ms budgets quoted e))
        ]

-- On any store: where the request passes its checks and the policy's answer is a valid quote,
-- `UsageControl.reserve` decides by the quote. A denial by the policy is passed on and the store is
-- not called. Otherwise an admission has called the store's `reserve` once, with the quoted units,
-- budgets and lifetime; its lease holds exactly the quoted units and budget keys for exactly the
-- identity of the request, and no growth of it is pending. A refusal has made the same call, and a
-- failure that call or none.
pub reserve-IsDecision :
    ⦃c : Collation⦄ {S : Type 0} (store : UsageStore S)
    (policy : UsageRequest → Result UsagePolicyAnswer) (control : UsageControl) (now : ℕ)
    (request : UsageRequest) (w : World S) (quote : NormalizedUsagePolicyQuote)
    → validate_usage_request_envelope request ≡ ok tt
    → (policy request >>= normalize_usage_policy_quote) ≡ ok quote
    → IsDecision store request control.default_reservation_ttl_ms w quote
        (reserve store policy control now request w)
unfolding reserve
reserve-IsDecision store policy control now request w quote valid quoted =
    rw (valid, reserve)
      (rw (quoted, reserve)
        (quoted-IsDecision store request control.default_reservation_ttl_ms w now
          (resolve_metadata control.metadata request) quote))
