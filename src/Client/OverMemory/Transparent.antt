-- ===== src/Client/OverMemory/Transparent.antt =====
-- The client over a `MemoryUsageStore`, with and without its checks of the store's answers.
use mcp_usage_control.Base.{ℕ, ◌≡◌, refl, ap, List, String, Option, none, Result, ok, throw}
use mcp_usage_control.Types.{UsageRequest, CanonicalBudget, StoreReserveResult}
use mcp_usage_control.Collation.{Collation, IsStrictOn}
use mcp_usage_control.Events.{UsageEventMetadata, Phase, Source, request_identity}
use mcp_usage_control.Memory.State.{MemoryUsageStore}
use mcp_usage_control.Memory.Scalar
use mcp_usage_control.Answers.Encoding.{of_reserve_result}
use mcp_usage_control.Client.{World, emit_error}
use mcp_usage_control.Client.Quotes.{
  UsagePolicyAnswer, NormalizedUsagePolicyQuote, normalize_usage_policy_quote,
}
use mcp_usage_control.Client.Quotes.Checked.{
  quoted_keys, normalize_usage_policy_quote-IsNormalQuote, normalize_usage_policy_quote-Unique,
}
use mcp_usage_control.Client.Control.{
  AdmissionResult, as_reserve_input, admit_answer, reserve_in_store,
}
use mcp_usage_control.Client.OverMemory.{memory_usage_store, answered}
use mcp_usage_control.Client.OverMemory.Answered.{read_answer, IsAnswered, reserve-IsAnswered}

module _ ⦃c : Collation⦄ (now : ℕ) (uuid : String) (metadata : Option UsageEventMetadata)
    (request : UsageRequest) where
  -- An admission without the checks: the event and the answer follow the store's decision.
  abbrev pub unchecked :
      ℕ
      → World MemoryUsageStore
      → Result StoreReserveResult × MemoryUsageStore
      → Result AdmissionResult × World MemoryUsageStore
  unchecked ttl_ms w (ok answer, s) =
      admit_answer (memory_usage_store now uuid) now metadata request ttl_ms (read_answer answer)
        (record w { store = s })
  unchecked ttl_ms w (throw e, s) = (
    throw e,
    emit_error now metadata Phase.reserve Source.store none (request_identity request) e
        (record w { store = s }),
  )

  decided :
      (units ttl_ms : ℕ) (budgets : List CanonicalBudget) (w : World MemoryUsageStore)
      (x : Result StoreReserveResult × MemoryUsageStore)
      → Scalar.reserve now uuid (as_reserve_input request units budgets ttl_ms) w.store ≡ x
      → IsAnswered request units budgets x
      → reserve_in_store (memory_usage_store now uuid) now metadata request units budgets ttl_ms w
        ≡ unchecked ttl_ms w x
  unfolding reserve_in_store
  decided units ttl_ms budgets w (ok answer, s) e valid =
      rw (e, reserve_in_store)
        (rw valid (
          ap
            (λ y.
              admit_answer (memory_usage_store now uuid) now metadata request ttl_ms
                (read_answer answer) (record w { store = (answered of_reserve_result y).1 }))
            e))
  decided units ttl_ms budgets w (throw failure, s) e valid =
      rw (e, reserve_in_store)
        (ap
          (λ y. (
            throw failure,
            emit_error now metadata Phase.reserve Source.store none (request_identity request)
                failure (record w { store = (answered of_reserve_result y).1 }),
          ))
          e)

  -- Where of the keys that a policy quotes only equal ones compare equal: on a memory store, the
  -- admission of its normalised quote is what the store's `reserve` decides on it, without the
  -- checks of the answer.
  pub reserve_in_store-unchecked :
      (policy : UsagePolicyAnswer) (units ttl_ms : ℕ) (budgets : List CanonicalBudget)
      (quoted : Option ℕ) (w : World MemoryUsageStore)
      → IsStrictOn c (quoted_keys policy)
      → normalize_usage_policy_quote policy
        ≡ ok (NormalizedUsagePolicyQuote.allow units budgets quoted)
      → reserve_in_store (memory_usage_store now uuid) now metadata request units budgets ttl_ms w
        ≡ unchecked ttl_ms w
            (Scalar.reserve now uuid (as_reserve_input request units budgets ttl_ms) w.store)
  reserve_in_store-unchecked policy units ttl_ms budgets quoted w strict h =
      let normal =
        normalize_usage_policy_quote-IsNormalQuote policy
          (NormalizedUsagePolicyQuote.allow units budgets quoted) h in
      let (canonical, unique) =
        normalize_usage_policy_quote-Unique policy units budgets quoted strict normal in
      decided units ttl_ms budgets w
        (Scalar.reserve now uuid (as_reserve_input request units budgets ttl_ms) w.store) refl
        (reserve-IsAnswered now uuid request units ttl_ms budgets w.store unique canonical)
