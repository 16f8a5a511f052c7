-- ===== src/Client.antt =====
-- The client of a usage store in packages/core/src/index.ts: what it asks of a store, and what a call
-- leaves behind. A store is any state with the operations of `UsageStore`.
pub mod Quotes
pub mod Requests
pub mod Lease
pub mod VectorLease
pub mod Control
pub mod VectorControl
pub mod OverMemory
use mcp_usage_control.Base.{
  ℕ, Bool, true, false, List, [], ◌∷◌, ◌++◌, String, Option, none, some, is_some, Result, ok, throw,
  Failure, range_error, type_error, state_error, capacity_error, other_error, get_or,
}
use mcp_usage_control.Number.{Number}
use mcp_usage_control.Types.{
  ReserveInput, GrowReservationInput, VectorReserveInput, VectorGrowReservationInput,
  MarkLiableResult, RenewInput, RenewResult, SettleInput, SettlementResult, VectorSettleInput,
  VectorSettlementResult, UsageRequest,
}
use mcp_usage_control.Value.{Value}
use mcp_usage_control.Events.{
  UsageEvent, UsageEventMetadata, RequestIdentity, Phase, Source, operation_error, EventBase,
  usage_error_name,
}

-- The optional operations of a `VectorUsageStore`.
pub record VectorOperations (S : Type 0) : Type 0 where
  pub reserve_vector : VectorReserveInput → S → Result Value × S
  pub grow_vector_reservation : VectorGrowReservationInput → S → Result Value × S
  pub settle_vector : VectorSettleInput → S → Result VectorSettlementResult × S

-- An operation answers or throws, and leaves a new state either way. What the client checks is any
-- value. The growth and the vector operations may be missing.
pub record UsageStore (S : Type 0) : Type 0 where
  pub reserve : ReserveInput → S → Result Value × S
  pub mark_liable : String → S → Result MarkLiableResult × S
  pub renew : RenewInput → S → Result RenewResult × S
  pub settle : SettleInput → S → Result SettlementResult × S
  pub grow_reservation : Option (GrowReservationInput → S → Result Value × S)
  pub vector : Option (VectorOperations S)

-- The store's state and what the observer has been handed, the last event first.
pub record World (S : Type 0) : Type 0 where
  pub store : S
  pub events : List UsageEvent

module _ {S : Type 0} where
  abbrev pub emit_usage_event : UsageEvent → World S → World S
  emit_usage_event event w = record w { events = event ∷ w.events }

  -- Runs an operation of the store.
  abbrev pub call : {A : Type 0} → (S → Result A × S) → World S → Result A × World S
  call f w = let done = f w.store in (done.0, record w { store = done.1 })

  -- The event of a failed call.
  unfoldable pub emit_error :
      ℕ
      → Option UsageEventMetadata
      → Phase
      → Source
      → Option String
      → RequestIdentity
      → Failure
      → World S
      → World S
  emit_error now metadata phase source reservation_id identity e w =
      emit_usage_event
        (operation_error (record { timestamp = now; metadata = metadata }) (some identity)
          (record {
            phase = phase;
            source = source;
            reservation_id = reservation_id;
            error_name = usage_error_name e;
          }))
        w

-- `error instanceof UsageStateError`; a capacity error is one.
unfoldable pub is_usage_state_error : Failure → Bool
is_usage_state_error range_error = false
is_usage_state_error type_error = false
is_usage_state_error (state_error conflict) = true
is_usage_state_error (capacity_error resource limit) = true
is_usage_state_error (other_error name) = false

-- `metadata` of the options: absent, fixed, or a function that may throw.
pub data MetadataSource : Type 0 where
  no_metadata : MetadataSource
  fixed : UsageEventMetadata → MetadataSource
  from_request : (UsageRequest → Result (Option UsageEventMetadata)) → MetadataSource

abbrev unless_thrown : Result (Option UsageEventMetadata) → Option UsageEventMetadata
unless_thrown (ok metadata) = metadata
unless_thrown (throw e) = none

unfoldable pub resolve_metadata : MetadataSource → UsageRequest → Option UsageEventMetadata
resolve_metadata no_metadata request = none
resolve_metadata (fixed metadata) request = some metadata
resolve_metadata (from_request f) request = unless_thrown (f request)
