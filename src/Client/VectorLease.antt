-- ===== src/Client/VectorLease.antt =====
-- `VectorUsageLease` of packages/core/src/index.ts, with `grow` cut at its `await` as in Client/Lease.
use mcp_usage_control.Base.{
  ℕ, Bool, false, List, [], ◌∷◌, map, String, Option, none, some, is_some, get_or, not, Result, ok,
  throw, throw_if, Failure, state_error, unresolved_growth, unsupported_store, dimension_mismatch,
  ◌>>=◌, ◌>>◌, if◌then◌else◌,
}
use mcp_usage_control.Number.{Number, nat, assert_positive_integer}
use mcp_usage_control.Types.{
  VectorReservationRecord, VectorReservationDimension, UsageDimensionReserved, UsageDimensionActual,
  ActualInput, VectorGrowReservationInput, StoreVectorGrowResult, VectorSettleInput,
  VectorSettlementResult, MarkLiableResult, RenewResult,
}
use mcp_usage_control.Collation.{Collation}
use mcp_usage_control.Dimensions.{canonicalize_vector_actuals}
use mcp_usage_control.Records.{clone_vector_reservation_record}
use mcp_usage_control.Value.{Value}
use mcp_usage_control.Events.{
  UsageEventMetadata, Phase, Source, vector_settlement_completed, vector_reservation_identity,
}
use mcp_usage_control.Answers.{last_by}
use mcp_usage_control.Answers.Vector.{
  VectorGrowthRequest, validate_store_vector_growth_result, as_reserved, reserved_dimension_key,
}
use mcp_usage_control.Client.{
  UsageStore, World, emit_usage_event, call, emit_error, is_usage_state_error,
}
use mcp_usage_control.Client.Requests.{
  VectorReservationGrowthRequest, canonicalize_vector_growth_request, clone_vector_growth_request,
  same_vector_growth_request, as_growth,
}
use mcp_usage_control.Client.Lease.{required_cursor}

pub record VectorUsageLease : Type 0 where
  pub reservation : VectorReservationRecord
  pub ttl_ms : ℕ
  pub metadata : Option UsageEventMetadata
  pub unresolved_growth : Option VectorGrowthRequest

pub record VectorUsageLeaseResumeState : Type 0 where
  pub reservation : VectorReservationRecord
  pub ttl_ms : Number
  pub metadata : Option UsageEventMetadata
  pub unresolved_growth : Option VectorReservationGrowthRequest

unfoldable pub reserved_by_dimension : VectorUsageLease → List UsageDimensionReserved
reserved_by_dimension lease = map as_reserved lease.reservation.dimensions

unfoldable pub canonical_unresolved :
    ⦃c : Collation⦄ → Option VectorReservationGrowthRequest → Result (Option VectorGrowthRequest)
canonical_unresolved none = ok none
canonical_unresolved (some g) =
    canonicalize_vector_growth_request g >>= λ request. ok (some request)

-- The constructor.
unfoldable pub new_vector_usage_lease :
    ⦃c : Collation⦄
    → VectorReservationRecord
    → ℕ
    → Option UsageEventMetadata
    → Option VectorReservationGrowthRequest
    → Result VectorUsageLease
unfolding canonical_unresolved
new_vector_usage_lease reservation ttl_ms metadata unresolved = do
  request ← canonical_unresolved unresolved
  ok (record {
    reservation = reservation;
    ttl_ms = ttl_ms;
    metadata = metadata;
    unresolved_growth = request;
  })

abbrev cloned_unresolved : Option VectorGrowthRequest → Option VectorReservationGrowthRequest
cloned_unresolved none = none
cloned_unresolved (some g) = some (clone_vector_growth_request g)

unfoldable pub to_resume_state :
    ⦃c : Collation⦄ → VectorUsageLease → Result VectorUsageLeaseResumeState
unfolding clone_vector_growth_request
to_resume_state lease = do
  reservation ← clone_vector_reservation_record lease.reservation
  ok (record {
    reservation = reservation;
    ttl_ms = nat lease.ttl_ms;
    metadata = lease.metadata;
    unresolved_growth = cloned_unresolved lease.unresolved_growth;
  })

-- An unresolved request that is not this one.
abbrev is_unresolved_other : Option VectorGrowthRequest → VectorGrowthRequest → Bool
is_unresolved_other none request = false
is_unresolved_other (some pinned) request = not (same_vector_growth_request pinned request)

-- `grow` up to its call of the store, which may be no vector store.
unfoldable pub begin_growth :
    ⦃c : Collation⦄
    → Bool
    → VectorUsageLease
    → VectorReservationGrowthRequest
    → Result (VectorGrowthRequest × String)
begin_growth is_vector lease input = do
  request ← canonicalize_vector_growth_request input
  throw_if (is_unresolved_other lease.unresolved_growth request) (state_error unresolved_growth)
  throw_if (not is_vector) (state_error unsupported_store)
  cursor ← required_cursor lease.reservation.growth_cursor
  ok (request, cursor)

unfoldable pub growth_input :
    VectorUsageLease → VectorGrowthRequest → String → VectorGrowReservationInput
growth_input lease request cursor = record {
  reservation_id = lease.reservation.id;
  increment_id = request.increment_id;
  expected_growth_cursor = cursor;
  dimensions = map as_growth request.dimensions;
}

abbrev pub with_unresolved : Option VectorGrowthRequest → VectorUsageLease → VectorUsageLease
with_unresolved unresolved lease = record lease { unresolved_growth = unresolved }

-- The loop that writes the units of each dimension. A dimension that the answer omits ends it, and
-- the writes before it stay.
unfoldable pub write_units :
    List UsageDimensionReserved
    → List VectorReservationDimension
    → Result (Unit {0}) × List VectorReservationDimension
write_units answered [] = (ok tt, [])
write_units answered (d ∷ ds) = elim (last_by reserved_dimension_key d.key answered) [
  | none ↦ (throw (state_error dimension_mismatch), d ∷ ds)
  | some found ↦
      (let rest = write_units answered ds in
        (rest.0, record d { reserved_units = found.reserved_units } ∷ rest.1))
]

abbrev with_cursor : String → VectorReservationRecord → VectorReservationRecord
with_cursor cursor r = record r { growth_cursor = some cursor }

-- What an answer writes to the reservation, and whether that throws.
unfoldable pub apply_growth :
    StoreVectorGrowResult → VectorReservationRecord → Result (Unit {0}) × VectorReservationRecord
unfolding write_units
apply_growth (StoreVectorGrowResult.denied r) reservation =
    (ok tt, with_cursor r.growth_cursor reservation)
apply_growth (StoreVectorGrowResult.accepted r) reservation =
    let written = write_units r.reserved_by_dimension reservation.dimensions in
    (written.0, record (with_cursor r.growth_cursor reservation) { dimensions = written.1 })

-- A failure inside `grow`'s `try`.
abbrev failed_growth : Failure → VectorUsageLease → Result StoreVectorGrowResult × VectorUsageLease
failed_growth e lease =
    (throw e, if is_usage_state_error e then with_unresolved none lease else lease)

-- `grow` from the store's answer on.
unfoldable pub end_growth :
    VectorGrowthRequest
    → Result Value
    → VectorUsageLease
    → Result StoreVectorGrowResult × VectorUsageLease
unfolding apply_growth
end_growth request answer lease =
    elim (answer >>= λ value. validate_store_vector_growth_result value lease.reservation request) [
      | throw e ↦ failed_growth e lease
      | ok result ↦
          (let applied = apply_growth result lease.reservation in
            let written = record lease { reservation = applied.1 } in
            elim applied.0 [
              | throw e ↦ failed_growth e written
              | ok _ ↦ (ok result, with_unresolved none written)
            ])
    ]

-- The operations that are called, or a failure where the store lacks them.
abbrev grow_operation :
    {S : Type 0} → UsageStore S → VectorGrowReservationInput → S → Result Value × S
grow_operation store input s = elim store.vector [
  | none ↦ (throw (state_error unsupported_store), s)
  | some operations ↦ operations.grow_vector_reservation input s
]

abbrev settle_operation :
    {S : Type 0} → UsageStore S → VectorSettleInput → S → Result VectorSettlementResult × S
settle_operation store input s = elim store.vector [
  | none ↦ (throw (state_error unsupported_store), s)
  | some operations ↦ operations.settle_vector input s
]

abbrev as_actual : UsageDimensionActual → ActualInput
as_actual a = record { key = a.key; actual_units = nat a.actual_units }

module _ {S : Type 0} (store : UsageStore S) where
  unfoldable pub grow :
      ⦃c : Collation⦄
      → VectorReservationGrowthRequest
      → VectorUsageLease
      → World S
      → Result StoreVectorGrowResult × VectorUsageLease × World S
  unfolding begin_growth growth_input end_growth
  grow input lease w = elim (begin_growth (is_some store.vector) lease input) [
    | throw e ↦ (throw e, lease, w)
    | ok begun ↦
        (let done = call (grow_operation store (growth_input lease begun.0 begun.1)) w in
          let finished = end_growth begun.0 done.0 (with_unresolved (some begun.0) lease) in
          (finished.0, finished.1, done.1))
  ]

  abbrev expire_at : ℕ → VectorUsageLease → VectorUsageLease
  expire_at at lease = record lease { reservation = record lease.reservation { expires_at = at } }

  -- The event of a failed operation on the lease.
  abbrev lease_error : ℕ → Phase → Failure → VectorUsageLease → World S → World S
  lease_error now phase e lease w =
      emit_error now lease.metadata phase Source.store (some lease.reservation.id)
        (vector_reservation_identity lease.reservation) e w

  unfoldable pub mark_liable :
      ℕ → VectorUsageLease → World S → Result MarkLiableResult × VectorUsageLease × World S
  unfolding emit_error vector_reservation_identity
  mark_liable now lease w =
      let done = call (store.mark_liable lease.reservation.id) w in
      elim done.0 [
        | ok marked ↦ (ok marked, expire_at marked.expires_at lease, done.1)
        | throw e ↦ (throw e, lease, lease_error now Phase.mark_liable e lease done.1)
      ]

  -- Without an argument, the lifetime is the lease's.
  unfoldable pub renew :
      ℕ
      → Option Number
      → VectorUsageLease
      → World S
      → Result RenewResult × VectorUsageLease × World S
  unfolding emit_error vector_reservation_identity
  renew now requested lease w =
      elim (assert_positive_integer (get_or requested (nat lease.ttl_ms))) [
        | throw e ↦ (throw e, lease, w)
        | ok ttl_ms ↦
            (let done =
                call
                  (store.renew
                    (record { reservation_id = lease.reservation.id; ttl_ms = nat ttl_ms }))
                  w in
              elim done.0 [
                | ok renewed ↦ (ok renewed, expire_at renewed.expires_at lease, done.1)
                | throw e ↦ (throw e, lease, lease_error now Phase.renew e lease done.1)
              ])
      ]

  unfoldable pub settle :
      ⦃c : Collation⦄
      → ℕ
      → List ActualInput
      → String
      → VectorUsageLease
      → World S
      → Result VectorSettlementResult × World S
  unfolding emit_error vector_reservation_identity
  settle now actuals outcome lease w =
      if not (is_some store.vector)
      then (throw (state_error unsupported_store), w)
      else elim (canonicalize_vector_actuals actuals lease.reservation.dimensions) [
        | throw e ↦ (throw e, w)
        | ok actual ↦
            (let done =
                call
                  (settle_operation store (record {
                    reservation_id = lease.reservation.id;
                    actual_by_dimension = map as_actual actual;
                    outcome = outcome;
                  }))
                  w in
              elim done.0 [
                | throw e ↦ (throw e, lease_error now Phase.settle e lease done.1)
                | ok s ↦ (
                  ok s,
                  emit_usage_event
                      (vector_settlement_completed
                        (record { timestamp = now; metadata = lease.metadata })
                        (vector_reservation_identity lease.reservation)
                        (record {
                          reservation_id = lease.reservation.id;
                          dimensions = s.dimensions;
                          outcome = s.outcome;
                        }))
                      done.1,
                )
              ])
      ]
