-- ===== src/Client/Lease.antt =====
-- `UsageLease` of packages/core/src/index.ts. `grow` is cut at its `await`: what it does before
-- the store is called, and what it does with the store's answer.
pub mod Pinning
pub mod Resuming
use mcp_usage_control.Base.{
  get_or, map, ℕ, Bool, true, false, String, Option, none, some, is_some, not, Result, ok, throw,
  throw_if, Failure, state_error, unresolved_growth, unsupported_store, no_growth_support, ◌>>=◌,
  ◌>>◌, if◌then◌else◌,
}
use mcp_usage_control.Number.{Number, nat, assert_positive_integer}
use mcp_usage_control.Types.{
  ReservationRecord, GrowReservationInput, StoreGrowResult, MarkLiableResult, RenewResult,
  SettlementResult,
}
use mcp_usage_control.Collation.{Collation}
use mcp_usage_control.Records.{is_blank, clone_reservation_record}
use mcp_usage_control.Value.{Value}
use mcp_usage_control.Events.{
  UsageEventMetadata, Phase, Source, settlement_completed, reservation_identity,
}
use mcp_usage_control.Answers.Scalar.{GrowthRequest, validate_store_growth_result}
use mcp_usage_control.Client.{
  UsageStore, World, emit_usage_event, call, emit_error, is_usage_state_error,
}
use mcp_usage_control.Client.Requests.{
  ReservationGrowthRequest, canonicalize_growth_request, clone_growth_request, same_growth_request,
  as_budget,
}

pub record UsageLease : Type 0 where
  pub reservation : ReservationRecord
  pub ttl_ms : ℕ
  pub metadata : Option UsageEventMetadata
  pub unresolved_growth : Option GrowthRequest

pub record UsageLeaseResumeState : Type 0 where
  pub reservation : ReservationRecord
  pub ttl_ms : Number
  pub metadata : Option UsageEventMetadata
  pub unresolved_growth : Option ReservationGrowthRequest

unfoldable pub canonical_unresolved :
    ⦃c : Collation⦄ → Option ReservationGrowthRequest → Result (Option GrowthRequest)
canonical_unresolved none = ok none
canonical_unresolved (some g) = canonicalize_growth_request g >>= λ request. ok (some request)

-- The constructor.
unfoldable pub new_usage_lease :
    ⦃c : Collation⦄
    → ReservationRecord
    → ℕ
    → Option UsageEventMetadata
    → Option ReservationGrowthRequest
    → Result UsageLease
unfolding canonical_unresolved
new_usage_lease reservation ttl_ms metadata unresolved = do
  request ← canonical_unresolved unresolved
  ok (record {
    reservation = reservation;
    ttl_ms = ttl_ms;
    metadata = metadata;
    unresolved_growth = request;
  })

abbrev pub cloned_unresolved : Option GrowthRequest → Option ReservationGrowthRequest
cloned_unresolved none = none
cloned_unresolved (some g) = some (clone_growth_request g)

unfoldable pub to_resume_state : UsageLease → Result UsageLeaseResumeState
unfolding clone_growth_request
to_resume_state lease = do
  reservation ← clone_reservation_record lease.reservation
  ok (record {
    reservation = reservation;
    ttl_ms = nat lease.ttl_ms;
    metadata = lease.metadata;
    unresolved_growth = cloned_unresolved lease.unresolved_growth;
  })

-- An unresolved request that is not this one.
abbrev pub is_unresolved_other : Option GrowthRequest → GrowthRequest → Bool
is_unresolved_other none request = false
is_unresolved_other (some pinned) request = not (same_growth_request pinned request)

abbrev pub required_cursor : Option String → Result String
required_cursor none = throw (state_error no_growth_support)
required_cursor (some cursor) =
    if is_blank cursor then throw (state_error no_growth_support) else ok cursor

-- `grow` up to its call of the store, which may lack the operation.
unfoldable pub begin_growth :
    ⦃c : Collation⦄ → Bool → UsageLease → ReservationGrowthRequest → Result (GrowthRequest × String)
begin_growth progressive lease input = do
  request ← canonicalize_growth_request input
  throw_if (is_unresolved_other lease.unresolved_growth request) (state_error unresolved_growth)
  throw_if (not progressive) (state_error unsupported_store)
  cursor ← required_cursor lease.reservation.growth_cursor
  ok (request, cursor)

unfoldable pub growth_input : UsageLease → GrowthRequest → String → GrowReservationInput
growth_input lease request cursor = record {
  reservation_id = lease.reservation.id;
  increment_id = request.increment_id;
  expected_growth_cursor = cursor;
  additional_units = nat request.additional_units;
  budgets = map as_budget request.budgets;
}

abbrev pub with_unresolved : Option GrowthRequest → UsageLease → UsageLease
with_unresolved unresolved lease = record lease { unresolved_growth = unresolved }

-- What an answer writes to the reservation.
unfoldable pub apply_growth : StoreGrowResult → ReservationRecord → ReservationRecord
apply_growth (StoreGrowResult.accepted r) reservation = record reservation {
  growth_cursor = some r.growth_cursor;
  reserved_units = r.reserved_units;
}
apply_growth (StoreGrowResult.denied r) reservation = record reservation {
  growth_cursor = some r.growth_cursor;
}

-- `grow` from the store's answer on.
unfoldable pub end_growth :
    GrowthRequest → Result Value → UsageLease → Result StoreGrowResult × UsageLease
unfolding apply_growth
end_growth request answer lease =
    elim (answer >>= λ value. validate_store_growth_result value lease.reservation request) [
      | ok result ↦ (
        ok result,
        record lease {
          reservation = apply_growth result lease.reservation;
          unresolved_growth = none;
        },
      )
      | throw e ↦ (throw e, if is_usage_state_error e then with_unresolved none lease else lease)
    ]

-- The operation that is called, or a failure where the store lacks it.
abbrev pub grow_operation :
    {S : Type 0} → UsageStore S → GrowReservationInput → S → Result Value × S
grow_operation store input s = elim store.grow_reservation [
  | none ↦ (throw (state_error unsupported_store), s)
  | some grow_reservation ↦ grow_reservation input s
]

module _ {S : Type 0} (store : UsageStore S) where
  unfoldable pub grow :
      ⦃c : Collation⦄
      → ReservationGrowthRequest
      → UsageLease
      → World S
      → Result StoreGrowResult × UsageLease × World S
  unfolding begin_growth growth_input end_growth
  grow input lease w = elim (begin_growth (is_some store.grow_reservation) lease input) [
    | throw e ↦ (throw e, lease, w)
    | ok begun ↦
        (let done = call (grow_operation store (growth_input lease begun.0 begun.1)) w in
          let finished = end_growth begun.0 done.0 (with_unresolved (some begun.0) lease) in
          (finished.0, finished.1, done.1))
  ]

  abbrev expire_at : ℕ → UsageLease → UsageLease
  expire_at at lease = record lease { reservation = record lease.reservation { expires_at = at } }

  -- The event of a failed operation on the lease.
  abbrev lease_error : ℕ → Phase → Failure → UsageLease → World S → World S
  lease_error now phase e lease w =
      emit_error now lease.metadata phase Source.store (some lease.reservation.id)
        (reservation_identity lease.reservation) e w

  unfoldable pub mark_liable :
      ℕ → UsageLease → World S → Result MarkLiableResult × UsageLease × World S
  unfolding emit_error reservation_identity
  mark_liable now lease w =
      let done = call (store.mark_liable lease.reservation.id) w in
      elim done.0 [
        | ok marked ↦ (ok marked, expire_at marked.expires_at lease, done.1)
        | throw e ↦ (throw e, lease, lease_error now Phase.mark_liable e lease done.1)
      ]

  -- Without an argument, the lifetime is the lease's.
  unfoldable pub renew :
      ℕ → Option Number → UsageLease → World S → Result RenewResult × UsageLease × World S
  unfolding emit_error reservation_identity
  renew now requested lease w =
      elim (assert_positive_integer (get_or requested (nat lease.ttl_ms))) [
        | throw e ↦ (throw e, lease, w)
        | ok ttl_ms ↦
            (let done =
                call
                  (store.renew
                    (record { reservation_id = lease.reservation.id; ttl_ms = nat ttl_ms }))
                  w in
              elim done.0 [
                | ok renewed ↦ (ok renewed, expire_at renewed.expires_at lease, done.1)
                | throw e ↦ (throw e, lease, lease_error now Phase.renew e lease done.1)
              ])
      ]

  unfoldable pub settle :
      ℕ → Number → String → UsageLease → World S → Result SettlementResult × World S
  unfolding emit_error reservation_identity
  settle now actual_units outcome lease w =
      let done =
        call
          (store.settle (record {
            reservation_id = lease.reservation.id;
            actual_units = actual_units;
            outcome = outcome;
          }))
          w in
      elim done.0 [
        | throw e ↦ (throw e, lease_error now Phase.settle e lease done.1)
        | ok s ↦ (
          ok s,
          emit_usage_event
              (settlement_completed (record { timestamp = now; metadata = lease.metadata })
                (reservation_identity lease.reservation)
                (record {
                  reservation_id = lease.reservation.id;
                  budget_keys = lease.reservation.budget_keys;
                  reserved_units = s.reserved_units;
                  actual_units = s.actual_units;
                  released_units = s.released_units;
                  outcome = s.outcome;
                }))
              done.1,
        )
      ]
