-- ===== src/Memory/Capacity.antt =====
-- The number of retained operations stays within its bound.
use mcp_usage_control.Base.{
  ◌<◌, List, leb, ◌≡◌, ℕ, String, inl, inr, false, some, ok, throw, arith, Bool-cases, Result-cases,
  [], ◌∷◌, ◌≤◌, ◌+◌, length,
}
use mcp_usage_control.Memory.Moves.{
  IsInvariant, recovers, marks, extends, admits, settles, grows, admits_vector, settles_vector,
  grows_vector, retires,
}
use mcp_usage_control.Memory.Recovery.{
  visit_in, Visit, sweep_start, Sweep, preflight, is_due, recover_all, swept_store, recover_expired,
  sweep_entries, after_visit, Swept, kept, dropped, stopped,
}
use mcp_usage_control.Memory.State.{VectorPart, ScalarPart, InternalReservation, MemoryUsageStore}
use mcp_usage_control.JsMap.{size, JsMap, set, get}
use mcp_usage_control.Memory.Scalar.{new_reservation, settled_reservation, finish_settlement, admit}
use mcp_usage_control.Memory.Vector.{
  new_vector_reservation, settled_vector, finish_vector_settlement, admit_vector,
}
use mcp_usage_control.Memory.Checks.{VectorIncrement, Increment}
use mcp_usage_control.Collation.{Collation}
use mcp_usage_control.Memory.Limits.{track_recovery_at, assert_operation_capacity}
use mcp_usage_control.Types.{Demand, CanonicalBudget, UsageDimensionActual, UsageRequest}
use mcp_usage_control.Memory.Growth.{attempt_growth}
use mcp_usage_control.Memory.VectorGrowth.{attempt_vector_growth}
use mcp_usage_control.Memory.Calls.{run-keeps, run, Call}
use mcp_usage_control.Memory.Outcomes.{
  admit_vector_cases, admit_cases, attempt_vector_growth_cases, attempt_growth_cases,
}

abbrev pub IsWithinCapacity : MemoryUsageStore → Type 0
IsWithinCapacity s = length s.reservations ≤ s.max_retained_operations

module _ {ℓ} {V : Type ℓ} where
  length-set :
      (k : String) (v w : V) (m : JsMap V) → get k m ≡ some w → length (set k v m) ≡ length m
  unfolding get set
  length-set k v w [] h = ground arith
  length-set k v w ((j, u) ∷ m) h = ground (arith, length-set k v w m)

  length-set-le : (k : String) (v : V) (m : JsMap V) → length (set k v m) ≤ length m + 1
  unfolding set
  length-set-le k v [] = omega arith
  length-set-le k v ((j, u) ∷ m) = ground (arith, length-set-le k v m)

after_visit-length :
    (id : String) (rest : JsMap InternalReservation) (pass : Sweep → Swept) (v : Visit)
    → ((w : Sweep) → length (pass w).1 ≤ length rest)
    → length (after_visit id rest pass v).1 ≤ length rest + 1
unfolding after_visit
after_visit-length id rest pass (kept r w) h = omega (arith, h w)
after_visit-length id rest pass (dropped w) h = omega (arith, h w)
after_visit-length id rest pass (stopped e r w) h = omega arith

sweep_entries-length :
    (now ttl : ℕ) (m : JsMap InternalReservation) (w : Sweep)
    → length (sweep_entries now ttl m w).1 ≤ length m
unfolding sweep_entries
sweep_entries-length now ttl [] w = omega arith
sweep_entries-length now ttl ((id, r) ∷ rest) w = omega (
  arith,
  after_visit-length id rest (sweep_entries now ttl rest) (visit_in r.state now ttl r w)
      (sweep_entries-length now ttl rest),
)

swept_store-within :
    (s : MemoryUsageStore) (x : Swept)
    → length x.1 ≤ length s.reservations
    → IsWithinCapacity s
    → IsWithinCapacity (swept_store s x).1
swept_store-within s (ok _, rest, w) h c = omega arith
swept_store-within s (throw e, rest, w) h c = omega arith

recover_expired-within :
    (now : ℕ) (s : MemoryUsageStore)
    → IsWithinCapacity s
    → IsWithinCapacity (recover_expired now s).1
unfolding recover_expired recover_all
recover_expired-within now s c = elim (Bool-cases (is_due now s.next_recovery_at)) [
  | inr early ↦ rw early c
  | inl due ↦ elim (Result-cases (preflight now s.idempotency_ttl_ms s.reservations)) [
    | inr (e, unsafe) ↦ rw (due, unsafe, recover_all) c
    | inl (_, safe) ↦
        rw (due, safe, recover_all)
          (swept_store-within s
            (sweep_entries now s.idempotency_ttl_ms s.reservations (sweep_start s))
            (sweep_entries-length now s.idempotency_ttl_ms s.reservations (sweep_start s)) c)
  ]
]

-- A write in place of a retained reservation.
put_within :
    (id : String) (r old : InternalReservation) (s : MemoryUsageStore)
    → get id s.reservations ≡ some old
    → IsWithinCapacity s
    → length (set id r s.reservations) ≤ s.max_retained_operations
put_within id r old s found c = omega (arith, length-set id r old s.reservations found, c)

-- A write of a new reservation, after the check that there is room.
stored_within :
    (r : InternalReservation) (s : MemoryUsageStore)
    → leb s.max_retained_operations (size s.reservations) ≡ false
    → length (set r.id r s.reservations) ≤ s.max_retained_operations
stored_within r s room =
    let below : length s.reservations < s.max_retained_operations = ground arith in
    omega (arith, below, length-set-le r.id r s.reservations)

admit-within :
    (uuid : String) (request : UsageRequest) (units : ℕ) (budgets : List CanonicalBudget)
    (expires_at : ℕ) (s : MemoryUsageStore)
    → IsWithinCapacity s
    → IsWithinCapacity (admit uuid request units budgets expires_at s).1
unfolding admit assert_operation_capacity
admit-within uuid request units budgets expires_at s c =
    elim (Bool-cases (leb s.max_retained_operations (size s.reservations))) [
      | inl full ↦ rw full c
      | inr room ↦
          admit_cases IsWithinCapacity uuid request units budgets expires_at s c
            (stored_within (new_reservation request uuid units budgets expires_at) s room)
    ]

admit_vector-within :
    ⦃c : Collation⦄ (uuid : String) (request : UsageRequest) (ds : List Demand) (expires_at : ℕ)
    (s : MemoryUsageStore)
    → IsWithinCapacity s
    → IsWithinCapacity (admit_vector uuid request ds expires_at s).1
unfolding admit_vector assert_operation_capacity
admit_vector-within uuid request ds expires_at s c =
    elim (Bool-cases (leb s.max_retained_operations (size s.reservations))) [
      | inl full ↦ rw full c
      | inr room ↦
          admit_vector_cases IsWithinCapacity uuid request ds expires_at s c (λ _ _ _. c)
            (λ _ _. stored_within (new_vector_reservation request uuid ds expires_at) s room)
    ]

finish_settlement-within :
    (id : String) (r : InternalReservation) (p : ScalarPart) (actual : ℕ) (outcome : String)
    (tombstone : ℕ) (s : MemoryUsageStore)
    → get id s.reservations ≡ some r
    → IsWithinCapacity s
    → IsWithinCapacity (finish_settlement id r p actual outcome tombstone s).1
unfolding finish_settlement track_recovery_at
finish_settlement-within id r p actual outcome tombstone s found c =
    put_within id (settled_reservation r p actual outcome tombstone) r s found c

finish_vector_settlement-within :
    (id : String) (r : InternalReservation) (p : VectorPart) (actuals : List UsageDimensionActual)
    (outcome : String) (tombstone : ℕ) (s : MemoryUsageStore)
    → get id s.reservations ≡ some r
    → IsWithinCapacity s
    → IsWithinCapacity (finish_vector_settlement id r p actuals outcome tombstone s).1
unfolding finish_vector_settlement track_recovery_at
finish_vector_settlement-within id r p actuals outcome tombstone s found c =
    put_within id (settled_vector r p actuals outcome tombstone) r s found c

attempt_growth-within :
    (g : Increment) (cursor : String) (r : InternalReservation) (p : ScalarPart)
    (s : MemoryUsageStore)
    → get g.reservation_id s.reservations ≡ some r
    → IsWithinCapacity s
    → IsWithinCapacity (attempt_growth g cursor r p s).1
attempt_growth-within g cursor r p s found c =
    attempt_growth_cases IsWithinCapacity g cursor r p s c
      (λ limiting. put_within g.reservation_id _ r s found c) (λ _ _ _. c)
      (λ units used _ _ _ _. put_within g.reservation_id _ r s found c)

attempt_vector_growth-within :
    (g : VectorIncrement) (cursor : String) (r : InternalReservation) (p : VectorPart)
    (s : MemoryUsageStore)
    → get g.reservation_id s.reservations ≡ some r
    → IsWithinCapacity s
    → IsWithinCapacity (attempt_vector_growth g cursor r p s).1
attempt_vector_growth-within g cursor r p s found c =
    attempt_vector_growth_cases IsWithinCapacity g cursor r p s c
      (λ limiting. put_within g.reservation_id _ r s found c)
      (put_within g.reservation_id _ r s found c)
      (λ result. put_within g.reservation_id _ r s found c)

IsWithinCapacity-IsInvariant : ⦃c : Collation⦄ → IsInvariant IsWithinCapacity
IsWithinCapacity-IsInvariant _ _ (recovers now s) c = recover_expired-within now s c
IsWithinCapacity-IsInvariant _ _ (marks id r s is_open) c = put_within id _ r s is_open.found c
IsWithinCapacity-IsInvariant _ _ (extends id r at s is_open) c = put_within id _ r s is_open.found c
IsWithinCapacity-IsInvariant _ _ (admits uuid request units budgets at s new enough) c =
    admit-within uuid request units budgets at s c
IsWithinCapacity-IsInvariant _ _ (settles id r p actual outcome tombstone s is_open mode le) c =
    finish_settlement-within id r p actual outcome tombstone s is_open.found c
IsWithinCapacity-IsInvariant _ _ (grows g cursor r p s is_open mode same) c =
    attempt_growth-within g cursor r p s is_open.found c
IsWithinCapacity-IsInvariant _ _ (admits_vector uuid request ds at s new enough) c =
    admit_vector-within uuid request ds at s c
IsWithinCapacity-IsInvariant _ _ (settles_vector id r p actuals outcome tombstone s is_open mode)
      c =
    finish_vector_settlement-within id r p actuals outcome tombstone s is_open.found c
IsWithinCapacity-IsInvariant _ _ (grows_vector g cursor r p s is_open mode same) c =
    attempt_vector_growth-within g cursor r p s is_open.found c
IsWithinCapacity-IsInvariant _ _ (retires key s free) c = c

-- Where a store retains no more operations than its bound allows, it does so after any sequence of
-- calls, whether each returned or threw.
pub run-IsWithinCapacity :
    ⦃c : Collation⦄ (calls : List (ℕ × Call)) (s : MemoryUsageStore)
    → length s.reservations ≤ s.max_retained_operations
    → length (run calls s).reservations ≤ (run calls s).max_retained_operations
run-IsWithinCapacity calls s h = run-keeps IsWithinCapacity IsWithinCapacity-IsInvariant calls s h
