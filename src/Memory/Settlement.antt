-- ===== src/Memory/Settlement.antt =====
-- What `settle` releases, and what it answers when it is asked again.
use mcp_usage_control.Base.{
  refl, ap, ◌≤◌, ◌&&◌, ◌==◌, already_settled, ◌*◌, ◌==◌, occurrences, eq_refl, ◌&&◌,
  actual_exceeds_reserved, ◌-◌, some, state_error, arith, Result, ◌≤◌, ◌≡◌, ℕ, String, inl, inr,
  Bool-cases, false, if◌then◌else◌, ltb, eqb, ok, throw,
}
use mcp_usage_control.Memory.State.{scalar, MemoryUsageStore, ScalarPart, InternalReservation}
use mcp_usage_control.Memory.Moves.{IsOpen}
use mcp_usage_control.Memory.Scalar.{
  settled_part, to_settlement, settle_scalar, finish_settlement, settle_found, settled_reservation,
}
use mcp_usage_control.Types.{SettlementResult}
use mcp_usage_control.Memory.Limits.{track_recovery_at}
use mcp_usage_control.JsMap.{get-set, get}
use mcp_usage_control.Memory.Recovery.{used_at}
use mcp_usage_control.Memory.Usage.{used_at-release_across_budgets}

found_scalar :
    (id : String) (r : InternalReservation) (p : ScalarPart) (actual : ℕ) (outcome : String)
    (tombstone : ℕ) (t : MemoryUsageStore)
    → get id t.reservations ≡ some r
    → r.mode ≡ scalar p
    → settle_found id actual outcome tombstone t ≡ settle_scalar id r p actual outcome tombstone t
unfolding settle_found
found_scalar id r p actual outcome tombstone t found mode = rw (found, settle_found) (rw mode refl)

module _ (id : String) (r : InternalReservation) (p : ScalarPart) (actual : ℕ) (outcome : String)
    (tombstone : ℕ) (s : MemoryUsageStore) (is_open : IsOpen s id r) (mode : r.mode ≡ scalar p)
    (within : actual ≤ p.reserved_units) where
  abbrev first : Result SettlementResult × MemoryUsageStore
  first = settle_found id actual outcome tombstone s

  abbrev settled_here : InternalReservation
  settled_here = settled_reservation r p actual outcome tombstone

  settle_open : first ≡ finish_settlement id r p actual outcome tombstone s
  unfolding settle_scalar
  settle_open =
      let fits : ltb p.reserved_units actual ≡ false = ground arith in
      rw (found_scalar id r p actual outcome tombstone s is_open.found mode)
        (rw (fits, settle_scalar, is_open.unsettled) refl)

  kept_settled : get id first.1.reservations ≡ some settled_here
  unfolding finish_settlement track_recovery_at
  kept_settled = rw settle_open (rw (get-set id id settled_here s.reservations, eq_refl id) refl)

  first_answer : ok (to_settlement settled_here (settled_part p actual)) ≡ first.0
  unfolding finish_settlement track_recovery_at
  first_answer = rw settle_open refl

  -- A settlement of an active reservation, with at most the reserved units, answers with the
  -- reserved, actual and released units, and takes the released units off every budget of the
  -- reservation once for each time that it names the budget, and off no other.
  pub settle_found-releases :
      (k : String)
      → (first.0
          ≡ ok (record {
            reservation_id = r.id;
            reserved_units = p.reserved_units;
            actual_units = actual;
            released_units = p.reserved_units - actual;
            outcome = outcome;
          }))
        × (used_at k first.1.used
            ≡ used_at k s.used - occurrences k p.budget_keys * (p.reserved_units - actual))
  unfolding finish_settlement track_recovery_at to_settlement
  settle_found-releases k = rw settle_open (
    refl,
    elim (Bool-cases (ltb 0 (p.reserved_units - actual))) [
      | inl unused ↦
          rw unused
            (used_at-release_across_budgets k p.budget_keys (p.reserved_units - actual) s.used)
      | inr all_used ↦
          rw all_used (let z : p.reserved_units - actual ≡ 0 = ground arith in rw z (omega arith))
    ],
  )

  -- Once an active reservation is settled, with at most the units reserved, a second settlement
  -- leaves the store alone. It answers as the first did when the actual units and the outcome are
  -- the same, and otherwise throws: on more units than were reserved, or because the reservation
  -- is settled differently.
  pub settle_found-again :
      (actual' : ℕ) (outcome' : String) (tombstone' : ℕ)
      → settle_found id actual' outcome' tombstone' first.1 ≡ (
          if ltb p.reserved_units actual'
          then (throw (state_error actual_exceeds_reserved), first.1)
          else if eqb actual actual' && (outcome == outcome')
          then first
          else (throw (state_error already_settled), first.1))
  unfolding settle_scalar
  settle_found-again actual' outcome' tombstone' =
      rw
        (found_scalar id settled_here (settled_part p actual) actual' outcome' tombstone' first.1
          kept_settled refl)
        (elim (Bool-cases (ltb p.reserved_units actual')) [
          | inl over ↦ rw over refl
          | inr fits ↦ elim (Bool-cases (eqb actual actual')) [
            | inr other ↦ rw (fits, other) refl
            | inl same ↦ elim (Bool-cases (outcome == outcome')) [
              | inr differs ↦ rw (fits, same, differs) refl
              | inl agrees ↦ rw (fits, same, agrees) (ap (λ x. (x, first.1)) first_answer)
            ]
          ]
        ])
