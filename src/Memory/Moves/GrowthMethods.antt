-- ===== src/Memory/Moves/GrowthMethods.antt =====
-- Growth, the vector methods and the maintenance of the store keep what every write keeps.
use mcp_usage_control.Base.{
  ◌||◌, ℕ, ◌≡◌, String, some, List, Option-cases, Bool-cases, inl, inr, not, ◌==◌, Result-cases,
}
use mcp_usage_control.JsMap.{get, has}
use mcp_usage_control.Types.{
  Demand, VectorSettleInput, VectorReserveInput, UsageRequest, GrowReservationInput,
  VectorGrowReservationInput,
}
use mcp_usage_control.Memory.State.{
  InternalReservation, MemoryUsageStore, ScalarPart, VectorPart, scalar, vector, Mode-cases,
}
use mcp_usage_control.Memory.Action.{Keeps}
use mcp_usage_control.Memory.Moves.{
  IsInvariant, IsOpen, grows, grows_vector, admits_vector, settles_vector, retires,
}
use mcp_usage_control.Memory.Moves.Methods.{after_recovery-Keeps, either}
use mcp_usage_control.Collation.{Collation}
use mcp_usage_control.Memory.Growth.{grow_reservation, grow_found, grow_scalar, new_increment}
use mcp_usage_control.Memory.VectorGrowth.{
  grow_vector_reservation, grow_vector_found, grow_vector_part, new_vector_increment,
}
use mcp_usage_control.Memory.Vector.{
  same_recorded_actuals, find_vector_limiting, settle_vector, settle_vector_found,
  settle_vector_part, reserve_vector, reserve_vector_checked,
}
use mcp_usage_control.Memory.Maintenance.{
  read_stats, is_referenced, stats, retire_budget_key, retire,
}
use mcp_usage_control.Memory.Checks.{VectorIncrement, Increment}
use mcp_usage_control.Records.{is_blank}
use mcp_usage_control.Memory.Scalar.{same_outcome, is_settled}
use mcp_usage_control.Dimensions.{same_vector_topology, canonicalize_vector_actuals}
use mcp_usage_control.Budgets.{same_budget_keys}
use mcp_usage_control.OperationKey.{operation_key_for}
use mcp_usage_control.Memory.Limits.{new_growth_cursor}

module _ ⦃c : Collation⦄ (P : MemoryUsageStore → Type 0) (inv : IsInvariant P) where
  new_increment-Keeps :
      (g : Increment) (uuid : String) (r : InternalReservation) (q : ScalarPart)
      (s : MemoryUsageStore)
      → IsOpen s g.reservation_id r
      → r.mode ≡ scalar q
      → P s
      → P (new_increment g uuid r q s).1
  unfolding new_increment
  new_increment-Keeps g uuid r q s is_open mode p = elim (Option-cases r.growth_cursor) [
    | inl missing ↦ rw (missing, new_increment) p
    | inr (cursor, present) ↦ elim (Bool-cases (is_blank cursor)) [
      | inl blank ↦ rw (present, blank, new_increment) p
      | inr named ↦ elim (Bool-cases (not (cursor == g.expected_growth_cursor))) [
        | inl stale ↦ rw (present, named, stale, new_increment) p
        | inr current ↦ elim (Bool-cases (same_budget_keys q.budget_keys g.budgets)) [
          | inr other ↦ rw (present, named, current, other, new_increment) p
          | inl same ↦
              rw (present, named, current, same, new_increment)
                (inv s _ (grows g (new_growth_cursor uuid) r q s is_open mode same) p)
        ]
      ]
    ]
  ]

  grow_scalar-Keeps :
      (g : Increment) (uuid : String) (r : InternalReservation) (q : ScalarPart)
      (s : MemoryUsageStore)
      → get g.reservation_id s.reservations ≡ some r
      → r.mode ≡ scalar q
      → P s
      → P (grow_scalar g uuid r q s).1
  unfolding grow_scalar
  grow_scalar-Keeps g uuid r q s found mode p = elim (Bool-cases (is_settled r.state)) [
    | inl done ↦ rw (done, grow_scalar) p
    | inr open_state ↦
        (let next =
            new_increment-Keeps g uuid r q s (record { found = found; unsettled = open_state }) mode
              p in
          elim (Option-cases q.last_growth) [
            | inl first ↦ rw (open_state, first, grow_scalar) next
            | inr (last, again) ↦ elim (Bool-cases (last.increment_id == g.increment_id)) [
              | inr other ↦ rw (open_state, again, other, grow_scalar) next
              | inl same ↦ rw (open_state, again, same, grow_scalar) (either P inv _ _ _ s p)
            ]
          ])
  ]

  grow_found-Keeps : (g : Increment) (uuid : String) → Keeps P (grow_found g uuid)
  unfolding grow_found
  grow_found-Keeps g uuid s p = elim (Option-cases (get g.reservation_id s.reservations)) [
    | inl missing ↦ rw (missing, grow_found) p
    | inr (r, found) ↦ elim (Mode-cases r.mode) [
      | inr (q, mode) ↦ rw (found, mode, grow_found) p
      | inl (q, mode) ↦ rw (found, mode, grow_found) (grow_scalar-Keeps g uuid r q s found mode p)
    ]
  ]

  pub grow_reservation-Keeps :
      (now : ℕ) (uuid : String) (input : GrowReservationInput)
      → Keeps P (grow_reservation now uuid input)
  unfolding grow_reservation
  grow_reservation-Keeps now uuid input =
      after_recovery-Keeps P inv now _ _ λ g. grow_found-Keeps g uuid

  new_vector_increment-Keeps :
      (g : VectorIncrement) (uuid : String) (r : InternalReservation) (q : VectorPart)
      (s : MemoryUsageStore)
      → IsOpen s g.reservation_id r
      → r.mode ≡ vector q
      → P s
      → P (new_vector_increment g uuid r q s).1
  unfolding new_vector_increment
  new_vector_increment-Keeps g uuid r q s is_open mode p = elim (Option-cases r.growth_cursor) [
    | inl missing ↦ rw (missing, new_vector_increment) p
    | inr (cursor, present) ↦ elim (Bool-cases (is_blank cursor)) [
      | inl blank ↦ rw (present, blank, new_vector_increment) p
      | inr named ↦ elim (Bool-cases (not (cursor == g.expected_growth_cursor))) [
        | inl stale ↦ rw (present, named, stale, new_vector_increment) p
        | inr current ↦ elim (Bool-cases (same_vector_topology q.dimensions g.dimensions)) [
          | inr other ↦ rw (present, named, current, other, new_vector_increment) p
          | inl same ↦
              rw (present, named, current, same, new_vector_increment)
                (inv s _ (grows_vector g (new_growth_cursor uuid) r q s is_open mode same) p)
        ]
      ]
    ]
  ]

  grow_vector_part-Keeps :
      (g : VectorIncrement) (uuid : String) (r : InternalReservation) (q : VectorPart)
      (s : MemoryUsageStore)
      → get g.reservation_id s.reservations ≡ some r
      → r.mode ≡ vector q
      → P s
      → P (grow_vector_part g uuid r q s).1
  unfolding grow_vector_part
  grow_vector_part-Keeps g uuid r q s found mode p = elim (Bool-cases (is_settled r.state)) [
    | inl done ↦ rw (done, grow_vector_part) p
    | inr open_state ↦
        (let next =
            new_vector_increment-Keeps g uuid r q s
              (record { found = found; unsettled = open_state }) mode p in
          elim (Option-cases q.last_vector_growth) [
            | inl first ↦ rw (open_state, first, grow_vector_part) next
            | inr (last, again) ↦ elim (Bool-cases (last.increment_id == g.increment_id)) [
              | inr other ↦ rw (open_state, again, other, grow_vector_part) next
              | inl same ↦ rw (open_state, again, same, grow_vector_part) (either P inv _ _ _ s p)
            ]
          ])
  ]

  grow_vector_found-Keeps :
      (g : VectorIncrement) (uuid : String) → Keeps P (grow_vector_found g uuid)
  unfolding grow_vector_found
  grow_vector_found-Keeps g uuid s p = elim (Option-cases (get g.reservation_id s.reservations)) [
    | inl missing ↦ rw (missing, grow_vector_found) p
    | inr (r, found) ↦ elim (Mode-cases r.mode) [
      | inl (q, mode) ↦ rw (found, mode, grow_vector_found) p
      | inr (q, mode) ↦
          rw (found, mode, grow_vector_found) (grow_vector_part-Keeps g uuid r q s found mode p)
    ]
  ]

  pub grow_vector_reservation-Keeps :
      (now : ℕ) (uuid : String) (input : VectorGrowReservationInput)
      → Keeps P (grow_vector_reservation now uuid input)
  unfolding grow_vector_reservation
  grow_vector_reservation-Keeps now uuid input =
      after_recovery-Keeps P inv now _ _ λ g. grow_vector_found-Keeps g uuid

  reserve_vector_checked-Keeps :
      (uuid : String) (request : UsageRequest) (ds : List Demand) (expires_at : ℕ)
      → Keeps P (reserve_vector_checked uuid request ds expires_at)
  unfolding reserve_vector_checked
  reserve_vector_checked-Keeps uuid request ds expires_at s p =
      elim (Bool-cases (has (operation_key_for request) s.operations)) [
        | inl old ↦ rw (old, reserve_vector_checked) p
        | inr new ↦ elim (Option-cases (find_vector_limiting s.used ds)) [
          | inr (limiting, short) ↦ rw (new, short, reserve_vector_checked) p
          | inl enough ↦
              rw (new, enough, reserve_vector_checked)
                (inv s _ (admits_vector uuid request ds expires_at s new enough) p)
        ]
      ]

  pub reserve_vector-Keeps :
      (now : ℕ) (uuid : String) (input : VectorReserveInput)
      → Keeps P (reserve_vector now uuid input)
  unfolding reserve_vector
  reserve_vector-Keeps now uuid input =
      after_recovery-Keeps P inv now _ _
        λ a. reserve_vector_checked-Keeps uuid input.request a.dimensions a.expires_at

  settle_vector_part-Keeps :
      (input : VectorSettleInput) (r : InternalReservation) (q : VectorPart) (tombstone : ℕ)
      (s : MemoryUsageStore)
      → get input.reservation_id s.reservations ≡ some r
      → r.mode ≡ vector q
      → P s
      → P (settle_vector_part input r q tombstone s).1
  unfolding settle_vector_part
  settle_vector_part-Keeps input r q tombstone s found mode p =
      elim (Result-cases (canonicalize_vector_actuals input.actual_by_dimension q.dimensions)) [
        | inr (e, refused) ↦ rw (refused, settle_vector_part) p
        | inl (actuals, checked) ↦ elim (Bool-cases (is_settled r.state)) [
          | inr open_state ↦
              rw (checked, open_state, settle_vector_part)
                (inv s _
                  (settles_vector input.reservation_id r q actuals input.outcome tombstone s
                    (record { found = found; unsettled = open_state }) mode)
                  p)
          | inl done ↦
              elim (Bool-cases (
                not (same_outcome r.outcome input.outcome)
                || not (same_recorded_actuals q.actual_by_dimension actuals))) [
                  | inl other ↦ rw (checked, done, other, settle_vector_part) p
                  | inr same ↦ rw (checked, done, same, settle_vector_part) p
                ]
        ]
      ]

  settle_vector_found-Keeps :
      (input : VectorSettleInput) (tombstone : ℕ) → Keeps P (settle_vector_found input tombstone)
  unfolding settle_vector_found
  settle_vector_found-Keeps input tombstone s p =
      elim (Option-cases (get input.reservation_id s.reservations)) [
        | inl missing ↦ rw (missing, settle_vector_found) p
        | inr (r, found) ↦ elim (Mode-cases r.mode) [
          | inl (q, mode) ↦ rw (found, mode, settle_vector_found) p
          | inr (q, mode) ↦
              rw (found, mode, settle_vector_found)
                (settle_vector_part-Keeps input r q tombstone s found mode p)
        ]
      ]

  pub settle_vector-Keeps :
      (now : ℕ) (input : VectorSettleInput) → Keeps P (settle_vector now input)
  unfolding settle_vector
  settle_vector-Keeps now input s =
      after_recovery-Keeps P inv now _ _ (λ t. settle_vector_found-Keeps input t) s

  retire-Keeps : (key : String) → Keeps P (retire key)
  unfolding retire
  retire-Keeps key s p = elim (Bool-cases (is_referenced key s.reservations)) [
    | inl busy ↦ rw (busy, retire) p
    | inr free ↦ rw (free, retire) (inv s _ (retires key s free) p)
  ]

  pub retire_budget_key-Keeps : (now : ℕ) (key : String) → Keeps P (retire_budget_key now key)
  unfolding retire_budget_key
  retire_budget_key-Keeps now key = after_recovery-Keeps P inv now _ _ λ _. retire-Keeps key

  pub stats-Keeps : (now : ℕ) → Keeps P (stats now)
  unfolding stats read_stats
  stats-Keeps now = after_recovery-Keeps P inv now _ _ λ _ s p. p
