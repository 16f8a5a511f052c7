-- ===== src/Memory/Moves/Methods.antt =====
-- Every method keeps what every write keeps.
use mcp_usage_control.Base.{
  true, false, if◌then◌else◌, Bool, arith, ltb, some, ◌≡◌, List, ℕ, String, Result, ok, throw,
  Option-cases, Bool-cases, inl, inr,
}
use mcp_usage_control.JsMap.{has, get}
use mcp_usage_control.Types.{SettleInput, ReserveInput, RenewInput}
use mcp_usage_control.Collation.{Collation}
use mcp_usage_control.Memory.State.{Mode-cases, scalar, MemoryUsageStore}
use mcp_usage_control.Memory.Action.{Action, Keeps, bind-Keeps}
use mcp_usage_control.Memory.Recovery.{after_recovery, recover_expired}
use mcp_usage_control.Memory.Limits.{remaining_by_budget, find_limiting, track_recovery_at}
use mcp_usage_control.Memory.Scalar.{
  settle, settle_found, settle_scalar, reserve, reserve_checked, set_liable, mark_liable, extend,
  renew, is_settled,
}
use mcp_usage_control.Memory.Moves.{
  settles, admits, CanonicalBudget, ScalarPart, InternalReservation, UsageRequest, IsInvariant,
  marks, extends, recovers,
}
use mcp_usage_control.OperationKey.{operation_key_for}

module _ ⦃c : Collation⦄ (P : MemoryUsageStore → Type 0) (inv : IsInvariant P) where
  recover_expired-Keeps : (now : ℕ) → Keeps P (recover_expired now)
  recover_expired-Keeps now s p = inv s _ (recovers now s) p

  set_liable-Keeps : (id : String) → Keeps P (set_liable id)
  unfolding set_liable
  set_liable-Keeps id s p = elim (Option-cases (get id s.reservations)) [
    | inl missing ↦ rw (missing, set_liable) p
    | inr (r, found) ↦ elim (Bool-cases (is_settled r.state)) [
      | inl done ↦ rw (found, done, set_liable) p
      | inr open_state ↦
          rw (found, open_state, set_liable)
            (inv s _ (marks id r s (record { found = found; unsettled = open_state })) p)
    ]
  ]

  pub after_recovery-Keeps :
      {A B : Type 0} (now : ℕ) (checked : Result A) (body : A → Action B)
      → ((a : A) → Keeps P (body a))
      → Keeps P (after_recovery now checked body)
  unfolding after_recovery
  after_recovery-Keeps now (throw e) body h s p = p
  after_recovery-Keeps now (ok a) body h s p =
      bind-Keeps P (recover_expired now) (λ _. body a) (recover_expired-Keeps now) (λ _. h a) s p

  pub mark_liable-Keeps : (now : ℕ) (id : String) → Keeps P (mark_liable now id)
  unfolding mark_liable
  mark_liable-Keeps now id = after_recovery-Keeps now _ _ λ _. set_liable-Keeps id

  extend-Keeps : (id : String) (at : ℕ) → Keeps P (extend id at)
  unfolding extend track_recovery_at
  extend-Keeps id at s p = elim (Option-cases (get id s.reservations)) [
    | inl missing ↦ rw (missing, extend) p
    | inr (r, found) ↦ elim (Bool-cases (is_settled r.state)) [
      | inl done ↦ rw (found, done, extend) p
      | inr open_state ↦
          rw (found, open_state, extend)
            (inv s _ (extends id r at s (record { found = found; unsettled = open_state })) p)
    ]
  ]

  pub renew-Keeps : (now : ℕ) (input : RenewInput) → Keeps P (renew now input)
  unfolding renew
  renew-Keeps now input = after_recovery-Keeps now _ _ λ at. extend-Keeps input.reservation_id at

  reserve_checked-Keeps :
      (uuid : String) (request : UsageRequest) (units : ℕ) (budgets : List CanonicalBudget)
      (expires_at : ℕ)
      → Keeps P (reserve_checked uuid request units budgets expires_at)
  unfolding reserve_checked
  reserve_checked-Keeps uuid request units budgets expires_at s p =
      elim (Bool-cases (has (operation_key_for request) s.operations)) [
        | inl old ↦ rw (old, reserve_checked) p
        | inr new ↦ elim (Option-cases (find_limiting units (remaining_by_budget s.used budgets))) [
          | inr (limiting, short) ↦ rw (new, short, reserve_checked) p
          | inl enough ↦
              rw (new, enough, reserve_checked)
                (inv s _ (admits uuid request units budgets expires_at s new enough) p)
        ]
      ]

  pub reserve-Keeps :
      (now : ℕ) (uuid : String) (input : ReserveInput) → Keeps P (reserve now uuid input)
  unfolding reserve
  reserve-Keeps now uuid input =
      after_recovery-Keeps now _ _
        λ a. reserve_checked-Keeps uuid input.request a.units a.budgets a.expires_at

  -- A test between two outcomes that leave the store alone.
  pub either :
      {A : Type 0} (b : Bool) (x y : Result A) (s : MemoryUsageStore)
      → P s
      → P ((if◌then◌else◌ {A = Result A × MemoryUsageStore} b (x, s) (y, s)).1)
  either true x y s p = p
  either false x y s p = p

  settle_scalar-Keeps :
      (id : String) (r : InternalReservation) (q : ScalarPart) (actual : ℕ) (outcome : String)
      (tombstone : ℕ) (s : MemoryUsageStore)
      → get id s.reservations ≡ some r
      → r.mode ≡ scalar q
      → P s
      → P (settle_scalar id r q actual outcome tombstone s).1
  unfolding settle_scalar
  settle_scalar-Keeps id r q actual outcome tombstone s found mode p =
      elim (Bool-cases (ltb q.reserved_units actual)) [
        | inl over ↦ rw (over, settle_scalar) p
        | inr within ↦ elim (Bool-cases (is_settled r.state)) [
          | inl done ↦ rw (within, done, settle_scalar) (either _ _ _ s p)
          | inr open_state ↦
              rw (within, open_state, settle_scalar)
                (inv s _
                  (settles id r q actual outcome tombstone s
                    (record { found = found; unsettled = open_state }) mode (ground arith))
                  p)
        ]
      ]

  settle_found-Keeps :
      (id : String) (actual : ℕ) (outcome : String) (tombstone : ℕ)
      → Keeps P (settle_found id actual outcome tombstone)
  unfolding settle_found
  settle_found-Keeps id actual outcome tombstone s p = elim (Option-cases (get id s.reservations)) [
    | inl missing ↦ rw (missing, settle_found) p
    | inr (r, found) ↦ elim (Mode-cases r.mode) [
      | inr (q, mode) ↦ rw (found, mode, settle_found) p
      | inl (q, mode) ↦
          rw (found, mode, settle_found)
            (settle_scalar-Keeps id r q actual outcome tombstone s found mode p)
    ]
  ]

  pub settle-Keeps : (now : ℕ) (input : SettleInput) → Keeps P (settle now input)
  unfolding settle
  settle-Keeps now input s =
      after_recovery-Keeps now _ _
        (λ a.
          settle_found-Keeps input.reservation_id a.actual_units input.outcome
            a.tombstone_expires_at)
        s
