-- ===== src/Memory/Replay/Any.antt =====
-- Any growth that was answered, and is asked for again.
use mcp_usage_control.Memory.Growth.{
  fingerprint, new_increment, replay_growth_result, same_fingerprint, grow_scalar, grow_found,
}
use mcp_usage_control.Memory.Limits.{new_growth_cursor}
use mcp_usage_control.Budgets.{same_budget_keys}
use mcp_usage_control.Records.{is_blank}
use mcp_usage_control.Base.{
  sym, ◌∙◌, ok_injective, ◌||◌, not, Failure, ap, ◌==◌, subst, Result, some, String, ◌≡◌, refl, inl,
  inr, Bool-cases, Option-cases, ok, throw,
}
use mcp_usage_control.Memory.State.{
  Mode-cases, ScalarPart, InternalReservation, MemoryUsageStore, scalar,
}
use mcp_usage_control.Memory.Checks.{Increment}
use mcp_usage_control.Types.{StoreGrowResult}
use mcp_usage_control.JsMap.{get}
use mcp_usage_control.Memory.Scalar.{is_settled}
use mcp_usage_control.Memory.Moves.{IsOpen}
use mcp_usage_control.Memory.Replay.{attempt_growth-replayed}

replay_idem :
    (v : StoreGrowResult) → replay_growth_result (replay_growth_result v) ≡ replay_growth_result v
unfolding replay_growth_result
replay_idem (StoreGrowResult.accepted r) = refl
replay_idem (StoreGrowResult.denied r) = refl

module _ (g : Increment) (uuid : String) (s : MemoryUsageStore) (v : StoreGrowResult)
    (t : MemoryUsageStore) (later : String) where
  -- What a growth that was answered leaves.
  abbrev IsReplayed : Type 0
  IsReplayed = grow_found g later t ≡ (ok (replay_growth_result v), t)

  abbrev Outcome : Type 0
  Outcome = Result StoreGrowResult × MemoryUsageStore

  refused_absurd : (e : Failure) → ◌≡◌ {A = Outcome} (throw e, s) (ok v, t) → IsReplayed
  refused_absurd e h =
      absurd (let z : ◌≡◌ {A = Result StoreGrowResult} (throw e) (ok v) = ap (λ x. x.0) h in cc)

  new_increment-IsReplayed :
      (r : InternalReservation) (p : ScalarPart)
      → IsOpen s g.reservation_id r
      → new_increment g uuid r p s ≡ (ok v, t)
      → IsReplayed
  unfolding new_increment
  new_increment-IsReplayed r p is_open h = elim (Option-cases r.growth_cursor) [
    | inl missing ↦ refused_absurd _ (rw (missing, new_increment) at h)
    | inr (cursor, held) ↦ elim (Bool-cases (is_blank cursor)) [
      | inl blank ↦ refused_absurd _ (rw (held, new_increment, blank) at h)
      | inr filled ↦ elim (Bool-cases (cursor == g.expected_growth_cursor)) [
        | inr stale ↦ refused_absurd _ (rw (held, new_increment, filled, stale) at h)
        | inl current ↦ elim (Bool-cases (same_budget_keys p.budget_keys g.budgets)) [
          | inr other ↦ refused_absurd _ (rw (held, new_increment, filled, current, other) at h)
          | inl same ↦
              attempt_growth-replayed g (new_growth_cursor uuid) r p s is_open v t later
                (rw (held, new_increment, filled, current, same) at h)
        ]
      ]
    ]
  ]

  -- An answer from the record is given again.
  again_IsReplayed :
      (last : StoreGrowResult)
      → grow_found g later s ≡ (ok (replay_growth_result last), s)
      → ◌≡◌ {A = Outcome} (ok (replay_growth_result last), s) (ok v, t)
      → IsReplayed
  again_IsReplayed last again e =
      let answer : replay_growth_result last ≡ v = ok_injective (ap (λ x. x.0) e) in
      let state : s ≡ t = ap (λ x. x.1) e in
      subst (λ x. grow_found g later x ≡ (ok (replay_growth_result v), x)) state
        (again ∙ ap (λ x. (ok x, s)) (sym (replay_idem last) ∙ ap replay_growth_result answer))

  grow_scalar-IsReplayed :
      (r : InternalReservation) (p : ScalarPart)
      → get g.reservation_id s.reservations ≡ some r
      → r.mode ≡ scalar p
      → grow_scalar g uuid r p s ≡ (ok v, t)
      → IsReplayed
  unfolding grow_scalar grow_found
  grow_scalar-IsReplayed r p found mode h = elim (Bool-cases (is_settled r.state)) [
    | inl over ↦ refused_absurd _ (rw (over, grow_scalar) at h)
    | inr live ↦
        (let fresh = new_increment-IsReplayed r p (record { found = found; unsettled = live }) in
          elim (Option-cases p.last_growth) [
            | inl first ↦ fresh (rw (live, grow_scalar, first) at h)
            | inr (last, held) ↦ elim (Bool-cases (last.increment_id == g.increment_id)) [
              | inr other ↦ fresh (rw (live, grow_scalar, held, other) at h)
              | inl same ↦
                  elim (Bool-cases (
                    not (last.expected_growth_cursor == g.expected_growth_cursor)
                    || not (same_fingerprint last.fingerprint (fingerprint g)))) [
                      | inl conflict ↦
                          refused_absurd _ (rw (live, grow_scalar, held, same, conflict) at h)
                      | inr equal ↦
                          again_IsReplayed last.result
                            (rw (found, grow_found)
                              (rw mode (rw (live, grow_scalar, held, same, equal) refl)))
                            (rw (live, grow_scalar, held, same, equal) at h)
                    ]
            ]
          ])
  ]

  -- A growth of any kind that the store answers, new or a replay, accepted or denied, is answered
  -- again from the record, marked as a replay, and the store stays as it is.
  pub grow_found-replayed :
      grow_found g uuid s ≡ (ok v, t) → grow_found g later t ≡ (ok (replay_growth_result v), t)
  unfolding grow_found
  grow_found-replayed h = elim (Option-cases (get g.reservation_id s.reservations)) [
    | inl missing ↦ refused_absurd _ (rw (missing, grow_found) at h)
    | inr (r, found) ↦ elim (Mode-cases r.mode) [
      | inr (p, other) ↦
          refused_absurd _ (let h1 = (rw (found, grow_found) at h) in (rw other at h1))
      | inl (p, mode) ↦
          grow_scalar-IsReplayed r p found mode
            (let h1 = (rw (found, grow_found) at h) in (rw mode at h1))
    ]
  ]
