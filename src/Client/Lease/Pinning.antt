-- ===== src/Client/Lease/Pinning.antt =====
-- A growth whose outcome is unknown stays pinned to its lease until the store answers it.
use mcp_usage_control.Base.{
  ◌+◌, ◌≡◌, refl, sym, ◌∙◌, ap, subst, ◌⊎◌, inl, inr, Bool, true, false, not, List, [], ◌∷◌, String,
  eq_iff, none, some, is_some, arith, Bool-cases, Result-cases, Result, ok, throw, throw_if,
  state_error, unresolved_growth, unsupported_store, ◌>>=◌, >>=-eq-ok, throw_if_passes,
  if◌then◌else◌,
}
use mcp_usage_control.Types.{CanonicalBudget, StoreGrowResult}
use mcp_usage_control.Collation.{Collation}
use mcp_usage_control.Value.{Value}
use mcp_usage_control.Memory.Growth.{same_budgets, same_fingerprint}
use mcp_usage_control.Answers.Scalar.{GrowthRequest, validate_store_growth_result}
use mcp_usage_control.Answers.Growth.{IsGrowthAnswer, validate_store_growth_result-IsGrowthAnswer}
use mcp_usage_control.Client.{UsageStore, World, call, is_usage_state_error}
use mcp_usage_control.Client.Requests.{
  ReservationGrowthRequest, canonicalize_growth_request, same_growth_request,
}
use mcp_usage_control.Client.Lease.{
  UsageLease, begin_growth, growth_input, with_unresolved, end_growth, grow, grow_operation,
  is_unresolved_other, required_cursor, apply_growth,
}

pub same_budgets-eq : (xs ys : List CanonicalBudget) → same_budgets xs ys ≡ true → xs ≡ ys
unfolding same_budgets
same_budgets-eq [] [] h = refl
same_budgets-eq [] (y ∷ ys) h = cc
same_budgets-eq (x ∷ xs) [] h = cc
same_budgets-eq (x ∷ xs) (y ∷ ys) h =
    let rest : same_budgets xs ys ≡ true = ground arith in
    let tail = same_budgets-eq xs ys rest in
    let key : x.key ≡ y.key = (eq_iff x.key y.key).0 (ground arith) in
    let limit : x.limit ≡ y.limit = ground arith in cc

-- Requests that compare as the same are equal.
pub same_growth_request-eq : (g r : GrowthRequest) → same_growth_request g r ≡ true → g ≡ r
unfolding same_growth_request same_fingerprint
same_growth_request-eq g r h =
    let budgets = same_budgets-eq g.budgets r.budgets (ground arith) in
    let id : g.increment_id ≡ r.increment_id =
      (eq_iff g.increment_id r.increment_id).0 (ground arith) in
    let units : g.additional_units ≡ r.additional_units = ground arith in cc

module _ ⦃c : Collation⦄ where
  -- What `begin_growth` has found when it does not throw.
  pub record IsBegun (lease : UsageLease) (input : ReservationGrowthRequest) (g : GrowthRequest)
      (cursor : String) : Type 0 where
    pub canonical : canonicalize_growth_request input ≡ ok g
    pub unpinned : is_unresolved_other lease.unresolved_growth g ≡ false
    pub cursor_held : required_cursor lease.reservation.growth_cursor ≡ ok cursor

  pub begin_growth-IsBegun :
      (progressive : Bool) (lease : UsageLease) (input : ReservationGrowthRequest)
      (g : GrowthRequest) (cursor : String)
      → begin_growth progressive lease input ≡ ok (g, cursor)
      → IsBegun lease input g cursor
  unfolding begin_growth
  begin_growth-IsBegun progressive lease input g cursor h =
      let (r, hr, h1) = >>=-eq-ok (canonicalize_growth_request input) _ h in
      let (_, free, h2) =
        >>=-eq-ok
          (throw_if (is_unresolved_other lease.unresolved_growth r) (state_error unresolved_growth))
          _ h1 in
      let (_, _, h3) =
        >>=-eq-ok (throw_if (not progressive) (state_error unsupported_store)) _ h2 in
      let (k, hk, h4) = >>=-eq-ok (required_cursor lease.reservation.growth_cursor) _ h3 in
      let e : r ≡ g = cc in
      let e' : k ≡ cursor = cc in
      record {
        canonical = rw⁻¹ e hr;
        unpinned =
            subst (λ x. is_unresolved_other lease.unresolved_growth x ≡ false) e
              (throw_if_passes (is_unresolved_other lease.unresolved_growth r) _ _ free);
        cursor_held = rw⁻¹ e' hk;
      }

  -- What the end of a growth writes to the lease.
  abbrev pub IsEnded : GrowthRequest → UsageLease → Result StoreGrowResult × UsageLease → Type 0
  IsEnded g lease (ok v, after) =
      (after.reservation ≡ apply_growth v lease.reservation)
      × (after.unresolved_growth ≡ none)
      × IsGrowthAnswer lease.reservation g v
  IsEnded g lease (throw e, after) =
      (after.reservation ≡ lease.reservation)
      × (after.unresolved_growth
          ≡ (if is_usage_state_error e then none else lease.unresolved_growth))

  end_growth-IsEnded :
      (g : GrowthRequest) (answer : Result Value) (lease : UsageLease)
      → IsEnded g lease (end_growth g answer lease)
  unfolding end_growth
  end_growth-IsEnded g answer lease =
      elim (Result-cases
        (answer >>= λ value. validate_store_growth_result value lease.reservation g)) [
          | inr (e, bad) ↦ elim (Bool-cases (is_usage_state_error e)) [
            | inl decided ↦ rw (bad, end_growth) (rw decided (refl, refl))
            | inr unclear ↦ rw (bad, end_growth) (rw unclear (refl, refl))
          ]
          | inl (v, good) ↦
              (let (value, _, valid) = >>=-eq-ok answer _ good in
                rw (good, end_growth)
                  (
                    refl,
                    refl,
                    validate_store_growth_result-IsGrowthAnswer value lease.reservation g v valid,
                  ))
        ]

module _ ⦃c : Collation⦄ {S : Type 0} (store : UsageStore S) (lease : UsageLease)
    (input : ReservationGrowthRequest) (w : World S) where
  -- Nothing happened.
  abbrev pub IsIdle : UsageLease → World S → Type 0
  IsIdle after w' = (after ≡ lease) × (w' ≡ w)

  -- One call of the store, for a request and by a cursor, with what its answer did to the lease.
  abbrev pub IsSent :
      GrowthRequest → String → Result StoreGrowResult × UsageLease × World S → Type 0
  IsSent g cursor (result, after, w') =
      let done = call (grow_operation store (growth_input lease g cursor)) w in
      (w' ≡ done.1) × ((result, after) ≡ end_growth g done.0 (with_unresolved (some g) lease))

  grow-cases :
      IsIdle (grow store input lease w).1 (grow store input lease w).2
      ⊎ ((g : GrowthRequest) × (cursor : String) × IsBegun lease input g cursor
          × IsSent g cursor (grow store input lease w))
  unfolding grow
  grow-cases = elim (Result-cases (begin_growth (is_some store.grow_reservation) lease input)) [
    | inr (e, bad) ↦ rw (bad, grow) (inl (refl, refl))
    | inl ((g, cursor), good) ↦
        rw (good, grow)
          (inr (
            g,
            cursor,
            begin_growth-IsBegun (is_some store.grow_reservation) lease input g cursor good,
            (refl, refl),
          ))
  ]

  unpinned-eq :
      (pinned g : GrowthRequest)
      → lease.unresolved_growth ≡ some pinned
      → is_unresolved_other lease.unresolved_growth g ≡ false
      → pinned ≡ g
  unpinned-eq pinned g held free =
      let same : not (same_growth_request pinned g) ≡ false =
        subst (λ o. is_unresolved_other o g ≡ false) held free in
      same_growth_request-eq pinned g (ground arith)

  -- While a growth of a lease is unresolved, a call of `grow` leaves the lease and the world alone,
  -- or it calls the store with that very request, by the lease's cursor, whatever it was given.
  pub grow-IsPinned :
      (pinned : GrowthRequest)
      → lease.unresolved_growth ≡ some pinned
      → IsIdle (grow store input lease w).1 (grow store input lease w).2
        ⊎ ((cursor : String) × IsSent pinned cursor (grow store input lease w))
  grow-IsPinned pinned held = elim grow-cases [
    | inl idle ↦ inl idle
    | inr (g, cursor, begun, sent) ↦ inr (
      cursor,
      subst (λ x. IsSent x cursor (grow store input lease w))
          (sym (unpinned-eq pinned g held begun.unpinned)) sent,
    )
  ]

  -- What `grow` may do to a lease. An accepted increment adds exactly the units of the request. A
  -- failure leaves the reservation as it was, and either nothing else happened, or the store
  -- decided and the lease is free, or the store's outcome is unknown and the request is pinned.
  abbrev pub IsGrown : Result StoreGrowResult × UsageLease × World S → Type 0
  IsGrown (ok (StoreGrowResult.accepted r), after, w') =
      (g : GrowthRequest) × (canonicalize_growth_request input ≡ ok g)
      × (after.reservation.reserved_units ≡ lease.reservation.reserved_units + g.additional_units)
      × (after.reservation.growth_cursor ≡ some r.growth_cursor)
      × (after.unresolved_growth ≡ none)
  IsGrown (ok (StoreGrowResult.denied r), after, w') =
      (after.reservation.reserved_units ≡ lease.reservation.reserved_units)
      × (after.reservation.growth_cursor ≡ some r.growth_cursor)
      × (after.unresolved_growth ≡ none)
  IsGrown (throw e, after, w') =
      (after.reservation ≡ lease.reservation)
      × (IsIdle after w'
          ⊎ ((is_usage_state_error e ≡ true) × (after.unresolved_growth ≡ none))
          ⊎ ((is_usage_state_error e ≡ false)
              × ((g : GrowthRequest) × (canonicalize_growth_request input ≡ ok g)
                  × (after.unresolved_growth ≡ some g))))

  ended :
      (g : GrowthRequest)
      → canonicalize_growth_request input ≡ ok g
      → (finished : Result StoreGrowResult × UsageLease) (w' : World S)
      → IsEnded g (with_unresolved (some g) lease) finished
      → IsGrown (finished.0, finished.1, w')
  unfolding apply_growth
  ended g canonical (ok (StoreGrowResult.accepted r), after) w' (e, free, answer) =
      (g, canonical, ap (λ x. x.reserved_units) e ∙ answer.3, ap (λ x. x.growth_cursor) e, free)
  ended g canonical (ok (StoreGrowResult.denied r), after) w' (e, free, answer) =
      (ap (λ x. x.reserved_units) e, ap (λ x. x.growth_cursor) e, free)
  ended g canonical (throw e, after) w' (same, pin) = elim (Bool-cases (is_usage_state_error e)) [
    | inl decided ↦ (same, inr (inl (decided, (rw decided at pin))))
    | inr unclear ↦ (same, inr (inr (unclear, (g, canonical, (rw unclear at pin)))))
  ]

  -- Every call of `grow` is one of these.
  pub grow-IsGrown : IsGrown (grow store input lease w)
  unfolding grow
  grow-IsGrown = elim (Result-cases (begin_growth (is_some store.grow_reservation) lease input)) [
    | inr (e, bad) ↦ rw (bad, grow) (refl, inl (refl, refl))
    | inl ((g, cursor), good) ↦
        (let begun =
            begin_growth-IsBegun (is_some store.grow_reservation) lease input g cursor good in
          let done = call (grow_operation store (growth_input lease g cursor)) w in
          rw (good, grow)
            (ended g begun.canonical (end_growth g done.0 (with_unresolved (some g) lease)) done.1
              (end_growth-IsEnded g done.0 (with_unresolved (some g) lease))))
  ]
