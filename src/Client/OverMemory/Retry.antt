-- ===== src/Client/OverMemory/Retry.antt =====
-- A growth whose answer is lost on its way to the client, and its retry.
use mcp_usage_control.Base.{
  ℕ, ◌≡◌, ◌∙◌, refl, ap, eq_refl, true, String, none, some, ok, throw, Failure, other_error,
}
use mcp_usage_control.Types.{GrowReservationInput, StoreGrowResult}
use mcp_usage_control.Collation.{Collation}
use mcp_usage_control.Memory.State.{MemoryUsageStore}
use mcp_usage_control.Memory.Checks.{Increment, check_growth_input}
use mcp_usage_control.Memory.Recovery.{recover_expired, after_recovery}
use mcp_usage_control.Memory.Growth
use mcp_usage_control.Memory.Growth.{
  grow_found, grow_reservation, replay_growth_result, same_budgets, same_fingerprint,
}
use mcp_usage_control.Memory.Replay.{eqb_refl, same_budgets_refl}
use mcp_usage_control.Memory.Replay.Any.{grow_found-replayed}
use mcp_usage_control.Answers.Scalar.{GrowthRequest}
use mcp_usage_control.Answers.Encoding.{of_grow_result}
use mcp_usage_control.Client.{UsageStore, World, is_usage_state_error}
use mcp_usage_control.Client.Requests.{ReservationGrowthRequest, same_growth_request}
use mcp_usage_control.Client.Lease.{
  UsageLease, begin_growth, growth_input, with_unresolved, end_growth, grow,
}
use mcp_usage_control.Client.Lease.Pinning.{begin_growth-IsBegun}
use mcp_usage_control.Client.OverMemory.{memory_usage_store, answered}

abbrev pub lost : Failure
lost = other_error none

-- A memory store behind a connection that drops the answer to a growth.
abbrev pub losing_store : ⦃c : Collation⦄ → ℕ → String → UsageStore MemoryUsageStore
losing_store now uuid = record (memory_usage_store now uuid) {
  grow_reservation = some (λ input s. (throw lost, (Growth.grow_reservation now uuid input s).1));
}

module _ ⦃c : Collation⦄ (now : ℕ) (uuid : String) (input : GrowReservationInput) (g : Increment)
    (w s : MemoryUsageStore) where
  after_recovered :
      check_growth_input input ≡ ok g
      → recover_expired now w ≡ (ok tt, s)
      → Growth.grow_reservation now uuid input w ≡ grow_found g uuid s
  unfolding grow_reservation after_recovery
  after_recovered checked recovered = rw (checked, recovered) refl

same_growth_request_refl : (g : GrowthRequest) → same_growth_request g g ≡ true
unfolding same_growth_request same_fingerprint
same_growth_request_refl g =
    rw (eq_refl g.increment_id, eqb_refl g.additional_units, same_budgets_refl g.budgets) refl

module _ ⦃c : Collation⦄ (lease : UsageLease) (input : ReservationGrowthRequest)
    (request : GrowthRequest) (cursor : String)
    (begun : begin_growth true lease input ≡ ok (request, cursor)) where
  abbrev pinned : UsageLease
  pinned = with_unresolved (some request) lease

  begun_again : begin_growth true pinned input ≡ ok (request, cursor)
  unfolding begin_growth
  begun_again =
      let b = begin_growth-IsBegun true lease input request cursor begun in
      rw (b.canonical, same_growth_request_refl request, b.cursor_held) refl

  first_call :
      (now : ℕ) (uuid : String) (w : World MemoryUsageStore) (v : StoreGrowResult)
      (t : MemoryUsageStore)
      → Growth.grow_reservation now uuid (growth_input lease request cursor) w.store ≡ (ok v, t)
      → grow (losing_store now uuid) input lease w ≡ (throw lost, pinned, record w { store = t })
  unfolding grow end_growth is_usage_state_error
  first_call now uuid w v t answered =
      rw (begun, grow) (ap (λ x. (throw lost, pinned, record w { store = x.1 })) answered)

  second_call :
      (later : ℕ) (uuid : String) (w : World MemoryUsageStore) (v : StoreGrowResult)
      (t : MemoryUsageStore)
      → Growth.grow_reservation later uuid (growth_input lease request cursor) w.store ≡ (ok v, t)
      → let done = end_growth request (ok (of_grow_result v)) pinned in
        grow (memory_usage_store later uuid) input pinned w
        ≡ (done.0, done.1, record w { store = t })
  unfolding grow growth_input
  second_call later uuid w v t e =
      rw (begun_again, grow)
        (ap
          (λ x.
            let call = answered of_grow_result x in
            let done = end_growth request call.0 pinned in
            (done.0, done.1, record w { store = call.1 }))
          e)

  -- A lease grows on a memory store. The store answers the growth, but the answer is lost; the
  -- client asks again with the same input, at a time at which no reservation is due for recovery.
  -- The first call fails and pins the request. The second leaves the store as the first left it, so
  -- that the increment is charged once, and hands the lease the answer of the first, marked as a
  -- replay.
  pub grow-lost_answer :
      (now later : ℕ) (uuid uuid' : String) (w : World MemoryUsageStore) (g : Increment)
      (s t : MemoryUsageStore) (v : StoreGrowResult)
      → check_growth_input (growth_input lease request cursor) ≡ ok g
      → recover_expired now w.store ≡ (ok tt, s)
      → grow_found g uuid s ≡ (ok v, t)
      → recover_expired later t ≡ (ok tt, t)
      → let first = grow (losing_store now uuid) input lease w in
        let second = grow (memory_usage_store later uuid') input first.1 first.2 in
        let done = end_growth request (ok (of_grow_result (replay_growth_result v))) pinned in
        (first.0 ≡ throw lost)
        × (first.1 ≡ pinned)
        × (first.2.store ≡ t)
        × (second.2.store ≡ t)
        × (second.0 ≡ done.0)
        × (second.1 ≡ done.1)
  grow-lost_answer now later uuid uuid' w g s t v checked recovered answered quiet =
      let call = growth_input lease request cursor in
      let a =
        first_call now uuid w v t
          (after_recovered now uuid call g w.store s checked recovered ∙ answered) in
      let b =
        second_call later uuid' (record w { store = t }) (replay_growth_result v) t
          (after_recovered later uuid' call g t t checked quiet
            ∙ grow_found-replayed g uuid s v t uuid' answered) in
      rw (a, b) (refl, refl, refl, refl, refl, refl)
