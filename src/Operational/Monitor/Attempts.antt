-- ===== src/Operational/Monitor/Attempts.antt =====
-- What the counters of a monitor say of one another.
use mcp_usage_control.Base.{
  ℕ, ◌+◌, ◌≤◌, ◌≡◌, refl, arith, List, [], ◌∷◌, Option, min, ok, ok_injective, >>=-eq-ok, subst,
}
use mcp_usage_control.Collation.{Collation}
use mcp_usage_control.Number.{max_safe_integer}
use mcp_usage_control.Memory.State.{pending_released, liable_retained, Recovery}
use mcp_usage_control.Events.{
  Phase, quote, reserve, mark_liable, renew, settle, UsageEvent, reserve_accepted, reserve_denied,
  vector_reserve_accepted, vector_reserve_denied, settlement_completed, vector_settlement_completed,
  reservation_recovered, vector_reservation_recovered, operation_error,
}
use mcp_usage_control.Operational.{UsageRuntimeIdentity}
use mcp_usage_control.Operational.Monitor.{
  count_accepted, LifecycleCounters, UsageOperationalMonitor, add, increment, count_error,
  count_attempt, count_event, count_accepted, count_denied, count_settled, count_recovered,
  count_failed, on_event, on_invalid_settlement_outcome, new_monitor, check_identity,
}

add-bound : (n k : ℕ) → add n k ≤ max_safe_integer
unfolding add
add-bound n k = ground arith

increment-bound : (n : ℕ) → increment n ≤ max_safe_integer
unfolding increment
increment-bound n = add-bound n 1

increment-min : (n : ℕ) → n ≤ max_safe_integer → increment n ≡ min max_safe_integer (n + 1)
unfolding increment add
increment-min n h = ground arith

-- A sum counted along with its first part.
increment_sum :
    (sum part rest : ℕ)
    → part ≤ max_safe_integer
    → sum ≡ min max_safe_integer (part + rest)
    → increment sum ≡ min max_safe_integer (increment part + rest)
increment_sum sum part rest h e =
    let a = increment-min part h in let b = increment-min sum (omega arith) in omega arith

-- A sum of three counters that stays at the greatest safe integer, as they do.
abbrev pub IsTotal : ℕ → ℕ → ℕ → ℕ → Type 0
IsTotal sum a b e =
    (a ≤ max_safe_integer)
    × (b ≤ max_safe_integer)
    × (e ≤ max_safe_integer)
    × (sum ≡ min max_safe_integer (a + b + e))

module _ (sum a b e : ℕ) (h : IsTotal sum a b e) where
  first-IsTotal : IsTotal (increment sum) (increment a) b e
  first-IsTotal =
      let z = increment_sum sum a (b + e) h.0 (omega arith) in
      (increment-bound a, h.1, h.2, omega arith)

  second-IsTotal : IsTotal (increment sum) a (increment b) e
  second-IsTotal =
      let z = increment_sum sum b (a + e) h.1 (omega arith) in
      (h.0, increment-bound b, h.2, omega arith)

  third-IsTotal : IsTotal (increment sum) a b (increment e)
  third-IsTotal =
      let z = increment_sum sum e (a + b) h.2 (omega arith) in
      (h.0, h.1, increment-bound e, omega arith)

-- The attempts at reservations are the accepted, the refused and the failed ones together, and
-- the attempts at settlements the completed and the failed ones.
abbrev pub IsConsistent : LifecycleCounters → Type 0
IsConsistent c =
    IsTotal c.observed_attempts.reserve c.reserve_accepted c.reserve_denied c.errors.reserve
    × IsTotal c.observed_attempts.settle c.settlements_completed 0 c.errors.settle

module _ (c : LifecycleCounters) (h : IsConsistent c) where
  accepted-IsConsistent : IsConsistent (count_accepted c)
  unfolding count_attempt
  accepted-IsConsistent = (first-IsTotal _ _ _ _ h.0, h.1)

  denied-IsConsistent : IsConsistent (count_denied c)
  unfolding count_attempt
  denied-IsConsistent = (second-IsTotal _ _ _ _ h.0, h.1)

  settled-IsConsistent : IsConsistent (count_settled c)
  unfolding count_attempt
  settled-IsConsistent = (h.0, first-IsTotal _ _ _ _ h.1)

  recovered-IsConsistent : (r : Recovery) (n : ℕ) → IsConsistent (count_recovered r n c)
  recovered-IsConsistent pending_released n = h
  recovered-IsConsistent liable_retained n = h

  failed-IsConsistent : (phase : Phase) → IsConsistent (count_failed phase c)
  unfolding count_attempt count_error
  failed-IsConsistent quote = h
  failed-IsConsistent reserve = (third-IsTotal _ _ _ _ h.0, h.1)
  failed-IsConsistent mark_liable = h
  failed-IsConsistent renew = h
  failed-IsConsistent settle = (h.0, third-IsTotal _ _ _ _ h.1)

  pub count_event-IsConsistent : (event : UsageEvent) → IsConsistent (count_event event c)
  unfolding count_event
  count_event-IsConsistent (reserve_accepted base identity e) = accepted-IsConsistent
  count_event-IsConsistent (vector_reserve_accepted base identity e) = accepted-IsConsistent
  count_event-IsConsistent (reserve_denied base identity e) = denied-IsConsistent
  count_event-IsConsistent (vector_reserve_denied base identity e) = denied-IsConsistent
  count_event-IsConsistent (settlement_completed base identity e) = settled-IsConsistent
  count_event-IsConsistent (vector_settlement_completed base identity e) = settled-IsConsistent
  count_event-IsConsistent (reservation_recovered base e identifiers units) =
      recovered-IsConsistent e.recovery e.count
  count_event-IsConsistent (vector_reservation_recovered base e dimensions budgets) =
      recovered-IsConsistent e.recovery e.count
  count_event-IsConsistent (operation_error base identity e) = failed-IsConsistent e.phase

-- What a monitor is handed.
pub data Notice : Type 0 where
  event : UsageEvent → Notice
  invalid_outcome : Notice

abbrev pub observe : List Notice → UsageOperationalMonitor → UsageOperationalMonitor
observe [] m = m
observe (event e ∷ rest) m = observe rest (on_event e m)
observe (invalid_outcome ∷ rest) m = observe rest (on_invalid_settlement_outcome m)

observe-keeps :
    (notices : List Notice) (m : UsageOperationalMonitor)
    → IsConsistent m.counters
    → IsConsistent (observe notices m).counters
unfolding on_event on_invalid_settlement_outcome
observe-keeps [] m h = h
observe-keeps (event e ∷ rest) m h = observe-keeps rest (on_event e m) (
    count_event-IsConsistent
      (record m.counters { events_observed = increment m.counters.events_observed }) h e)
observe-keeps (invalid_outcome ∷ rest) m h = observe-keeps rest (on_invalid_settlement_outcome m) h

-- A monitor that the constructor makes, whatever events it is then handed: the observed attempts at reservations are the
-- accepted, the refused and the failed ones together, the attempts at settlements are the
-- completed and the failed ones, both cut off at the greatest safe integer, and no counter that
-- these sums name exceeds it.
pub observe-IsConsistent :
    ⦃c : Collation⦄ (identity : Option UsageRuntimeIdentity) (m : UsageOperationalMonitor)
    (notices : List Notice)
    → new_monitor identity ≡ ok m
    → IsConsistent (observe notices m).counters
unfolding new_monitor
observe-IsConsistent identity m notices made =
    let (checked, _, h) = >>=-eq-ok (check_identity identity) _ made in
    observe-keeps notices m (
      subst (λ x. IsConsistent x.counters) (ok_injective h)
        (
          (omega arith, omega arith, omega arith, refl),
          (omega arith, omega arith, omega arith, refl),
        ))
