-- ===== src/Memory/Covered/Invariant.antt =====
-- The accounting invariant of `MemoryUsageStore` holds after any sequence of calls on a new store.
use mcp_usage_control.Base.{
  refl, subst, [], occurrences-zero, ◌∷◌, inl, inr, Bool-cases, get_or, >>=-eq-ok, eq_iff, ◌≤◌,
  arith, total, ◌+◌, ok, false, includes, ◌++◌, ℕ, ◌≡◌, occurrences, List, String,
}
use mcp_usage_control.Memory.State.{
  scalar, vector, liable, dimension_budget_keys, Mode, MemoryUsageStore, InternalReservation,
  internal_reservation_budget_keys,
}
use mcp_usage_control.Memory.Moves.{
  IsInvariant, recovers, marks, extends, admits, settles, grows, admits_vector, settles_vector,
  grows_vector, retires,
}
use mcp_usage_control.Memory.Covered.{all_active, IsCovered}
use mcp_usage_control.Memory.Maintenance.{
  default_memory_max_retained_budget_keys, default_memory_max_retained_operations,
  MemoryUsageStoreOptions, new_memory_usage_store, is_referenced,
}
use mcp_usage_control.Collation.{Collation}
use mcp_usage_control.JsMap.Sums.{sum}
use mcp_usage_control.Types.{VectorReservationDimension}
use mcp_usage_control.JsMap.{delete, JsMap}
use mcp_usage_control.Memory.Calls.{run-keeps, run, Call}
use mcp_usage_control.Memory.Usage.{used_at-delete, dimension_held, held}
use mcp_usage_control.Memory.Recovery.{used_at}
use mcp_usage_control.Memory.Scalar.{is_settled}
use mcp_usage_control.Memory.Covered.Recover.{recover_expired-KeepsCovered}
use mcp_usage_control.Number.{nat, assert_positive_integer}
use mcp_usage_control.Memory.Covered.Scalar.{finish_settlement-covers, put_reservation-covers}
use mcp_usage_control.Memory.Covered.Writes.{
  attempt_vector_growth-covers, finish_vector_settlement-covers, admit_vector-covers,
  attempt_growth-covers, admit-covers,
}

occurrences-append :
    (k : String) (xs ys : List String)
    → occurrences k (xs ++ ys) ≡ occurrences k xs + occurrences k ys
occurrences-append k [] ys = omega arith
occurrences-append k (x ∷ xs) ys = omega (arith, occurrences-append k xs ys)

-- A key that no dimension names is not held.
dimension_unheld :
    (k : String) (ds : List VectorReservationDimension)
    → occurrences k (dimension_budget_keys ds) ≡ 0
    → total (dimension_held k) ds ≡ 0
dimension_unheld k [] h = refl
dimension_unheld k (d ∷ ds) h =
    let split = occurrences-append k d.budget_keys (dimension_budget_keys ds) in
    let none_here : occurrences k d.budget_keys ≡ 0 = omega (arith, split, h) in
    let none_later : occurrences k (dimension_budget_keys ds) ≡ 0 = omega (arith, split, h) in
    rw none_here (omega (arith, dimension_unheld k ds none_later))

-- A reservation that does not name the key holds nothing of it.
unheld :
    (k : String) (r : InternalReservation) (m : Mode)
    → r.mode ≡ m
    → includes k (internal_reservation_budget_keys r) ≡ false
    → held k r ≡ 0
unfolding internal_reservation_budget_keys
unheld k r (scalar p) e h =
    let apart : includes k p.budget_keys ≡ false = (rw e at h) in
    rw e (rw (occurrences-zero k p.budget_keys apart) (omega arith))
unheld k r (vector p) e h =
    let apart : includes k (dimension_budget_keys p.dimensions) ≡ false = (rw e at h) in
    rw e (
      dimension_unheld k p.dimensions
        (occurrences-zero k (dimension_budget_keys p.dimensions) apart))

-- Where no active reservation names the key, nothing is held of it.
pub unreferenced :
    (k : String) (m : JsMap InternalReservation) → is_referenced k m ≡ false → all_active k m ≡ 0
unfolding is_referenced sum
unreferenced k [] h = refl
unreferenced k ((id, r) ∷ rest) h =
    let later = unreferenced k rest (ground arith) in
    elim (Bool-cases (is_settled r.state)) [
      | inl over ↦ rw over (omega (arith, later))
      | inr live ↦
          (let none_here : includes k (internal_reservation_budget_keys r) ≡ false = ground arith in
            rw live (omega (arith, unheld k r r.mode refl none_here, later)))
    ]

retire-covers :
    (key : String) (s : MemoryUsageStore)
    → is_referenced key s.reservations ≡ false
    → IsCovered s
    → IsCovered (record s { used = delete key s.used })
retire-covers key s h c k =
    ground
      (arith, eq_iff key k, used_at-delete k key s.used, unreferenced key s.reservations h, c k)

-- Every write of the store, each under its guards, keeps the units that active reservations hold
-- of every key within the units used of the key.
pub IsCovered-IsInvariant : ⦃c : Collation⦄ → IsInvariant IsCovered
IsCovered-IsInvariant _ _ (recovers now s) c = recover_expired-KeepsCovered now s c
IsCovered-IsInvariant _ _ (marks id r s is_open) c =
    put_reservation-covers id (record r { state = liable }) r s is_open.found
      (λ k. rw (is_open.unsettled) (omega arith)) c
IsCovered-IsInvariant _ _ (extends id r at s is_open) c =
    put_reservation-covers id (record r { expires_at = at }) r s is_open.found (λ k. omega arith) c
IsCovered-IsInvariant _ _ (admits uuid request units budgets at s new enough) c =
    admit-covers uuid request at s units budgets c
IsCovered-IsInvariant _ _ (settles id r p actual outcome tombstone s is_open mode le) c =
    finish_settlement-covers id r p actual outcome tombstone s is_open mode c
IsCovered-IsInvariant _ _ (grows g cursor r p s is_open mode same) c =
    attempt_growth-covers g cursor r p s is_open mode same c
IsCovered-IsInvariant _ _ (admits_vector uuid request ds at s new enough) c =
    admit_vector-covers uuid request at s ds c
IsCovered-IsInvariant _ _ (settles_vector id r p actuals outcome tombstone s is_open mode) c =
    finish_vector_settlement-covers id r p actuals outcome tombstone s is_open mode c
IsCovered-IsInvariant _ _ (grows_vector g cursor r p s is_open mode same) c =
    attempt_vector_growth-covers g cursor r p s is_open mode same c
IsCovered-IsInvariant _ _ (retires key s free) c = retire-covers key s free c

new-IsCovered :
    (options : MemoryUsageStoreOptions) (s : MemoryUsageStore)
    → new_memory_usage_store options ≡ ok s
    → IsCovered s
unfolding new_memory_usage_store sum
new-IsCovered options s h k =
    let (ttl, ok_ttl, h1) =
      >>=-eq-ok (assert_positive_integer (get_or options.idempotency_ttl_ms (nat 86400000))) _ h in
    let (operations, ok_operations, h2) =
      >>=-eq-ok
        (assert_positive_integer
          (get_or options.max_retained_operations (nat default_memory_max_retained_operations)))
        _ h1 in
    let (keys, ok_keys, h3) =
      >>=-eq-ok
        (assert_positive_integer
          (get_or options.max_retained_budget_keys (nat default_memory_max_retained_budget_keys)))
        _ h2 in
    let e : [] ≡ s.reservations = cc in
    subst (λ rs. all_active k rs ≤ used_at k s.used) e (omega arith)

-- After any sequence of calls on a new store, at any times and whether each call returned or threw,
-- the units that unsettled reservations hold of a budget key, over all their budgets and dimensions,
-- are at most the units used of that key.
pub run-IsCovered :
    ⦃c : Collation⦄ (options : MemoryUsageStoreOptions) (s : MemoryUsageStore)
    (calls : List (ℕ × Call)) (k : String)
    → new_memory_usage_store options ≡ ok s
    → all_active k (run calls s).reservations ≤ used_at k (run calls s).used
run-IsCovered options s calls k new =
    run-keeps IsCovered IsCovered-IsInvariant calls s (new-IsCovered options s new) k
