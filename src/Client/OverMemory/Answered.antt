-- ===== src/Client/OverMemory/Answered.antt =====
-- What `reserve` of a `MemoryUsageStore` answers passes the client's checks.
use mcp_usage_control.Memory.Scalar.{
  reserve, new_part, new_reservation, scalar_record, admit, reserve_checked, store_reservation,
}
use mcp_usage_control.Memory.Scalar
use mcp_usage_control.Budgets.Collisions.{canonicalize_budgets_idem}
use mcp_usage_control.Budgets.Canonical.{IsCanonical}
use mcp_usage_control.Memory.Checks.{Admission, check_reserve_input}
use mcp_usage_control.Client.Requests.{as_budget}
use mcp_usage_control.Client.Control.{as_reserve_input}
use mcp_usage_control.Base.{
  ◌∙◌, ok_injective, ℕ, ◌-◌, ◌≤◌, ◌≡◌, ◌∙◌, refl, ap, sym, subst, inl, inr, List, [], ◌∷◌, map,
  String, none, some, arith, All, Unique, ltb, leb, Bool-cases, Option-cases, Result-cases, Result,
  ok, throw, >>=-eq-ok,
}
use mcp_usage_control.JsMap.{JsMap, has, size}
use mcp_usage_control.Number.{
  assert_non_negative_integer_bound, safe_add, assert_positive_integer, nat,
  assert_non_negative_integer, max_safe_integer,
}
use mcp_usage_control.Types.{
  UsageRequest, CanonicalBudget, BudgetRemaining, ReservationRecord, StoreReserveResult,
}
use mcp_usage_control.Types.DenialReason.{quota_exceeded, duplicate_operation}
use mcp_usage_control.Collation.{Collation}
use mcp_usage_control.Budgets.{canonicalize_budgets, budget_keys}
use mcp_usage_control.Input.{validate_usage_request_envelope, IsIdentifier}
use mcp_usage_control.OperationKey.{operation_key_for}
use mcp_usage_control.Records.{clone_reservation_record}
use mcp_usage_control.Records.Copies.{clone_reservation_record-same}
use mcp_usage_control.Memory.State.{MemoryUsageStore}
use mcp_usage_control.Memory.Recovery.{recover_expired, after_recovery, used_at}
use mcp_usage_control.Memory.Limits.{
  remaining_by_budget, find_limiting, after_charge, assert_operation_capacity,
  assert_budget_capacity, track_recovery_at,
}
use mcp_usage_control.Memory.Outcomes.{keys_exceed}
use mcp_usage_control.Answers.Scalar.{ReserveAnswer, validate_store_reserve_result}
use mcp_usage_control.Answers.Encoding.{of_reserve_result}
use mcp_usage_control.Answers.Sound.{balance_keys}
use mcp_usage_control.Answers.Complete.{
  validate_store_reserve_result-accepts, refusal_accepted, IsLimiting, read_denial,
}
use mcp_usage_control.Memory.Action.{continue}

-- Keys that are identifiers, and limits that are safe integers.
abbrev pub IsValid : List CanonicalBudget → Type 0
IsValid bs = All (λ b. IsIdentifier b.key × (b.limit ≤ max_safe_integer)) bs

-- An answer as the client reads it.
abbrev pub read_answer : StoreReserveResult → ReserveAnswer
read_answer (StoreReserveResult.accepted r balances) = ReserveAnswer.accepted r balances
read_answer (StoreReserveResult.rejected reason limiting) =
    ReserveAnswer.rejected (read_denial reason limiting)

module _ (units : ℕ) (used : JsMap ℕ) where
  charged_keys :
      (bs : List CanonicalBudget)
      → balance_keys (after_charge units (remaining_by_budget used bs)) ≡ budget_keys bs
  unfolding after_charge remaining_by_budget
  charged_keys [] = refl
  charged_keys (b ∷ bs) = ap (λ ks. b.key ∷ ks) (charged_keys bs)

  charged_safe :
      (bs : List CanonicalBudget)
      → IsValid bs
      → All (λ b. b.remaining ≤ max_safe_integer) (after_charge units (remaining_by_budget used bs))
  unfolding after_charge remaining_by_budget
  charged_safe [] v = tt
  charged_safe (b ∷ bs) v = (let z = v.0.1 in omega arith, charged_safe bs v.1)

  find_limiting-IsLimiting :
      (bs : List CanonicalBudget)
      → IsValid bs
      → IsLimiting (find_limiting units (remaining_by_budget used bs))
  unfolding find_limiting remaining_by_budget
  find_limiting-IsLimiting [] v = tt
  find_limiting-IsLimiting (b ∷ bs) v =
      elim (Bool-cases (ltb (b.limit - used_at b.key used) units)) [
        | inl short ↦
            rw short (let (id, bound) = v.0 in (let p = id.0 in ground arith, omega arith))
        | inr enough ↦ rw enough (find_limiting-IsLimiting bs v.1)
      ]

module _ (request : UsageRequest) (units : ℕ) (budgets : List CanonicalBudget) where
  -- An answer that the client's checks accept and read as it is.
  abbrev pub IsAnswered : Result StoreReserveResult × MemoryUsageStore → Type 0
  IsAnswered (ok answer, t) =
      validate_store_reserve_result (of_reserve_result answer) request units budgets
      ≡ ok (read_answer answer)
  IsAnswered (throw e, t) = Unit {0}

  module _ (uuid : String) (expires_at : ℕ) (s : MemoryUsageStore) where
    abbrev admitted : ReservationRecord
    admitted =
        scalar_record (new_reservation request uuid units budgets expires_at)
          (new_part units budgets)

    abbrev left : List BudgetRemaining
    left = after_charge units (remaining_by_budget s.used budgets)

    admitted-IsAnswered :
        Unique (budget_keys budgets)
        → IsValid budgets
        → (x : ReservationRecord) → clone_reservation_record admitted ≡ ok x
        → (t : MemoryUsageStore) → IsAnswered (ok (StoreReserveResult.accepted x left), t)
    unfolding new_reservation
    admitted-IsAnswered unique valid x copied t =
        let (same, handed) = clone_reservation_record-same admitted x copied in
        subst
          (λ r.
            validate_store_reserve_result (of_reserve_result (StoreReserveResult.accepted r left))
              request units budgets
            ≡ ok (ReserveAnswer.accepted r left))
          same
          (validate_store_reserve_result-accepts request units budgets (operation_key_for request)
            expires_at admitted.growth_cursor left handed unique (charged_keys units s.used budgets)
            (charged_safe units s.used budgets valid))

    admit-IsAnswered :
        Unique (budget_keys budgets)
        → IsValid budgets
        → IsAnswered (admit uuid request units budgets expires_at s)
    unfolding admit assert_operation_capacity assert_budget_capacity track_recovery_at
        store_reservation
    admit-IsAnswered unique valid =
        elim (Bool-cases (leb s.max_retained_operations (size s.reservations))) [
          | inl full ↦ rw full tt
          | inr room ↦ elim (Result-cases (clone_reservation_record admitted)) [
            | inr (e, bad) ↦ elim (Bool-cases (ltb 0 units)) [
              | inl positive ↦ elim (Bool-cases (keys_exceed budgets s)) [
                | inl full ↦ rw (room, positive, full) tt
                | inr fits ↦ rw (room, positive, fits, bad) tt
              ]
              | inr none_asked ↦ rw (room, none_asked, bad) tt
            ]
            | inl (x, good) ↦ elim (Bool-cases (ltb 0 units)) [
              | inl positive ↦ elim (Bool-cases (keys_exceed budgets s)) [
                | inl full ↦ rw (room, positive, full) tt
                | inr fits ↦
                    rw (room, positive, fits, good) (admitted-IsAnswered unique valid x good s)
              ]
              | inr none_asked ↦
                  rw (room, none_asked, good) (admitted-IsAnswered unique valid x good s)
            ]
          ]
        ]

    reserve_checked-IsAnswered :
        Unique (budget_keys budgets)
        → IsValid budgets
        → IsAnswered (reserve_checked uuid request units budgets expires_at s)
    unfolding reserve_checked
    reserve_checked-IsAnswered unique valid =
        elim (Bool-cases (has (operation_key_for request) s.operations)) [
          | inl known ↦
              rw known (refusal_accepted request units budgets duplicate_operation none tt)
          | inr new ↦
              elim (Option-cases (find_limiting units (remaining_by_budget s.used budgets))) [
                | inr (limiting, short) ↦
                    rw (new, short)
                      (refusal_accepted request units budgets quota_exceeded (some limiting) (
                        subst IsLimiting short
                          (find_limiting-IsLimiting units s.used budgets valid)))
                | inl enough ↦ rw (new, enough) (admit-IsAnswered unique valid)
              ]
        ]

check_quoted :
    ⦃c : Collation⦄ (now units ttl_ms : ℕ) (budgets : List CanonicalBudget) (request : UsageRequest)
    (a : Admission)
    → IsCanonical budgets
    → check_reserve_input now (as_reserve_input request units budgets ttl_ms) ≡ ok a
    → (a.units ≡ units) × (a.budgets ≡ budgets)
unfolding check_reserve_input
check_quoted now units ttl_ms budgets request a canonical h =
    let (n, hn, h1) = >>=-eq-ok (assert_non_negative_integer (nat units)) _ h in
    let (bs, hbs, h2) = >>=-eq-ok (canonicalize_budgets (map as_budget budgets)) _ h1 in
    let (ttl, _, h3) = >>=-eq-ok (assert_positive_integer (nat ttl_ms)) _ h2 in
    let (_, _, h4) = >>=-eq-ok (validate_usage_request_envelope request) _ h3 in
    let (at, _, h5) = >>=-eq-ok (safe_add now ttl) _ h4 in
    let (same, _) = assert_non_negative_integer_bound (nat units) n hn in
    let e : n ≡ units = cc in
    let again = canonicalize_budgets_idem budgets canonical in
    let e' : budgets ≡ bs = ok_injective (sym again ∙ hbs) in
    let whole = ok_injective h5 in
    (sym (ap (λ x. x.units) whole) ∙ e, sym (ap (λ x. x.budgets) whole) ∙ sym e')

-- `reserve` of the store, on the budgets of a checked quote.
pub reserve-IsAnswered :
    ⦃c : Collation⦄ (now : ℕ) (uuid : String) (request : UsageRequest) (units ttl_ms : ℕ)
    (budgets : List CanonicalBudget) (s : MemoryUsageStore)
    → Unique (budget_keys budgets)
    → IsCanonical budgets
    → IsAnswered request units budgets
        (Scalar.reserve now uuid (as_reserve_input request units budgets ttl_ms) s)
unfolding reserve after_recovery
reserve-IsAnswered now uuid request units ttl_ms budgets s unique canonical =
    elim (Result-cases (check_reserve_input now (as_reserve_input request units budgets ttl_ms))) [
      | inr (e, bad) ↦ rw bad tt
      | inl (a, good) ↦
          (let (same, kept) = check_quoted now units ttl_ms budgets request a canonical good in
            rw (good, same, kept) (recovered a.expires_at (recover_expired now s)))
    ]
  where
    recovered :
        (expires_at : ℕ) (x : Result (Unit {0}) × MemoryUsageStore)
        → IsAnswered request units budgets
            (continue (λ _. reserve_checked uuid request units budgets expires_at) x)
    recovered expires_at (ok _, t) =
        reserve_checked-IsAnswered request units budgets uuid expires_at t unique canonical.valid
    recovered expires_at (throw e, t) = tt
