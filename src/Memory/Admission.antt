-- ===== src/Memory/Admission.antt =====
-- What an admission by `reserve` promises of the balances.
use mcp_usage_control.Base.{
  eqb, leb, Failure, ◌⊎◌, ◌<◌, ltb, Result, ◌-◌, includes, ◌≡◌, ◌==◌, occurrences, List, map, ℕ,
  String, refl, subst, inl, inr, false, none, some, [], ◌∷◌, arith, Bool-cases, Option-cases,
  Result-cases, ok, throw, All, Unique, ◌≤◌, ◌+◌, ◌*◌, occurrences-zero, eq_iff, >>=-eq-ok,
}
use mcp_usage_control.Types.{
  ReserveInput, ReservationRecord, UsageRequest, CanonicalBudget, StoreReserveResult,
}
use mcp_usage_control.Types.StoreReserveResult.{accepted, rejected}
use mcp_usage_control.Memory.Limits.{
  track_recovery_at, assert_budget_capacity, assert_operation_capacity, remaining_by_budget,
  find_limiting,
}
use mcp_usage_control.JsMap.{size, has, JsMap}
use mcp_usage_control.Memory.State.{MemoryUsageStore}
use mcp_usage_control.Memory.Recovery.{recover_expired, after_recovery, used_at}
use mcp_usage_control.Budgets.{canonicalize_budgets, budget_keys}
use mcp_usage_control.Memory.Scalar.{
  new_part, new_reservation, scalar_record, reserve, store_reservation, admit, charge_if_positive,
  reserve_checked,
}
use mcp_usage_control.Memory.Usage.{used_at-charge_budgets}
use mcp_usage_control.OperationKey.{operation_key_for}
use mcp_usage_control.Memory.Checks.{Admission, check_reserve_input}
use mcp_usage_control.Records.{clone_reservation_record}
use mcp_usage_control.Collation.{IsStrictOn, Collation}
use mcp_usage_control.Number.{safe_add, assert_positive_integer, assert_non_negative_integer}
use mcp_usage_control.Memory.Action.{continue}
use mcp_usage_control.Input.{validate_usage_request_envelope}
use mcp_usage_control.Budgets.Canonical.{input_key, canonicalize_budgets-Unique}
use mcp_usage_control.Memory.Outcomes.{keys_exceed}

pub Unique-occurrences : (k : String) (ks : List String) → Unique ks → occurrences k ks ≤ 1
Unique-occurrences k [] h = omega arith
Unique-occurrences k (j ∷ ks) (apart, h) = elim (Bool-cases (j == k)) [
  | inl same ↦
      (let e : j ≡ k = ground (arith, eq_iff j k) in
        let none_later = occurrences-zero k ks (subst (λ x. includes x ks ≡ false) e apart) in
        rw same (omega (arith, none_later)))
  | inr other ↦ rw other (omega (arith, Unique-occurrences k ks h))
]

pub mul_le_one : (n units : ℕ) → n ≤ 1 → n * units ≤ units
mul_le_one n units h = grind arith

-- Where no balance limits the units, each balance suffices.
find_limiting-none :
    (units : ℕ) (used : JsMap ℕ) (bs : List CanonicalBudget)
    → find_limiting units (remaining_by_budget used bs) ≡ none
    → All (λ b. units ≤ b.limit - used_at b.key used) bs
unfolding find_limiting remaining_by_budget
find_limiting-none units used [] h = tt
find_limiting-none units used (b ∷ bs) h =
    elim (Bool-cases (ltb (b.limit - used_at b.key used) units)) [
      | inl short ↦ absurd (
          let z : some (record { key = b.key; remaining = b.limit - used_at b.key used }) ≡ none =
            (rw short at h) in
          cc)
      | inr enough ↦ (ground arith, find_limiting-none units used bs (rw enough at h))
    ]

module _ (units : ℕ) (budgets : List CanonicalBudget) (s : MemoryUsageStore) where
  -- Every key is charged the units once for each budget with the key, and no budget is used beyond
  -- its limit unless no units are asked for.
  abbrev pub IsCharged : JsMap ℕ → Type 0
  IsCharged used =
      ((k : String)
        → used_at k used ≡ used_at k s.used + occurrences k (budget_keys budgets) * units)
      × ((units ≡ 0) ⊎ All (λ b. used_at b.key used ≤ b.limit) budgets)

  -- An acceptance has charged the budgets, and a rejection has left the store alone.
  abbrev pub IsAdmission : Result StoreReserveResult × MemoryUsageStore → Type 0
  IsAdmission (ok (accepted r balances), t) = IsCharged t.used
  IsAdmission (ok (rejected reason limiting), t) = t ≡ s
  IsAdmission (throw e, t) = Unit

  limits_kept :
      (used : JsMap ℕ) (bs : List CanonicalBudget)
      → ((k : String) → used_at k used ≤ used_at k s.used + units)
      → 0 < units
      → All (λ b. units ≤ b.limit - used_at b.key s.used) bs
      → All (λ b. used_at b.key used ≤ b.limit) bs
  limits_kept used [] rise positive h = tt
  limits_kept used (b ∷ bs) rise positive (enough, h) =
      (omega (arith, rise b.key), limits_kept used bs rise positive h)

  charged :
      Unique (budget_keys budgets)
      → find_limiting units (remaining_by_budget s.used budgets) ≡ none
      → IsCharged (charge_if_positive budgets units s.used)
  charged unique enough = (
    rises,
    elim (Bool-cases (eqb units 0)) [
      | inl nothing ↦ inl (ground arith)
      | inr asked ↦ inr (
          limits_kept (charge_if_positive budgets units s.used) budgets
            (λ k. omega (
              arith,
              rises k,
              mul_le_one (occurrences k (budget_keys budgets)) units
                  (Unique-occurrences k (budget_keys budgets) unique),
            ))
            (ground arith) (find_limiting-none units s.used budgets enough))
    ],
  )
    where
      rises :
          (k : String)
          → used_at k (charge_if_positive budgets units s.used)
            ≡ used_at k s.used + occurrences k (budget_keys budgets) * units
      rises k = elim (Bool-cases (ltb 0 units)) [
        | inl positive ↦ rw positive (used_at-charge_budgets k budgets units s.used)
        | inr nothing ↦ rw nothing (let z : units ≡ 0 = ground arith in rw z (omega arith))
      ]

  reserve_checked-IsAdmission :
      (uuid : String) (request : UsageRequest) (expires_at : ℕ)
      → Unique (budget_keys budgets)
      → IsAdmission (reserve_checked uuid request units budgets expires_at s)
  unfolding reserve_checked admit assert_operation_capacity assert_budget_capacity track_recovery_at
      store_reservation
  reserve_checked-IsAdmission uuid request expires_at unique =
      elim (Bool-cases (has (operation_key_for request) s.operations)) [
        | inl known ↦ rw known refl
        | inr new ↦ elim (Option-cases (find_limiting units (remaining_by_budget s.used budgets))) [
          | inr (limiting, short) ↦ rw (new, short) refl
          | inl enough ↦ rw (new, enough) (admits (charged unique enough))
        ]
      ]
    where
      admits :
          IsCharged (charge_if_positive budgets units s.used)
          → IsAdmission (admit uuid request units budgets expires_at s)
      admits all = elim (Bool-cases (leb s.max_retained_operations (size s.reservations))) [
        | inl full ↦ rw full tt
        | inr room ↦ elim (Bool-cases (ltb 0 units)) [
          | inl positive ↦ elim (Bool-cases (keys_exceed budgets s)) [
            | inl full ↦ rw (room, positive, full) tt
            | inr fits ↦ elim copied [
              | inl (copy, good) ↦ rw (room, positive, fits, good) (rw positive at all)
              | inr (e, bad) ↦ rw (room, positive, fits, bad) tt
            ]
          ]
          | inr none_asked ↦ elim copied [
            | inl (copy, good) ↦ rw (room, none_asked, good) (rw none_asked at all)
            | inr (e, bad) ↦ rw (room, none_asked, bad) tt
          ]
        ]
      ]
        where
          new_record : UsageRequest → ReservationRecord
          new_record q =
              scalar_record (new_reservation q uuid units budgets expires_at)
                (new_part units budgets)

          copied :
              ((x : ReservationRecord) × (clone_reservation_record (new_record request) ≡ ok x))
              ⊎ ((e : Failure) × (clone_reservation_record (new_record request) ≡ throw e))
          copied = Result-cases (clone_reservation_record (new_record request))

check_reserve_input-Unique :
    ⦃c : Collation⦄ (now : ℕ) (input : ReserveInput) (a : Admission)
    → IsStrictOn c (map input_key input.budgets)
    → check_reserve_input now input ≡ ok a
    → Unique (budget_keys a.budgets)
unfolding check_reserve_input
check_reserve_input-Unique now input a strict h =
    let (units, ok_units, h1) = >>=-eq-ok (assert_non_negative_integer input.units) _ h in
    let (budgets, ok_budgets, h2) = >>=-eq-ok (canonicalize_budgets input.budgets) _ h1 in
    let (ttl, ok_ttl, h3) = >>=-eq-ok (assert_positive_integer input.ttl_ms) _ h2 in
    let (envelope, ok_envelope, h4) =
      >>=-eq-ok (validate_usage_request_envelope input.request) _ h3 in
    let (expires_at, ok_expires, h5) = >>=-eq-ok (safe_add now ttl) _ h4 in
    let unique = canonicalize_budgets-Unique input.budgets budgets strict ok_budgets in
    let e : record { units = units; budgets = budgets; expires_at = expires_at } ≡ a = cc in
    subst (λ x. Unique (budget_keys x.budgets)) e unique

-- Where of the input's budget keys only equal ones compare equal, `reserve` on an input that passes the checks works
-- on the store that the recovery leaves. If it accepts, every key is charged the units once for
-- each budget with the key, and no budget is used beyond its limit unless no units are asked for.
-- If it rejects, it leaves that store alone.
pub reserve-IsAdmission :
    ⦃c : Collation⦄ (now : ℕ) (uuid : String) (input : ReserveInput) (s : MemoryUsageStore)
    (a : Admission)
    → IsStrictOn c (map input_key input.budgets)
    → check_reserve_input now input ≡ ok a
    → IsAdmission a.units a.budgets (recover_expired now s).1 (reserve now uuid input s)
unfolding reserve after_recovery
reserve-IsAdmission now uuid input s a strict checked = rw checked (after (recover_expired now s))
  where
    after :
        (x : Result (Unit {0}) × MemoryUsageStore)
        → IsAdmission a.units a.budgets x.1
            (continue (λ _. reserve_checked uuid input.request a.units a.budgets a.expires_at) x)
    after (ok _, t) =
        reserve_checked-IsAdmission a.units a.budgets t uuid input.request a.expires_at
          (check_reserve_input-Unique now input a strict checked)
    after (throw e, t) = tt
