-- ===== src/Memory/VectorAdmission.antt =====
-- What an admission by `reserveVector` promises of the balances.
pub mod Limits
use mcp_usage_control.Memory.VectorAdmission.Limits.{IsWithinLimits, dimensions_within}
use mcp_usage_control.Base.{
  throw, Result-cases, Option-cases, >>=-eq-ok, is_empty, leb, Result, eq_refl, ◌<◌, occurrences,
  Option, ℕ, ◌∙◌, sym, ◌==◌, List, String, refl, subst, inl, inr, true, false, none, some, [], ◌∷◌,
  ◌++◌, arith, Bool-cases, ok, All, Unique, if◌then◌else◌, ◌≤◌, ◌+◌, occurrences-zero, eq_iff,
  includes, total, eqb, ltb, ◌-◌, ◌⊎◌, ◌≡◌,
}
use mcp_usage_control.Types.StoreVectorReserveResult.{accepted, rejected}
use mcp_usage_control.Types.{
  StoreVectorReserveResult, UsageRequest, VectorReserveInput, CanonicalBudget, Demand,
}
use mcp_usage_control.Dimensions.{canonicalize_usage_dimensions, topology_keys}
use mcp_usage_control.Memory.Covered.Vector.{charge_dimensions-ChargedAll, ChargedAll, demand_held}
use mcp_usage_control.Budgets.{budget_keys}
use mcp_usage_control.JsMap.{size, has, JsMap}
use mcp_usage_control.Memory.Recovery.{recover_expired, after_recovery, used_at}
use mcp_usage_control.Memory.Vector.{
  new_vector_part, new_vector_reservation, vector_record, charged_budgets, charge_dimensions,
  admit_vector, write_vector, reserve_vector_checked, reserve_vector, dimension_balances, or_else,
  limiting_in, find_vector_limiting,
}
use mcp_usage_control.Memory.Admission.{Unique-occurrences, mul_le_one}
use mcp_usage_control.Collation.{Collation}
use mcp_usage_control.Memory.Checks.{VectorAdmission, check_reserve_vector_input}
use mcp_usage_control.Memory.State.{MemoryUsageStore}
use mcp_usage_control.Memory.Limits.{
  assert_budget_capacity, assert_operation_capacity, track_recovery_at,
}
use mcp_usage_control.OperationKey.{operation_key_for}
use mcp_usage_control.Number.{safe_add, assert_positive_integer}
use mcp_usage_control.Memory.Action.{continue}
use mcp_usage_control.Input.{validate_usage_request_envelope}
use mcp_usage_control.Memory.Outcomes.{keys_exceed, charges_cases}
use mcp_usage_control.Dimensions.Topology.{canonicalize_usage_dimensions-Unique}
use mcp_usage_control.Records.{clone_vector_reservation_record}

module _ ⦃c : Collation⦄ (ds : List Demand) (s : MemoryUsageStore) where
  -- An acceptance has charged all dimensions, and a rejection has left the store alone.
  abbrev pub IsVectorAdmission : Result StoreVectorReserveResult × MemoryUsageStore → Type 0
  IsVectorAdmission (ok (accepted r balances), t) =
      ((k : String) → used_at k t.used ≡ used_at k s.used + total (demand_held k) ds)
      × All (IsWithinLimits t.used) ds
  IsVectorAdmission (ok (rejected reason limiting), t) = t ≡ s
  IsVectorAdmission (throw e, t) = Unit

  module _ (uuid : String) (request : UsageRequest) (expires_at : ℕ)
      (unique : Unique (topology_keys ds)) (enough : find_vector_limiting s.used ds ≡ none) where
    write_vector-IsVectorAdmission : IsVectorAdmission (write_vector uuid request ds expires_at s)
    unfolding write_vector track_recovery_at
    write_vector-IsVectorAdmission = elim (charges_cases (charge_dimensions ds s.used)) [
      | inr (e, used, stop) ↦ rw stop tt
      | inl (used, charged) ↦
          elim (Result-cases (
            clone_vector_reservation_record (
              vector_record (new_vector_reservation request uuid ds expires_at)
                (new_vector_part ds)))) [
                  | inl (copy, good) ↦ rw (charged, good) (written used charged)
                  | inr (e, bad) ↦ rw (charged, bad) tt
                ]
    ]
      where
        written :
            (used : JsMap ℕ)
            → charge_dimensions ds s.used ≡ (ok tt, used)
            → ((k : String) → used_at k used ≡ used_at k s.used + total (demand_held k) ds)
              × All (IsWithinLimits used) ds
        written used charged =
            let rises : (k : String)
                → used_at k used ≡ used_at k s.used + total (demand_held k) ds =
              λ k.
                subst (ChargedAll k ds s.used) charged (charge_dimensions-ChargedAll k ds s.used) in
            (rises, dimensions_within s.used used ds unique enough (λ k _. omega (arith, rises k)))

    admit_vector-IsVectorAdmission : IsVectorAdmission (admit_vector uuid request ds expires_at s)
    unfolding admit_vector assert_operation_capacity assert_budget_capacity
    admit_vector-IsVectorAdmission =
        elim (Bool-cases (leb s.max_retained_operations (size s.reservations))) [
          | inl full ↦ rw full tt
          | inr room ↦ elim (Bool-cases (is_empty (charged_budgets ds))) [
            | inl free ↦ rw (room, free) write_vector-IsVectorAdmission
            | inr charging ↦ elim (Bool-cases (keys_exceed (charged_budgets ds) s)) [
              | inl full ↦ rw (room, charging, full) tt
              | inr fits ↦ rw (room, charging, fits) write_vector-IsVectorAdmission
            ]
          ]
        ]

  reserve_vector_checked-IsVectorAdmission :
      (uuid : String) (request : UsageRequest) (expires_at : ℕ)
      → Unique (topology_keys ds)
      → IsVectorAdmission (reserve_vector_checked uuid request ds expires_at s)
  unfolding reserve_vector_checked
  reserve_vector_checked-IsVectorAdmission uuid request expires_at unique =
      elim (Bool-cases (has (operation_key_for request) s.operations)) [
        | inl known ↦ rw known refl
        | inr new ↦ elim (Option-cases (find_vector_limiting s.used ds)) [
          | inr (limiting, short) ↦ rw (new, short) refl
          | inl enough ↦
              rw (new, enough)
                (admit_vector-IsVectorAdmission uuid request expires_at unique enough)
        ]
      ]

check_reserve_vector_input-Unique :
    ⦃c : Collation⦄ (now : ℕ) (input : VectorReserveInput) (a : VectorAdmission)
    → check_reserve_vector_input now input ≡ ok a
    → Unique (topology_keys a.dimensions)
unfolding check_reserve_vector_input
check_reserve_vector_input-Unique now input a h =
    let (ttl, ok_ttl, h1) = >>=-eq-ok (assert_positive_integer input.ttl_ms) _ h in
    let (envelope, ok_envelope, h2) =
      >>=-eq-ok (validate_usage_request_envelope input.request) _ h1 in
    let (ds, ok_ds, h3) = >>=-eq-ok (canonicalize_usage_dimensions input.dimensions) _ h2 in
    let (expires_at, ok_expires, h4) = >>=-eq-ok (safe_add now ttl) _ h3 in
    let unique = (canonicalize_usage_dimensions-Unique input.dimensions ds ok_ds).1 in
    let e : record { dimensions = ds; expires_at = expires_at } ≡ a = cc in
    subst (λ x. Unique (topology_keys x.dimensions)) e unique

-- `reserveVector` on an input that passes the checks works on the store that the recovery leaves. If
-- it accepts, every key is charged what all dimensions together ask of it, and no budget of a
-- dimension that asks for units is used beyond its limit. If it rejects, it leaves that store alone.
pub reserve_vector-IsVectorAdmission :
    ⦃c : Collation⦄ (now : ℕ) (uuid : String) (input : VectorReserveInput) (s : MemoryUsageStore)
    (a : VectorAdmission)
    → check_reserve_vector_input now input ≡ ok a
    → IsVectorAdmission a.dimensions (recover_expired now s).1 (reserve_vector now uuid input s)
unfolding reserve_vector after_recovery
reserve_vector-IsVectorAdmission now uuid input s a checked =
    rw checked (after (recover_expired now s))
  where
    after :
        (x : Result (Unit {0}) × MemoryUsageStore)
        → IsVectorAdmission a.dimensions x.1
            (continue (λ _. reserve_vector_checked uuid input.request a.dimensions a.expires_at) x)
    after (ok _, t) =
        reserve_vector_checked-IsVectorAdmission a.dimensions t uuid input.request a.expires_at
          (check_reserve_vector_input-Unique now input a checked)
    after (throw e, t) = tt
