-- ===== src/Client/Lease/Resuming.antt =====
-- A lease that is exported and resumed.
use mcp_usage_control.Base.{
  subst, ℕ, ◌≤◌, ◌<◌, ◌≡◌, refl, sym, false, Option, none, some, ok, >>=-eq-ok, ok_injective,
  le→leb, lt→ltb,
}
use mcp_usage_control.Number.{nat, max_safe_integer, assert_positive_integer}
use mcp_usage_control.Collation.{Collation}
use mcp_usage_control.Budgets.Canonical.{IsCanonical}
use mcp_usage_control.Budgets.Collisions.{canonicalize_budgets_idem}
use mcp_usage_control.Records.{is_blank, clone_reservation_record}
use mcp_usage_control.Records.Copies.{clone_reservation_record-same}
use mcp_usage_control.Answers.Scalar.{GrowthRequest}
use mcp_usage_control.Client.Requests.{canonicalize_growth_request, clone_growth_request}
use mcp_usage_control.Client.Lease.{
  UsageLease, UsageLeaseResumeState, to_resume_state, canonical_unresolved, cloned_unresolved,
  new_usage_lease,
}
use mcp_usage_control.Client.Control.{resume_lease}

positive_accepted : (n : ℕ) → 0 < n → n ≤ max_safe_integer → assert_positive_integer (nat n) ≡ ok n
unfolding assert_positive_integer
positive_accepted n low high = rw (le→leb n max_safe_integer high, lt→ltb 0 n low) refl

module _ ⦃c : Collation⦄ where
  -- A growth request in canonical form.
  abbrev pub IsRequest : GrowthRequest → Type 0
  IsRequest g =
      (is_blank g.increment_id ≡ false)
      × (0 < g.additional_units)
      × (g.additional_units ≤ max_safe_integer)
      × IsCanonical g.budgets

  abbrev pub IsPending : Option GrowthRequest → Type 0
  IsPending none = Unit
  IsPending (some g) = IsRequest g

  canonicalize_growth_request_idem :
      (g : GrowthRequest)
      → IsRequest g
      → canonicalize_growth_request (clone_growth_request g) ≡ ok g
  unfolding canonicalize_growth_request clone_growth_request
  canonicalize_growth_request_idem g (filled, low, high, canonical) =
      rw
        (
          filled,
          positive_accepted g.additional_units low high,
          canonicalize_budgets_idem g.budgets canonical,
        )
        refl

  unresolved_again :
      (o : Option GrowthRequest) → IsPending o → canonical_unresolved (cloned_unresolved o) ≡ ok o
  unfolding canonical_unresolved
  unresolved_again none h = refl
  unresolved_again (some g) h = rw (canonicalize_growth_request_idem g h) refl

  -- A lease with a positive safe lifetime and, if a growth of it is unresolved, that request in
  -- canonical form: once it is exported, it is resumed as the same lease, with the unresolved
  -- growth still pinned.
  pub resume_lease-to_resume_state :
      (lease : UsageLease) (state : UsageLeaseResumeState)
      → 0 < lease.ttl_ms
      → lease.ttl_ms ≤ max_safe_integer
      → IsPending lease.unresolved_growth
      → to_resume_state lease ≡ ok state
      → resume_lease state ≡ ok lease
  unfolding to_resume_state resume_lease new_usage_lease
  resume_lease-to_resume_state lease state low high pending h =
      let (copy, copied, h1) = >>=-eq-ok (clone_reservation_record lease.reservation) _ h in
      let (same, _) = clone_reservation_record-same lease.reservation copy copied in
      let again : clone_reservation_record copy ≡ ok copy =
        subst (λ r. clone_reservation_record r ≡ ok copy) same copied in
      rw (sym (ok_injective h1)) (
        rw
          (
            positive_accepted lease.ttl_ms low high,
            again,
            unresolved_again lease.unresolved_growth pending,
            sym same,
          )
          refl)
