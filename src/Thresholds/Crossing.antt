-- ===== src/Thresholds/Crossing.antt =====
-- A threshold is crossed once.
use mcp_usage_control.Base.{
  ◌≤◌, ◌≡◌, refl, sym, ◌∙◌, subst, arith, true, false, Bool-cases, inl, inr, eqb, not, ok, throw_if,
  range_error, >>=-eq-ok, ok_injective, eq→eqb, ap,
}
use mcp_usage_control.Thresholds.{
  Ratios, ScopedQuota, CheckedQuota, validate_quota, UsageQuotaThreshold, CheckedThreshold, units,
  ratio, validate_threshold, ratio_of, is_reached, evaluate_usage_quota_threshold,
  did_usage_quota_threshold_cross,
}

module _ (R : Ratios) where
  -- Under one limit, what is reached stays reached when less remains.
  is_reached_monotone :
      (p q : CheckedQuota) (t : CheckedThreshold R)
      → p.limit ≡ q.limit
      → q.remaining ≤ p.remaining
      → is_reached R p t ≡ true
      → is_reached R q t ≡ true
  unfolding is_reached ratio_of
  is_reached_monotone p q (units n) same less h = ground arith
  is_reached_monotone p q (ratio r) same less h = elim (Bool-cases (eqb q.limit 0)) [
    | inl empty ↦
        (let e : eqb p.limit 0 ≡ true = rw same empty in
          rw (empty, is_reached) (rw (e, is_reached) at h))
    | inr filled ↦
        (let e : eqb p.limit 0 ≡ false = rw same filled in
          let h1 = (rw (e, is_reached) at h) in
          rw (filled, is_reached)
            (R.divide_monotone q.remaining p.remaining q.limit r less (rw same at h1)))
  ]

  -- What a crossing shows of the later quota.
  crossed_reached :
      (previous current : ScopedQuota) (threshold : UsageQuotaThreshold R)
      → did_usage_quota_threshold_cross R previous current threshold ≡ ok true
      → (q : CheckedQuota) × (t : CheckedThreshold R) × (validate_quota current ≡ ok q)
        × (validate_threshold R threshold ≡ ok t)
        × (is_reached R q t ≡ true)
  unfolding did_usage_quota_threshold_cross evaluate_usage_quota_threshold
  crossed_reached previous current threshold crossed =
      let (p, _, h1) = >>=-eq-ok (validate_quota previous) _ crossed in
      let (q, hq, h2) = >>=-eq-ok (validate_quota current) _ h1 in
      let (_, _, h3) = >>=-eq-ok (throw_if (not (eqb p.limit q.limit)) range_error) _ h2 in
      let (b, _, h4) = >>=-eq-ok (evaluate_usage_quota_threshold R previous threshold) _ h3 in
      elim (Bool-cases b.reached) [
        | inl early ↦ absurd (let h5 = (rw early at h4) in cc)
        | inr above ↦
            (let (a, ha, h5) =
                >>=-eq-ok (evaluate_usage_quota_threshold R current threshold) _ (rw above at h4) in
              let (q', hq', h6) = >>=-eq-ok (validate_quota current) _ ha in
              let (t, ht, h7) = >>=-eq-ok (validate_threshold R threshold) _ h6 in
              let reached = ap (λ x. x.reached) (ok_injective h7) in
              (q', t, hq', ht, reached ∙ ok_injective h5))
      ]

  -- A threshold is crossed at most once while, under one limit, no more and no more remains: after
  -- a crossing, no pair of quotas of this limit is a crossing whose first quota has no more
  -- remaining than the quota that crossed. A replay of that quota is one such pair.
  pub did_usage_quota_threshold_cross-once :
      (previous current x y : ScopedQuota) (threshold : UsageQuotaThreshold R)
      (q a b : CheckedQuota)
      → did_usage_quota_threshold_cross R previous current threshold ≡ ok true
      → validate_quota current ≡ ok q
      → validate_quota x ≡ ok a
      → validate_quota y ≡ ok b
      → q.limit ≡ a.limit
      → a.limit ≡ b.limit
      → a.remaining ≤ q.remaining
      → did_usage_quota_threshold_cross R x y threshold ≡ ok false
  unfolding did_usage_quota_threshold_cross evaluate_usage_quota_threshold
  did_usage_quota_threshold_cross-once previous current x y threshold q a b crossed hq ha hb same
        same' less =
      let (q', t, hq', ht, reached) = crossed_reached previous current threshold crossed in
      let e : q' ≡ q = ok_injective (sym hq' ∙ hq) in
      let below =
        is_reached_monotone q a t same less (subst (λ z. is_reached R z t ≡ true) e reached) in
      rw (ha, hb, eq→eqb a.limit b.limit same', ht, below) refl
