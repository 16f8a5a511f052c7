-- ===== src/Budgets/Collisions.antt =====
-- What canonicalisation does with lists that are canonical already, and with keys that differ and
-- yet compare equal.
use mcp_usage_control.Base.{
  ℕ, ◌≤◌, ◌≡◌, ◌≢◌, refl, true, List, [], ◌∷◌, String, eq_iff, arith, map, All, ok, each, Unique,
  length-map,
}
use mcp_usage_control.Number.{nat, max_safe_integer, assert_non_negative_integer}
use mcp_usage_control.Types.{Budget, CanonicalBudget}
use mcp_usage_control.Collation.{Collation, insert_by, sort_by}
use mcp_usage_control.Collation.Sorting.{Sorted}
use mcp_usage_control.Input.{IsIdentifier, validate_usage_budget_envelope-accepts}
use mcp_usage_control.Budgets.{
  budget_key, budget_keys, normalize_budget, has_equal_neighbours, canonicalize_budgets,
}
use mcp_usage_control.Budgets.Canonical.{IsCanonical}

-- A canonical budget as an input.
abbrev pub to_input : CanonicalBudget → Budget
to_input b = record { key = b.key; limit = nat b.limit }

module _ ⦃c : Collation⦄ where
  sort_by_fixed : (bs : List CanonicalBudget) → Sorted (budget_keys bs) → sort_by budget_key bs ≡ bs
  unfolding sort_by
  sort_by_fixed [] s = refl
  sort_by_fixed (b ∷ bs) s = rw (sort_by_fixed bs s.1) (insert_first b bs s.0)
    where
      insert_first :
          (x : CanonicalBudget) (xs : List CanonicalBudget)
          → All (λ j. c.le x.key j ≡ true) (budget_keys xs)
          → insert_by budget_key x xs ≡ x ∷ xs
      insert_first x [] all = refl
      insert_first x (y ∷ ys) all = ground arith

normalize_to_input :
    (bs : List CanonicalBudget)
    → All (λ b. IsIdentifier b.key × (b.limit ≤ max_safe_integer)) bs
    → each normalize_budget (map to_input bs) ≡ ok bs
unfolding normalize_budget assert_non_negative_integer
normalize_to_input [] v = refl
normalize_to_input (b ∷ bs) v = rw (normalize_to_input bs v.1) (ground arith)

identified :
    (bs : List CanonicalBudget)
    → All (λ b. IsIdentifier b.key × (b.limit ≤ max_safe_integer)) bs
    → All (λ x. IsIdentifier x.key) (map to_input bs)
identified [] v = tt
identified (b ∷ bs) v = (v.0.0, identified bs v.1)

-- A list that is canonical already is accepted and given back as it is.
pub canonicalize_budgets_idem :
    ⦃c : Collation⦄ (bs : List CanonicalBudget)
    → IsCanonical bs
    → canonicalize_budgets (map to_input bs) ≡ ok bs
unfolding canonicalize_budgets
canonicalize_budgets_idem bs v = rw (
  validate_usage_budget_envelope-accepts (map to_input bs) (record {
    nonempty = omega (arith, v.nonempty, length-map bs to_input);
    bounded = omega (arith, v.bounded, length-map bs to_input);
    identified = identified bs v.valid;
  }),
  normalize_to_input bs v.valid,
  sort_by_fixed bs v.sorted,
  v.differ,
)

-- Two different identifiers `a` and `b` that compare equal hide a repetition: with safe integers as
-- limits, the list of `a`, `b` and `a` again is accepted and keeps the repeated key.
pub canonicalize_budgets-hides_duplicate :
    ⦃c : Collation⦄ (a b : String) (n m : ℕ)
    → a ≢ b
    → c.le a b ≡ true
    → c.le b a ≡ true
    → IsIdentifier a
    → IsIdentifier b
    → n ≤ max_safe_integer
    → m ≤ max_safe_integer
    → let first : CanonicalBudget = record { key = a; limit = n } in
      let second : CanonicalBudget = record { key = b; limit = m } in
      (canonicalize_budgets (to_input first ∷ to_input second ∷ to_input first ∷ [])
        ≡ ok (first ∷ second ∷ first ∷ []))
      × ¬ Unique (budget_keys (first ∷ second ∷ first ∷ []))
unfolding canonicalize_budgets has_equal_neighbours sort_by
canonicalize_budgets-hides_duplicate a b n m ne ab ba ia ib hn hm =
    let first : CanonicalBudget = record { key = a; limit = n } in
    let second : CanonicalBudget = record { key = b; limit = m } in
    let checked =
      normalize_to_input (first ∷ second ∷ first ∷ []) ((ia, hn), ((ib, hm), ((ia, hn), tt))) in
    let valid =
      validate_usage_budget_envelope-accepts
        (to_input first ∷ to_input second ∷ to_input first ∷ [])
        (record {
          nonempty = omega arith;
          bounded = omega arith;
          identified = (ia, (ib, (ia, tt)));
        }) in
    (
      rw (valid, checked) (ground (arith, eq_iff a b, eq_iff b a)),
      ground (arith, eq_iff a b, eq_iff b a, eq_iff a a),
    )
