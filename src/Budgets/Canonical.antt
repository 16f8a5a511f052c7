-- ===== src/Budgets/Canonical.antt =====
-- What the canonical budgets are.
use mcp_usage_control.Base.{
  ◌≤◌, ◌≡◌, refl, false, List, [], ◌∷◌, String, ◌==◌, eq_iff, arith, map, length, All, Unique,
  length-total, occurrences-total, ◌<◌, occurrences, includes, true, occurrences-All,
  occurrences-includes, if◌then◌else◌, ok, each, >>=-eq-ok, Bool-cases, inl, inr, subst, ◌∙◌, sym,
}
use mcp_usage_control.Number.{
  assert_non_negative_integer, nat, max_safe_integer, assert_non_negative_integer_bound,
}
use mcp_usage_control.Types.{Budget, CanonicalBudget}
use mcp_usage_control.Collation.{Collation, IsStrictOn, sort_by}
use mcp_usage_control.Collation.Sorting.{
  Sorted-Unique, sort_by-Sorted, sort_by-total, sort_by-All, NeighboursDiffer, Sorted,
}
use mcp_usage_control.Input.{
  IsIdentifier, validate_usage_budget_envelope, validate_usage_budget_envelope-IsBudgetEnvelope,
}
use mcp_usage_control.Budgets.{
  budget_key, budget_keys, normalize_budget, has_equal_neighbours, canonicalize_budgets,
}

-- The list before sorting agrees with the input, item by item.
abbrev SameBudgets : List Budget → List CanonicalBudget → Type 0
SameBudgets [] [] = Unit
SameBudgets [] (y ∷ ys) = ⊥
SameBudgets (x ∷ xs) [] = ⊥
SameBudgets (x ∷ xs) (y ∷ ys) =
    (x.key ≡ y.key) × (x.limit ≡ nat y.limit) × (y.limit ≤ max_safe_integer) × SameBudgets xs ys

normalize_budget-same :
    (x : Budget) (y : CanonicalBudget)
    → normalize_budget x ≡ ok y
    → (x.key ≡ y.key) × (x.limit ≡ nat y.limit) × (y.limit ≤ max_safe_integer)
unfolding normalize_budget
normalize_budget-same x y h =
    let (n, hn, e) = >>=-eq-ok (assert_non_negative_integer x.limit) _ h in
    let b = assert_non_negative_integer_bound x.limit n hn in ground (arith, b)

normalize_each-same :
    (xs : List Budget) (ys : List CanonicalBudget)
    → each normalize_budget xs ≡ ok ys
    → SameBudgets xs ys
normalize_each-same [] [] h = tt
normalize_each-same [] (y ∷ ys) h = cc
normalize_each-same (x ∷ xs) ys h =
    let (b, hb, h1) = >>=-eq-ok (normalize_budget x) _ h in
    let (bs, hbs, h2) = >>=-eq-ok (each normalize_budget xs) _ h1 in
    let e : b ∷ bs ≡ ys = cc in
    subst (SameBudgets (x ∷ xs)) e
      (let s = normalize_budget-same x b hb in (s.0, s.1, s.2, normalize_each-same xs bs hbs))

neighbours-differ :
    (bs : List CanonicalBudget)
    → has_equal_neighbours bs ≡ false
    → NeighboursDiffer (budget_keys bs)
unfolding has_equal_neighbours
neighbours-differ [] h = tt
neighbours-differ (a ∷ []) h = tt
neighbours-differ (a ∷ b ∷ rest) h =
    ground (arith, eq_iff a.key b.key, neighbours-differ (b ∷ rest))

-- The chain of `canonicalize_budgets`, taken apart.
canonicalize_budgets_parts :
    ⦃c : Collation⦄ (budgets : List Budget) (bs : List CanonicalBudget)
    → canonicalize_budgets budgets ≡ ok bs
    → (normalized : List CanonicalBudget) × (validate_usage_budget_envelope budgets ≡ ok tt)
      × (each normalize_budget budgets ≡ ok normalized)
      × (has_equal_neighbours bs ≡ false)
      × (bs ≡ sort_by budget_key normalized)
unfolding canonicalize_budgets
canonicalize_budgets_parts budgets bs h =
    let (_, valid, h1) = >>=-eq-ok (validate_usage_budget_envelope budgets) _ h in
    let (normalized, checked, h2) = >>=-eq-ok (each normalize_budget budgets) _ h1 in
    elim (Bool-cases (has_equal_neighbours (sort_by budget_key normalized))) [
      | inl same ↦ absurd (let h3 = (rw same at h2) in cc)
      | inr differ ↦
          (let h3 = (rw differ at h2) in (normalized, ground arith, checked, ground arith, cc))
    ]

-- A budget list in canonical form: at most 64 budgets in the order of their keys, each with an
-- accepted key and a safe limit.
pub record IsCanonical ⦃c : Collation⦄ (bs : List CanonicalBudget) : Type 0 where
  pub nonempty : 0 < length bs
  pub bounded : length bs ≤ 64
  pub sorted : Sorted (budget_keys bs)
  pub valid : All (λ b. IsIdentifier b.key × (b.limit ≤ max_safe_integer)) bs
  pub differ : has_equal_neighbours bs ≡ false

abbrev pub input_key : Budget → String
input_key b = b.key

same-length :
    (xs : List Budget) (ys : List CanonicalBudget) → SameBudgets xs ys → length xs ≡ length ys
same-length [] [] h = refl
same-length [] (y ∷ ys) h = absurd h
same-length (x ∷ xs) [] h = absurd h
same-length (x ∷ xs) (y ∷ ys) h = omega (arith, same-length xs ys h.3)

same-valid :
    (xs : List Budget) (ys : List CanonicalBudget)
    → SameBudgets xs ys
    → All (λ x. IsIdentifier x.key) xs
    → All (λ y. IsIdentifier y.key × (y.limit ≤ max_safe_integer)) ys
same-valid [] [] h v = tt
same-valid [] (y ∷ ys) h v = absurd h
same-valid (x ∷ xs) [] h v = absurd h
same-valid (x ∷ xs) (y ∷ ys) h v = ((subst IsIdentifier h.0 v.0, h.2), same-valid xs ys h.3 v.1)

same-occurrences :
    (k : String) (xs : List Budget) (ys : List CanonicalBudget)
    → SameBudgets xs ys
    → occurrences k (map input_key xs) ≡ occurrences k (budget_keys ys)
same-occurrences k [] [] h = refl
same-occurrences k [] (y ∷ ys) h = absurd h
same-occurrences k (x ∷ xs) [] h = absurd h
same-occurrences k (x ∷ xs) (y ∷ ys) h = rw (h.0) (omega (arith, same-occurrences k xs ys h.3))

module _ ⦃c : Collation⦄ (bs : List CanonicalBudget) where
  sort-length : length (sort_by budget_key bs) ≡ length bs
  sort-length = omega (
    arith,
    length-total (sort_by budget_key bs),
    length-total bs,
    sort_by-total budget_key (λ _. 1) bs,
  )

  sort-occurrences :
      (k : String)
      → occurrences k (budget_keys (sort_by budget_key bs)) ≡ occurrences k (budget_keys bs)
  sort-occurrences k =
      occurrences-total budget_key k (sort_by budget_key bs)
      ∙ sort_by-total budget_key (λ b. if b.key == k then 1 else 0) bs
      ∙ sym (occurrences-total budget_key k bs)

-- What canonicalisation returns has between one budget and the greatest number allowed, is sorted
-- by key without equal neighbours, has identifiers as keys and safe integers as limits, and has
-- each key as often as the input.
pub canonicalize_budgets-IsCanonical :
    ⦃c : Collation⦄ (budgets : List Budget) (bs : List CanonicalBudget)
    → canonicalize_budgets budgets ≡ ok bs
    → IsCanonical bs
      × ((k : String) → occurrences k (budget_keys bs) ≡ occurrences k (map input_key budgets))
canonicalize_budgets-IsCanonical budgets bs h =
    let (normalized, valid, checked, differ, e) = canonicalize_budgets_parts budgets bs h in
    let envelope = validate_usage_budget_envelope-IsBudgetEnvelope budgets valid in
    let same = normalize_each-same budgets normalized checked in
    rw e (
      record {
        nonempty = omega (arith, sort-length normalized, same-length budgets normalized same);
        bounded = omega (arith, sort-length normalized, same-length budgets normalized same);
        sorted = sort_by-Sorted budget_key normalized;
        valid =
            sort_by-All budget_key _ normalized
              (same-valid budgets normalized same envelope.identified);
        differ = rw e at differ;
      },
      λ k. sort-occurrences normalized k ∙ sym (same-occurrences k budgets normalized same),
    )

-- Canonical budgets with the keys of a list that the collation tells apart repeat none.
pub IsCanonical-Unique :
    ⦃c : Collation⦄ (keys : List String) (bs : List CanonicalBudget)
    → IsStrictOn c keys
    → IsCanonical bs
    → ((k : String) → occurrences k (budget_keys bs) ≡ occurrences k keys)
    → Unique (budget_keys bs)
IsCanonical-Unique keys bs strict canonical same =
    let among =
      occurrences-All (λ k. includes k keys ≡ true) (budget_keys bs)
        (λ k positive. occurrences-includes k keys (omega (arith, same k))) in
    Sorted-Unique keys strict (budget_keys bs) among canonical.sorted
      (neighbours-differ bs canonical.differ)

-- Where of the keys of the input only equal ones compare equal, no budget key occurs twice in the
-- result.
pub canonicalize_budgets-Unique :
    ⦃c : Collation⦄ (budgets : List Budget) (bs : List CanonicalBudget)
    → IsStrictOn c (map input_key budgets)
    → canonicalize_budgets budgets ≡ ok bs
    → Unique (budget_keys bs)
canonicalize_budgets-Unique budgets bs strict h =
    let (canonical, same) = canonicalize_budgets-IsCanonical budgets bs h in
    IsCanonical-Unique (map input_key budgets) bs strict canonical same
