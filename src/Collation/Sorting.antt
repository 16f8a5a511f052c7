-- ===== src/Collation/Sorting.antt =====
-- Sorting by key keeps the items and orders the keys.
use mcp_usage_control.Base.{
  ℕ, ◌+◌, ◌≡◌, ◌≢◌, refl, inl, inr, Bool-cases, true, false, List, [], ◌∷◌, map, String, eq_iff,
  arith, All, Unique, includes, total,
}
use mcp_usage_control.Collation.{Collation, IsStrictOn, insert_by, sort_by}

-- No two neighbours are equal.
abbrev pub NeighboursDiffer : List String → Type 0
NeighboursDiffer [] = Unit
NeighboursDiffer (k ∷ []) = Unit
NeighboursDiffer (k ∷ j ∷ ks) = (k ≢ j) × NeighboursDiffer (j ∷ ks)

module _ ⦃c : Collation⦄ where
  -- Every key is in order with every later one.
  abbrev pub Sorted : List String → Type 0
  Sorted [] = Unit
  Sorted (k ∷ ks) = All (λ j. c.le k j ≡ true) ks × Sorted ks

  above_trans :
      (a b : String) (ks : List String)
      → c.le a b ≡ true
      → All (λ j. c.le b j ≡ true) ks
      → All (λ j. c.le a j ≡ true) ks
  above_trans a b [] h all = tt
  above_trans a b (k ∷ ks) h all = (c.le_trans a b k h all.0, above_trans a b ks h all.1)

module _ {ℓ} {A : Type ℓ} (key : A → String) ⦃c : Collation⦄ where
  insert_by-above :
      (k : String) (x : A) (xs : List A)
      → c.le k (key x) ≡ true
      → All (λ j. c.le k j ≡ true) (map key xs)
      → All (λ j. c.le k j ≡ true) (map key (insert_by key x xs))
  unfolding insert_by
  insert_by-above k x [] h all = (h, tt)
  insert_by-above k x (y ∷ ys) h all = ground (arith, insert_by-above k x ys h all.1)

  insert_by-Sorted :
      (x : A) (xs : List A) → Sorted (map key xs) → Sorted (map key (insert_by key x xs))
  unfolding insert_by
  insert_by-Sorted x [] s = (tt, tt)
  insert_by-Sorted x (y ∷ ys) s = elim (Bool-cases (c.le (key x) (key y))) [
    | inl below ↦ rw below ((below, above_trans (key x) (key y) (map key ys) below s.0), s)
    | inr above ↦ rw above (
      insert_by-above (key y) x ys (elim (c.le_total (key x) (key y)) [ inl p ↦ cc | inr p ↦ p ])
          s.0,
      insert_by-Sorted x ys s.1,
    )
  ]

  pub sort_by-Sorted : (xs : List A) → Sorted (map key (sort_by key xs))
  unfolding sort_by
  sort_by-Sorted [] = tt
  sort_by-Sorted (x ∷ xs) = insert_by-Sorted x (sort_by key xs) (sort_by-Sorted xs)

  -- Sorting keeps every sum over the items, so each item as often as it stood there.
  insert_by-total :
      (f : A → ℕ) (x : A) (xs : List A) → total f (insert_by key x xs) ≡ f x + total f xs
  unfolding insert_by
  insert_by-total f x [] = refl
  insert_by-total f x (y ∷ ys) = ground (arith, insert_by-total f x ys)

  pub sort_by-total : (f : A → ℕ) (xs : List A) → total f (sort_by key xs) ≡ total f xs
  unfolding sort_by
  sort_by-total f [] = refl
  sort_by-total f (x ∷ xs) =
      ground (arith, insert_by-total f x (sort_by key xs), sort_by-total f xs)

  insert_by-All {κ} :
      (P : A → Type κ) (x : A) (xs : List A) → P x → All P xs → All P (insert_by key x xs)
  unfolding insert_by
  insert_by-All P x [] h all = (h, tt)
  insert_by-All P x (y ∷ ys) h all = elim (Bool-cases (c.le (key x) (key y))) [
    | inl below ↦ rw below (h, all)
    | inr above ↦ rw above (all.0, insert_by-All P x ys h all.1)
  ]

  pub sort_by-All {κ} : (P : A → Type κ) (xs : List A) → All P xs → All P (sort_by key xs)
  unfolding sort_by
  sort_by-All P [] all = tt
  sort_by-All P (x ∷ xs) all = insert_by-All P x (sort_by key xs) all.0 (sort_by-All P xs all.1)

-- In order between two different keys, a key that is above the second is not the first.
not_above :
    ⦃c : Collation⦄ (a b : String) (ks : List String)
    → (c.le a b ≡ true → c.le b a ≡ true → a ≡ b)
    → a ≢ b
    → c.le a b ≡ true
    → All (λ j. c.le b j ≡ true) ks
    → includes a ks ≡ false
not_above a b [] strict ne h all = refl
not_above a b (k ∷ ks) strict ne h all =
    ground (arith, eq_iff k a, strict h, not_above a b ks strict ne h all.1)

-- Sorted keys among some that the collation tells apart.
pub Sorted-Unique :
    ⦃c : Collation⦄ (whole : List String)
    → IsStrictOn c whole
    → (ks : List String) → All (λ k. includes k whole ≡ true) ks
    → Sorted ks
    → NeighboursDiffer ks
    → Unique ks
Sorted-Unique whole strict [] among s d = tt
Sorted-Unique whole strict (k ∷ []) among s d = (refl, tt)
Sorted-Unique whole strict (k ∷ j ∷ ks) among s d =
    let above = not_above k j ks (strict k j among.0 among.1.0) d.0 s.0.0 s.1.0 in
    (ground (arith, eq_iff j k), Sorted-Unique whole strict (j ∷ ks) among.1 s.1 d.1)
