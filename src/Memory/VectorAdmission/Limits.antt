-- ===== src/Memory/VectorAdmission/Limits.antt =====
-- Where every balance suffices and no budget key is repeated, the charges of all dimensions keep within
-- the limits.
use mcp_usage_control.Base.{
  eq_refl, ◌<◌, occurrences, Option, ℕ, ◌∙◌, sym, ◌==◌, List, String, refl, subst, inl, inr, true,
  false, none, some, [], ◌∷◌, ◌++◌, arith, Bool-cases, All, Unique, ◌≤◌, ◌+◌, occurrences-zero,
  eq_iff, includes, total, eqb, ltb, ◌-◌, ◌⊎◌, ◌≡◌,
}
use mcp_usage_control.Types.{CanonicalBudget, Demand}
use mcp_usage_control.Dimensions.{topology_keys}
use mcp_usage_control.Memory.Covered.Vector.{demand_held}
use mcp_usage_control.Budgets.{budget_keys}
use mcp_usage_control.JsMap.{JsMap}
use mcp_usage_control.Memory.Recovery.{used_at}
use mcp_usage_control.Memory.Vector.{dimension_balances, or_else, limiting_in, find_vector_limiting}
use mcp_usage_control.Memory.Admission.{Unique-occurrences, mul_le_one}

module _ (k : String) where
  includes-append :
      (xs ys : List String)
      → includes k (xs ++ ys) ≡ false
      → (includes k xs ≡ false) × (includes k ys ≡ false)
  includes-append [] ys h = (refl, h)
  includes-append (x ∷ xs) ys h = let r = includes-append xs ys in ground (arith, r)

  -- A key that no dimension names is asked for by none.
  unnamed :
      (ds : List Demand) → includes k (topology_keys ds) ≡ false → total (demand_held k) ds ≡ 0
  unnamed [] h = refl
  unnamed (d ∷ ds) h =
      let (here, later) = includes-append (budget_keys d.budgets) (topology_keys ds) h in
      rw (occurrences-zero k (budget_keys d.budgets) here) (omega (arith, unnamed ds later))

  -- A key of a list without repetitions occurs in one of its parts.
  apart : (xs ys : List String) → Unique (xs ++ ys) → includes k ys ≡ true → includes k xs ≡ false
  apart [] ys u h = refl
  apart (x ∷ xs) ys (fresh, u) h = elim (Bool-cases (x == k)) [
    | inr other ↦ rw other (apart xs ys u h)
    | inl same ↦
        (let e : x ≡ k = ground (arith, eq_iff x k) in
          let (_, outside) =
            includes-append xs ys (subst (λ j. includes j (xs ++ ys) ≡ false) e fresh) in
          absurd (let z : true ≡ false = sym h ∙ outside in cc))
  ]

Unique-left : (xs ys : List String) → Unique (xs ++ ys) → Unique xs
Unique-left [] ys u = tt
Unique-left (x ∷ xs) ys (fresh, u) = ((includes-append x xs ys fresh).0, Unique-left xs ys u)

Unique-right : (xs ys : List String) → Unique (xs ++ ys) → Unique ys
Unique-right [] ys u = u
Unique-right (x ∷ xs) ys (fresh, u) = Unique-right xs ys u

includes-left :
    (k : String) (xs ys : List String) → includes k xs ≡ true → includes k (xs ++ ys) ≡ true
includes-left k [] ys h = cc
includes-left k (x ∷ xs) ys h = let r = includes-left k xs ys in ground (arith, r)

includes-right :
    (k : String) (xs ys : List String) → includes k ys ≡ true → includes k (xs ++ ys) ≡ true
includes-right k [] ys h = h
includes-right k (x ∷ xs) ys h = let r = includes-right k xs ys h in ground (arith, r)

-- A dimension that asks for units leaves none of its budgets beyond the limit.
abbrev pub IsWithinLimits : JsMap ℕ → Demand → Type 0
IsWithinLimits used d = (d.units ≡ 0) ⊎ All (λ b. used_at b.key used ≤ b.limit) d.budgets

module _ (used used' : JsMap ℕ) where
  budgets_within :
      (d : Demand) (bs : List CanonicalBudget)
      → limiting_in d.units (dimension_balances used d bs) ≡ none
      → ((k : String)
          → includes k (budget_keys bs) ≡ true
          → used_at k used' ≤ used_at k used + d.units)
      → 0 < d.units
      → All (λ b. used_at b.key used' ≤ b.limit) bs
  budgets_within d [] h rise asked = tt
  budgets_within d (b ∷ bs) h rise asked =
      elim (Bool-cases (ltb (b.limit - used_at b.key used) d.units)) [
        | inl short ↦ absurd (
            let z : some (record {
              dimension_key = d.key;
              budget_key = b.key;
              remaining = b.limit - used_at b.key used;
            })
                ≡ none =
              (rw short at h) in
            cc)
        | inr enough ↦
            (let here : includes b.key (budget_keys (b ∷ bs)) ≡ true = rw (eq_refl b.key) refl in
              let risen = rise b.key here in
              (
                ground (arith, risen, enough),
                budgets_within d bs (rw enough at h)
                    (λ k inside. rise k (includes-right k (b.key ∷ []) (budget_keys bs) inside))
                    asked,
              ))
      ]

  or_else-none : {A : Type 0} (x y : Option A) → or_else x y ≡ none → (x ≡ none) × (y ≡ none)
  or_else-none none y h = (refl, h)
  or_else-none (some a) y h = absurd (cc)

  pub dimensions_within :
      (ds : List Demand)
      → Unique (topology_keys ds)
      → find_vector_limiting used ds ≡ none
      → ((k : String)
          → includes k (topology_keys ds) ≡ true
          → used_at k used' ≤ used_at k used + total (demand_held k) ds)
      → All (IsWithinLimits used') ds
  unfolding find_vector_limiting
  dimensions_within [] u h rise = tt
  dimensions_within (d ∷ ds) u h rise =
      let head_keys = budget_keys d.budgets in
      let (enough, later) =
        or_else-none (limiting_in d.units (dimension_balances used d d.budgets))
          (find_vector_limiting used ds) h in
      (
        elim (Bool-cases (eqb d.units 0)) [
          | inl nothing ↦ inl (ground arith)
          | inr asked ↦ inr (budgets_within d d.budgets enough (head_rise head_keys) (ground arith))
        ],
        dimensions_within ds (Unique-right head_keys (topology_keys ds) u) later (λ k inside.
            let outside = apart k head_keys (topology_keys ds) u inside in
            let z = occurrences-zero k head_keys outside in
            let r = rise k (includes-right k head_keys (topology_keys ds) inside) in
            omega (arith, (rw z at r))),
      )
    where
      head_rise :
          (ks : List String)
          → (k : String) → includes k (budget_keys d.budgets) ≡ true
          → used_at k used' ≤ used_at k used + d.units
      head_rise ks k inside = elim (Bool-cases (includes k (topology_keys ds))) [
        | inl both ↦ absurd (
            let z : true ≡ false =
              sym inside ∙ apart k (budget_keys d.budgets) (topology_keys ds) u both in
            cc)
        | inr outside ↦
            (let r = rise k (includes-left k (budget_keys d.budgets) (topology_keys ds) inside) in
              let once = mul_le_one (occurrences k (budget_keys d.budgets)) d.units (
                Unique-occurrences k (budget_keys d.budgets)
                  (Unique-left (budget_keys d.budgets) (topology_keys ds) u)) in
              omega (arith, r, once, unnamed k ds outside))
      ]
