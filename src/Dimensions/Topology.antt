-- ===== src/Dimensions/Topology.antt =====
-- What a canonical vector topology is: no dimension and no budget occurs twice.
use mcp_usage_control.Base.{
  Apart, Apart-weaken, ◌≡◌, refl, false, List, [], ◌∷◌, ◌++◌, map, String, eq_iff, arith, Unique,
  includes, ok, >>=-eq-ok, Bool-cases, inl, inr, each, ◌||◌, ◌∙◌, subst,
}
use mcp_usage_control.Types.{Demand, UsageDimension, CanonicalBudget}
use mcp_usage_control.Collation.{Collation, sort_by}
use mcp_usage_control.Input.{validate_usage_vector_envelope}
use mcp_usage_control.Budgets.{budget_keys}
use mcp_usage_control.Dimensions.{
  demand_key, topology_keys, add_budget_keys, unique_topology_from, assert_unique_vector_topology,
  normalize_dimension, canonicalize_usage_dimensions,
}

includes-append :
    (k : String) (ks js : List String) → includes k (ks ++ js) ≡ (includes k ks || includes k js)
includes-append k [] js = refl
includes-append k (i ∷ ks) js = ground (arith, includes-append k ks js)

Unique-append : (ks js : List String) → Unique ks → Unique js → Apart js ks → Unique (ks ++ js)
Unique-append [] js u v a = v
Unique-append (k ∷ ks) js u v a =
    let (absent, rest) = Apart-weaken k js ks a in
    (includes-append k ks js ∙ ground arith, Unique-append ks js u.1 v rest)

Apart-append : (ks js seen : List String) → Apart ks seen → Apart js seen → Apart (ks ++ js) seen
Apart-append [] js seen a b = b
Apart-append (k ∷ ks) js seen a b = (a.0, Apart-append ks js seen a.1 b)

-- A list that holds at least what two others hold.
abbrev Covers : List String → List String → List String → Type 0
Covers seen' seen ks =
    (j : String) → includes j seen' ≡ false → (includes j seen ≡ false) × (includes j ks ≡ false)

Apart-Covers :
    (js seen' seen ks : List String)
    → Covers seen' seen ks
    → Apart js seen'
    → Apart js seen × Apart js ks
Apart-Covers [] seen' seen ks c a = (tt, tt)
Apart-Covers (j ∷ js) seen' seen ks c a =
    let (x, y) = c j a.0 in let (u, v) = Apart-Covers js seen' seen ks c a.1 in ((x, u), (y, v))

-- What a run of the inner loop shows of the budgets of one dimension.
abbrev Added : List String → List String → List String → Type 0
Added seen ks seen' = Unique ks × Apart ks seen × Covers seen' seen ks

add_budget_keys-Added :
    (seen : List String) (bs : List CanonicalBudget) (seen' : List String)
    → add_budget_keys seen bs ≡ ok seen'
    → Added seen (budget_keys bs) seen'
unfolding add_budget_keys
add_budget_keys-Added seen [] seen' h =
    (tt, tt, λ j m. (let e : seen' ≡ seen = cc in subst (λ l. includes j l ≡ false) e m, refl))
add_budget_keys-Added seen (b ∷ bs) seen' h = elim (Bool-cases (includes b.key seen)) [
  | inl repeated ↦ absurd (let h' = (rw repeated at h) in cc)
  | inr new ↦
      (let (u, a, c) = add_budget_keys-Added (b.key ∷ seen) bs seen' (rw new at h) in
        let (absent, apart) = Apart-weaken b.key (budget_keys bs) seen a in
        ((absent, u), (new, apart), λ j m. let (p, q) = c j m in ground (arith, eq_iff b.key j)))
]

abbrev dimension_keys : List Demand → List String
dimension_keys ds = map demand_key ds

unique_topology_from_sound :
    (keys seen : List String) (ds : List Demand)
    → unique_topology_from keys seen ds ≡ ok tt
    → (Unique (dimension_keys ds) × Apart (dimension_keys ds) keys)
      × (Unique (topology_keys ds) × Apart (topology_keys ds) seen)
unfolding unique_topology_from
unique_topology_from_sound keys seen [] h = ((tt, tt), (tt, tt))
unique_topology_from_sound keys seen (d ∷ ds) h = elim (Bool-cases (includes d.key keys)) [
  | inl repeated ↦ absurd (let h' = (rw repeated at h) in cc)
  | inr new ↦
      (let (seen', added, rest) = >>=-eq-ok (add_budget_keys seen d.budgets) _ (rw new at h) in
        let (u, a, c) = add_budget_keys-Added seen d.budgets seen' added in
        let (ks, bs) = unique_topology_from_sound (d.key ∷ keys) seen' ds rest in
        let (absent, apart) = Apart-weaken d.key (dimension_keys ds) keys ks.1 in
        let (fresh, other) =
          Apart-Covers (topology_keys ds) seen' seen (budget_keys d.budgets) c bs.1 in
        (
          ((absent, ks.0), (new, apart)),
          (
            Unique-append (budget_keys d.budgets) (topology_keys ds) u bs.0 other,
            Apart-append (budget_keys d.budgets) (topology_keys ds) seen a fresh,
          ),
        ))
]

-- In a canonical vector no dimension key occurs twice, and no budget key occurs twice in all the
-- dimensions together, whatever the order of keys.
pub canonicalize_usage_dimensions-Unique :
    ⦃c : Collation⦄ (dimensions : List UsageDimension) (ds : List Demand)
    → canonicalize_usage_dimensions dimensions ≡ ok ds
    → Unique (dimension_keys ds) × Unique (topology_keys ds)
unfolding canonicalize_usage_dimensions assert_unique_vector_topology
canonicalize_usage_dimensions-Unique dimensions ds h =
    let (_, valid, h1) = >>=-eq-ok (validate_usage_vector_envelope dimensions) _ h in
    let (normalized, checked, h2) = >>=-eq-ok (each normalize_dimension dimensions) _ h1 in
    let sorted = sort_by demand_key normalized in
    let (_, unique, h3) = >>=-eq-ok (assert_unique_vector_topology sorted) _ h2 in
    let e : sorted ≡ ds = cc in
    let (ks, bs) = unique_topology_from_sound [] [] sorted unique in
    subst (λ l. Unique (dimension_keys l) × Unique (topology_keys l)) e (ks.0, bs.0)
