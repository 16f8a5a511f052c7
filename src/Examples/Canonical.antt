-- ===== src/Examples/Canonical.antt =====
-- Canonical budgets and dimensions, and operation keys, at concrete inputs.
use mcp_usage_control.Examples.{
  agent, request, day, month, canonical_day, canonical_month, calls_dimension,
}
use mcp_usage_control.Base.{
  eq_iff, occurrences, len, Unique, ◌⊎◌, ◌≡◌, refl, arith, some, ok, List, [], ◌∷◌, String, true,
  leb, includes, inl, inr, ◌∙◌, sym,
}
use mcp_usage_control.Dimensions.{
  assert_unique_vector_topology, normalize_dimension, canonicalize_usage_dimensions,
}
use mcp_usage_control.Input.{
  validate_usage_vector_envelope, assert_usage_identifier, validate_usage_budget_envelope,
}
use mcp_usage_control.Number.{assert_non_negative_integer, nat}
use mcp_usage_control.Collation.{IsStrictOn, insert_by, sort_by, Collation}
use mcp_usage_control.Collation.ByCode.{text_le, by_code}
use mcp_usage_control.Types.{Demand, UsageDimension, UsageRequest}
use mcp_usage_control.OperationKey.{operation_key_for}
use mcp_usage_control.OperationKey.Injective.{operation_key_for-injective}
use mcp_usage_control.Budgets.{has_equal_neighbours, normalize_budget, canonicalize_budgets}
use mcp_usage_control.Budgets.Canonical.{
  canonicalize_budgets-IsCanonical, canonicalize_budgets-Unique, IsCanonical,
}
use mcp_usage_control.Dimensions.Topology.{canonicalize_usage_dimensions-Unique}
use mcp_usage_control.Budgets.Collisions.{
  canonicalize_budgets-hides_duplicate, canonicalize_budgets_idem,
}

-- The same operation under another plan.
abbrev upgraded : UsageRequest
upgraded = record request { principal = record agent { plan = some "pro" } }

same_key : operation_key_for request ≡ operation_key_for upgraded
unfolding operation_key_for
same_key = refl

operation_key_for-injective_example :
    (request.principal.tenant_id ≡ upgraded.principal.tenant_id)
    × (request.principal.id ≡ upgraded.principal.id)
    × (request.tool ≡ upgraded.tool)
    × (request.operation_id ≡ upgraded.operation_id)
operation_key_for-injective_example = operation_key_for-injective request upgraded same_key

abbrev tokens_dimension : UsageDimension
tokens_dimension = record { key = "tokens"; units = nat 9; budgets = month ∷ [] }

abbrev demands : List Demand
demands =
    record { key = "calls"; units = 1; budgets = canonical_day ∷ [] }
    ∷ record { key = "tokens"; units = 9; budgets = canonical_month ∷ [] }
    ∷ []

canonical_dimensions :
    canonicalize_usage_dimensions (tokens_dimension ∷ calls_dimension ∷ []) ≡ ok demands
unfolding canonicalize_usage_dimensions validate_usage_vector_envelope assert_usage_identifier
    validate_usage_budget_envelope normalize_dimension assert_non_negative_integer
    canonicalize_budgets normalize_budget has_equal_neighbours sort_by assert_unique_vector_topology
    text_le
canonical_dimensions = refl

canonicalize_usage_dimensions-Unique_example :
    Unique ("calls" ∷ "tokens" ∷ []) × Unique ("day" ∷ "month" ∷ [])
canonicalize_usage_dimensions-Unique_example =
    canonicalize_usage_dimensions-Unique (tokens_dimension ∷ calls_dimension ∷ []) demands
      canonical_dimensions

canonical_budgets :
    canonicalize_budgets (month ∷ day ∷ []) ≡ ok (canonical_day ∷ canonical_month ∷ [])
unfolding canonicalize_budgets validate_usage_budget_envelope assert_usage_identifier
    normalize_budget has_equal_neighbours sort_by insert_by text_le assert_non_negative_integer
canonical_budgets = refl

canonicalize_budgets-IsCanonical_example :
    IsCanonical (canonical_day ∷ canonical_month ∷ [])
    × ((k : String) → occurrences k ("day" ∷ "month" ∷ []) ≡ occurrences k ("month" ∷ "day" ∷ []))
canonicalize_budgets-IsCanonical_example =
    canonicalize_budgets-IsCanonical (month ∷ day ∷ []) (canonical_day ∷ canonical_month ∷ [])
      canonical_budgets

canonicalize_budgets_idem_example :
    canonicalize_budgets (day ∷ month ∷ []) ≡ ok (canonical_day ∷ canonical_month ∷ [])
canonicalize_budgets_idem_example =
    canonicalize_budgets_idem (canonical_day ∷ canonical_month ∷ [])
      (canonicalize_budgets-IsCanonical (month ∷ day ∷ []) (canonical_day ∷ canonical_month ∷ [])
        canonical_budgets).0

shorter_total : (a b : String) → (leb (len a) (len b) ≡ true) ⊎ (leb (len b) (len a) ≡ true)
shorter_total a b = ground arith

shorter_trans :
    (a b c : String)
    → leb (len a) (len b) ≡ true
    → leb (len b) (len c) ≡ true
    → leb (len a) (len c) ≡ true
shorter_trans a b c h k = ground arith

-- A collation that takes texts of one length to be equal.
abbrev by_length : Collation
by_length = record {
  le = λ a b. leb (len a) (len b);
  le_total = shorter_total;
  le_trans = shorter_trans;
}

-- It tells the two keys of the input apart, and not all texts.
month_or_day : (a : String) → includes a ("month" ∷ "day" ∷ []) ≡ true → (a ≡ "month") ⊎ (a ≡ "day")
month_or_day a h = ground (arith, eq_iff "month" a, eq_iff "day" a)

by_length-tells_apart : IsStrictOn by_length ("month" ∷ "day" ∷ [])
by_length-tells_apart a b in_a in_b h k = elim (month_or_day a in_a) [
  | inl m ↦ elim (month_or_day b in_b) [
    | inl n ↦ m ∙ sym n
    | inr d ↦ absurd (let z = (rw m at h) in let y = (rw d at z) in cc)
  ]
  | inr d ↦ elim (month_or_day b in_b) [
    | inl n ↦ absurd (let z = (rw d at k) in let y = (rw n at z) in cc)
    | inr e ↦ d ∙ sym e
  ]
]

canonical_by_length :
    canonicalize_budgets ⦃c = by_length⦄ (month ∷ day ∷ [])
    ≡ ok (canonical_day ∷ canonical_month ∷ [])
unfolding canonicalize_budgets validate_usage_budget_envelope assert_usage_identifier
    normalize_budget has_equal_neighbours sort_by insert_by assert_non_negative_integer
canonical_by_length = refl

canonicalize_budgets-Unique_example : Unique ("day" ∷ "month" ∷ [])
canonicalize_budgets-Unique_example =
    canonicalize_budgets-Unique ⦃c = by_length⦄ (month ∷ day ∷ [])
      (canonical_day ∷ canonical_month ∷ []) by_length-tells_apart canonical_by_length

canonicalize_budgets-hides_duplicate_example :
    (canonicalize_budgets ⦃c = by_length⦄ (
        record { key = "ab"; limit = nat 1 }
        ∷ record { key = "cd"; limit = nat 2 }
        ∷ record { key = "ab"; limit = nat 1 }
        ∷ [])
      ≡ ok (
          record { key = "ab"; limit = 1 }
          ∷ record { key = "cd"; limit = 2 }
          ∷ record { key = "ab"; limit = 1 }
          ∷ []))
    × ¬ Unique ("ab" ∷ "cd" ∷ "ab" ∷ [])
canonicalize_budgets-hides_duplicate_example =
    canonicalize_budgets-hides_duplicate ⦃c = by_length⦄ "ab" "cd" 1 2
      (ground (arith, eq_iff "ab" "cd")) refl refl (omega arith, omega arith)
      (omega arith, omega arith) (omega arith) (omega arith)
