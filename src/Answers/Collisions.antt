-- ===== src/Answers/Collisions.antt =====
-- Dimension and budget keys that hold a NUL: two pairs of them can have one text.
use Prim.Native.String
use text.Mathlib.TextLemmas.{append_assoc}
use mcp_usage_control.Base.{ℕ, ◌≡◌, refl, sym, ap, ◌∙◌, eq_refl, [], ◌∷◌, String, throw, type_error}
use mcp_usage_control.Types.{Demand}
use mcp_usage_control.Value.{array}
use mcp_usage_control.Answers.Encoding.{of_list, of_vector_balance}
use mcp_usage_control.Answers.Vector.{pair_key, expected_pairs, validate_vector_remaining_topology}

-- A text with a NUL and another text behind it.
abbrev pub around_nul : String → String → String
around_nul a b = String.◌++◌ a (String.◌++◌ "\0" b)

pair_key-collides : (a b c : String) → pair_key a (around_nul b c) ≡ pair_key (around_nul a b) c
unfolding pair_key
pair_key-collides a b c = sym (
    append_assoc a (String.◌++◌ "\0" b) (String.◌++◌ "\0" c)
    ∙ ap (String.◌++◌ a) (append_assoc "\0" b (String.◌++◌ "\0" c)))

abbrev pub lone_demand : String → String → ℕ → ℕ → Demand
lone_demand dimension budget units limit = record {
  key = dimension;
  units = units;
  budgets = record { key = budget; limit = limit } ∷ [];
}

-- Two dimensions whose keys and budget keys differ, but for which the keys around a NUL are one
-- text: an answer with exactly the two balances that the request asks for is refused.
pub validate_vector_remaining_topology-refuses :
    (a b c : String) (units limit n m : ℕ)
    → validate_vector_remaining_topology
        (array (
          of_list of_vector_balance (
            record { dimension_key = a; budget_key = around_nul b c; remaining = n }
            ∷ record { dimension_key = around_nul a b; budget_key = c; remaining = m }
            ∷ [])))
        (lone_demand a (around_nul b c) units limit
          ∷ lone_demand (around_nul a b) c units limit
          ∷ [])
      ≡ throw type_error
unfolding validate_vector_remaining_topology expected_pairs
validate_vector_remaining_topology-refuses a b c units limit n m =
    rw (pair_key-collides a b c, eq_refl (pair_key (around_nul a b) c)) refl
