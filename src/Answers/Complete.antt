-- ===== src/Answers/Complete.antt =====
-- Which answers pass the client's checks: those that hold what was asked for.
use mcp_usage_control.Base.{
  ℕ, suc, ◌≤◌, ◌≡◌, refl, sym, ap, subst, ◌∙◌, inl, inr, Bool-cases, lt→ltb, true, false, List, [],
  ◌∷◌, String, ◌==◌, eq_refl, Option, none, some, All, Apart, Apart-strengthen, Apart-none, Unique,
  includes, length, ok, eq→eqb, le→leb, length-map,
}
use mcp_usage_control.Number.{nat, max_safe_integer}
use mcp_usage_control.Types.DenialReason.{quota_exceeded, duplicate_operation}
use mcp_usage_control.Records.Copies.{IsHandedOut}
use mcp_usage_control.Types.{
  DenialReason, UsageRequest, CanonicalBudget, BudgetRemaining, ReservationRecord,
  StoreReserveResult,
}
use mcp_usage_control.Budgets.{budget_keys}
use mcp_usage_control.Records.{is_blank_option, is_blank}
use mcp_usage_control.Value.{
  require_record, cast_optional, Value, Values, number, text, array, of_option,
  validate_non_empty_string, validate_optional_non_empty_string, assert_non_negative_store_integer,
  assert_positive_store_integer, is_optional_text,
}
use mcp_usage_control.Answers.{
  denial_reason, ReserveDenial, validate_reserve_denial, require_store_result, size, require_items,
  strings_from, validate_string_set, balances_from, validate_budget_remaining_topology,
}
use mcp_usage_control.Answers.Encoding.{of_list, of_balance, of_reserve_result}
use mcp_usage_control.Answers.Sound.{balance_keys}
use mcp_usage_control.Answers.Scalar.{
  ReserveAnswer, validate_scalar_accepted_reservation, validate_store_reserve_result,
}

size-of_list {ℓ} : {A : Type ℓ} (f : A → Value) (xs : List A) → size (of_list f xs) ≡ length xs
size-of_list f [] = refl
size-of_list f (x ∷ xs) = ap suc (size-of_list f xs)

-- Texts that are each expected, and neither blank nor repeated nor seen.
abbrev IsFresh : List String → List String → List String → Type 0
IsFresh expected seen ks =
    All (λ k. (is_blank k ≡ false) × (includes k expected ≡ true)) ks × Unique ks × Apart ks seen

text_accepted : (s : String) → is_blank s ≡ false → validate_non_empty_string (text s) ≡ ok s
unfolding validate_non_empty_string
text_accepted s h = rw h refl

units_accepted :
    (n : ℕ) → n ≤ max_safe_integer → assert_non_negative_store_integer (number (nat n)) ≡ ok n
unfolding assert_non_negative_store_integer
units_accepted n h = rw (le→leb n max_safe_integer h) refl

require_items-accepts : (vs : Values) (n : ℕ) → size vs ≡ n → require_items (array vs) n ≡ ok vs
require_items-accepts vs n h = rw (eq→eqb (size vs) n h) refl

module _ (expected : List String) where
  strings_from-accepts :
      (seen ks : List String)
      → IsFresh expected seen ks
      → strings_from expected seen (of_list text ks) ≡ ok ks
  unfolding strings_from
  strings_from-accepts seen [] h = refl
  strings_from-accepts seen (k ∷ ks) ((here, all), (fresh, unique), (new, apart)) =
      rw
        (
          text_accepted k here.0,
          here.1,
          new,
          strings_from-accepts (k ∷ seen) ks (all, unique, Apart-strengthen k ks seen fresh apart),
        )
        refl

  balances_from-accepts :
      (seen : List String) (bs : List BudgetRemaining)
      → IsFresh expected seen (balance_keys bs)
      → All (λ b. b.remaining ≤ max_safe_integer) bs
      → balances_from expected seen (of_list of_balance bs) ≡ ok bs
  unfolding balances_from
  balances_from-accepts seen [] h small = refl
  balances_from-accepts seen (b ∷ bs) ((here, all), (fresh, unique), (new, apart)) (small, rest) =
      rw
        (
          text_accepted b.key here.0,
          here.1,
          new,
          units_accepted b.remaining small,
          balances_from-accepts (b.key ∷ seen) bs
              (all, unique, Apart-strengthen b.key (balance_keys bs) seen fresh apart) rest,
        )
        refl

included :
    (ks es : List String)
    → ((k : String) → includes k ks ≡ true → includes k es ≡ true)
    → All (λ k. includes k es ≡ true) ks
included [] es h = tt
included (k ∷ ks) es h = (
  h k (rw (eq_refl k) refl),
  included ks es (λ j m. h j (elim (Bool-cases (k == j)) [ inl e ↦ rw e refl | inr e ↦ rw e m ])),
)

paired {ℓ} :
    {A : Type ℓ} (P Q : A → Type 0) (xs : List A) → All P xs → All Q xs → All (λ x. P x × Q x) xs
paired P Q [] p q = tt
paired P Q (x ∷ xs) (p, ps) (q, qs) = ((p, q), paired P Q xs ps qs)

expected_IsFresh :
    (ks : List String) → All (λ k. is_blank k ≡ false) ks → Unique ks → IsFresh ks [] ks
expected_IsFresh ks filled unique = (
  paired (λ k. is_blank k ≡ false) (λ k. includes k ks ≡ true) ks filled
      (included ks ks (λ k m. m)),
  unique,
  Apart-none ks,
)

option_accepted :
    (o : Option String)
    → is_blank_option o ≡ false
    → validate_optional_non_empty_string (of_option o) ≡ ok o
unfolding validate_optional_non_empty_string validate_non_empty_string
option_accepted none h = refl
option_accepted (some s) h = rw h refl

option_same : (o : Option String) → is_optional_text (of_option o) o ≡ true
option_same none = refl
option_same (some s) = eq_refl s

option_cast : (o : Option String) → cast_optional (of_option o) ≡ o
option_cast none = refl
option_cast (some s) = refl

module _ (request : UsageRequest) (units : ℕ) (budgets : List CanonicalBudget) (id : String)
    (expires_at : ℕ) (cursor : Option String) (balances : List BudgetRemaining) where
  -- The reservation that is asked for.
  abbrev pub asked_record : ReservationRecord
  asked_record = record {
    id = id;
    operation_id = request.operation_id;
    principal_id = request.principal.id;
    tenant_id = request.principal.tenant_id;
    plan = request.principal.plan;
    tool = request.tool;
    budget_keys = budget_keys budgets;
    reserved_units = units;
    expires_at = expires_at;
    growth_cursor = cursor;
  }

  -- An acceptance of exactly what was asked for passes the checks, and is read as it is.
  pub validate_store_reserve_result-accepts :
      IsHandedOut id (budget_keys budgets) units expires_at cursor
      → Unique (budget_keys budgets)
      → balance_keys balances ≡ budget_keys budgets
      → All (λ b. b.remaining ≤ max_safe_integer) balances
      → validate_store_reserve_result
          (of_reserve_result (StoreReserveResult.accepted asked_record balances))
          request
          units
          budgets
        ≡ ok (ReserveAnswer.accepted asked_record balances)
  unfolding of_reserve_result validate_store_reserve_result require_store_result require_record
      validate_scalar_accepted_reservation validate_string_set validate_budget_remaining_topology
      assert_positive_store_integer
  validate_store_reserve_result-accepts h unique same small =
      let keys = budget_keys budgets in
      let fresh = expected_IsFresh keys h.keys_filled unique in
      let texts = strings_from-accepts keys [] keys fresh in
      let counted =
        require_items-accepts (of_list text keys) (length keys) (size-of_list text keys) in
      let listed =
        balances_from-accepts keys [] balances (subst (IsFresh keys []) (sym same) fresh) small in
      let counted' = require_items-accepts (of_list of_balance balances) (length keys) (
        size-of_list of_balance balances
        ∙ sym (length-map balances (λ b. b.key))
        ∙ ap length same) in
      rw
        (
          text_accepted id h.id_filled,
          eq_refl request.operation_id,
          eq_refl request.principal.id,
          eq_refl request.tool,
          option_same request.principal.tenant_id,
          option_same request.principal.plan,
          option_cast request.principal.tenant_id,
          option_cast request.principal.plan,
          units_accepted units h.units_bound,
          eq→eqb units units refl,
          option_accepted cursor h.cursor_filled,
          le→leb expires_at max_safe_integer h.expires_bound,
          lt→ltb 0 expires_at h.expires_positive,
          counted,
          texts,
          counted',
          listed,
        )
        refl

-- The denial that a refusal is read as.
abbrev pub read_denial : DenialReason → Option BudgetRemaining → ReserveDenial
read_denial reason none = record {
  reason = reason;
  limiting_dimension_key = none;
  limiting_budget_key = none;
  remaining = none;
}
read_denial reason (some b) = record {
  reason = reason;
  limiting_dimension_key = none;
  limiting_budget_key = some b.key;
  remaining = some b.remaining;
}

abbrev pub IsLimiting : Option BudgetRemaining → Type 0
IsLimiting none = Unit
IsLimiting (some b) = (is_blank b.key ≡ false) × (b.remaining ≤ max_safe_integer)

pub refusal_accepted :
    (request : UsageRequest) (units : ℕ) (budgets : List CanonicalBudget) (reason : DenialReason)
    (limiting : Option BudgetRemaining)
    → IsLimiting limiting
    → validate_store_reserve_result
        (of_reserve_result (StoreReserveResult.rejected reason limiting))
        request
        units
        budgets
      ≡ ok (ReserveAnswer.rejected (read_denial reason limiting))
unfolding of_reserve_result validate_store_reserve_result require_store_result require_record
    validate_reserve_denial denial_reason
refusal_accepted request units budgets quota_exceeded none h = refl
refusal_accepted request units budgets duplicate_operation none h = refl
refusal_accepted request units budgets quota_exceeded (some b) h =
    rw (text_accepted b.key h.0, units_accepted b.remaining h.1) refl
refusal_accepted request units budgets duplicate_operation (some b) h =
    rw (text_accepted b.key h.0, units_accepted b.remaining h.1) refl
