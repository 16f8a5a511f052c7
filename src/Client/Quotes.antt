-- ===== src/Client/Quotes.antt =====
-- `normalizeUsagePolicyQuote` and `normalizeVectorUsagePolicyQuote` of packages/core/src/index.ts:
-- the answer of a policy, checked and canonicalised.
pub mod Checked
use Prim.Native.Char.{code}
use Prim.Native.String
use mcp_usage_control.Base.{
  ℕ, ◌+◌, Bool, true, false, List, [], ◌∷◌, String, Option, none, some, eqb, ltb, is_some, ◌&&◌,
  ◌||◌, Result, ok, throw, throw_if, type_error, ◌>>=◌, ◌>>◌, if◌then◌else◌,
}
use mcp_usage_control.Number.{Number, assert_non_negative_integer, assert_positive_integer}
use mcp_usage_control.Types.{Budget, CanonicalBudget, UsageDimension, Demand}
use mcp_usage_control.Collation.{Collation}
use mcp_usage_control.Budgets.{canonicalize_budgets}
use mcp_usage_control.Dimensions.{canonicalize_usage_dimensions}
use mcp_usage_control.Value.{Value, undefined, null, boolean, number, text, array, object, is_text}

-- What a policy returns. Of a quote the decision and the reason are unchecked, and either field
-- with budgets may be an own property or not; the rest has its declared types.
pub record UsageQuote : Type 0 where
  pub decision : Value
  pub reason : Value
  pub units : Number
  pub budget : Option Budget
  pub budgets : Option (List Budget)
  pub reservation_ttl_ms : Option Number

pub data UsagePolicyAnswer : Type 0 where
  no_object : UsagePolicyAnswer
  quote : UsageQuote → UsagePolicyAnswer

-- `dimensions` is absent where it is no array.
pub record VectorUsageQuote : Type 0 where
  pub decision : Value
  pub reason : Value
  pub dimensions : Option (List UsageDimension)
  pub reservation_ttl_ms : Option Number

pub data VectorUsagePolicyAnswer : Type 0 where
  no_object : VectorUsagePolicyAnswer
  quote : VectorUsageQuote → VectorUsagePolicyAnswer

pub data NormalizedUsagePolicyQuote : Type 0 where
  allow : ℕ → List CanonicalBudget → Option ℕ → NormalizedUsagePolicyQuote
  deny : String → NormalizedUsagePolicyQuote

pub data NormalizedVectorQuote : Type 0 where
  allow : List Demand → Option ℕ → NormalizedVectorQuote
  deny : String → NormalizedVectorQuote

abbrev pub max_policy_denial_reason_length : ℕ
max_policy_denial_reason_length = 128

-- The `length` of a text: characters above the basic plane count twice.
abbrev pub utf16_length : String → ℕ
utf16_length String.[] = 0
utf16_length (String.◌∷◌ c s) = (if ltb 65535 (code c) then 2 else 1) + utf16_length s

unfoldable pub validate_policy_denial_reason : Value → Result String
validate_policy_denial_reason (text s) =
    if eqb (utf16_length s) 0 || ltb max_policy_denial_reason_length (utf16_length s)
    then throw type_error
    else ok s
validate_policy_denial_reason undefined = throw type_error
validate_policy_denial_reason null = throw type_error
validate_policy_denial_reason (boolean b) = throw type_error
validate_policy_denial_reason (number n) = throw type_error
validate_policy_denial_reason (array vs) = throw type_error
validate_policy_denial_reason (object fields) = throw type_error

-- The check of `reservationTtlMs`.
unfoldable pub optional_ttl : Option Number → Result (Option ℕ)
optional_ttl none = ok none
optional_ttl (some n) = assert_positive_integer n >>= λ ttl. ok (some ttl)

-- Exactly one of `budget` and `budgets`.
unfoldable pub quoted_budgets :
    ⦃c : Collation⦄ → Option Budget → Option (List Budget) → Result (List CanonicalBudget)
quoted_budgets none none = throw type_error
quoted_budgets none (some budgets) = canonicalize_budgets budgets
quoted_budgets (some budget) none = canonicalize_budgets (budget ∷ [])
quoted_budgets (some budget) (some budgets) = throw type_error

unfoldable pub normalize_allowed : ⦃c : Collation⦄ → UsageQuote → Result NormalizedUsagePolicyQuote
unfolding quoted_budgets optional_ttl
normalize_allowed q = do
  units ← assert_non_negative_integer q.units
  budgets ← quoted_budgets q.budget q.budgets
  ttl ← optional_ttl q.reservation_ttl_ms
  ok (NormalizedUsagePolicyQuote.allow units budgets ttl)

unfoldable pub normalize_usage_policy_quote :
    ⦃c : Collation⦄ → UsagePolicyAnswer → Result NormalizedUsagePolicyQuote
unfolding validate_policy_denial_reason normalize_allowed
normalize_usage_policy_quote UsagePolicyAnswer.no_object = throw type_error
normalize_usage_policy_quote (UsagePolicyAnswer.quote q) =
    if is_text q.decision "deny"
    then (validate_policy_denial_reason q.reason >>= λ reason.
        ok (NormalizedUsagePolicyQuote.deny reason))
    else if is_text q.decision "allow"
    then normalize_allowed q
    else throw type_error

unfoldable pub normalize_vector_allowed :
    ⦃c : Collation⦄ → VectorUsageQuote → Result NormalizedVectorQuote
unfolding optional_ttl
normalize_vector_allowed q = elim q.dimensions [
  | none ↦ throw type_error
  | some dimensions ↦ (do
    demands ← canonicalize_usage_dimensions dimensions
    ttl ← optional_ttl q.reservation_ttl_ms
    ok (NormalizedVectorQuote.allow demands ttl))
]

unfoldable pub normalize_vector_usage_policy_quote :
    ⦃c : Collation⦄ → VectorUsagePolicyAnswer → Result NormalizedVectorQuote
unfolding validate_policy_denial_reason normalize_vector_allowed
normalize_vector_usage_policy_quote VectorUsagePolicyAnswer.no_object = throw type_error
normalize_vector_usage_policy_quote (VectorUsagePolicyAnswer.quote q) =
    if is_text q.decision "deny"
    then (validate_policy_denial_reason q.reason >>= λ reason.
        ok (NormalizedVectorQuote.deny reason))
    else if is_text q.decision "allow"
    then normalize_vector_allowed q
    else throw type_error
