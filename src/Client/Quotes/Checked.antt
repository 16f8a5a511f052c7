-- ===== src/Client/Quotes/Checked.antt =====
-- What a quote that passes the checks of packages/core/src/index.ts holds.
use mcp_usage_control.Base.{
  eqb, ltb, ◌||◌, ℕ, ◌<◌, ◌≤◌, ◌≡◌, subst, arith, Bool-cases, inl, inr, List, [], ◌∷◌, String,
  Option, none, some, Unique, occurrences, map, refl, ap, true, ok, >>=-eq-ok, ok_injective,
}
use mcp_usage_control.Number.{
  Number, nat, max_safe_integer, assert_non_negative_integer, assert_non_negative_integer_bound,
  assert_positive_integer, assert_positive_integer_bound,
}
use mcp_usage_control.Types.{Budget, CanonicalBudget}
use mcp_usage_control.Collation.{Collation, IsStrictOn}
use mcp_usage_control.Budgets.{budget_keys}
use mcp_usage_control.Budgets.Canonical.{
  IsCanonical, canonicalize_budgets-IsCanonical, IsCanonical-Unique, input_key,
}
use mcp_usage_control.Value.{Value, undefined, null, boolean, number, text, array, object, is_text}
use mcp_usage_control.Client.Quotes.{
  UsageQuote, UsagePolicyAnswer, NormalizedUsagePolicyQuote, utf16_length,
  max_policy_denial_reason_length, validate_policy_denial_reason, optional_ttl, quoted_budgets,
  normalize_allowed, normalize_usage_policy_quote,
}

-- The budgets of a quote, one or several.
abbrev pub inputs_of : Option Budget → Option (List Budget) → List Budget
inputs_of none none = []
inputs_of none (some several) = several
inputs_of (some budget) several = budget ∷ []

-- The keys of the budgets that a policy answers with.
abbrev pub quoted_keys : UsagePolicyAnswer → List String
quoted_keys UsagePolicyAnswer.no_object = []
quoted_keys (UsagePolicyAnswer.quote q) = map input_key (inputs_of q.budget q.budgets)

-- A lifetime is absent, or a positive safe integer, and as it was given.
abbrev pub IsLifetime : Option Number → Option ℕ → Type 0
IsLifetime given none = given ≡ none
IsLifetime given (some n) = (given ≡ some (nat n)) × (0 < n) × (n ≤ max_safe_integer)

-- A checked quote of the given one.
abbrev pub IsQuoteOf : ⦃c : Collation⦄ → UsageQuote → NormalizedUsagePolicyQuote → Type 0
IsQuoteOf q (NormalizedUsagePolicyQuote.allow units budgets ttl) =
    (is_text q.decision "allow" ≡ true)
    × (q.units ≡ nat units)
    × (units ≤ max_safe_integer)
    × IsCanonical budgets
    × ((k : String)
        → occurrences k (budget_keys budgets)
          ≡ occurrences k (map input_key (inputs_of q.budget q.budgets)))
    × IsLifetime q.reservation_ttl_ms ttl
IsQuoteOf q (NormalizedUsagePolicyQuote.deny reason) =
    (is_text q.decision "deny" ≡ true)
    × (q.reason ≡ text reason)
    × (0 < utf16_length reason)
    × (utf16_length reason ≤ max_policy_denial_reason_length)

abbrev pub IsNormalQuote : ⦃c : Collation⦄ → UsagePolicyAnswer → NormalizedUsagePolicyQuote → Type 0
IsNormalQuote UsagePolicyAnswer.no_object quote = ⊥
IsNormalQuote (UsagePolicyAnswer.quote q) quote = IsQuoteOf q quote

optional_ttl-IsLifetime :
    (given : Option Number) (ttl : Option ℕ) → optional_ttl given ≡ ok ttl → IsLifetime given ttl
unfolding optional_ttl
optional_ttl-IsLifetime none ttl h = subst (IsLifetime none) (ok_injective h) refl
optional_ttl-IsLifetime (some n) ttl h =
    let (m, hm, h1) = >>=-eq-ok (assert_positive_integer n) _ h in
    let (same, low, high) = assert_positive_integer_bound n m hm in
    subst (IsLifetime (some n)) (ok_injective h1) (ap some same, low, high)

reason_bounds :
    (value : Value) (reason : String)
    → validate_policy_denial_reason value ≡ ok reason
    → (value ≡ text reason)
      × (0 < utf16_length reason)
      × (utf16_length reason ≤ max_policy_denial_reason_length)
unfolding validate_policy_denial_reason
reason_bounds (text s) reason h =
    elim (Bool-cases
      (eqb (utf16_length s) 0 || ltb max_policy_denial_reason_length (utf16_length s))) [
        | inl out ↦ absurd (let z = (rw out at h) in cc)
        | inr good ↦
            subst
              (λ r.
                (text s ≡ text r)
                × (0 < utf16_length r)
                × (utf16_length r ≤ max_policy_denial_reason_length))
              (ok_injective (rw good at h)) (refl, ground arith, ground arith)
      ]
reason_bounds undefined reason h = cc
reason_bounds null reason h = cc
reason_bounds (boolean b) reason h = cc
reason_bounds (number n) reason h = cc
reason_bounds (array vs) reason h = cc
reason_bounds (object fields) reason h = cc

module _ ⦃c : Collation⦄ where
  -- Canonical budgets with the keys of an input, each as often.
  abbrev IsCanonicalOf : List Budget → List CanonicalBudget → Type 0
  IsCanonicalOf input budgets =
      IsCanonical budgets
      × ((k : String) → occurrences k (budget_keys budgets) ≡ occurrences k (map input_key input))

  quoted_budgets-IsCanonicalOf :
      (budget : Option Budget) (several : Option (List Budget)) (budgets : List CanonicalBudget)
      → quoted_budgets budget several ≡ ok budgets
      → IsCanonicalOf (inputs_of budget several) budgets
  unfolding quoted_budgets
  quoted_budgets-IsCanonicalOf none none budgets h = absurd (cc)
  quoted_budgets-IsCanonicalOf none (some several) budgets h =
      canonicalize_budgets-IsCanonical several budgets h
  quoted_budgets-IsCanonicalOf (some budget) none budgets h =
      canonicalize_budgets-IsCanonical (budget ∷ []) budgets h
  quoted_budgets-IsCanonicalOf (some budget) (some several) budgets h = absurd (cc)

  allowed-IsQuoteOf :
      (q : UsageQuote) (quote : NormalizedUsagePolicyQuote)
      → is_text q.decision "allow" ≡ true
      → normalize_allowed q ≡ ok quote
      → IsQuoteOf q quote
  unfolding normalize_allowed
  allowed-IsQuoteOf q quote allows h =
      let (n, hn, h1) = >>=-eq-ok (assert_non_negative_integer q.units) _ h in
      let (bs, hb, h2) = >>=-eq-ok (quoted_budgets q.budget q.budgets) _ h1 in
      let (ttl, ht, h3) = >>=-eq-ok (optional_ttl q.reservation_ttl_ms) _ h2 in
      let (given, bound) = assert_non_negative_integer_bound q.units n hn in
      let (canonical, same) = quoted_budgets-IsCanonicalOf q.budget q.budgets bs hb in
      subst (IsQuoteOf q) (ok_injective h3)
        (allows, given, bound, canonical, same, optional_ttl-IsLifetime q.reservation_ttl_ms ttl ht)

  -- A policy's answer that passes the checks is an object with a decision, and the checked quote
  -- holds what it says. If it allows: its units, a safe integer; canonical budgets, sorted, valid
  -- and without equal neighbours, with each key as often as in the answer; and its lifetime, a
  -- positive safe integer, or none. If it denies: its reason, of 1 to 128 units of UTF-16.
  pub normalize_usage_policy_quote-IsNormalQuote :
      (answer : UsagePolicyAnswer) (quote : NormalizedUsagePolicyQuote)
      → normalize_usage_policy_quote answer ≡ ok quote
      → IsNormalQuote answer quote
  unfolding normalize_usage_policy_quote
  normalize_usage_policy_quote-IsNormalQuote UsagePolicyAnswer.no_object quote h = absurd (cc)
  normalize_usage_policy_quote-IsNormalQuote (UsagePolicyAnswer.quote q) quote h =
      elim (Bool-cases (is_text q.decision "deny")) [
        | inl denies ↦
            (let (reason, hr, h1) =
                >>=-eq-ok (validate_policy_denial_reason q.reason) _ (rw denies at h) in
              let (given, low, high) = reason_bounds q.reason reason hr in
              subst (IsQuoteOf q) (ok_injective h1) (denies, given, low, high))
        | inr other ↦ elim (Bool-cases (is_text q.decision "allow")) [
          | inl allows ↦
              allowed-IsQuoteOf q quote allows (let h1 = (rw other at h) in (rw allows at h1))
          | inr neither ↦ absurd (let h1 = (rw other at h) in let h2 = (rw neither at h1) in cc)
        ]
      ]

  -- Where the collation tells the quoted keys apart, an allowing quote repeats no key.
  pub normalize_usage_policy_quote-Unique :
      (answer : UsagePolicyAnswer) (units : ℕ) (budgets : List CanonicalBudget) (ttl : Option ℕ)
      → IsStrictOn c (quoted_keys answer)
      → IsNormalQuote answer (NormalizedUsagePolicyQuote.allow units budgets ttl)
      → IsCanonical budgets × Unique (budget_keys budgets)
  normalize_usage_policy_quote-Unique UsagePolicyAnswer.no_object units budgets ttl strict h =
      absurd h
  normalize_usage_policy_quote-Unique (UsagePolicyAnswer.quote q) units budgets ttl strict
        (_, _, _, canonical, same, _) =
      (canonical, IsCanonical-Unique _ budgets strict canonical same)
