-- ===== src/WeightedCredits/Kept.antt =====
-- What the checked configuration of a weighted-credit policy holds of the given one.
use mcp_usage_control.Base.{
  refl, ap, ◌∙◌, ◌⊎◌, eq_iff, ok_injective, sym, range_error, is_empty, throw_if, ◌==◌, ◌≡◌, String,
  ℕ, subst, ok, none, some, [], ◌∷◌, inl, inr, All, Option-cases, Bool-cases, >>=-eq-ok, ◌≤◌,
}
use mcp_usage_control.WeightedCredits.{
  fallback, UnknownTool, define_unknown_tool, define_plans, assert_non_empty_key, units_for,
  WeightedCreditPolicyConfig, define_weighted_credit_policy_config, define_units, deny_unknown,
  fallback_units,
}
use mcp_usage_control.JsMap.{get, get-set, set, JsMap}
use mcp_usage_control.Number.{
  assert_non_negative_integer_bound, assert_non_negative_integer, max_safe_integer, Number, nat,
}

abbrev pub AllSafe : JsMap ℕ → Type 0
AllSafe m = All (λ e. e.1 ≤ max_safe_integer) m

set-AllSafe :
    (k : String) (n : ℕ) (m : JsMap ℕ) → n ≤ max_safe_integer → AllSafe m → AllSafe (set k n m)
unfolding set
set-AllSafe k n [] h a = (h, tt)
set-AllSafe k n ((j, x) ∷ m) h (b, a) = elim (Bool-cases (j == k)) [
  | inl same ↦ rw same (h, a)
  | inr other ↦ rw other (b, set-AllSafe k n m h a)
]

get-safe : (k : String) (n : ℕ) (m : JsMap ℕ) → AllSafe m → get k m ≡ some n → n ≤ max_safe_integer
unfolding get
get-safe k n [] a h = cc
get-safe k n ((j, x) ∷ m) (b, a) h = elim (Bool-cases (j == k)) [
  | inl same ↦
      (let e : x ≡ n = (let z : some x ≡ some n = (rw same at h) in cc) in
        subst (λ y. y ≤ max_safe_integer) e b)
  | inr other ↦ get-safe k n m a (rw other at h)
]

define_units-AllSafe :
    (entries : JsMap Number) (kept m : JsMap ℕ)
    → AllSafe kept
    → define_units entries kept ≡ ok m
    → AllSafe m
unfolding define_units
define_units-AllSafe [] kept m a h = let e : kept ≡ m = cc in subst AllSafe e a
define_units-AllSafe ((key, units) ∷ rest) kept m a h =
    let (_, ok_key, h1) = >>=-eq-ok (assert_non_empty_key key) _ h in
    let (n, ok_units, h2) = >>=-eq-ok (assert_non_negative_integer units) _ h1 in
    let bound = (assert_non_negative_integer_bound units n ok_units).1 in
    define_units-AllSafe rest (set key n kept) m (set-AllSafe key n kept bound a) h2

abbrev pub SafeUnknown : UnknownTool ℕ → Type 0
SafeUnknown deny_unknown = Unit
SafeUnknown (fallback_units n) = n ≤ max_safe_integer

define_unknown_tool-SafeUnknown :
    (given : UnknownTool Number) (u : UnknownTool ℕ)
    → define_unknown_tool given ≡ ok u
    → SafeUnknown u
define_unknown_tool-SafeUnknown deny_unknown u h =
    let e : deny_unknown ≡ u = cc in subst SafeUnknown e tt
define_unknown_tool-SafeUnknown (fallback_units x) u h =
    let (n, ok_n, h1) = >>=-eq-ok (assert_non_negative_integer x) _ h in
    let e : fallback_units n ≡ u = cc in
    subst SafeUnknown e (assert_non_negative_integer_bound x n ok_n).1

-- The numbers of units in a configuration that is kept.
abbrev pub SafeConfig : WeightedCreditPolicyConfig ℕ → Type 0
SafeConfig config = AllSafe config.tools × SafeUnknown config.unknown_tool

pub define-SafeConfig :
    (given : WeightedCreditPolicyConfig Number) (config : WeightedCreditPolicyConfig ℕ)
    → define_weighted_credit_policy_config given ≡ ok config
    → SafeConfig config
unfolding define_weighted_credit_policy_config
define-SafeConfig given config h =
    let (tools, ok_tools, h1) = >>=-eq-ok (define_units given.tools []) _ h in
    let (plans, ok_plans, h2) = >>=-eq-ok (define_plans given.plans []) _ h1 in
    let (_, some_plan, h3) = >>=-eq-ok (throw_if (is_empty plans) range_error) _ h2 in
    let (unknown, ok_unknown, h4) = >>=-eq-ok (define_unknown_tool given.unknown_tool) _ h3 in
    let e : record { tools = tools; plans = plans; unknown_tool = unknown } ≡ config = cc in
    subst SafeConfig e (
      define_units-AllSafe given.tools [] tools tt ok_tools,
      define_unknown_tool-SafeUnknown given.unknown_tool unknown ok_unknown,
    )

-- An entry of a configuration as it was given.
abbrev pub HasEntry : String → Number → JsMap Number → Type 0
HasEntry k v [] = ⊥
HasEntry k v ((j, w) ∷ rest) = ((j ≡ k) × (w ≡ v)) ⊎ HasEntry k v rest

define_units-HasEntry :
    (k : String) (n : ℕ) (entries : JsMap Number) (kept m : JsMap ℕ)
    → define_units entries kept ≡ ok m
    → get k m ≡ some n
    → HasEntry k (nat n) entries ⊎ (get k kept ≡ some n)
unfolding define_units
define_units-HasEntry k n [] kept m h found =
    let e : kept ≡ m = cc in inr (subst (λ x. get k x ≡ some n) (sym e) found)
define_units-HasEntry k n ((j, v) ∷ rest) kept m h found =
    let (_, _, h1) = >>=-eq-ok (assert_non_empty_key j) _ h in
    let (x, hx, h2) = >>=-eq-ok (assert_non_negative_integer v) _ h1 in
    let (given, _) = assert_non_negative_integer_bound v x hx in
    elim (define_units-HasEntry k n rest (set j x kept) m h2 found) [
      | inl later ↦ inl (inr later)
      | inr earlier ↦ elim (Bool-cases (j == k)) [
        | inl same ↦
            (let z : some x ≡ some n = sym (get-set j k x kept ∙ rw same) ∙ earlier in
              let count : x ≡ n = cc in inl (inl ((eq_iff j k).0 same, given ∙ ap nat count)))
        | inr other ↦ inr (sym (get-set j k x kept ∙ rw other) ∙ earlier)
      ]
    ]

define_units-absent :
    (k : String) (entries : JsMap Number) (kept m : JsMap ℕ)
    → define_units entries kept ≡ ok m
    → get k m ≡ none
    → (get k entries ≡ none) × (get k kept ≡ none)
unfolding define_units get
define_units-absent k [] kept m h missing =
    let e : kept ≡ m = cc in (refl, subst (λ x. get k x ≡ none) (sym e) missing)
define_units-absent k ((j, v) ∷ rest) kept m h missing =
    let (_, _, h1) = >>=-eq-ok (assert_non_empty_key j) _ h in
    let (x, _, h2) = >>=-eq-ok (assert_non_negative_integer v) _ h1 in
    let (later, earlier) = define_units-absent k rest (set j x kept) m h2 missing in
    elim (Bool-cases (j == k)) [
      | inl same ↦
          absurd (let z : some x ≡ none = sym (get-set j k x kept ∙ rw same) ∙ earlier in cc)
      | inr other ↦ (rw other later, sym (get-set j k x kept ∙ rw other) ∙ earlier)
    ]

-- The units that a configuration, as it was given, has for a tool: those of the tool's own entry, or
-- the fallback for a tool without one.
abbrev pub IsWeighted : WeightedCreditPolicyConfig Number → String → ℕ → Type 0
IsWeighted given tool units =
    HasEntry tool (nat units) given.tools
    ⊎ ((get tool given.tools ≡ none) × (given.unknown_tool ≡ fallback_units (nat units)))

-- A configuration, as it was given, without units for a tool.
abbrev pub IsUnknown : WeightedCreditPolicyConfig Number → String → Type 0
IsUnknown given tool = (get tool given.tools ≡ none) × (given.unknown_tool ≡ deny_unknown)

fallback-given :
    (given : UnknownTool Number) (u : UnknownTool ℕ) (units : ℕ)
    → define_unknown_tool given ≡ ok u
    → fallback u ≡ some units
    → given ≡ fallback_units (nat units)
fallback-given deny_unknown u units h e =
    let same : deny_unknown ≡ u = cc in
    absurd (let z = subst (λ x. fallback x ≡ some units) (sym same) e in cc)
fallback-given (fallback_units v) u units h e =
    let (n, hn, h1) = >>=-eq-ok (assert_non_negative_integer v) _ h in
    let (given, _) = assert_non_negative_integer_bound v n hn in
    let same : fallback_units n ≡ u = cc in
    let z : some n ≡ some units = subst (λ x. fallback x ≡ some units) (sym same) e in
    let count : n ≡ units = cc in ap fallback_units (given ∙ ap nat count)

no_fallback-given :
    (given : UnknownTool Number) (u : UnknownTool ℕ)
    → define_unknown_tool given ≡ ok u
    → fallback u ≡ none
    → given ≡ deny_unknown
no_fallback-given deny_unknown u h e = refl
no_fallback-given (fallback_units v) u h e =
    let (n, hn, h1) = >>=-eq-ok (assert_non_negative_integer v) _ h in
    let same : fallback_units n ≡ u = cc in
    absurd (let z = subst (λ x. fallback x ≡ none) (sym same) e in cc)

-- What a kept configuration holds of the given one.
abbrev pub IsDefined : WeightedCreditPolicyConfig Number → WeightedCreditPolicyConfig ℕ → Type 0
IsDefined given config =
    (define_units given.tools [] ≡ ok config.tools)
    × (define_unknown_tool given.unknown_tool ≡ ok config.unknown_tool)

pub define-IsDefined :
    (given : WeightedCreditPolicyConfig Number) (config : WeightedCreditPolicyConfig ℕ)
    → define_weighted_credit_policy_config given ≡ ok config
    → IsDefined given config
unfolding define_weighted_credit_policy_config
define-IsDefined given config h =
    let (tools, ok_tools, h1) = >>=-eq-ok (define_units given.tools []) _ h in
    let (plans, ok_plans, h2) = >>=-eq-ok (define_plans given.plans []) _ h1 in
    let (_, some_plan, h3) = >>=-eq-ok (throw_if (is_empty plans) range_error) _ h2 in
    let (unknown, ok_unknown, h4) = >>=-eq-ok (define_unknown_tool given.unknown_tool) _ h3 in
    subst (IsDefined given) (ok_injective h4) (ok_tools, ok_unknown)

module _ (given : WeightedCreditPolicyConfig Number) (config : WeightedCreditPolicyConfig ℕ)
    (tool : String) (defined : IsDefined given config) where
  pub units_for-IsWeighted :
      (units : ℕ) → units_for config tool ≡ some units → IsWeighted given tool units
  unfolding units_for get
  units_for-IsWeighted units h = elim (Option-cases (get tool config.tools)) [
    | inl missing ↦
        (let (absent, _) = define_units-absent tool given.tools [] config.tools defined.0 missing in
          inr (
            absent,
            fallback-given given.unknown_tool config.unknown_tool units defined.1
                (rw (missing, units_for) at h),
          ))
    | inr (n, found) ↦
        (let z : some n ≡ some units = (rw (found, units_for) at h) in
          elim (define_units-HasEntry tool units given.tools [] config.tools defined.0
            (found ∙ z)) [ inl entry ↦ inl entry | inr never ↦ absurd (cc) ])
  ]

  pub units_for-IsUnknown : units_for config tool ≡ none → IsUnknown given tool
  unfolding units_for
  units_for-IsUnknown h = elim (Option-cases (get tool config.tools)) [
    | inl missing ↦ (
      (define_units-absent tool given.tools [] config.tools defined.0 missing).0,
      no_fallback-given given.unknown_tool config.unknown_tool defined.1
          (rw (missing, units_for) at h),
    )
    | inr (n, found) ↦ absurd (let z : some n ≡ none = (rw (found, units_for) at h) in cc)
  ]

fallback_safe :
    (u : UnknownTool ℕ) (units : ℕ)
    → SafeUnknown u
    → fallback u ≡ some units
    → units ≤ max_safe_integer
fallback_safe deny_unknown units h e = absurd (cc)
fallback_safe (fallback_units n) units h e =
    let z : n ≡ units = cc in subst (λ x. x ≤ max_safe_integer) z h

pub units_for_safe :
    (config : WeightedCreditPolicyConfig ℕ) (tool : String) (units : ℕ)
    → SafeConfig config
    → units_for config tool ≡ some units
    → units ≤ max_safe_integer
unfolding units_for
units_for_safe config tool units (tools, unknown) h = elim (Option-cases (get tool config.tools)) [
  | inl missing ↦ fallback_safe config.unknown_tool units unknown (rw (missing, units_for) at h)
  | inr (n, found) ↦
      get-safe tool units config.tools tools
        (let z : some n ≡ some units = (rw (found, units_for) at h) in rw found z)
]
