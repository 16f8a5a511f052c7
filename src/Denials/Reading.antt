-- ===== src/Denials/Reading.antt =====
-- What is read back of the contexts of denied errors.
use mathlib.Core.Option
use mcp_usage_control.Base.{
  ℕ, ◌≡◌, ◌<◌, ◌≤◌, refl, arith, inl, inr, Bool-cases, List, [], ◌∷◌, String, All, Option, none,
  some, Result, ok, throw, sym, ap, ◌∙◌, eq→eqb, eqb, eqb→eq, >>=-eq-ok, ok_injective,
}
use mcp_usage_control.Number.{
  Number, nat, assert_non_negative_integer, assert_non_negative_integer_bound,
}
use mcp_usage_control.Input.{assert_usage_identifier}
use mcp_usage_control.Denials.{
  UsageDenialContext, KeptDenialContext, UsageDeniedError, Thrown, ServerDenialContexts, context_of,
  get_usage_denial_context, check_limiting_budget_key, check_remaining, check_context, keep_context,
  new_usage_denied_error,
}

-- Every context that is kept belongs to an error that has been constructed.
abbrev pub IsIssued : ServerDenialContexts → Type 0
IsIssued contexts = All (λ entry. entry.0 < contexts.next) contexts.entries

-- A kept context as the caller gave it.
abbrev pub as_given : KeptDenialContext → UsageDenialContext
as_given kept = record {
  limiting_budget_key = kept.limiting_budget_key;
  remaining = Option.map nat kept.remaining;
}

-- The outcome of a construction: an error with its reason, of which exactly the given context is
-- read, or a failed check and contexts left alone.
abbrev pub IsConstructed :
    String
    → Option UsageDenialContext
    → ServerDenialContexts
    → Result UsageDeniedError × ServerDenialContexts
    → Type 0
IsConstructed reason given before (ok error, after) =
    (error.reason ≡ reason)
    × (Option.map as_given (get_usage_denial_context (Thrown.denied error) after) ≡ given)
    × (before.next ≤ error.identity)
IsConstructed reason given before (throw e, after) = after ≡ before

not_yet_issued :
    (n m : ℕ) (entries : List (ℕ × KeptDenialContext))
    → All (λ entry. entry.0 < n) entries
    → n ≤ m
    → context_of m entries ≡ none
unfolding context_of
not_yet_issued n m [] h le = refl
not_yet_issued n m ((k, kept) ∷ rest) (h, hs) le = elim (Bool-cases (eqb m k)) [
  | inl same ↦ absurd (let e = eqb→eq m k same in omega arith)
  | inr apart ↦ rw apart (not_yet_issued n m rest hs le)
]

issued_later :
    (n : ℕ) (entries : List (ℕ × KeptDenialContext))
    → All (λ entry. entry.0 < n) entries
    → All (λ entry. entry.0 < ℕ.suc n) entries
issued_later n [] h = tt
issued_later n (entry ∷ rest) (h, hs) = (omega arith, issued_later n rest hs)

check_limiting_budget_key-same :
    (given kept : Option String) → check_limiting_budget_key given ≡ ok kept → kept ≡ given
unfolding check_limiting_budget_key
check_limiting_budget_key-same none kept h = sym (ok_injective h)
check_limiting_budget_key-same (some key) kept h =
    let (_, _, h1) = >>=-eq-ok (assert_usage_identifier key) _ h in sym (ok_injective h1)

check_remaining-same :
    (given : Option Number) (kept : Option ℕ)
    → check_remaining given ≡ ok kept
    → Option.map nat kept ≡ given
unfolding check_remaining
check_remaining-same none kept h = ap (Option.map nat) (sym (ok_injective h))
check_remaining-same (some number) kept h =
    let (n, hn, h1) = >>=-eq-ok (assert_non_negative_integer number) _ h in
    let (same, _) = assert_non_negative_integer_bound number n hn in
    ap (Option.map nat) (sym (ok_injective h1)) ∙ ap some (sym same)

check_context-same :
    (given : UsageDenialContext) (kept : KeptDenialContext)
    → check_context given ≡ ok kept
    → as_given kept ≡ given
unfolding check_context
check_context-same given kept h =
    let (key, hk, h1) = >>=-eq-ok (check_limiting_budget_key given.limiting_budget_key) _ h in
    let (n, hn, h2) = >>=-eq-ok (check_remaining given.remaining) _ h1 in
    let same_key = check_limiting_budget_key-same given.limiting_budget_key key hk in
    let same_remaining = check_remaining-same given.remaining n hn in
    ap as_given (sym (ok_injective h2))
    ∙ ap (λ k. as_given (record { limiting_budget_key = k; remaining = n })) same_key
    ∙ ap (λ r. record { limiting_budget_key = given.limiting_budget_key; remaining = r })
        same_remaining

found_newest :
    (n : ℕ) (kept : KeptDenialContext) (rest : List (ℕ × KeptDenialContext))
    → context_of n ((n, kept) ∷ rest) ≡ some kept
unfolding context_of
found_newest n kept rest = let same = eq→eqb n n refl in rw same refl

keep_context-IsConstructed :
    (reason : String) (given : UsageDenialContext) (contexts : ServerDenialContexts)
    (checked : Result KeptDenialContext)
    → check_context given ≡ checked
    → IsConstructed reason (some given) contexts (keep_context reason contexts checked)
unfolding keep_context get_usage_denial_context
keep_context-IsConstructed reason given contexts (throw e) h = refl
keep_context-IsConstructed reason given contexts (ok kept) h = (
  refl,
  ap (Option.map as_given) (found_newest contexts.next kept contexts.entries)
      ∙ ap some (check_context-same given kept h),
  omega arith,
)

keep_context-IsIssued :
    (reason : String) (contexts : ServerDenialContexts) (checked : Result KeptDenialContext)
    → IsIssued contexts
    → IsIssued ((keep_context reason contexts checked).1)
unfolding keep_context
keep_context-IsIssued reason contexts (throw e) issued = issued
keep_context-IsIssued reason contexts (ok kept) issued =
    (omega arith, issued_later contexts.next contexts.entries issued)

found_earlier :
    (n : ℕ) (m : ℕ) (kept : KeptDenialContext) (rest : List (ℕ × KeptDenialContext))
    → n < m
    → context_of n ((m, kept) ∷ rest) ≡ context_of n rest
unfolding context_of
found_earlier n m kept rest lt = elim (Bool-cases (eqb n m)) [
  | inl same ↦ absurd (let e = eqb→eq n m same in omega arith)
  | inr apart ↦ rw apart refl
]

keep_context-earlier :
    (reason : String) (contexts : ServerDenialContexts) (checked : Result KeptDenialContext)
    (error : UsageDeniedError)
    → error.identity < contexts.next
    → get_usage_denial_context (Thrown.denied error) ((keep_context reason contexts checked).1)
      ≡ get_usage_denial_context (Thrown.denied error) contexts
unfolding keep_context get_usage_denial_context
keep_context-earlier reason contexts (throw e) error earlier = refl
keep_context-earlier reason contexts (ok kept) error earlier =
    found_earlier error.identity contexts.next kept contexts.entries earlier

-- With contexts of constructed errors only: a construction either throws and leaves the contexts
-- alone, or makes an error with the given reason and an identity of its own, of which
-- `getUsageDenialContext` reads exactly the context that was given, or none if none was given.
-- The contexts still belong to constructed errors only.
pub new_usage_denied_error-IsConstructed :
    (reason : String) (given : Option UsageDenialContext) (contexts : ServerDenialContexts)
    → IsIssued contexts
    → IsConstructed reason given contexts (new_usage_denied_error reason given contexts)
      × IsIssued ((new_usage_denied_error reason given contexts).1)
unfolding new_usage_denied_error get_usage_denial_context
new_usage_denied_error-IsConstructed reason none contexts issued = (
  (
    refl,
    ap (Option.map as_given)
        (not_yet_issued contexts.next contexts.next contexts.entries issued (omega arith)),
    omega arith,
  ),
  issued_later contexts.next contexts.entries issued,
)
new_usage_denied_error-IsConstructed reason (some given) contexts issued = (
  keep_context-IsConstructed reason given contexts (check_context given) refl,
  keep_context-IsIssued reason contexts (check_context given) issued,
)

-- Whatever a construction is given and whether it throws: an error constructed before keeps the
-- context that is read of it.
pub new_usage_denied_error-earlier :
    (reason : String) (given : Option UsageDenialContext) (contexts : ServerDenialContexts)
    (error : UsageDeniedError)
    → error.identity < contexts.next
    → get_usage_denial_context
        (Thrown.denied error)
        ((new_usage_denied_error reason given contexts).1)
      ≡ get_usage_denial_context (Thrown.denied error) contexts
unfolding new_usage_denied_error get_usage_denial_context
new_usage_denied_error-earlier reason none contexts error earlier = refl
new_usage_denied_error-earlier reason (some given) contexts error earlier =
    keep_context-earlier reason contexts (check_context given) error earlier
