-- ===== src/Denials.antt =====
-- `UsageDeniedError` of packages/core/src/index.ts and the server's map of denial contexts. Error
-- objects are told apart by numbers, given out in order of construction; the map from an error to
-- its context is a list, the newest entry first.
pub mod Reading
use mcp_usage_control.Base.{
  ℕ, List, [], ◌∷◌, String, Option, none, some, Result, ok, throw, ◌>>=◌, ◌>>◌, eqb, if◌then◌else◌,
}
use mcp_usage_control.Number.{Number, assert_non_negative_integer}
use mcp_usage_control.Input.{assert_usage_identifier}
use mcp_usage_control.Value.{Value}

-- A context as a caller gives it.
pub record UsageDenialContext : Type 0 where
  pub limiting_budget_key : Option String
  pub remaining : Option Number

-- A context that has passed the checks and is kept.
pub record KeptDenialContext : Type 0 where
  pub limiting_budget_key : Option String
  pub remaining : Option ℕ

pub record UsageDeniedError : Type 0 where
  pub identity : ℕ
  pub reason : String

-- A value that was thrown.
pub data Thrown : Type 0 where
  denied : UsageDeniedError → Thrown
  other : Value → Thrown

-- The contexts that are kept, and the number of the next error.
pub record ServerDenialContexts : Type 0 where
  pub next : ℕ
  pub entries : List (ℕ × KeptDenialContext)

unfoldable pub context_of : ℕ → List (ℕ × KeptDenialContext) → Option KeptDenialContext
context_of n [] = none
context_of n ((m, kept) ∷ rest) = if eqb n m then some kept else context_of n rest

unfoldable pub get_usage_denial_context : Thrown → ServerDenialContexts → Option KeptDenialContext
get_usage_denial_context (denied error) contexts = context_of error.identity contexts.entries
get_usage_denial_context (other value) contexts = none

unfoldable pub check_limiting_budget_key : Option String → Result (Option String)
check_limiting_budget_key none = ok none
check_limiting_budget_key (some key) = do assert_usage_identifier key; ok (some key)

unfoldable pub check_remaining : Option Number → Result (Option ℕ)
check_remaining none = ok none
check_remaining (some number) = do
  remaining ← assert_non_negative_integer number
  ok (some remaining)

unfoldable pub check_context : UsageDenialContext → Result KeptDenialContext
check_context context = do
  key ← check_limiting_budget_key context.limiting_budget_key
  remaining ← check_remaining context.remaining
  ok (record { limiting_budget_key = key; remaining = remaining })

abbrev pub new_error : String → ServerDenialContexts → UsageDeniedError
new_error reason contexts = record { identity = contexts.next; reason = reason }

-- The construction once its context is checked: an error whose context fails is thrown away.
unfoldable pub keep_context :
    String
    → ServerDenialContexts
    → Result KeptDenialContext
    → Result UsageDeniedError × ServerDenialContexts
keep_context reason contexts (throw e) = (throw e, contexts)
keep_context reason contexts (ok kept) = (
  ok (new_error reason contexts),
  record { next = ℕ.suc contexts.next; entries = (contexts.next, kept) ∷ contexts.entries },
)

unfoldable pub new_usage_denied_error :
    String
    → Option UsageDenialContext
    → ServerDenialContexts
    → Result UsageDeniedError × ServerDenialContexts
new_usage_denied_error reason none contexts = (
  ok (new_error reason contexts),
  record { next = ℕ.suc contexts.next; entries = contexts.entries },
)
new_usage_denied_error reason (some context) contexts =
    keep_context reason contexts (check_context context)
