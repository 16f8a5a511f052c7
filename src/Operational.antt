-- ===== src/Operational.antt =====
-- The operational projections of packages/core/src/operational.ts: the runtime identity, the quota
-- views and the monitor that counts events.
pub mod Monitor
use Prim.Native.Char.{Char, code}
use Prim.Native.String
use mcp_usage_control.Base.{
  ℕ, ◌-◌, Bool, true, false, List, [], ◌∷◌, String, ◌==◌, Option, none, some, get_or, includes,
  every, eqb, ltb, leb, len, ◌&&◌, ◌||◌, not, Result, ok, throw, throw_if, range_error, type_error,
  check_each, ◌>>=◌, ◌>>◌, if◌then◌else◌,
}
use mcp_usage_control.Number.{Number, assert_non_negative_integer}
use mcp_usage_control.Collation.{Collation, sort_by}

pub record UsageRuntimeIdentity : Type 0 where
  pub package_name : String
  pub package_version : String
  pub provider : String
  pub capabilities : List String
  pub storage_schema_version : Option String

pub record UsageRuntimeIdentityInput : Type 0 where
  pub provider : String
  pub capabilities : Option (List String)
  pub package_name : Option String
  pub package_version : Option String
  pub storage_schema_version : Option String

abbrev pub mcp_usage_control_package_name : String
mcp_usage_control_package_name = "mcp-usage-control"

abbrev pub mcp_usage_control_version : String
mcp_usage_control_version = "1.3.1"

abbrev between : ℕ → ℕ → ℕ → Bool
between low high n = leb low n && leb n high

-- `[A-Za-z0-9@/._+-]`.
abbrev is_static_character : Char → Bool
is_static_character c =
    let n = code c in
    between 65 90 n
    || between 97 122 n
    || between 48 57 n
    || eqb n 64
    || eqb n 47
    || eqb n 46
    || eqb n 95
    || eqb n 43
    || eqb n 45

abbrev pub static_characters : String → Bool
static_characters String.[] = true
static_characters (String.◌∷◌ c s) = is_static_character c && static_characters s

-- A text that passes holds ASCII alone, so that its length is its number of bytes.
unfoldable pub validate_static_identifier : String → ℕ → Result (Unit {0})
validate_static_identifier value max_length =
    throw_if (eqb (len value) 0 || ltb max_length (len value) || not (static_characters value))
      type_error

abbrev pub providers : List String
providers = "memory" ∷ "redis" ∷ "firestore" ∷ "cloudflare" ∷ "custom" ∷ []

abbrev pub known_capabilities : List String
known_capabilities = "progressive" ∷ "vector" ∷ "reconciliation" ∷ "mcp_multi_round" ∷ []

unfoldable pub validate_provider : String → Result (Unit {0})
validate_provider value = throw_if (not (includes value providers)) type_error

unfoldable pub validate_capability : String → Result (Unit {0})
validate_capability value = throw_if (not (includes value known_capabilities)) type_error

-- `[...new Set(values)]`, with those seen before.
abbrev pub without_repeats : List String → List String → List String
without_repeats seen [] = []
without_repeats seen (k ∷ ks) =
    let rest = without_repeats (k ∷ seen) ks in
    let skipped = without_repeats seen ks in if includes k seen then skipped else k ∷ rest

abbrev itself : String → String
itself s = s

abbrev validate_schema_version : Option String → Result (Unit {0})
validate_schema_version none = ok tt
validate_schema_version (some version) = validate_static_identifier version 64

-- The collation is that of `sort` without an argument.
unfoldable pub create_usage_runtime_identity :
    ⦃c : Collation⦄ → UsageRuntimeIdentityInput → Result UsageRuntimeIdentity
unfolding validate_static_identifier validate_provider validate_capability
create_usage_runtime_identity input = do
  let name = get_or input.package_name mcp_usage_control_package_name
  let version = get_or input.package_version mcp_usage_control_version
  validate_static_identifier name 128
  validate_static_identifier version 64
  validate_provider input.provider
  validate_schema_version input.storage_schema_version
  let capabilities = without_repeats [] (get_or input.capabilities [])
  check_each validate_capability capabilities
  ok (record {
    package_name = name;
    package_version = version;
    provider = input.provider;
    capabilities = sort_by itself capabilities;
    storage_schema_version = input.storage_schema_version;
  })

-- Without `utilization`, a quotient of floating-point numbers.
pub record ScopedQuotaSnapshot : Type 0 where
  pub limit : ℕ
  pub remaining : ℕ
  pub used : ℕ
  pub exhausted : Bool

pub record ScopedQuotaWindowSnapshot : Type 0 where
  pub quota : ScopedQuotaSnapshot
  pub resets_at : ℕ

unfoldable pub project_scoped_quota : Number → Number → Result ScopedQuotaSnapshot
project_scoped_quota limit remaining = do
  l ← assert_non_negative_integer limit
  r ← assert_non_negative_integer remaining
  throw_if (ltb l r) range_error
  ok (record { limit = l; remaining = r; used = l - r; exhausted = eqb r 0 })

unfoldable pub project_scoped_quota_window :
    Number → Number → Number → Result ScopedQuotaWindowSnapshot
unfolding project_scoped_quota
project_scoped_quota_window limit remaining resets_at = do
  at ← assert_non_negative_integer resets_at
  quota ← project_scoped_quota limit remaining
  ok (record { quota = quota; resets_at = at })
