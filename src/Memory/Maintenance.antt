-- ===== src/Memory/Maintenance.antt =====
-- The constructor of `MemoryUsageStore`, `stats` and `retireBudgetKey`.
use mcp_usage_control.Base.{
  ℕ, Bool, false, [], ◌∷◌, String, Option, none, ◌&&◌, ◌||◌, not, if◌then◌else◌, Result, ok,
  throw_if, range_error, state_error, budget_in_use, includes, get_or, ◌>>=◌ as bind,
}
use mcp_usage_control.JsMap.{JsMap, has, delete, size}
use mcp_usage_control.Number.{Number, nat, assert_positive_integer}
use mcp_usage_control.Records.{is_blank}
use mcp_usage_control.Memory.State.{
  InternalReservation, MemoryUsageStore, internal_reservation_budget_keys,
}
use mcp_usage_control.Memory.Action.{Action, raise}
use mcp_usage_control.Memory.Recovery.{after_recovery}
use mcp_usage_control.Memory.Scalar.{is_settled}

-- Absent options are none.
pub record MemoryUsageStoreOptions : Type 0 where
  pub idempotency_ttl_ms : Option Number
  pub max_retained_operations : Option Number
  pub max_retained_budget_keys : Option Number

abbrev pub default_memory_max_retained_operations : ℕ
default_memory_max_retained_operations = 100000

abbrev pub default_memory_max_retained_budget_keys : ℕ
default_memory_max_retained_budget_keys = 100000

unfoldable pub new_memory_usage_store : MemoryUsageStoreOptions → Result MemoryUsageStore
new_memory_usage_store options =
    bind (assert_positive_integer (get_or options.idempotency_ttl_ms (nat 86400000))) λ ttl.
      bind
        (assert_positive_integer
          (get_or options.max_retained_operations (nat default_memory_max_retained_operations)))
        λ operations.
          bind
            (assert_positive_integer (
              get_or options.max_retained_budget_keys
                (nat default_memory_max_retained_budget_keys)))
            λ keys. ok (record {
              used = [];
              reservations = [];
              operations = [];
              idempotency_ttl_ms = ttl;
              max_retained_operations = operations;
              max_retained_budget_keys = keys;
              next_recovery_at = none;
              emitted = [];
            })

pub record MemoryUsageStoreStats : Type 0 where
  pub retained_operations : ℕ
  pub retained_budget_keys : ℕ
  pub max_retained_operations : ℕ
  pub max_retained_budget_keys : ℕ

unfoldable pub read_stats : Action MemoryUsageStoreStats
read_stats s = (
  ok (record {
    retained_operations = size s.reservations;
    retained_budget_keys = size s.used;
    max_retained_operations = s.max_retained_operations;
    max_retained_budget_keys = s.max_retained_budget_keys;
  }),
  s,
)

unfoldable pub stats : ℕ → Action MemoryUsageStoreStats
unfolding read_stats
stats now = after_recovery now (ok tt) λ _. read_stats

-- The loop over the retained reservations that looks for an active one with the key.
unfoldable pub is_referenced : String → JsMap InternalReservation → Bool
is_referenced key [] = false
is_referenced key ((id, r) ∷ rest) =
    (not (is_settled r.state) && includes key (internal_reservation_budget_keys r))
    || is_referenced key rest

unfoldable pub retire : String → Action Bool
retire key s =
    if is_referenced key s.reservations
    then raise (state_error budget_in_use) s
    else (ok (has key s.used), record s { used = delete key s.used })

unfoldable pub retire_budget_key : ℕ → String → Action Bool
unfolding retire
retire_budget_key now key = after_recovery now (throw_if (is_blank key) range_error) λ _. retire key
