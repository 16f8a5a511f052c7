-- ===== src/Events.antt =====
-- `UsageEvent` of packages/core/src/observability.ts: what the client and the stores tell an
-- observer, and the error names that the events carry.
pub mod Projection
use Prim.Native.Char.{Char, code}
use Prim.Native.String
use mcp_usage_control.Base.{
  ℕ, suc, Bool, true, false, List, String, Option, none, some, ◌&&◌, ◌||◌, eqb, leb, ltb,
  if◌then◌else◌, Failure, range_error, type_error, state_error, capacity_error, other_error,
}
use mcp_usage_control.Types.{
  UsageRequest, ReservationRecord, VectorReservationRecord, BudgetRemaining, VectorBudgetRemaining,
  VectorReservationDimension, VectorSettlementDimension,
}
use mcp_usage_control.Memory.State.{Recovery}
use mcp_usage_control.Value.{Value}

-- A record of texts, numbers, truth values and `null`: fields with their values.
abbrev pub UsageEventMetadata : Type 0
UsageEventMetadata = List (String × Value)

pub record EventBase : Type 0 where
  pub timestamp : ℕ
  pub metadata : Option UsageEventMetadata

pub record RequestIdentity : Type 0 where
  pub principal_id : String
  pub tenant_id : Option String
  pub plan : Option String
  pub tool : String
  pub operation_id : String

pub data Phase : Type 0 where
  quote reserve mark_liable renew settle : Phase

pub data Source : Type 0 where
  policy store runtime : Source

pub data RecoveryStore : Type 0 where
  memory redis cloudflare firestore : RecoveryStore

pub record AcceptedEvent : Type 0 where
  pub reservation_id : String
  pub budget_keys : List String
  pub reserved_units : ℕ
  pub remaining_by_budget : List BudgetRemaining

pub record VectorAcceptedEvent : Type 0 where
  pub reservation_id : String
  pub dimensions : List VectorReservationDimension
  pub remaining_by_budget : List VectorBudgetRemaining

-- The limiting dimension stands in vector events alone.
pub record DeniedEvent : Type 0 where
  pub reason : String
  pub limiting_dimension_key : Option String
  pub limiting_budget_key : Option String
  pub remaining : Option ℕ

pub record SettledEvent : Type 0 where
  pub reservation_id : String
  pub budget_keys : List String
  pub reserved_units : ℕ
  pub actual_units : ℕ
  pub released_units : ℕ
  pub outcome : String

pub record VectorSettledEvent : Type 0 where
  pub reservation_id : String
  pub dimensions : List VectorSettlementDimension
  pub outcome : String

-- What both kinds of recovery event hold.
pub record RecoveredEvent : Type 0 where
  pub store : RecoveryStore
  pub recovery : Recovery
  pub reservation_id : Option String
  pub principal_id : Option String
  pub tenant_id : Option String
  pub tool : Option String
  pub count : ℕ

pub record ErrorEvent : Type 0 where
  pub phase : Phase
  pub source : Source
  pub reservation_id : Option String
  pub error_name : String

pub data UsageEvent : Type 0 where
  reserve_accepted : EventBase → RequestIdentity → AcceptedEvent → UsageEvent
  reserve_denied : EventBase → RequestIdentity → DeniedEvent → UsageEvent
  vector_reserve_accepted : EventBase → RequestIdentity → VectorAcceptedEvent → UsageEvent
  vector_reserve_denied : EventBase → RequestIdentity → DeniedEvent → UsageEvent
  settlement_completed : EventBase → RequestIdentity → SettledEvent → UsageEvent
  vector_settlement_completed : EventBase → RequestIdentity → VectorSettledEvent → UsageEvent
  reservation_recovered : EventBase → RecoveredEvent → Option (List String) → ℕ → UsageEvent
  vector_reservation_recovered : EventBase → RecoveredEvent → Option ℕ → Option ℕ → UsageEvent
  operation_error : EventBase → Option RequestIdentity → ErrorEvent → UsageEvent

unfoldable pub request_identity : UsageRequest → RequestIdentity
request_identity request = record {
  principal_id = request.principal.id;
  tenant_id = request.principal.tenant_id;
  plan = request.principal.plan;
  tool = request.tool;
  operation_id = request.operation_id;
}

unfoldable pub reservation_identity : ReservationRecord → RequestIdentity
reservation_identity reservation = record {
  principal_id = reservation.principal_id;
  tenant_id = reservation.tenant_id;
  plan = reservation.plan;
  tool = reservation.tool;
  operation_id = reservation.operation_id;
}

unfoldable pub vector_reservation_identity : VectorReservationRecord → RequestIdentity
vector_reservation_identity reservation = record {
  principal_id = reservation.principal_id;
  tenant_id = reservation.tenant_id;
  plan = reservation.plan;
  tool = reservation.tool;
  operation_id = reservation.operation_id;
}

abbrev between : ℕ → ℕ → Char → Bool
between low high c = leb low (code c) && leb (code c) high

abbrev is_letter : Char → Bool
is_letter c = between 65 90 c || between 97 122 c

-- `[A-Za-z0-9_$]`.
abbrev is_name_character : Char → Bool
is_name_character c = is_letter c || between 48 57 c || eqb (code c) 95 || eqb (code c) 36

abbrev name_characters : String → Bool
name_characters String.[] = true
name_characters (String.◌∷◌ c s) = is_name_character c && name_characters s

-- `/^[A-Za-z][A-Za-z0-9_$]{0,63}$/`.
abbrev is_class_name : String → Bool
is_class_name String.[] = false
is_class_name (String.◌∷◌ c s) = is_letter c && name_characters s && leb (String.count s) 63

-- `usageErrorName`: the class of an error, where its name is well formed.
unfoldable pub usage_error_name : Failure → String
usage_error_name range_error = "RangeError"
usage_error_name type_error = "TypeError"
usage_error_name (state_error conflict) = "UsageStateError"
usage_error_name (capacity_error resource limit) = "MemoryUsageStoreCapacityError"
usage_error_name (other_error none) = "UnknownError"
usage_error_name (other_error (some name)) = if is_class_name name then name else "UnknownError"
