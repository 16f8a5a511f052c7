-- ===== src/Types.antt =====
-- The data that packages/core/src/index.ts exchanges with its callers. Inputs carry unchecked
-- numbers; what the canonicalisation returns carries naturals. The opaque `args` of a request,
-- which no store reads, are left out.
use mcp_usage_control.Base.{ℕ, Bool, List, String, Option}
use mcp_usage_control.Number.{Number}

pub record Principal : Type 0 where
  pub id : String
  pub tenant_id : Option String
  pub plan : Option String

pub record UsageRequest : Type 0 where
  pub operation_id : String
  pub principal : Principal
  pub tool : String

pub record Budget : Type 0 where
  pub key : String
  pub limit : Number

pub record BudgetRemaining : Type 0 where
  pub key : String
  pub remaining : ℕ

pub record UsageDimension : Type 0 where
  pub key : String
  pub units : Number
  pub budgets : List Budget

pub record UsageDimensionGrowth : Type 0 where
  pub key : String
  pub additional_units : Number
  pub budgets : List Budget

pub record UsageDimensionActual : Type 0 where
  pub key : String
  pub actual_units : ℕ

pub record UsageDimensionReserved : Type 0 where
  pub key : String
  pub reserved_units : ℕ

pub record VectorBudgetRemaining : Type 0 where
  pub dimension_key : String
  pub budget_key : String
  pub remaining : ℕ

pub record VectorReservationDimension : Type 0 where
  pub key : String
  pub budget_keys : List String
  pub reserved_units : ℕ

-- What a canonicalised budget is: a text and a safe integer.
pub record CanonicalBudget : Type 0 where
  pub key : String
  pub limit : ℕ

-- A canonicalised dimension, of an admission (`units`) or of a growth (`additionalUnits`).
pub record Demand : Type 0 where
  pub key : String
  pub units : ℕ
  pub budgets : List CanonicalBudget

pub record VectorReservationRecord : Type 0 where
  pub id : String
  pub operation_id : String
  pub principal_id : String
  pub tenant_id : Option String
  pub plan : Option String
  pub tool : String
  pub dimensions : List VectorReservationDimension
  pub expires_at : ℕ
  pub growth_cursor : Option String

pub record ReservationRecord : Type 0 where
  pub id : String
  pub operation_id : String
  pub principal_id : String
  pub tenant_id : Option String
  pub plan : Option String
  pub tool : String
  pub budget_keys : List String
  pub reserved_units : ℕ
  pub expires_at : ℕ
  pub growth_cursor : Option String

pub data DenialReason : Type 0 where
  quota_exceeded duplicate_operation : DenialReason

pub data StoreReserveResult : Type 0 where
  accepted : ReservationRecord → List BudgetRemaining → StoreReserveResult
  rejected : DenialReason → Option BudgetRemaining → StoreReserveResult

pub data StoreVectorReserveResult : Type 0 where
  accepted : VectorReservationRecord → List VectorBudgetRemaining → StoreVectorReserveResult
  rejected : DenialReason → Option VectorBudgetRemaining → StoreVectorReserveResult

pub record MarkLiableResult : Type 0 where
  pub reservation_id : String
  pub expires_at : ℕ

pub record RenewInput : Type 0 where
  pub reservation_id : String
  pub ttl_ms : Number

pub record RenewResult : Type 0 where
  pub reservation_id : String
  pub expires_at : ℕ

pub record SettleInput : Type 0 where
  pub reservation_id : String
  pub actual_units : Number
  pub outcome : String

pub record SettlementResult : Type 0 where
  pub reservation_id : String
  pub reserved_units : ℕ
  pub actual_units : ℕ
  pub released_units : ℕ
  pub outcome : String

pub record ReserveInput : Type 0 where
  pub request : UsageRequest
  pub units : Number
  pub budgets : List Budget
  pub ttl_ms : Number

pub record GrowReservationInput : Type 0 where
  pub reservation_id : String
  pub increment_id : String
  pub expected_growth_cursor : String
  pub additional_units : Number
  pub budgets : List Budget

pub record GrowAccepted : Type 0 where
  pub replayed : Bool
  pub reservation_id : String
  pub increment_id : String
  pub previous_reserved_units : ℕ
  pub reserved_units : ℕ
  pub growth_cursor : String
  pub remaining_by_budget : List BudgetRemaining

pub record GrowDenied : Type 0 where
  pub replayed : Bool
  pub reservation_id : String
  pub increment_id : String
  pub growth_cursor : String
  pub limiting_budget_key : String
  pub remaining : ℕ

pub data StoreGrowResult : Type 0 where
  accepted : GrowAccepted → StoreGrowResult
  denied : GrowDenied → StoreGrowResult

pub record VectorReserveInput : Type 0 where
  pub request : UsageRequest
  pub dimensions : List UsageDimension
  pub ttl_ms : Number

pub record VectorGrowReservationInput : Type 0 where
  pub reservation_id : String
  pub increment_id : String
  pub expected_growth_cursor : String
  pub dimensions : List UsageDimensionGrowth

pub record VectorGrowAccepted : Type 0 where
  pub replayed : Bool
  pub reservation_id : String
  pub increment_id : String
  pub previous_reserved_by_dimension : List UsageDimensionReserved
  pub reserved_by_dimension : List UsageDimensionReserved
  pub growth_cursor : String
  pub remaining_by_budget : List VectorBudgetRemaining

pub record VectorGrowDenied : Type 0 where
  pub replayed : Bool
  pub reservation_id : String
  pub increment_id : String
  pub growth_cursor : String
  pub limiting : VectorBudgetRemaining

pub data StoreVectorGrowResult : Type 0 where
  accepted : VectorGrowAccepted → StoreVectorGrowResult
  denied : VectorGrowDenied → StoreVectorGrowResult

pub record ActualInput : Type 0 where
  pub key : String
  pub actual_units : Number

pub record VectorSettleInput : Type 0 where
  pub reservation_id : String
  pub actual_by_dimension : List ActualInput
  pub outcome : String

pub record VectorSettlementDimension : Type 0 where
  pub key : String
  pub reserved_units : ℕ
  pub actual_units : ℕ
  pub released_units : ℕ

pub record VectorSettlementResult : Type 0 where
  pub reservation_id : String
  pub dimensions : List VectorSettlementDimension
  pub outcome : String
