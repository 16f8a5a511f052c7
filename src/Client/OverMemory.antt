-- ===== src/Client/OverMemory.antt =====
-- The client on a `MemoryUsageStore`: the store's operations as the client sees them.
pub mod Answered
pub mod Transparent
pub mod Retry
use mcp_usage_control.Base.{ℕ, String, some, Result, ok, throw}
use mcp_usage_control.Types.{
  MarkLiableResult, RenewInput, RenewResult, SettleInput, SettlementResult, ReserveInput,
  GrowReservationInput, VectorReserveInput, VectorGrowReservationInput, VectorSettleInput,
  VectorSettlementResult,
}
use mcp_usage_control.Collation.{Collation}
use mcp_usage_control.Value.{Value}
use mcp_usage_control.Memory.State.{MemoryUsageStore}
use mcp_usage_control.Memory.Scalar
use mcp_usage_control.Memory.Growth
use mcp_usage_control.Memory.Vector
use mcp_usage_control.Memory.VectorGrowth
use mcp_usage_control.Answers.Encoding.{
  of_reserve_result, of_grow_result, of_vector_reserve_result, of_vector_grow_result,
}
use mcp_usage_control.Client.{UsageStore, VectorOperations}

-- What a method answers, as a value.
abbrev pub answered :
    {A : Type 0} → (A → Value) → Result A × MemoryUsageStore → Result Value × MemoryUsageStore
answered f (ok a, s) = (ok (f a), s)
answered f (throw e, s) = (throw e, s)

-- At one instant, with one random text for a new cursor.
abbrev pub memory_usage_store : ⦃c : Collation⦄ → ℕ → String → UsageStore MemoryUsageStore
memory_usage_store now uuid = record {
  reserve = λ input s. answered of_reserve_result (Scalar.reserve now uuid input s);
  mark_liable = λ id s. Scalar.mark_liable now id s;
  renew = λ input s. Scalar.renew now input s;
  settle = λ input s. Scalar.settle now input s;
  grow_reservation =
      some (λ input s. answered of_grow_result (Growth.grow_reservation now uuid input s));
  vector = some (record {
    reserve_vector =
        λ input s. answered of_vector_reserve_result (Vector.reserve_vector now uuid input s);
    grow_vector_reservation = λ input s.
        answered of_vector_grow_result (VectorGrowth.grow_vector_reservation now uuid input s);
    settle_vector = λ input s. Vector.settle_vector now input s;
  });
}
