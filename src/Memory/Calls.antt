-- ===== src/Memory/Calls.antt =====
-- Sequences of method calls, each with the time of its call, in any order and of any outcome. The
-- methods have no `await`, so that each runs whole.
use mcp_usage_control.Base.{ℕ, String, List, [], ◌∷◌}
use mcp_usage_control.Collation.{Collation}
use mcp_usage_control.Types.{
  ReserveInput, RenewInput, SettleInput, GrowReservationInput, VectorReserveInput,
  VectorGrowReservationInput, VectorSettleInput,
}
use mcp_usage_control.Memory.State.{MemoryUsageStore}
use mcp_usage_control.Memory.Scalar.{reserve, mark_liable, renew, settle}
use mcp_usage_control.Memory.Growth.{grow_reservation}
use mcp_usage_control.Memory.Vector.{reserve_vector, settle_vector}
use mcp_usage_control.Memory.VectorGrowth.{grow_vector_reservation}
use mcp_usage_control.Memory.Maintenance.{retire_budget_key, stats}
use mcp_usage_control.Memory.Moves.{IsInvariant}
use mcp_usage_control.Memory.Moves.Methods.{
  reserve-Keeps, mark_liable-Keeps, renew-Keeps, settle-Keeps,
}
use mcp_usage_control.Memory.Moves.GrowthMethods.{
  grow_reservation-Keeps, reserve_vector-Keeps, settle_vector-Keeps, grow_vector_reservation-Keeps,
  retire_budget_key-Keeps, stats-Keeps,
}

pub data Call : Type 0 where
  reserves : String → ReserveInput → Call
  marks_liable : String → Call
  renews : RenewInput → Call
  settles : SettleInput → Call
  grows : String → GrowReservationInput → Call
  reserves_vector : String → VectorReserveInput → Call
  settles_vector : VectorSettleInput → Call
  grows_vector : String → VectorGrowReservationInput → Call
  retires : String → Call
  counts : Call

-- The store after a call, whether the call returned or threw.
unfoldable pub step : ⦃c : Collation⦄ → ℕ → Call → MemoryUsageStore → MemoryUsageStore
step now (Call.reserves uuid input) s = (reserve now uuid input s).1
step now (Call.marks_liable id) s = (mark_liable now id s).1
step now (Call.renews input) s = (renew now input s).1
step now (Call.settles input) s = (settle now input s).1
step now (Call.grows uuid input) s = (grow_reservation now uuid input s).1
step now (Call.reserves_vector uuid input) s = (reserve_vector now uuid input s).1
step now (Call.settles_vector input) s = (settle_vector now input s).1
step now (Call.grows_vector uuid input) s = (grow_vector_reservation now uuid input s).1
step now (Call.retires key) s = (retire_budget_key now key s).1
step now Call.counts s = (stats now s).1

unfoldable pub run : ⦃c : Collation⦄ → List (ℕ × Call) → MemoryUsageStore → MemoryUsageStore
unfolding step
run [] s = s
run ((now, call) ∷ rest) s = run rest (step now call s)

module _ ⦃c : Collation⦄ (P : MemoryUsageStore → Type 0) (inv : IsInvariant P) where
  step-keeps : (now : ℕ) (call : Call) (s : MemoryUsageStore) → P s → P (step now call s)
  unfolding step
  step-keeps now (Call.reserves uuid input) = reserve-Keeps P inv now uuid input
  step-keeps now (Call.marks_liable id) = mark_liable-Keeps P inv now id
  step-keeps now (Call.renews input) = renew-Keeps P inv now input
  step-keeps now (Call.settles input) = settle-Keeps P inv now input
  step-keeps now (Call.grows uuid input) = grow_reservation-Keeps P inv now uuid input
  step-keeps now (Call.reserves_vector uuid input) = reserve_vector-Keeps P inv now uuid input
  step-keeps now (Call.settles_vector input) = settle_vector-Keeps P inv now input
  step-keeps now (Call.grows_vector uuid input) = grow_vector_reservation-Keeps P inv now uuid input
  step-keeps now (Call.retires key) = retire_budget_key-Keeps P inv now key
  step-keeps now Call.counts = stats-Keeps P inv now

  -- What every write keeps holds after any sequence of calls.
  pub run-keeps : (calls : List (ℕ × Call)) (s : MemoryUsageStore) → P s → P (run calls s)
  unfolding run
  run-keeps [] s p = p
  run-keeps ((now, call) ∷ rest) s p = run-keeps rest (step now call s) (step-keeps now call s p)
