-- ===== src/Memory/Covered.antt =====
-- The accounting invariant of `MemoryUsageStore`: the units used of a key are at least those that
-- the active reservations hold of it. So nobody's expiry or settlement frees what another holds.
pub mod Recover
pub mod Scalar
pub mod Vector
pub mod Writes
pub mod Invariant
use mcp_usage_control.Base.{ℕ, ◌≤◌, ◌≡◌, String, Result, List, if◌then◌else◌}
use mcp_usage_control.JsMap.{JsMap}
use mcp_usage_control.JsMap.Sums.{sum}
use mcp_usage_control.Memory.State.{InternalReservation, MemoryUsageStore}
use mcp_usage_control.Memory.Action.{Action, Keeps}
use mcp_usage_control.Memory.Recovery.{used_at}
use mcp_usage_control.Memory.Scalar.{is_settled}
use mcp_usage_control.Memory.Usage.{held}

-- What a reservation holds of a key while it is not settled.
abbrev pub active : String → InternalReservation → ℕ
active k r = if is_settled r.state then 0 else held k r

abbrev pub all_active : String → JsMap InternalReservation → ℕ
all_active k rs = sum (active k) rs

abbrev pub IsCovered : MemoryUsageStore → Type 0
IsCovered s = (k : String) → all_active k s.reservations ≤ used_at k s.used

-- A method that keeps the invariant, whether it returns or throws.
abbrev pub KeepsCovered : {A : Type 0} → Action A → Type 0
KeepsCovered m = Keeps IsCovered m
