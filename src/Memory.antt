-- ===== src/Memory.antt =====
-- `MemoryUsageStore` of packages/core/src/index.ts.
pub mod State
pub mod Action
pub mod Recovery
pub mod Checks
pub mod Limits
pub mod Scalar
pub mod Growth
pub mod Vector
pub mod VectorGrowth
pub mod Reconciliation
pub mod Maintenance
pub mod Usage
pub mod Covered
pub mod Outcomes
pub mod Moves
pub mod Calls
pub mod Settlement
pub mod Admission
pub mod Duplicates
pub mod VectorAdmission
pub mod Current
pub mod Replay
pub mod Retirement
pub mod Capacity
pub mod ReadOnly
