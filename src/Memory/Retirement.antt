-- ===== src/Memory/Retirement.antt =====
-- What `retireBudgetKey` promises.
use mcp_usage_control.Base.{
  budget_in_use, ◌⊎◌, ◌==◌, if◌then◌else◌, ◌≡◌, String, refl, inl, inr, Bool-cases, ok, throw,
  state_error,
}
use mcp_usage_control.Memory.Maintenance.{is_referenced, retire}
use mcp_usage_control.Memory.State.{MemoryUsageStore}
use mcp_usage_control.JsMap.{has}
use mcp_usage_control.Memory.Covered.{all_active}
use mcp_usage_control.Memory.Recovery.{used_at}
use mcp_usage_control.Memory.Covered.Invariant.{unreferenced}
use mcp_usage_control.Memory.Usage.{used_at-delete}

-- A key is retired only where no unsettled reservation holds units of it, and then nothing is used
-- of it any more and every other key keeps its balance. A refusal leaves the store alone.
pub retire-unheld :
    (key : String) (s : MemoryUsageStore)
    → (((retire key s).0 ≡ ok (has key s.used))
        × (all_active key s.reservations ≡ 0)
        × ((k : String)
            → used_at k (retire key s).1.used ≡ (if key == k then 0 else used_at k s.used)))
      ⊎ (retire key s ≡ (throw (state_error budget_in_use), s))
unfolding retire
retire-unheld key s = elim (Bool-cases (is_referenced key s.reservations)) [
  | inl in_use ↦ inr (rw (in_use, retire) refl)
  | inr free ↦ inl (
    rw (free, retire) refl,
    unreferenced key s.reservations free,
    (λ k. rw (free, retire) (used_at-delete k key s.used)),
  )
]
