-- ===== src/Windows/Exact.antt =====
-- The boundaries of a window that is one stretch of time: its first instant and its end.
use mcp_usage_control.Base.{ℕ, ◌+◌, ◌≤◌, ◌<◌, ◌≡◌, Bool, ◌&&◌, ltb, leb, Result, ok, String}
use mcp_usage_control.Windows.{Formatter, AccountingWindowPeriod, in_window, last_instant}

-- Whether an instant lies from one instant up to another.
abbrev pub within : ℕ → ℕ → ℕ → Bool
within first end t = leb first t && ltb t end

-- A test that is true of exactly the instants of one stretch.
abbrev pub IsStretch : ℕ → ℕ → (ℕ → Result Bool) → Type 0
IsStretch first end inside = (t : ℕ) → inside t ≡ ok (within first end t)

module _ (first end : ℕ) (formatter : Formatter) (period : AccountingWindowPeriod)
    (current : String) (timestamp span : ℕ) where
  -- The window is one stretch, which ends within the search span on both sides.
  pub record IsBracketed : Type 0 where
    pub stretch : IsStretch first end (in_window formatter period current)
    pub started : first ≤ timestamp
    pub running : timestamp < end
    pub starts_within : timestamp < first + span
    pub ends_within : end ≤ timestamp + span
    pub earliest : span ≤ timestamp
    pub latest : timestamp + span ≤ last_instant
