-- ===== src/Memory/Usage.antt =====
-- What charges and releases do to the units used of a key, and what a reservation holds of it.
use mcp_usage_control.Base.{
  ℕ, ◌+◌, ◌-◌, ◌*◌, ◌≤◌, ◌≡◌, List, [], ◌∷◌, String, ◌==◌, eq_iff, subst, sym, arith, total,
  occurrences, if◌then◌else◌, Result, ok, throw, inl, inr, Result-cases,
}
use mcp_usage_control.JsMap.{JsMap, set, delete, get-set, get-delete}
use mcp_usage_control.Number.{safe_add, safe_add_sum}
use mcp_usage_control.Types.{CanonicalBudget, VectorReservationDimension}
use mcp_usage_control.Budgets.{budget_keys}
use mcp_usage_control.Memory.State.{InternalReservation, Mode, scalar, vector}
use mcp_usage_control.Memory.Recovery.{
  used_at, release_budget, release_across_budgets, release_dimensions, release_mode,
}
use mcp_usage_control.Memory.Limits.{charge_budgets, charge_safely}

pub used_at-set :
    (k j : String) (n : ℕ) (used : JsMap ℕ)
    → used_at k (set j n used) ≡ (if j == k then n else used_at k used)
used_at-set k j n used = rw (get-set j k n used) (ground arith)

pub used_at-delete :
    (k j : String) (used : JsMap ℕ)
    → used_at k (delete j used) ≡ (if j == k then 0 else used_at k used)
used_at-delete k j used = rw (get-delete j k used) (ground arith)

used_at-release_budget :
    (k j : String) (units : ℕ) (used : JsMap ℕ)
    → used_at k (release_budget j units used) ≡ used_at k used - (if j == k then 1 else 0) * units
unfolding release_budget
used_at-release_budget k j units used =
    ground
      (arith, eq_iff j k, used_at-set k j (used_at j used - units) used, used_at-delete k j used)

-- A release takes the units off once for each time that the key occurs, and stops at 0.
pub used_at-release_across_budgets :
    (k : String) (keys : List String) (units : ℕ) (used : JsMap ℕ)
    → used_at k (release_across_budgets keys units used)
      ≡ used_at k used - occurrences k keys * units
unfolding release_across_budgets
used_at-release_across_budgets k [] units used = omega arith
used_at-release_across_budgets k (j ∷ keys) units used = omega (
  arith,
  used_at-release_across_budgets k keys units (release_budget j units used),
  used_at-release_budget k j units used,
)

-- The units that a dimension, and a reservation, hold of a key.
abbrev pub dimension_held : String → VectorReservationDimension → ℕ
dimension_held k d = occurrences k d.budget_keys * d.reserved_units

abbrev pub mode_held : String → Mode → ℕ
mode_held k (scalar p) = occurrences k p.budget_keys * p.reserved_units
mode_held k (vector p) = total (dimension_held k) p.dimensions

abbrev pub held : String → InternalReservation → ℕ
held k r = mode_held k r.mode

used_at-release_dimensions :
    (k : String) (ds : List VectorReservationDimension) (used : JsMap ℕ)
    → used_at k (release_dimensions ds used) ≡ used_at k used - total (dimension_held k) ds
unfolding release_dimensions
used_at-release_dimensions k [] used = omega arith
used_at-release_dimensions k (d ∷ ds) used = omega (
  arith,
  used_at-release_dimensions k ds (release_across_budgets d.budget_keys d.reserved_units used),
  used_at-release_across_budgets k d.budget_keys d.reserved_units used,
)

-- The release of an expired reservation takes off what it held.
pub used_at-release_mode :
    (k : String) (m : Mode) (used : JsMap ℕ)
    → used_at k (release_mode m used) ≡ used_at k used - mode_held k m
unfolding release_mode
used_at-release_mode k (scalar p) used =
    used_at-release_across_budgets k p.budget_keys p.reserved_units used
used_at-release_mode k (vector p) used = used_at-release_dimensions k p.dimensions used

pub used_at-charge_budgets :
    (k : String) (bs : List CanonicalBudget) (units : ℕ) (used : JsMap ℕ)
    → used_at k (charge_budgets bs units used)
      ≡ used_at k used + occurrences k (budget_keys bs) * units
unfolding charge_budgets
used_at-charge_budgets k [] units used = omega arith
used_at-charge_budgets k (b ∷ bs) units used = ground (
  arith,
  eq_iff b.key k,
  used_at-charge_budgets k bs units (set b.key (used_at b.key used + units) used),
  used_at-set k b.key (used_at b.key used + units) used,
)

-- The checked loop charges the same where it ends, and never lowers a balance.
abbrev pub Charged :
    String → List CanonicalBudget → ℕ → JsMap ℕ → Result (Unit {0}) × JsMap ℕ → Type 0
Charged k bs units used (ok _, used') =
    used_at k used' ≡ used_at k used + occurrences k (budget_keys bs) * units
Charged k bs units used (throw e, used') = used_at k used ≤ used_at k used'

Charged-cons :
    (k : String) (b : CanonicalBudget) (bs : List CanonicalBudget) (units n : ℕ) (used : JsMap ℕ)
    (r : Result (Unit {0}) × JsMap ℕ)
    → n ≡ used_at b.key used + units
    → Charged k bs units (set b.key n used) r
    → Charged k (b ∷ bs) units used r
Charged-cons k b bs units n used (ok _, used') e h =
    ground (arith, eq_iff b.key k, used_at-set k b.key n used)
Charged-cons k b bs units n used (throw _, used') e h =
    ground (arith, eq_iff b.key k, used_at-set k b.key n used)

pub charge_safely-Charged :
    (k : String) (bs : List CanonicalBudget) (units : ℕ) (used : JsMap ℕ)
    → Charged k bs units used (charge_safely bs units used)
unfolding charge_safely
charge_safely-Charged k [] units used = omega arith
charge_safely-Charged k (b ∷ bs) units used =
    elim (Result-cases (safe_add (used_at b.key used) units)) [
      | inr (e, failed) ↦
          (let stop : charge_safely (b ∷ bs) units used ≡ (throw e, used) =
              rw (failed, charge_safely) in
            subst (Charged k (b ∷ bs) units used) (sym stop) (omega arith))
      | inl (n, added) ↦
          (let rest = charge_safely bs units (set b.key n used) in
            let go : charge_safely (b ∷ bs) units used ≡ rest = rw (added, charge_safely) in
            subst (Charged k (b ∷ bs) units used) (sym go) (
              Charged-cons k b bs units n used rest
                (safe_add_sum (used_at b.key used) units n added).0
                (charge_safely-Charged k bs units (set b.key n used))))
    ]
