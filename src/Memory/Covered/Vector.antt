-- ===== src/Memory/Covered/Vector.antt =====
-- The charges and releases of vector reservations against what they hold.
use mcp_usage_control.Base.{
  ◌⊎◌, ℕ, ◌+◌, ◌-◌, ◌*◌, ◌≤◌, ◌≡◌, refl, true, false, String, List, [], ◌∷◌, arith, Result, ok,
  throw, Bool-cases, inl, inr, if◌then◌else◌, ltb, eqb, total, occurrences, get_or, eq_iff,
}
use mcp_usage_control.JsMap.{JsMap}
use mcp_usage_control.Types.{
  CanonicalBudget, Demand, VectorReservationDimension, UsageDimensionActual,
}
use mcp_usage_control.Budgets.{budget_keys, same_budget_keys}
use mcp_usage_control.Memory.Recovery.{release_across_budgets, used_at}
use mcp_usage_control.Memory.Usage.{
  dimension_held, Charged, charge_safely-Charged, used_at-release_across_budgets,
}
use mcp_usage_control.Memory.Vector.{
  actual_of, release_unused, reserved_dimensions, charge_rest, charge_dimensions,
}
use mcp_usage_control.Memory.Limits.{charge_safely}
use mcp_usage_control.Memory.VectorGrowth.{raise_dimension, stop_raising, raise_dimensions, Raised}
use mcp_usage_control.Dimensions.{same_vector_topology}
use mcp_usage_control.Number.{safe_add_sum, safe_add}
use mcp_usage_control.Memory.Covered.Scalar.{mul_le}

-- The units that a vector input asks of a key.
abbrev pub demand_held : String → Demand → ℕ
demand_held k d = occurrences k (budget_keys d.budgets) * d.units

abbrev pub ChargedAll : String → List Demand → JsMap ℕ → Result (Unit {0}) × JsMap ℕ → Type 0
ChargedAll k ds used (ok _, used') = used_at k used' ≡ used_at k used + total (demand_held k) ds
ChargedAll k ds used (throw e, used') = used_at k used ≤ used_at k used'

charge_rest-ChargedAll :
    (k : String) (d : Demand) (ds : List Demand) (used : JsMap ℕ) (x : Result (Unit {0}) × JsMap ℕ)
    → ((used' : JsMap ℕ) → ChargedAll k ds used' (charge_dimensions ds used'))
    → Charged k d.budgets d.units used x
    → ChargedAll k (d ∷ ds) used (charge_rest (charge_dimensions ds) x)
charge_rest-ChargedAll k d ds used (throw e, used') rest h = h
charge_rest-ChargedAll k d ds used (ok _, used') rest h =
    weaken (charge_dimensions ds used') (rest used')
  where
    weaken :
        (x : Result (Unit {0}) × JsMap ℕ) → ChargedAll k ds used' x → ChargedAll k (d ∷ ds) used x
    weaken (ok _, used'') q = omega (arith, h)
    weaken (throw e, used'') q = omega (arith, h)

pub charge_dimensions-ChargedAll :
    (k : String) (ds : List Demand) (used : JsMap ℕ)
    → ChargedAll k ds used (charge_dimensions ds used)
unfolding charge_dimensions
charge_dimensions-ChargedAll k [] used = omega arith
charge_dimensions-ChargedAll k (d ∷ ds) used =
    charge_rest-ChargedAll k d ds used
      (if eqb d.units 0 then (ok tt, used) else charge_safely d.budgets d.units used)
      (charge_dimensions-ChargedAll k ds) (first (Bool-cases (eqb d.units 0)))
  where
    first :
        (eqb d.units 0 ≡ true) ⊎ (eqb d.units 0 ≡ false)
        → Charged k d.budgets d.units used
            (if eqb d.units 0 then (ok tt, used) else charge_safely d.budgets d.units used)
    first (inl none_asked) =
        rw none_asked (let z : d.units ≡ 0 = ground arith in rw z (omega arith))
    first (inr asked) = rw asked (charge_safely-Charged k d.budgets d.units used)

-- The keys of a reservation and of a matching input are the same.
pub same_budget_keys-occurrences :
    (k : String) (ks : List String) (bs : List CanonicalBudget)
    → same_budget_keys ks bs ≡ true
    → occurrences k ks ≡ occurrences k (budget_keys bs)
unfolding same_budget_keys
same_budget_keys-occurrences k [] [] h = refl
same_budget_keys-occurrences k [] (b ∷ bs) h = absurd (cc)
same_budget_keys-occurrences k (j ∷ ks) [] h = absurd (cc)
same_budget_keys-occurrences k (j ∷ ks) (b ∷ bs) h =
    ground (arith, eq_iff j b.key, same_budget_keys-occurrences k ks bs)

-- A vector admission holds what its input asks for.
pub held-reserved_dimensions :
    (k : String) (ds : List Demand)
    → total (dimension_held k) (reserved_dimensions ds) ≡ total (demand_held k) ds
held-reserved_dimensions k [] = refl
held-reserved_dimensions k (d ∷ ds) = omega (arith, held-reserved_dimensions k ds)

-- A settlement releases at most what the dimensions hold.
pub release_unused-holds :
    (k : String) (actuals : List UsageDimensionActual) (ds : List VectorReservationDimension)
    (used : JsMap ℕ)
    → used_at k used ≤ used_at k (release_unused actuals ds used) + total (dimension_held k) ds
unfolding release_unused
release_unused-holds k actuals [] used = omega arith
release_unused-holds k actuals (d ∷ ds) used =
    let released = d.reserved_units - get_or (actual_of d.key actuals) 0 in
    let used' =
      if ltb 0 released then release_across_budgets d.budget_keys released used else used in
    let less : occurrences k d.budget_keys * released ≤ dimension_held k d =
      mul_le released d.reserved_units (occurrences k d.budget_keys) (omega arith) in
    let first : used_at k used ≤ used_at k used' + dimension_held k d =
      elim (Bool-cases (ltb 0 released)) [
        | inl positive ↦
            rw positive
              (omega (arith, less, used_at-release_across_budgets k d.budget_keys released used))
        | inr nothing ↦ rw nothing (omega arith)
      ] in
    omega (arith, first, release_unused-holds k actuals ds used')

-- A growth charges at least what it adds to the dimensions, also where it throws in the middle.
abbrev pub RaisedCovers : String → List VectorReservationDimension → JsMap ℕ → Raised → Type 0
RaisedCovers k ds used x =
    total (dimension_held k) x.dimensions + used_at k used
    ≤ total (dimension_held k) ds + used_at k x.used

abbrev charge_growth : Demand → JsMap ℕ → Result (Unit {0}) × JsMap ℕ
charge_growth g used = if ltb 0 g.units then charge_safely g.budgets g.units used else (ok tt, used)

charge_growth-Charged :
    (k : String) (g : Demand) (used : JsMap ℕ)
    → Charged k g.budgets g.units used (charge_growth g used)
charge_growth-Charged k g used = elim (Bool-cases (ltb 0 g.units)) [
  | inl positive ↦ rw positive (charge_safely-Charged k g.budgets g.units used)
  | inr nothing ↦ rw nothing (let z : g.units ≡ 0 = ground arith in rw z (omega arith))
]

pub mul_add : (n a b : ℕ) → n * (a + b) ≡ n * a + n * b
mul_add n a b = grind arith

pub raise_dimensions-covers :
    (k : String) (ds : List VectorReservationDimension) (gs : List Demand) (used : JsMap ℕ)
    → same_vector_topology ds gs ≡ true
    → RaisedCovers k ds used (raise_dimensions ds gs used)
unfolding raise_dimensions same_vector_topology
raise_dimensions-covers k [] gs used h = omega arith
raise_dimensions-covers k (d ∷ ds) [] used h = omega arith
raise_dimensions-covers k (d ∷ ds) (g ∷ gs) used h =
    charged (charge_growth g used) (raise_dimensions-covers k ds gs)
      (charge_growth-Charged k g used)
  where
    same : (same_budget_keys d.budget_keys g.budgets ≡ true) × (same_vector_topology ds gs ≡ true)
    same = (ground arith, ground arith)

    after :
        (used' : JsMap ℕ) (t : Result ℕ)
        → RaisedCovers k ds used' (raise_dimensions ds gs used')
        → safe_add d.reserved_units g.units ≡ t
        → used_at k used' ≡ used_at k used + occurrences k (budget_keys g.budgets) * g.units
        → RaisedCovers k (d ∷ ds) used (elim t [
          | throw e ↦ stop_raising (throw e) used' (d ∷ ds)
          | ok units ↦
              (let rest = raise_dimensions ds gs used' in
                stop_raising rest.done rest.used (raise_dimension d units ∷ rest.dimensions))
        ])
    after used' (throw e) next added q = omega (arith, q)
    after used' (ok units) next added q =
        let keys = same_budget_keys-occurrences k d.budget_keys g.budgets same.0 in
        let s : units ≡ d.reserved_units + g.units =
          (safe_add_sum d.reserved_units g.units units added).0 in
        let q' : used_at k used' ≡ used_at k used + occurrences k d.budget_keys * g.units =
          rw keys q in
        let m : occurrences k d.budget_keys * units
            ≡ occurrences k d.budget_keys * d.reserved_units
              + occurrences k d.budget_keys * g.units =
          rw s (mul_add (occurrences k d.budget_keys) d.reserved_units g.units) in
        omega (arith, m, q', next)

    charged :
        (x : Result (Unit {0}) × JsMap ℕ)
        → ((used' : JsMap ℕ)
            → same_vector_topology ds gs ≡ true
            → RaisedCovers k ds used' (raise_dimensions ds gs used'))
        → Charged k g.budgets g.units used x
        → RaisedCovers k (d ∷ ds) used (elim x.0 [
          | throw e ↦ stop_raising (throw e) x.1 (d ∷ ds)
          | ok _ ↦ elim (safe_add d.reserved_units g.units) [
            | throw e ↦ stop_raising (throw e) x.1 (d ∷ ds)
            | ok units ↦
                (let rest = raise_dimensions ds gs x.1 in
                  stop_raising rest.done rest.used (raise_dimension d units ∷ rest.dimensions))
          ]
        ])
    charged (throw e, used') next q = omega (arith, q)
    charged (ok _, used') next q =
        after used' (safe_add d.reserved_units g.units) (next used' same.1) refl q
