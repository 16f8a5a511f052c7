-- ===== src/Memory/VectorGrowth.antt =====
-- `growVectorReservation` of `MemoryUsageStore`: one increment over all dimensions of a vector
-- reservation.
use mcp_usage_control.Base.{
  ℕ, Bool, true, false, List, [], ◌∷◌, String, none, some, ltb, eqb, ◌==◌, ◌&&◌, ◌||◌, not,
  if◌then◌else◌, Result, ok, throw, map, state_error, not_found, wrong_mode, settled_growth,
  increment_conflict, no_growth_support, stale_cursor, topology_mismatch,
}
use mcp_usage_control.JsMap.{JsMap, get}
use mcp_usage_control.Number.{safe_add}
use mcp_usage_control.Types.{
  Demand, VectorBudgetRemaining, VectorReservationDimension, VectorGrowReservationInput,
  UsageDimensionReserved, StoreVectorGrowResult,
}
use mcp_usage_control.Collation.{Collation}
use mcp_usage_control.Dimensions.{same_vector_topology}
use mcp_usage_control.Records.{is_blank}
use mcp_usage_control.Memory.State.{
  scalar, vector, VectorPart, InternalReservation, LastVectorGrowth,
}
use mcp_usage_control.Memory.Action.{Action, raise, ◌>>◌}
use mcp_usage_control.Memory.Checks.{VectorIncrement, check_vector_growth_input}
use mcp_usage_control.Memory.Recovery.{after_recovery}
use mcp_usage_control.Memory.Limits.{new_growth_cursor, charge_safely}
use mcp_usage_control.Memory.Scalar.{is_settled, put_reservation}
use mcp_usage_control.Memory.Growth.{same_budgets}
use mcp_usage_control.Memory.Vector.{
  vector_balances, find_vector_limiting, after_vector_charge, charged_budgets, assert_capacity_of,
}

-- Equality of the texts that `vectorGrowthFingerprint` returns, by structure.
unfoldable pub same_vector_fingerprint : List Demand → List Demand → Bool
unfolding same_budgets
same_vector_fingerprint [] [] = true
same_vector_fingerprint [] (y ∷ ys) = false
same_vector_fingerprint (x ∷ xs) [] = false
same_vector_fingerprint (x ∷ xs) (y ∷ ys) =
    (x.key == y.key)
    && eqb x.units y.units
    && same_budgets x.budgets y.budgets
    && same_vector_fingerprint xs ys

unfoldable pub replay_vector_growth_result : StoreVectorGrowResult → StoreVectorGrowResult
replay_vector_growth_result (StoreVectorGrowResult.accepted r) =
    StoreVectorGrowResult.accepted (record r { replayed = true })
replay_vector_growth_result (StoreVectorGrowResult.denied r) =
    StoreVectorGrowResult.denied (record r { replayed = true })

abbrev pub recorded_vector : VectorIncrement → StoreVectorGrowResult → LastVectorGrowth
recorded_vector g result = record {
  increment_id = g.increment_id;
  expected_growth_cursor = g.expected_growth_cursor;
  fingerprint = g.dimensions;
  result = result;
}

abbrev pub with_dimensions :
    InternalReservation → VectorPart → List VectorReservationDimension → InternalReservation
with_dimensions r p dimensions = record r { mode = vector (record p { dimensions = dimensions }) }

abbrev pub grown_vector :
    InternalReservation
    → VectorPart
    → List VectorReservationDimension
    → String
    → VectorIncrement
    → StoreVectorGrowResult
    → InternalReservation
grown_vector r p dimensions cursor g result = record r {
  growth_cursor = some cursor;
  mode =
      vector (record p {
        dimensions = dimensions;
        last_vector_growth = some (recorded_vector g result);
      });
}

abbrev pub reserved_line : VectorReservationDimension → UsageDimensionReserved
reserved_line d = record { key = d.key; reserved_units = d.reserved_units }

abbrev pub reserved_by_dimension : List VectorReservationDimension → List UsageDimensionReserved
reserved_by_dimension ds = map reserved_line ds

unfoldable pub denied_vector_growth :
    InternalReservation → String → VectorIncrement → VectorBudgetRemaining → StoreVectorGrowResult
denied_vector_growth r cursor g limiting = StoreVectorGrowResult.denied (record {
  replayed = false;
  reservation_id = r.id;
  increment_id = g.increment_id;
  growth_cursor = cursor;
  limiting = limiting;
})

unfoldable pub accepted_vector_growth :
    InternalReservation
    → VectorPart
    → List VectorReservationDimension
    → String
    → VectorIncrement
    → List VectorBudgetRemaining
    → StoreVectorGrowResult
accepted_vector_growth r p dimensions cursor g balances = StoreVectorGrowResult.accepted (record {
  replayed = false;
  reservation_id = r.id;
  increment_id = g.increment_id;
  previous_reserved_by_dimension = reserved_by_dimension p.dimensions;
  reserved_by_dimension = reserved_by_dimension dimensions;
  growth_cursor = cursor;
  remaining_by_budget = after_vector_charge g.dimensions balances;
})

-- The charges of one dimension, then its new units. A throw leaves what was written before it.
pub record Raised : Type 0 where
  pub done : Result (Unit {0})
  pub used : JsMap ℕ
  pub dimensions : List VectorReservationDimension

abbrev pub raise_dimension : VectorReservationDimension → ℕ → VectorReservationDimension
raise_dimension d units = record d { reserved_units = units }

abbrev pub stop_raising : Result (Unit {0}) → JsMap ℕ → List VectorReservationDimension → Raised
stop_raising done used ds = record { done = done; used = used; dimensions = ds }

-- The loop over the reserved dimensions and, beside them, their growths: the topologies agree, so
-- the growth that the source looks up by key is the one at the same place.
unfoldable pub raise_dimensions : List VectorReservationDimension → List Demand → JsMap ℕ → Raised
raise_dimensions [] gs used = stop_raising (ok tt) used []
raise_dimensions (d ∷ ds) [] used = stop_raising (ok tt) used (d ∷ ds)
raise_dimensions (d ∷ ds) (g ∷ gs) used =
    let (charged, used') =
      if ltb 0 g.units then charge_safely g.budgets g.units used else (ok tt, used) in
    elim charged [
      | throw e ↦ stop_raising (throw e) used' (d ∷ ds)
      | ok _ ↦ elim (safe_add d.reserved_units g.units) [
        | throw e ↦ stop_raising (throw e) used' (d ∷ ds)
        | ok units ↦
            (let rest = raise_dimensions ds gs used' in
              stop_raising rest.done rest.used (raise_dimension d units ∷ rest.dimensions))
      ]
    ]

unfoldable pub finish_vector_growth :
    VectorIncrement
    → String
    → InternalReservation
    → VectorPart
    → List VectorBudgetRemaining
    → Raised
    → Action StoreVectorGrowResult
unfolding accepted_vector_growth
finish_vector_growth g cursor r p balances raised s = elim raised.done [
  | throw e ↦ (
    throw e,
    put_reservation g.reservation_id (with_dimensions r p raised.dimensions)
        (record s { used = raised.used }),
  )
  | ok _ ↦
      (let result = accepted_vector_growth r p raised.dimensions cursor g balances in
        (
          ok result,
          put_reservation g.reservation_id (grown_vector r p raised.dimensions cursor g result)
              (record s { used = raised.used }),
        ))
]

unfoldable pub accept_vector_growth :
    VectorIncrement → String → InternalReservation → VectorPart → Action StoreVectorGrowResult
unfolding raise_dimensions finish_vector_growth
accept_vector_growth g cursor r p s =
    (do
      assert_capacity_of (charged_budgets g.dimensions)
      finish_vector_growth g cursor r p (vector_balances s.used g.dimensions)
          (raise_dimensions p.dimensions g.dimensions s.used))
      s

unfoldable pub attempt_vector_growth :
    VectorIncrement → String → InternalReservation → VectorPart → Action StoreVectorGrowResult
unfolding accept_vector_growth denied_vector_growth
attempt_vector_growth g cursor r p s = elim (find_vector_limiting s.used g.dimensions) [
  | none ↦ accept_vector_growth g cursor r p s
  | some limiting ↦
      (let result = denied_vector_growth r cursor g limiting in
        (
          ok result,
          put_reservation g.reservation_id (grown_vector r p p.dimensions cursor g result) s,
        ))
]

unfoldable pub new_vector_increment :
    VectorIncrement → String → InternalReservation → VectorPart → Action StoreVectorGrowResult
unfolding attempt_vector_growth
new_vector_increment g uuid r p s = elim r.growth_cursor [
  | none ↦ raise (state_error no_growth_support) s
  | some cursor ↦
      if is_blank cursor
      then raise (state_error no_growth_support) s
      else if not (cursor == g.expected_growth_cursor)
      then raise (state_error stale_cursor) s
      else if not (same_vector_topology p.dimensions g.dimensions)
      then raise (state_error topology_mismatch) s
      else attempt_vector_growth g (new_growth_cursor uuid) r p s
]

unfoldable pub grow_vector_part :
    VectorIncrement → String → InternalReservation → VectorPart → Action StoreVectorGrowResult
unfolding new_vector_increment same_vector_fingerprint replay_vector_growth_result
grow_vector_part g uuid r p s =
    if is_settled r.state then raise (state_error settled_growth) s else elim p.last_vector_growth [
      | none ↦ new_vector_increment g uuid r p s
      | some last ↦
          if last.increment_id == g.increment_id
          then (if not (last.expected_growth_cursor == g.expected_growth_cursor)
                || not (same_vector_fingerprint last.fingerprint g.dimensions)
              then raise (state_error increment_conflict) s
              else (ok (replay_vector_growth_result last.result), s))
          else new_vector_increment g uuid r p s
    ]

unfoldable pub grow_vector_found : VectorIncrement → String → Action StoreVectorGrowResult
unfolding grow_vector_part
grow_vector_found g uuid s = elim (get g.reservation_id s.reservations) [
  | none ↦ raise (state_error not_found) s
  | some r ↦ elim r.mode [
    | scalar _ ↦ raise (state_error wrong_mode) s
    | vector p ↦ grow_vector_part g uuid r p s
  ]
]

unfoldable pub grow_vector_reservation :
    ⦃c : Collation⦄ → ℕ → String → VectorGrowReservationInput → Action StoreVectorGrowResult
unfolding grow_vector_found
grow_vector_reservation now uuid input =
    after_recovery now (check_vector_growth_input input)
      λ increment. grow_vector_found increment uuid
