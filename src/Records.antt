-- ===== src/Records.antt =====
-- `cloneReservationRecord` and `cloneVectorReservationRecord` of packages/core/src/index.ts: a
-- reservation as it is handed out, after the checks that a resumed one must pass.
pub mod Copies
use mcp_usage_control.Base.{
  Bool, false, String, Option, none, some, len, map, eqb, any, is_empty, Result, ok, throw_if,
  state_error, invalid_resume_state, ◌>>=◌, ◌>>◌, each,
}
use mcp_usage_control.Number.{nat, assert_non_negative_integer, assert_positive_integer}
use mcp_usage_control.Types.{
  ReservationRecord, VectorReservationRecord, VectorReservationDimension, Demand,
}
use mcp_usage_control.Collation.{Collation, sort_by}
use mcp_usage_control.Dimensions.{assert_unique_vector_topology}

abbrev pub is_blank : String → Bool
is_blank s = eqb (len s) 0

abbrev pub is_blank_option : Option String → Bool
is_blank_option none = false
is_blank_option (some s) = is_blank s

abbrev pub refuse_if : Bool → Result (Unit {0})
refuse_if b = throw_if b (state_error invalid_resume_state)

unfoldable pub clone_reservation_record : ReservationRecord → Result ReservationRecord
clone_reservation_record r = do
  refuse_if (is_blank r.id)
  refuse_if (is_blank r.operation_id)
  refuse_if (is_blank r.principal_id)
  refuse_if (is_blank r.tool)
  refuse_if (is_empty r.budget_keys)
  refuse_if (any is_blank r.budget_keys)
  _ ← assert_non_negative_integer (nat r.reserved_units)
  _ ← assert_positive_integer (nat r.expires_at)
  refuse_if (is_blank_option r.growth_cursor)
  ok r

abbrev same_text : String → String
same_text s = s

unfoldable pub clone_dimension :
    ⦃c : Collation⦄ → VectorReservationDimension → Result VectorReservationDimension
clone_dimension d = do
  refuse_if (is_blank d.key)
  refuse_if (is_empty d.budget_keys)
  refuse_if (any is_blank d.budget_keys)
  _ ← assert_non_negative_integer (nat d.reserved_units)
  ok (record {
    key = d.key;
    budget_keys = sort_by same_text d.budget_keys;
    reserved_units = d.reserved_units;
  })

abbrev reserved_key : VectorReservationDimension → String
reserved_key d = d.key

-- A reserved dimension as the topology check sees it, with limits of 0.
abbrev as_demand : VectorReservationDimension → Demand
as_demand d = record {
  key = d.key;
  units = d.reserved_units;
  budgets = map (λ k. record { key = k; limit = 0 }) d.budget_keys;
}

unfoldable pub clone_vector_reservation_record :
    ⦃c : Collation⦄ → VectorReservationRecord → Result VectorReservationRecord
unfolding clone_dimension
clone_vector_reservation_record r = do
  refuse_if (is_blank r.id)
  refuse_if (is_blank r.operation_id)
  refuse_if (is_blank r.principal_id)
  refuse_if (is_blank r.tool)
  refuse_if (is_empty r.dimensions)
  dimensions ← each clone_dimension r.dimensions
  let sorted = sort_by reserved_key dimensions
  assert_unique_vector_topology (map as_demand sorted)
  _ ← assert_positive_integer (nat r.expires_at)
  refuse_if (is_blank_option r.growth_cursor)
  ok (record r { dimensions = sorted })
