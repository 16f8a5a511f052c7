-- ===== src/Client/Requests.antt =====
-- Growth requests of a lease in packages/core/src/index.ts: their canonical forms, and when two are
-- the same.
use mcp_usage_control.Base.{
  Bool, List, map, String, ◌==◌, ◌&&◌, Result, ok, throw_if, range_error, ◌>>=◌, ◌>>◌,
}
use mcp_usage_control.Number.{Number, nat, assert_positive_integer}
use mcp_usage_control.Types.{Budget, CanonicalBudget, Demand, UsageDimension, UsageDimensionGrowth}
use mcp_usage_control.Collation.{Collation}
use mcp_usage_control.Budgets.{canonicalize_budgets}
use mcp_usage_control.Dimensions.{canonicalize_vector_growth_dimensions}
use mcp_usage_control.Records.{is_blank}
use mcp_usage_control.Memory.State.{GrowthFingerprint}
use mcp_usage_control.Memory.Growth.{same_fingerprint}
use mcp_usage_control.Memory.VectorGrowth.{same_vector_fingerprint}
use mcp_usage_control.Answers.Scalar.{GrowthRequest}
use mcp_usage_control.Answers.Vector.{VectorGrowthRequest}

pub record ReservationGrowthRequest : Type 0 where
  pub increment_id : String
  pub additional_units : Number
  pub budgets : List Budget

pub record VectorReservationGrowthRequest : Type 0 where
  pub increment_id : String
  pub dimensions : List UsageDimensionGrowth

unfoldable pub canonicalize_growth_request :
    ⦃c : Collation⦄ → ReservationGrowthRequest → Result GrowthRequest
canonicalize_growth_request input = do
  throw_if (is_blank input.increment_id) range_error
  units ← assert_positive_integer input.additional_units
  budgets ← canonicalize_budgets input.budgets
  ok (record { increment_id = input.increment_id; additional_units = units; budgets = budgets })

abbrev pub as_budget : CanonicalBudget → Budget
as_budget b = record { key = b.key; limit = nat b.limit }

-- `cloneGrowthRequest`, of a canonical request.
unfoldable pub clone_growth_request : GrowthRequest → ReservationGrowthRequest
clone_growth_request g = record {
  increment_id = g.increment_id;
  additional_units = nat g.additional_units;
  budgets = map as_budget g.budgets;
}

abbrev request_fingerprint : GrowthRequest → GrowthFingerprint
request_fingerprint g = record { additional_units = g.additional_units; budgets = g.budgets }

unfoldable pub same_growth_request : GrowthRequest → GrowthRequest → Bool
same_growth_request left right =
    (left.increment_id == right.increment_id)
    && same_fingerprint (request_fingerprint left) (request_fingerprint right)

unfoldable pub canonicalize_vector_growth_request :
    ⦃c : Collation⦄ → VectorReservationGrowthRequest → Result VectorGrowthRequest
canonicalize_vector_growth_request input = do
  throw_if (is_blank input.increment_id) range_error
  dimensions ← canonicalize_vector_growth_dimensions input.dimensions
  ok (record { increment_id = input.increment_id; dimensions = dimensions })

abbrev pub as_growth : Demand → UsageDimensionGrowth
as_growth d = record {
  key = d.key;
  additional_units = nat d.units;
  budgets = map as_budget d.budgets;
}

abbrev pub as_dimension : Demand → UsageDimension
as_dimension d = record { key = d.key; units = nat d.units; budgets = map as_budget d.budgets }

-- `cloneVectorGrowthRequest`, of a canonical request.
unfoldable pub clone_vector_growth_request : VectorGrowthRequest → VectorReservationGrowthRequest
clone_vector_growth_request g = record {
  increment_id = g.increment_id;
  dimensions = map as_growth g.dimensions;
}

unfoldable pub same_vector_growth_request : VectorGrowthRequest → VectorGrowthRequest → Bool
same_vector_growth_request left right =
    (left.increment_id == right.increment_id)
    && same_vector_fingerprint left.dimensions right.dimensions
