-- ===== src/Examples/Store.antt =====
-- Admissions and sequences of calls at concrete inputs.
use mcp_usage_control.Dimensions.{
  assert_unique_vector_topology, normalize_dimension, canonicalize_usage_dimensions,
}
use mcp_usage_control.Input.{
  validate_usage_vector_envelope, validate_usage_request_envelope, assert_usage_identifier,
  validate_usage_budget_envelope,
}
use mcp_usage_control.Examples.{
  calls_dimension, request, canonical_day, empty_store, canonical_month, reserve_input,
}
use mcp_usage_control.Memory.Checks.{
  check_reserve_vector_input, VectorAdmission, check_reserve_input, Admission,
}
use mcp_usage_control.Memory.VectorAdmission.{IsVectorAdmission, reserve_vector-IsVectorAdmission}
use mcp_usage_control.Memory.Limits.{
  charge_budgets, new_growth_cursor, track_recovery_at, assert_operation_capacity, after_charge,
  new_budget_keys, assert_budget_capacity, remaining_by_budget, find_limiting,
}
use mcp_usage_control.Records.{clone_reservation_record}
use mcp_usage_control.Base.{length, ℕ, ◌≡◌, ◌≤◌, refl, arith, none, some, ok, List, [], ◌∷◌}
use mcp_usage_control.JsMap.{set, get}
use mcp_usage_control.Number.{safe_add, assert_non_negative_integer, assert_positive_integer, nat}
use mcp_usage_control.Collation.{insert_by, sort_by}
use mcp_usage_control.Collation.ByCode.{text_le, by_code, by_code-IsStrictOn}
use mcp_usage_control.Memory.State.{InternalReservation, MemoryUsageStore, pending, scalar}
use mcp_usage_control.Types.{
  VectorReserveInput, duplicate_operation, StoreReserveResult, ReservationRecord,
}
use mcp_usage_control.Memory.Maintenance.{new_memory_usage_store, MemoryUsageStoreOptions}
use mcp_usage_control.Memory.Calls.{run, Call}
use mcp_usage_control.Memory.Covered.{all_active}
use mcp_usage_control.Memory.Admission.{reserve-IsAdmission, IsAdmission}
use mcp_usage_control.Memory.Scalar.{reserve_checked, reserve}
use mcp_usage_control.OperationKey.{operation_key_for}
use mcp_usage_control.Memory.Recovery.{used_at, recover_expired}
use mcp_usage_control.Memory.Covered.Invariant.{run-IsCovered}
use mcp_usage_control.Memory.Capacity.{run-IsWithinCapacity}
use mcp_usage_control.Budgets.{has_equal_neighbours, normalize_budget, canonicalize_budgets}
use mcp_usage_control.Memory.Duplicates.{reserve_checked-refuses_duplicate}
use mcp_usage_control.Memory.Vector.{reserve_vector}

abbrev admission : Admission
admission = record { units = 5; budgets = canonical_day ∷ canonical_month ∷ []; expires_at = 70 }

abbrev options : MemoryUsageStoreOptions
options = record {
  idempotency_ttl_ms = some (nat 1000);
  max_retained_operations = some (nat 10);
  max_retained_budget_keys = some (nat 10);
}

abbrev calls : List (ℕ × Call)
calls =
    (10, Call.reserves "u" reserve_input)
    ∷ (20, Call.marks_liable (operation_key_for request))
    ∷ (
      30,
      Call.settles (record {
        reservation_id = operation_key_for request;
        actual_units = nat 2;
        outcome = "ok";
      }),
    )
    ∷ (40, Call.retires "day")
    ∷ []

created : new_memory_usage_store options ≡ ok empty_store
unfolding new_memory_usage_store assert_positive_integer
created = refl

run-IsCovered_example :
    all_active "day" (run calls empty_store).reservations
    ≤ used_at "day" (run calls empty_store).used
run-IsCovered_example = run-IsCovered options empty_store calls "day" created

run-IsWithinCapacity_example :
    length (run calls empty_store).reservations ≤ (run calls empty_store).max_retained_operations
run-IsWithinCapacity_example = run-IsWithinCapacity calls empty_store (omega arith)

admissible : check_reserve_input 10 reserve_input ≡ ok admission
unfolding check_reserve_input assert_non_negative_integer canonicalize_budgets
    validate_usage_budget_envelope assert_usage_identifier normalize_budget has_equal_neighbours
    sort_by insert_by text_le assert_positive_integer validate_usage_request_envelope safe_add
admissible = refl

reserve-IsAdmission_example :
    IsAdmission 5
      (canonical_day ∷ canonical_month ∷ [])
      (recover_expired 10 empty_store).1
      (reserve 10 "u" reserve_input empty_store)
reserve-IsAdmission_example =
    reserve-IsAdmission 10 "u" reserve_input empty_store admission
      (by_code-IsStrictOn ("month" ∷ "day" ∷ [])) admissible

abbrev record_of_op1 : ReservationRecord
record_of_op1 = record {
  id = operation_key_for request;
  operation_id = "op1";
  principal_id = "agent";
  tenant_id = none;
  plan = some "free";
  tool = "search";
  budget_keys = "day" ∷ [];
  reserved_units = 5;
  expires_at = 70;
  growth_cursor = some "g1.u";
}

abbrev stored_op1 : InternalReservation
stored_op1 = record {
  id = operation_key_for request;
  operation_id = "op1";
  principal_id = "agent";
  tenant_id = none;
  plan = some "free";
  tool = "search";
  expires_at = 70;
  growth_cursor = some "g1.u";
  operation_key = operation_key_for request;
  state = pending;
  outcome = none;
  tombstone_expires_at = none;
  mode = scalar (record {
    budget_keys = "day" ∷ [];
    reserved_units = 5;
    actual_units = none;
    last_growth = none;
  });
}

abbrev store_of_op1 : MemoryUsageStore
store_of_op1 = record empty_store {
  used = ("day", 5) ∷ [];
  reservations = (operation_key_for request, stored_op1) ∷ [];
  operations = (operation_key_for request, operation_key_for request) ∷ [];
  next_recovery_at = some 70;
}

reserves_op1 : reserve_checked "u" request 5 (canonical_day ∷ []) 70 empty_store ≡ (
  ok (StoreReserveResult.accepted record_of_op1 (record { key = "day"; remaining = 95 } ∷ [])),
  store_of_op1,
)
unfolding reserve_checked get find_limiting remaining_by_budget assert_operation_capacity
    assert_budget_capacity new_budget_keys track_recovery_at clone_reservation_record
    operation_key_for assert_non_negative_integer assert_positive_integer new_growth_cursor
    after_charge charge_budgets set
reserves_op1 = refl

reserve_checked-refuses_duplicate_example :
    reserve_checked "v" request 7 (canonical_month ∷ []) 90 store_of_op1
    ≡ (ok (StoreReserveResult.rejected duplicate_operation none), store_of_op1)
reserve_checked-refuses_duplicate_example =
    reserve_checked-refuses_duplicate "u" request 5 (canonical_day ∷ []) 70 empty_store store_of_op1
      record_of_op1 (record { key = "day"; remaining = 95 } ∷ []) "v" 7 (canonical_month ∷ []) 90
      reserves_op1

abbrev vector_input : VectorReserveInput
vector_input = record { request = request; dimensions = calls_dimension ∷ []; ttl_ms = nat 60 }

abbrev vector_admission : VectorAdmission
vector_admission = record {
  dimensions = record { key = "calls"; units = 1; budgets = canonical_day ∷ [] } ∷ [];
  expires_at = 70;
}

vector_admissible : check_reserve_vector_input 10 vector_input ≡ ok vector_admission
unfolding check_reserve_vector_input assert_positive_integer validate_usage_request_envelope
    assert_usage_identifier canonicalize_usage_dimensions validate_usage_vector_envelope
    validate_usage_budget_envelope normalize_dimension assert_non_negative_integer
    canonicalize_budgets normalize_budget has_equal_neighbours sort_by assert_unique_vector_topology
    safe_add
vector_admissible = refl

reserve_vector-IsVectorAdmission_example :
    IsVectorAdmission vector_admission.dimensions
      (recover_expired 10 empty_store).1
      (reserve_vector 10 "u" vector_input empty_store)
reserve_vector-IsVectorAdmission_example =
    reserve_vector-IsVectorAdmission 10 "u" vector_input empty_store vector_admission
      vector_admissible
