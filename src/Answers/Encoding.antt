-- ===== src/Answers/Encoding.antt =====
-- The answers of a store as the values of JavaScript that a client is handed.
use mcp_usage_control.Base.{true, false, List, [], ◌∷◌, Option, none, some}
use mcp_usage_control.Number.{nat}
use mcp_usage_control.Types.{
  BudgetRemaining, ReservationRecord, StoreReserveResult, StoreGrowResult, DenialReason,
  VectorBudgetRemaining, VectorReservationDimension, VectorReservationRecord,
  StoreVectorReserveResult, StoreVectorGrowResult, UsageDimensionReserved,
}
use mcp_usage_control.Types.DenialReason.{quota_exceeded, duplicate_operation}
use mcp_usage_control.Value.{
  Value, Values, nil, cons, Fields, end, field, boolean, number, text, array, object, of_option,
}

abbrev pub of_list {ℓ} : {A : Type ℓ} → (A → Value) → List A → Values
of_list f [] = nil
of_list f (x ∷ xs) = cons (f x) (of_list f xs)

abbrev pub of_balance : BudgetRemaining → Value
of_balance b = object (field "key" (text b.key) (field "remaining" (number (nat b.remaining)) end))

abbrev pub of_reservation : ReservationRecord → Value
of_reservation r = object (
    field "id" (text r.id) (
      field "operationId" (text r.operation_id) (
        field "principalId" (text r.principal_id) (
          field "tenantId" (of_option r.tenant_id) (
            field "plan" (of_option r.plan) (
              field "tool" (text r.tool) (
                field "budgetKeys" (array (of_list text r.budget_keys)) (
                  field "reservedUnits" (number (nat r.reserved_units)) (
                    field "expiresAt" (number (nat r.expires_at))
                      (field "growthCursor" (of_option r.growth_cursor) end))))))))))

abbrev pub of_reason : DenialReason → Value
of_reason quota_exceeded = text "quota_exceeded"
of_reason duplicate_operation = text "duplicate_operation"

-- The limiting budget of a refusal stands in the object itself.
abbrev pub of_limiting : Option BudgetRemaining → Fields
of_limiting none = end
of_limiting (some b) =
    field "limitingBudgetKey" (text b.key) (field "remaining" (number (nat b.remaining)) end)

unfoldable pub of_reserve_result : StoreReserveResult → Value
of_reserve_result (StoreReserveResult.accepted r balances) = object (
    field "accepted" (boolean true) (
      field "reservation" (of_reservation r)
        (field "remainingByBudget" (array (of_list of_balance balances)) end)))
of_reserve_result (StoreReserveResult.rejected reason limiting) =
    object
      (field "accepted" (boolean false) (field "reason" (of_reason reason) (of_limiting limiting)))

unfoldable pub of_grow_result : StoreGrowResult → Value
of_grow_result (StoreGrowResult.accepted r) = object (
    field "accepted" (boolean true) (
      field "replayed" (boolean r.replayed) (
        field "reservationId" (text r.reservation_id) (
          field "incrementId" (text r.increment_id) (
            field "previousReservedUnits" (number (nat r.previous_reserved_units)) (
              field "reservedUnits" (number (nat r.reserved_units)) (
                field "growthCursor" (text r.growth_cursor) (
                  field "remainingByBudget" (array (of_list of_balance r.remaining_by_budget))
                    end))))))))
of_grow_result (StoreGrowResult.denied r) = object (
    field "accepted" (boolean false) (
      field "reason" (text "quota_exceeded") (
        field "replayed" (boolean r.replayed) (
          field "reservationId" (text r.reservation_id) (
            field "incrementId" (text r.increment_id) (
              field "growthCursor" (text r.growth_cursor) (
                field "limitingBudgetKey" (text r.limiting_budget_key)
                  (field "remaining" (number (nat r.remaining)) end))))))))

abbrev pub of_vector_balance : VectorBudgetRemaining → Value
of_vector_balance b = object (
    field "dimensionKey" (text b.dimension_key)
      (field "budgetKey" (text b.budget_key) (field "remaining" (number (nat b.remaining)) end)))

abbrev pub of_dimension : VectorReservationDimension → Value
of_dimension d = object (
    field "key" (text d.key) (
      field "budgetKeys" (array (of_list text d.budget_keys))
        (field "reservedUnits" (number (nat d.reserved_units)) end)))

abbrev pub of_vector_reservation : VectorReservationRecord → Value
of_vector_reservation r = object (
    field "id" (text r.id) (
      field "operationId" (text r.operation_id) (
        field "principalId" (text r.principal_id) (
          field "tenantId" (of_option r.tenant_id) (
            field "plan" (of_option r.plan) (
              field "tool" (text r.tool) (
                field "dimensions" (array (of_list of_dimension r.dimensions)) (
                  field "expiresAt" (number (nat r.expires_at))
                    (field "growthCursor" (of_option r.growth_cursor) end)))))))))

abbrev pub of_vector_limiting : Option VectorBudgetRemaining → Fields
of_vector_limiting none = end
of_vector_limiting (some b) = field "limitingDimensionKey" (text b.dimension_key) (
    field "limitingBudgetKey" (text b.budget_key)
      (field "remaining" (number (nat b.remaining)) end))

unfoldable pub of_vector_reserve_result : StoreVectorReserveResult → Value
of_vector_reserve_result (StoreVectorReserveResult.accepted r balances) = object (
    field "accepted" (boolean true) (
      field "reservation" (of_vector_reservation r)
        (field "remainingByBudget" (array (of_list of_vector_balance balances)) end)))
of_vector_reserve_result (StoreVectorReserveResult.rejected reason limiting) = object (
    field "accepted" (boolean false)
      (field "reason" (of_reason reason) (of_vector_limiting limiting)))

abbrev of_reserved : UsageDimensionReserved → Value
of_reserved d =
    object (field "key" (text d.key) (field "reservedUnits" (number (nat d.reserved_units)) end))

unfoldable pub of_vector_grow_result : StoreVectorGrowResult → Value
of_vector_grow_result (StoreVectorGrowResult.accepted r) = object (
    field "accepted" (boolean true) (
      field "replayed" (boolean r.replayed) (
        field "reservationId" (text r.reservation_id) (
          field "incrementId" (text r.increment_id) (
            field "previousReservedByDimension"
              (array (of_list of_reserved r.previous_reserved_by_dimension))
              (field "reservedByDimension" (array (of_list of_reserved r.reserved_by_dimension)) (
                field "growthCursor" (text r.growth_cursor) (
                  field "remainingByBudget"
                    (array (of_list of_vector_balance r.remaining_by_budget)) end))))))))
of_vector_grow_result (StoreVectorGrowResult.denied r) = object (
    field "accepted" (boolean false) (
      field "reason" (text "quota_exceeded") (
        field "replayed" (boolean r.replayed) (
          field "reservationId" (text r.reservation_id) (
            field "incrementId" (text r.increment_id) (
              field "growthCursor" (text r.growth_cursor)
                (of_vector_limiting (some r.limiting))))))))
