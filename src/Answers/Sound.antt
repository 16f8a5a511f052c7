-- ===== src/Answers/Sound.antt =====
-- What the checks of an answer to `reserve` show, and those of the balances of any scalar answer.
use mcp_usage_control.Answers.Scalar.{
  validate_store_reserve_result, validate_scalar_accepted_reservation, ReserveAnswer,
}
use mcp_usage_control.Answers.Scalar.ReserveAnswer.{accepted, rejected}
use mcp_usage_control.Base.{
  eqb→eq, throw_unless_passes, ok_injective, type_error, ◌&&◌, eqb, Bool, ℕ, ◌≡◌, refl, subst, true,
  false, not, Bool-cases, inl, inr, List, [], ◌∷◌, map, String, arith, All, Apart, Apart-weaken,
  Unique, includes, occurrences, length, ok, >>=-eq-ok, ◌||◌, throw_if,
}
use mcp_usage_control.Types.{UsageRequest, CanonicalBudget, BudgetRemaining, ReservationRecord}
use mcp_usage_control.Budgets.{budget_keys}
use mcp_usage_control.Value.{
  is_optional_text-cast, is_text-cast, require_array, Value, Values, nil, cons, Fields, property,
  require_record, validate_non_empty_string, validate_optional_non_empty_string,
  assert_non_negative_store_integer, assert_positive_store_integer,
}
use mcp_usage_control.Value.Sets.{covers}
use mcp_usage_control.Answers.{
  validate_reserve_denial, require_store_result, size, require_items, has_identity, strings_from,
  validate_string_set, balances_from, validate_budget_remaining_topology,
}

abbrev pub balance_keys : List BudgetRemaining → List String
balance_keys bs = map (λ b. b.key) bs

-- Texts of a list that are expected, apart from those seen and from one another.
abbrev pub IsPick : List String → List String → List String → Type 0
IsPick expected seen ks = Unique ks × Apart ks seen × All (λ k. includes k expected ≡ true) ks

IsPick-cons :
    (expected seen : List String) (k : String) (ks : List String)
    → includes k expected ≡ true
    → includes k seen ≡ false
    → IsPick expected (k ∷ seen) ks
    → IsPick expected seen (k ∷ ks)
IsPick-cons expected seen k ks known new (unique, apart, all) =
    let (fresh, rest) = Apart-weaken k ks seen apart in ((fresh, unique), (new, rest), (known, all))

module _ (expected : List String) where
  strings_from-IsPick :
      (seen : List String) (vs : Values) (ks : List String)
      → strings_from expected seen vs ≡ ok ks
      → IsPick expected seen ks × (length ks ≡ size vs)
  unfolding strings_from
  strings_from-IsPick seen nil ks h =
      let e : [] ≡ ks = cc in
      subst (λ l. IsPick expected seen l × (length l ≡ 0)) e ((tt, tt, tt), refl)
  strings_from-IsPick seen (cons v vs) ks h =
      let (k, hk, h1) = >>=-eq-ok (validate_non_empty_string v) _ h in
      let (_, fits, h2) =
        >>=-eq-ok (throw_if (not (includes k expected) || includes k seen) _) _ h1 in
      let (rest, hrest, h3) = >>=-eq-ok (strings_from expected (k ∷ seen) vs) _ h2 in
      let (pick, same) = strings_from-IsPick (k ∷ seen) vs rest hrest in
      let e : k ∷ rest ≡ ks = cc in
      subst (λ l. IsPick expected seen l × (length l ≡ ℕ.suc (size vs))) e
        (IsPick-cons expected seen k rest (ground arith) (ground arith) pick, omega arith)

  balances_from-IsPick :
      (seen : List String) (vs : Values) (bs : List BudgetRemaining)
      → balances_from expected seen vs ≡ ok bs
      → IsPick expected seen (balance_keys bs) × (length (balance_keys bs) ≡ size vs)
  unfolding balances_from
  balances_from-IsPick seen nil bs h =
      let e : [] ≡ bs = cc in
      subst (λ l. IsPick expected seen (balance_keys l) × (length (balance_keys l) ≡ 0)) e
        ((tt, tt, tt), refl)
  balances_from-IsPick seen (cons v vs) bs h =
      let (fields, _, h1) = >>=-eq-ok (require_record v) _ h in
      let (k, hk, h2) = >>=-eq-ok (validate_non_empty_string (property "key" fields)) _ h1 in
      let (_, fits, h3) =
        >>=-eq-ok (throw_if (not (includes k expected) || includes k seen) _) _ h2 in
      let (n, hn, h4) =
        >>=-eq-ok (assert_non_negative_store_integer (property "remaining" fields)) _ h3 in
      let (rest, hrest, h5) = >>=-eq-ok (balances_from expected (k ∷ seen) vs) _ h4 in
      let (pick, same) = balances_from-IsPick (k ∷ seen) vs rest hrest in
      let e : (record { key = k; remaining = n } ∷ rest) ≡ bs = cc in
      subst
        (λ l. IsPick expected seen (balance_keys l) × (length (balance_keys l) ≡ ℕ.suc (size vs))) e
        (
          IsPick-cons expected seen k (balance_keys rest) (ground arith) (ground arith) pick,
          omega arith,
        )

  -- The same keys, each as often.
  abbrev pub HasKeys : List String → Type 0
  HasKeys ks = (k : String) → occurrences k ks ≡ occurrences k expected

  pick-HasKeys :
      (ks : List String) → IsPick expected [] ks → length ks ≡ length expected → HasKeys ks
  pick-HasKeys ks (unique, _, all) same = covers ks expected unique all same

  require_items-size : (v : Value) (n : ℕ) (vs : Values) → require_items v n ≡ ok vs → size vs ≡ n
  require_items-size v n vs h =
      let (ws, _, h1) = >>=-eq-ok (require_array v) _ h in
      let (_, fits, h2) = >>=-eq-ok (throw_if (not (eqb (size ws) n)) type_error) _ h1 in
      let e : ws ≡ vs = cc in subst (λ l. size l ≡ n) e (ground arith)

  validate_string_set-HasKeys :
      (v : Value) (ks : List String) → validate_string_set v expected ≡ ok ks → HasKeys ks
  unfolding validate_string_set
  validate_string_set-HasKeys v ks h =
      let (vs, hvs, h1) = >>=-eq-ok (require_items v (length expected)) _ h in
      let (pick, same) = strings_from-IsPick [] vs ks h1 in
      let count = require_items-size v (length expected) vs hvs in
      pick-HasKeys ks pick (omega arith)

  pub validate_budget_remaining_topology-HasKeys :
      (v : Value) (bs : List BudgetRemaining)
      → validate_budget_remaining_topology v expected ≡ ok bs
      → HasKeys (balance_keys bs)
  unfolding validate_budget_remaining_topology
  validate_budget_remaining_topology-HasKeys v bs h =
      let (vs, hvs, h1) = >>=-eq-ok (require_items v (length expected)) _ h in
      let (pick, same) = balances_from-IsPick [] vs bs h1 in
      let count = require_items-size v (length expected) vs hvs in
      pick-HasKeys (balance_keys bs) pick (omega arith)

-- What an accepted answer must say of the request, its units and its budgets.
pub record IsReserved (request : UsageRequest) (units : ℕ) (budgets : List CanonicalBudget)
    (r : ReservationRecord) (remaining : List BudgetRemaining) : Type 0 where
  pub operation_id : r.operation_id ≡ request.operation_id
  pub principal_id : r.principal_id ≡ request.principal.id
  pub tenant_id : r.tenant_id ≡ request.principal.tenant_id
  pub plan : r.plan ≡ request.principal.plan
  pub tool : r.tool ≡ request.tool
  pub reserved_units : r.reserved_units ≡ units
  pub charged_keys : HasKeys (budget_keys budgets) r.budget_keys
  pub balanced_keys : HasKeys (budget_keys budgets) (balance_keys remaining)

abbrev pub IsReserveAnswer : UsageRequest → ℕ → List CanonicalBudget → ReserveAnswer → Type 0
IsReserveAnswer request units budgets (accepted r balances) =
    IsReserved request units budgets r balances
IsReserveAnswer request units budgets (rejected denial) = Unit {0}

has_identity-parts :
    (a b c d e : Bool)
    → a && b && c && d && e ≡ true
    → (a ≡ true) × (b ≡ true) × (c ≡ true) × (d ≡ true) × (e ≡ true)
has_identity-parts a b c d e h = ground arith

accepted-IsReserveAnswer :
    (fields : Fields) (request : UsageRequest) (units : ℕ) (budgets : List CanonicalBudget)
    (answer : ReserveAnswer)
    → validate_scalar_accepted_reservation fields request units budgets ≡ ok answer
    → IsReserveAnswer request units budgets answer
unfolding validate_scalar_accepted_reservation
accepted-IsReserveAnswer fields request units budgets answer h =
    let (f, _, h1) = >>=-eq-ok (require_record (property "reservation" fields)) _ h in
    let (id, _, h2) = >>=-eq-ok (validate_non_empty_string (property "id" f)) _ h1 in
    let (_, same, h3) = >>=-eq-ok (throw_if (not (has_identity f request)) type_error) _ h2 in
    let (n, _, h4) =
      >>=-eq-ok (assert_non_negative_store_integer (property "reservedUnits" f)) _ h3 in
    let (_, fits, h5) = >>=-eq-ok (throw_if (not (eqb n units)) type_error) _ h4 in
    let (at, _, h6) = >>=-eq-ok (assert_positive_store_integer (property "expiresAt" f)) _ h5 in
    let (cursor, _, h7) =
      >>=-eq-ok (validate_optional_non_empty_string (property "growthCursor" f)) _ h6 in
    let (keys, hk, h8) =
      >>=-eq-ok (validate_string_set (property "budgetKeys" f) (budget_keys budgets)) _ h7 in
    let (balances, hb, h9) =
      >>=-eq-ok
        (validate_budget_remaining_topology (property "remainingByBudget" fields)
          (budget_keys budgets))
        _ h8 in
    let all : has_identity f request ≡ true =
      throw_unless_passes (has_identity f request) _ _ same in
    let (a, b, c, d, e) = has_identity-parts _ _ _ _ _ all in
    subst (IsReserveAnswer request units budgets) (ok_injective h9) (record {
      operation_id = is_text-cast (property "operationId" f) request.operation_id a;
      principal_id = is_text-cast (property "principalId" f) request.principal.id b;
      tenant_id = is_optional_text-cast (property "tenantId" f) request.principal.tenant_id c;
      plan = is_optional_text-cast (property "plan" f) request.principal.plan d;
      tool = is_text-cast (property "tool" f) request.tool e;
      reserved_units = eqb→eq n units (throw_unless_passes (eqb n units) _ _ fits);
      charged_keys =
          validate_string_set-HasKeys (budget_keys budgets) (property "budgetKeys" f) keys hk;
      balanced_keys =
          validate_budget_remaining_topology-HasKeys (budget_keys budgets)
            (property "remainingByBudget" fields) balances hb;
    })

-- An answer to `reserve` that passes the client's checks is a refusal, or a reservation with the
-- identity of the request, exactly the units asked for, and exactly the budget keys asked for, both
-- in the reservation and in the balances, each as often.
pub validate_store_reserve_result-IsReserveAnswer :
    (value : Value) (request : UsageRequest) (units : ℕ) (budgets : List CanonicalBudget)
    (answer : ReserveAnswer)
    → validate_store_reserve_result value request units budgets ≡ ok answer
    → IsReserveAnswer request units budgets answer
unfolding validate_store_reserve_result
validate_store_reserve_result-IsReserveAnswer value request units budgets answer h =
    let (result, _, h1) = >>=-eq-ok (require_store_result value) _ h in
    elim (Bool-cases result.1) [
      | inl yes_flag ↦
          accepted-IsReserveAnswer result.0 request units budgets answer (rw yes_flag at h1)
      | inr no_flag ↦
          (let h2 = (rw no_flag at h1) in
            let (denial, _, h3) = >>=-eq-ok (validate_reserve_denial result.0 false) _ h2 in
            subst (IsReserveAnswer request units budgets) (ok_injective h3) tt)
    ]
