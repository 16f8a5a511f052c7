-- ===== src/Base/Results.antt =====
-- What the library throws, as values, and the chaining of steps that may throw.
use Prim.Native.Nat.{ℕ}
use mathlib.Core.Path.{◌≡◌, refl}
use mathlib.Core.Logic.{◌⊎◌, inl, inr}
use mathlib.Core.Bool.{Bool, true, false, not}
use mathlib.Core.List.{List, [], ◌∷◌}
use mathlib.Core.Option.{Option}
use Prim.Native.String.{String}

-- The resource of a `MemoryUsageStoreCapacityError`.
pub data Resource : Type 0 where
  retained_operations retained_budget_keys : Resource

-- One name for each message that a `UsageStateError` carries.
pub data Conflict : Type 0 where
  not_found not_active wrong_mode : Conflict
  settled_growth increment_conflict no_growth_support stale_cursor topology_mismatch : Conflict
  actual_exceeds_reserved already_settled dimension_mismatch : Conflict
  reconciliation_mismatch missing_settlement budget_in_use : Conflict
  invalid_resume_state unresolved_growth unsupported_store : Conflict

-- `other_error` is what code outside the model throws, by its constructor's name if it is an `Error`.
pub data Failure : Type 0 where
  range_error type_error : Failure
  state_error : Conflict → Failure
  capacity_error : Resource → ℕ → Failure
  other_error : Option String → Failure

pub data Result {ℓ} (A : Type ℓ) : Type ℓ where
  ok : A → Result A
  throw : Failure → Result A

infixl 5 ◌>>=◌ ◌>>◌
abbrev pub ◌>>=◌ {ℓ κ} : {A : Type ℓ} {B : Type κ} → Result A → (A → Result B) → Result B
throw failure >>= next = throw failure
ok found >>= next = next found

abbrev pub ◌>>◌ {ℓ} : {B : Type ℓ} → Result (Unit {0}) → Result B → Result B
first >> second = first >>= λ _. second

-- A loop that checks and converts each item, and stops at the first that throws.
abbrev pub each {ℓ κ} : {A : Type ℓ} {B : Type κ} → (A → Result B) → List A → Result (List B)
each f [] = ok []
each f (x ∷ xs) = f x >>= λ y. each f xs >>= λ ys. ok (y ∷ ys)

abbrev pub check_each {ℓ} : {A : Type ℓ} → (A → Result (Unit {0})) → List A → Result (Unit {0})
check_each f [] = ok tt
check_each f (x ∷ xs) = f x >> check_each f xs

-- `if (test) throw e`.
abbrev pub throw_if : Bool → Failure → Result (Unit {0})
throw_if true e = throw e
throw_if false e = ok tt

-- Inversion of a chain that did not throw.
pub >>=-eq-ok {ℓ κ} :
    {A : Type ℓ} {B : Type κ} (first : Result A) (next : A → Result B) {answer : B}
    → (first >>= next) ≡ ok answer
    → (found : A) × (first ≡ ok found) × (next found ≡ ok answer)
>>=-eq-ok (throw failure) next e = cc
>>=-eq-ok (ok found) next e = (found, refl, e)

pub Result-cases {ℓ} :
    {A : Type ℓ} (r : Result A) → ((a : A) × (r ≡ ok a)) ⊎ ((e : Failure) × (r ≡ throw e))
Result-cases (ok a) = inl (a, refl)
Result-cases (throw e) = inr (e, refl)

pub ok_injective {ℓ} : {A : Type ℓ} {a b : A} → ok a ≡ ok b → a ≡ b
ok_injective h = cc

-- A check that did not throw.
pub throw_if_passes : (b : Bool) (e : Failure) (u : Unit {0}) → throw_if b e ≡ ok u → b ≡ false
throw_if_passes true e u h = cc
throw_if_passes false e u h = refl

pub throw_unless_passes :
    (b : Bool) (e : Failure) (u : Unit {0}) → throw_if (not b) e ≡ ok u → b ≡ true
throw_unless_passes true e u h = refl
throw_unless_passes false e u h = cc
