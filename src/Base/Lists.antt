-- ===== src/Base/Lists.antt =====
-- Lists measured by native numbers, lists of texts as sets, and sums over lists.
use Prim.Native.Nat.{◌<◌, ℕ, suc, ◌+◌}
use Prim.Native.String.{String}
use mathlib.Core.Path.{◌≡◌, refl, ap}
use mathlib.Core.Bool.{Bool, true, false, ◌&&◌, ◌||◌}
use mathlib.Core.List.{List, [], ◌∷◌, ◌++◌, map}
use native.Mathlib.Omega.{arith}
use text.Mathlib.Text.{◌==◌}
use text.Mathlib.TextEquality.{eq_iff}
use mcp_usage_control.Base.Tests.{if◌then◌else◌}

module _ {ℓ} {A : Type ℓ} where
  abbrev pub length : List A → ℕ
  length [] = 0
  length (x ∷ xs) = suc (length xs)

  abbrev pub is_empty : List A → Bool
  is_empty [] = true
  is_empty (x ∷ xs) = false

  -- `Array.prototype.some` and `every`.
  abbrev pub any : (A → Bool) → List A → Bool
  any p [] = false
  any p (x ∷ xs) = p x || any p xs

  abbrev pub every : (A → Bool) → List A → Bool
  every p [] = true
  every p (x ∷ xs) = p x && every p xs

  abbrev pub All {κ} : (A → Type κ) → List A → Type κ
  All P [] = Unit
  All P (x ∷ xs) = P x × All P xs

  -- The sum of a quantity over a list.
  abbrev pub total : (A → ℕ) → List A → ℕ
  total f [] = 0
  total f (x ∷ xs) = f x + total f xs

  pub total-append : (f : A → ℕ) (xs ys : List A) → total f (xs ++ ys) ≡ total f xs + total f ys
  total-append f [] ys = omega arith
  total-append f (x ∷ xs) ys = omega (arith, total-append f xs ys)

  pub length-append : (xs ys : List A) → length (xs ++ ys) ≡ length xs + length ys
  length-append [] ys = omega arith
  length-append (x ∷ xs) ys = omega (arith, length-append xs ys)

-- `includes`, and the number of times that a key occurs.
abbrev pub includes : String → List String → Bool
includes k [] = false
includes k (j ∷ js) = if j == k then true else includes k js

abbrev pub occurrences : String → List String → ℕ
occurrences k [] = 0
occurrences k (j ∷ js) = (if j == k then 1 else 0) + occurrences k js

-- No text occurs twice.
abbrev pub Unique : List String → Type 0
Unique [] = Unit
Unique (k ∷ ks) = (includes k ks ≡ false) × Unique ks

-- None of the keys stands in the other list.
abbrev pub Apart : List String → List String → Type 0
Apart [] seen = Unit
Apart (k ∷ ks) seen = (includes k seen ≡ false) × Apart ks seen

pub Apart-weaken :
    (k : String) (ks seen : List String)
    → Apart ks (k ∷ seen)
    → (includes k ks ≡ false) × Apart ks seen
Apart-weaken k [] seen h = (refl, tt)
Apart-weaken k (j ∷ js) seen h =
    let rest = Apart-weaken k js seen h.1 in ground (arith, eq_iff j k, eq_iff k j)

pub Apart-strengthen :
    (k : String) (ks seen : List String)
    → includes k ks ≡ false
    → Apart ks seen
    → Apart ks (k ∷ seen)
Apart-strengthen k [] seen new h = tt
Apart-strengthen k (j ∷ js) seen new h =
    ground (arith, eq_iff j k, eq_iff k j, Apart-strengthen k js seen)

pub Apart-none : (ks : List String) → Apart ks []
Apart-none [] = tt
Apart-none (k ∷ ks) = (refl, Apart-none ks)

pub occurrences-zero :
    (k : String) (ks : List String) → includes k ks ≡ false → occurrences k ks ≡ 0
occurrences-zero k [] h = refl
occurrences-zero k (j ∷ js) h = ground (arith, occurrences-zero k js)

pub occurrences-includes :
    (k : String) (ks : List String) → 0 < occurrences k ks → includes k ks ≡ true
occurrences-includes k [] h = absurd (omega arith)
occurrences-includes k (j ∷ js) h = ground (arith, occurrences-includes k js)

-- What holds of every text that occurs in a list holds of all its items.
pub occurrences-All {κ} :
    (P : String → Type κ) (ks : List String)
    → ((k : String) → 0 < occurrences k ks → P k)
    → All P ks
occurrences-All P [] f = tt
occurrences-All P (k ∷ ks) f =
    (f k (ground (arith, eq_iff k k)), occurrences-All P ks (λ j h. f j (omega (arith, h))))

module _ {ℓ} {A : Type ℓ} (key : A → String) where
  pub occurrences-total :
      (k : String) (xs : List A)
      → occurrences k (map key xs) ≡ total (λ x. if key x == k then 1 else 0) xs
  occurrences-total k [] = refl
  occurrences-total k (x ∷ xs) = omega (arith, occurrences-total k xs)

pub length-total {ℓ} : {A : Type ℓ} (xs : List A) → length xs ≡ total (λ _. 1) xs
length-total [] = refl
length-total (x ∷ xs) = omega (arith, length-total xs)

pub length-map {ℓ κ} :
    {A : Type ℓ} {B : Type κ} (xs : List A) (f : A → B) → length (map f xs) ≡ length xs
length-map [] f = refl
length-map (x ∷ xs) f = ap suc (length-map xs f)
