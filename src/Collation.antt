-- ===== src/Collation.antt =====
-- The order of keys and the sorting of canonical lists. `localeCompare` depends on the locale data
-- of the host, so it is a parameter: `le a b` stands for `a.localeCompare(b) <= 0`. What is
-- assumed of it is that it orders all texts, as a comparison for `sort` must. It is not assumed
-- that only equal texts compare equal: canonically equivalent texts do so too.
use mcp_usage_control.Base.{◌≡◌, ◌⊎◌, Bool, true, List, [], ◌∷◌, String, includes, if◌then◌else◌}
pub mod ByCode
pub mod Sorting

pub record Collation : Type 0 where
  pub le : String → String → Bool
  pub le_total : (a b : String) → (le a b ≡ true) ⊎ (le b a ≡ true)
  pub le_trans : (a b c : String) → le a b ≡ true → le b c ≡ true → le a c ≡ true

-- Among some keys, only equal ones compare equal. A hypothesis of the theorems that need it, on the
-- keys that they are about.
abbrev pub IsStrictOn : Collation → List String → Type 0
IsStrictOn c ks =
    (a b : String)
    → includes a ks ≡ true
    → includes b ks ≡ true
    → c.le a b ≡ true
    → c.le b a ≡ true
    → a ≡ b

module _ {ℓ} {A : Type ℓ} (key : A → String) ⦃c : Collation⦄ where
  unfoldable pub insert_by : A → List A → List A
  insert_by x [] = x ∷ []
  insert_by x (y ∷ ys) = if c.le (key x) (key y) then x ∷ y ∷ ys else y ∷ insert_by x ys

  -- `Array.prototype.sort` by key, which is stable: equal keys keep their order.
  unfoldable pub sort_by : List A → List A
  unfolding insert_by
  sort_by [] = []
  sort_by (x ∷ xs) = insert_by x (sort_by xs)
