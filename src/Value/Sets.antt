-- ===== src/Value/Sets.antt =====
-- Lists of texts that hold each expected text once, as the topology checks compare them.
use mcp_usage_control.Base.{
  suc, ◌+◌, ◌≡◌, refl, true, false, List, [], ◌∷◌, String, ◌==◌, eq_iff, arith, Bool-cases, inl,
  inr, length, includes, occurrences, Unique, All, if◌then◌else◌,
}

-- A list of texts without the first occurrence of one.
remove : String → List String → List String
remove k [] = []
remove k (j ∷ js) = if j == k then js else j ∷ remove k js

module _ (j : String) where
  remove-length : (es : List String) → includes j es ≡ true → length es ≡ suc (length (remove j es))
  unfolding remove
  remove-length [] h = cc
  remove-length (e ∷ es) h = elim (Bool-cases (e == j)) [
    | inl same ↦ rw same refl
    | inr other ↦ rw other (omega (arith, remove-length es (rw other at h)))
  ]

  remove-occurrences :
      (k : String) (es : List String)
      → includes j es ≡ true
      → occurrences k es ≡ (if j == k then 1 else 0) + occurrences k (remove j es)
  unfolding remove
  remove-occurrences k [] h = cc
  remove-occurrences k (e ∷ es) h = elim (Bool-cases (e == j)) [
    | inl same ↦ (let p : e ≡ j = (eq_iff e j).0 same in rw (same, p) refl)
    | inr other ↦ rw other (omega (arith, remove-occurrences k es (rw other at h)))
  ]

  remove-includes :
      (k : String) (es : List String)
      → j == k ≡ false
      → includes k es ≡ true
      → includes k (remove j es) ≡ true
  unfolding remove
  remove-includes k [] apart h = cc
  remove-includes k (e ∷ es) apart h = elim (Bool-cases (e == j)) [
    | inl same ↦
        (let p : e ≡ j = (eq_iff e j).0 same in
          let q : e == k ≡ false = rw p apart in rw same (rw q at h))
    | inr other ↦ rw other (elim (Bool-cases (e == k)) [
      | inl here ↦ rw here refl
      | inr there ↦ rw there (remove-includes k es apart (rw there at h))
    ])
  ]

  remove-keeps :
      (ks es : List String)
      → includes j ks ≡ false
      → All (λ k. includes k es ≡ true) ks
      → All (λ k. includes k (remove j es) ≡ true) ks
  remove-keeps [] es apart h = tt
  remove-keeps (k ∷ ks) es apart (here, rest) = elim (Bool-cases (k == j)) [
    | inl same ↦ absurd (let z : true ≡ false = (rw same at apart) in cc)
    | inr other ↦
        (let p : j == k ≡ false = ground (arith, eq_iff j k, eq_iff k j) in
          (remove-includes k es p here, remove-keeps ks es (rw other at apart) rest))
  ]

-- Texts without a repetition, all expected and as many as expected, are the expected ones: each
-- occurs as often.
pub covers :
    (ks es : List String)
    → Unique ks
    → All (λ k. includes k es ≡ true) ks
    → length ks ≡ length es
    → (k : String) → occurrences k ks ≡ occurrences k es
covers [] [] unique h same k = refl
covers [] (e ∷ es) unique h same k = ground arith
covers (j ∷ ks) es (apart, unique) (here, rest) same k =
    let shorter = remove-length j es here in
    let found = remove-occurrences j k es here in
    let e = covers ks (remove j es) unique (remove-keeps j ks es apart rest) (omega arith) k in
    omega arith
