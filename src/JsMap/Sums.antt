-- ===== src/JsMap/Sums.antt =====
-- Sums of a quantity over the values of a map, under its updates, and maps whose keys are unique.
use mcp_usage_control.Base.{ℕ, ◌+◌, ◌≤◌, ◌≡◌, none, some, List, [], ◌∷◌, map, String, arith, total}
use mcp_usage_control.JsMap.{JsMap, get, set}

module _ {ℓ} {V : Type ℓ} where
  abbrev pub keys : JsMap V → List String
  keys m = map (λ e. e.0) m

  -- The sum over all entries of a quantity of their values.
  unfoldable pub sum : (V → ℕ) → JsMap V → ℕ
  sum f m = total (λ e. f e.1) m

  -- Replacing the value of a key moves the sum by the difference.
  pub sum-set :
      (f : V → ℕ) (k : String) (v w : V) (m : JsMap V)
      → get k m ≡ some w
      → sum f (set k v m) + f w ≡ sum f m + f v
  unfolding sum get set
  sum-set f k v w [] h = ground arith
  sum-set f k v w ((j, u) ∷ m) h = ground (arith, sum-set f k v w m)

  pub sum-set_new :
      (f : V → ℕ) (k : String) (v : V) (m : JsMap V)
      → get k m ≡ none
      → sum f (set k v m) ≡ sum f m + f v
  unfolding sum get set
  sum-set_new f k v [] h = ground arith
  sum-set_new f k v ((j, u) ∷ m) h = ground (arith, sum-set_new f k v m)

  pub sum-ge-get : (f : V → ℕ) (k : String) (w : V) (m : JsMap V) → get k m ≡ some w → f w ≤ sum f m
  unfolding sum get
  sum-ge-get f k w [] h = ground arith
  sum-ge-get f k w ((j, u) ∷ m) h = ground (arith, sum-ge-get f k w m)
