-- ===== src/Memory/Action.antt =====
-- A method of the store: it returns or throws, and what it wrote before a throw stays written.
use mcp_usage_control.Base.{Result, ok, throw, Failure, ◌≡◌, subst, sym}
use mcp_usage_control.Memory.State.{MemoryUsageStore}

abbrev pub Action : Type 0 → Type 0
Action A = MemoryUsageStore → Result A × MemoryUsageStore

abbrev pub continue :
    {A B : Type 0} → (A → Action B) → Result A × MemoryUsageStore → Result B × MemoryUsageStore
continue f (ok a, s) = f a s
continue f (throw e, s) = (throw e, s)

infixl 5 ◌>>=◌ ◌>>◌
abbrev pub ◌>>=◌ : {A B : Type 0} → Action A → (A → Action B) → Action B
◌>>=◌ m f s = continue f (m s)

abbrev pub ◌>>◌ : {A B : Type 0} → Action A → Action B → Action B
m >> k = m >>= λ _. k

-- A computation that does not touch the store.
abbrev pub lift : {A : Type 0} → Result A → Action A
lift r s = (r, s)

abbrev pub raise : {A : Type 0} → Failure → Action A
raise e s = (throw e, s)

-- A property of the store that a method keeps, whether it returns or throws.
abbrev pub Keeps : (MemoryUsageStore → Type 0) → {A : Type 0} → Action A → Type 0
Keeps P m = (s : MemoryUsageStore) → P s → P (m s).1

module _ (P : MemoryUsageStore → Type 0) where
  continue-keeps :
      {A B : Type 0} (f : A → Action B) (x : Result A × MemoryUsageStore)
      → P x.1
      → ((a : A) → Keeps P (f a))
      → P (continue f x).1
  continue-keeps f (ok a, s) h g = g a s h
  continue-keeps f (throw e, s) h g = h

  pub bind-Keeps :
      {A B : Type 0} (m : Action A) (f : A → Action B)
      → Keeps P m
      → ((a : A) → Keeps P (f a))
      → Keeps P (m >>= f)
  bind-Keeps m f h g s p = continue-keeps f (m s) (h s p) g

  pub lift-Keeps : {A : Type 0} (r : Result A) → Keeps P (lift r)
  lift-Keeps r s p = p

  continue-at :
      {A B : Type 0} (f : A → Action B) (s : MemoryUsageStore) (x : Result A × MemoryUsageStore)
      → x.1 ≡ s
      → P s
      → ((a : A) → P (f a s).1)
      → P (continue f x).1
  continue-at f s (ok a, s') e h g = subst (λ t. P (f a t).1) (sym e) (g a)
  continue-at f s (throw _, s') e h g = subst P (sym e) h

  -- A step that leaves the store alone, and what follows it.
  pub readonly_then :
      {A B : Type 0} (m : Action A) (f : A → Action B) (s : MemoryUsageStore)
      → (m s).1 ≡ s
      → P s
      → ((a : A) → P (f a s).1)
      → P ((m >>= f) s).1
  readonly_then m f s e h g = continue-at f s (m s) e h g
