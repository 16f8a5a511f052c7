-- ===== src/Windows/Search.antt =====
-- The search for a window's boundary: it ends within its fuel, at a boundary.
use mcp_usage_control.Base.{
  ℕ, suc, zero, ◌+◌, ◌-◌, ◌≤◌, ◌<◌, ◌≡◌, Bool, true, false, String, Option, none, some, arith, ltb,
  Bool-cases, Result-cases, Result, ok, throw, inl, inr,
}
use mcp_usage_control.Windows.{
  last_instant, Direction, backward, forward, search, find_window_boundary, Formatter,
  AccountingWindowPeriod, in_window, midpoint,
}

pub halves :
    (low high : ℕ) → low + 1 < high → (low < midpoint low high) × (midpoint low high < high)
halves low high h = omega arith

module _ (inside : ℕ → Result Bool) where
  -- What a search may end with: a failure, or the upper of two neighbours, one inside the window
  -- and one outside, between the two bounds.
  abbrev pub IsBoundary : Direction → ℕ → ℕ → ℕ → Type 0
  IsBoundary backward low high b =
      (low < b) × (b ≤ high) × (inside b ≡ ok true) × (inside (b - 1) ≡ ok false)
  IsBoundary forward low high b =
      (low < b) × (b ≤ high) × (inside b ≡ ok false) × (inside (b - 1) ≡ ok true)

  abbrev pub IsSearched : Direction → ℕ → ℕ → Option (Result ℕ) → Type 0
  IsSearched direction low high none = ⊥
  IsSearched direction low high (some (throw e)) = Unit
  IsSearched direction low high (some (ok b)) = IsBoundary direction low high b

  -- The instants of the window are the upper ones when the search goes backward.
  abbrev Brackets : Direction → ℕ → ℕ → Type 0
  Brackets backward low high = (inside low ≡ ok false) × (inside high ≡ ok true)
  Brackets forward low high = (inside low ≡ ok true) × (inside high ≡ ok false)

  widen :
      (d : Direction) (low high low' high' : ℕ) (found : Option (Result ℕ))
      → low ≤ low'
      → high' ≤ high
      → IsSearched d low' high' found
      → IsSearched d low high found
  widen d low high low' high' none a b h = elim h [ ]
  widen d low high low' high' (some (throw e)) a b h = tt
  widen backward low high low' high' (some (ok n)) a b h = (omega arith, omega arith, h.2, h.3)
  widen forward low high low' high' (some (ok n)) a b h = (omega arith, omega arith, h.2, h.3)

  neighbours :
      (d : Direction) (low high : ℕ)
      → low < high
      → ltb (low + 1) high ≡ false
      → Brackets d low high
      → IsBoundary d low high high
  neighbours backward low high h done (a, b) =
      let e : high - 1 ≡ low = ground arith in (h, omega arith, b, rw e a)
  neighbours forward low high h done (a, b) =
      let e : high - 1 ≡ low = ground arith in (h, omega arith, b, rw e a)

  as_boundary :
      (d : Direction) (low high n : ℕ)
      → IsBoundary d low high n
      → IsSearched d low high (some (ok n))
  as_boundary backward low high n h = h
  as_boundary forward low high n h = h

  pub search-IsSearched :
      (d : Direction) (fuel low high : ℕ)
      → low < high
      → high ≤ low + fuel + 1
      → Brackets d low high
      → IsSearched d low high (search inside d fuel low high)
  unfolding search
  search-IsSearched d zero low high h enough b =
      let done : ltb (low + 1) high ≡ false = ground arith in
      rw done (as_boundary d low high high (neighbours d low high h done b))
  search-IsSearched backward (suc fuel) low high h enough b =
      let m = midpoint low high in
      elim (Bool-cases (ltb (low + 1) high)) [
        | inr done ↦ rw done (neighbours backward low high h done b)
        | inl more ↦
            (let (up, down) = halves low high (ground arith) in
              elim (Result-cases (inside m)) [
                | inr (e, bad) ↦ rw (more, bad) tt
                | inl (true, here) ↦
                    rw (more, here)
                      (widen backward low high low m (search inside backward fuel low m)
                        (omega arith) (omega arith)
                        (search-IsSearched backward fuel low m up (omega arith) (b.0, here)))
                | inl (false, there) ↦
                    rw (more, there)
                      (widen backward low high m high (search inside backward fuel m high)
                        (omega arith) (omega arith)
                        (search-IsSearched backward fuel m high down (omega arith) (there, b.1)))
              ])
      ]
  search-IsSearched forward (suc fuel) low high h enough b =
      let m = midpoint low high in
      elim (Bool-cases (ltb (low + 1) high)) [
        | inr done ↦ rw done (neighbours forward low high h done b)
        | inl more ↦
            (let (up, down) = halves low high (ground arith) in
              elim (Result-cases (inside m)) [
                | inr (e, bad) ↦ rw (more, bad) tt
                | inl (true, here) ↦
                    rw (more, here)
                      (widen forward low high m high (search inside forward fuel m high)
                        (omega arith) (omega arith)
                        (search-IsSearched forward fuel m high down (omega arith) (here, b.1)))
                | inl (false, there) ↦
                    rw (more, there)
                      (widen forward low high low m (search inside forward fuel low m) (omega arith)
                        (omega arith)
                        (search-IsSearched forward fuel low m up (omega arith) (b.0, there)))
              ])
      ]

module _ (formatter : Formatter) (period : AccountingWindowPeriod) (current : String)
    (timestamp span : ℕ) where
  abbrev pub inside : ℕ → Result Bool
  inside t = in_window formatter period current t

  -- The interval that a search covers.
  abbrev pub IsFound : Direction → Option (Result ℕ) → Type 0
  IsFound backward found = IsSearched inside backward (timestamp - span) timestamp found
  IsFound forward found = IsSearched inside forward timestamp (timestamp + span) found

  -- From an instant of the current window, over a positive span, the search for a boundary ends
  -- within its fuel. It throws, or it finds an instant within the span of which one is in the
  -- window and the one before is not, or the other way round: backward the first instant of a stay
  -- in the window, forward the first one after it.
  pub find_window_boundary-IsFound :
      (direction : Direction)
      → 0 < span
      → in_window formatter period current timestamp ≡ ok true
      → IsFound direction (find_window_boundary formatter period current timestamp direction span)
  unfolding find_window_boundary
  find_window_boundary-IsFound backward positive now = elim (Bool-cases (ltb timestamp span)) [
    | inl before ↦ rw (before, find_window_boundary) tt
    | inr within ↦ elim (Result-cases (inside (timestamp - span))) [
      | inr (e, bad) ↦ rw (within, bad, find_window_boundary) tt
      | inl (true, here) ↦ rw (within, here, find_window_boundary) tt
      | inl (false, there) ↦
          rw (within, there, find_window_boundary)
            (search-IsSearched inside backward span (timestamp - span) timestamp (ground arith)
              (omega arith) (there, now))
    ]
  ]
  find_window_boundary-IsFound forward positive now =
      elim (Bool-cases (ltb last_instant (timestamp + span))) [
        | inl beyond ↦ rw (beyond, find_window_boundary) tt
        | inr within ↦ elim (Result-cases (inside (timestamp + span))) [
          | inr (e, bad) ↦ rw (within, bad, find_window_boundary) tt
          | inl (true, here) ↦ rw (within, here, find_window_boundary) tt
          | inl (false, there) ↦
              rw (within, there, find_window_boundary)
                (search-IsSearched inside forward span timestamp (timestamp + span) (omega arith)
                  (omega arith) (now, there))
        ]
      ]
