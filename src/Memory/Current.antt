-- ===== src/Memory/Current.antt =====
-- What a recovery leaves: it throws before its first write, and where it returns nothing that is
-- retained is overdue.
use mcp_usage_control.Base.{
  subst, [], ◌∷◌, none, some, arith, Option-cases, ◌&&◌, ◌⊎◌, Failure, String, ltb, leb, ◌≡◌, ◌<◌,
  ℕ, refl, inl, inr, true, false, Bool-cases, ok, throw, All, Result-cases,
}
use mcp_usage_control.Memory.Recovery.{
  kept, dropped, stopped, sweep_start, is_liable, swept_store, recover_all, sweep_entries,
  preflight, after_visit, Swept, Sweep, settle_expired, Visit, visit_in,
}
use mcp_usage_control.Memory.State.{
  MemoryUsageStore, ReservationState, InternalReservation, pending, liable, settled,
}
use mcp_usage_control.JsMap.{JsMap}
use mcp_usage_control.Number.{safe_add_sum, safe_add}

-- Before its deadline, by the state of the reservation.
abbrev pub IsCurrent : ℕ → InternalReservation → Type 0
IsCurrent now r = elim r.state [
  | pending ↦ now < r.expires_at
  | liable ↦ now < r.expires_at
  | settled ↦ elim r.tombstone_expires_at [ none ↦ Unit {0} | some at ↦ now < at ]
]

abbrev AllCurrent : ℕ → JsMap InternalReservation → Type 0
AllCurrent now m = All (λ e. IsCurrent now e.1) m

-- After the first loop has passed, a visit does not stop, and what it keeps is current.
abbrev VisitIsCurrent : ℕ → Visit → Type 0
VisitIsCurrent now (kept r w) = IsCurrent now r
VisitIsCurrent now (dropped w) = Unit
VisitIsCurrent now (stopped e r w) = ⊥

visit_in-IsCurrent :
    (st : ReservationState) (now ttl : ℕ) (r : InternalReservation) (w : Sweep)
    → r.state ≡ st
    → 0 < ttl
    → (leb r.expires_at now ≡ true → st ≡ liable → (t : ℕ) × (safe_add now ttl ≡ ok t))
    → VisitIsCurrent now (visit_in st now ttl r w)
unfolding visit_in settle_expired
visit_in-IsCurrent pending now ttl r w e long safe = elim (Bool-cases (ltb now r.expires_at)) [
  | inl early ↦ rw (early, e) (ground arith)
  | inr due ↦ rw due tt
]
visit_in-IsCurrent liable now ttl r w e long safe = elim (Bool-cases (ltb now r.expires_at)) [
  | inl early ↦ rw (early, e) (ground arith)
  | inr due ↦
      let (t, sum) = safe (ground arith) refl in
      rw (due, sum) (let s = (safe_add_sum now ttl t sum).0 in omega (arith, s))
]
visit_in-IsCurrent settled now ttl r w e long safe = elim (Option-cases r.tombstone_expires_at) [
  | inl never ↦ rw (never, e) tt
  | inr (at, deadline) ↦ elim (Bool-cases (leb at now)) [
    | inl past ↦ rw (deadline, past) tt
    | inr early ↦ rw (deadline, early, e) (ground arith)
  ]
]

abbrev SweptCurrent : ℕ → Swept → Type 0
SweptCurrent now x = (x.0 ≡ ok tt) × AllCurrent now x.1

after_visit-SweptCurrent :
    (now : ℕ) (id : String) (rest : JsMap InternalReservation) (pass : Sweep → Swept) (v : Visit)
    → ((w : Sweep) → SweptCurrent now (pass w))
    → VisitIsCurrent now v
    → SweptCurrent now (after_visit id rest pass v)
unfolding after_visit
after_visit-SweptCurrent now id rest pass (kept r w) next h = ((next w).0, (h, (next w).1))
after_visit-SweptCurrent now id rest pass (dropped w) next h = next w
after_visit-SweptCurrent now id rest pass (stopped e r w) next h = elim h [ ]

calm_or_safe :
    (now ttl : ℕ) (r : InternalReservation)
    → is_liable r.state && leb r.expires_at now ≡ false
    → leb r.expires_at now ≡ true
    → r.state ≡ liable
    → (t : ℕ) × (safe_add now ttl ≡ ok t)
calm_or_safe now ttl r calm due e = absurd (
    let z : true && true ≡ false = subst (λ st. is_liable st && true ≡ false) e (rw due at calm) in
    cc)

-- What the first loop has found of one reservation, and of those after it.
preflight_parts :
    (now ttl : ℕ) (id : String) (r : InternalReservation) (rest : JsMap InternalReservation)
    → preflight now ttl ((id, r) ∷ rest) ≡ ok tt
    → (leb r.expires_at now ≡ true → r.state ≡ liable → (t : ℕ) × (safe_add now ttl ≡ ok t))
      × (preflight now ttl rest ≡ ok tt)
unfolding preflight
preflight_parts now ttl id r rest h =
    elim (Bool-cases (is_liable r.state && leb r.expires_at now)) [
      | inr calm ↦ (calm_or_safe now ttl r calm, (rw calm at h))
      | inl due ↦ elim (Result-cases (safe_add now ttl)) [
        | inl (t, sum) ↦ ((λ _ _. (t, sum)), (rw (due, sum) at h))
        | inr (e, unsafe) ↦ absurd (let z : throw e ≡ ok tt = (rw (due, unsafe) at h) in cc)
      ]
    ]

sweep_entries-SweptCurrent :
    (now ttl : ℕ) (m : JsMap InternalReservation) (w : Sweep)
    → 0 < ttl
    → preflight now ttl m ≡ ok tt
    → SweptCurrent now (sweep_entries now ttl m w)
unfolding sweep_entries
sweep_entries-SweptCurrent now ttl [] w long h = (refl, tt)
sweep_entries-SweptCurrent now ttl ((id, r) ∷ rest) w long h =
    let (safe, later) = preflight_parts now ttl id r rest h in
    after_visit-SweptCurrent now id rest (sweep_entries now ttl rest) (visit_in r.state now ttl r w)
      (λ w'. sweep_entries-SweptCurrent now ttl rest w' long later)
      (visit_in-IsCurrent r.state now ttl r w refl long safe)

swept_store-SweptCurrent :
    (now : ℕ) (s : MemoryUsageStore) (x : Swept)
    → SweptCurrent now x
    → ((swept_store s x).0 ≡ ok tt) × AllCurrent now (swept_store s x).1.reservations
swept_store-SweptCurrent now s (ok _, rest, w) h = h
swept_store-SweptCurrent now s (throw e, rest, w) h = absurd (let z = h.0 in cc)

-- With a positive retention time, a recovery either throws and leaves the store alone, or returns
-- and leaves only reservations that are current: an active one expires later than now, and a
-- settled one has no tombstone or one that ends later than now.
pub recover_all-IsCurrent :
    (now : ℕ) (s : MemoryUsageStore)
    → 0 < s.idempotency_ttl_ms
    → ((e : Failure) × (recover_all now s ≡ (throw e, s)))
      ⊎ (((recover_all now s).0 ≡ ok tt)
          × All (λ e. IsCurrent now e.1) (recover_all now s).1.reservations)
unfolding recover_all
recover_all-IsCurrent now s long =
    elim (Result-cases (preflight now s.idempotency_ttl_ms s.reservations)) [
      | inr (e, unsafe) ↦ inl (e, rw (unsafe, recover_all) refl)
      | inl (_, safe) ↦ inr (
          rw (safe, recover_all)
            (swept_store-SweptCurrent now s
              (sweep_entries now s.idempotency_ttl_ms s.reservations (sweep_start s))
              (sweep_entries-SweptCurrent now s.idempotency_ttl_ms s.reservations (sweep_start s)
                long safe)))
    ]
