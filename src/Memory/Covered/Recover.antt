-- ===== src/Memory/Covered/Recover.antt =====
-- The recovery of expired reservations keeps the accounting invariant.
use mcp_usage_control.Base.{
  ℕ, ◌+◌, ◌≤◌, ◌≡◌, refl, [], ◌∷◌, String, arith, Result, ok, throw, Result-cases, inl, inr,
  Bool-cases,
}
use mcp_usage_control.JsMap.{JsMap}
use mcp_usage_control.JsMap.Sums.{sum}
use mcp_usage_control.Number.{safe_add}
use mcp_usage_control.Memory.State.{
  InternalReservation, MemoryUsageStore, ReservationState, pending, liable, settled,
}
use mcp_usage_control.Memory.Recovery.{
  used_at, Sweep, Visit, kept, dropped, stopped, visit_in, after_visit, settle_expired,
  sweep_entries, preflight, recover_all, recover_expired, Swept, sweep_start, is_due, swept_store,
}
use mcp_usage_control.Memory.Usage.{used_at-release_mode}
use mcp_usage_control.Memory.Covered.{active, all_active, IsCovered, KeepsCovered}

-- One visit hands on at least what the remaining reservations hold.
VisitCovers : String → InternalReservation → Sweep → Visit → Type 0
VisitCovers k r w v = elim v [
  | kept r' w' ↦ (active k r' ≤ active k r) × (w'.used ≡ w.used)
  | stopped e r' w' ↦ (active k r' ≤ active k r) × (w'.used ≡ w.used)
  | dropped w' ↦ used_at k w.used ≤ used_at k w'.used + active k r
]

settle_expired-covers :
    (k : String) (now : ℕ) (t : Result ℕ) (r : InternalReservation) (w : Sweep)
    → VisitCovers k r w (settle_expired now t r w)
unfolding VisitCovers settle_expired
settle_expired-covers k now (ok t) r w = (omega arith, refl)
settle_expired-covers k now (throw e) r w = (omega arith, refl)

visit_in-covers :
    (st : ReservationState) (k : String) (now ttl : ℕ) (r : InternalReservation) (w : Sweep)
    → r.state ≡ st
    → VisitCovers k r w (visit_in st now ttl r w)
unfolding VisitCovers visit_in
visit_in-covers settled k now ttl r w e = ground arith
visit_in-covers pending k now ttl r w e = ground (arith, used_at-release_mode k r.mode w.used)
visit_in-covers liable k now ttl r w e =
    let s = settle_expired-covers k now (safe_add now ttl) r w in ground (arith, s)

-- With `extra` units held elsewhere, the pass leaves everything that is held covered.
abbrev SweptCovers : String → ℕ → Swept → Type 0
SweptCovers k extra (done, rest, w) = all_active k rest + extra ≤ used_at k w.used

after_visit-covers :
    (k id : String) (r : InternalReservation) (rest : JsMap InternalReservation)
    (pass : Sweep → Swept) (extra : ℕ) (w : Sweep) (v : Visit)
    → ((e : ℕ) (w' : Sweep) → all_active k rest + e ≤ used_at k w'.used → SweptCovers k e (pass w'))
    → active k r + (all_active k rest + extra) ≤ used_at k w.used
    → VisitCovers k r w v
    → SweptCovers k extra (after_visit id rest pass v)
unfolding after_visit VisitCovers sum
after_visit-covers k id r rest pass extra w (kept r' w') next h v =
    let e : used_at k w'.used ≡ used_at k w.used = rw (v.1) in
    let n = next (active k r' + extra) w' (omega arith) in omega arith
after_visit-covers k id r rest pass extra w (dropped w') next h v = next extra w' (omega arith)
after_visit-covers k id r rest pass extra w (stopped f r' w') next h v =
    let e : used_at k w'.used ≡ used_at k w.used = rw (v.1) in omega arith

sweep_entries-covers :
    (k : String) (now ttl : ℕ) (m : JsMap InternalReservation) (extra : ℕ) (w : Sweep)
    → all_active k m + extra ≤ used_at k w.used
    → SweptCovers k extra (sweep_entries now ttl m w)
unfolding sweep_entries sum
sweep_entries-covers k now ttl [] extra w h = h
sweep_entries-covers k now ttl ((id, r) ∷ rest) extra w h =
    after_visit-covers k id r rest (sweep_entries now ttl rest) extra w
      (visit_in r.state now ttl r w) (sweep_entries-covers k now ttl rest) (omega arith)
      (visit_in-covers r.state k now ttl r w refl)

swept_store-covers :
    (s : MemoryUsageStore) (x : Swept)
    → ((k : String) → SweptCovers k 0 x)
    → IsCovered (swept_store s x).1
swept_store-covers s (ok _, rest, w) h k = omega (arith, h k)
swept_store-covers s (throw e, rest, w) h k = omega (arith, h k)

recover_all-KeepsCovered : (now : ℕ) → KeepsCovered (recover_all now)
unfolding recover_all
recover_all-KeepsCovered now s h =
    elim (Result-cases (preflight now s.idempotency_ttl_ms s.reservations)) [
      | inr (e, unsafe) ↦ rw (unsafe, recover_all) h
      | inl (_, safe) ↦
          rw (safe, recover_all)
            (swept_store-covers s
              (sweep_entries now s.idempotency_ttl_ms s.reservations (sweep_start s))
              (λ k.
                sweep_entries-covers k now s.idempotency_ttl_ms s.reservations 0 (sweep_start s)
                  (omega (arith, h k))))
    ]

-- Recovery keeps the invariant, also where it throws in the middle.
pub recover_expired-KeepsCovered : (now : ℕ) → KeepsCovered (recover_expired now)
unfolding recover_expired
recover_expired-KeepsCovered now s h = elim (Bool-cases (is_due now s.next_recovery_at)) [
  | inl due ↦ rw due (recover_all-KeepsCovered now s h)
  | inr early ↦ rw early h
]
