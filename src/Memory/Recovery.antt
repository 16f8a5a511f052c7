-- ===== src/Memory/Recovery.antt =====
-- `recoverExpired` and `releaseAcrossBudgets` of `MemoryUsageStore`. The loop over the retained
-- reservations deletes only the entry that it visits; so it is written as a pass that rebuilds
-- the map, and hands the rest of the state along.
use mcp_usage_control.Base.{
  ℕ, ◌-◌, Bool, true, false, List, [], ◌∷◌, String, Option, none, some, map, length, get_or, leb,
  ltb, eqb, if◌then◌else◌, Result, ok, throw, Failure, ◌&&◌,
}
use mcp_usage_control.JsMap.{JsMap, get, set, delete}
use mcp_usage_control.Number.{safe_add}
use mcp_usage_control.Types.{VectorReservationDimension}
use mcp_usage_control.Memory.State.{
  ReservationState, pending, liable, settled, Mode, scalar, vector, InternalReservation,
  MemoryUsageStore, RecoveryEvent, Recovery, pending_released, liable_retained, RecoveredUsage,
  recovered_budgets, recovered_dimensions, earlier, internal_reservation_budget_keys,
}
use mcp_usage_control.Memory.Action.{Action, lift, ◌>>=◌, ◌>>◌}

abbrev pub used_at : String → JsMap ℕ → ℕ
used_at k used = get_or (get k used) 0

-- `Math.max(0, used - units)`; an entry that reaches zero is removed.
unfoldable pub release_budget : String → ℕ → JsMap ℕ → JsMap ℕ
release_budget key units used =
    if eqb (used_at key used - units) 0
    then delete key used
    else set key (used_at key used - units) used

unfoldable pub release_across_budgets : List String → ℕ → JsMap ℕ → JsMap ℕ
release_across_budgets [] units used = used
release_across_budgets (key ∷ keys) units used =
    release_across_budgets keys units (release_budget key units used)

unfoldable pub release_dimensions : List VectorReservationDimension → JsMap ℕ → JsMap ℕ
release_dimensions [] used = used
release_dimensions (d ∷ ds) used =
    release_dimensions ds (release_across_budgets d.budget_keys d.reserved_units used)

unfoldable pub release_mode : Mode → JsMap ℕ → JsMap ℕ
release_mode (scalar p) used = release_across_budgets p.budget_keys p.reserved_units used
release_mode (vector p) used = release_dimensions p.dimensions used

recovered_usage : InternalReservation → RecoveredUsage
unfolding internal_reservation_budget_keys
recovered_usage r = elim r.mode [
  | scalar p ↦ recovered_budgets p.budget_keys p.reserved_units
  | vector p ↦
      recovered_dimensions (length p.dimensions) (length (internal_reservation_budget_keys r))
]

unfoldable pub recovery_event : ℕ → Recovery → InternalReservation → RecoveryEvent
unfolding recovered_usage
recovery_event now recovery r = record {
  timestamp = now;
  recovery = recovery;
  reservation_id = r.id;
  principal_id = r.principal_id;
  tenant_id = r.tenant_id;
  tool = r.tool;
  usage = recovered_usage r;
}

-- What is known to be used once the outcome of the work is not: everything.
abbrev pub retain_usage : Mode → Mode
retain_usage (scalar p) = scalar (record p { actual_units = some p.reserved_units })
retain_usage (vector p) = vector (record p {
  actual_by_dimension =
      some (map (λ d. record { key = d.key; actual_units = d.reserved_units }) p.dimensions);
})

abbrev pub expired_outcome : String
expired_outcome = "lease_expired_after_execution_started"

-- What the pass changes besides the reservations.
pub record Sweep : Type 0 where
  pub used : JsMap ℕ
  pub operations : JsMap String
  pub next_recovery_at : Option ℕ
  pub emitted : List RecoveryEvent

pub data Visit : Type 0 where
  kept : InternalReservation → Sweep → Visit
  dropped : Sweep → Visit
  stopped : Failure → InternalReservation → Sweep → Visit

abbrev pub keep_until : ℕ → InternalReservation → Sweep → Visit
keep_until at r w = kept r (record w { next_recovery_at = earlier w.next_recovery_at at })

-- A liable reservation that expired is settled with all of its units; the failure is that of
-- `safeAdd`, after two fields have been written.
unfoldable pub settle_expired : ℕ → Result ℕ → InternalReservation → Sweep → Visit
settle_expired now (throw e) r w =
    stopped e (record r { state = settled; outcome = some expired_outcome }) w
settle_expired now (ok tombstone) r w =
    kept
      (record r {
        state = settled;
        outcome = some expired_outcome;
        tombstone_expires_at = some tombstone;
        mode = retain_usage r.mode;
      })
      (record w {
        next_recovery_at = earlier w.next_recovery_at tombstone;
        emitted = recovery_event now liable_retained r ∷ w.emitted;
      })

-- The body of the loop, by the state of the reservation.
unfoldable pub visit_in : ReservationState → ℕ → ℕ → InternalReservation → Sweep → Visit
visit_in settled now ttl r w = elim r.tombstone_expires_at [
  | none ↦ kept r w
  | some at ↦
      if leb at now
      then dropped (record w { operations = delete r.operation_key w.operations })
      else keep_until at r w
]
visit_in pending now ttl r w =
    if ltb now r.expires_at
    then keep_until r.expires_at r w
    else dropped (record w {
      used = release_mode r.mode w.used;
      operations = delete r.operation_key w.operations;
      emitted = recovery_event now pending_released r ∷ w.emitted;
    })
visit_in liable now ttl r w =
    if ltb now r.expires_at
    then keep_until r.expires_at r w
    else settle_expired now (safe_add now ttl) r w

-- The result of the pass: how it ended, the reservations left, and the rest of the state.
abbrev pub Swept : Type 0
Swept = Result (Unit {0}) × JsMap InternalReservation × Sweep

abbrev pub keep_entry : String → InternalReservation → Swept → Swept
keep_entry id r (done, rest, w) = (done, (id, r) ∷ rest, w)

-- What a visit leaves of its entry, before what the pass makes of the rest.
unfoldable pub after_visit : String → JsMap InternalReservation → (Sweep → Swept) → Visit → Swept
after_visit id rest pass (kept r w) = keep_entry id r (pass w)
after_visit id rest pass (dropped w) = pass w
after_visit id rest pass (stopped e r w) = (throw e, (id, r) ∷ rest, w)

unfoldable pub sweep_entries : ℕ → ℕ → JsMap InternalReservation → Sweep → Swept
unfolding visit_in after_visit
sweep_entries now ttl [] w = (ok tt, [], w)
sweep_entries now ttl ((id, r) ∷ rest) w =
    after_visit id rest (sweep_entries now ttl rest) (visit_in r.state now ttl r w)

abbrev pub is_liable : ReservationState → Bool
is_liable pending = false
is_liable liable = true
is_liable settled = false

-- The first loop: every tombstone that the pass will need is a safe integer.
unfoldable pub preflight : ℕ → ℕ → JsMap InternalReservation → Result (Unit {0})
preflight now ttl [] = ok tt
preflight now ttl ((id, r) ∷ rest) =
    if is_liable r.state && leb r.expires_at now
    then elim (safe_add now ttl) [ ok _ ↦ preflight now ttl rest | throw e ↦ throw e ]
    else preflight now ttl rest

abbrev pub swept_store : MemoryUsageStore → Swept → Result (Unit {0}) × MemoryUsageStore
swept_store s (ok _, rest, w) = (
  ok tt,
  record s {
    used = w.used;
    reservations = rest;
    operations = w.operations;
    next_recovery_at = w.next_recovery_at;
    emitted = w.emitted;
  },
)
swept_store s (throw e, rest, w) = (
  throw e,
  record s { used = w.used; reservations = rest; operations = w.operations; emitted = w.emitted },
)

abbrev pub sweep_start : MemoryUsageStore → Sweep
sweep_start s = record {
  used = s.used;
  operations = s.operations;
  next_recovery_at = none;
  emitted = s.emitted;
}

-- Both loops, without the test that skips them.
unfoldable pub recover_all : ℕ → Action (Unit {0})
recover_all now s = elim (preflight now s.idempotency_ttl_ms s.reservations) [
  | throw e ↦ (throw e, s)
  | ok _ ↦ swept_store s (sweep_entries now s.idempotency_ttl_ms s.reservations (sweep_start s))
]

-- `!(now < this.nextRecoveryAt)`.
abbrev pub is_due : ℕ → Option ℕ → Bool
is_due now none = false
is_due now (some at) = leb at now

unfoldable pub recover_expired : ℕ → Action (Unit {0})
recover_expired now s = if is_due now s.next_recovery_at then recover_all now s else (ok tt, s)

-- The shape of the methods: the checks of the input, the recovery, and the method's own work.
unfoldable pub after_recovery : {A B : Type 0} → ℕ → Result A → (A → Action B) → Action B
after_recovery now checked body = do input ← lift checked; recover_expired now; body input
