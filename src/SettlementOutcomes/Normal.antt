-- ===== src/SettlementOutcomes/Normal.antt =====
-- What normalisation of a settlement outcome answers, and what it does with the sink.
use mcp_usage_control.Base.{
  ◌≡◌, ◌≤◌, ◌<◌, ◌⊎◌, ◌≢◌, ◌∙◌, ap, sym, subst, false, refl, arith, inl, inr, Bool-cases, true,
  String, Option, none, some, Result, ok, throw, includes, eqb, ltb, ◌||◌,
}
use mcp_usage_control.JsMap.{get}
use mcp_usage_control.Value.{
  Value, undefined, null, boolean, number, text, array, object, cast_text,
}
use mcp_usage_control.Client.Quotes.{utf16_length}
use mcp_usage_control.SettlementOutcomes.{
  SettlementOutcomeAliases, SettlementOutcomeDiagnosticSink, canonical_settlement_outcomes,
  is_canonical_settlement_outcome, reject_invalid_settlement_outcome, after_diagnostics, look_up,
  normalize_settlement_outcome, accept_alias, invalid_settlement_outcome,
}

-- The world after a refusal: the sink, if there is one, is called once, whether it throws or not.
abbrev pub notified : {S : Type 0} → Option (SettlementOutcomeDiagnosticSink S) → S → S
notified none w = w
notified (some sink) w = (sink w).1

-- A text of 1 to 128 units of UTF-16 for which the aliases give an outcome.
abbrev pub IsAlias : SettlementOutcomeAliases → Value → String → Type 0
IsAlias aliases value outcome =
    (s : String) × (value ≡ text s)
    × (0 < utf16_length s)
    × (utf16_length s ≤ 128)
    × (get s aliases ≡ some (text outcome))

-- A canonical outcome is the outcome of its own text, and of its aliases that are not canonical.
abbrev pub IsOutcome : SettlementOutcomeAliases → Value → String → Type 0
IsOutcome aliases value outcome =
    (includes outcome canonical_settlement_outcomes ≡ true)
    × ((value ≡ text outcome)
        ⊎ ((is_canonical_settlement_outcome value ≡ false) × IsAlias aliases value outcome))

is_canonical-text :
    (v : Value)
    → is_canonical_settlement_outcome v ≡ true
    → (v ≡ text (cast_text v)) × (includes (cast_text v) canonical_settlement_outcomes ≡ true)
unfolding is_canonical_settlement_outcome
is_canonical-text (text s) h = (refl, h)
is_canonical-text undefined h = cc
is_canonical-text null h = cc
is_canonical-text (boolean b) h = cc
is_canonical-text (number n) h = cc
is_canonical-text (array vs) h = cc
is_canonical-text (object fields) h = cc

module _ {S : Type 0} (aliases : SettlementOutcomeAliases)
    (diagnostics : Option (SettlementOutcomeDiagnosticSink S)) (w : S) where
  abbrev pub IsNormal : Value → Result String × S → Type 0
  IsNormal value (ok s, after) = IsOutcome aliases value s × (after ≡ w)
  IsNormal value (throw e, after) =
      (e ≡ invalid_settlement_outcome)
      × (¬ ((s : String) × IsOutcome aliases value s))
      × (after ≡ notified diagnostics w)

module _ {S : Type 0} (aliases : SettlementOutcomeAliases) (w : S) (value : Value)
    (none_fits : ¬ ((s : String) × IsOutcome aliases value s)) where
  rejected-IsNormal :
      (diagnostics : Option (SettlementOutcomeDiagnosticSink S))
      → IsNormal aliases diagnostics w value (reject_invalid_settlement_outcome diagnostics w)
  unfolding reject_invalid_settlement_outcome
  rejected-IsNormal none = (refl, none_fits, refl)
  rejected-IsNormal (some sink) = after (sink w) refl
    where
      after :
          (x : Result (Unit {0}) × S)
          → x.1 ≡ (sink w).1
          → IsNormal aliases (some sink) w value (after_diagnostics x)
      after (ok _, done) same = (refl, none_fits, same)
      after (throw e, done) same = (refl, none_fits, same)

outcome-text :
    (aliases : SettlementOutcomeAliases) (value : Value)
    → (s : String) × IsOutcome aliases value s
    → (t : String) × (value ≡ text t)
outcome-text aliases value (s, (_, inl own)) = (s, own)
outcome-text aliases value (s, (_, inr (_, (t, same, _, _, _)))) = (t, same)

-- What an outcome of a text that is not canonical rests on.
alias-text :
    (aliases : SettlementOutcomeAliases) (t : String)
    → is_canonical_settlement_outcome (text t) ≡ false
    → (outcome : (s : String) × IsOutcome aliases (text t) s)
    → (0 < utf16_length t)
      × (utf16_length t ≤ 128)
      × (get t aliases ≡ some (text outcome.0))
      × (is_canonical_settlement_outcome (text outcome.0) ≡ true)
unfolding is_canonical_settlement_outcome
alias-text aliases t other (s, (known, inl own)) =
    let same : t ≡ s = cc in
    absurd (
      let z : true ≡ false =
        sym (subst (λ x. includes x canonical_settlement_outcomes ≡ true) (sym same) known)
        ∙ other in
      cc)
alias-text aliases t other (s, (known, inr (_, (u, e, low, high, found)))) =
    let same : u ≡ t = cc in
    let (l, h, f) =
      subst (λ x. (0 < utf16_length x) × (utf16_length x ≤ 128) × (get x aliases ≡ some (text s)))
        same (low, high, found) in
    (l, h, f, known)

module _ {S : Type 0} (aliases : SettlementOutcomeAliases)
    (diagnostics : Option (SettlementOutcomeDiagnosticSink S)) (w : S) where
  accept_alias-IsNormal :
      (s : String) (found : Option Value)
      → is_canonical_settlement_outcome (text s) ≡ false
      → 0 < utf16_length s
      → utf16_length s ≤ 128
      → get s aliases ≡ found
      → IsNormal aliases diagnostics w (text s) (accept_alias found diagnostics w)
  unfolding accept_alias
  accept_alias-IsNormal s none other low high e =
      rejected-IsNormal aliases w (text s)
        (λ outcome. let (_, _, f, _) = alias-text aliases s other outcome in cc) diagnostics
  accept_alias-IsNormal s (some v) other low high e =
      elim (Bool-cases (is_canonical_settlement_outcome v)) [
        | inl fits ↦
            (let (same, known) = is_canonical-text v fits in
              rw fits ((known, inr (other, (s, refl, low, high, e ∙ ap some same))), refl))
        | inr unfit ↦ rw unfit (
            rejected-IsNormal aliases w (text s)
              (λ outcome.
                let (_, _, f, known) = alias-text aliases s other outcome in
                let same : v ≡ text outcome.0 = cc in
                let z = subst (λ x. is_canonical_settlement_outcome x ≡ false) same unfit in cc)
              diagnostics)
      ]

  -- A value that is no text has no outcome.
  not_text-IsNormal :
      (value : Value)
      → ((t : String) → value ≢ text t)
      → IsNormal aliases diagnostics w value (reject_invalid_settlement_outcome diagnostics w)
  not_text-IsNormal value no_text =
      rejected-IsNormal aliases w value
        (λ outcome. let (t, e) = outcome-text aliases value outcome in no_text t e) diagnostics

  look_up-IsNormal :
      (value : Value)
      → is_canonical_settlement_outcome value ≡ false
      → IsNormal aliases diagnostics w value (look_up value aliases diagnostics w)
  unfolding look_up
  look_up-IsNormal (text s) other =
      elim (Bool-cases (eqb (utf16_length s) 0 || ltb 128 (utf16_length s))) [
        | inl out ↦ rw out (
            rejected-IsNormal aliases w (text s)
              (λ outcome.
                let (low, high, _, _) = alias-text aliases s other outcome in ground arith)
              diagnostics)
        | inr bounded ↦
            rw bounded
              (accept_alias-IsNormal s (get s aliases) other (ground arith) (ground arith) refl)
      ]
  look_up-IsNormal undefined other = not_text-IsNormal undefined (λ t e. cc)
  look_up-IsNormal null other = not_text-IsNormal null (λ t e. cc)
  look_up-IsNormal (boolean b) other = not_text-IsNormal (boolean b) (λ t e. cc)
  look_up-IsNormal (number n) other = not_text-IsNormal (number n) (λ t e. cc)
  look_up-IsNormal (array vs) other = not_text-IsNormal (array vs) (λ t e. cc)
  look_up-IsNormal (object fields) other = not_text-IsNormal (object fields) (λ t e. cc)

  -- Whatever the value, the aliases, even aliases outside the vocabulary, and the sink: an answer
  -- is a canonical outcome, the value's own text or else the one that the aliases give for it, and
  -- the world is as before. A refusal is the one error of the module, comes only where there is no
  -- such outcome, and calls the sink exactly once if there is one, whether the sink throws or not.
  pub normalize_settlement_outcome-IsNormal :
      (value : Value)
      → IsNormal aliases diagnostics w value
          (normalize_settlement_outcome value aliases diagnostics w)
  unfolding normalize_settlement_outcome
  normalize_settlement_outcome-IsNormal value =
      elim (Bool-cases (is_canonical_settlement_outcome value)) [
        | inl own ↦
            (let (same, known) = is_canonical-text value own in rw own ((known, inl same), refl))
        | inr other ↦ rw other (look_up-IsNormal value other)
      ]
