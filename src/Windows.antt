-- ===== src/Windows.antt =====
-- Windowed budget keys of packages/core/src/windowed-budget-keys.ts. The calendar (`Intl`) and
-- `encodeURIComponent` are parameters. An instant is counted in milliseconds from the earliest
-- `Date`, so that all instants of a `Date` are natural numbers up to `last_instant`.
pub mod Search
pub mod Exact
pub mod Key
use Prim.Native.String
use mcp_usage_control.Base.{
  ℕ, suc, zero, ◌+◌, ◌-◌, ◌/◌, Bool, true, false, List, [], ◌∷◌, String, ◌==◌, Option, none, some,
  eqb, ltb, leb, len, ◌||◌, not, Result, ok, throw, throw_if, range_error, type_error, ◌>>=◌, ◌>>◌,
  if◌then◌else◌,
}
use mcp_usage_control.WeightedCredits.{trims_to_nothing}

pub data AccountingWindowPeriod : Type 0 where
  calendar_day calendar_month : AccountingWindowPeriod

-- A part that `formatToParts` returns.
pub record Part : Type 0 where
  pub type : String
  pub value : String

abbrev pub Formatter : Type 0
Formatter = ℕ → List Part

-- A whole instant, one that is not finite or out of the range of `Date`, or no instant at all.
pub data AccountingWindowInstant : Type 0 where
  at : ℕ → AccountingWindowInstant
  invalid no_instant : AccountingWindowInstant

abbrev pub last_instant : ℕ
last_instant = 17280000000000000

abbrev pub day_search_span_ms : ℕ
day_search_span_ms = 259200000

abbrev pub month_search_span_ms : ℕ
month_search_span_ms = 3456000000

pub record DateParts : Type 0 where
  pub year : Option String
  pub month : Option String
  pub day : Option String

-- The loop over the parts: the last of a kind counts.
unfoldable pub read_parts : List Part → DateParts → DateParts
read_parts [] found = found
read_parts (part ∷ rest) found = read_parts rest (
    if part.type == "year"
    then record found { year = some part.value }
    else if part.type == "month"
    then record found { month = some part.value }
    else if part.type == "day"
    then record found { day = some part.value }
    else found)

infixr 60 ◌and◌
abbrev pub ◌and◌ : String → String → String
s and t = String.◌++◌ s t

abbrev window_id : AccountingWindowPeriod → String → String → String → String
window_id calendar_day year month day = year and "-" and month and "-" and day
window_id calendar_month year month day = year and "-" and month

abbrev complete :
    AccountingWindowPeriod → Option String → Option String → Option String → Result String
complete period (some year) (some month) (some day) = ok (window_id period year month day)
complete period (some year) (some month) none = throw range_error
complete period (some year) none day = throw range_error
complete period none month day = throw range_error

unfoldable pub format_window_id : Formatter → ℕ → AccountingWindowPeriod → Result String
unfolding read_parts
format_window_id formatter date period =
    let found = read_parts (formatter date) (record { year = none; month = none; day = none }) in
    complete period found.year found.month found.day

-- Whether an instant lies in the current window.
abbrev pub in_window : Formatter → AccountingWindowPeriod → String → ℕ → Result Bool
in_window formatter period current t =
    format_window_id formatter t period >>= λ id. ok (id == current)

pub data Direction : Type 0 where
  backward forward : Direction

abbrev midpoint : ℕ → ℕ → ℕ
midpoint low high = low + (high - low) / 2

-- The two loops, on fuel: `none` is a search that was cut short. Backward, the instants of the
-- window are the upper ones, forward they are the lower ones.
unfoldable pub search : (ℕ → Result Bool) → Direction → ℕ → ℕ → ℕ → Option (Result ℕ)
search inside direction zero low high = if ltb (low + 1) high then none else some (ok high)
search inside backward (suc fuel) low high =
    if ltb (low + 1) high
    then elim (inside (midpoint low high)) [
      | throw e ↦ some (throw e)
      | ok here ↦
          search inside backward fuel (if here then low else midpoint low high)
            (if here then midpoint low high else high)
    ]
    else some (ok high)
search inside forward (suc fuel) low high =
    if ltb (low + 1) high
    then elim (inside (midpoint low high)) [
      | throw e ↦ some (throw e)
      | ok here ↦
          search inside forward fuel (if here then midpoint low high else low)
            (if here then high else midpoint low high)
    ]
    else some (ok high)

-- `timestamp + direction * searchSpanMs`, if it is the instant of a `Date`.
abbrev outside_of : Direction → ℕ → ℕ → Option ℕ
outside_of backward timestamp span = if ltb timestamp span then none else some (timestamp - span)
outside_of forward timestamp span =
    if ltb last_instant (timestamp + span) then none else some (timestamp + span)

abbrev search_from : (ℕ → Result Bool) → Direction → ℕ → ℕ → ℕ → Option (Result ℕ)
search_from inside backward outside timestamp span = search inside backward span outside timestamp
search_from inside forward outside timestamp span = search inside forward span timestamp outside

unfoldable pub find_window_boundary :
    Formatter → AccountingWindowPeriod → String → ℕ → Direction → ℕ → Option (Result ℕ)
unfolding search
find_window_boundary formatter period current timestamp direction span =
    elim (outside_of direction timestamp span) [
      | none ↦ some (throw range_error)
      | some outside ↦ elim (in_window formatter period current outside) [
        | throw e ↦ some (throw e)
        | ok true ↦ some (throw range_error)
        | ok false ↦
            search_from (in_window formatter period current) direction outside timestamp span
      ]
    ]

unfoldable pub to_valid_date : AccountingWindowInstant → Result ℕ
to_valid_date (at t) = if leb t last_instant then ok t else throw range_error
to_valid_date invalid = throw range_error
to_valid_date no_instant = throw type_error
