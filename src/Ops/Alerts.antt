-- ===== src/Ops/Alerts.antt =====
-- ops/alerts.py: whether a rule is in alarm, and the life of its alert. The rows that the queries of
-- `evaluate` return are an argument; values and thresholds are integers in units of 10⁻¹², times are
-- microseconds, and texts are left out.
pub mod Firing
pub mod Life
use kpcl_hardware.Common.{
  ℕ, ◌+◌, ◌-◌, ◌*◌, ◌/◌, ◌%◌, Bool, true, false, not, ◌&&◌, Option, none, some, List, [], ◌∷◌, ◌++◌,
  ltb, leb, ◌==◌, if◌then◌else◌, length, keep_if, all_of, any_of, last?,
}
use kpcl_hardware.Common.Int.{ℤ, pos, leb_ℤ, ltb_ℤ, eqb_ℤ}
use kpcl_hardware.Engine.Events
use kpcl_hardware.Engine.Events.{Comparison, compare_values}

pub data Condition : Type 0 where
  bad uncertain stale unknown : Condition
  compared : Comparison → Condition

-- The outcome of `evaluate`: (firing, value, quality).
pub record Verdict : Type 0 where
  pub firing : Bool
  pub value : Option ℤ
  pub quality : Option ℕ

abbrev pub quiet : Option ℤ → Option ℕ → Verdict
quiet value quality = record { firing = false; value = value; quality = quality }

abbrev pub fires : Option ℤ → Option ℕ → Verdict
fires value quality = record { firing = true; value = value; quality = quality }

-- `_severity`
unfoldable pub severity : Option ℕ → ℕ
severity none = 0
severity (some code) = (code / 1_073_741_824) % 4

-- A row of `sample`, as the query on a tag returns it.
pub record SampleRow : Type 0 where
  pub value : Option ℤ
  pub quality : ℕ
  pub ts : ℕ

pub record Rule : Type 0 where
  pub id : ℕ
  pub condition : Condition
  pub threshold : Option ℤ
  pub for_time : ℕ

-- `max(rule.for_seconds, 1)`, in microseconds
unfoldable pub window_of : Rule → ℕ
window_of rule = if ltb rule.for_time 1_000_000 then 1_000_000 else rule.for_time

-- `ts >= since`, where `since` is `now` less the window.
unfoldable pub is_inside : ℕ → ℕ → SampleRow → Bool
is_inside now window r = leb now (r.ts + window)

-- The rows of the query: the newest sample before the window, and those in it, of a history in
-- ascending order of time.
unfoldable pub rows_since : ℕ → ℕ → List SampleRow → List SampleRow
unfolding is_inside
rows_since now window history =
    let before = last? (keep_if (λ r. not (is_inside now window r)) history) in
    (elim before [ none ↦ [] | some r ↦ r ∷ [] ]) ++ keep_if (is_inside now window) history

-- The value and the quality of the last row.
unfoldable pub last_value : List SampleRow → Option ℤ
last_value rows = elim (last? rows) [ none ↦ none | some r ↦ r.value ]

unfoldable pub last_quality : List SampleRow → Option ℕ
last_quality rows = elim (last? rows) [ none ↦ none | some r ↦ some r.quality ]

unfoldable pub all_severity : ℕ → List SampleRow → Bool
unfolding severity
all_severity n rows = all_of (λ r. severity (some r.quality) == n) rows

-- Whether a row is one that can trip a threshold.
unfoldable pub is_usable : SampleRow → Bool
is_usable r = r.quality == 0 && (elim r.value [ none ↦ false | some v ↦ true ])

unfoldable pub exceeds : Comparison → ℤ → SampleRow → Bool
unfolding compare_values
exceeds comparison threshold r = elim r.value [
  | none ↦ false
  | some v ↦ compare_values comparison v threshold
]

-- The threshold part of `evaluate` for a tag.
unfoldable pub evaluate_threshold : Comparison → ℤ → List SampleRow → Verdict
unfolding is_usable exceeds last_value
evaluate_threshold comparison threshold rows =
    let good = keep_if is_usable rows in
    if length good == 0
    then quiet none none
    else if ltb (length good) (length rows)
    then quiet none none
    else if all_of (exceeds comparison threshold) good
    then fires (last_value good) (some 0)
    else quiet (last_value good) (some 0)

-- `evaluate` for a tag, once there is a row.
unfoldable pub evaluate_rows : Rule → List SampleRow → Verdict
unfolding all_severity evaluate_threshold last_value last_quality
evaluate_rows rule rows = elim rule.condition [
  | bad ↦ if all_severity 2 rows then fires none (last_quality rows) else quiet none none
  | uncertain ↦
      if all_severity 1 rows then fires (last_value rows) (last_quality rows) else quiet none none
  | stale ↦ quiet none none
  | unknown ↦ quiet none none
  | compared comparison ↦ elim rule.threshold [
    | none ↦ quiet none none
    | some threshold ↦ evaluate_threshold comparison threshold rows
  ]
]

unfoldable pub is_stale_condition : Condition → Bool
is_stale_condition stale = true
is_stale_condition _ = false

-- `evaluate` for a rule on a tag, at `now`.
unfoldable pub evaluate_tag : Rule → ℕ → List SampleRow → Verdict
unfolding window_of is_inside rows_since is_stale_condition last_value last_quality evaluate_rows
evaluate_tag rule now history =
    let rows = rows_since now (window_of rule) history in
    let inside = keep_if (is_inside now (window_of rule)) rows in
    if is_stale_condition rule.condition
    then (if length inside == 0
        then fires none none
        else quiet (last_value inside) (last_quality inside))
    else if length rows == 0
    then quiet none none
    else evaluate_rows rule rows

-- `evaluate` for a rule on a KPI, with the newest computed value. A comparison without a threshold
-- raises in the code: `none`.
unfoldable pub evaluate_kpi : Rule → Option (Option ℤ × ℕ) → Option Verdict
unfolding severity compare_values
evaluate_kpi rule none = some (quiet none none)
evaluate_kpi rule (some (value, quality)) = elim rule.condition [
  | bad ↦ some (
      if severity (some quality) == 2
      then fires none (some quality)
      else quiet value (some quality))
  | uncertain ↦ some (quiet value (some quality))
  | stale ↦ some (quiet value (some quality))
  | unknown ↦ some (quiet value (some quality))
  | compared comparison ↦ elim value [
    | none ↦ some (quiet none (some quality))
    | some v ↦
        if quality == 0
        then elim rule.threshold [
          | none ↦ none
          | some threshold ↦ some (
              if compare_values comparison v threshold
              then fires (some v) (some quality)
              else quiet (some v) (some quality))
        ]
        else some (quiet (some v) (some quality))
  ]
]

-- `evaluate` for a rule on a capacity metric, with its newest sample.
unfoldable pub evaluate_capacity : Rule → Option ℤ → Verdict
unfolding compare_values
evaluate_capacity rule none = quiet none none
evaluate_capacity rule (some v) = elim rule.threshold [
  | none ↦ quiet none none
  | some threshold ↦ elim rule.condition [
    | bad ↦ quiet (some v) (some 0)
    | uncertain ↦ quiet (some v) (some 0)
    | stale ↦ quiet (some v) (some 0)
    | unknown ↦ quiet (some v) (some 0)
    | compared comparison ↦
        if compare_values comparison v threshold
        then fires (some v) (some 0)
        else quiet (some v) (some 0)
  ]
]

-- The condition is `>`.
unfoldable pub is_over : Condition → Bool
is_over (compared Events.gt) = true
is_over (compared Events.ge) = false
is_over (compared Events.lt) = false
is_over (compared Events.le) = false
is_over (compared Events.eq) = false
is_over (compared Events.ne) = false
is_over bad = false
is_over uncertain = false
is_over stale = false
is_over unknown = false

unfoldable pub is_above : Option ℤ → ℤ → Bool
is_above none level = false
is_above (some threshold) level = ltb_ℤ threshold level

-- `evaluate` for a rule on a collector, with its row: whether it is alive, and its buffer's depth.
unfoldable pub evaluate_collector : Rule → Option (Bool × ℕ) → Verdict
unfolding is_over is_above
evaluate_collector rule none = fires none none
evaluate_collector rule (some (alive, depth)) =
    let level = pos (depth * 1_000_000_000_000) in
    if not alive
    then fires none none
    else if is_over rule.condition && is_above rule.threshold level
    then fires (some level) (some 0)
    else quiet (some level) (some 0)

-- A rule's subject, with what the query on it returns.
pub data Subject : Type 0 where
  on_tag : List SampleRow → Subject
  on_kpi : Option (Option ℤ × ℕ) → Subject
  on_capacity : Option ℤ → Subject
  on_collector : Option (Bool × ℕ) → Subject
  on_other : Subject

-- `evaluate`, at `now`.
unfoldable pub evaluate : Rule → ℕ → Subject → Option Verdict
unfolding evaluate_tag evaluate_kpi evaluate_capacity evaluate_collector
evaluate rule now (on_tag history) = some (evaluate_tag rule now history)
evaluate rule now (on_kpi row) = evaluate_kpi rule row
evaluate rule now (on_capacity row) = some (evaluate_capacity rule row)
evaluate rule now (on_collector row) = some (evaluate_collector rule row)
evaluate rule now on_other = some (quiet none none)

-- A row of `alert`.
pub record Alert : Type 0 where
  pub id : ℕ
  pub rule_id : ℕ
  pub raised_at : ℕ
  pub cleared_at : Option ℕ

pub data Change : Type 0 where
  raised cleared unchanged : Change

unfoldable pub is_open : Alert → Bool
is_open a = elim a.cleared_at [ none ↦ true | some t ↦ false ]

unfoldable pub is_open_for : ℕ → Alert → Bool
unfolding is_open
is_open_for rule_id a = is_open a && a.rule_id == rule_id

-- UPDATE alert SET cleared_at = now() WHERE id = ...
unfoldable pub clear : ℕ → ℕ → Alert → Alert
clear now id a = if a.id == id then record a { cleared_at = some now } else a

unfoldable pub clear_all : ℕ → ℕ → List Alert → List Alert
unfolding clear
clear_all now id [] = []
clear_all now id (a ∷ rest) = clear now id a ∷ clear_all now id rest

-- `raise_or_clear`: the alerts, the next id, and what changed.
unfoldable pub raise_or_clear : ℕ → Rule → Bool → ℕ × List Alert → (ℕ × List Alert) × Change
unfolding is_open_for clear_all
raise_or_clear now rule firing (next, alerts) = elim (keep_if (is_open_for rule.id) alerts) [
  | [] ↦
      if firing
      then (
        (
          next + 1,
          alerts
              ++ record { id = next; rule_id = rule.id; raised_at = now; cleared_at = none } ∷ [],
        ),
        raised,
      )
      else ((next, alerts), unchanged)
  | a ∷ _ ↦
      if firing then ((next, alerts), unchanged) else ((next, clear_all now a.id alerts), cleared)
]
