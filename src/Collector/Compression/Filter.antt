-- ===== src/Collector/Compression/Filter.antt =====
-- Stage one of collector/compression.py: the reasons, `_forced_reason` and `ExceptionFilter`.
use kpcl_hardware.Common.{
  ℕ, ◌+◌, ◌*◌, Bool, true, false, not, ◌&&◌, Option, none, some, List, [], ◌∷◌, ◌++◌, ltb, leb,
  ◌==◌, if◌then◌else◌,
}
use kpcl_hardware.Common.Int.{ℤ, ◌-ℤ◌, abs}
use kpcl_hardware.Collector.Model.{Sample}

pub data Reason : Type 0 where
  by_exception by_swinging_door by_quality_change by_timestamp : Reason
  by_non_numeric by_max_time by_first by_flush : Reason

-- Membership in FORCED_REASONS.
unfoldable pub is_forced : Reason → Bool
is_forced by_quality_change = true
is_forced by_timestamp = true
is_forced by_non_numeric = true
is_forced by_max_time = true
is_forced _ = false

abbrev pub is_none {ℓ} : {A : Type ℓ} → Option A → Bool
is_none none = true
is_none (some a) = false

unfoldable pub forced_reason : Sample → Option Sample → Option Reason
forced_reason sample none = none
forced_reason sample (some previous) =
    if not (sample.quality == previous.quality)
    then some by_quality_change
    else if leb sample.source_ts previous.source_ts
    then some by_timestamp
    else if is_none sample.value
    then some by_non_numeric
    else none

-- `timedelta(milliseconds=max_time_ms) if max_time_ms else None`, in microseconds.
unfoldable pub max_time_of : Option ℕ → Option ℕ
max_time_of none = none
max_time_of (some ms) = if ms == 0 then none else some (ms * 1000)

-- `sample.source_ts - since.source_ts >= max_time`, where there is a max_time.
unfoldable pub max_time_elapsed : Option ℕ → Sample → Sample → Bool
max_time_elapsed none since sample = false
max_time_elapsed (some m) since sample = leb (since.source_ts + m) sample.source_ts

-- The reason that both stages force a sample by: `since` is the last reported sample in stage one,
-- the anchor in stage two.
unfoldable pub forced_since : Option ℕ → Sample → Sample → Option Sample → Option Reason
unfolding max_time_elapsed forced_reason
forced_since max_time since sample previous = elim (forced_reason sample previous) [
  | some r ↦ some r
  | none ↦ if max_time_elapsed max_time since sample then some by_max_time else none
]

-- `abs(a - b) <= dev`, where both values and the deviation are there.
unfoldable pub inside_deadband : Option ℕ → Option ℤ → Option ℤ → Bool
unfolding ◌-ℤ◌
inside_deadband (some dev) (some a) (some b) = leb (abs (a -ℤ b)) dev
inside_deadband _ _ _ = false

pub record ExceptionFilter : Type 0 where
  pub exc_dev : Option ℕ
  pub max_time : Option ℕ
  pub last_reported : Option Sample
  pub held : Option Sample
  pub previous : Option Sample

unfoldable pub new_filter : Option ℕ → Option ℕ → ExceptionFilter
unfolding max_time_of
new_filter exc_dev max_time_ms = record {
  exc_dev = exc_dev;
  max_time = max_time_of max_time_ms;
  last_reported = none;
  held = none;
  previous = none;
}

-- What comes out before a breakout: the held sample, if it is older.
unfoldable pub held_before : Option Sample → Sample → List (Sample × Reason)
held_before none sample = []
held_before (some h) sample =
    if ltb h.source_ts sample.source_ts then (h, by_exception) ∷ [] else []

abbrev pub or_else {ℓ} : {A : Type ℓ} → Option A → A → A
or_else none d = d
or_else (some a) d = a

-- `push` once there is a last reported sample.
unfoldable pub report_or_hold :
    ExceptionFilter → Sample → Sample → Option Reason → ExceptionFilter × List (Sample × Reason)
unfolding inside_deadband held_before
report_or_hold f last sample forced =
    if is_none forced && inside_deadband f.exc_dev sample.value last.value
    then (record f { held = some sample }, [])
    else (
      record f { held = none; last_reported = some sample },
      held_before f.held sample ++ (sample, or_else forced by_exception) ∷ [],
    )

-- `ExceptionFilter.push`
unfoldable pub filter_push : ExceptionFilter → Sample → ExceptionFilter × List (Sample × Reason)
unfolding report_or_hold forced_since
filter_push f sample =
    let g : ExceptionFilter = record f { previous = some sample } in
    elim f.last_reported [
      | none ↦ (record g { last_reported = some sample; held = none }, (sample, by_first) ∷ [])
      | some last ↦ report_or_hold g last sample (forced_since f.max_time last sample f.previous)
    ]

-- `ExceptionFilter.release_held`
unfoldable pub release_held : ExceptionFilter → ExceptionFilter × Option Sample
release_held f = (record f { held = none }, f.held)
