-- ===== src/Engine/Trigger.antt =====
-- engine/events.py: `Trigger` and `_Debouncer`, a condition on one attribute that must hold for a while.
use kpcl_hardware.Common.{
  ℕ, ◌+◌, Bool, true, false, not, ◌||◌, Option, none, some, leb, ◌==◌, if◌then◌else◌,
}
use kpcl_hardware.Common.Int.{ℤ, leb_ℤ, ltb_ℤ, eqb_ℤ}
use kpcl_hardware.Common.Dict.{get_or}

pub data Comparison : Type 0 where
  gt ge lt le eq ne : Comparison

-- `_COMPARISONS`
unfoldable pub compare_values : Comparison → ℤ → ℤ → Bool
compare_values gt a b = ltb_ℤ b a
compare_values ge a b = leb_ℤ b a
compare_values lt a b = ltb_ℤ a b
compare_values le a b = leb_ℤ a b
compare_values eq a b = eqb_ℤ a b
compare_values ne a b = not (eqb_ℤ a b)

pub record Trigger : Type 0 where
  pub attribute : ℕ
  pub comparison : Comparison
  pub threshold : ℤ
  pub debounce : ℕ

unfoldable pub satisfied_by : Trigger → Option ℤ → Bool
unfolding compare_values
satisfied_by t none = false
satisfied_by t (some v) = compare_values t.comparison v t.threshold

-- `_Debouncer`
pub record Debouncer : Type 0 where
  pub trigger : Trigger
  pub require_edge : Bool
  pub true_since : Option ℕ
  pub seen_false : Bool
  pub fired : Bool

unfoldable pub new_debouncer : Trigger → Bool → Debouncer
new_debouncer trigger require_edge = record {
  trigger = trigger;
  require_edge = require_edge;
  true_since = none;
  seen_false = not require_edge;
  fired = false;
}

-- A quality is `none` for the code's -1, nothing received yet.
abbrev pub is_good_quality : Option ℕ → Bool
is_good_quality none = false
is_good_quality (some q) = q == 0

-- `feed` once the condition holds on a Good sample and a transition is allowed.
unfoldable pub confirm : Debouncer → ℕ → ℕ → Debouncer × Option ℕ
confirm d since ts =
    if leb (since + d.trigger.debounce) ts
    then (record d { true_since = some since; fired = true }, some since)
    else (record d { true_since = some since }, none)

-- `_Debouncer.feed`
unfoldable pub feed : Debouncer → ℕ → Option ℤ → Option ℕ → Debouncer × Option ℕ
unfolding satisfied_by confirm
feed d ts value quality =
    if d.fired
    then (d, none)
    else if not (is_good_quality quality) || not (satisfied_by d.trigger value)
    then (
      record d {
        seen_false = if is_good_quality quality then true else d.seen_false;
        true_since = none;
      },
      none,
    )
    else if not d.seen_false
    then (d, none)
    else confirm d (get_or d.true_since ts) ts

-- `_Debouncer.reset`
unfoldable pub reset_debouncer : Debouncer → Debouncer
reset_debouncer d = record d { true_since = none; seen_false = not d.require_edge; fired = false }
