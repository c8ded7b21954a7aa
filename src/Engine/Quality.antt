-- ===== src/Engine/Quality.antt =====
-- engine/quality.py: the rules that judge a tag's recent history, and its health. Values, limits and
-- tolerances are integers in units of 10⁻¹², times are microseconds; a quotient in a comparison is
-- multiplied out. Texts of reasons are left out. What the queries return is an argument.
pub mod Evaluate
pub mod Worst
pub mod Still
use Prim.Native.String.{String}
use kpcl_hardware.Common.{
  ℕ, ◌+◌, ◌-◌, ◌*◌, ◌/◌, ◌%◌, Bool, true, false, not, ◌&&◌, ◌||◌, Option, none, some, List, [], ◌∷◌,
  ◌++◌, map, ltb, leb, ◌==◌, if◌then◌else◌, length, keep_if, any_of, last?,
}
use kpcl_hardware.Common.Int.{ℤ, pos, ◌-ℤ◌, ◌*ℤ◌, leb_ℤ, ltb_ℤ, eqb_ℤ, abs}

-- The status codes that asyncua names.
pub record StatusCodes : Type 0 where
  pub out_of_range : ℕ
  pub rate_exceeded : ℕ
  pub inconsistent : ℕ
  pub frozen : ℕ
  pub stale : ℕ
  pub good : ℕ

unfoldable pub severity : ℕ → ℕ
severity code = (code / 1_073_741_824) % 4

pub data RuleType : Type 0 where
  range rate_of_change cross_tag frozen_rule stale_rule : RuleType

pub record Flag : Type 0 where
  pub source_ts : ℕ
  pub rule_type : RuleType
  pub computed_quality : ℕ

pub record Health : Type 0 where
  pub last_source_ts : Option ℕ
  pub is_bad : Bool
  pub is_stale : Bool
  pub is_frozen : Bool
  pub is_missing : Bool
  pub is_out_of_range : Bool
  pub is_comm_failed : Bool
  pub source_quality : Option ℕ
  pub computed_quality : ℕ

pub data State : Type 0 where
  missing comm_failed bad stale_state frozen_state out_of_range_state ok : State

-- `worst_state`
unfoldable pub worst_state : Health → State
worst_state h =
    if h.is_missing
    then missing
    else if h.is_comm_failed
    then comm_failed
    else if h.is_bad
    then bad
    else if h.is_stale
    then stale_state
    else if h.is_frozen
    then frozen_state
    else if h.is_out_of_range
    then out_of_range_state
    else ok

unfoldable pub below : ℤ → Option ℤ → Bool
below v none = false
below v (some low) = ltb_ℤ v low

unfoldable pub above : ℤ → Option ℤ → Bool
above v none = false
above v (some high) = ltb_ℤ high v

module _ (codes : StatusCodes) where
  -- `check_range`
  unfoldable pub check_range : Option ℤ → Option ℤ → Option ℤ → Option ℕ
  unfolding below above
  check_range none low high = none
  check_range (some v) low high =
      if below v low
      then some codes.out_of_range
      else if above v high
      then some codes.out_of_range
      else none

  -- `check_rate_of_change`, over `elapsed` microseconds
  unfoldable pub check_rate_of_change : Option ℤ → Option ℤ → ℕ → ℤ → Option ℕ
  unfolding ◌-ℤ◌ ◌*ℤ◌
  check_rate_of_change (some v) (some previous) elapsed max_per_second =
      if elapsed == 0
      then none
      else if ltb_ℤ (max_per_second *ℤ pos elapsed) (pos (abs (v -ℤ previous) * 1_000_000))
      then some codes.rate_exceeded
      else none
  check_rate_of_change _ _ elapsed max_per_second = none

  -- `check_cross_tag`
  unfoldable pub check_cross_tag : Option ℤ → Option ℤ → ℤ → ℤ → Option ℕ
  unfolding ◌-ℤ◌ ◌*ℤ◌
  check_cross_tag (some v) (some other) ratio tolerance =
      let expected = other *ℤ ratio in
      let deviation = abs ((v *ℤ pos 1_000_000_000_000) -ℤ expected) in
      if eqb_ℤ expected (pos 0)
      then none
      else if ltb_ℤ (tolerance *ℤ pos (abs expected)) (pos (deviation * 1_000_000_000_000))
      then some codes.inconsistent
      else none
  check_cross_tag _ _ ratio tolerance = none

-- A row of the tag's history.
pub record HistoryRow : Type 0 where
  pub ts : ℕ
  pub value : Option ℤ
  pub quality : ℕ

-- The values that are there.
unfoldable pub present : List (Option ℤ) → List ℤ
present [] = []
present (none ∷ vs) = present vs
present (some v ∷ vs) = v ∷ present vs

unfoldable pub max_of : ℤ → List ℤ → ℤ
max_of m [] = m
max_of m (v ∷ vs) = max_of (if ltb_ℤ m v then v else m) vs

unfoldable pub min_of : ℤ → List ℤ → ℤ
min_of m [] = m
min_of m (v ∷ vs) = min_of (if ltb_ℤ v m then v else m) vs

-- `spread <= tolerance`, for at least two values
unfoldable pub is_still : List ℤ → ℤ → Bool
unfolding max_of min_of ◌-ℤ◌
is_still (v ∷ w ∷ vs) tolerance = leb_ℤ (max_of v (w ∷ vs) -ℤ min_of v (w ∷ vs)) tolerance
is_still _ tolerance = false

-- The values of the window, `ts >= last_ts - max_age`.
unfoldable pub window_values : List HistoryRow → ℕ → ℕ → List ℤ
unfolding present
window_values rows last_ts max_age =
    present (map (λ r. r.value) (keep_if (λ r. leb last_ts (r.ts + max_age)) rows))

module _ (codes : StatusCodes) where
  -- `check_frozen`, over `max_age` microseconds
  unfoldable pub check_frozen : List HistoryRow → ℕ → ℤ → Option ℕ
  unfolding is_still window_values
  check_frozen [] max_age tolerance = none
  check_frozen (first ∷ rest) max_age tolerance = elim (last? rest) [
    | none ↦ none
    | some last ↦
        if ltb last.ts (first.ts + max_age)
        then none
        else if is_still (window_values (first ∷ rest) last.ts max_age) tolerance
        then some codes.frozen
        else none
  ]

  -- `check_stale`, at `now`
  unfoldable pub check_stale : Option ℕ → ℕ → ℕ → Option ℕ
  check_stale none now max_age = none
  check_stale (some last) now max_age = if ltb (last + max_age) now then some codes.stale else none
