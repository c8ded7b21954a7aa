-- ===== src/Engine/Tests.antt =====
-- Runs of the engine's model on small inputs.
use kpcl_hardware.Common.{none, ℕ, ◌≡◌, refl, true, Option, some, List, [], ◌∷◌, All, map}
use kpcl_hardware.Common.Int.{ℤ, pos}
use kpcl_hardware.Common.Dict.{Dict}
use kpcl_hardware.Engine.Events.{
  Trigger, ge, lt, EventTemplate, Reading, Frame, detect, new_debouncer,
}
use kpcl_hardware.Common.Int.{◌+ℤ◌, ◌-ℤ◌, ◌*ℤ◌, eqb_ℤ, ltb_ℤ}
use kpcl_hardware.Engine.Kpi
use kpcl_hardware.Engine.Kpi.{
  BinaryOp, UnaryOp, Floats, KpiCodes, KpiDefinition, KpiResult, InputValue, compute, name, binary,
}
use kpcl_hardware.Engine.Kpi.Honest.{Honest, compute-Honest}
use kpcl_hardware.Engine.Quality.{StatusCodes, HistoryRow, check_frozen}
use kpcl_hardware.Engine.Quality.Evaluate.{Rules, evaluate_tag}
use kpcl_hardware.Engine.Quality.Still.{Frozen, check_frozen-Frozen}
use kpcl_hardware.Engine.Events.Debounce.{feed_all, Sustained, feed_all-Sustained}
use kpcl_hardware.Engine.Events.Frames.{Proper, detect-Proper}

abbrev on_load : Trigger
on_load = record { attribute = 1; comparison = ge; threshold = pos 50; debounce = 20 }

abbrev off_load : Trigger
off_load = record { attribute = 1; comparison = lt; threshold = pos 50; debounce = 0 }

abbrev reading : ℕ → ℤ → Reading
reading ts v = record { ts = ts; value = some v; quality = some 0 }

abbrev rising : List Reading
rising = reading 0 (pos 10) ∷ reading 10 (pos 60) ∷ reading 20 (pos 60) ∷ reading 30 (pos 70) ∷ []

rising_fires : (feed_all (new_debouncer on_load true) rising).1 ≡ some 10
unfolding feed_all new_debouncer
rising_fires = refl

feed_all-Sustained_example : Sustained on_load 10 rising
feed_all-Sustained_example = feed_all-Sustained on_load true rising rising_fires

abbrev startup : EventTemplate
startup = record {
  name = 4;
  start = on_load;
  finish = off_load;
  milestones =
      record {
        name = 1;
        trigger = record { attribute = 1; comparison = ge; threshold = pos 70; debounce = 0 };
        sort_order = 1;
      }
      ∷ [];
  max_duration = 1000;
}

abbrev history : Dict (List Reading)
history =
    (
      1,
      reading 0 (pos 10)
          ∷ reading 10 (pos 60)
          ∷ reading 20 (pos 60)
          ∷ reading 30 (pos 70)
          ∷ reading 40 (pos 20)
          ∷ [],
    )
    ∷ []

history_frames :
    map {B = ℕ × Option ℕ} (λ (f : Frame). (f.start_ts, f.end_ts)) (detect startup 9 history)
    ≡ (10, some 40) ∷ []
unfolding detect
history_frames = refl

detect-Proper_example : All (Proper startup) (detect startup 9 history)
detect-Proper_example = detect-Proper startup 9 history

abbrev codes : StatusCodes
codes = record {
  out_of_range = 2_151_415_808;
  rate_exceeded = 1_073_741_824;
  inconsistent = 1_083_441_152;
  frozen = 1_083_179_008;
  stale = 2_150_694_912;
  good = 0;
}

abbrev stuck : List HistoryRow
stuck =
    record { ts = 0; value = some (pos 40); quality = 0 }
    ∷ record { ts = 5_000_000; value = some (pos 41); quality = 0 }
    ∷ record { ts = 9_000_000; value = some (pos 41); quality = 0 }
    ∷ []

stuck_frozen : check_frozen codes stuck 6_000_000 (pos 0) ≡ some 1_083_179_008
unfolding check_frozen
stuck_frozen = refl

check_frozen-Frozen_example : Frozen stuck 6_000_000 (pos 0)
check_frozen-Frozen_example = check_frozen-Frozen codes stuck 6_000_000 (pos 0) stuck_frozen

abbrev rules : Rules
rules = record {
  range = true;
  rate_of_change = none;
  cross_tag = none;
  frozen = some (6_000_000, pos 0);
  stale = none;
}

stuck_quality :
    (evaluate_tag codes rules (some (pos 41)) none (λ t. none) 9_500_000 stuck).1.computed_quality
    ≡ 2_151_415_808
unfolding evaluate_tag
stuck_quality = refl

-- Floats as integers, of which only sums, differences and products are needed.
abbrev int_binary : BinaryOp → ℤ → ℤ → Option ℤ
int_binary Kpi.add a b = some (a +ℤ b)
int_binary Kpi.sub a b = some (a -ℤ b)
int_binary Kpi.mult a b = some (a *ℤ b)
int_binary Kpi.div a b = none
int_binary Kpi.pow a b = none
int_binary Kpi.mod_op a b = none
int_binary Kpi.floor_div a b = none

abbrev int_unary : UnaryOp → ℤ → Option ℤ
int_unary Kpi.plus a = some a
int_unary Kpi.minus a = some (pos 0 -ℤ a)

abbrev int_floats : Floats
int_floats = record {
  Float = ℤ;
  is_zero = λ a. eqb_ℤ a (pos 0);
  is_less = ltb_ℤ;
  binary = int_binary;
  unary = int_unary;
  call = λ c vs. none;
}

abbrev kpi_codes : KpiCodes
kpi_codes = record {
  bad_input = 2_160_787_456;
  bad_no_data = 2_157_641_728;
  bad_divide = 2_151_415_808;
  uncertain_input = 1_083_441_152;
  uncertain_validity = 1_083_310_080;
}

abbrev surplus : KpiDefinition int_floats
surplus = record {
  equation = some (binary Kpi.sub (name "made") (binary Kpi.mult (name "factor") (name "used")));
  constants = ("factor", pos 2) ∷ [];
  validity_low = some (pos 0);
  validity_high = none;
}

abbrev meters : List (InputValue int_floats)
meters =
    record { variable = "made"; value = some (pos 90); quality = 0 }
    ∷ record { variable = "used"; value = some (pos 40); quality = 0 }
    ∷ []

abbrev ten : KpiResult int_floats
ten = record { quality = 0; value = some (pos 10) }

surplus_is : compute int_floats kpi_codes surplus meters ≡ some ten
unfolding compute Kpi.walk ◌-ℤ◌ ◌*ℤ◌
surplus_is = refl

compute-Honest_example : Honest int_floats kpi_codes surplus meters ten
compute-Honest_example = compute-Honest int_floats kpi_codes surplus meters ten surplus_is
