-- ===== src/Ops/Tests.antt =====
-- Runs of the alert model on small inputs.
use kpcl_hardware.Common.{
  ◌≡◌, ◌≢◌, refl, true, false, if◌then◌else◌, none, some, List, [], ◌∷◌, All, arith,
}
use kpcl_hardware.Common.Int.{pos}
use kpcl_hardware.Engine.Events.{gt}
use kpcl_hardware.Ops.Alerts.{
  Rule, SampleRow, Alert, bad, compared, evaluate_tag, rows_since, window_of, raise_or_clear,
}
use kpcl_hardware.Ops.Alerts.Firing.{Trips, evaluate_tag-Trips}
use kpcl_hardware.Ops.Alerts.Life.{count_open, OneOpen, raise_or_clear-OneOpen}

abbrev high_pressure : Rule
high_pressure = record {
  id = 4;
  condition = compared gt;
  threshold = some (pos 100);
  for_time = 3_000_000;
}

abbrev pressures : List SampleRow
pressures =
    record { value = some (pos 90); quality = 0; ts = 1_000_000 }
    ∷ record { value = some (pos 120); quality = 0; ts = 4_000_000 }
    ∷ record { value = some (pos 130); quality = 0; ts = 7_000_000 }
    ∷ []

pressures_fire : (evaluate_tag high_pressure 9_000_000 pressures).firing ≡ true
unfolding evaluate_tag
pressures_fire = refl

evaluate_tag-Trips_example :
    (rows_since 9_000_000 (window_of high_pressure) pressures ≢ [])
    × All (Trips gt (pos 100)) (rows_since 9_000_000 (window_of high_pressure) pressures)
evaluate_tag-Trips_example =
    evaluate_tag-Trips high_pressure gt (pos 100) 9_000_000 pressures refl refl pressures_fire

-- A tag whose only sample is Bad fires a rule on Bad at once, however long the rule says it must last.
abbrev bad_for_a_minute : Rule
bad_for_a_minute = record { id = 5; condition = bad; threshold = none; for_time = 60_000_000 }

one_bad_fires :
    (evaluate_tag bad_for_a_minute 100_000_000
      (record { value = none; quality = 2_147_483_648; ts = 99_999_999 } ∷ [])).firing
    ≡ true
unfolding evaluate_tag
one_bad_fires = refl

abbrev earlier : List Alert
earlier =
    record { id = 1; rule_id = 4; raised_at = 10; cleared_at = some 20 }
    ∷ record { id = 2; rule_id = 4; raised_at = 30; cleared_at = none }
    ∷ []

earlier-OneOpen : OneOpen earlier
unfolding count_open
earlier-OneOpen j = ground arith

raise_or_clear-OneOpen_example :
    (count_open 4 (raise_or_clear 40 high_pressure false (3, earlier)).0.1
      ≡ (if false then 1 else 0))
    × OneOpen (raise_or_clear 40 high_pressure false (3, earlier)).0.1
raise_or_clear-OneOpen_example =
    raise_or_clear-OneOpen 40 3 high_pressure false earlier earlier-OneOpen
