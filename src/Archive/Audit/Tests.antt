-- ===== src/Archive/Audit/Tests.antt =====
-- Runs of the audited changes on a small configuration.
use Prim.Native.String.{String}
use mathlib.Core.Option.{some-injective}
use kpcl_hardware.Common.{List, ap, ◌≡◌, refl, true, Option, none, some, [], ◌∷◌}
use kpcl_hardware.Common.Int.{ℤ, pos}
use kpcl_hardware.Archive.Audit.{
  Writer, Config, Columns, Numeric, int, float, decimal, AuditEntry, number, change, answers,
  written_text,
}
use kpcl_hardware.Archive.Audit.Cells.{cell_value}
use kpcl_hardware.Archive.Audit.Replay.{
  KeepsText, Sound, last_became, start, change-Sound, Done, change-Done,
}

-- How Python writes the numbers of the tests.
abbrev text_of_number : Numeric → ℤ → String
text_of_number int z = "500"
text_of_number float z = "500.0"
text_of_number decimal z = "500"

-- A column of double precision gives every number back as a float.
abbrev columns : Columns
columns table field (number k z) = some (number float z)
columns table field v = some v

abbrev writer : Writer
writer = record { of_number = text_of_number; of_flag = λ b. "True"; of_document = λ d. "{}" }

abbrev config : Config
config = record {
  rows =
      record { table = "tag"; row_id = 7; fields = ("range_high", number float (pos 600)) ∷ [] }
      ∷ [];
  log = [];
}

none_is : {b : Option String} → none ≡ some b → ⊥
none_is h = cc

config-Sound : Sound writer config
unfolding last_became
config-Sound = record { explained = λ t i f b h. absurd (none_is h); linked = start }

kept_text : KeepsText writer columns "tag" "range_high" (number float (pos 500))
kept_text stored e = ap (written_text writer) (some-injective _ _ e)

narrowed :
    (change writer columns "asha" "test" "tag" 7 "range_high" (number float (pos 500)) config).1
    ≡ answers true
unfolding change
narrowed = refl

change-Sound_example :
    Sound writer
      (change writer columns "asha" "test" "tag" 7 "range_high" (number float (pos 500)) config).0
change-Sound_example =
    change-Sound writer columns "asha" "test" "tag" 7 "range_high" (number float (pos 500)) config
      kept_text config-Sound

change-Done_example :
    Done writer columns "asha" "test" "tag" 7 "range_high"
      (number float (pos 500))
      config
      (change writer columns "asha" "test" "tag" 7 "range_high" (number float (pos 500)) config)
change-Done_example =
    change-Done writer columns "asha" "test" "tag" 7 "range_high" (number float (pos 500)) config

-- An int on a column of double precision: the log has one text, and the field another.
abbrev with_int : Config
with_int =
    (change writer columns "asha" "test" "tag" 7 "range_high" (number int (pos 500)) config).0

abbrev log_text : List AuditEntry → Option String
log_text [] = none
log_text (e ∷ es) = e.became

int_logged_test :
    (log_text with_int.log ≡ some "500")
    × (cell_value "tag" 7 "range_high" with_int.rows ≡ some (number float (pos 500)))
    × (written_text writer (number float (pos 500)) ≡ some "500.0")
unfolding change cell_value written_text
int_logged_test = (refl, refl, refl)
