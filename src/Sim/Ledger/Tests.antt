-- ===== src/Sim/Ledger/Tests.antt =====
-- Runs of the ledger on a few writes.
use Prim.Native.String.{String}
use kpcl_hardware.Common.{ℕ, ◌≡◌, refl, inr, none, some, List, [], ◌∷◌, keep_if, arith}
use kpcl_hardware.Common.Int.{pos}
use kpcl_hardware.Common.Dict.{get_or}
use kpcl_hardware.Common.Text.{same_text}
use kpcl_hardware.Omf.Receiver.{entry}
use kpcl_hardware.Sim.Ledger.{
  Write, new_ledger, note_write, note_writes, window, oldest_us, min_first,
}
use kpcl_hardware.Sim.Ledger.Series.{changes}
use kpcl_hardware.Sim.Ledger.Window.{IsRising, Asked, between, window-note_writes}

abbrev wrote : String → ℕ → ℕ → ℕ → Write
wrote tag value status ts = record {
  tag = tag;
  value = some (pos value);
  status = status;
  source_ts = ts;
}

-- The second write of MW repeats the first; two Bad writes in a row are one.
abbrev some_writes : List Write
some_writes =
    wrote "MW" 5 0 1000
    ∷ wrote "MW" 5 0 2000
    ∷ wrote "TEMP" 7 0 2500
    ∷ wrote "MW" 6 0 3000
    ∷ wrote "MW" 6 2_147_483_648 4000
    ∷ wrote "MW" 7 2_147_483_648 5000
    ∷ []

changes_test : changes "MW" none some_writes ≡ 1000 ∷ 3000 ∷ 4000 ∷ []
unfolding changes
changes_test = refl

oldest_us_test : oldest_us (note_writes (new_ledger 4000 900) some_writes) ≡ some 1000
unfolding note_writes note_write min_first
oldest_us_test = refl

some_changes-IsRising : IsRising (changes "MW" none some_writes)
unfolding changes
some_changes-IsRising = ((omega arith, (omega arith, tt)), ((omega arith, tt), (tt, tt)))

mw-Asked : Asked "MW" ("MW" ∷ [])
unfolding same_text
mw-Asked = inr refl

window-note_writes_example :
    get_or
      (entry "MW" (window (note_writes (new_ledger 4000 900) some_writes) 2000 9000 ("MW" ∷ [])))
      []
    ≡ keep_if (between 2000 9000) (changes "MW" none some_writes)
window-note_writes_example =
    window-note_writes "MW" 4000 900 5000 2000 9000 ("MW" ∷ []) some_writes mw-Asked
      some_changes-IsRising
      (omega arith, (omega arith, (omega arith, (omega arith, (omega arith, (omega arith, tt))))))
      (omega arith)
