-- ===== src/Omf/Tests/Tally.antt =====
-- A way of writing times that can be read back, for the runs of the OMF path: one sign for each unit.
use Prim.Native.Nat.{ℕ, zero, suc}
use Prim.Native.String.{String, [], ◌∷◌}
use Prim.Native.Char.{nul}
use mathlib.Core.Path.{◌≡◌, refl, ap}

unfoldable pub unary : ℕ → String
unary zero = []
unary (suc n) = nul ∷ unary n

unfoldable pub count_tally : String → ℕ
count_tally [] = 0
count_tally (c ∷ s) = suc (count_tally s)

pub count_tally-unary : (n : ℕ) → count_tally (unary n) ≡ n
unfolding count_tally unary
count_tally-unary zero = refl
count_tally-unary (suc n) = ap suc (count_tally-unary n)
