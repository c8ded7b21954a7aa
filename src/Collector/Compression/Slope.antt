-- ===== src/Collector/Compression/Slope.antt =====
-- The quotients that the doors of the corridor swing by: floats in the source, exact here.
use kpcl_hardware.Common.{ℕ, Bool, true, false, if◌then◌else◌}
use kpcl_hardware.Common.Int.{ℤ, pos, ◌*ℤ◌, leb_ℤ}

-- `quot rise run` is rise / run, with run > 0 wherever the code makes one.
pub data Slope : Type 0 where
  neg_inf pos_inf : Slope
  quot : ℤ → ℕ → Slope

unfoldable pub leb_slope : Slope → Slope → Bool
unfolding ◌*ℤ◌
leb_slope neg_inf b = true
leb_slope (quot a m) neg_inf = false
leb_slope (quot a m) (quot b n) = leb_ℤ (a *ℤ pos n) (b *ℤ pos m)
leb_slope (quot a m) pos_inf = true
leb_slope pos_inf pos_inf = true
leb_slope pos_inf b = false

-- Python's `max(a, b)` and `min(a, b)`: `a` where the two are equal.
unfoldable pub max_slope : Slope → Slope → Slope
unfolding leb_slope
max_slope a b = if leb_slope b a then a else b

unfoldable pub min_slope : Slope → Slope → Slope
unfolding leb_slope
min_slope a b = if leb_slope a b then a else b
