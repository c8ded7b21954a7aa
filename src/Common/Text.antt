-- ===== src/Common/Text.antt =====
-- Equality of texts, under a name that does not clash with the one on numbers.
use Prim.Native.String.{String}
use text.Mathlib.Text.{◌==◌}
use mathlib.Core.Bool.{Bool}

unfoldable pub same_text : String → String → Bool
same_text a b = a == b
