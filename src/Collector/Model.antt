-- ===== src/Collector/Model.antt =====
-- collector/model.py: the sample that travels through every layer of the collector.
use kpcl_hardware.Common.{ℕ, ◌/◌, ◌%◌, ◌==◌, Bool, Option, if◌then◌else◌}
use kpcl_hardware.Common.Int.{ℤ}
use Prim.Native.String.{String}

-- Timestamps are microseconds on one time line; a value is an integer in units of 10⁻¹².
pub record Sample : Type 0 where
  pub tag_id : ℕ
  pub tag_name : String
  pub source_ts : ℕ
  pub server_ts : Option ℕ
  pub value : Option ℤ
  pub quality : ℕ
  pub seq : Option ℕ
  pub run : Option ℕ

pub data QualityClass : Type 0 where
  good uncertain bad reserved : QualityClass

-- `(self.quality >> 30) & 3`
unfoldable pub severity_bits : ℕ → ℕ
severity_bits quality = (quality / 1_073_741_824) % 4

unfoldable pub quality_class : Sample → QualityClass
unfolding severity_bits
quality_class s =
    if severity_bits s.quality == 0
    then good
    else if severity_bits s.quality == 1
    then uncertain
    else if severity_bits s.quality == 2
    then bad
    else reserved

unfoldable pub is_good : Sample → Bool
is_good s = s.quality == 0
