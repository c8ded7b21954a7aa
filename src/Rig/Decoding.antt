-- ===== src/Rig/Decoding.antt =====
-- sim/bridge.py: the points of the rig, and what a word or a bit of it means. Values are integers in
-- units of 10⁻¹²; the status codes that asyncua names are an argument; a reason's text is a constructor.
pub mod Trust
use Prim.Native.String.{String}
use kpcl_hardware.Common.{
  ℕ, ◌+◌, Bool, true, false, not, Option, none, some, List, [], ◌∷◌, ◌++◌, map, ◌==◌, if◌then◌else◌,
  get_elem?, ◌&&◌,
}
use kpcl_hardware.Common.Int.{ℤ, pos, ◌*ℤ◌}
use kpcl_hardware.Common.Text.{same_text}
use kpcl_hardware.Rig.Registers.{
  current_ma, vib_mms, temp_hub, temp_amb, supply_mv, status_word, hub_ok, ambient_ok, mpu_ok,
  acs_ok, supply_ok, acs_zeroed, probes_config, switch_fitted, relays_fitted, has_bit, to_word,
  signed, invalid_s16, invalid_u16,
}

pub record Codes : Type 0 where
  pub good : ℕ
  pub device_failure : ℕ
  pub configuration : ℕ
  pub out_of_range : ℕ
  pub no_communication : ℕ
  pub not_connected : ℕ
  pub uncertain_calibration : ℕ

-- Which code a clear status bit of the point means.
pub data BadCode : Type 0 where
  failed_device outside_range : BadCode

unfoldable pub bad_code_of : Codes → BadCode → ℕ
bad_code_of codes failed_device = codes.device_failure
bad_code_of codes outside_range = codes.out_of_range

-- `Point`, less its unit, description and range.
pub record Point : Type 0 where
  pub tag : String
  pub register : ℕ
  pub scale : ℕ
  pub status_bit : ℕ
  pub is_signed : Bool
  pub bad_code : BadCode
  pub needs_probe_config : Bool
  pub uncalibrated : Bool

unfoldable pub invalid : Point → ℤ
invalid p = if p.is_signed then invalid_s16 else invalid_u16

abbrev pub current : Point
current = record {
  tag = "RIG_CURRENT";
  register = current_ma;
  scale = 1_000_000_000;
  status_bit = acs_ok;
  is_signed = true;
  bad_code = failed_device;
  needs_probe_config = false;
  uncalibrated = true;
}

abbrev pub vibration : Point
vibration = record {
  tag = "RIG_VIBRATION";
  register = vib_mms;
  scale = 10_000_000_000;
  status_bit = mpu_ok;
  is_signed = false;
  bad_code = failed_device;
  needs_probe_config = false;
  uncalibrated = false;
}

abbrev pub hub_temp : Point
hub_temp = record {
  tag = "RIG_HUB_TEMP";
  register = temp_hub;
  scale = 100_000_000_000;
  status_bit = hub_ok;
  is_signed = true;
  bad_code = failed_device;
  needs_probe_config = true;
  uncalibrated = false;
}

abbrev pub ambient_temp : Point
ambient_temp = record {
  tag = "RIG_AMBIENT_TEMP";
  register = temp_amb;
  scale = 100_000_000_000;
  status_bit = ambient_ok;
  is_signed = true;
  bad_code = failed_device;
  needs_probe_config = true;
  uncalibrated = false;
}

abbrev pub supply : Point
supply = record {
  tag = "RIG_SUPPLY_V";
  register = supply_mv;
  scale = 1_000_000_000;
  status_bit = supply_ok;
  is_signed = false;
  bad_code = outside_range;
  needs_probe_config = false;
  uncalibrated = false;
}

-- `POINTS`
abbrev pub points : List Point
points = current ∷ vibration ∷ hub_temp ∷ ambient_temp ∷ supply ∷ []

pub record Digital : Type 0 where
  pub tag : String
  pub bit : ℕ
  pub fitted_bit : ℕ

abbrev pub rig_running : Digital
rig_running = record { tag = "RIG_RUNNING"; bit = 0; fitted_bit = switch_fitted }

abbrev pub relay_1 : Digital
relay_1 = record { tag = "RIG_RELAY_1"; bit = 1; fitted_bit = relays_fitted }

abbrev pub relay_2 : Digital
relay_2 = record { tag = "RIG_RELAY_2"; bit = 2; fitted_bit = relays_fitted }

-- `DIGITALS`
abbrev pub digitals : List Digital
digitals = rig_running ∷ relay_1 ∷ relay_2 ∷ []

pub data ReadReason : Type 0 where
  probes_not_configured not_zeroed bit_clear sentinel not_calibrated not_fitted : ReadReason

-- The variant that is written; a null one is `none`.
pub data Variant : Type 0 where
  double : ℤ → Variant
  boolean : Bool → Variant

pub record Decoded : Type 0 where
  pub value : Option Variant
  pub quality : ℕ
  pub reason : Option ReadReason

-- The number in a point's register, in its unit.
unfoldable pub reading : Point → ℕ → ℤ
unfolding signed ◌*ℤ◌
reading p raw = (if p.is_signed then signed raw else pos raw) *ℤ pos p.scale

module _ (codes : Codes) where
  -- The part of `decode` that trusts the register's word.
  unfoldable pub decode_word : Point → ℕ → Decoded
  unfolding invalid to_word reading
  decode_word p raw =
      if raw == to_word (invalid p)
      then record { value = none; quality = codes.device_failure; reason = some sentinel }
      else if p.uncalibrated
      then record {
        value = some (double (reading p raw));
        quality = codes.uncertain_calibration;
        reason = some not_calibrated;
      }
      else record { value = some (double (reading p raw)); quality = codes.good; reason = none }

  -- The part of `decode` that asks the status word, with the code and the reason of a refusal.
  unfoldable pub refusal : Point → ℕ → Option (ℕ × ReadReason)
  unfolding bad_code_of
  refusal p status =
      if p.needs_probe_config && not (has_bit status probes_config)
      then some (codes.configuration, probes_not_configured)
      else if p.status_bit == acs_ok && not (has_bit status acs_zeroed)
      then some (codes.device_failure, not_zeroed)
      else if not (has_bit status p.status_bit)
      then some (bad_code_of codes p.bad_code, bit_clear)
      else none

  unfoldable pub decode_from : Point → Option (ℕ × ReadReason) → Option ℕ → Option Decoded
  unfolding decode_word
  decode_from p (some (quality, why)) raw =
      some (record { value = none; quality = quality; reason = some why })
  decode_from p none none = none
  decode_from p none (some raw) = some (decode_word p raw)

  -- `decode`; a register that is not there raises.
  unfoldable pub decode : Point → List ℕ → ℕ → Option Decoded
  unfolding refusal decode_from
  decode p registers status = decode_from p (refusal p status) (get_elem? registers p.register)

  -- `decode_digital`
  unfoldable pub decode_digital : Digital → List Bool → ℕ → Option Decoded
  decode_digital d bits status =
      if not (has_bit status d.fitted_bit)
      then some (record { value = none; quality = codes.not_connected; reason = some not_fitted })
      else elim (get_elem? bits d.bit) [
        | none ↦ none
        | some b ↦ some (record { value = some (boolean b); quality = codes.good; reason = none })
      ]
