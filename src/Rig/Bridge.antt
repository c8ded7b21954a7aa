-- ===== src/Rig/Bridge.antt =====
-- sim/bridge.py: the address space and a poll of the rig. Timestamps are microseconds; what pymodbus
-- returns is an argument.
pub mod Publish
use Prim.Native.String.{String}
use kpcl_hardware.Common.{
  ℕ, ◌+◌, Bool, true, false, not, Option, none, some, List, [], ◌∷◌, ◌++◌, map, ◌==◌, if◌then◌else◌,
  get_elem?, ◌&&◌,
}
use kpcl_hardware.Common.Int.{ℤ, pos, ◌*ℤ◌}
use kpcl_hardware.Common.Text.{same_text}
use kpcl_hardware.Rig.Registers.{
  current_ma, vib_mms, temp_hub, temp_amb, supply_mv, status_word, hub_ok, ambient_ok, mpu_ok,
  acs_ok, supply_ok, acs_zeroed, probes_config, switch_fitted, relays_fitted, has_bit, to_word,
  signed, invalid_s16, invalid_u16,
}
use kpcl_hardware.Rig.Decoding.{
  Codes, Point, points, Digital, digitals, Variant, Decoded, decode, decode_digital, double,
  boolean,
}

-- What a node of the address space holds.
pub record NodeValue : Type 0 where
  pub value : Option Variant
  pub quality : ℕ
  pub source_ts : ℕ

abbrev pub Nodes : Type 0
Nodes = List (String × Option NodeValue)

-- `_publish`: a tag without a node is passed over.
unfoldable pub publish : String → NodeValue → Nodes → Nodes
unfolding same_text
publish tag v [] = []
publish tag v ((name, old) ∷ rest) =
    if same_text name tag then (name, some v) ∷ rest else (name, old) ∷ publish tag v rest

-- Why the rig was marked unavailable, for the log.
pub data Failure : Type 0 where
  unreachable : Failure
  raised : String → Failure
  modbus_exception : Failure

pub record Bridge : Type 0 where
  pub nodes : Nodes
  pub polls : ℕ
  pub failures : ℕ
  pub last_failure : Option Failure

-- `build_address_space`: the nodes, before anything is published.
abbrev pub tags : List String
tags = map (λ p. p.tag) points ++ map (λ d. d.tag) digitals

unfoldable pub build_address_space : Bridge → Bridge
build_address_space b = record b { nodes = map (λ tag. (tag, none)) tags }

-- `ModbusBridge(...)`: exactly one of a TCP host and a serial port.
unfoldable pub new_bridge : Option String → Option String → Option Bridge
new_bridge none none = none
new_bridge (some host) (some port) = none
new_bridge (some host) none =
    some (record { nodes = []; polls = 0; failures = 0; last_failure = none })
new_bridge none (some port) =
    some (record { nodes = []; polls = 0; failures = 0; last_failure = none })

unfoldable pub publish_null : ℕ → ℕ → List String → Nodes → Nodes
unfolding publish
publish_null quality ts [] ns = ns
publish_null quality ts (tag ∷ rest) ns =
    publish_null quality ts rest
      (publish tag (record { value = none; quality = quality; source_ts = ts }) ns)

-- `_mark_all_bad`
unfoldable pub mark_all_bad : ℕ → Failure → ℕ → Bridge → Bridge
unfolding publish_null
mark_all_bad quality failure ts b = record b {
  nodes = publish_null quality ts tags b.nodes;
  last_failure = some failure;
}

-- What a read of pymodbus ends in.
pub data Answer {ℓ} (A : Type ℓ) : Type ℓ where
  raises : String → Answer A
  error_reply : Answer A
  answered : A → Answer A

abbrev pub as_data_value : ℕ → Decoded → NodeValue
as_data_value ts d = record { value = d.value; quality = d.quality; source_ts = ts }

-- The loops of `poll_once` over what it decoded, `none` being an exception, which ends the poll: what
-- the nodes hold, and whether it went to its end.
unfoldable pub publish_readings : ℕ → List (String × Option Decoded) → Nodes → Nodes × Bool
unfolding publish
publish_readings ts [] ns = (ns, true)
publish_readings ts ((tag, none) ∷ rest) ns = (ns, false)
publish_readings ts ((tag, some d) ∷ rest) ns =
    publish_readings ts rest (publish tag (as_data_value ts d) ns)

module _ (codes : Codes) where
  -- What `poll_once` decodes, in the order of `POINTS` and `DIGITALS`.
  unfoldable pub point_readings : List ℕ → ℕ → List Point → List (String × Option Decoded)
  unfolding decode
  point_readings words status [] = []
  point_readings words status (p ∷ ps) =
      (p.tag, decode codes p words status) ∷ point_readings words status ps

  unfoldable pub digital_readings : List Bool → ℕ → List Digital → List (String × Option Decoded)
  unfolding decode_digital
  digital_readings bits status [] = []
  digital_readings bits status (d ∷ ds) =
      (d.tag, decode_digital codes d bits status) ∷ digital_readings bits status ds

  unfoldable pub readings : List ℕ → List Bool → ℕ → List (String × Option Decoded)
  unfolding point_readings digital_readings
  readings words bits status =
      point_readings words status points ++ digital_readings bits status digitals

  -- The end of `poll_once`, once both reads have answered: true, or an exception.
  unfoldable pub count_poll : Bridge → Nodes × Bool → Bridge × Option Bool
  count_poll b (ns, true) =
      (record b { nodes = ns; polls = b.polls + 1; last_failure = none }, some true)
  count_poll b (ns, false) = (record b { nodes = ns; last_failure = none }, none)

  unfoldable pub publish_all : ℕ → List ℕ → List Bool → Option ℕ → Bridge → Bridge × Option Bool
  unfolding publish_readings readings count_poll
  publish_all ts words bits none b = (record b { last_failure = none }, none)
  publish_all ts words bits (some status) b =
      count_poll b (publish_readings ts (readings words bits status) b.nodes)

  -- A read that failed.
  unfoldable pub lose : Failure → ℕ → Bridge → Bridge × Option Bool
  unfolding mark_all_bad
  lose failure ts b = (
    mark_all_bad codes.no_communication failure ts (record b { failures = b.failures + 1 }),
    some false,
  )

  -- `poll_once`, with the instant it reads the rig at, whether it could connect, and the two answers;
  -- the second read is not made when the first one raises.
  unfoldable pub poll_once :
      ℕ → Bool → Answer (List ℕ) → Answer (List Bool) → Bridge → Bridge × Option Bool
  unfolding mark_all_bad lose publish_all
  poll_once ts false registers discretes b =
      (mark_all_bad codes.no_communication unreachable ts b, some false)
  poll_once ts true (raises text) discretes b = lose (raised text) ts b
  poll_once ts true error_reply (raises text) b = lose (raised text) ts b
  poll_once ts true (answered words) (raises text) b = lose (raised text) ts b
  poll_once ts true error_reply error_reply b = lose modbus_exception ts b
  poll_once ts true error_reply (answered bits) b = lose modbus_exception ts b
  poll_once ts true (answered words) error_reply b = lose modbus_exception ts b
  poll_once ts true (answered words) (answered bits) b =
      publish_all ts words bits (get_elem? words status_word) b
