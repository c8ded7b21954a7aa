-- ===== src/Rig/Registers.antt =====
-- The register map that sim/bridge.py and firmware/rig_stub.py share: 16-bit words, the bits of the
-- status word, and the sentinels. `status & mask` is only taken at masks of one bit.
use kpcl_hardware.Common.{
  ℕ, ◌-◌, ◌/◌, ◌%◌, ◌<◌, ◌≤◌, ◌≡◌, Bool, not, leb, ◌==◌, if◌then◌else◌, arith,
}
use kpcl_hardware.Common.Int.{ℤ, pos, negsuc, sub_ℕ, pos_part, neg_part, eq_of_parts}

-- The positions of the registers.
abbrev pub current_ma : ℕ
current_ma = 0

abbrev pub vib_mms : ℕ
vib_mms = 1

abbrev pub temp_hub : ℕ
temp_hub = 2

abbrev pub temp_amb : ℕ
temp_amb = 3

abbrev pub supply_mv : ℕ
supply_mv = 4

abbrev pub status_word : ℕ
status_word = 5

abbrev pub register_count : ℕ
register_count = 8

-- The masks of the status word.
abbrev pub hub_ok : ℕ
hub_ok = 1

abbrev pub ambient_ok : ℕ
ambient_ok = 2

abbrev pub mpu_ok : ℕ
mpu_ok = 4

abbrev pub acs_ok : ℕ
acs_ok = 8

abbrev pub supply_ok : ℕ
supply_ok = 16

abbrev pub bus_ok : ℕ
bus_ok = 32

abbrev pub acs_zeroed : ℕ
acs_zeroed = 64

abbrev pub probes_config : ℕ
probes_config = 128

abbrev pub switch_fitted : ℕ
switch_fitted = 256

abbrev pub relays_fitted : ℕ
relays_fitted = 512

-- `status & mask`, as a test
abbrev pub has_bit : ℕ → ℕ → Bool
has_bit status mask = not ((status / mask) % 2 == 0)

-- `status & ~mask`
abbrev pub clear_bit : ℕ → ℕ → ℕ
clear_bit mask status = if has_bit status mask then status - mask else status

-- `x & 0xFFFF`
unfoldable pub to_word : ℤ → ℕ
to_word (pos n) = n % 65_536
to_word (negsuc n) = 65_535 - n % 65_536

abbrev pub invalid_s16 : ℤ
invalid_s16 = negsuc 32_767

abbrev pub invalid_u16 : ℤ
invalid_u16 = pos 65_535

-- `_signed`
unfoldable pub signed : ℕ → ℤ
signed word = if leb 32_768 word then sub_ℕ word 65_536 else pos word

-- A number that a signed 16-bit register can hold.
pub record Fits (z : ℤ) : Type 0 where
  pub above : neg_part z ≤ 32_768
  pub below : pos_part z < 32_768

pub to_word_bound : (z : ℤ) → to_word z < 65_536
unfolding to_word
to_word_bound (pos n) = omega arith
to_word_bound (negsuc n) = omega arith

-- A number from -32768 to 32767, written to a register as its low sixteen bits, is read back from it
-- as it was.
pub signed-to_word : (z : ℤ) → Fits z → signed (to_word z) ≡ z
unfolding signed to_word
signed-to_word (pos n) fits = let below = fits.below in eq_of_parts _ _ (ground arith)
signed-to_word (negsuc n) fits = let above = fits.above in eq_of_parts _ _ (ground arith)
