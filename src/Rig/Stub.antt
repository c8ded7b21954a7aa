-- ===== src/Rig/Stub.antt =====
-- firmware/rig_stub.py: the stand-in for the rig, with the registers that it serves and its answers to
-- Modbus requests. Bytes are numbers below 256; what the random numbers of a scan come to, rounded as
-- the code rounds them, is an argument; `none` is a raised exception.
pub mod Pdu
pub mod Stream
pub mod Scan
pub mod EndToEnd
use kpcl_hardware.Common.{
  ℕ, ◌+◌, ◌-◌, ◌*◌, ◌/◌, ◌%◌, ◌^◌, Bool, true, false, not, ◌&&◌, ◌||◌, Option, none, some, List, [],
  ◌∷◌, ◌++◌, ltb, leb, ◌==◌, if◌then◌else◌, length, take, drop, get_elem?,
}
use kpcl_hardware.Common.Int.{ℤ, pos, negsuc, eqb_ℤ}
use kpcl_hardware.Rig.Registers.{
  hub_ok, ambient_ok, probes_config, switch_fitted, relays_fitted, register_count, clear_bit,
  to_word, invalid_s16, invalid_u16,
}

pub record RigStub : Type 0 where
  pub hub_connected : Bool
  pub ambient_connected : Bool
  pub probes_configured : Bool
  pub has_switch : Bool
  pub has_relays : Bool
  pub running : Bool
  pub scan : ℕ
  pub input_registers : List ℤ
  pub discrete_inputs : List Bool

-- The numbers of one scan, as they are after rounding.
pub record Draw : Type 0 where
  pub current : ℤ
  pub vibration : ℤ
  pub supply : ℤ
  pub hub : ℤ
  pub ambient : ℤ

-- `ALL_OK`
abbrev pub all_ok : ℕ
all_ok = 1_023

unfoldable pub unplug_hub : RigStub → RigStub
unplug_hub rig = record rig { hub_connected = false }

unfoldable pub plug_hub : RigStub → RigStub
plug_hub rig = record rig { hub_connected = true }

unfoldable pub clear_unless : Bool → ℕ → ℕ → ℕ
clear_unless ok mask status = if ok then status else clear_bit mask status

-- The status word of `step`, from the flags of the probes' configuration, the hub's and the ambient
-- probe, the relays and the switch.
unfoldable pub status_of : Bool → Bool → Bool → Bool → Bool → ℕ
unfolding clear_unless
status_of probes hub ambient relays switch =
    let configured =
      clear_unless probes ambient_ok
        (clear_unless probes hub_ok (clear_unless probes probes_config all_ok)) in
    clear_unless relays relays_fitted (
      clear_unless switch switch_fitted (
        clear_unless (ambient && probes) ambient_ok
          (clear_unless (hub && probes) hub_ok configured)))

unfoldable pub scan_status : RigStub → ℕ
unfolding status_of
scan_status rig =
    status_of rig.probes_configured rig.hub_connected rig.ambient_connected rig.has_relays
      rig.has_switch

unfoldable pub probe_word : Bool → ℤ → ℕ
unfolding to_word
probe_word present drawn = to_word (if present then drawn else invalid_s16)

unfoldable pub scan_vibration : Draw → RigStub → ℤ
scan_vibration draw rig = if rig.running then draw.vibration else pos 5

-- The registers that `step` fills.
unfoldable pub scan_registers : Draw → RigStub → List ℤ
unfolding scan_status probe_word to_word scan_vibration
scan_registers draw rig =
    pos (to_word draw.current)
    ∷ scan_vibration draw rig
    ∷ pos (probe_word (rig.hub_connected && rig.probes_configured) draw.hub)
    ∷ pos (probe_word (rig.ambient_connected && rig.probes_configured) draw.ambient)
    ∷ draw.supply
    ∷ pos (scan_status rig)
    ∷ pos ((rig.scan + 1) % 65_536)
    ∷ pos 2_503
    ∷ []

-- `step`; the assertion on the sentinels raises.
unfoldable pub step : Draw → RigStub → Option RigStub
unfolding scan_registers scan_vibration
step draw rig =
    if eqb_ℤ (scan_vibration draw rig) invalid_u16 || eqb_ℤ draw.supply invalid_u16
    then none
    else some (record rig {
      scan = rig.scan + 1;
      input_registers = scan_registers draw rig;
      discrete_inputs =
          (rig.running && rig.has_switch) ∷ (rig.running && rig.has_relays) ∷ false ∷ [];
    })

-- `RigStub()`
unfoldable pub new_stub : Draw → Option RigStub
unfolding step
new_stub draw = step draw (record {
  hub_connected = true;
  ambient_connected = true;
  probes_configured = true;
  has_switch = true;
  has_relays = true;
  running = true;
  scan = 0;
  input_registers = pos 0 ∷ pos 0 ∷ pos 0 ∷ pos 0 ∷ pos 0 ∷ pos 0 ∷ pos 0 ∷ pos 0 ∷ [];
  discrete_inputs = false ∷ false ∷ false ∷ [];
})

-- `struct.pack(">H", ...)`, for each number of the list; one that is out of range raises.
unfoldable pub pack_words : List ℤ → Option (List ℕ)
pack_words [] = some []
pack_words (negsuc n ∷ zs) = none
pack_words (pos n ∷ zs) = elim (pack_words zs) [
  | none ↦ none
  | some bytes ↦ if ltb n 65_536 then some (n / 256 ∷ n % 256 ∷ bytes) else none
]

-- The loop that packs the bits, from the first one on.
unfoldable pub pack_bits : List Bool → ℕ
pack_bits [] = 0
pack_bits (b ∷ bs) = (if b then 1 else 0) + 2 * pack_bits bs

-- `function | 0x80`
unfoldable pub set_top : ℕ → ℕ
set_top function = if ltb (function % 256) 128 then function + 128 else function

-- `_exception`
unfoldable pub exception_reply : ℕ → ℕ → List ℕ
unfolding set_top
exception_reply function code = set_top function ∷ code ∷ []

abbrev pub illegal_function : ℕ
illegal_function = 1

abbrev pub illegal_data_address : ℕ
illegal_data_address = 2

-- The two reads of `handle_pdu`.
unfoldable pub registers_reply : List ℤ → ℕ → ℕ → Option (List ℕ)
unfolding exception_reply pack_words
registers_reply registers address count =
    if count == 0 || ltb register_count (address + count)
    then some (exception_reply 4 illegal_data_address)
    else elim (pack_words (take count (drop address registers))) [
      | none ↦ none
      | some payload ↦ some (4 ∷ length payload ∷ payload)
    ]

unfoldable pub discretes_reply : List Bool → ℕ → ℕ → List ℕ
unfolding exception_reply pack_bits
discretes_reply bits address count =
    if count == 0 || ltb (length bits) (address + count)
    then exception_reply 2 illegal_data_address
    else 2 ∷ 1 ∷ pack_bits (take count (drop address bits)) ∷ []

-- `handle_pdu`, once the function, the address and the count are unpacked.
unfoldable pub answer_pdu : RigStub → ℕ → ℕ → ℕ → Option (List ℕ)
unfolding registers_reply discretes_reply exception_reply
answer_pdu rig function address count =
    if function == 4
    then registers_reply rig.input_registers address count
    else if function == 2
    then some (discretes_reply rig.discrete_inputs address count)
    else some (exception_reply function illegal_function)

-- `handle_pdu`
unfoldable pub handle_pdu : RigStub → List ℕ → Option (List ℕ)
unfolding answer_pdu exception_reply
handle_pdu rig (f ∷ a ∷ b ∷ c ∷ d ∷ rest) = answer_pdu rig f (a * 256 + b) (c * 256 + d)
handle_pdu rig (f ∷ a ∷ b ∷ c ∷ []) = some (exception_reply f illegal_data_address)
handle_pdu rig (f ∷ a ∷ b ∷ []) = some (exception_reply f illegal_data_address)
handle_pdu rig (f ∷ a ∷ []) = some (exception_reply f illegal_data_address)
handle_pdu rig (f ∷ []) = some (exception_reply f illegal_data_address)
handle_pdu rig [] = some (exception_reply 0 illegal_data_address)

-- How one turn of `_serve_client` ends: with a reply and the bytes after the request, or with the
-- connection closed, by the end of the stream or by an exception.
pub data Turn : Type 0 where
  replied : List ℕ → List ℕ → Turn
  closed : Turn

-- The reply's header, and the reply; a reply of none is an exception.
unfoldable pub frame_reply : ℕ → ℕ → ℕ → List ℕ → Option (List ℕ) → Turn
frame_reply t0 t1 unit rest none = closed
frame_reply t0 t1 unit rest (some reply) =
    replied (t0 ∷ t1 ∷ 0 ∷ 0 ∷ (length reply + 1) / 256 ∷ (length reply + 1) % 256 ∷ unit ∷ reply)
      rest

-- One turn of `_serve_client`: the header of seven bytes, the PDU of `length - 1` bytes, and the reply.
-- A length of zero asks for -1 bytes, which raises.
unfoldable pub serve_turn : RigStub → List ℕ → Turn
unfolding handle_pdu frame_reply
serve_turn rig (t0 ∷ t1 ∷ p0 ∷ p1 ∷ l0 ∷ l1 ∷ unit ∷ rest) =
    let size = l0 * 256 + l1 in
    if size == 0 || ltb (length rest + 1) size
    then closed
    else frame_reply t0 t1 unit (drop (size - 1) rest) (handle_pdu rig (take (size - 1) rest))
serve_turn rig _ = closed

-- What is written first, and what is written after it.
unfoldable pub then_write : List ℕ → Option (List ℕ) → Option (List ℕ)
then_write reply none = none
then_write reply (some more) = some (reply ++ more)

unfoldable pub after_turn : (List ℕ → Option (List ℕ)) → Turn → Option (List ℕ)
unfolding then_write
after_turn serve closed = some []
after_turn serve (replied reply rest) = then_write reply (serve rest)

-- `_serve_client` on all the bytes that a client sends before it closes, the registers standing still:
-- what it writes, on fuel for the turns. Out of fuel it is `none`.
unfoldable pub serve_client : ℕ → RigStub → List ℕ → Option (List ℕ)
unfolding serve_turn after_turn
serve_client ℕ.zero rig input = none
serve_client (ℕ.suc fuel) rig input = after_turn (serve_client fuel rig) (serve_turn rig input)
