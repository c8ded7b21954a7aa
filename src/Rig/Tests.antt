-- ===== src/Rig/Tests.antt =====
-- Runs of the bridge and of the stand-in on small inputs.
use kpcl_hardware.Common.{
  ℕ, ◌+◌, ◌*◌, ◌/◌, ◌%◌, ◌≡◌, refl, ap, true, false, Bool, if◌then◌else◌, none, some, List, [], ◌∷◌,
  ◌==◌, length, take, arith, get_elem?,
}
use kpcl_hardware.Common.Int.{pos, negsuc}
use kpcl_hardware.Collector.Model.{severity_bits}
use kpcl_hardware.Rig.Registers.{status_word}
use kpcl_hardware.Rig.Bridge.{
  Bridge, Answer, answered, raises, error_reply, readings, poll_once, build_address_space, tags,
}
use kpcl_hardware.Rig.Decoding.{Codes, decode, hub_temp, ambient_temp, double}
use kpcl_hardware.Rig.Decoding.Trust.{BadCodes, Honest, decode-Honest}
use kpcl_hardware.Rig.Bridge.Publish.{poll_once-settled, poll_once-Lost, settled, filled}
use kpcl_hardware.Rig.Stub.{RigStub, Draw, step, handle_pdu, serve_client, pack_bits}
use kpcl_hardware.Rig.Stub.Pdu.{
  be_bytes, registers_of, request, read_reply, handle_pdu-read_reply, serve_client-Ends,
}
use kpcl_hardware.Rig.Stub.Stream.{Transaction, sent, answers, serve_client-answers}
use kpcl_hardware.Rig.Stub.EndToEnd.{Client, poll_stub, Shown, node_value, poll_stub-Shown}

abbrev codes : Codes
codes = record {
  good = 0;
  device_failure = 2_156_593_152;
  configuration = 2_156_462_080;
  out_of_range = 2_151_415_808;
  no_communication = 2_150_694_912;
  not_connected = 2_156_527_616;
  uncertain_calibration = 1_083_310_080;
}

codes-BadCodes : BadCodes codes
unfolding severity_bits
codes-BadCodes = record { device = refl; configuration = refl; range = refl }

abbrev words : List ℕ
words = 464 ∷ 251 ∷ 65_511 ∷ 238 ∷ 12_061 ∷ 1_023 ∷ 1 ∷ 2_503 ∷ []

-- Two and a half degrees below zero.
hub_read :
    decode codes hub_temp words 1_023
    ≡ some (record { value = some (double (negsuc 2_499_999_999_999)); quality = 0; reason = none })
unfolding decode
hub_read = refl

decode-Honest_example :
    Honest codes hub_temp words 1_023
      (record { value = some (double (negsuc 2_499_999_999_999)); quality = 0; reason = none })
decode-Honest_example = decode-Honest codes codes-BadCodes hub_temp words 1_023 hub_read

abbrev bridge : Bridge
bridge = build_address_space (record { nodes = []; polls = 7; failures = 0; last_failure = none })

abbrev bits : List Bool
bits = true ∷ false ∷ true ∷ false ∷ false ∷ false ∷ false ∷ false ∷ []

poll_once-settled_example :
    (status : ℕ) × (get_elem? words status_word ≡ some status)
    × (poll_once codes 900 true (answered words) (answered bits) bridge ≡ (
      record bridge {
        nodes = settled 900 (readings codes words bits status);
        polls = 8;
        last_failure = none;
      },
      some true,
    ))
unfolding build_address_space
poll_once-settled_example =
    poll_once-settled codes 900 words bits bridge refl (omega arith) (omega arith)

poll_once-Lost_example :
    let r = poll_once codes 900 true (answered words) (raises "timed out") bridge in
    (r.0.nodes
      ≡ filled (record { value = none; quality = codes.no_communication; source_ts = 900 }) tags)
    × (r.1 ≡ some false)
    × (r.0.polls ≡ bridge.polls)
    × (r.0.failures ≡ (if true then bridge.failures + 1 else bridge.failures))
unfolding build_address_space
poll_once-Lost_example =
    poll_once-Lost codes 900 true (answered words) (raises "timed out") bridge refl refl

-- A client that reads the two replies.
unfoldable read_words : List ℕ → List ℕ
read_words [] = []
read_words (b ∷ []) = []
read_words (hi ∷ lo ∷ rest) = (hi * 256 + lo) ∷ read_words rest

unfoldable registers_client : List ℕ → Answer (List ℕ)
unfolding read_words
registers_client (f ∷ n ∷ payload) = if f == 4 then answered (read_words payload) else error_reply
registers_client _ = error_reply

abbrev odd : ℕ → Bool
odd n = n % 2 == 1

unfoldable discretes_client : List ℕ → Answer (List Bool)
discretes_client (f ∷ n ∷ packed ∷ rest) =
    if f == 2
    then answered (odd packed ∷ odd (packed / 2) ∷ odd (packed / 4) ∷ odd (packed / 8) ∷ [])
    else error_reply
discretes_client _ = error_reply

read_words-be_bytes : (ws : List ℕ) → read_words (be_bytes ws) ≡ ws
unfolding read_words be_bytes
read_words-be_bytes [] = refl
read_words-be_bytes (w ∷ ws) =
    let whole : w / 256 * 256 + w % 256 ≡ w = omega arith in rw (whole, read_words-be_bytes ws) refl

three_bits :
    (bs : List Bool)
    → length bs ≡ 3
    → (out : List Bool) × (take 3 out ≡ bs)
      × (discretes_client (2 ∷ 1 ∷ pack_bits bs ∷ []) ≡ answered out)
unfolding discretes_client pack_bits
three_bits [] h = absurd (omega arith)
three_bits (a ∷ []) h = absurd (omega arith)
three_bits (a ∷ b ∷ []) h = absurd (omega arith)
three_bits (true ∷ true ∷ true ∷ []) h = (_, refl, refl)
three_bits (true ∷ true ∷ false ∷ []) h = (_, refl, refl)
three_bits (true ∷ false ∷ true ∷ []) h = (_, refl, refl)
three_bits (true ∷ false ∷ false ∷ []) h = (_, refl, refl)
three_bits (false ∷ true ∷ true ∷ []) h = (_, refl, refl)
three_bits (false ∷ true ∷ false ∷ []) h = (_, refl, refl)
three_bits (false ∷ false ∷ true ∷ []) h = (_, refl, refl)
three_bits (false ∷ false ∷ false ∷ []) h = (_, refl, refl)
three_bits (a ∷ b ∷ c ∷ d ∷ rest) h = absurd (omega arith)

client : Client registers_client discretes_client
unfolding registers_client
client = record { words = λ ws h. ap answered (read_words-be_bytes ws); bits = three_bits }

abbrev draw : Draw
draw = record {
  current = pos 464;
  vibration = pos 251;
  supply = pos 12_061;
  hub = negsuc 24;
  ambient = pos 238;
}

-- The rig before its first scan, its hub probe unplugged.
abbrev unplugged : RigStub
unplugged = record {
  hub_connected = false;
  ambient_connected = true;
  probes_configured = true;
  has_switch = true;
  has_relays = true;
  running = true;
  scan = 0;
  input_registers = [];
  discrete_inputs = [];
}

abbrev scanned : List ℕ
scanned = 464 ∷ 251 ∷ 32_768 ∷ 238 ∷ 12_061 ∷ 1_022 ∷ 1 ∷ 2_503 ∷ []

abbrev after : RigStub
after = record unplugged {
  scan = 1;
  input_registers = registers_of scanned;
  discrete_inputs = true ∷ true ∷ false ∷ [];
}

scan_unplugged : step draw unplugged ≡ some after
unfolding step registers_of
scan_unplugged = refl

poll_stub-Shown_example :
    ((poll_stub codes registers_client discretes_client 900 after bridge).1 ≡ some true)
    × Shown codes hub_temp false (negsuc 24) 900 (
        node_value hub_temp.tag
          (poll_stub codes registers_client discretes_client 900 after bridge).0.nodes)
    × Shown codes ambient_temp true (pos 238) 900 (
        node_value ambient_temp.tag
          (poll_stub codes registers_client discretes_client 900 after bridge).0.nodes)
unfolding build_address_space
poll_stub-Shown_example =
    poll_stub-Shown client codes 900 draw unplugged after bridge scanned scan_unplugged refl
      (omega arith) (record { above = omega arith; below = omega arith }) refl
      (record { above = omega arith; below = omega arith }) refl refl

handle_pdu-read_reply_example : handle_pdu after (request 4 6 3) ≡ some (read_reply scanned 6 3)
handle_pdu-read_reply_example = handle_pdu-read_reply after scanned 6 3 refl refl (omega arith)

-- Three registers from the seventh one on are not there.
past_end : read_reply scanned 6 3 ≡ 132 ∷ 2 ∷ []
unfolding read_reply
past_end = refl

abbrev two_calls : List Transaction
two_calls =
    record { t0 = 0; t1 = 1; unit = 1; pdu = request 4 2 1 }
    ∷ record { t0 = 0; t1 = 2; unit = 1; pdu = request 2 0 3 }
    ∷ []

abbrev two_answers : List ℕ
two_answers =
    0 ∷ 1 ∷ 0 ∷ 0 ∷ 0 ∷ 5 ∷ 1 ∷ 4 ∷ 2 ∷ 128 ∷ 0 ∷ 0 ∷ 2 ∷ 0 ∷ 0 ∷ 0 ∷ 4 ∷ 1 ∷ 2 ∷ 1 ∷ 3 ∷ []

two_answered : answers after two_calls ≡ some two_answers
unfolding answers registers_of
two_answered = refl

serve_client-answers_example : serve_client 30 after (sent two_calls) ≡ some two_answers
unfolding sent
serve_client-answers_example = serve_client-answers 30 after two_calls (omega arith) two_answered

serve_client-Ends_example : (out : List ℕ) × (serve_client 5 after (1 ∷ 2 ∷ 3 ∷ []) ≡ some out)
serve_client-Ends_example = serve_client-Ends 5 after (1 ∷ 2 ∷ 3 ∷ []) (omega arith)
