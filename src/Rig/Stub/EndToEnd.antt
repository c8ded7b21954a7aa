-- ===== src/Rig/Stub/EndToEnd.antt =====
-- firmware/rig_stub.py and sim/bridge.py together: a poll of the stand-in through a Modbus client. What
-- pymodbus makes of a reply is a parameter.
use mathlib.Core.Path.{subst}
use mathlib.Core.Option.{some-injective}
use Prim.Native.String.{String}
use kpcl_hardware.Common.{
  ℕ, ◌*◌, ◌≤◌, ◌≡◌, ◌∙◌, refl, ◌⊎◌, inl, inr, zero, suc, take, Bool-cases, sym, ap, true, false,
  Bool, ◌&&◌, Option, none, some, List, [], ◌∷◌, if◌then◌else◌, length, All, arith,
}
use kpcl_hardware.Common.Int.{ℤ, pos, ◌*ℤ◌, eqb_ℤ}
use kpcl_hardware.Common.Text.{same_text}
use kpcl_hardware.Rig.Registers.{Fits, invalid_s16}
use kpcl_hardware.Rig.Bridge.{
  Bridge, Nodes, NodeValue, Answer, answered, raises, as_data_value, tags, poll_once, readings,
  point_readings, digital_readings,
}
use kpcl_hardware.Rig.Decoding.{Codes, Decoded, Point, hub_temp, ambient_temp, double}
use kpcl_hardware.Rig.Bridge.Publish.{names, settled, poll_once-settled}
use kpcl_hardware.Rig.Stub.{
  RigStub, Draw, step, scan_registers, scan_status, handle_pdu, answer_pdu, discretes_reply,
  pack_bits,
}
use kpcl_hardware.Rig.Stub.Pdu.{
  be_bytes, registers_of, IsWord, request, read_reply, handle_pdu-read_reply,
}
use kpcl_hardware.Rig.Stub.Scan.{Filled, step-Filled, Read, step-Read}

-- What a node holds.
unfoldable pub node_value : String → Nodes → Option NodeValue
unfolding same_text
node_value tag [] = none
node_value tag ((name, v) ∷ rest) = if same_text name tag then v else node_value tag rest

-- The reading of a tag.
unfoldable pub reading_of : String → List (String × Option Decoded) → Option Decoded
unfolding same_text
reading_of tag [] = none
reading_of tag ((name, r) ∷ rest) = if same_text name tag then r else reading_of tag rest

abbrev held_of : ℕ → Option Decoded → Option NodeValue
held_of ts none = none
held_of ts (some d) = some (as_data_value ts d)

node_value-settled :
    (tag : String) (ts : ℕ) (rs : List (String × Option Decoded))
    → node_value tag (settled ts rs) ≡ held_of ts (reading_of tag rs)
unfolding node_value settled reading_of
node_value-settled tag ts [] = refl
node_value-settled tag ts ((name, none) ∷ rs) = elim (Bool-cases (same_text name tag)) [
  | inl e ↦ rw e refl
  | inr e ↦ rw e (node_value-settled tag ts rs)
]
node_value-settled tag ts ((name, some d) ∷ rs) = elim (Bool-cases (same_text name tag)) [
  | inl e ↦ rw e refl
  | inr e ↦ rw e (node_value-settled tag ts rs)
]

-- What the client hands on of a reply; a request that raises in the server is one without a reply.
abbrev pub hand_on {ℓ} : {A : Type ℓ} → (List ℕ → Answer A) → Option (List ℕ) → Answer A
hand_on client none = raises "no reply"
hand_on client (some reply) = client reply

-- A poll of the stand-in.
abbrev pub poll_stub :
    Codes
    → (List ℕ → Answer (List ℕ))
    → (List ℕ → Answer (List Bool))
    → ℕ
    → RigStub
    → Bridge
    → Bridge × Option Bool
poll_stub codes registers discretes ts rig b =
    poll_once codes ts true (hand_on registers (handle_pdu rig (request 4 0 8)))
      (hand_on discretes (handle_pdu rig (request 2 0 3))) b

-- The client reads words high byte first, and three bits from the lowest one of a byte up, with others
-- behind them or not.
pub record Client (registers : List ℕ → Answer (List ℕ)) (discretes : List ℕ → Answer (List Bool))
    : Type 0 where
  pub words :
      (ws : List ℕ) → All IsWord ws → registers (4 ∷ 2 * length ws ∷ be_bytes ws) ≡ answered ws
  pub bits :
      (bs : List Bool)
      → length bs ≡ 3
      → (out : List Bool) × (take 3 out ≡ bs)
        × (discretes (2 ∷ 1 ∷ pack_bits bs ∷ []) ≡ answered out)

-- A node that shows a number read at an instant, as Good, or no value.
abbrev pub Shown : Codes → Point → Bool → ℤ → ℕ → Option NodeValue → Type 0
Shown codes p true z ts o =
    o
    ≡ some
        (record { value = some (double (z *ℤ pos p.scale)); quality = codes.good; source_ts = ts })
Shown codes p false z ts o =
    (v : NodeValue) × (o ≡ some v)
    × (v.value ≡ none)
    × ((v.quality ≡ codes.device_failure) ⊎ (v.quality ≡ codes.configuration))

Read-Shown :
    (codes : Codes) (p : Point) (b : Bool) (z : ℤ) (ts : ℕ) (o : Option Decoded)
    → Read codes p b z o
    → Shown codes p b z ts (held_of ts o)
Read-Shown codes p true z ts o h = rw h refl
Read-Shown codes p false z ts o (d, e, v, q) = rw e (as_data_value ts d, refl, v, q)

length-registers_of : (ws : List ℕ) → length (registers_of ws) ≡ length ws
unfolding registers_of
length-registers_of [] = refl
length-registers_of (w ∷ ws) = omega (arith, length-registers_of ws)

take_all {ℓ} : {A : Type ℓ} (n : ℕ) (xs : List A) → length xs ≡ n → take n xs ≡ xs
take_all zero [] h = refl
take_all zero (b ∷ bs) h = absurd (omega arith)
take_all (suc n) [] h = absurd (omega arith)
take_all (suc n) (b ∷ bs) h = rw (take_all n bs (omega arith)) refl

length-take_le : (n : ℕ) (bs : List Bool) → length (take n bs) ≤ length bs
length-take_le zero bs = omega arith
length-take_le (suc n) [] = omega arith
length-take_le (suc n) (b ∷ bs) = omega (arith, length-take_le n bs)

module _ {registers : List ℕ → Answer (List ℕ)} {discretes : List ℕ → Answer (List Bool)}
    (client : Client registers discretes) where
  registers_reply-words :
      (rig : RigStub) (words : List ℕ)
      → rig.input_registers ≡ registers_of words
      → length words ≡ 8
      → All IsWord words
      → hand_on registers (handle_pdu rig (request 4 0 8)) ≡ answered words
  unfolding read_reply
  registers_reply-words rig words e h w =
      let size : 16 ≡ 2 * length words = omega arith in
      ap (hand_on registers) (
        handle_pdu-read_reply rig words 0 8 e h w
        ∙ ap (λ (l : List ℕ). some (4 ∷ 16 ∷ be_bytes l)) (take_all 8 words h)
        ∙ ap (λ (n : ℕ). some (4 ∷ n ∷ be_bytes words)) size)
      ∙ client.words words w

  discretes_reply-bits :
      (rig : RigStub)
      → length rig.discrete_inputs ≡ 3
      → (out : List Bool) × (take 3 out ≡ rig.discrete_inputs)
        × (hand_on discretes (handle_pdu rig (request 2 0 3)) ≡ answered out)
  unfolding handle_pdu answer_pdu discretes_reply
  discretes_reply-bits rig h =
      let out = client.bits rig.discrete_inputs h in
      (out.0, out.1, rw (h, take_all 3 rig.discrete_inputs h) out.2)

  -- A poll of the stand-in after a scan, through a client that reads replies as documented, succeeds,
  -- and the two temperature nodes then show, under the instant of the poll, the temperature drawn for
  -- the probe, as Good, if it is connected and the probes are configured, and no value otherwise,
  -- whatever they showed before; the registers hold words, and the temperatures drawn are numbers that
  -- a register can hold and are not the sentinel.
  pub poll_stub-Shown :
      (codes : Codes) (ts : ℕ) (draw : Draw) (rig after : RigStub) (b : Bridge) (words : List ℕ)
      → step draw rig ≡ some after
      → after.input_registers ≡ registers_of words
      → All IsWord words
      → Fits draw.hub
      → eqb_ℤ draw.hub invalid_s16 ≡ false
      → Fits draw.ambient
      → eqb_ℤ draw.ambient invalid_s16 ≡ false
      → names b.nodes ≡ tags
      → ((poll_stub codes registers discretes ts after b).1 ≡ some true)
        × Shown codes hub_temp
            (rig.hub_connected && rig.probes_configured)
            draw.hub
            ts
            (node_value hub_temp.tag (poll_stub codes registers discretes ts after b).0.nodes)
        × Shown codes ambient_temp
            (rig.ambient_connected && rig.probes_configured)
            draw.ambient
            ts
            (node_value ambient_temp.tag (poll_stub codes registers discretes ts after b).0.nodes)
  unfolding readings point_readings digital_readings reading_of scan_registers same_text
  poll_stub-Shown codes ts draw rig after b words e w ww f1 r1 f2 r2 n =
      let filled = subst (Filled draw rig) e (step-Filled draw rig) in
      let size : length words ≡ 8 =
        sym (length-registers_of words) ∙ ap (λ (l : List ℤ). length l) (sym w ∙ filled.0) in
      let out = discretes_reply-bits after filled.1 in
      let enough : 3 ≤ length out.0 =
        omega (arith, length-take_le 3 out.0, ap (λ (l : List Bool). length l) out.1, filled.1) in
      let s = poll_once-settled codes ts words out.0 b n (omega arith) enough in
      let read = step-Read codes draw rig words e w f1 r1 f2 r2 in
      let status : s.0 ≡ scan_status rig = some-injective _ _ (sym s.1 ∙ read.0) in
      rw (registers_reply-words after words w size ww, out.2, s.2, status)
        (
          refl,
          rw (node_value-settled hub_temp.tag ts (readings codes words out.0 (scan_status rig)))
              (Read-Shown codes hub_temp _ draw.hub ts _ read.1),
          rw (node_value-settled ambient_temp.tag ts (readings codes words out.0 (scan_status rig)))
              (Read-Shown codes ambient_temp _ draw.ambient ts _ read.2),
        )
