-- ===== src/Rig/Stub/Scan.antt =====
-- firmware/rig_stub.py, `step`, read by sim/bridge.py, `decode`: a probe's temperature on its way from
-- the rig to the address space.
use mathlib.Core.Path.{subst}
use kpcl_hardware.Common.{
  ℕ, ◌≡◌, ◌⊎◌, inl, inr, if_elim, refl, sym, ap, ◌∙◌, zero, suc, true, false, Bool, not, ◌&&◌, ◌||◌,
  Option, none, some, List, [], ◌∷◌, ◌==◌, if◌then◌else◌, get_elem?, length, arith,
}
use kpcl_hardware.Common.Int.{ℤ, pos, negsuc, ◌*ℤ◌, eqb_ℤ}
use kpcl_hardware.Rig.Registers.{
  Fits, to_word, signed-to_word, has_bit, hub_ok, ambient_ok, probes_config, acs_ok, switch_fitted,
  relays_fitted, invalid_s16, invalid_u16, status_word,
}
use kpcl_hardware.Rig.Decoding.{
  Codes, Decoded, Point, decode, decode_from, decode_word, refusal, bad_code_of, bit_clear,
  probes_not_configured, failed_device, hub_temp, ambient_temp, invalid, reading, double,
}
use kpcl_hardware.Rig.Stub.{
  RigStub, Draw, step, scan_registers, scan_vibration, scan_status, status_of, probe_word,
}
use kpcl_hardware.Rig.Stub.Pdu.{registers_of}

abbrev same_truth : Bool → Bool → Bool
same_truth true b = b
same_truth false b = not b

same_truth→≡ : (a b : Bool) → same_truth a b ≡ true → a ≡ b
same_truth→≡ a b h = ground arith

-- A test of Booleans that holds of both.
abbrev both : (Bool → Bool) → Bool
both f = f true && f false

both→all : (f : Bool → Bool) → both f ≡ true → (b : Bool) → f b ≡ true
both→all f h true = ground arith
both→all f h false = ground arith

-- Each bit of the status word says what it is about.
abbrev tells : Bool → Bool → Bool → Bool → Bool → Bool
tells p h a r s =
    let status = status_of p h a r s in
    same_truth (has_bit status probes_config) p
    && same_truth (has_bit status hub_ok) (h && p)
    && same_truth (has_bit status ambient_ok) (a && p)
    && same_truth (has_bit status relays_fitted) r
    && same_truth (has_bit status switch_fitted) s

all_tell : both (λ p. both (λ h. both (λ a. both (λ r. both (λ s. tells p h a r s))))) ≡ true
unfolding status_of
all_tell = refl

status_of-tells : (p h a r s : Bool) → tells p h a r s ≡ true
status_of-tells p h a r = both→all (tells p h a r) (
    both→all (λ r. both (tells p h a r))
      (both→all (λ a. both (λ r. both (tells p h a r)))
        (both→all (λ h. both (λ a. both (λ r. both (tells p h a r))))
          (both→all (λ p. both (λ h. both (λ a. both (λ r. both (tells p h a r))))) all_tell p) h)
        a)
      r)

-- What the bits that the probes depend on say.
record Told (rig : RigStub) : Type 0 where
  config : has_bit (scan_status rig) probes_config ≡ rig.probes_configured
  hub : has_bit (scan_status rig) hub_ok ≡ (rig.hub_connected && rig.probes_configured)
  ambient : has_bit (scan_status rig) ambient_ok ≡ (rig.ambient_connected && rig.probes_configured)

scan_status-Told : (rig : RigStub) → Told rig
unfolding scan_status
scan_status-Told rig =
    let h =
      status_of-tells rig.probes_configured rig.hub_connected rig.ambient_connected rig.has_relays
        rig.has_switch in
    record {
      config = same_truth→≡ _ _ (ground arith);
      hub = same_truth→≡ _ _ (ground arith);
      ambient = same_truth→≡ _ _ (ground arith);
    }

-- A temperature probe that answers is decoded to the temperature drawn for it, as Good; one that does
-- not is decoded to no value.
abbrev pub Read : Codes → Point → Bool → ℤ → Option Decoded → Type 0
Read codes p true z o =
    o
    ≡ some
        (record { value = some (double (z *ℤ pos p.scale)); quality = codes.good; reason = none })
Read codes p false z o =
    (d : Decoded) × (o ≡ some d)
    × (d.value ≡ none)
    × ((d.quality ≡ codes.device_failure) ⊎ (d.quality ≡ codes.configuration))

-- A point of the map that is a temperature probe.
record IsProbe (p : Point) : Type 0 where
  is_signed : p.is_signed ≡ true
  needs : p.needs_probe_config ≡ true
  calibrated : p.uncalibrated ≡ false
  no_current : (p.status_bit == acs_ok) ≡ false
  fails : p.bad_code ≡ failed_device

to_word-real :
    (z : ℤ) → Fits z → eqb_ℤ z invalid_s16 ≡ false → (to_word z == to_word invalid_s16) ≡ false
unfolding to_word
to_word-real (pos n) fits real = let below = fits.below in ground arith
to_word-real (negsuc n) fits real = let above = fits.above in ground arith

-- What the status word makes of a probe.
probe-refusal :
    (codes : Codes) (p : Point) (status : ℕ)
    → IsProbe p
    → refusal codes p status ≡ (
        if has_bit status probes_config
        then (if has_bit status p.status_bit
            then none
            else some (bad_code_of codes p.bad_code, bit_clear))
        else some (codes.configuration, probes_not_configured))
unfolding refusal
probe-refusal codes p status k =
    let needs = k.needs in let no_current = k.no_current in ground arith

decode_word-real :
    (codes : Codes) (p : Point) (z : ℤ)
    → IsProbe p
    → Fits z
    → eqb_ℤ z invalid_s16 ≡ false
    → decode_word codes p (to_word z)
      ≡ record { value = some (double (z *ℤ pos p.scale)); quality = codes.good; reason = none }
unfolding decode_word invalid reading
decode_word-real codes p z k fits real =
    rw (k.is_signed, to_word-real z fits real, k.calibrated, signed-to_word z fits) refl

probe-Read :
    (codes : Codes) (p : Point) (words : List ℕ) (status : ℕ) (configured present : Bool) (z : ℤ)
    → IsProbe p
    → has_bit status probes_config ≡ configured
    → has_bit status p.status_bit ≡ (present && configured)
    → get_elem? words p.register ≡ some (probe_word (present && configured) z)
    → Fits z
    → eqb_ℤ z invalid_s16 ≡ false
    → Read codes p (present && configured) z (decode codes p words status)
unfolding decode decode_from bad_code_of probe_word
probe-Read codes p words status true true z k c b w fits real =
    rw (probe-refusal codes p status k, c, b, w, decode_word-real codes p z k fits real) refl
probe-Read codes p words status true false z k c b w fits real =
    rw (probe-refusal codes p status k, c, b, k.fails) (_, refl, refl, inl refl)
probe-Read codes p words status false true z k c b w fits real =
    rw (probe-refusal codes p status k, c) (_, refl, refl, inr refl)
probe-Read codes p words status false false z k c b w fits real =
    rw (probe-refusal codes p status k, c) (_, refl, refl, inr refl)

get_elem?-registers_of :
    (ws : List ℕ) (i : ℕ) {n : ℕ}
    → get_elem? (registers_of ws) i ≡ some (pos n)
    → get_elem? ws i ≡ some n
unfolding registers_of
get_elem?-registers_of [] i e = cc
get_elem?-registers_of (w ∷ ws) zero e = cc
get_elem?-registers_of (w ∷ ws) (suc i) e = get_elem?-registers_of ws i e

-- What a step that does not raise leaves in the registers.
abbrev pub Filled : Draw → RigStub → Option RigStub → Type 0
Filled draw rig none = Unit
Filled draw rig (some after) =
    (after.input_registers ≡ scan_registers draw rig) × (length after.discrete_inputs ≡ 3)

pub step-Filled : (draw : Draw) (rig : RigStub) → Filled draw rig (step draw rig)
unfolding step
step-Filled draw rig =
    if_elim (Filled draw rig)
      (eqb_ℤ (scan_vibration draw rig) invalid_u16 || eqb_ℤ draw.supply invalid_u16) (λ e. tt)
      (λ e. (refl, refl))

-- After a scan, the words of the registers decoded with their status word tell, of each temperature
-- probe, the temperature drawn for it, as Good, if it is connected and the probes are configured, and
-- no value otherwise; the temperatures drawn are numbers that a register can hold and are not the
-- sentinel.
pub step-Read :
    (codes : Codes) (draw : Draw) (rig : RigStub) (words : List ℕ) {after : RigStub}
    → step draw rig ≡ some after
    → after.input_registers ≡ registers_of words
    → Fits draw.hub
    → eqb_ℤ draw.hub invalid_s16 ≡ false
    → Fits draw.ambient
    → eqb_ℤ draw.ambient invalid_s16 ≡ false
    → (get_elem? words status_word ≡ some (scan_status rig))
      × Read codes hub_temp
          (rig.hub_connected && rig.probes_configured)
          draw.hub
          (decode codes hub_temp words (scan_status rig))
      × Read codes ambient_temp
          (rig.ambient_connected && rig.probes_configured)
          draw.ambient
          (decode codes ambient_temp words (scan_status rig))
unfolding scan_registers
step-Read codes draw rig words e w f1 r1 f2 r2 =
    let same : registers_of words ≡ scan_registers draw rig =
      sym w ∙ (subst (Filled draw rig) e (step-Filled draw rig)).0 in
    let told = scan_status-Told rig in
    let at = λ (i n : ℕ) (h : get_elem? (scan_registers draw rig) i ≡ some (pos n)).
      get_elem?-registers_of words i (ap (λ (l : List ℤ). get_elem? l i) same ∙ h) in
    (
      at 5 (scan_status rig) refl,
      probe-Read codes hub_temp words (scan_status rig) rig.probes_configured rig.hub_connected
          draw.hub
          (record {
            is_signed = refl;
            needs = refl;
            calibrated = refl;
            no_current = refl;
            fails = refl;
          })
          told.config told.hub (at 2 _ refl) f1 r1,
      probe-Read codes ambient_temp words (scan_status rig) rig.probes_configured
          rig.ambient_connected draw.ambient
          (record {
            is_signed = refl;
            needs = refl;
            calibrated = refl;
            no_current = refl;
            fails = refl;
          })
          told.config told.ambient (at 3 _ refl) f2 r2,
    )
