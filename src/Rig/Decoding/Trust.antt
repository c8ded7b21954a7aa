-- ===== src/Rig/Decoding/Trust.antt =====
-- sim/bridge.py, `decode`: when a register's word becomes a value.
use mathlib.Core.Option.{some-injective}
use mathlib.Core.Path.{subst}
use kpcl_hardware.Common.{
  ◌&&◌, ℕ, if_elim, Option, ◌≡◌, refl, ◌⊎◌, inl, inr, Bool, true, false, not, none, some, List,
  ◌==◌, if◌then◌else◌, get_elem?, arith, Bool-cases,
}
use kpcl_hardware.Collector.Model.{severity_bits}
use kpcl_hardware.Rig.Registers.{acs_ok, acs_zeroed, probes_config, has_bit, to_word}
use kpcl_hardware.Rig.Decoding.{
  Codes, Point, Decoded, decode, decode_word, decode_from, invalid, bit_clear, bad_code_of, refusal,
  reading, ReadReason, failed_device, outside_range, double,
}

-- What lets a word be believed: every status bit that the point needs is set, and the word is not the
-- sentinel.
pub record Trusted (p : Point) (registers : List ℕ) (status raw : ℕ) : Type 0 where
  pub bit : has_bit status p.status_bit ≡ true
  pub probes : p.needs_probe_config ≡ true → has_bit status probes_config ≡ true
  pub zeroed : (p.status_bit == acs_ok) ≡ true → has_bit status acs_zeroed ≡ true
  pub held : get_elem? registers p.register ≡ some raw
  pub real : (raw == to_word (invalid p)) ≡ false

-- The failure codes are Bad.
pub record BadCodes (codes : Codes) : Type 0 where
  pub device : severity_bits codes.device_failure ≡ 2
  pub configuration : severity_bits codes.configuration ≡ 2
  pub range : severity_bits codes.out_of_range ≡ 2

guard_off : (a b : Bool) → (a && not b) ≡ false → a ≡ true → b ≡ true
guard_off a b h k = ground arith

not_off : (b : Bool) → not b ≡ false → b ≡ true
not_off b h = ground arith

-- No value and a Bad quality, or the value of a trusted word.
abbrev pub Honest : Codes → Point → List ℕ → ℕ → Decoded → Type 0
Honest codes p registers status d =
    (d.value ≡ none) × (severity_bits d.quality ≡ 2)
    ⊎ (raw : ℕ) × Trusted p registers status raw
      × (d.value ≡ some (double (reading p raw)))
      × (d.quality ≡ (if p.uncalibrated then codes.uncertain_calibration else codes.good))

bad_code-Bad :
    (codes : Codes)
    → BadCodes codes
    → (p : Point) → severity_bits (bad_code_of codes p.bad_code) ≡ 2
unfolding bad_code_of
bad_code-Bad codes bad p = by_code p.bad_code
  where
    by_code : (c : _) → severity_bits (bad_code_of codes c) ≡ 2
    by_code failed_device = bad.device
    by_code outside_range = bad.range

-- Every status bit that the point needs is set.
record Allowed (p : Point) (status : ℕ) : Type 0 where
  bit : has_bit status p.status_bit ≡ true
  probes : p.needs_probe_config ≡ true → has_bit status probes_config ≡ true
  zeroed : (p.status_bit == acs_ok) ≡ true → has_bit status acs_zeroed ≡ true

refusal-Allowed :
    (codes : Codes) (p : Point) (status : ℕ) → Allowed p status → refusal codes p status ≡ none
unfolding refusal
refusal-Allowed codes p status a =
    let bit = a.bit in
    elim (Bool-cases p.needs_probe_config) [
      | inl e ↦
          let probes = a.probes e in
          elim (Bool-cases (p.status_bit == acs_ok)) [
            | inl z ↦ let zeroed = a.zeroed z in ground arith
            | inr z ↦ ground arith
          ]
      | inr e ↦ elim (Bool-cases (p.status_bit == acs_ok)) [
        | inl z ↦ let zeroed = a.zeroed z in ground arith
        | inr z ↦ ground arith
      ]
    ]

abbrev Refused : Point → ℕ → Option (ℕ × ReadReason) → Type 0
Refused p status none = Allowed p status
Refused p status (some (quality, why)) = severity_bits quality ≡ 2

refusal-Refused :
    (codes : Codes)
    → BadCodes codes
    → (p : Point) (status : ℕ) → Refused p status (refusal codes p status)
unfolding refusal
refusal-Refused codes bad p status =
    if_elim (Refused p status) _ (λ e. bad.configuration)
      (λ e.
        if_elim (Refused p status) _ (λ f. bad.device)
          (λ f.
            if_elim (Refused p status) (not (has_bit status p.status_bit))
              {x = some (bad_code_of codes p.bad_code, bit_clear)} {y = none}
              (λ g. bad_code-Bad codes bad p)
              (λ g. record {
                bit = not_off (has_bit status p.status_bit) g;
                probes = guard_off p.needs_probe_config (has_bit status probes_config) e;
                zeroed = guard_off (p.status_bit == acs_ok) (has_bit status acs_zeroed) f;
              })))

-- A trusted word is decoded to its number in the point's unit, as Good, or as Uncertain for a point
-- that is not calibrated.
pub decode-Trusted :
    (codes : Codes) (p : Point) (registers : List ℕ) (status raw : ℕ)
    → Trusted p registers status raw
    → (d : Decoded) × (decode codes p registers status ≡ some d)
      × (d.value ≡ some (double (reading p raw)))
      × (d.quality ≡ (if p.uncalibrated then codes.uncertain_calibration else codes.good))
unfolding decode decode_from decode_word
decode-Trusted codes p registers status raw t =
    let real = t.real in
    let none_is =
      refusal-Allowed codes p status
        (record { bit = t.bit; probes = t.probes; zeroed = t.zeroed }) in
    (decode_word codes p raw, rw (none_is, t.held) refl, ground arith, ground arith)

decode_word-Honest :
    (codes : Codes) (bad : BadCodes codes) (p : Point) (registers : List ℕ) (status raw : ℕ)
    → Allowed p status
    → get_elem? registers p.register ≡ some raw
    → Honest codes p registers status (decode_word codes p raw)
unfolding decode_word
decode_word-Honest codes bad p registers status raw a held =
    if_elim (Honest codes p registers status) (raw == to_word (invalid p))
      (λ e. inl (refl, bad.device))
      (λ e. inr (
        raw,
        record { bit = a.bit; probes = a.probes; zeroed = a.zeroed; held = held; real = e },
        ground arith,
        ground arith,
      ))

decode_from-Honest :
    (codes : Codes) (bad : BadCodes codes) (p : Point) (registers : List ℕ) (status : ℕ)
    (o : Option (ℕ × ReadReason)) (w : Option ℕ) {d : Decoded}
    → Refused p status o
    → get_elem? registers p.register ≡ w
    → decode_from codes p o w ≡ some d
    → Honest codes p registers status d
unfolding decode_from
decode_from-Honest codes bad p registers status (some (quality, why)) w a held h =
    subst (Honest codes p registers status) (some-injective _ _ h) (inl (refl, a))
decode_from-Honest codes bad p registers status none none a held h = cc
decode_from-Honest codes bad p registers status none (some raw) a held h =
    subst (Honest codes p registers status) (some-injective _ _ h)
      (decode_word-Honest codes bad p registers status raw a held)

-- What `decode` returns is either no value with a Bad quality, or the value of a trusted word, one
-- whose status bits are all set and which is not the sentinel, as Good, or as Uncertain for a point
-- that is not calibrated; the failure codes are Bad.
pub decode-Honest :
    (codes : Codes) (bad : BadCodes codes) (p : Point) (registers : List ℕ) (status : ℕ)
    {d : Decoded}
    → decode codes p registers status ≡ some d
    → Honest codes p registers status d
unfolding decode
decode-Honest codes bad p registers status h =
    decode_from-Honest codes bad p registers status (refusal codes p status)
      (get_elem? registers p.register) (refusal-Refused codes bad p status) refl h
