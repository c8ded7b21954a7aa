-- ===== src/Engine/Kpi/Honest.antt =====
-- engine/kpi.py, `compute`: where the number of a result comes from.
use kpcl_hardware.Common.{
  ℕ, ◌≡◌, ◌≢◌, refl, sym, ◌∙◌, Bool, true, false, ◌==◌, ==_iff, if◌then◌else◌, Option, none, some,
  List, [], ◌∷◌, any_of, ◌||◌, ◌⊎◌, inl, inr, All, if_elim,
}
use kpcl_hardware.Engine.Quality.{severity}
use kpcl_hardware.Engine.Kpi
use kpcl_hardware.Engine.Kpi.{
  Floats, Outcome, KpiCodes, InputValue, KpiDefinition, KpiResult, is_bad_input, is_uncertain_input,
  is_outside, judge, names_of, compute, safe_eval,
}

or_false : (a b : Bool) → (a || b) ≡ false → (a ≡ false) × (b ≡ false)
or_false true b h = cc
or_false false b h = (refl, h)

neither : (a b : Bool) → (if a then true else b) ≡ false → (a ≡ false) × (b ≡ false)
neither true b h = cc
neither false b h = (refl, h)

differ : (a b : ℕ) → (a == b) ≡ false → a ≢ b
differ a b h q =
    let t : (a == b) ≡ true = (==_iff a b).1 q in let no : true ≡ false = sym t ∙ h in cc

module _ (fl : Floats) (codes : KpiCodes) where
  -- An input that has a value, and a quality that is neither Bad nor Uncertain.
  pub record Usable (i : InputValue fl) : Type 0 where
    pub value : fl.Float
    pub value_is : i.value ≡ some value
    pub not_bad : severity i.quality ≢ 2
    pub not_uncertain : severity i.quality ≢ 1

  -- A result without a number and with one of the five codes, or the equation's value at usable
  -- inputs, inside the validity range, with quality Good.
  pub data Honest (d : KpiDefinition fl) (inputs : List (InputValue fl)) (r : KpiResult fl)
      : Type 0 where
    refused :
        r.value ≡ none
        → (r.quality ≡ codes.bad_input)
          ⊎ (r.quality ≡ codes.uncertain_input)
          ⊎ (r.quality ≡ codes.bad_divide)
          ⊎ (r.quality ≡ codes.bad_no_data)
          ⊎ (r.quality ≡ codes.uncertain_validity)
        → Honest d inputs r
    computed :
        (v : fl.Float)
        → r.value ≡ some v
        → r.quality ≡ 0
        → All Usable inputs
        → safe_eval fl d.equation (names_of fl d inputs) ≡ Kpi.value v
        → is_outside fl d v ≡ false
        → Honest d inputs r

  Usable-input :
      (i : InputValue fl) (o : Option fl.Float)
      → i.value ≡ o
      → ((severity i.quality == 2) || (elim o [ none ↦ true | some v ↦ false ])) ≡ false
      → (severity i.quality == 1) ≡ false
      → Usable i
  Usable-input i none e b u =
      let no : true ≡ false = (or_false (severity i.quality == 2) true b).1 in cc
  Usable-input i (some v) e b u = record {
    value = v;
    value_is = e;
    not_bad = differ (severity i.quality) 2 (or_false (severity i.quality == 2) _ b).0;
    not_uncertain = differ (severity i.quality) 1 u;
  }

  every_input-Usable :
      (inputs : List (InputValue fl))
      → any_of (is_bad_input fl) inputs ≡ false
      → any_of (is_uncertain_input fl) inputs ≡ false
      → All Usable inputs
  unfolding is_bad_input is_uncertain_input
  every_input-Usable [] b u = tt
  every_input-Usable (i ∷ rest) b u =
      let (bad, no_bad) = neither (is_bad_input fl i) (any_of (is_bad_input fl) rest) b in
      let (unsure, no_unsure) =
        neither (is_uncertain_input fl i) (any_of (is_uncertain_input fl) rest) u in
      (Usable-input i i.value refl bad unsure, every_input-Usable rest no_bad no_unsure)

  result_value : {a r : KpiResult fl} → some a ≡ some r → r.value ≡ a.value
  result_value h = cc

  result_quality : {a r : KpiResult fl} → some a ≡ some r → r.quality ≡ a.quality
  result_quality h = cc

  judge-Honest :
      (d : KpiDefinition fl) (inputs : List (InputValue fl)) (o : Outcome fl.Float)
      (r : KpiResult fl)
      → All Usable inputs
      → safe_eval fl d.equation (names_of fl d inputs) ≡ o
      → judge fl codes d o ≡ some r
      → Honest d inputs r
  unfolding judge
  judge-Honest d inputs (Kpi.value v) r a e k =
      if_elim (λ (x : Option (KpiResult fl)). x ≡ some r → Honest d inputs r) (is_outside fl d v)
        (λ out h. refused (result_value h) (inr (inr (inr (inr (result_quality h))))))
        (λ inside h. computed v (result_value h) (result_quality h) a e inside) k
  judge-Honest d inputs Kpi.division_by_zero r a e h =
      refused (result_value h) (inr (inr (inl (result_quality h))))
  judge-Honest d inputs Kpi.equation_error r a e h =
      refused (result_value h) (inr (inr (inr (inl (result_quality h)))))
  judge-Honest d inputs Kpi.other_exception r a e h = cc

  -- Whatever the equation, the inputs and the float arithmetic, a result of `compute` is without a number
  -- and with one of the five codes; or it is Good, every input has a value and is neither Bad nor
  -- Uncertain, and its number is the equation's value at the inputs and the constants, inside the
  -- validity range.
  pub compute-Honest :
      (d : KpiDefinition fl) (inputs : List (InputValue fl)) (r : KpiResult fl)
      → compute fl codes d inputs ≡ some r
      → Honest d inputs r
  unfolding compute
  compute-Honest d inputs r =
      if_elim (λ (x : Option (KpiResult fl)). x ≡ some r → Honest d inputs r)
        (any_of (is_bad_input fl) inputs)
        (λ bad h. refused (result_value h) (inl (result_quality h)))
        (λ fine.
          if_elim (λ (x : Option (KpiResult fl)). x ≡ some r → Honest d inputs r)
            (any_of (is_uncertain_input fl) inputs)
            (λ unsure h. refused (result_value h) (inr (inl (result_quality h))))
            (λ sure h.
              judge-Honest d inputs (safe_eval fl d.equation (names_of fl d inputs)) r
                (every_input-Usable inputs fine sure) refl h))
