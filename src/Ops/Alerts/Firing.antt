-- ===== src/Ops/Alerts/Firing.antt =====
-- ops/alerts.py, `evaluate` for a tag: what a threshold alarm stands on.
use kpcl_hardware.Common.{
  ℕ, suc, ◌≤◌, ◌≡◌, refl, Bool, true, false, ◌&&◌, ◌==◌, ==_iff, if_elim, Option, none, some, List,
  [], ◌∷◌, ltb, if◌then◌else◌, length, keep_if, all_of, arith, All, ◌≢◌,
}
use kpcl_hardware.Common.Int.{ℤ}
use kpcl_hardware.Engine.Events.{Comparison, compare_values}
use kpcl_hardware.Ops.Alerts.{
  SampleRow, Rule, compared, Verdict, is_usable, exceeds, evaluate_threshold, evaluate_rows,
  evaluate_tag, rows_since, window_of, is_stale_condition,
}

-- A Good row whose value satisfies the comparison.
pub record Trips (comparison : Comparison) (threshold : ℤ) (r : SampleRow) : Type 0 where
  pub good : r.quality ≡ 0
  pub value : ℤ
  pub value_is : r.value ≡ some value
  pub satisfies : compare_values comparison value threshold ≡ true

keep_if-shorter :
    (p : SampleRow → Bool) (rows : List SampleRow) → length (keep_if p rows) ≤ length rows
keep_if-shorter p [] = omega arith
keep_if-shorter p (r ∷ rows) =
    let ih = keep_if-shorter p rows in
    if_elim (λ (l : List SampleRow). length l ≤ suc (length rows)) (p r) (λ e. omega arith)
      (λ e. omega arith)

and_left : (a b : Bool) → (a && b) ≡ true → a ≡ true
and_left true b h = refl
and_left false b h = h

both : (a b : Bool) → (if a then b else false) ≡ true → (a ≡ true) × (b ≡ true)
both true b h = (refl, h)
both false b h = cc

tripping :
    (c : Comparison) (t : ℤ) (r : SampleRow) (o : Option ℤ)
    → r.value ≡ o
    → (r.quality == 0 && (elim o [ none ↦ false | some v ↦ true ])) ≡ true
    → (elim o [ none ↦ false | some v ↦ compare_values c v t ]) ≡ true
    → Trips c t r
tripping c t r none e u x = cc
tripping c t r (some v) e u x = record {
  good = (==_iff r.quality 0).0 (and_left (r.quality == 0) _ u);
  value = v;
  value_is = e;
  satisfies = x;
}

row-Trips :
    (c : Comparison) (t : ℤ) (r : SampleRow)
    → is_usable r ≡ true
    → exceeds c t r ≡ true
    → Trips c t r
unfolding is_usable exceeds
row-Trips c t r u e = tripping c t r r.value refl u e

-- If every row is kept and every kept row passes, every row trips.
every_trip :
    (c : Comparison) (t : ℤ) (rows : List SampleRow)
    → length rows ≤ length (keep_if is_usable rows)
    → all_of (exceeds c t) (keep_if is_usable rows) ≡ true
    → All (Trips c t) rows
every_trip c t [] l a = tt
every_trip c t (r ∷ rows) l a =
    if_elim
      (λ (kept : List SampleRow).
        suc (length rows) ≤ length kept
        → all_of (exceeds c t) kept ≡ true
        → All (Trips c t) (r ∷ rows))
      (is_usable r)
      (λ u m x.
        let (e, rest) = both (exceeds c t r) (all_of (exceeds c t) (keep_if is_usable rows)) x in
        (row-Trips c t r u e, every_trip c t rows (omega arith) rest))
      (λ u m x. let few = keep_if-shorter is_usable rows in absurd (omega arith)) l a

abbrev TripsIf : Comparison → ℤ → List SampleRow → Verdict → Type 0
TripsIf c t rows v = v.firing ≡ true → All (Trips c t) rows

threshold-Trips :
    (c : Comparison) (t : ℤ) (rows : List SampleRow)
    → (evaluate_threshold c t rows).firing ≡ true
    → All (Trips c t) rows
unfolding evaluate_threshold
threshold-Trips c t rows =
    let good = keep_if is_usable rows in
    if_elim (TripsIf c t rows) (length good == 0) (λ e h. cc)
      (λ e.
        if_elim (TripsIf c t rows) (ltb (length good) (length rows)) (λ f h. cc)
          (λ f.
            if_elim (TripsIf c t rows) (all_of (exceeds c t) good)
              (λ g h. every_trip c t rows (no_fewer (length good) (length rows) f) g) (λ g h. cc)))
  where
    no_fewer : (a b : ℕ) → ltb a b ≡ false → b ≤ a
    no_fewer a b h = ground arith

abbrev FiresOn : Comparison → ℤ → List SampleRow → Verdict → Type 0
FiresOn c t rows v = v.firing ≡ true → (rows ≢ []) × All (Trips c t) rows

not_empty : (rows : List SampleRow) → (length rows == 0) ≡ false → rows ≢ []
not_empty [] h e = cc
not_empty (r ∷ rows) h e = cc

rows-Trips :
    (rule : Rule) (c : Comparison) (t : ℤ) (rows : List SampleRow)
    → rule.condition ≡ compared c
    → rule.threshold ≡ some t
    → (evaluate_rows rule rows).firing ≡ true
    → All (Trips c t) rows
unfolding evaluate_rows
rows-Trips rule c t rows q e h = threshold-Trips c t rows (rw (q, e, evaluate_rows) at h)

-- A rule that compares a tag with a threshold fires only if there is a row and every row of the window,
-- and the newest one before it, is Good and has a value that satisfies the comparison.
pub evaluate_tag-Trips :
    (rule : Rule) (c : Comparison) (t : ℤ) (now : ℕ) (history : List SampleRow)
    → rule.condition ≡ compared c
    → rule.threshold ≡ some t
    → (evaluate_tag rule now history).firing ≡ true
    → (rows_since now (window_of rule) history ≢ [])
      × All (Trips c t) (rows_since now (window_of rule) history)
unfolding evaluate_tag is_stale_condition
evaluate_tag-Trips rule c t now history q e =
    let rows = rows_since now (window_of rule) history in
    let live : is_stale_condition rule.condition ≡ false = rw q refl in
    rw (live, evaluate_tag)
      (if_elim (FiresOn c t rows) (length rows == 0) (λ z h. cc)
        (λ z h. (not_empty rows z, rows-Trips rule c t rows q e h)))
