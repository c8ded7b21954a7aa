-- ===== src/Collector/Pipeline/Store.antt =====
-- collector/pipeline.py, `drain`, as operations of one store: a map from a tag and a source timestamp to
-- the sample that came first, whether it lies in the archive or still in the buffer.
pub mod Insert
pub mod Drained
pub mod Recovered
pub mod Lost
use kpcl_hardware.Common.{
  ℕ, ◌≡◌, ◌∙◌, refl, sym, ap, true, false, Bool, not, ◌&&◌, Option, none, some, List, [], ◌∷◌, ◌++◌,
  map, ◌==◌, if◌then◌else◌, keep_if, any_of, In, here, there, arith, Bool-cases, inl, inr, ◌⊎◌,
  if_elim, ==_iff,
}
use kpcl_hardware.Collector.Model.{Sample}
use kpcl_hardware.Collector.Buffer.{Row}
use kpcl_hardware.Collector.Buffer.Ids.{IdsAscend, same_row, id_taken}

unfoldable pub has_key : ℕ → ℕ → Sample → Bool
has_key tag ts s = s.tag_id == tag && s.source_ts == ts

-- The first sample of a key.
unfoldable pub found : ℕ → ℕ → List Sample → Option Sample
unfolding has_key
found tag ts [] = none
found tag ts (s ∷ ss) = if has_key tag ts s then some s else found tag ts ss

-- The first of two answers that is one.
unfoldable pub or_else : Option Sample → Option Sample → Option Sample
or_else (some a) b = some a
or_else none b = b

abbrev pub samples : List Row → List Sample
samples rows = map (λ (r : Row). r.sample) rows

pub or_else_assoc : (a b c : Option Sample) → or_else (or_else a b) c ≡ or_else a (or_else b c)
unfolding or_else
or_else_assoc none b c = refl
or_else_assoc (some a) b c = refl

pub found-append :
    (tag ts : ℕ) (xs ys : List Sample)
    → found tag ts (xs ++ ys) ≡ or_else (found tag ts xs) (found tag ts ys)
unfolding found or_else
found-append tag ts [] ys = refl
found-append tag ts (x ∷ xs) ys = elim (Bool-cases (has_key tag ts x)) [
  | inl e ↦ rw e refl
  | inr e ↦ rw e (found-append tag ts xs ys)
]

-- A row whose sample is found.
pub record FoundRow (tag ts : ℕ) (rows : List Row) : Type 0 where
  pub row : Row
  pub listed : In row rows
  pub keyed : has_key tag ts row.sample ≡ true
  pub is_found : found tag ts (samples rows) ≡ some row.sample

pub found_row :
    (tag ts : ℕ) (rows : List Row) → FoundRow tag ts rows ⊎ (found tag ts (samples rows) ≡ none)
unfolding found
found_row tag ts [] = inr refl
found_row tag ts (r ∷ rows) = elim (Bool-cases (has_key tag ts r.sample)) [
  | inl e ↦ inl (record { row = r; listed = here refl; keyed = e; is_found = rw e refl })
  | inr e ↦ elim (found_row tag ts rows) [
    | inl f ↦ inl (record {
      row = f.row;
      listed = there f.listed;
      keyed = f.keyed;
      is_found = rw e f.is_found;
    })
    | inr n ↦ inr (rw e n)
  ]
]

-- A row's key is found among the rows, so that it is not missing.
pub missing_key :
    (tag ts : ℕ) {r : Row} (rows : List Row)
    → In r rows
    → found tag ts (samples rows) ≡ none
    → has_key tag ts r.sample ≡ false
unfolding found
missing_key tag ts {r} [] l n = elim l [ ]
missing_key tag ts {r} (q ∷ rows) (here l) n = elim (Bool-cases (has_key tag ts q.sample)) [
  | inl e ↦ let no : some q.sample ≡ none = rw e at n in cc
  | inr e ↦ rw l e
]
missing_key tag ts {r} (q ∷ rows) (there l) n = elim (Bool-cases (has_key tag ts q.sample)) [
  | inl e ↦ let no : some q.sample ≡ none = rw e at n in cc
  | inr e ↦ missing_key tag ts rows l (rw e at n)
]

-- Two rows of one key are one row: the UNIQUE (tag_id, source_us) of the table.
abbrev pub OneEach : List Row → Type 0
OneEach rows =
    (tag ts : ℕ) (r q : Row)
    → In r rows
    → In q rows
    → has_key tag ts r.sample ≡ true
    → has_key tag ts q.sample ≡ true
    → r ≡ q

found-In :
    (tag ts : ℕ) {r : Row} (rows : List Row)
    → OneEach rows
    → In r rows
    → has_key tag ts r.sample ≡ true
    → found tag ts (samples rows) ≡ some r.sample
found-In tag ts {r} rows one l k = elim (found_row tag ts rows) [
  | inl f ↦ f.is_found ∙ ap (λ (x : Row). some x.sample) (one tag ts f.row r f.listed l f.keyed k)
  | inr n ↦ let no = missing_key tag ts rows l n in cc
]

-- Dropping rows of other keys changes nothing about a key.
found-keep_if :
    (tag ts : ℕ) (p : Row → Bool) (rows : List Row)
    → ((r : Row) → In r rows → has_key tag ts r.sample ≡ true → p r ≡ true)
    → found tag ts (samples (keep_if p rows)) ≡ found tag ts (samples rows)
unfolding found
found-keep_if tag ts p [] h = refl
found-keep_if tag ts p (r ∷ rows) h =
    let rest = found-keep_if tag ts p rows (λ q l. h q (there l)) in
    elim (Bool-cases (p r)) [
      | inl e ↦ rw e (rw rest refl)
      | inr e ↦ elim (Bool-cases (has_key tag ts r.sample)) [
        | inl k ↦ let yes = h r (here refl) k in cc
        | inr k ↦ rw (e, k) rest
      ]
    ]

module _ (tag ts : ℕ) (rows taken : List Row) (one : OneEach rows) (ids : IdsAscend rows)
    (part : (x : Row) → In x taken → In x rows) where
  -- What is taken is what the rows say, or the rest says it.
  pub taken-or_else-rows :
      or_else (found tag ts (samples taken)) (found tag ts (samples rows))
      ≡ found tag ts (samples rows)
  unfolding or_else
  taken-or_else-rows = elim (found_row tag ts taken) [
    | inl f ↦ rw f.is_found (sym (found-In tag ts rows one (part f.row f.listed) f.keyed))
    | inr n ↦ rw n refl
  ]

  pub taken-or_else-left :
      or_else (found tag ts (samples taken)) (
        found tag ts
          (samples (keep_if (λ r. not (any_of (λ i. r.id == i) (map (λ x. x.id) taken))) rows)))
      ≡ found tag ts (samples rows)
  unfolding or_else
  taken-or_else-left = elim (found_row tag ts taken) [
    | inl f ↦ rw f.is_found (sym (found-In tag ts rows one (part f.row f.listed) f.keyed))
    | inr n ↦ rw n (found-keep_if tag ts _ rows (λ r l k. stays r l k n))
  ]
    where
      stays :
          (r : Row)
          → In r rows
          → has_key tag ts r.sample ≡ true
          → found tag ts (samples taken) ≡ none
          → not (any_of (λ i. r.id == i) (map (λ x. x.id) taken)) ≡ true
      stays r l k n = elim (Bool-cases (any_of (λ i. r.id == i) (map (λ x. x.id) taken))) [
        | inr e ↦ rw e refl
        | inl e ↦
            let (q, m, same) = id_taken r.id taken e in
            let is = same_row ids l (part q m) same in
            let no : has_key tag ts q.sample ≡ false = missing_key tag ts taken m n in
            let yes : has_key tag ts q.sample ≡ true = rw (← is) k in cc
      ]
