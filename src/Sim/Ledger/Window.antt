-- ===== src/Sim/Ledger/Window.antt =====
-- sim/ledger.py, `window`: what it answers about a tag.
use Prim.Native.String.{String}
use mathlib.Core.Path.{subst}
use kpcl_hardware.Common.{
  ℕ, zero, suc, ◌+◌, ◌≤◌, ◌<◌, ◌≡◌, ◌∙◌, refl, sym, ap, Bool, true, false, ◌&&◌, ◌⊎◌, none, List,
  [], ◌∷◌, ◌++◌, ltb, leb, take, drop, keep_if, any_of, All, arith, Bool-cases, inl, inr,
}
use kpcl_hardware.Common.Dict.{get_or}
use kpcl_hardware.Common.Text.{same_text}
use kpcl_hardware.Omf.Receiver.{entry}
use kpcl_hardware.Sim.Ledger.{
  Write, bisect_left, bisect_right, slice_between, series_between, window, series_of, new_ledger,
  note_writes,
}
use kpcl_hardware.Sim.Ledger.Series.{changes, note_writes-Aged, same_text_lem}

abbrev pub between : ℕ → ℕ → ℕ → Bool
between lo hi t = leb lo t && leb t hi

abbrev pub IsRising : List ℕ → Type 0
IsRising [] = Unit
IsRising (x ∷ xs) = All (λ y. x ≤ y) xs × IsRising xs

drop_none : (n : ℕ) → drop {A = ℕ} n [] ≡ []
drop_none zero = refl
drop_none (suc n) = refl

keep_above :
    (lo hi y : ℕ) (xs : List ℕ) → hi < y → All (λ x. y ≤ x) xs → keep_if (between lo hi) xs ≡ []
keep_above lo hi y [] h a = refl
keep_above lo hi y (x ∷ xs) h a =
    let rest = keep_above lo hi y xs h a.1 in
    let out : between lo hi x ≡ false = ground arith in rw out rest

take_up_to :
    (lo hi y : ℕ) (xs : List ℕ)
    → lo ≤ y
    → All (λ x. y ≤ x) xs
    → IsRising xs
    → take (bisect_right xs hi) xs ≡ keep_if (between lo hi) xs
unfolding bisect_right
take_up_to lo hi y [] h a r = refl
take_up_to lo hi y (x ∷ xs) h a r = elim (Bool-cases (leb x hi)) [
  | inl e ↦
      let low : leb lo x ≡ true = ground arith in
      rw (e, low) (ap (λ zs. x ∷ zs) (take_up_to lo hi y xs h a.1 r.1))
  | inr e ↦
      let cut : take (bisect_right (x ∷ xs) hi) (x ∷ xs) ≡ [] = rw e refl in
      cut ∙ sym (keep_above lo hi x (x ∷ xs) (ground arith) (omega arith, r.0))
]

-- In a rising series, the slice is the selection.
slice_between_lem :
    (lo hi : ℕ) (xs : List ℕ) → IsRising xs → slice_between lo hi xs ≡ keep_if (between lo hi) xs
unfolding slice_between bisect_left bisect_right
slice_between_lem lo hi [] r = refl
slice_between_lem lo hi (x ∷ xs) r = elim (Bool-cases (leb x hi)) [
  | inr e ↦
      let cut : take (bisect_right (x ∷ xs) hi) (x ∷ xs) ≡ [] = rw e refl in
      ap (drop (bisect_left (x ∷ xs) lo)) cut
      ∙ drop_none (bisect_left (x ∷ xs) lo)
      ∙ sym (keep_above lo hi x (x ∷ xs) (ground arith) (omega arith, r.0))
  | inl e ↦ elim (Bool-cases (ltb x lo)) [
    | inl f ↦
        let low : leb lo x ≡ false = ground arith in rw (e, f, low) (slice_between_lem lo hi xs r.1)
    | inr f ↦
        let low : leb lo x ≡ true = ground arith in
        rw (e, f, low) (ap (λ zs. x ∷ zs) (take_up_to lo hi x xs (ground arith) r.0 r.1))
  ]
]

-- The tag is among those asked for; none are named for all.
abbrev pub Asked : String → List String → Type 0
Asked tag tags = (tags ≡ []) ⊎ (any_of (λ u. same_text u tag) tags ≡ true)

slice_none : (lo hi : ℕ) → slice_between lo hi [] ≡ []
unfolding slice_between bisect_left bisect_right
slice_none lo hi = refl

entry-series_between :
    (tag : String) (rest : List (String × List ℕ)) (lo hi : ℕ) (tags : List String)
    → Asked tag tags
    → get_or (entry tag (series_between rest lo hi tags)) []
      ≡ slice_between lo hi (get_or (entry tag rest) [])
unfolding entry series_between
entry-series_between tag [] lo hi tags a = sym (slice_none lo hi)
entry-series_between tag ((name, s) ∷ rest) lo hi [] a = elim (Bool-cases (same_text name tag)) [
  | inl e ↦ rw e refl
  | inr e ↦ rw e (entry-series_between tag rest lo hi [] a)
]
entry-series_between tag ((name, s) ∷ rest) lo hi (t ∷ tags) (inl none_named) = cc
entry-series_between tag ((name, s) ∷ rest) lo hi (t ∷ tags) (inr a) =
    let others = entry-series_between tag rest lo hi (t ∷ tags) (inr a) in
    elim (Bool-cases (same_text name tag)) [
      | inl e ↦
          let asked : any_of (λ u. same_text u name) (t ∷ tags) ≡ true =
            subst (λ n. any_of (λ u. same_text u n) (t ∷ tags) ≡ true)
              (sym (same_text_lem name tag e)) a in
          rw (asked, e) refl
      | inr e ↦ elim (Bool-cases (any_of (λ u. same_text u name) (t ∷ tags))) [
        | inl f ↦ rw (f, e) others
        | inr f ↦ rw (f, e) others
      ]
    ]

keep_old :
    (lo hi retention newest : ℕ) (old s : List ℕ)
    → newest ≤ lo + retention
    → All (λ t. t + retention < newest) old
    → keep_if (between lo hi) (old ++ s) ≡ keep_if (between lo hi) s
keep_old lo hi retention newest [] s h a = refl
keep_old lo hi retention newest (t ∷ old) s h a =
    let outside : between lo hi t ≡ false = ground arith in
    rw outside (keep_old lo hi retention newest old s h a.1)

IsRising-tail : (old s : List ℕ) → IsRising (old ++ s) → IsRising s
IsRising-tail [] s r = r
IsRising-tail (t ∷ old) s r = IsRising-tail old s r.1

-- For a tag that is asked for, `window` answers exactly the source timestamps, from `lo` to `hi`, of the
-- tag's writes that a subscription must report, those whose value and status, as delivered, are not those
-- of the tag's write before: none is lost to pruning, if these timestamps ascend and the window does not
-- reach back beyond the retention from the newest of all writes.
pub window-note_writes :
    (tag : String) (retention now newest lo hi : ℕ) (tags : List String) (ws : List Write)
    → Asked tag tags
    → IsRising (changes tag none ws)
    → All (λ (w : Write). w.source_ts ≤ newest) ws
    → newest ≤ lo + retention
    → get_or (entry tag (window (note_writes (new_ledger retention now) ws) lo hi tags)) []
      ≡ keep_if (between lo hi) (changes tag none ws)
unfolding entry
window-note_writes tag retention now newest lo hi tags ws a r n h =
    let l = note_writes (new_ledger retention now) ws in
    let aged = note_writes-Aged tag newest ws (new_ledger retention now) n in
    let rising = IsRising-tail aged.dropped (series_of tag l) (subst IsRising aged.whole r) in
    entry-series_between tag l.reported lo hi tags a
    ∙ slice_between_lem lo hi (series_of tag l) rising
    ∙ sym (keep_old lo hi retention newest aged.dropped (series_of tag l) h aged.old)
    ∙ ap (keep_if (between lo hi)) (sym aged.whole)
