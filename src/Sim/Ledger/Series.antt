-- ===== src/Sim/Ledger/Series.antt =====
-- sim/ledger.py: what `record` leaves of a tag's series, against the list of the tag's changes.
use Prim.Native.String.{String}
use mathlib.Core.Path.{subst}
use package.text.Mathlib.TextEquality.{eq_iff}
use kpcl_hardware.Common.{
  ℕ, ◌+◌, ◌-◌, ◌≤◌, ◌<◌, ◌≡◌, ◌∙◌, refl, sym, ap, ◌%◌, Bool, true, false, Option, some, List, [],
  ◌∷◌, ◌++◌, ltb, ◌==◌, if◌then◌else◌, length, drop, last?, All, All-append, arith, Bool-cases, inl,
  inr, if_elim, ◌⊎◌,
}
use kpcl_hardware.Common.Text.{same_text}
use kpcl_hardware.Omf.Receiver.{entry, with_entry}
use kpcl_hardware.Sim.Ledger.{
  Delivered, Ledger, Write, delivered, same_delivered, bisect_left, prune, add_time, series_of,
  note_write, note_writes,
}

-- The source timestamps of a tag's writes that differ from the write of the tag before them.
unfoldable pub changes : String → Option Delivered → List Write → List ℕ
unfolding same_text delivered same_delivered
changes tag before [] = []
changes tag before (w ∷ ws) =
    let d = delivered w.value w.status in
    let passed = changes tag before ws in
    let changed = changes tag (some d) ws in
    if same_text w.tag tag
    then (if same_delivered before d then passed else w.source_ts ∷ changed)
    else passed

entry-with_entry :
    {V : Type 0} (k j : String) (v : V) (d : List (String × V))
    → entry j (with_entry k v d) ≡ (if same_text k j then some v else entry j d)
unfolding entry with_entry same_text
entry-with_entry k j v [] = refl
entry-with_entry k j v ((i, w) ∷ d) =
    ground (arith, eq_iff i k, eq_iff i j, eq_iff k j, entry-with_entry k j v d)

-- Less only older timestamps: `longer` is `kept` behind timestamps that the retention does not reach.
pub record Aged (retention newest : ℕ) (longer kept : List ℕ) : Type 0 where
  pub dropped : List ℕ
  pub whole : longer ≡ dropped ++ kept
  pub old : All (λ t. t + retention < newest) dropped

Aged-refl : (retention newest : ℕ) (s : List ℕ) → Aged retention newest s s
Aged-refl retention newest s = record { dropped = []; whole = refl; old = tt }

below_left :
    (retention newest cutoff : ℕ) (s : List ℕ)
    → cutoff + retention ≤ newest ⊎ (cutoff ≡ 0)
    → Aged retention newest s (drop (bisect_left s cutoff) s)
unfolding bisect_left
below_left retention newest cutoff [] h = Aged-refl retention newest []
below_left retention newest cutoff (y ∷ ys) h = elim (Bool-cases (ltb y cutoff)) [
  | inl e ↦
      let r = below_left retention newest cutoff ys h in
      rw e (record {
        dropped = y ∷ r.dropped;
        whole = ap (λ zs. y ∷ zs) r.whole;
        old = (ground arith, r.old);
      })
  | inr e ↦ rw e (Aged-refl retention newest (y ∷ ys))
]

last?-append : (s : List ℕ) (ts : ℕ) → last? (s ++ ts ∷ []) ≡ some ts
last?-append [] ts = refl
last?-append (x ∷ []) ts = refl
last?-append (x ∷ y ∷ s) ts = last?-append (y ∷ s) ts

add_time-Aged :
    (retention newest : ℕ) (s : List ℕ) (ts : ℕ)
    → ts ≤ newest
    → Aged retention newest (s ++ ts ∷ []) (add_time retention s ts)
unfolding add_time prune
add_time-Aged retention newest s ts h =
    if_elim (Aged retention newest (s ++ ts ∷ [])) (length (s ++ ts ∷ []) % 1024 == 0)
      (λ e.
        rw (last?-append s ts)
          (below_left retention newest (ts - retention) (s ++ ts ∷ []) (ground arith)))
      (λ e. Aged-refl retention newest (s ++ ts ∷ []))

append_assoc : (a b c : List ℕ) → (a ++ b) ++ c ≡ a ++ (b ++ c)
append_assoc [] b c = refl
append_assoc (x ∷ a) b c = ap (λ zs. x ∷ zs) (append_assoc a b c)

Aged-append :
    (retention newest : ℕ) (a b z : List ℕ)
    → Aged retention newest a b
    → Aged retention newest (a ++ z) (b ++ z)
Aged-append retention newest a b z h = record {
  dropped = h.dropped;
  whole = ap (λ s. s ++ z) h.whole ∙ append_assoc h.dropped b z;
  old = h.old;
}

Aged-trans :
    (retention newest : ℕ) (a b c : List ℕ)
    → Aged retention newest a b
    → Aged retention newest b c
    → Aged retention newest a c
Aged-trans retention newest a b c h k = record {
  dropped = h.dropped ++ k.dropped;
  whole = h.whole ∙ ap (λ s. h.dropped ++ s) k.whole ∙ sym (append_assoc h.dropped k.dropped c);
  old = All-append _ h.dropped k.dropped h.old k.old;
}

pub same_self : (a : String) → same_text a a ≡ true
unfolding same_text
same_self a = ground (arith, eq_iff a a)

pub same_text_lem : (a b : String) → same_text a b ≡ true → a ≡ b
unfolding same_text
same_text_lem a b h = ground (arith, eq_iff a b)

-- One write: what is still to come is the rest of the changes.
abbrev Stepped : String → ℕ → Ledger → Write → List Write → Type 0
Stepped tag newest l w ws =
    Aged l.retention_us newest (series_of tag l ++ changes tag (entry tag l.last) (w ∷ ws))
      (series_of tag (note_write l w).0 ++ changes tag (entry tag (note_write l w).0.last) ws)

step_own :
    (newest : ℕ) (l : Ledger) (w : Write) (ws : List Write)
    → w.source_ts ≤ newest
    → Stepped w.tag newest l w ws
unfolding changes note_write
step_own newest l w ws h =
    let d = delivered w.value w.status in
    let s = series_of w.tag l in
    elim (Bool-cases (same_delivered (entry w.tag l.last) d)) [
      | inl e ↦ rw (same_self w.tag, e) (Aged-refl l.retention_us newest _)
      | inr e ↦
          let later = changes w.tag (some d) ws in
          let kept = add_time l.retention_us s w.source_ts in
          rw
            (
              same_self w.tag,
              e,
              entry-with_entry w.tag w.tag kept l.reported,
              entry-with_entry w.tag w.tag d l.last,
              same_self w.tag,
            )
            (subst (λ z. Aged l.retention_us newest z (kept ++ later))
              (append_assoc s (w.source_ts ∷ []) later)
              (Aged-append l.retention_us newest (s ++ w.source_ts ∷ []) kept later
                (add_time-Aged l.retention_us newest s w.source_ts h)))
    ]

step_other :
    (tag : String) (newest : ℕ) (l : Ledger) (w : Write) (ws : List Write)
    → same_text w.tag tag ≡ false
    → Stepped tag newest l w ws
unfolding changes note_write
step_other tag newest l w ws f =
    let d = delivered w.value w.status in
    elim (Bool-cases (same_delivered (entry w.tag l.last) d)) [
      | inl e ↦ rw (f, e) (Aged-refl l.retention_us newest _)
      | inr e ↦
          let kept = add_time l.retention_us (series_of w.tag l) w.source_ts in
          rw
            (
              f,
              e,
              entry-with_entry w.tag tag kept l.reported,
              entry-with_entry w.tag tag d l.last,
              f,
            )
            (Aged-refl l.retention_us newest _)
    ]

step_any :
    (tag : String) (newest : ℕ) (l : Ledger) (w : Write) (ws : List Write)
    → w.source_ts ≤ newest
    → Stepped tag newest l w ws
step_any tag newest l w ws h = elim (Bool-cases (same_text w.tag tag)) [
  | inl e ↦
      subst (λ t. Stepped t newest l w ws) (same_text_lem w.tag tag e) (step_own newest l w ws h)
  | inr e ↦ step_other tag newest l w ws e
]

note_write-retention_us :
    (l : Ledger) (w : Write) → (note_write l w).0.retention_us ≡ l.retention_us
unfolding note_write
note_write-retention_us l w =
    if_elim (λ (r : Ledger × Bool). r.0.retention_us ≡ l.retention_us)
      (same_delivered (entry w.tag l.last) (delivered w.value w.status)) (λ e. refl) (λ e. refl)

append_none : (s : List ℕ) → s ++ [] ≡ s
append_none [] = refl
append_none (x ∷ s) = ap (λ zs. x ∷ zs) (append_none s)

pub note_writes-Aged :
    (tag : String) (newest : ℕ) (ws : List Write) (l : Ledger)
    → All (λ (w : Write). w.source_ts ≤ newest) ws
    → Aged l.retention_us newest
        (series_of tag l ++ changes tag (entry tag l.last) ws)
        (series_of tag (note_writes l ws))
unfolding note_writes changes
note_writes-Aged tag newest [] l h =
    rw (append_none (series_of tag l)) (Aged-refl l.retention_us newest (series_of tag l))
note_writes-Aged tag newest (w ∷ ws) l h =
    let next = (note_write l w).0 in
    Aged-trans l.retention_us newest _ (series_of tag next ++ changes tag (entry tag next.last) ws)
      _ (step_any tag newest l w ws h.0)
      (subst
        (λ r.
          Aged r newest (series_of tag next ++ changes tag (entry tag next.last) ws)
            (series_of tag (note_writes next ws)))
        (note_write-retention_us l w) (note_writes-Aged tag newest ws next h.1))
