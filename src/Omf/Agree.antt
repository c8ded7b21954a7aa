-- ===== src/Omf/Agree.antt =====
-- collector/omf.py, `data_message`, and archive/omf_receiver.py together: the archive of the OMF path and
-- that of the direct sink. Grouping by tag changes the order of the rows, not what a key holds.
use Prim.Native.String.{String}
use text.Mathlib.TextEquality.{eq_iff}
use kpcl_hardware.Common.{
  ℕ, ◌≡◌, ◌∙◌, refl, sym, ap, true, false, Option, none, some, List, [], ◌∷◌, ◌++◌, if◌then◌else◌,
  All, arith, Bool-cases, inl, inr, any_of, ◌&&◌, ◌==◌, if_elim, ◌⊎◌, All-append,
}
use kpcl_hardware.Common.Text.{same_text}
use kpcl_hardware.Collector.Model.{Sample}
use kpcl_hardware.Collector.Sink.{conflicts, insert_sample, write_samples}
use kpcl_hardware.Omf.Message.{append_value}
use kpcl_hardware.Omf.Rows.{grouped, flat}

-- The row of a key.
unfoldable pub row_at : ℕ → ℕ → List Sample → Option Sample
row_at tag ts [] = none
row_at tag ts (s ∷ ss) = if s.tag_id == tag && s.source_ts == ts then some s else row_at tag ts ss

-- The first one, or else the second.
unfoldable either : Option Sample → Option Sample → Option Sample
either none b = b
either (some a) b = some a

either-none : (a : Option Sample) → either a none ≡ a
unfolding either
either-none none = refl
either-none (some a) = refl

either_assoc : (a b c : Option Sample) → either (either a b) c ≡ either a (either b c)
unfolding either
either_assoc none b c = refl
either_assoc (some a) b c = refl

row_at-append :
    (tag ts : ℕ) (xs ys : List Sample)
    → row_at tag ts (xs ++ ys) ≡ either (row_at tag ts xs) (row_at tag ts ys)
unfolding row_at either
row_at-append tag ts [] ys = refl
row_at-append tag ts (x ∷ xs) ys = elim (Bool-cases (x.tag_id == tag && x.source_ts == ts)) [
  | inl e ↦ rw e refl
  | inr e ↦ rw e (row_at-append tag ts xs ys)
]

same_test :
    (tag ts : ℕ) (s r : Sample)
    → conflicts s r ≡ true
    → (s.tag_id == tag && s.source_ts == ts) ≡ (r.tag_id == tag && r.source_ts == ts)
unfolding conflicts
same_test tag ts s r c = ground arith

-- An archive that refuses a row has one at its key.
row_at-refused :
    (tag ts : ℕ) (archive : List Sample) (s : Sample)
    → any_of (conflicts s) archive ≡ true
    → either (row_at tag ts archive) (row_at tag ts (s ∷ [])) ≡ row_at tag ts archive
unfolding row_at either conflicts
row_at-refused tag ts [] s h = cc
row_at-refused tag ts (r ∷ rs) s h = elim (Bool-cases (r.tag_id == tag && r.source_ts == ts)) [
  | inl e ↦ rw e refl
  | inr e ↦ elim (Bool-cases (conflicts s r)) [
    | inl c ↦ rw (e, same_test tag ts s r c, e) (either-none (row_at tag ts rs))
    | inr c ↦ rw e (row_at-refused tag ts rs s (rw c at h))
  ]
]

row_at-insert :
    (tag ts : ℕ) (archive : List Sample) (s : Sample)
    → row_at tag ts (insert_sample archive s)
      ≡ either (row_at tag ts archive) (row_at tag ts (s ∷ []))
unfolding insert_sample
row_at-insert tag ts archive s =
    if_elim (λ a. row_at tag ts a ≡ either (row_at tag ts archive) (row_at tag ts (s ∷ [])))
      (any_of (conflicts s) archive) (λ e. sym (row_at-refused tag ts archive s e))
      (λ e. row_at-append tag ts archive (s ∷ []))

row_at-write :
    (tag ts : ℕ) (archive ss : List Sample)
    → row_at tag ts (write_samples archive ss) ≡ either (row_at tag ts archive) (row_at tag ts ss)
unfolding write_samples row_at
row_at-write tag ts archive [] = sym (either-none (row_at tag ts archive))
row_at-write tag ts archive (s ∷ ss) =
    row_at-write tag ts (insert_sample archive s) ss
    ∙ ap (λ (o : Option Sample). either o (row_at tag ts ss)) (row_at-insert tag ts archive s)
    ∙ either_assoc (row_at tag ts archive) (row_at tag ts (s ∷ [])) (row_at tag ts ss)
    ∙ ap (either (row_at tag ts archive)) (sym (row_at-append tag ts (s ∷ []) ss))

-- No sample of the list has the tag.
abbrev Lacks : ℕ → List Sample → Type 0
Lacks i = All (λ (s : Sample). (s.tag_id == i) ≡ false)

row_at-Lacks :
    (tag ts i : ℕ) (ss : List Sample) → Lacks i ss → (i == tag) ≡ true → row_at tag ts ss ≡ none
unfolding row_at
row_at-Lacks tag ts i [] h e = refl
row_at-Lacks tag ts i (s ∷ ss) h e = ground (arith, h.0, row_at-Lacks tag ts i ss h.1)

-- Each name has one tag, which is that of its samples, and no later group has a sample of it.
abbrev pub Grouped : (String → Option ℕ) → List (String × List Sample) → Type 0
Grouped tags [] = Unit
Grouped tags ((name, ss) ∷ groups) =
    ((i : ℕ) × (tags name ≡ some i) × All (λ (s : Sample). s.tag_id ≡ i) ss × Lacks i (flat groups))
    × Grouped tags groups

-- Two names have two tags.
pub record OneToOne (tags : String → Option ℕ) : Type 0 where
  pub apart : (a b : String) (i : ℕ) → tags a ≡ some i → tags b ≡ some i → a ≡ b

Lacks-insert :
    (i : ℕ) (ss rest : List Sample) (s : Sample)
    → (s.tag_id == i) ≡ false
    → Lacks i (ss ++ rest)
    → Lacks i ((ss ++ s ∷ []) ++ rest)
Lacks-insert i [] rest s e h = (e, h)
Lacks-insert i (x ∷ ss) rest s e h = (h.0, Lacks-insert i ss rest s e h.1)

Lacks-behind :
    (i : ℕ) (ss xs ys : List Sample)
    → (Lacks i xs → Lacks i ys)
    → Lacks i (ss ++ xs)
    → Lacks i (ss ++ ys)
Lacks-behind i [] xs ys f h = f h
Lacks-behind i (x ∷ ss) xs ys f h = (h.0, Lacks-behind i ss xs ys f h.1)

Lacks-append_value :
    (i : ℕ) (s : Sample) (groups : List (String × List Sample))
    → (s.tag_id == i) ≡ false
    → Lacks i (flat groups)
    → Lacks i (flat (append_value s.tag_name s groups))
unfolding append_value flat
Lacks-append_value i s [] e h = (e, tt)
Lacks-append_value i s ((name, ss) ∷ groups) e h = elim (Bool-cases (same_text name s.tag_name)) [
  | inl q ↦ rw q (Lacks-insert i ss (flat groups) s e h)
  | inr q ↦ rw q (
      Lacks-behind i ss (flat groups) (flat (append_value s.tag_name s groups))
        (λ k. Lacks-append_value i s groups e k) h)
]

same_text→≡ : (a b : String) → same_text a b ≡ true → a ≡ b
unfolding same_text
same_text→≡ a b h = (eq_iff a b).0 h

≡→same_text : (a b : String) → a ≡ b → same_text a b ≡ true
unfolding same_text
≡→same_text a b h = (eq_iff a b).1 h

swap :
    (a b c : Option Sample)
    → (b ≡ none) ⊎ (c ≡ none)
    → either (either a b) c ≡ either (either a c) b
swap a b c (inl e) =
    rw e (ap (λ (o : Option Sample). either o c) (either-none a) ∙ sym (either-none (either a c)))
swap a b c (inr e) =
    rw e (either-none (either a b) ∙ ap (λ (o : Option Sample). either o b) (sym (either-none a)))

row_at-other : (tag ts : ℕ) (s : Sample) → (s.tag_id == tag) ≡ false → row_at tag ts (s ∷ []) ≡ none
unfolding row_at
row_at-other tag ts s e = rw e refl

own_only :
    (tag ts i : ℕ) (s : Sample) (groups : List (String × List Sample))
    → s.tag_id ≡ i
    → Lacks i (flat groups)
    → (row_at tag ts (s ∷ []) ≡ none) ⊎ (row_at tag ts (flat groups) ≡ none)
own_only tag ts i s groups own l = elim (Bool-cases (s.tag_id == tag)) [
  | inl e ↦ inr (row_at-Lacks tag ts i (flat groups) l (rw (← own) e))
  | inr e ↦ inl (row_at-other tag ts s e)
]

-- The tags of the samples are those of their names.
abbrev pub Tagged : (String → Option ℕ) → List Sample → Type 0
Tagged tags = All (λ (s : Sample). tags s.tag_name ≡ some s.tag_id)

module _ (tags : String → Option ℕ) (one : OneToOne tags) where
  own_tag :
      (name : String) (i : ℕ) (s : Sample)
      → tags s.tag_name ≡ some s.tag_id
      → tags name ≡ some i
      → name ≡ s.tag_name
      → s.tag_id ≡ i
  own_tag name i s e f q = cc

  other_tag :
      (name : String) (i : ℕ) (s : Sample)
      → tags s.tag_name ≡ some s.tag_id
      → tags name ≡ some i
      → same_text name s.tag_name ≡ false
      → (s.tag_id == i) ≡ false
  other_tag name i s e f q = elim (Bool-cases (s.tag_id == i)) [
    | inl t ↦
        let same : s.tag_id ≡ i = ground arith in
        let clash = ≡→same_text name s.tag_name (one.apart name s.tag_name i f (cc)) in cc
    | inr t ↦ t
  ]

  append_value-Grouped :
      (s : Sample) (groups : List (String × List Sample))
      → tags s.tag_name ≡ some s.tag_id
      → Grouped tags groups
      → Grouped tags (append_value s.tag_name s groups)
  unfolding append_value flat
  append_value-Grouped s [] e g = ((s.tag_id, e, (refl, tt), tt), tt)
  append_value-Grouped s ((name, ss) ∷ groups) e ((i, f, h, l), g) =
      elim (Bool-cases (same_text name s.tag_name)) [
        | inl q ↦
            let own = own_tag name i s e f (same_text→≡ name s.tag_name q) in
            rw q ((i, f, All-append (λ (x : Sample). x.tag_id ≡ i) ss (s ∷ []) h (own, tt), l), g)
        | inr q ↦ rw q (
          (i, f, h, Lacks-append_value i s groups (other_tag name i s e f q) l),
          append_value-Grouped s groups e g,
        )
      ]

  row_at-append_value :
      (tag ts : ℕ) (s : Sample) (groups : List (String × List Sample))
      → tags s.tag_name ≡ some s.tag_id
      → Grouped tags groups
      → row_at tag ts (flat (append_value s.tag_name s groups))
        ≡ either (row_at tag ts (flat groups)) (row_at tag ts (s ∷ []))
  unfolding append_value flat either row_at
  row_at-append_value tag ts s [] e g = refl
  row_at-append_value tag ts s ((name, ss) ∷ groups) e ((i, f, h, l), g) =
      elim (Bool-cases (same_text name s.tag_name)) [
        | inl q ↦
            let own = own_tag name i s e f (same_text→≡ name s.tag_name q) in
            rw q (
              row_at-append tag ts (ss ++ s ∷ []) (flat groups)
              ∙ ap (λ (o : Option Sample). either o (row_at tag ts (flat groups)))
                  (row_at-append tag ts ss (s ∷ []))
              ∙ swap (row_at tag ts ss) (row_at tag ts (s ∷ [])) (row_at tag ts (flat groups))
                  (own_only tag ts i s groups own l)
              ∙ ap (λ (o : Option Sample). either o (row_at tag ts (s ∷ [])))
                  (sym (row_at-append tag ts ss (flat groups))))
        | inr q ↦ rw q (
            row_at-append tag ts ss (flat (append_value s.tag_name s groups))
            ∙ ap (either (row_at tag ts ss)) (row_at-append_value tag ts s groups e g)
            ∙ sym (
                either_assoc (row_at tag ts ss) (row_at tag ts (flat groups))
                  (row_at tag ts (s ∷ [])))
            ∙ ap (λ (o : Option Sample). either o (row_at tag ts (s ∷ [])))
                (sym (row_at-append tag ts ss (flat groups))))
      ]

  row_at-grouped :
      (tag ts : ℕ) (ss : List Sample) (groups : List (String × List Sample))
      → Tagged tags ss
      → Grouped tags groups
      → row_at tag ts (flat (grouped ss groups))
        ≡ either (row_at tag ts (flat groups)) (row_at tag ts ss)
  unfolding grouped row_at
  row_at-grouped tag ts [] groups t g = sym (either-none (row_at tag ts (flat groups)))
  row_at-grouped tag ts (s ∷ ss) groups t g =
      row_at-grouped tag ts ss (append_value s.tag_name s groups) t.1
        (append_value-Grouped s groups t.0 g)
      ∙ ap (λ (o : Option Sample). either o (row_at tag ts ss))
          (row_at-append_value tag ts s groups t.0 g)
      ∙ either_assoc (row_at tag ts (flat groups)) (row_at tag ts (s ∷ [])) (row_at tag ts ss)
      ∙ ap (either (row_at tag ts (flat groups))) (sym (row_at-append tag ts (s ∷ []) ss))

  pub row_at-write_grouped :
      (tag ts : ℕ) (archive ss : List Sample)
      → Tagged tags ss
      → row_at tag ts (write_samples archive (flat (grouped ss [])))
        ≡ row_at tag ts (write_samples archive ss)
  unfolding flat either row_at
  row_at-write_grouped tag ts archive ss t =
      row_at-write tag ts archive (flat (grouped ss []))
      ∙ ap (either (row_at tag ts archive)) (row_at-grouped tag ts ss [] t tt)
      ∙ sym (row_at-write tag ts archive ss)
