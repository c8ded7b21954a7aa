-- ===== src/Archive/Audit/Replay.antt =====
-- archive/audit.py: what the audit log says of the configuration, over changes.
use Prim.Native.String.{String}
use mathlib.Core.Option.{some-injective}
use package.text.Mathlib.TextEquality.{eq_iff}
use kpcl_hardware.Common.{
  ℕ, ◌≡◌, ◌⊎◌, ◌∙◌, inl, inr, refl, sym, ap, true, false, Bool, not, ◌&&◌, Option, none, some, List,
  [], ◌∷◌, ◌++◌, ◌==◌, if◌then◌else◌, any_of, arith, Bool-cases, Option-cases, if_elim,
}
use kpcl_hardware.Common.Text.{same_text}
use kpcl_hardware.Archive.Audit.{
  Value, Writer, ConfigRow, AuditEntry, Config, ChangeEnd, find_row, field_of, update_rows,
  written_text, same_value, Columns, write_change, change_from, change_row, change, config_tables,
  answers, value_error, sql_error,
}
use kpcl_hardware.Archive.Audit.Cells.{field_held, cell_value, same_text_self, cell_value-update}

unfoldable pub is_about : String → ℕ → String → AuditEntry → Bool
unfolding same_text
is_about table row_id field e =
    same_text e.entity table && e.entity_id == row_id && same_text e.changed_field field

-- What the last entry on the field says that it became.
unfoldable pub last_became : String → ℕ → String → List AuditEntry → Option (Option String)
unfolding is_about
last_became table row_id field [] = none
last_became table row_id field (e ∷ es) = elim (last_became table row_id field es) [
  | some b ↦ some b
  | none ↦ if is_about table row_id field e then some e.became else none
]

last_became-append :
    (t : String) (i : ℕ) (f : String) (es : List AuditEntry) (e : AuditEntry)
    → last_became t i f (es ++ e ∷ [])
      ≡ (if is_about t i f e then some e.became else last_became t i f es)
unfolding last_became
last_became-append t i f [] e = refl
last_became-append t i f (d ∷ es) e = elim (Bool-cases (is_about t i f e)) [
  | inl q ↦ rw (last_became-append t i f es e, q) refl
  | inr q ↦ rw (last_became-append t i f es e, q) refl
]

-- What the log says of a field is what the field holds.
abbrev pub Explained : Writer → Config → Type 0
Explained writer c =
    (t : String) (i : ℕ) (f : String) (b : Option String)
    → last_became t i f c.log ≡ some b
    → (v : Value) × (cell_value t i f c.rows ≡ some v) × (written_text writer v ≡ b)

-- Each entry begins where the one before it on the same field ended.
pub data Linked : List AuditEntry → Type 0 where
  start : Linked []
  more :
      {before after : List AuditEntry} (e : AuditEntry)
      → Linked before
      → after ≡ before ++ e ∷ []
      → (last_became e.entity e.entity_id e.changed_field before ≡ none)
        ⊎ (last_became e.entity e.entity_id e.changed_field before ≡ some e.was)
      → Linked after

pub record Sound (writer : Writer) (c : Config) : Type 0 where
  pub explained : Explained writer c
  pub linked : Linked c.log

links :
    (writer : Writer) (t : String) (i : ℕ) (f : String) (old : Value) (c : Config)
    → cell_value t i f c.rows ≡ some old
    → Explained writer c
    → (last_became t i f c.log ≡ none) ⊎ (last_became t i f c.log ≡ some (written_text writer old))
links writer t i f old c h x = elim (Option-cases (last_became t i f c.log)) [
  | inl e ↦ inl e
  | inr (b, e) ↦
      let w = x t i f b e in
      let same : w.0 ≡ old = some-injective _ _ (sym w.1 ∙ h) in
      inr (e ∙ ap (λ (b : Option String). some b) (sym w.2 ∙ ap (written_text writer) same))
]

held_same :
    (t : String) (i : ℕ) (f u : String) (j : ℕ) (g : String) (rows : List ConfigRow)
    → (same_text t u && i == j && same_text f g) ≡ true
    → cell_value u j g rows ≡ cell_value t i f rows
unfolding same_text
held_same t i f u j g rows k =
    let rows_same : t ≡ u = ground (arith, eq_iff t u) in
    let ids_same : i ≡ j = ground arith in
    let fields_same : f ≡ g = ground (arith, eq_iff f g) in
    rw (rows_same, ids_same, fields_same) refl

still-Explained :
    (writer : Writer) (t : String) (i : ℕ) (f : String) (new old : Value) (c : Config)
    (e : AuditEntry)
    → cell_value t i f c.rows ≡ some old
    → Explained writer c
    → e.became ≡ written_text writer new
    → (u : String) (j : ℕ) (g : String) (b : Option String)
    → is_about u j g e ≡ (same_text t u && i == j && same_text f g)
    → last_became u j g (c.log ++ e ∷ []) ≡ some b
    → (v : Value) × (cell_value u j g (update_rows t i f new c.rows) ≡ some v)
      × (written_text writer v ≡ b)
still-Explained writer t i f new old c e h x n u j g b a q =
    elim (Bool-cases (same_text t u && i == j && same_text f g)) [
      | inl k ↦
          let now : some e.became ≡ some b = (rw (last_became-append u j g c.log e, a, k) at q) in
          let there = held_same t i f u j g c.rows k ∙ h in
          (
            new,
            rw (cell_value-update t i f new u j g c.rows, k, there) refl,
            sym n ∙ some-injective _ _ now,
          )
      | inr k ↦
          let before : last_became u j g c.log ≡ some b =
            (rw (last_became-append u j g c.log e, a, k) at q) in
          let w = x u j g b before in
          (w.0, rw (cell_value-update t i f new u j g c.rows, k) w.1, w.2)
    ]

-- What a column stores of the value has the text of the value, as a float has in a column of double
-- precision, where an int has not.
abbrev pub KeepsText : Writer → Columns → String → String → Value → Type 0
KeepsText writer columns t f new =
    (stored : Value)
    → columns t f new ≡ some stored
    → written_text writer new ≡ written_text writer stored

module _ (writer : Writer) (columns : Columns) (actor reason t : String) (i : ℕ) (f : String)
    (new : Value) where
  write_change-Sound :
      (old : Value) (o : Option Value) (c : Config)
      → columns t f new ≡ o
      → KeepsText writer columns t f new
      → cell_value t i f c.rows ≡ some old
      → Sound writer c
      → Sound writer (write_change writer columns actor reason t i f old new o c).0
  unfolding write_change is_about
  write_change-Sound old none c k keeps h s = s
  write_change-Sound old (some stored) c k keeps h s = record {
    explained = λ u j g b q.
        still-Explained writer t i f stored old c _ h s.explained (keeps stored k) u j g b refl q;
    linked = more _ s.linked refl (links writer t i f old c h s.explained);
  }

  change_from-Sound :
      (o : Option Value) (c : Config)
      → KeepsText writer columns t f new
      → cell_value t i f c.rows ≡ o
      → Sound writer c
      → Sound writer (change_from writer columns actor reason t i f new o c).0
  unfolding change_from
  change_from-Sound none c keeps h s = s
  change_from-Sound (some old) c keeps h s =
      if_elim (λ (r : Config × ChangeEnd). Sound writer r.0) (same_value writer old new) (λ e. s)
        (λ e. write_change-Sound old (columns t f new) c refl keeps h s)

  change_row-Sound :
      (o : Option ConfigRow) (c : Config)
      → KeepsText writer columns t f new
      → find_row t i c.rows ≡ o
      → Sound writer c
      → Sound writer (change_row writer columns actor reason t i f new o c).0
  unfolding change_row cell_value field_held
  change_row-Sound none c keeps h s = s
  change_row-Sound (some r) c keeps h s =
      change_from-Sound (field_of f r.fields) c keeps
        (ap (λ (o : Option ConfigRow). field_held o f) h) s

-- Whatever a change is asked to do and however it ends, if before it the last audit entry on each
-- field, where it has one, says what the field holds, and each entry on a field begins with what the
-- entry before it on that field ended with, then both are so after it, provided that what the column
-- stores of the new value has the same text.
pub change-Sound :
    (writer : Writer) (columns : Columns) (actor reason t : String) (i : ℕ) (f : String)
    (new : Value) (c : Config)
    → KeepsText writer columns t f new
    → Sound writer c
    → Sound writer (change writer columns actor reason t i f new c).0
unfolding change
change-Sound writer columns actor reason t i f new c keeps s =
    if_elim (λ (r : Config × ChangeEnd). Sound writer r.0)
      (not (any_of (same_text t) config_tables)) (λ e. s)
      (λ e.
        change_row-Sound writer columns actor reason t i f new (find_row t i c.rows) c keeps refl s)

-- What a change that answers true does, and that any other one does nothing.
pub record Recorded (writer : Writer) (columns : Columns) (actor reason t : String) (i : ℕ)
    (f : String) (new : Value) (c after : Config) : Type 0 where
  pub old : Value
  pub stored : Value
  pub was_held : cell_value t i f c.rows ≡ some old
  pub is_stored : columns t f new ≡ some stored
  pub is_held : cell_value t i f after.rows ≡ some stored
  pub others :
      (u : String) (j : ℕ) (g : String)
      → (same_text t u && i == j && same_text f g) ≡ false
      → cell_value u j g after.rows ≡ cell_value u j g c.rows
  pub logged :
      after.log
      ≡ c.log
        ++ record {
          actor = actor;
          entity = t;
          entity_id = i;
          changed_field = f;
          was = written_text writer old;
          became = written_text writer new;
          reason = reason;
        }
          ∷ []

abbrev pub Done :
    Writer
    → Columns
    → String
    → String
    → String
    → ℕ
    → String
    → Value
    → Config
    → Config × ChangeEnd
    → Type 0
Done writer columns actor reason t i f new c (after, answers true) =
    Recorded writer columns actor reason t i f new c after
Done writer columns actor reason t i f new c (after, answers false) = after ≡ c
Done writer columns actor reason t i f new c (after, value_error) = after ≡ c
Done writer columns actor reason t i f new c (after, sql_error) = after ≡ c

own_cell : (t : String) (i : ℕ) (f : String) → (same_text t t && i == i && same_text f f) ≡ true
own_cell t i f = let first = same_text_self t in let third = same_text_self f in ground arith

module _ (writer : Writer) (columns : Columns) (actor reason t : String) (i : ℕ) (f : String)
    (new : Value) where
  write_change-Done :
      (old : Value) (o : Option Value) (c : Config)
      → columns t f new ≡ o
      → cell_value t i f c.rows ≡ some old
      → Done writer columns actor reason t i f new c
          (write_change writer columns actor reason t i f old new o c)
  unfolding write_change
  write_change-Done old none c k h = refl
  write_change-Done old (some stored) c k h = record {
    old = old;
    stored = stored;
    was_held = h;
    is_stored = k;
    is_held = rw (cell_value-update t i f stored t i f c.rows, own_cell t i f, h) refl;
    others = λ u j g k. rw (cell_value-update t i f stored u j g c.rows, k) refl;
    logged = refl;
  }

  change_from-Done :
      (o : Option Value) (c : Config)
      → cell_value t i f c.rows ≡ o
      → Done writer columns actor reason t i f new c
          (change_from writer columns actor reason t i f new o c)
  unfolding change_from
  change_from-Done none c h = refl
  change_from-Done (some old) c h =
      if_elim (λ (r : Config × ChangeEnd). Done writer columns actor reason t i f new c r)
        (same_value writer old new) (λ e. refl)
        (λ e. write_change-Done old (columns t f new) c refl h)

  change_row-Done :
      (o : Option ConfigRow) (c : Config)
      → find_row t i c.rows ≡ o
      → Done writer columns actor reason t i f new c
          (change_row writer columns actor reason t i f new o c)
  unfolding change_row cell_value field_held
  change_row-Done none c h = refl
  change_row-Done (some r) c h =
      change_from-Done (field_of f r.fields) c (ap (λ (o : Option ConfigRow). field_held o f) h)

-- A change that answers true leaves in the field what the column stores of the new value, every other
-- field as it was, and the log longer by one entry, with the actor, the reason, and the texts of the
-- value that the field held and of the new one; a change that answers false or raises leaves the
-- configuration and the log as they were.
pub change-Done :
    (writer : Writer) (columns : Columns) (actor reason t : String) (i : ℕ) (f : String)
    (new : Value) (c : Config)
    → Done writer columns actor reason t i f new c (change writer columns actor reason t i f new c)
unfolding change
change-Done writer columns actor reason t i f new c =
    if_elim (λ (r : Config × ChangeEnd). Done writer columns actor reason t i f new c r)
      (not (any_of (same_text t) config_tables)) (λ e. refl)
      (λ e. change_row-Done writer columns actor reason t i f new (find_row t i c.rows) c refl)
