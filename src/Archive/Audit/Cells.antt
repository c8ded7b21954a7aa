-- ===== src/Archive/Audit/Cells.antt =====
-- archive/audit.py: what a field holds, before and after the UPDATE.
use Prim.Native.String.{String}
use package.text.Mathlib.TextEquality.{eq_iff}
use kpcl_hardware.Common.{
  ℕ, ◌≡◌, ◌∙◌, inl, inr, refl, ap, true, false, Bool, ◌&&◌, Option, none, some, List, [], ◌∷◌, ◌==◌,
  if◌then◌else◌, arith, Bool-cases,
}
use kpcl_hardware.Common.Text.{same_text}
use kpcl_hardware.Archive.Audit.{
  Value, ConfigRow, is_row, find_row, field_of, set_field, update_rows,
}

-- What a field holds.
unfoldable pub field_held : Option ConfigRow → String → Option Value
unfolding field_of
field_held none field = none
field_held (some r) field = field_of field r.fields

unfoldable pub cell_value : String → ℕ → String → List ConfigRow → Option Value
unfolding field_held find_row
cell_value table row_id field rows = field_held (find_row table row_id rows) field

abbrev option_map_row : (ConfigRow → ConfigRow) → Option ConfigRow → Option ConfigRow
option_map_row g none = none
option_map_row g (some r) = some (g r)

pub same_text→≡ : (a b : String) → same_text a b ≡ true → a ≡ b
unfolding same_text
same_text→≡ a b h = (eq_iff a b).0 h

pub same_text_self : (a : String) → same_text a a ≡ true
unfolding same_text
same_text_self a = (eq_iff a a).1 refl

find_row-update :
    (t : String) (i : ℕ) (f : String) (v : Value) (u : String) (j : ℕ) (rows : List ConfigRow)
    → find_row u j (update_rows t i f v rows) ≡ (
        if same_text t u && i == j
        then option_map_row (λ r. record r { fields = set_field f v r.fields }) (find_row u j rows)
        else find_row u j rows)
unfolding find_row update_rows is_row same_text
find_row-update t i f v u j [] = ground arith
find_row-update t i f v u j (r ∷ rs) =
    ground (arith, eq_iff r.table t, eq_iff r.table u, eq_iff t u, find_row-update t i f v u j rs)

field_of-set_field :
    (f g : String) (v : Value) (fs : List (String × Value))
    → field_of g (set_field f v fs) ≡ (
        if same_text f g
        then (elim (field_of g fs) [ none ↦ none | some w ↦ some v ])
        else field_of g fs)
unfolding field_of set_field same_text
field_of-set_field f g v [] = ground arith
field_of-set_field f g v ((name, w) ∷ fs) =
    ground (arith, eq_iff name f, eq_iff name g, eq_iff f g, field_of-set_field f g v fs)

abbrev pub replaced : Value → Option Value → Option Value
replaced v none = none
replaced v (some w) = some v

replaced-some :
    (v : Value) (o : Option Value) → replaced v o ≡ elim o [ none ↦ none | some w ↦ some v ]
replaced-some v none = refl
replaced-some v (some w) = refl

field_held-set :
    (f g : String) (v : Value) (o : Option ConfigRow)
    → field_held (option_map_row (λ r. record r { fields = set_field f v r.fields }) o) g
      ≡ (if same_text f g then replaced v (field_held o g) else field_held o g)
unfolding field_held
field_held-set f g v none = same_none (same_text f g)
  where
    same_none : (b : Bool) → ◌≡◌ {A = Option Value} none (if b then none else none)
    same_none true = refl
    same_none false = refl
field_held-set f g v (some r) =
    rw (replaced-some v (field_of g r.fields)) (field_of-set_field f g v r.fields)

and_true : (a b c : Bool) → (a && b) ≡ true → (a && b && c) ≡ c
and_true a b c h = ground arith

and_false : (a b c : Bool) → (a && b) ≡ false → (a && b && c) ≡ false
and_false a b c h = ground arith

pub cell_value-update :
    (t : String) (i : ℕ) (f : String) (v : Value) (u : String) (j : ℕ) (g : String)
    (rows : List ConfigRow)
    → cell_value u j g (update_rows t i f v rows) ≡ (
        if same_text t u && i == j && same_text f g
        then replaced v (cell_value u j g rows)
        else cell_value u j g rows)
unfolding cell_value
cell_value-update t i f v u j g rows = elim (Bool-cases (same_text t u && i == j)) [
  | inl e ↦
      ap (λ (o : Option ConfigRow). field_held o g) (find_row-update t i f v u j rows)
      ∙ rw (and_true (same_text t u) (i == j) (same_text f g) e, e)
          (field_held-set f g v (find_row u j rows))
  | inr e ↦
      ap (λ (o : Option ConfigRow). field_held o g) (find_row-update t i f v u j rows)
      ∙ rw (and_false (same_text t u) (i == j) (same_text f g) e, e) refl
]
