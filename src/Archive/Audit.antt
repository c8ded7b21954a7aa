-- ===== src/Archive/Audit.antt =====
-- archive/audit.py: a change of one field of one configuration row, with its audit row. The
-- configuration is the list of its rows, of all tables. How Python writes a number or a document as
-- text is an argument, and so is what a column gives back of a value that was written to it. That a
-- table has no such column is found out here with a row only.
pub mod Cells
pub mod Replay
mod Tests
use Prim.Native.String.{String}
use kpcl_hardware.Common.{
  ℕ, ◌+◌, Bool, true, false, not, ◌&&◌, Option, none, some, List, [], ◌∷◌, ◌++◌, ◌==◌,
  if◌then◌else◌, any_of,
}
use kpcl_hardware.Common.Int.{ℤ, eqb_ℤ}
use kpcl_hardware.Common.Text.{same_text}

-- The Python type of a number: int, float or Decimal.
pub data Numeric : Type 0 where
  int float decimal : Numeric

-- What a field holds: NULL, a number in units of 10⁻¹², a Boolean, a text, or a document or a list.
pub data Value : Type 0 where
  null : Value
  number : Numeric → ℤ → Value
  flag : Bool → Value
  text : String → Value
  document : ℕ → Value

-- `str` and `json.dumps(..., sort_keys=True)`.
pub record Writer : Type 0 where
  pub of_number : Numeric → ℤ → String
  pub of_flag : Bool → String
  pub of_document : ℕ → String

-- CONFIG_TABLES
abbrev pub config_tables : List String
config_tables =
    "tag" ∷ "quality_rule" ∷ "alert_rule" ∷ "kpi_definition" ∷ "element" ∷ "attribute" ∷ []

unfoldable pub same_option : Option String → Option String → Bool
unfolding same_text
same_option none none = true
same_option none (some b) = false
same_option (some a) none = false
same_option (some a) (some b) = same_text a b

-- A row of a configuration table.
pub record ConfigRow : Type 0 where
  pub table : String
  pub row_id : ℕ
  pub fields : List (String × Value)

-- A row of `audit_log`, as `record` writes it.
pub record AuditEntry : Type 0 where
  pub actor : String
  pub entity : String
  pub entity_id : ℕ
  pub changed_field : String
  pub was : Option String
  pub became : Option String
  pub reason : String

pub record Config : Type 0 where
  pub rows : List ConfigRow
  pub log : List AuditEntry

-- How `change` ends: it answers, raises ValueError, or the database refuses a column.
pub data ChangeEnd : Type 0 where
  answers : Bool → ChangeEnd
  value_error : ChangeEnd
  sql_error : ChangeEnd

unfoldable pub is_row : String → ℕ → ConfigRow → Bool
unfolding same_text
is_row table row_id r = same_text r.table table && r.row_id == row_id

unfoldable pub find_row : String → ℕ → List ConfigRow → Option ConfigRow
unfolding is_row
find_row table row_id [] = none
find_row table row_id (r ∷ rs) = if is_row table row_id r then some r else find_row table row_id rs

unfoldable pub field_of : String → List (String × Value) → Option Value
unfolding same_text
field_of field [] = none
field_of field ((name, v) ∷ rest) = if same_text name field then some v else field_of field rest

unfoldable pub set_field : String → Value → List (String × Value) → List (String × Value)
unfolding same_text
set_field field new [] = []
set_field field new ((name, v) ∷ rest) =
    if same_text name field then (name, new) ∷ rest else (name, v) ∷ set_field field new rest

-- UPDATE ... SET field = ... WHERE id = ..., where the id is a primary key
unfoldable pub update_rows : String → ℕ → String → Value → List ConfigRow → List ConfigRow
unfolding is_row set_field
update_rows table row_id field new [] = []
update_rows table row_id field new (r ∷ rs) =
    if is_row table row_id r
    then record r { fields = set_field field new r.fields } ∷ rs
    else r ∷ update_rows table row_id field new rs

module _ (writer : Writer) where
  -- `_text`
  unfoldable pub written_text : Value → Option String
  written_text null = none
  written_text (number k z) = some (writer.of_number k z)
  written_text (flag b) = some (writer.of_flag b)
  written_text (text t) = some t
  written_text (document d) = some (writer.of_document d)

  -- `_same`
  unfoldable pub same_value : Value → Value → Bool
  unfolding written_text same_option
  same_value (number j a) (number k b) = eqb_ℤ a b
  same_value old new = same_option (written_text old) (written_text new)

-- What the column of a table gives back of a value that is written to it, `none` if it refuses it.
abbrev pub Columns : Type 0
Columns = String → String → Value → Option Value

module _ (writer : Writer) (columns : Columns) where
  -- The UPDATE, which the database may refuse, and `record`.
  unfoldable pub write_change :
      String
      → String
      → String
      → ℕ
      → String
      → Value
      → Value
      → Option Value
      → Config
      → Config × ChangeEnd
  unfolding written_text update_rows
  write_change actor reason table row_id field old new none c = (c, sql_error)
  write_change actor reason table row_id field old new (some stored) c = (
    record {
      rows = update_rows table row_id field stored c.rows;
      log =
          c.log
          ++ record {
            actor = actor;
            entity = table;
            entity_id = row_id;
            changed_field = field;
            was = written_text writer old;
            became = written_text writer new;
            reason = reason;
          }
            ∷ [];
    },
    answers true,
  )

  -- The end of `change`, with what the field holds.
  unfoldable pub change_from :
      String → String → String → ℕ → String → Value → Option Value → Config → Config × ChangeEnd
  unfolding same_value write_change
  change_from actor reason table row_id field new none c = (c, sql_error)
  change_from actor reason table row_id field new (some old) c =
      if same_value writer old new
      then (c, answers false)
      else write_change actor reason table row_id field old new (columns table field new) c

  unfoldable pub change_row :
      String → String → String → ℕ → String → Value → Option ConfigRow → Config → Config × ChangeEnd
  unfolding change_from field_of
  change_row actor reason table row_id field new none c = (c, value_error)
  change_row actor reason table row_id field new (some r) c =
      change_from actor reason table row_id field new (field_of field r.fields) c

  -- `change`
  unfoldable pub change :
      String → String → String → ℕ → String → Value → Config → Config × ChangeEnd
  unfolding change_row find_row same_text
  change actor reason table row_id field new c =
      if not (any_of (same_text table) config_tables)
      then (c, value_error)
      else change_row actor reason table row_id field new (find_row table row_id c.rows) c
