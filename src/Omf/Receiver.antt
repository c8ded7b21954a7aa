-- ===== src/Omf/Receiver.antt =====
-- archive/omf_receiver.py: the state of the receiver and what a message does to it and to the archive,
-- whose table is the list of its rows. How Python reads a time and a number is a parameter, and so is
-- the archive's table of tags. The data of one message are one transaction.
use Prim.Native.String.{String}
use kpcl_hardware.Common.{
  ℕ, ◌+◌, Bool, ◌&&◌, Option, none, some, List, [], ◌∷◌, ◌++◌, ◌==◌, if◌then◌else◌, any_of, length,
}
use kpcl_hardware.Common.Int.{ℤ}
use kpcl_hardware.Common.Text.{same_text}
use kpcl_hardware.Omf.Json.{
  Json, null, boolean, integer, number, text, array, object, Object, objects_of, field, Result,
  done, omf_error, other_error, then_do,
}
use kpcl_hardware.Omf.Validate.{Texts, validate}

-- A row of `sample`, as the receiver inserts it.
pub record StoredRow : Type 0 where
  pub tag_id : ℕ
  pub source_ts : ℕ
  pub server_ts : Option ℕ
  pub value : Option ℤ
  pub quality : ℤ

-- `_parse`, `int` and `float` on what a JSON document holds.
pub record Reader : Type 0 where
  pub to_time : Json → Result ℕ
  pub to_int : Json → Result ℤ
  pub to_float : Json → Result ℤ

-- An entry of a dict with texts for keys.
unfoldable pub entry : {V : Type 0} → String → List (String × V) → Option V
unfolding same_text
entry key [] = none
entry key ((other, v) ∷ rest) = if same_text other key then some v else entry key rest

unfoldable pub with_entry : {V : Type 0} → String → V → List (String × V) → List (String × V)
unfolding same_text
with_entry key v [] = (key, v) ∷ []
with_entry key v ((other, w) ∷ rest) =
    if same_text other key then (other, v) ∷ rest else (other, w) ∷ with_entry key v rest

pub record ReceiverCounts : Type 0 where
  pub types : ℕ
  pub containers : ℕ
  pub messages : ℕ
  pub values : ℕ

pub record Receiver : Type 0 where
  pub types : List (String × Object)
  pub containers : List (String × String)
  pub counts : ReceiverCounts

-- INSERT ... ON CONFLICT (tag_id, source_ts) DO NOTHING
unfoldable pub same_row_key : StoredRow → StoredRow → Bool
same_row_key r s = s.tag_id == r.tag_id && s.source_ts == r.source_ts

unfoldable pub insert_row : List StoredRow → StoredRow → List StoredRow
unfolding same_row_key
insert_row archive r = if any_of (same_row_key r) archive then archive else archive ++ r ∷ []

unfoldable pub insert_rows : List StoredRow → List StoredRow → List StoredRow
unfolding insert_row
insert_rows archive [] = archive
insert_rows archive (r ∷ rs) = insert_rows (insert_row archive r) rs

-- The value of a field that is not null; a null is `none`.
unfoldable pub unless_null : {A : Type 0} → (Json → Result A) → Json → Result (Option A)
unfolding then_do
unless_null read null = done none
unless_null read v = then_do (read v) (λ a. done (some a))

unfoldable pub refuse_null : {A : Type 0} → (Json → Result A) → Json → Result A
refuse_null read null = omf_error
refuse_null read v = read v

-- The field, or an OmfError.
unfoldable pub given : Option Json → Result Json
given none = omf_error
given (some v) = done v

-- The name of a container or a type, if the item has one.
unfoldable pub container_name : Option Json → Result (Option String)
container_name none = done none
container_name (some null) = done none
container_name (some (text name)) = done (some name)
container_name (some (array os)) = other_error
container_name (some (object o)) = other_error
container_name (some (boolean b)) = omf_error
container_name (some (integer z)) = omf_error
container_name (some (number z)) = omf_error

unfoldable pub values_of : Option Json → Result (List Object)
unfolding objects_of
values_of none = done []
values_of (some (array os)) = done (objects_of os)
values_of (some _) = other_error

unfoldable pub known : {A : Type 0} → Option A → Result A
known none = omf_error
known (some a) = done a

module _ (reader : Reader) where
  -- `_row`
  unfoldable pub read_row : ℕ → Object → Result StoredRow
  unfolding field given then_do unless_null refuse_null
  read_row tag_id v = then_do (given (field "SourceTime" v)) (λ source.
      then_do (given (field "Value" v)) (λ value. then_do (given (field "Quality" v)) (λ quality.
        then_do (given (field "ServerTime" v)) (λ server.
          then_do (reader.to_time source) (λ source_ts.
            then_do (unless_null reader.to_time server) (λ server_ts.
              then_do (refuse_null reader.to_int quality) (λ q.
                then_do (unless_null reader.to_float value) (λ x. done (record {
                  tag_id = tag_id;
                  source_ts = source_ts;
                  server_ts = server_ts;
                  value = x;
                  quality = q;
                })))))))))

  unfoldable pub read_rows : ℕ → List Object → Result (List StoredRow)
  unfolding read_row then_do
  read_rows tag_id [] = done []
  read_rows tag_id (v ∷ vs) =
      then_do (read_row tag_id v) (λ r. then_do (read_rows tag_id vs) (λ rs. done (r ∷ rs)))

  module _ (tags : String → Option ℕ) where
    -- The rows of a container's item.
    unfoldable pub item_rows : List (String × String) → Object → String → Result (List StoredRow)
    unfolding entry known values_of field read_rows then_do
    item_rows containers item name = then_do (known (entry name containers)) (λ type_id.
        then_do (known (tags name))
          (λ tag_id. then_do (values_of (field "values" item)) (λ values. read_rows tag_id values)))

    -- The loop of the data part of `handle`: the archive, and how many rows were written.
    unfoldable pub rows_of_item :
        List (String × String) → Object → Option String → Result (List StoredRow)
    unfolding item_rows
    rows_of_item containers item none = done []
    rows_of_item containers item (some name) = item_rows containers item name

    unfoldable pub write_items :
        List (String × String) → List Object → List StoredRow × ℕ → Result (List StoredRow × ℕ)
    unfolding rows_of_item container_name field insert_rows then_do
    write_items containers [] state = done state
    write_items containers (item ∷ items) (archive, written) =
        then_do (container_name (field "containerid" item)) (λ name.
          then_do (rows_of_item containers item name) (λ rows.
            write_items containers items (insert_rows archive rows, written + length rows)))

unfoldable pub text_of : Option Json → String
text_of (some (text t)) = t
text_of _ = ""

-- A type message.
unfoldable pub keep_types : List Object → List (String × Object) → List (String × Object)
unfolding with_entry text_of field
keep_types [] types = types
keep_types (item ∷ items) types =
    keep_types items (with_entry (text_of (field "id" item)) item types)

-- The type of a container, which must have been created.
unfoldable pub known_type : List (String × Object) → Option String → Result String
unfolding entry known then_do
known_type types none = omf_error
known_type types (some name) = then_do (known (entry name types)) (λ t. done name)

unfoldable pub keep_container :
    Result String
    → Object
    → (List (String × String) → List (String × String) × Result Unit)
    → List (String × String)
    → List (String × String) × Result Unit
unfolding with_entry text_of field
keep_container (done name) item rest containers =
    rest (with_entry (text_of (field "id" item)) name containers)
keep_container omf_error item rest containers = (containers, omf_error)
keep_container other_error item rest containers = (containers, other_error)

-- The loop of the container part: what it kept, also when it raises.
unfoldable pub keep_containers :
    List (String × Object)
    → List Object
    → List (String × String)
    → List (String × String) × Result Unit
unfolding container_name known_type keep_container field then_do
keep_containers types [] containers = (containers, done tt)
keep_containers types (item ∷ items) containers =
    keep_container (then_do (container_name (field "typeid" item)) (known_type types)) item
      (keep_containers types items) containers

abbrev pub ReceiverState : Type 0
ReceiverState = Receiver × List StoredRow

unfoldable pub handle_types : List Object → ReceiverState → ReceiverState × Result ℕ
unfolding keep_types
handle_types body (r, archive) =
    let types = keep_types body r.types in
    (
      (
        record r {
          types = types;
          counts = record r.counts { types = r.counts.types + length body };
        },
        archive,
      ),
      done (length types),
    )

unfoldable pub end_containers :
    ℕ → ReceiverState → List (String × String) × Result Unit → ReceiverState × Result ℕ
end_containers n (r, archive) (containers, done u) = (
  (
    record r {
      containers = containers;
      counts = record r.counts { containers = r.counts.containers + n };
    },
    archive,
  ),
  done (length containers),
)
end_containers n (r, archive) (containers, omf_error) =
    ((record r { containers = containers }, archive), omf_error)
end_containers n (r, archive) (containers, other_error) =
    ((record r { containers = containers }, archive), other_error)

-- The end of the data part: committed, or rolled back.
unfoldable pub end_data : ℕ → ReceiverState → Result (List StoredRow × ℕ) → ReceiverState × Result ℕ
end_data n (r, archive) (done (rows, written)) = (
  (
    record r {
      counts = record r.counts {
        messages = r.counts.messages + n;
        values = r.counts.values + written;
      };
    },
    rows,
  ),
  done written,
)
end_data n state omf_error = (state, omf_error)
end_data n state other_error = (state, other_error)

-- `handle`, once the message is valid
unfoldable pub handle_valid :
    Reader → (String → Option ℕ) → String → List Object → ReceiverState → ReceiverState × Result ℕ
unfolding handle_types end_containers keep_containers end_data write_items same_text
handle_valid reader tags message_type body (r, archive) =
    if same_text message_type "type"
    then handle_types body (r, archive)
    else if same_text message_type "container"
    then end_containers (length body) (r, archive) (keep_containers r.types body r.containers)
    else end_data (length body) (r, archive)
        (write_items reader tags r.containers body (archive, 0))

unfoldable pub if_valid :
    Result Unit → ReceiverState → ReceiverState × Result ℕ → ReceiverState × Result ℕ
if_valid (done u) state after = after
if_valid omf_error state after = (state, omf_error)
if_valid other_error state after = (state, other_error)

-- `handle`
unfoldable pub handle_message :
    Texts
    → Reader
    → (String → Option ℕ)
    → String
    → String
    → List Object
    → ReceiverState
    → ReceiverState × Result ℕ
unfolding validate handle_valid if_valid
handle_message texts reader tags message_type action body state =
    if_valid (validate texts message_type action body) state
      (handle_valid reader tags message_type body state)
