-- ===== src/Omf/Message.antt =====
-- collector/omf.py: the messages that the collector sends. How a timestamp is written as text is a
-- parameter; a timestamp without a time zone, which the code refuses, is none of the model's.
use Prim.Native.String.{String}
use kpcl_hardware.Common.{ℕ, true, Option, none, some, List, [], ◌∷◌, ◌++◌, if◌then◌else◌}
use kpcl_hardware.Common.Int.{ℤ, pos}
use kpcl_hardware.Common.Text.{same_text}
use kpcl_hardware.Collector.Model.{Sample}
use kpcl_hardware.Omf.Json.{
  Json, null, boolean, integer, number, text, array, object, Object, empty, member, array_of,
}

abbrev pub sample_type_id : String
sample_type_id = "CRPMS.Sample"

abbrev pub tag_type_id : String
tag_type_id = "CRPMS.Tag"

abbrev pub datasource : String
datasource = "orianode-crpms"

-- A property of a type: its `type`, `format`, `isindex`, `isname` and `isquality`, without its texts.
unfoldable pub property_of : String → Option String → List String → Object
property_of kind none [] = member "type" (text kind) empty
property_of kind (some format) [] = member "type" (text kind) (member "format" (text format) empty)
property_of kind format (mark ∷ marks) = member mark (boolean true) (property_of kind format marks)

abbrev pub sample_properties : Object
sample_properties =
    member "SourceTime" (object (property_of "string" (some "date-time") ("isindex" ∷ []))) (
      member "ServerTime" (object (property_of "string" (some "date-time") [])) (
        member "Value" (object (property_of "number" (some "float64") [])) (
          member "Quality" (object (property_of "integer" (some "int64") ("isquality" ∷ [])))
            empty)))

abbrev pub tag_properties : Object
tag_properties = member "TagName" (object (property_of "string" none ("isindex" ∷ "isname" ∷ []))) (
    member "Description" (object (property_of "string" none [])) (
      member "EngineeringUnit" (object (property_of "string" none [])) (
        member "RangeLow" (object (property_of "number" (some "float64") [])) (
          member "RangeHigh" (object (property_of "number" (some "float64") []))
            (member "AssetCode" (object (property_of "string" none [])) empty)))))

unfoldable pub type_item : String → String → Object → Object
type_item id classification properties = member "id" (text id) (
    member "version" (text "1.0.0.0") (
      member "type" (text "object") (
        member "classification" (text classification)
          (member "properties" (object properties) empty))))

-- `type_message`, less the names and descriptions
unfoldable pub type_message : List Object
unfolding type_item property_of
type_message =
    type_item sample_type_id "dynamic" sample_properties
    ∷ type_item tag_type_id "static" tag_properties
    ∷ []

-- A tag of the configuration; an empty text counts as none.
pub record TagConfig : Type 0 where
  pub name : String
  pub description : Option String
  pub engineering_unit : Option String

unfoldable pub with_description : Option String → Object → Object
with_description none rest = rest
with_description (some d) rest = member "description" (text d) rest

unfoldable pub with_unit : Option String → Object
with_unit none = empty
with_unit (some u) =
    member "propertyoverrides"
      (object (member "Value" (object (member "uom" (text u) empty)) empty)) empty

unfoldable pub container_of : TagConfig → Object
unfolding with_description with_unit
container_of tag = member "id" (text tag.name) (
    member "typeid" (text sample_type_id) (
      member "name" (text tag.name) (
        member "datasource" (text datasource)
          (with_description tag.description (with_unit tag.engineering_unit)))))

-- `container_message`
unfoldable pub container_message : List TagConfig → List Object
unfolding container_of
container_message [] = []
container_message (tag ∷ tags) = container_of tag ∷ container_message tags

-- `by_container.setdefault(name, []).append(v)`
unfoldable pub append_value {ℓ} :
    {V : Type ℓ} → String → V → List (String × List V) → List (String × List V)
unfolding same_text
append_value name v [] = (name, v ∷ []) ∷ []
append_value name v ((other, vs) ∷ groups) =
    if same_text other name
    then (other, vs ++ v ∷ []) ∷ groups
    else (other, vs) ∷ append_value name v groups

-- `[{"containerid": cid, "values": values} ...]`
unfoldable pub data_item : String → List Object → Object
unfolding array_of
data_item name values =
    member "containerid" (text name) (member "values" (array (array_of values)) empty)

unfoldable pub data_items : List (String × List Object) → List Object
unfolding data_item
data_items [] = []
data_items ((name, values) ∷ groups) = data_item name values ∷ data_items groups

module _ (iso : ℕ → String) where
  unfoldable pub server_time : Option ℕ → Json
  server_time none = null
  server_time (some ts) = text (iso ts)

  unfoldable pub value_json : Option ℤ → Json
  value_json none = null
  value_json (some v) = number v

  -- The value that `data_message` sends for a sample.
  unfoldable pub sample_value : Sample → Object
  unfolding server_time value_json
  sample_value s = member "SourceTime" (text (iso s.source_ts)) (
      member "ServerTime" (server_time s.server_ts)
        (member "Value" (value_json s.value) (member "Quality" (integer (pos s.quality)) empty)))

  -- The loop of `data_message`.
  unfoldable pub group_samples :
      List Sample → List (String × List Object) → List (String × List Object)
  unfolding append_value sample_value
  group_samples [] groups = groups
  group_samples (s ∷ ss) groups = group_samples ss (append_value s.tag_name (sample_value s) groups)

  -- `data_message`
  unfoldable pub data_message : List Sample → List Object
  unfolding data_items group_samples
  data_message samples = data_items (group_samples samples [])
