-- ===== src/Omf/Validate.antt =====
-- collector/omf.py, `validate`: the rules of OMF on a message. A body is a list of objects. How a
-- version is split into its parts, and whether an id is a reserved one, is a parameter.
use Prim.Native.String.{String}
use kpcl_hardware.Common.{
  ℕ, ◌+◌, Bool, true, false, not, ◌&&◌, ◌||◌, Option, none, some, List, [], ◌∷◌, ltb, ◌==◌,
  if◌then◌else◌, any_of, length,
}
use kpcl_hardware.Common.Int.{pos, eqb_ℤ}
use kpcl_hardware.Common.Text.{same_text}
use kpcl_hardware.Omf.Json.{
  Json, null, boolean, integer, number, text, array, object, Object, no_more, first_of, empty,
  member, field, has_field, Result, done, omf_error, other_error, then_do, ensure,
}

-- What `validate` asks of texts: whether one begins with `__`, and whether one is four numbers with
-- dots between them.
pub record Texts : Type 0 where
  pub is_reserved : String → Bool
  pub is_version : String → Bool

unfoldable pub is_one_of : List String → String → Bool
unfolding same_text
is_one_of names t = any_of (λ n. same_text n t) names

abbrev pub message_types : List String
message_types = "type" ∷ "container" ∷ "data" ∷ []

abbrev pub actions : List String
actions = "create" ∷ "update" ∷ "delete" ∷ []

abbrev pub classifications : List String
classifications = "dynamic" ∷ "static" ∷ []

-- `_require(item, key, str)`, with the text.
unfoldable pub as_text : Option Json → Result String
as_text (some (text t)) = done t
as_text _ = omf_error

unfoldable pub require_text : String → Object → Result String
unfolding field as_text
require_text key item = as_text (field key item)

-- `_require(item, key, dict)`, with the object.
unfoldable pub as_object : Option Json → Result Object
as_object (some (object o)) = done o
as_object _ = omf_error

unfoldable pub require_object : String → Object → Result Object
unfolding field as_object
require_object key item = as_object (field key item)

-- Whether Python takes what `get` returns for true.
unfoldable pub truthy : Option Json → Bool
truthy none = false
truthy (some null) = false
truthy (some (boolean b)) = b
truthy (some (integer z)) = not (eqb_ℤ z (pos 0))
truthy (some (number z)) = not (eqb_ℤ z (pos 0))
truthy (some (text t)) = not (same_text t "")
truthy (some (array no_more)) = false
truthy (some (array (first_of o os))) = true
truthy (some (object empty)) = false
truthy (some (object (member k v o))) = true

-- How many properties bear a mark; a property that is not an object raises another exception.
unfoldable pub count_mark : String → Object → Result ℕ
unfolding truthy field then_do
count_mark mark empty = done 0
count_mark mark (member name (object p) rest) =
    then_do (count_mark mark rest) (λ n. done (if truthy (field mark p) then n + 1 else n))
count_mark mark (member name _ rest) = other_error

-- The kinds that SUPPORTED names, with their formats.
abbrev pub supported : List (String × List String)
supported =
    ("boolean", [])
    ∷ ("integer", "int64" ∷ "int32" ∷ "int16" ∷ "uint64" ∷ "uint32" ∷ "uint16" ∷ [])
    ∷ ("number", "float64" ∷ "float32" ∷ "float16" ∷ [])
    ∷ ("string", "date-time" ∷ [])
    ∷ ("object", [])
    ∷ ("array", [])
    ∷ []

unfoldable pub formats_of : String → List (String × List String) → Option (List String)
unfolding same_text
formats_of kind [] = none
formats_of kind ((name, formats) ∷ rest) =
    if same_text name kind then some formats else formats_of kind rest

-- `fmt not in SUPPORTED[kind]`; an array or an object cannot be looked for.
unfoldable pub check_format : List String → Option Json → Result Unit
unfolding is_one_of ensure
check_format formats none = done tt
check_format formats (some null) = done tt
check_format formats (some (text t)) = ensure (is_one_of formats t)
check_format formats (some (boolean b)) = omf_error
check_format formats (some (integer z)) = omf_error
check_format formats (some (number z)) = omf_error
check_format formats (some (array os)) = other_error
check_format formats (some (object o)) = other_error

unfoldable pub check_supported : Option (List String) → Option Json → Result Unit
unfolding check_format
check_supported none format = omf_error
check_supported (some formats) format = check_format formats format

unfoldable pub check_kind : Object → Option Json → Result Unit
unfolding formats_of check_supported field has_field ensure
check_kind p none = ensure (has_field "reftypeid" p)
check_kind p (some (text kind)) = check_supported (formats_of kind supported) (field "format" p)
check_kind p (some (array os)) = other_error
check_kind p (some (object o)) = other_error
check_kind p (some null) = omf_error
check_kind p (some (boolean b)) = omf_error
check_kind p (some (integer z)) = omf_error
check_kind p (some (number z)) = omf_error

-- The last loop of `_validate_type`.
unfoldable pub check_properties : Object → Result Unit
unfolding check_kind field then_do
check_properties empty = done tt
check_properties (member name (object p) rest) =
    then_do (check_kind p (field "type" p)) (λ u. check_properties rest)
check_properties (member name _ rest) = other_error

unfoldable pub is_classified : Option Json → Bool
unfolding is_one_of
is_classified (some (text t)) = is_one_of classifications t
is_classified _ = false

unfoldable pub check_classification : Option Json → Result Unit
unfolding is_classified ensure
check_classification none = done tt
check_classification (some null) = done tt
check_classification c = ensure (is_classified c)

unfoldable pub is_object_type : Option Json → Bool
unfolding same_text
is_object_type (some (text t)) = same_text t "object"
is_object_type _ = false

module _ (texts : Texts) where
  unfoldable pub check_version : Option Json → Result Unit
  unfolding ensure
  check_version none = done tt
  check_version (some (text t)) = ensure (texts.is_version t)
  check_version (some _) = omf_error

  -- The part of `_validate_type` on the properties of a type that is no enumeration.
  unfoldable pub check_members : Object → Object → Result Unit
  unfolding is_object_type is_classified count_mark check_properties field then_do ensure
  check_members item properties = then_do (ensure (is_object_type (field "type" item))) (λ u.
      then_do (count_mark "isindex" properties) (λ indexes.
        then_do (ensure (not (is_classified (field "classification" item) && indexes == 0))) (λ v.
          then_do (count_mark "isname" properties)
            (λ names. then_do (ensure (ltb names 2)) (λ w. check_properties properties)))))

  -- `_validate_type`
  unfoldable pub validate_type : Bool → Object → Result Unit
  unfolding require_text require_object check_classification check_version check_members has_field
      field then_do ensure
  validate_type deletes item = then_do (require_text "id" item) (λ id.
      then_do (ensure (not (texts.is_reserved id))) (λ u.
        if deletes
        then done tt
        else then_do (check_classification (field "classification" item)) (λ v.
          then_do (check_version (field "version" item)) (λ w.
            if has_field "enum" item
            then done tt
            else then_do (require_object "properties" item)
                (λ properties. check_members item properties)))))

  unfoldable pub validate_types : Bool → List Object → Result Unit
  unfolding validate_type then_do
  validate_types deletes [] = done tt
  validate_types deletes (item ∷ rest) =
      then_do (validate_type deletes item) (λ u. validate_types deletes rest)

unfoldable pub validate_containers : Bool → List Object → Result Unit
unfolding require_text then_do
validate_containers deletes [] = done tt
validate_containers deletes (item ∷ rest) = then_do (require_text "id" item) (λ id.
    if deletes
    then validate_containers deletes rest
    else then_do (require_text "typeid" item) (λ t. validate_containers deletes rest))

unfoldable pub is_array : Option Json → Bool
is_array none = true
is_array (some (array os)) = true
is_array (some _) = false

unfoldable pub validate_data : List Object → Result Unit
unfolding has_field field is_array then_do ensure
validate_data [] = done tt
validate_data (item ∷ rest) =
    then_do
      (ensure
        (has_field "typeid" item || has_field "containerid" item || has_field "properties" item))
      (λ u. then_do (ensure (is_array (field "values" item))) (λ v. validate_data rest))

-- `validate`
unfoldable pub validate : Texts → String → String → List Object → Result Unit
unfolding is_one_of same_text validate_types validate_containers validate_data then_do ensure
validate texts message_type action body =
    then_do (ensure (is_one_of message_types message_type)) (λ u.
      then_do (ensure (is_one_of actions action)) (λ v.
        then_do (ensure (not (length body == 0))) (λ w.
          if same_text message_type "type"
          then validate_types texts (same_text action "delete") body
          else if same_text message_type "container"
          then validate_containers (same_text action "delete") body
          else validate_data body)))
