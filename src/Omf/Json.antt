-- ===== src/Omf/Json.antt =====
-- The JSON documents of the messages that collector/omf.py and archive/omf_receiver.py exchange, as
-- Python reads them, and how a step of the code on them ends. An array holds objects, the only arrays
-- that OMF has; a number that Python reads as a float is an integer in units of 10⁻¹².
use Prim.Native.String.{String}
use kpcl_hardware.Common.{Bool, true, false, Option, none, some, List, [], ◌∷◌, if◌then◌else◌}
use kpcl_hardware.Common.Int.{ℤ}
use kpcl_hardware.Common.Text.{same_text}

mutual
  pub data Json : Type 0 where
    null : Json
    boolean : Bool → Json
    integer : ℤ → Json
    number : ℤ → Json
    text : String → Json
    array : Objects → Json
    object : Object → Json

  pub data Object : Type 0 where
    empty : Object
    member : String → Json → Object → Object

  pub data Objects : Type 0 where
    no_more : Objects
    first_of : Object → Objects → Objects

-- `item.get(key)`
unfoldable pub field : String → Object → Option Json
unfolding same_text
field key empty = none
field key (member name v rest) = if same_text name key then some v else field key rest

-- `key in item`
unfoldable pub has_field : String → Object → Bool
unfolding field
has_field key item = elim (field key item) [ none ↦ false | some v ↦ true ]

-- The objects of an array, as a list.
unfoldable pub objects_of : Objects → List Object
objects_of no_more = []
objects_of (first_of o rest) = o ∷ objects_of rest

-- A list of objects, as an array.
unfoldable pub array_of : List Object → Objects
array_of [] = no_more
array_of (o ∷ os) = first_of o (array_of os)

-- What a step ends in: a result, an OmfError, or another exception.
pub data Result (A : Type 0) : Type 0 where
  done : A → Result A
  omf_error : Result A
  other_error : Result A

unfoldable pub then_do : {A B : Type 0} → Result A → (A → Result B) → Result B
then_do (done a) f = f a
then_do omf_error f = omf_error
then_do other_error f = other_error

-- A step that raises an OmfError unless a test holds.
unfoldable pub ensure : Bool → Result Unit
ensure b = if b then done tt else omf_error
