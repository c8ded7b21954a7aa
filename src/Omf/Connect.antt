-- ===== src/Omf/Connect.antt =====
-- collector/omf.py, `type_message` and `container_message`, at archive/omf_receiver.py: what a producer
-- registers before it sends data (`connect` of collector/omf_sink.py).
use Prim.Native.String.{String}
use package.text.Mathlib.TextEquality.{eq_iff}
use kpcl_hardware.Common.{
  ℕ, suc, ◌≡◌, ◌∙◌, refl, true, false, Option, some, List, [], ◌∷◌, length, arith, In, here, there,
  Bool-cases, inl, inr, ◌==◌,
}
use kpcl_hardware.Common.Text.{same_text}
use kpcl_hardware.Omf.Json.{Object, Result, done, field, then_do, ensure}
use kpcl_hardware.Omf.Message.{
  TagConfig, type_message, type_item, property_of, container_message, container_of, sample_type_id,
  tag_type_id, sample_properties,
}
use kpcl_hardware.Omf.Validate.{
  Texts, validate, validate_containers, validate_types, validate_type, check_members, count_mark,
  check_properties, is_one_of, require_text, as_text,
}
use kpcl_hardware.Omf.Receiver.{
  Reader, ReceiverState, entry, with_entry, handle_message, handle_valid, if_valid, handle_types,
  end_containers, keep_types, keep_containers, keep_container, known_type, known, container_name,
  text_of,
}

same_text_self : (a : String) → same_text a a ≡ true
unfolding same_text
same_text_self a = (eq_iff a a).1 refl

same_text→≡ : (a b : String) → same_text a b ≡ true → a ≡ b
unfolding same_text
same_text→≡ a b h = (eq_iff a b).0 h

entry-with_entry_self :
    {V : Type 0} (k : String) (v : V) (d : List (String × V)) → entry k (with_entry k v d) ≡ some v
unfolding entry with_entry
entry-with_entry_self k v [] = rw (same_text_self k) refl
entry-with_entry_self k v ((j, w) ∷ d) = elim (Bool-cases (same_text j k)) [
  | inl e ↦ rw (e, e) refl
  | inr e ↦ rw (e, e) (entry-with_entry_self k v d)
]

-- An entry that is there stays, or is the new one.
entry-with_entry_same :
    {V : Type 0} (k j : String) (v : V) (d : List (String × V))
    → entry j d ≡ some v
    → entry j (with_entry k v d) ≡ some v
unfolding entry with_entry
entry-with_entry_same k j v [] h = cc
entry-with_entry_same k j v ((i, w) ∷ d) h = elim (Bool-cases (same_text i k)) [
  | inl e ↦ elim (Bool-cases (same_text i j)) [
    | inl f ↦ rw (e, f) refl
    | inr f ↦ rw (e, f) (rw f at h)
  ]
  | inr e ↦ elim (Bool-cases (same_text i j)) [
    | inl f ↦ rw (e, f) (rw f at h)
    | inr f ↦ rw (e, f) (entry-with_entry_same k j v d (rw f at h))
  ]
]

entry-with_entry_other :
    {V : Type 0} (k j : String) (v : V) (d : List (String × V))
    → same_text k j ≡ false
    → entry j (with_entry k v d) ≡ entry j d
unfolding entry with_entry
entry-with_entry_other k j v [] h = rw h refl
entry-with_entry_other k j v ((i, w) ∷ d) h = elim (Bool-cases (same_text i k)) [
  | inl e ↦ let apart : same_text i j ≡ false = rw (same_text→≡ i k e) h in rw (e, apart) refl
  | inr e ↦ elim (Bool-cases (same_text i j)) [
    | inl f ↦ rw (e, f) refl
    | inr f ↦ rw (e, f) (entry-with_entry_other k j v d h)
  ]
]

-- The texts that the collector's types consist of are in order.
pub record Sound (texts : Texts) : Type 0 where
  pub sample_id : texts.is_reserved sample_type_id ≡ false
  pub tag_id : texts.is_reserved tag_type_id ≡ false
  pub version : texts.is_version "1.0.0.0" ≡ true

type_message-valid :
    (texts : Texts) → Sound texts → validate texts "type" "create" type_message ≡ done tt
unfolding validate type_message type_item property_of validate_types validate_type check_members
    count_mark check_properties
type_message-valid texts s = rw (s.sample_id, s.tag_id, s.version) refl

validate_containers-valid :
    (tags : List TagConfig) → validate_containers false (container_message tags) ≡ done tt
unfolding validate_containers container_message container_of require_text as_text field then_do
    same_text
validate_containers-valid [] = refl
validate_containers-valid (t ∷ ts) = validate_containers-valid ts

-- Containers of a type that is there are all kept.
keep_containers-kept :
    (types : List (String × Object)) (o : Object) (tags : List TagConfig)
    (cs : List (String × String))
    → entry sample_type_id types ≡ some o
    → (out : List (String × String)) × (keep_containers types (container_message tags) cs
        ≡ (out, done tt))
      × ((name : String)
          → entry name cs ≡ some sample_type_id
          → entry name out ≡ some sample_type_id)
      × ((tag : TagConfig) → In tag tags → entry tag.name out ≡ some sample_type_id)
unfolding keep_containers container_message container_of container_name known_type keep_container
    known text_of field then_do same_text
keep_containers-kept types o [] cs h = (cs, refl, (λ name e. e), (λ tag i. elim i [ ]))
keep_containers-kept types o (t ∷ ts) cs h =
    let rest = keep_containers-kept types o ts (with_entry t.name sample_type_id cs) h in
    (
      rest.0,
      rw h rest.1,
      λ name e. rest.2 name (entry-with_entry_same t.name name sample_type_id cs e),
      λ tag i.
          in_tail t ts rest.0 rest.3
            (rest.2 t.name (entry-with_entry_self t.name sample_type_id cs)) tag i,
    )
  where
    in_tail :
        (t : TagConfig) (ts : List TagConfig) (out : List (String × String))
        → ((tag : TagConfig) → In tag ts → entry tag.name out ≡ some sample_type_id)
        → entry t.name out ≡ some sample_type_id
        → (tag : TagConfig) → In tag (t ∷ ts)
        → entry tag.name out ≡ some sample_type_id
    in_tail t ts out f e tag (here q) = rw q e
    in_tail t ts out f e tag (there k) = f tag k

-- The two messages of `connect`, one after the other.
unfoldable pub connect :
    Texts → Reader → (String → Option ℕ) → List TagConfig → ReceiverState → ReceiverState × Result ℕ
connect texts reader ids tags state =
    handle_message texts reader ids "container" "create" (container_message tags)
      (handle_message texts reader ids "type" "create" type_message state).0

types_kept :
    (types : List (String × Object))
    → (o : Object) × (entry sample_type_id (keep_types type_message types) ≡ some o)
unfolding keep_types type_message type_item same_text text_of field
types_kept types = (
  type_item sample_type_id "dynamic" sample_properties,
  entry-with_entry_other tag_type_id sample_type_id _ _ refl
      ∙ entry-with_entry_self sample_type_id _ types,
)

container_message-valid :
    (texts : Texts) (t : TagConfig) (ts : List TagConfig)
    → validate texts "container" "create" (container_message (t ∷ ts)) ≡ done tt
unfolding validate is_one_of then_do ensure same_text container_message
container_message-valid texts t ts =
    let some_item : (suc (length (container_message ts)) == 0) ≡ false = ground arith in
    rw some_item (validate_containers-valid (t ∷ ts))

module _ (texts : Texts) (reader : Reader) (ids : String → Option ℕ) where
  handle_message-type :
      (body : List Object) (state : ReceiverState)
      → validate texts "type" "create" body ≡ done tt
      → handle_message texts reader ids "type" "create" body state ≡ handle_types body state
  unfolding handle_message handle_valid if_valid same_text
  handle_message-type body (r, archive) v = rw v refl

  handle_message-container :
      (body : List Object) (state : ReceiverState)
      → validate texts "container" "create" body ≡ done tt
      → handle_message texts reader ids "container" "create" body state
        ≡ end_containers (length body) state (keep_containers state.0.types body state.0.containers)
  unfolding handle_message handle_valid if_valid same_text
  handle_message-container body (r, archive) v = rw v refl

  -- A producer that registers its types and a container for each of its tags, of which it has some, is
  -- accepted, whatever the receiver knew before, and the receiver then has a container for each of the
  -- tags; the ids of the two types are not reserved ones, and their version is one.
  pub connect-registers :
      (t : TagConfig) (ts : List TagConfig) (state : ReceiverState)
      → Sound texts
      → ((n : ℕ) × ((connect texts reader ids (t ∷ ts) state).1 ≡ done n))
        × ((tag : TagConfig)
            → In tag (t ∷ ts)
            → entry tag.name (connect texts reader ids (t ∷ ts) state).0.0.containers
              ≡ some sample_type_id)
  unfolding connect handle_types end_containers
  connect-registers t ts (r, archive) sound =
      let types = types_kept r.types in
      let kept =
        keep_containers-kept (keep_types type_message r.types) types.0 (t ∷ ts) r.containers
          types.1 in
      rw
        (
          handle_message-type type_message (r, archive) (type_message-valid texts sound),
          handle_message-container (container_message (t ∷ ts)) _
              (container_message-valid texts t ts),
          kept.1,
        )
        ((_, refl), kept.3)
