-- ===== src/Omf/Refusal.antt =====
-- archive/omf_receiver.py, `handle` and `_row`: a data message is written whole or not at all, and a
-- value that leaves something out is not written.
use Prim.Native.String.{String}
use kpcl_hardware.Common.{
  ℕ, ◌+◌, ◌≡◌, ◌≢◌, ◌⊎◌, inl, inr, refl, sym, Option, none, some, List, [], ◌∷◌, length, All,
}
use kpcl_hardware.Common.Text.{same_text}
use kpcl_hardware.Omf.Json.{
  Json, null, boolean, integer, number, text, array, object, Object, Objects, objects_of, field,
  Result, done, omf_error, other_error, then_do,
}
use kpcl_hardware.Omf.Validate.{Texts, validate}
use kpcl_hardware.Omf.Receiver.{
  Reader, StoredRow, ReceiverState, handle_message, handle_valid, if_valid, end_data, write_items,
  rows_of_item, item_rows, values_of, container_name, read_row, read_rows, given, known,
  refuse_null, unless_null, insert_rows, entry,
}

-- Every property that the receiver insists on is there, and the quality is not null.
pub record Complete (v : Object) : Type 0 where
  pub source : (j : Json) × (field "SourceTime" v ≡ some j)
  pub value : (j : Json) × (field "Value" v ≡ some j)
  pub quality : (j : Json) × (field "Quality" v ≡ some j) × (j ≢ null)
  pub server : (j : Json) × (field "ServerTime" v ≡ some j)

-- All the values of an item for a container are complete.
abbrev pub CompleteItem : Object → Type 0
CompleteItem item =
    (name : String) (vs : Objects)
    → field "containerid" item ≡ some (text name)
    → field "values" item ≡ some (array vs)
    → All Complete (objects_of vs)

then_do_inv :
    {A B : Type 0} (r : Result A) (f : A → Result B) {b : B}
    → then_do r f ≡ done b
    → (a : A) × (r ≡ done a) × (f a ≡ done b)
unfolding then_do
then_do_inv (done a) f h = (a, refl, h)
then_do_inv omf_error f h = cc
then_do_inv other_error f h = cc

done_inj : {A : Type 0} {a b : A} → done a ≡ done b → a ≡ b
done_inj h = cc

given_inv : (o : Option Json) {j : Json} → given o ≡ done j → o ≡ some j
unfolding given
given_inv none h = cc
given_inv (some k) h = cc

refuse_null_inv :
    {A : Type 0} (read : Json → Result A) (j : Json) {a : A}
    → refuse_null read j ≡ done a
    → j ≢ null
unfolding refuse_null
refuse_null_inv read null h = cc
refuse_null_inv read (boolean b) h = λ e. cc
refuse_null_inv read (integer z) h = λ e. cc
refuse_null_inv read (number z) h = λ e. cc
refuse_null_inv read (text t) h = λ e. cc
refuse_null_inv read (array os) h = λ e. cc
refuse_null_inv read (object o) h = λ e. cc

module _ (reader : Reader) where
  read_row-Complete :
      (i : ℕ) (v : Object) {r : StoredRow} → read_row reader i v ≡ done r → Complete v
  unfolding read_row
  read_row-Complete i v h =
      let source = then_do_inv (given (field "SourceTime" v)) _ h in
      let value = then_do_inv (given (field "Value" v)) _ source.2 in
      let quality = then_do_inv (given (field "Quality" v)) _ value.2 in
      let server = then_do_inv (given (field "ServerTime" v)) _ quality.2 in
      let s = then_do_inv (reader.to_time source.0) _ server.2 in
      let t = then_do_inv (unless_null reader.to_time server.0) _ s.2 in
      let q = then_do_inv (refuse_null reader.to_int quality.0) _ t.2 in
      record {
        source = (source.0, given_inv (field "SourceTime" v) source.1);
        value = (value.0, given_inv (field "Value" v) value.1);
        quality = (
          quality.0,
          given_inv (field "Quality" v) quality.1,
          refuse_null_inv reader.to_int quality.0 q.1,
        );
        server = (server.0, given_inv (field "ServerTime" v) server.1);
      }

  read_rows-Complete :
      (i : ℕ) (vs : List Object) {rs : List StoredRow}
      → read_rows reader i vs ≡ done rs
      → All Complete vs
  unfolding read_rows
  read_rows-Complete i [] h = tt
  read_rows-Complete i (v ∷ vs) h =
      let r = then_do_inv (read_row reader i v) _ h in
      let rs = then_do_inv (read_rows reader i vs) _ r.2 in
      (read_row-Complete i v r.1, read_rows-Complete i vs rs.1)

  module _ (tags : String → Option ℕ) where
    item_rows-Complete :
        (containers : List (String × String)) (item : Object) (name : String) (vs : Objects)
        {rs : List StoredRow}
        → field "values" item ≡ some (array vs)
        → item_rows reader tags containers item name ≡ done rs
        → All Complete (objects_of vs)
    unfolding item_rows values_of
    item_rows-Complete containers item name vs e h =
        let c = then_do_inv (known (entry name containers)) _ h in
        let t = then_do_inv (known (tags name)) _ c.2 in
        let values = then_do_inv (values_of (field "values" item)) _ t.2 in
        let same : values.0 ≡ objects_of vs = sym (done_inj (rw e at values.1)) in
        rw (← same) (read_rows-Complete t.0 values.0 values.2)

    rows_of_item-Complete :
        (containers : List (String × String)) (item : Object) (name : Option String)
        {rs : List StoredRow}
        → container_name (field "containerid" item) ≡ done name
        → rows_of_item reader tags containers item name ≡ done rs
        → CompleteItem item
    unfolding rows_of_item container_name
    rows_of_item-Complete containers item none n h =
        λ name vs p q. let clash : done (some name) ≡ done none = rw p at n in cc
    rows_of_item-Complete containers item (some x) n h =
        λ name vs p q. item_rows-Complete containers item x vs q h

    write_items-Complete :
        (containers : List (String × String)) (items : List Object) (archive : List StoredRow)
        (n : ℕ) {out : List StoredRow × ℕ}
        → write_items reader tags containers items (archive, n) ≡ done out
        → All CompleteItem items
    unfolding write_items
    write_items-Complete containers [] archive n h = tt
    write_items-Complete containers (item ∷ items) archive n h =
        let name = then_do_inv (container_name (field "containerid" item)) _ h in
        let rows = then_do_inv (rows_of_item reader tags containers item name.0) _ name.2 in
        (
          rows_of_item-Complete containers item name.0 name.1 rows.1,
          write_items-Complete containers items (insert_rows archive rows.0) (n + length rows.0)
              rows.2,
        )

-- A step that ended in an error and left everything as it was.
abbrev pub Refused : ReceiverState → ReceiverState × Result ℕ → Type 0
Refused state (after, done n) = ⊥
Refused state (after, omf_error) = after ≡ state
Refused state (after, other_error) = after ≡ state

end_data-cases :
    (n : ℕ) (state : ReceiverState) (o : Result (List StoredRow × ℕ))
    → Refused state (end_data n state o) ⊎ ((w : List StoredRow × ℕ) × (o ≡ done w))
unfolding end_data
end_data-cases n state (done w) = inr (w, refl)
end_data-cases n state omf_error = inl refl
end_data-cases n state other_error = inl refl

if_valid-cases :
    (v : Result Unit) (state : ReceiverState) (after : ReceiverState × Result ℕ) (P : Type 0)
    → Refused state after ⊎ P
    → Refused state (if_valid v state after) ⊎ P
unfolding if_valid
if_valid-cases (done u) state after P h = h
if_valid-cases omf_error state after P h = inl refl
if_valid-cases other_error state after P h = inl refl

-- A data message, whatever it holds, either ends in an error and leaves the receiver, its counts and
-- the archive as they were, or every value that it has for a container gives a source time, a value
-- that may be null, a server time, and a quality that is not null.
pub handle_message-Complete :
    (texts : Texts) (reader : Reader) (tags : String → Option ℕ) (action : String)
    (body : List Object) (state : ReceiverState)
    → Refused state (handle_message texts reader tags "data" action body state)
      ⊎ All CompleteItem body
unfolding handle_message handle_valid same_text
handle_message-Complete texts reader tags action body (r, archive) =
    if_valid-cases (validate texts "data" action body) (r, archive) _ (All CompleteItem body)
      (elim (end_data-cases (length body) (r, archive)
        (write_items reader tags r.containers body (archive, 0))) [
          | inl e ↦ inl e
          | inr (w, e) ↦ inr (write_items-Complete reader tags r.containers body archive 0 e)
        ])
