-- ===== src/Omf/Rows.antt =====
-- archive/omf_receiver.py, `_row`, on the values that collector/omf.py makes: a sample's way through a
-- message, and the rows of a whole message.
use Prim.Native.String.{String}
use kpcl_hardware.Common.{
  ℕ, ◌+◌, ◌≡◌, ◌∙◌, refl, ap, Option, none, some, List, [], ◌∷◌, ◌++◌, length, All, arith,
  Bool-cases, inl, inr, any_of, length-append,
}
use kpcl_hardware.Common.Int.{ℤ, pos}
use kpcl_hardware.Common.Text.{same_text}
use kpcl_hardware.Collector.Model.{Sample}
use kpcl_hardware.Collector.Sink.{conflicts, insert_sample, write_samples}
use kpcl_hardware.Omf.Json.{
  integer, number, text, Object, objects_of, array_of, field, done, then_do,
}
use kpcl_hardware.Omf.Message.{
  append_value, sample_value, server_time, value_json, data_item, data_items, group_samples,
}
use kpcl_hardware.Omf.Receiver.{
  StoredRow, Reader, entry, insert_row, insert_rows, same_row_key, read_row, read_rows, unless_null,
  refuse_null, given, known, values_of, item_rows, rows_of_item, container_name, write_items,
}

-- Python reads back what the collector wrote: times, integers and floats.
pub record ReadsBack (iso : ℕ → String) (reader : Reader) : Type 0 where
  pub times : (ts : ℕ) → reader.to_time (text (iso ts)) ≡ done ts
  pub ints : (z : ℤ) → reader.to_int (integer z) ≡ done z
  pub floats : (z : ℤ) → reader.to_float (number z) ≡ done z

-- A sample as a row of the archive.
unfoldable pub row_of : Sample → StoredRow
row_of s = record {
  tag_id = s.tag_id;
  source_ts = s.source_ts;
  server_ts = s.server_ts;
  value = s.value;
  quality = pos s.quality;
}

unfoldable pub rows_of : List Sample → List StoredRow
unfolding row_of
rows_of [] = []
rows_of (s ∷ ss) = row_of s ∷ rows_of ss

-- Samples by the names of their tags, in the order of a name's first sample.
unfoldable pub grouped : List Sample → List (String × List Sample) → List (String × List Sample)
unfolding append_value
grouped [] groups = groups
grouped (s ∷ ss) groups = grouped ss (append_value s.tag_name s groups)

-- All the samples of the groups, group by group.
unfoldable pub flat : List (String × List Sample) → List Sample
flat [] = []
flat ((name, ss) ∷ groups) = ss ++ flat groups

length-rows_of : (ss : List Sample) → length (rows_of ss) ≡ length ss
unfolding rows_of
length-rows_of [] = refl
length-rows_of (s ∷ ss) = omega (arith, length-rows_of ss)

insert_rows-append :
    (archive : List StoredRow) (ss ts : List Sample)
    → insert_rows (insert_rows archive (rows_of ss)) (rows_of ts)
      ≡ insert_rows archive (rows_of (ss ++ ts))
unfolding insert_rows rows_of
insert_rows-append archive [] ts = refl
insert_rows-append archive (s ∷ ss) ts = insert_rows-append (insert_row archive (row_of s)) ss ts

any_of-rows_of :
    (s : Sample) (ss : List Sample)
    → any_of (same_row_key (row_of s)) (rows_of ss) ≡ any_of (conflicts s) ss
unfolding rows_of same_row_key conflicts row_of
any_of-rows_of s [] = refl
any_of-rows_of s (t ∷ ss) = rw (any_of-rows_of s ss) refl

rows_of-append : (ss ts : List Sample) → rows_of ss ++ rows_of ts ≡ rows_of (ss ++ ts)
unfolding rows_of
rows_of-append [] ts = refl
rows_of-append (s ∷ ss) ts = rw (rows_of-append ss ts) refl

insert_row-insert_sample :
    (archive : List Sample) (s : Sample)
    → insert_row (rows_of archive) (row_of s) ≡ rows_of (insert_sample archive s)
unfolding insert_row insert_sample rows_of
insert_row-insert_sample archive s =
    rw (any_of-rows_of s archive) (elim (Bool-cases (any_of (conflicts s) archive)) [
      | inl e ↦ rw e refl
      | inr e ↦ rw e (rows_of-append archive (s ∷ []))
    ])

-- The receiver's statement and the direct sink's are the same one.
pub insert_rows-write_samples :
    (archive ss : List Sample)
    → insert_rows (rows_of archive) (rows_of ss) ≡ rows_of (write_samples archive ss)
unfolding insert_rows write_samples rows_of
insert_rows-write_samples archive [] = refl
insert_rows-write_samples archive (s ∷ ss) =
    ap (λ (a : List StoredRow). insert_rows a (rows_of ss)) (insert_row-insert_sample archive s)
    ∙ insert_rows-write_samples (insert_sample archive s) ss

-- The names of the groups are registered, and each is the tag of its samples.
abbrev pub Registered :
    List (String × String) → (String → Option ℕ) → List (String × List Sample) → Type 0
Registered containers tags [] = Unit
Registered containers tags ((name, ss) ∷ groups) =
    ((t : String) × (entry name containers ≡ some t))
    × ((i : ℕ) × (tags name ≡ some i) × All (λ (s : Sample). s.tag_id ≡ i) ss)
    × Registered containers tags groups

module _ (iso : ℕ → String) (reader : Reader) (back : ReadsBack iso reader) where
  server_time_back : (o : Option ℕ) → unless_null reader.to_time (server_time iso o) ≡ done o
  unfolding unless_null server_time then_do
  server_time_back none = refl
  server_time_back (some ts) = rw (back.times ts) refl

  value_json_back : (o : Option ℤ) → unless_null reader.to_float (value_json iso o) ≡ done o
  unfolding unless_null value_json then_do
  value_json_back none = refl
  value_json_back (some z) = rw (back.floats z) refl

  -- What is sent for a sample is read back as its own row: its source and server times, its quality, and
  -- its value, or none where it has none.
  pub read_row-sample_value :
      (s : Sample) → read_row reader s.tag_id (sample_value iso s) ≡ done (row_of s)
  unfolding read_row sample_value field given then_do refuse_null row_of same_text
  read_row-sample_value s =
      rw
        (
          back.times s.source_ts,
          server_time_back s.server_ts,
          back.ints (pos s.quality),
          value_json_back s.value,
        )
        refl

  -- The values of a list of samples.
  unfoldable pub values_of_samples : List Sample → List Object
  unfolding sample_value
  values_of_samples [] = []
  values_of_samples (s ∷ ss) = sample_value iso s ∷ values_of_samples ss

  unfoldable pub sent_groups : List (String × List Sample) → List (String × List Object)
  unfolding values_of_samples
  sent_groups [] = []
  sent_groups ((name, ss) ∷ groups) = (name, values_of_samples ss) ∷ sent_groups groups

  values_of_samples-append :
      (ss : List Sample) (s : Sample)
      → values_of_samples ss ++ sample_value iso s ∷ [] ≡ values_of_samples (ss ++ s ∷ [])
  unfolding values_of_samples
  values_of_samples-append [] s = refl
  values_of_samples-append (x ∷ ss) s = rw (values_of_samples-append ss s) refl

  sent_groups-append_value :
      (s : Sample) (groups : List (String × List Sample))
      → append_value s.tag_name (sample_value iso s) (sent_groups groups)
        ≡ sent_groups (append_value s.tag_name s groups)
  unfolding append_value sent_groups values_of_samples
  sent_groups-append_value s [] = refl
  sent_groups-append_value s ((name, ss) ∷ groups) = elim (Bool-cases (same_text name s.tag_name)) [
    | inl e ↦
        rw e (
          ap (λ (vs : List Object). (name, vs) ∷ sent_groups groups)
            (values_of_samples-append ss s))
    | inr e ↦ rw e (
        ap (λ (gs : List (String × List Object)). (name, values_of_samples ss) ∷ gs)
          (sent_groups-append_value s groups))
  ]

  pub group_samples-grouped :
      (ss : List Sample) (groups : List (String × List Sample))
      → group_samples iso ss (sent_groups groups) ≡ sent_groups (grouped ss groups)
  unfolding group_samples grouped
  group_samples-grouped [] groups = refl
  group_samples-grouped (s ∷ ss) groups =
      ap (group_samples iso ss) (sent_groups-append_value s groups)
      ∙ group_samples-grouped ss (append_value s.tag_name s groups)

  objects_of-array_of : (os : List Object) → objects_of (array_of os) ≡ os
  unfolding objects_of array_of
  objects_of-array_of [] = refl
  objects_of-array_of (o ∷ os) = rw (objects_of-array_of os) refl

  pub read_rows-values :
      (i : ℕ) (ss : List Sample)
      → All (λ (s : Sample). s.tag_id ≡ i) ss
      → read_rows reader i (values_of_samples ss) ≡ done (rows_of ss)
  unfolding read_rows values_of_samples rows_of then_do
  read_rows-values i [] h = refl
  read_rows-values i (s ∷ ss) h =
      rw (← h.0, read_row-sample_value s, h.0, read_rows-values i ss h.1) refl

  item_rows-sent :
      (containers : List (String × String)) (tags : String → Option ℕ) (name : String)
      (ss : List Sample)
      → ((t : String) × (entry name containers ≡ some t))
      → ((i : ℕ) × (tags name ≡ some i) × All (λ (s : Sample). s.tag_id ≡ i) ss)
      → item_rows reader tags containers (data_item name (values_of_samples ss)) name
        ≡ done (rows_of ss)
  unfolding item_rows data_item known values_of field then_do same_text
  item_rows-sent containers tags name ss (t, e) (i, f, h) =
      rw (e, f, objects_of-array_of (values_of_samples ss), read_rows-values i ss h) refl

  pub write_items-sent :
      (containers : List (String × String)) (tags : String → Option ℕ)
      (groups : List (String × List Sample)) (archive : List StoredRow) (n : ℕ)
      → Registered containers tags groups
      → write_items reader tags containers (data_items (sent_groups groups)) (archive, n)
        ≡ done (insert_rows archive (rows_of (flat groups)), n + length (flat groups))
  unfolding write_items data_items sent_groups flat container_name rows_of_item then_do rows_of
      insert_rows
  write_items-sent containers tags [] archive n h =
      let whole : n ≡ n + 0 = omega arith in ap (λ (k : ℕ). done (archive, k)) whole
  write_items-sent containers tags ((name, ss) ∷ groups) archive n h =
      let total : n + length (rows_of ss) + length (flat groups) ≡ n + length (ss ++ flat groups) =
        omega (arith, length-append {0} ss (flat groups), length-rows_of ss) in
      rw (item_rows-sent containers tags name ss h.0 h.1) (
        write_items-sent containers tags groups (insert_rows archive (rows_of ss))
          (n + length (rows_of ss)) h.2
        ∙ ap
            (λ (k : ℕ).
              done (insert_rows (insert_rows archive (rows_of ss)) (rows_of (flat groups)), k))
            total
        ∙ ap (λ (a : List StoredRow). done (a, n + length (ss ++ flat groups)))
            (insert_rows-append archive ss (flat groups)))
