-- ===== src/Omf/Transfer.antt =====
-- collector/omf.py, `data_message`, and archive/omf_receiver.py, `handle`: a batch of samples sent as
-- OMF, and what the archive holds afterwards.
use Prim.Native.String.{String}
use text.Mathlib.TextEquality.{eq_iff}
use kpcl_hardware.Common.{
  ℕ, suc, ◌+◌, ◌≡◌, ◌∙◌, refl, ap, false, Option, some, List, [], ◌∷◌, ◌++◌, length, All,
  All-append, arith, Bool-cases, inl, inr, length-append, ◌==◌,
}
use kpcl_hardware.Common.Text.{same_text}
use kpcl_hardware.Collector.Model.{Sample}
use kpcl_hardware.Collector.Sink.{write_samples}
use kpcl_hardware.Omf.Json.{Object, done, then_do, ensure, has_field, field}
use kpcl_hardware.Omf.Message.{append_value, data_item, data_items, data_message}
use kpcl_hardware.Omf.Validate.{Texts, validate, validate_data, is_one_of, is_array}
use kpcl_hardware.Omf.Receiver.{
  Receiver, Reader, StoredRow, entry, insert_rows, handle_message, handle_valid, if_valid, end_data,
  write_items,
}
use kpcl_hardware.Omf.Rows.{
  ReadsBack, rows_of, grouped, flat, Registered, sent_groups, group_samples-grouped,
  write_items-sent, insert_rows-write_samples,
}
use kpcl_hardware.Omf.Agree.{OneToOne, Tagged, row_at, row_at-write_grouped}

-- What the archive knows of the samples' tags: each name has a container and is the name of the
-- sample's tag.
pub record Configured (containers : List (String × String)) (tags : String → Option ℕ) (s : Sample)
    : Type 0 where
  pub container : String
  pub registered : entry s.tag_name containers ≡ some container
  pub tagged : tags s.tag_name ≡ some s.tag_id

length-flat :
    (name : String) (s : Sample) (groups : List (String × List Sample))
    → length (flat (append_value name s groups)) ≡ length (flat groups) + 1
unfolding flat append_value
length-flat name s [] = refl
length-flat name s ((other, ss) ∷ groups) = elim (Bool-cases (same_text other name)) [
  | inl e ↦ rw e (
      omega (
        arith,
        length-append {0} (ss ++ s ∷ []) (flat groups),
        length-append {0} ss (s ∷ []),
        length-append {0} ss (flat groups),
      ))
  | inr e ↦ rw e (
      omega (
        arith,
        length-append {0} ss (flat (append_value name s groups)),
        length-append {0} ss (flat groups),
        length-flat name s groups,
      ))
]

length-grouped :
    (ss : List Sample) (groups : List (String × List Sample))
    → length (flat (grouped ss groups)) ≡ length (flat groups) + length ss
unfolding grouped
length-grouped [] groups = omega arith
length-grouped (s ∷ ss) groups =
    omega
      (arith, length-grouped ss (append_value s.tag_name s groups), length-flat s.tag_name s groups)

append_value-Registered :
    (containers : List (String × String)) (tags : String → Option ℕ) (s : Sample)
    (groups : List (String × List Sample))
    → Configured containers tags s
    → Registered containers tags groups
    → Registered containers tags (append_value s.tag_name s groups)
unfolding append_value same_text
append_value-Registered containers tags s [] c r =
    (((c.container, c.registered), (s.tag_id, c.tagged, (refl, tt)), tt))
append_value-Registered containers tags s ((name, ss) ∷ groups) c (known, (i, f, h), r) =
    elim (Bool-cases (same_text name s.tag_name)) [
      | inl e ↦
          let same : name ≡ s.tag_name = (eq_iff name s.tag_name).0 e in
          let tagged = c.tagged in
          let own : s.tag_id ≡ i = cc in
          rw e (known, (i, f, All-append (λ (x : Sample). x.tag_id ≡ i) ss (s ∷ []) h (own, tt)), r)
      | inr e ↦ rw e (known, (i, f, h), append_value-Registered containers tags s groups c r)
    ]

grouped-Registered :
    (containers : List (String × String)) (tags : String → Option ℕ) (ss : List Sample)
    (groups : List (String × List Sample))
    → All (Configured containers tags) ss
    → Registered containers tags groups
    → Registered containers tags (grouped ss groups)
unfolding grouped
grouped-Registered containers tags [] groups c r = r
grouped-Registered containers tags (s ∷ ss) groups c r =
    grouped-Registered containers tags ss (append_value s.tag_name s groups) c.1
      (append_value-Registered containers tags s groups c.0 r)

validate_data-sent :
    (groups : List (String × List Object)) → validate_data (data_items groups) ≡ done tt
unfolding validate_data data_items data_item has_field field is_array then_do ensure same_text
validate_data-sent [] = refl
validate_data-sent ((name, vs) ∷ groups) = validate_data-sent groups

-- There is a group as soon as there was one.
grouped-cons :
    (ss : List Sample) (g : String × List Sample) (groups : List (String × List Sample))
    → (h : String × List Sample) × (rest : List (String × List Sample)) × (grouped ss (g ∷ groups)
        ≡ h ∷ rest)
unfolding grouped append_value
grouped-cons [] g groups = (g, groups, refl)
grouped-cons (s ∷ ss) (name, xs) groups = elim (Bool-cases (same_text name s.tag_name)) [
  | inl e ↦ rw e (grouped-cons ss (name, xs ++ s ∷ []) groups)
  | inr e ↦ rw e (grouped-cons ss (name, xs) (append_value s.tag_name s groups))
]

validate-sent :
    (texts : Texts) (g : String × List Object) (groups : List (String × List Object))
    → validate texts "data" "create" (data_items (g ∷ groups)) ≡ done tt
unfolding validate is_one_of then_do ensure same_text data_items
validate-sent texts (name, vs) groups =
    let some_item : (suc (length (data_items groups)) == 0) ≡ false = ground arith in
    rw some_item (validate_data-sent ((name, vs) ∷ groups))

-- A valid data message whose items are all written.
handle_message-written :
    (texts : Texts) (reader : Reader) (tags : String → Option ℕ) (r : Receiver)
    (archive rows : List StoredRow) (n : ℕ) (body : List Object)
    → validate texts "data" "create" body ≡ done tt
    → write_items reader tags r.containers body (archive, 0) ≡ done (rows, n)
    → handle_message texts reader tags "data" "create" body (r, archive) ≡ (
      (
        record r {
          counts = record r.counts {
            messages = r.counts.messages + length body;
            values = r.counts.values + n;
          };
        },
        rows,
      ),
      done n,
    )
unfolding handle_message handle_valid if_valid end_data same_text
handle_message-written texts reader tags r archive rows n body v w = rw (v, w) refl

groups_valid :
    (texts : Texts) (iso : ℕ → String) (reader : Reader) (back : ReadsBack iso reader) (s : Sample)
    (ss : List Sample)
    → validate texts "data" "create"
        (data_items (sent_groups iso reader back (grouped (s ∷ ss) [])))
      ≡ done tt
unfolding grouped append_value sent_groups
groups_valid texts iso reader back s ss =
    let g = grouped-cons ss (s.tag_name, s ∷ []) [] in
    rw g.2 (validate-sent texts (g.0.0, _) (sent_groups iso reader back g.1))

configured-Tagged :
    (containers : List (String × String)) (tags : String → Option ℕ) (ss : List Sample)
    → All (Configured containers tags) ss
    → Tagged tags ss
configured-Tagged containers tags [] h = tt
configured-Tagged containers tags (s ∷ ss) h =
    (h.0.tagged, configured-Tagged containers tags ss h.1)

-- A batch of samples, sent as one data message to a receiver that has a container for each of their
-- tags, is written whole: the message is valid, as many values are counted as there are samples, and
-- the archive then holds under every tag and source time the very row, with its times, its value or
-- none, and its quality, that the direct sink would have left there. Python reads back the times and
-- numbers that it wrote, and two tags have two names.
pub handle_message-data_message :
    (texts : Texts) (iso : ℕ → String) (reader : Reader) (tags : String → Option ℕ) (r : Receiver)
    (archive : List Sample) (s : Sample) (ss : List Sample)
    → ReadsBack iso reader
    → OneToOne tags
    → All (Configured r.containers tags) (s ∷ ss)
    → (after : List Sample) × (handle_message texts reader tags "data" "create"
          (data_message iso (s ∷ ss))
          (r, rows_of archive)
        ≡ (
          (
            record r {
              counts = record r.counts {
                messages = r.counts.messages + length (data_message iso (s ∷ ss));
                values = r.counts.values + length (s ∷ ss);
              };
            },
            rows_of after,
          ),
          done (length (s ∷ ss)),
        ))
      × ((tag ts : ℕ) → row_at tag ts after ≡ row_at tag ts (write_samples archive (s ∷ ss)))
unfolding data_message sent_groups flat
handle_message-data_message texts iso reader tags r archive s ss back one c =
    let groups = grouped (s ∷ ss) [] in
    let sent = sent_groups iso reader back groups in
    let body : data_message iso (s ∷ ss) ≡ data_items sent =
      ap data_items (group_samples-grouped iso reader back (s ∷ ss) []) in
    let written =
      write_items-sent iso reader back r.containers tags groups (rows_of archive) 0
        (grouped-Registered r.containers tags (s ∷ ss) [] c tt) in
    let count : 0 + length (flat groups) ≡ length (s ∷ ss) =
      omega (arith, length-grouped (s ∷ ss) []) in
    let rows : insert_rows (rows_of archive) (rows_of (flat groups))
        ≡ rows_of (write_samples archive (flat groups)) =
      insert_rows-write_samples archive (flat groups) in
    (
      write_samples archive (flat groups),
      handle_message-written texts reader tags r (rows_of archive) _ _ (data_message iso (s ∷ ss))
          (ap (validate texts "data" "create") body ∙ groups_valid texts iso reader back s ss)
          (rw (body, ← rows, ← count) written),
      λ tag ts.
          row_at-write_grouped tags one tag ts archive (s ∷ ss)
            (configured-Tagged r.containers tags (s ∷ ss) c),
    )
