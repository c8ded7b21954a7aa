-- ===== src/Omf/Tests.antt =====
-- Runs of the OMF path on small inputs.
mod Tally
use Prim.Native.String.{String}
use package.text.Mathlib.TextEquality.{eq_iff}
use kpcl_hardware.Common.{
  ℕ, ◌+◌, ◌≡◌, ◌⊎◌, refl, sym, ap, true, false, Bool, Option, none, some, List, [], ◌∷◌,
  if◌then◌else◌, length, All, arith, In, ◌∙◌, Bool-cases, inl, inr,
}
use kpcl_hardware.Common.Int.{ℤ, pos}
use kpcl_hardware.Common.Text.{same_text}
use kpcl_hardware.Collector.Model.{Sample}
use kpcl_hardware.Collector.Sink.{write_samples}
use kpcl_hardware.Omf.Json.{
  Json, null, boolean, integer, number, text, array, object, Object, member, empty, no_more,
  first_of, Result, done, omf_error, other_error, field,
}
use kpcl_hardware.Omf.Message.{TagConfig, data_message, sample_type_id}
use kpcl_hardware.Omf.Validate.{Texts}
use kpcl_hardware.Omf.Receiver.{Receiver, Reader, StoredRow, ReceiverState, entry, handle_message}
use kpcl_hardware.Omf.Rows.{ReadsBack, rows_of}
use kpcl_hardware.Omf.Agree.{OneToOne, row_at}
use kpcl_hardware.Omf.Transfer.{Configured, handle_message-data_message}
use kpcl_hardware.Omf.Refusal.{Refused, CompleteItem, handle_message-Complete}
use kpcl_hardware.Omf.Connect.{Sound, connect, connect-registers}
use kpcl_hardware.Omf.Tests.Tally.{unary, count_tally, count_tally-unary}

unfoldable time_of : Json → Result ℕ
unfolding count_tally
time_of (text t) = done (count_tally t)
time_of _ = other_error

unfoldable int_of : Json → Result ℤ
int_of (integer z) = done z
int_of _ = other_error

unfoldable float_of : Json → Result ℤ
float_of (number z) = done z
float_of _ = other_error

abbrev reader : Reader
reader = record { to_time = time_of; to_int = int_of; to_float = float_of }

back : ReadsBack unary reader
unfolding time_of int_of float_of
back = record { times = λ ts. ap done (count_tally-unary ts); ints = λ z. refl; floats = λ z. refl }

abbrev texts : Texts
texts = record { is_reserved = λ t. false; is_version = λ t. true }

sound : Sound texts
sound = record { sample_id = refl; tag_id = refl; version = refl }

-- The archive's tags.
unfoldable ids : String → Option ℕ
unfolding same_text
ids name =
    if same_text name "U1_MW" then some 1 else if same_text name "U1_FLOW" then some 2 else none

some_is : {a b : ℕ} → some a ≡ some b → a ≡ b
some_is h = cc

none_is : {a : ℕ} → none ≡ some a → ⊥
none_is h = cc

ids_inv :
    (name : String) {i : ℕ}
    → ids name ≡ some i
    → ((name ≡ "U1_MW") × (i ≡ 1)) ⊎ ((name ≡ "U1_FLOW") × (i ≡ 2))
unfolding ids same_text
ids_inv name h = elim (Bool-cases (same_text name "U1_MW")) [
  | inl e ↦ inl ((eq_iff name "U1_MW").0 e, sym (some_is (rw e at h)))
  | inr e ↦ elim (Bool-cases (same_text name "U1_FLOW")) [
    | inl f ↦ inr ((eq_iff name "U1_FLOW").0 f, sym (some_is (rw (e, f) at h)))
    | inr f ↦ absurd (none_is (rw (e, f) at h))
  ]
]

two_ways :
    (a b : String) (i : ℕ)
    → ((a ≡ "U1_MW") × (i ≡ 1)) ⊎ ((a ≡ "U1_FLOW") × (i ≡ 2))
    → ((b ≡ "U1_MW") × (i ≡ 1)) ⊎ ((b ≡ "U1_FLOW") × (i ≡ 2))
    → a ≡ b
two_ways a b i (inl (x, y)) (inl (z, w)) = x ∙ sym z
two_ways a b i (inl (x, y)) (inr (z, w)) = absurd (omega arith)
two_ways a b i (inr (x, y)) (inl (z, w)) = absurd (omega arith)
two_ways a b i (inr (x, y)) (inr (z, w)) = x ∙ sym z

ids-OneToOne : OneToOne ids
ids-OneToOne = record { apart = λ a b i p q. two_ways a b i (ids_inv a p) (ids_inv b q) }

abbrev mw : Sample
mw = record {
  tag_id = 1;
  tag_name = "U1_MW";
  source_ts = 5;
  server_ts = some 6;
  value = some (pos 210);
  quality = 0;
  seq = some 0;
  run = some 1;
}

-- A Bad sample without a value.
abbrev flow : Sample
flow = record {
  tag_id = 2;
  tag_name = "U1_FLOW";
  source_ts = 5;
  server_ts = none;
  value = none;
  quality = 2_147_483_648;
  seq = some 0;
  run = some 1;
}

abbrev batch : List Sample
batch = flow ∷ record mw { source_ts = 7 } ∷ []

abbrev containers : List (String × String)
containers = ("U1_MW", sample_type_id) ∷ ("U1_FLOW", sample_type_id) ∷ []

abbrev receiver : Receiver
receiver = record {
  types = [];
  containers = containers;
  counts = record { types = 2; containers = 2; messages = 0; values = 0 };
}

configured : All (Configured containers ids) (mw ∷ batch)
unfolding ids entry same_text
configured = (
  record { container = sample_type_id; registered = refl; tagged = refl },
  (
    record { container = sample_type_id; registered = refl; tagged = refl },
    (record { container = sample_type_id; registered = refl; tagged = refl }, tt),
  ),
)

handle_message-data_message_example :
    (after : List Sample) × (handle_message texts reader ids "data" "create"
        (data_message unary (mw ∷ batch))
        (receiver, rows_of [])
      ≡ (
        (
          record receiver {
            counts = record receiver.counts {
              messages = receiver.counts.messages + length (data_message unary (mw ∷ batch));
              values = receiver.counts.values + length (mw ∷ batch);
            };
          },
          rows_of after,
        ),
        done (length (mw ∷ batch)),
      ))
    × ((tag ts : ℕ) → row_at tag ts after ≡ row_at tag ts (write_samples [] (mw ∷ batch)))
handle_message-data_message_example =
    handle_message-data_message texts unary reader ids receiver [] mw batch back ids-OneToOne
      configured

-- A value without a quality, for a container that is there.
abbrev careless : Object
careless = member "containerid" (text "U1_MW") (
    member "values"
      (array (
        first_of
          (member "SourceTime" (text "IIIII")
            (member "ServerTime" null (member "Value" (number (pos 3)) empty)))
          no_more))
      empty)

careless_refused :
    (handle_message texts reader ids "data" "create" (careless ∷ []) (receiver, [])).1 ≡ omf_error
unfolding handle_message ids
careless_refused = refl

handle_message-Complete_example :
    Refused
      (receiver, [])
      (handle_message texts reader ids "data" "create" (careless ∷ []) (receiver, []))
    ⊎ All CompleteItem (careless ∷ [])
handle_message-Complete_example =
    handle_message-Complete texts reader ids "create" (careless ∷ []) (receiver, [])

abbrev fresh : Receiver
fresh = record {
  types = [];
  containers = [];
  counts = record { types = 0; containers = 0; messages = 0; values = 0 };
}

abbrev mw_tag : TagConfig
mw_tag = record { name = "U1_MW"; description = none; engineering_unit = some "MW" }

connect-registers_example :
    ((n : ℕ) × ((connect texts reader ids (mw_tag ∷ []) (fresh, [])).1 ≡ done n))
    × ((tag : TagConfig)
        → In tag (mw_tag ∷ [])
        → entry tag.name (connect texts reader ids (mw_tag ∷ []) (fresh, [])).0.0.containers
          ≡ some sample_type_id)
connect-registers_example = connect-registers texts reader ids mw_tag [] (fresh, []) sound
