-- ===== src/Collector/Session.antt =====
-- collector/session.py: a DataValue becomes a sample or is refused and counted, and the numbers of
-- the publish messages are checked. What asyncua hands over is data; connecting is left out.
pub mod Sequence
pub mod Handling
pub mod Origin
mod Tests
use Prim.Native.String.{String}
use kpcl_hardware.Common.{
  ℕ, ◌+◌, ◌-◌, Bool, true, false, not, Option, none, some, List, [], ◌∷◌, ◌++◌, ◌==◌, leb, ltb,
  if◌then◌else◌,
}
use kpcl_hardware.Common.Int.{ℤ, pos}
use kpcl_hardware.Common.Dict.{Dict, get, set, get_or}
use kpcl_hardware.Common.Text.{same_text}
use kpcl_hardware.Collector.Model.{Sample}

-- The counters that `_drop` takes by name.
pub data DropCounter : Type 0 where
  dropped_no_source_ts dropped_no_status dropped_unstorable : DropCounter

-- `IngressCounts`; `unresolved_tags` is counted while connecting.
pub record IngressCounts : Type 0 where
  pub no_source_ts : ℕ
  pub no_status : ℕ
  pub unstorable : ℕ
  pub no_server_ts : ℕ
  pub unresolved_tags : ℕ
  pub publish_gaps : ℕ
  pub publish_missed : ℕ
  pub by_tag : List (String × ℕ)

-- `by_tag[name] = by_tag.get(name, 0) + 1`
unfoldable pub count_tag : String → List (String × ℕ) → List (String × ℕ)
unfolding same_text
count_tag name [] = (name, 1) ∷ []
count_tag name ((other, n) ∷ rest) =
    if same_text other name then (other, n + 1) ∷ rest else (other, n) ∷ count_tag name rest

-- What `dv.Value.Value` may be: None (also for a missing Variant), a bool, a number, or a text, an
-- array and the like. A number is in units of 10⁻¹².
pub data Payload : Type 0 where
  absent : Payload
  boolean : Bool → Payload
  numeric : ℤ → Payload
  other : Payload

pub record DataValue : Type 0 where
  pub payload : Payload
  pub status : Option ℕ
  pub source_ts : Option ℕ
  pub server_ts : Option ℕ

-- `_as_float`: the value, and whether it can be stored.
unfoldable pub as_float : Payload → Option ℤ × Bool
as_float absent = (none, true)
as_float (boolean true) = (some (pos 1_000_000_000_000), true)
as_float (boolean false) = (some (pos 0), true)
as_float (numeric v) = (some v, true)
as_float other = (none, false)

pub record Tag : Type 0 where
  pub id : ℕ
  pub name : String

-- `_SubscriptionHandler`. `delivered` and `dropped` are the calls of `on_sample` and `on_drop` so
-- far; nodes are numbers.
pub record Handler : Type 0 where
  pub tag_by_node : Dict Tag
  pub counts : IngressCounts
  pub last_seen : Dict ℕ
  pub delivered : List Sample
  pub dropped : List (String × DropCounter)

-- `setattr(counts, counter, getattr(counts, counter) + 1)`
unfoldable pub count_drop : DropCounter → IngressCounts → IngressCounts
count_drop dropped_no_source_ts c = record c { no_source_ts = c.no_source_ts + 1 }
count_drop dropped_no_status c = record c { no_status = c.no_status + 1 }
count_drop dropped_unstorable c = record c { unstorable = c.unstorable + 1 }

-- `_drop`
unfoldable pub drop_value : Handler → DropCounter → String → Handler
unfolding count_drop count_tag
drop_value h counter name =
    let counted = count_drop counter h.counts in
    record h {
      counts = record counted { by_tag = count_tag name counted.by_tag };
      dropped = h.dropped ++ (name, counter) ∷ [];
    }

-- The end of `handle`, once nothing has refused the value.
unfoldable pub deliver : Handler → Tag → ℕ → Option ℤ → ℕ → Option ℕ → ℕ → Handler
unfolding set
deliver h tag now value source_ts server_ts quality =
    let stamped : Handler = elim server_ts [
      | none ↦ record h { counts = record (h.counts) { no_server_ts = h.counts.no_server_ts + 1 } }
      | some t ↦ h
    ] in
    record stamped {
      last_seen = set tag.id now h.last_seen;
      delivered =
          h.delivered
          ++ record {
            tag_id = tag.id;
            tag_name = tag.name;
            source_ts = source_ts;
            server_ts = server_ts;
            value = value;
            quality = quality;
            seq = none;
            run = none;
          }
            ∷ [];
    }

-- `handle` for a node that has a tag.
unfoldable pub handle_tag : Handler → ℕ → Tag → DataValue → Handler
unfolding drop_value as_float deliver
handle_tag h now tag dv = elim dv.source_ts [
  | none ↦ drop_value h dropped_no_source_ts tag.name
  | some source_ts ↦ elim dv.status [
    | none ↦ drop_value h dropped_no_status tag.name
    | some quality ↦
        if not (as_float dv.payload).1
        then drop_value h dropped_unstorable tag.name
        else deliver h tag now (as_float dv.payload).0 source_ts dv.server_ts quality
  ]
]

-- `handle`, at the monotonic clock's `now`.
unfoldable pub handle : Handler → ℕ → ℕ → DataValue → Handler
unfolding get handle_tag
handle h now node dv = elim (get node h.tag_by_node) [
  | none ↦ h
  | some tag ↦ handle_tag h now tag dv
]

-- `PublishSequence`: for each subscription the number that the next data message should have, which
-- is one more than the code's `_last`, since that may be -1.
abbrev pub PublishSequence : Type 0
PublishSequence = Dict ℕ

-- A NotificationMessage: its subscription, its number, and whether it is a keep-alive.
pub record Message : Type 0 where
  pub subscription_id : ℕ
  pub sequence_number : ℕ
  pub keep_alive : Bool

-- `observe` on one subscription: the next number expected, and how many messages were missed.
unfoldable pub observe_message : Option ℕ → ℕ → Bool → ℕ × ℕ
observe_message none n true = (n, 0)
observe_message (some expected) n true =
    let missed = n - expected in if missed == 0 then (expected, 0) else (n, missed)
observe_message none n false = (n + 1, 0)
observe_message (some expected) n false =
    if ltb n expected then (expected, 0) else (n + 1, n - expected)

-- `PublishSequence.observe`
unfoldable pub observe : PublishSequence → Message → PublishSequence × ℕ
unfolding get set observe_message
observe last m =
    let r = observe_message (get m.subscription_id last) m.sequence_number m.keep_alive in
    (set m.subscription_id r.0 last, r.1)

-- The counting of `checked` in `_watch_sequence`.
unfoldable pub count_missed : IngressCounts → ℕ → IngressCounts
count_missed c missed =
    if missed == 0
    then c
    else record c { publish_gaps = c.publish_gaps + 1; publish_missed = c.publish_missed + missed }

-- `checked`, message after message.
unfoldable pub watch :
    PublishSequence → IngressCounts → List Message → PublishSequence × IngressCounts
unfolding observe count_missed
watch last c [] = (last, c)
watch last c (m ∷ ms) = let r = observe last m in watch r.0 (count_missed c r.1) ms
