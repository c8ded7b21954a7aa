-- ===== src/Engine/Events.antt =====
-- engine/events.py: event frames as a state machine over tag history. Names of attributes, milestones
-- and templates are only compared, so they are numbers; times are microseconds. The rows that
-- `_series` reads from the archive are an argument.
pub mod Debounce
pub mod Frames
use kpcl_hardware.Common.{
  ℕ, suc, ◌+◌, ◌-◌, Bool, true, false, not, ◌&&◌, ◌||◌, Option, none, some, List, [], ◌∷◌, ◌++◌,
  map, ltb, leb, ◌==◌, if◌then◌else◌, length, keep_if,
}
use kpcl_hardware.Common.Int.{ℤ, pos, ◌+ℤ◌, leb_ℤ, ltb_ℤ, eqb_ℤ}
use kpcl_hardware.Common.Dict.{Dict, get, set, get_or}
pub use kpcl_hardware.Engine.Trigger.{
  Comparison, gt, ge, lt, le, eq, ne, Trigger, Debouncer, is_good_quality,
}
unfoldable pub use kpcl_hardware.Engine.Trigger.{
  compare_values, satisfied_by, new_debouncer, confirm, feed, reset_debouncer,
}

pub record MilestoneSpec : Type 0 where
  pub name : ℕ
  pub trigger : Trigger
  pub sort_order : ℕ

pub record EventTemplate : Type 0 where
  pub name : ℕ
  pub start : Trigger
  pub finish : Trigger
  pub milestones : List MilestoneSpec
  pub max_duration : ℕ

pub record Milestone : Type 0 where
  pub name : ℕ
  pub ts : ℕ
  pub value : Option ℤ
  pub quality : Option ℕ
  pub sort_order : ℕ

pub data Status : Type 0 where
  open_frame closed aborted : Status

-- One entry of the summary. The mean is `total` over `good_count`, where that is not 0.
pub record Summary : Type 0 where
  pub low : Option ℤ
  pub high : Option ℤ
  pub total : ℤ
  pub sample_count : ℕ
  pub good_count : ℕ

pub record Frame : Type 0 where
  pub template : ℕ
  pub element_id : ℕ
  pub start_ts : ℕ
  pub end_ts : Option ℕ
  pub status : Status
  pub milestones : List Milestone
  pub summary : Dict Summary

-- A row of an attribute's series, and of the merged stream.
pub record Reading : Type 0 where
  pub ts : ℕ
  pub value : Option ℤ
  pub quality : Option ℕ

pub record Observation : Type 0 where
  pub attribute : ℕ
  pub reading : Reading

-- `stream.sort(key=ts)`, which is stable.
unfoldable pub place_observation : Observation → List Observation → List Observation
place_observation o [] = o ∷ []
place_observation o (p ∷ ps) =
    if leb o.reading.ts p.reading.ts then o ∷ p ∷ ps else p ∷ place_observation o ps

unfoldable pub sort_stream : List Observation → List Observation
unfolding place_observation
sort_stream [] = []
sort_stream (o ∷ os) = place_observation o (sort_stream os)

-- The merge of the series into one stream, before it is sorted.
unfoldable pub merge_series : Dict (List Reading) → List Observation
merge_series [] = []
merge_series ((attribute, rows) ∷ rest) =
    map (λ r. record { attribute = attribute; reading = r }) rows ++ merge_series rest

-- The bookkeeping of `_summarise` for one attribute.
abbrev min_of : Option ℤ → ℤ → Option ℤ
min_of none v = some v
min_of (some m) v = some (if leb_ℤ m v then m else v)

abbrev max_of : Option ℤ → ℤ → Option ℤ
max_of none v = some v
max_of (some m) v = some (if leb_ℤ v m then m else v)

unfoldable pub summarise_rows : ℕ → Option ℕ → Summary → List Reading → Summary
unfolding ◌+ℤ◌
summarise_rows start finish acc [] = acc
summarise_rows start finish acc (r ∷ rs) =
    let inside = leb start r.ts && (elim finish [ none ↦ true | some e ↦ leb r.ts e ]) in
    let counted : Summary = record acc { sample_count = acc.sample_count + 1 } in
    let next : Summary =
      if not inside
      then acc
      else if not (is_good_quality r.quality)
      then counted
      else elim r.value [
        | none ↦ counted
        | some v ↦ record counted {
          low = min_of acc.low v;
          high = max_of acc.high v;
          total = acc.total +ℤ v;
          good_count = acc.good_count + 1;
        }
      ] in
    summarise_rows start finish next rs

-- `_summarise`
unfoldable pub summarise : Dict (List Reading) → Frame → Dict Summary
unfolding summarise_rows
summarise [] f = []
summarise ((attribute, rows) ∷ rest) f =
    let empty : Summary = record {
      low = none;
      high = none;
      total = pos 0;
      sample_count = 0;
      good_count = 0;
    } in
    (attribute, summarise_rows f.start_ts f.end_ts empty rows) ∷ summarise rest f

-- `milestones.sort(key=(sort_order, ts))`
unfoldable pub place_milestone : Milestone → List Milestone → List Milestone
place_milestone m [] = m ∷ []
place_milestone m (n ∷ ns) =
    if ltb m.sort_order n.sort_order || (m.sort_order == n.sort_order && leb m.ts n.ts)
    then m ∷ n ∷ ns
    else n ∷ place_milestone m ns

unfoldable pub sort_milestones : List Milestone → List Milestone
unfolding place_milestone
sort_milestones [] = []
sort_milestones (m ∷ ms) = place_milestone m (sort_milestones ms)

-- The variables of the loop of `detect`.
pub record Machine : Type 0 where
  pub latest : Dict Reading
  pub frames : List Frame
  pub current : Option Frame
  pub start_debounce : Debouncer
  pub end_debounce : Debouncer
  pub milestone_debouncers : Dict Debouncer

-- `held`
unfoldable pub held : Machine → Trigger → Option ℤ × Option ℕ
unfolding get
held m t = elim (get t.attribute m.latest) [ none ↦ (none, none) | some r ↦ (r.value, r.quality) ]

unfoldable pub fresh_milestones : List MilestoneSpec → Dict Debouncer → Dict Debouncer
unfolding new_debouncer set
fresh_milestones [] d = d
fresh_milestones (m ∷ ms) d = fresh_milestones ms (set m.name (new_debouncer m.trigger false) d)

-- The loop over the template's milestones.
unfoldable pub feed_milestones : ℕ → Machine → List MilestoneSpec → Frame → Machine × Frame
unfolding get set feed held
feed_milestones ts m [] f = (m, f)
feed_milestones ts m (spec ∷ specs) f =
    let h = held m spec.trigger in
    let d = get_or (get spec.name m.milestone_debouncers) (new_debouncer spec.trigger false) in
    let fed = feed d ts h.0 h.1 in
    let next : Machine = record m {
      milestone_debouncers = set spec.name fed.0 m.milestone_debouncers;
    } in
    let reached : Frame = elim fed.1 [
      | none ↦ f
      | some at ↦ record f {
        milestones =
            f.milestones
            ++ record {
              name = spec.name;
              ts = at;
              value = h.0;
              quality = h.1;
              sort_order = spec.sort_order;
            }
              ∷ [];
      }
    ] in
    feed_milestones ts next specs reached

-- A frame that ends: its summary, its milestones in order, and the machine waiting for a start.
unfoldable pub end_frame : Dict (List Reading) → Machine → Frame → Status → ℕ → Machine
unfolding summarise sort_milestones reset_debouncer
end_frame series m f status at =
    let ended : Frame = record f { end_ts = some at; status = status } in
    let done : Frame = record ended {
      summary = summarise series ended;
      milestones = sort_milestones f.milestones;
    } in
    record m {
      frames = m.frames ++ done ∷ [];
      current = none;
      start_debounce = reset_debouncer m.start_debounce;
    }

abbrev is_after : Option ℕ → ℕ → Bool
is_after none start = false
is_after (some e) start = ltb start e

-- A step of the loop while a frame is open.
unfoldable pub inside_frame : EventTemplate → Dict (List Reading) → ℕ → Machine → Frame → Machine
unfolding feed_milestones feed held end_frame
inside_frame t series ts m f =
    let r = feed_milestones ts m t.milestones f in
    let h = held r.0 t.finish in
    let fed = feed r.0.end_debounce ts h.0 h.1 in
    let n : Machine = record (r.0) { end_debounce = fed.0; current = some r.1 } in
    if is_after fed.1 r.1.start_ts
    then end_frame series n r.1 closed (get_or fed.1 ts)
    else if ltb (r.1.start_ts + t.max_duration) ts
    then end_frame series n r.1 aborted ts
    else n

-- One observation of the stream.
unfoldable pub observe : EventTemplate → ℕ → Dict (List Reading) → Machine → Observation → Machine
unfolding set feed held fresh_milestones reset_debouncer inside_frame
observe t element_id series m o =
    let ts = o.reading.ts in
    let seen : Machine = record m { latest = set o.attribute o.reading m.latest } in
    let h = held seen t.start in
    let fed = feed seen.start_debounce ts h.0 h.1 in
    let waiting : Machine = record seen { start_debounce = fed.0 } in
    elim m.current [
      | some f ↦ inside_frame t series ts seen f
      | none ↦ elim fed.1 [
        | none ↦ waiting
        | some began ↦
            inside_frame t series ts
              (record waiting {
                milestone_debouncers = fresh_milestones t.milestones [];
                end_debounce = reset_debouncer m.end_debounce;
              })
              (record {
                template = t.name;
                element_id = element_id;
                start_ts = began;
                end_ts = none;
                status = open_frame;
                milestones = [];
                summary = [];
              })
      ]
    ]

unfoldable pub observe_all :
    EventTemplate → ℕ → Dict (List Reading) → Machine → List Observation → Machine
unfolding observe
observe_all t element_id series m [] = m
observe_all t element_id series m (o ∷ os) =
    observe_all t element_id series (observe t element_id series m o) os

unfoldable pub start_machine : EventTemplate → Machine
unfolding new_debouncer
start_machine t = record {
  latest = [];
  frames = [];
  current = none;
  start_debounce = new_debouncer t.start true;
  end_debounce = new_debouncer t.finish false;
  milestone_debouncers = [];
}

-- The frame that is still open at the end of the window.
unfoldable pub with_open : Dict (List Reading) → Machine → List Frame
unfolding summarise sort_milestones
with_open series m = elim m.current [
  | none ↦ m.frames
  | some f ↦
      m.frames
      ++ record f { summary = summarise series f; milestones = sort_milestones f.milestones } ∷ []
]

-- `detect`, on the series that it has read.
unfoldable pub detect : EventTemplate → ℕ → Dict (List Reading) → List Frame
unfolding merge_series sort_stream observe_all start_machine with_open
detect t element_id series =
    with_open series
      (observe_all t element_id series (start_machine t) (sort_stream (merge_series series)))
