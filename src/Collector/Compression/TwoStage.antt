-- ===== src/Collector/Compression/TwoStage.antt =====
-- `Archived`, `Stats`, `TwoStageCompressor` and `compress` of collector/compression.py.
use kpcl_hardware.Common.{ℕ, ◌+◌, Option, none, some, List, [], ◌∷◌, ◌++◌, ◌==◌, if◌then◌else◌}
use kpcl_hardware.Collector.Model.{Sample}
use kpcl_hardware.Collector.Compression.Filter
use kpcl_hardware.Collector.Compression.Filter.{
  Reason, ExceptionFilter, is_forced, new_filter, filter_push, release_held,
}
use kpcl_hardware.Collector.Compression.Door.{
  SwingingDoor, new_door, observe_raw, door_push, door_flush,
}

-- `Archived`
pub record Archived : Type 0 where
  pub sample : Sample
  pub reason : Reason

unfoldable pub reason_code : Reason → ℕ
reason_code Filter.by_exception = 0
reason_code Filter.by_swinging_door = 1
reason_code Filter.by_quality_change = 2
reason_code Filter.by_timestamp = 3
reason_code Filter.by_non_numeric = 4
reason_code Filter.by_max_time = 5
reason_code Filter.by_first = 6
reason_code Filter.by_flush = 7

-- `by_reason` as a function: a reason that was not counted reads 0.
pub record Stats : Type 0 where
  pub received : ℕ
  pub reported : ℕ
  pub archived : ℕ
  pub forced : ℕ
  pub by_reason : Reason → ℕ

-- `Stats.count`
unfoldable pub count : Stats → Reason → Stats
unfolding reason_code
count st reason = record st {
  by_reason =
      λ r. if reason_code r == reason_code reason then st.by_reason r + 1 else st.by_reason r;
}

pub record Compressor : Type 0 where
  pub exception : ExceptionFilter
  pub door : SwingingDoor
  pub stats : Stats

-- `TwoStageCompressor(...)`; `none` is the door's ValueError.
unfoldable pub new_compressor : Option ℕ → Option ℕ → Option ℕ → Option Compressor
unfolding new_filter new_door
new_compressor exc_dev comp_dev max_time_ms = elim (new_door comp_dev max_time_ms) [
  | none ↦ none
  | some door ↦ some (record {
    exception = new_filter exc_dev max_time_ms;
    door = door;
    stats = record { received = 0; reported = 0; archived = 0; forced = 0; by_reason = λ r. 0 };
  })
]

-- The inner loop of `push`: what the door archived, counted.
unfoldable pub tally : Stats → List (Sample × Reason) → Stats
unfolding count is_forced
tally st [] = st
tally st ((s, reason) ∷ rest) =
    let counted = count (record st { archived = st.archived + 1 }) reason in
    tally (if is_forced reason then record counted { forced = counted.forced + 1 } else counted)
      rest

-- The loops of `flush`, which leave `forced` alone.
unfoldable pub tally_flush : Stats → List (Sample × Reason) → Stats
unfolding count
tally_flush st [] = st
tally_flush st ((s, reason) ∷ rest) =
    tally_flush (count (record st { archived = st.archived + 1 }) reason) rest

abbrev pub wrap : List (Sample × Reason) → List Archived
wrap [] = []
wrap ((s, reason) ∷ rest) = record { sample = s; reason = reason } ∷ wrap rest

-- The outer loop of `push`: each reported sample goes through the door.
unfoldable pub push_reported :
    SwingingDoor → Stats → List (Sample × Reason) → SwingingDoor × Stats × List Archived
unfolding door_push tally
push_reported d st [] = (d, st, [])
push_reported d st ((s, _) ∷ rest) =
    let pushed = door_push d s in
    let next =
      push_reported pushed.0 (tally (record st { reported = st.reported + 1 }) pushed.1) rest in
    (next.0, next.1, wrap pushed.1 ++ next.2)

-- `TwoStageCompressor.push`
unfoldable pub push : Compressor → Sample → Compressor × List Archived
unfolding observe_raw filter_push push_reported
push c sample =
    let filtered = filter_push c.exception sample in
    let r =
      push_reported (observe_raw c.door sample) (record c.stats { received = c.stats.received + 1 })
        filtered.1 in
    (record { exception = filtered.0; door = r.0; stats = r.1 }, r.2)

-- The held sample's turn in `flush`.
unfoldable pub push_held :
    SwingingDoor → Stats → Option Sample → SwingingDoor × Stats × List Archived
unfolding door_push tally_flush
push_held d st none = (d, st, [])
push_held d st (some held) =
    let pushed = door_push d held in (pushed.0, tally_flush st pushed.1, wrap pushed.1)

-- `TwoStageCompressor.flush`
unfoldable pub flush : Compressor → Compressor × List Archived
unfolding release_held push_held door_flush tally_flush
flush c =
    let released = release_held c.exception in
    let h = push_held c.door c.stats released.1 in
    let drained = door_flush h.0 in
    (
      record { exception = released.0; door = drained.0; stats = tally_flush h.1 drained.1 },
      h.2 ++ wrap drained.1,
    )

unfoldable pub push_all : Compressor → List Sample → Compressor × List Archived
unfolding push
push_all c [] = (c, [])
push_all c (s ∷ rest) =
    let pushed = push c s in let next = push_all pushed.0 rest in (next.0, pushed.1 ++ next.1)

-- `compress`; `none` is the ValueError of the constructor.
unfoldable pub compress :
    List Sample → Option ℕ → Option ℕ → Option ℕ → Option (List Archived × Stats)
unfolding new_compressor push_all flush
compress samples exc_dev comp_dev max_time_ms = elim (new_compressor exc_dev comp_dev max_time_ms) [
  | none ↦ none
  | some c ↦
      let pushed = push_all c samples in
      let flushed = flush pushed.0 in some (pushed.1 ++ flushed.1, flushed.0.stats)
]
