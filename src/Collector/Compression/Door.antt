-- ===== src/Collector/Compression/Door.antt =====
-- Stage two of collector/compression.py: `SwingingDoor`. Its arithmetic is exact: a value is an
-- integer in units of 10⁻¹², so the tolerance 1e-12 of the bound is one unit.
use kpcl_hardware.Common.{
  ℕ, zero, suc, ◌+◌, ◌-◌, ◌*◌, Bool, true, false, not, ◌&&◌, ◌||◌, Option, none, some, List, [],
  ◌∷◌, ◌++◌, ltb, leb, ◌==◌, if◌then◌else◌, length, take, drop, get_elem?, keep_if, last?,
}
use kpcl_hardware.Common.Int.{ℤ, pos, sub_ℕ, ◌-ℤ◌, ◌+ℤ◌, ◌*ℤ◌, abs}
use kpcl_hardware.Collector.Model.{Sample}
use kpcl_hardware.Collector.Compression.Slope.{
  Slope, neg_inf, pos_inf, quot, leb_slope, max_slope, min_slope,
}
use kpcl_hardware.Collector.Compression.Filter.{
  Reason, by_swinging_door, by_timestamp, by_non_numeric, by_first, by_flush, is_none, max_time_of,
  forced_since,
}

pub record SwingingDoor : Type 0 where
  pub comp_dev : Option ℕ
  pub max_time : Option ℕ
  pub anchor : Option Sample
  pub segment : List Sample
  pub witness : List Sample
  pub upper : Slope
  pub lower : Slope
  pub previous : Option Sample

-- The constructor; `none` is its ValueError: CompDev without max_time.
unfoldable pub new_door : Option ℕ → Option ℕ → Option SwingingDoor
unfolding max_time_of
new_door comp_dev max_time_ms =
    if not (is_none comp_dev) && is_none (max_time_of max_time_ms)
    then none
    else some (record {
      comp_dev = comp_dev;
      max_time = max_time_of max_time_ms;
      anchor = none;
      segment = [];
      witness = [];
      upper = neg_inf;
      lower = pos_inf;
      previous = none;
    })

-- `observe_raw`
unfoldable pub observe_raw : SwingingDoor → Sample → SwingingDoor
observe_raw d sample = record d { witness = d.witness ++ sample ∷ [] }

-- CompDev where the code asserts that it is set. With CompDev unset the segment stays empty, so no
-- value is read from here.
unfoldable pub deviation : Option ℕ → ℕ
deviation none = 0
deviation (some dev) = dev

-- `_slopes`: the two sides of the corridor from the anchor to a point.
unfoldable pub slopes : ℕ → Sample → Sample → Option (Slope × Slope)
unfolding ◌-ℤ◌ ◌+ℤ◌
slopes dev anchor point = elim anchor.value [
  | none ↦ none
  | some a ↦ elim point.value [
    | none ↦ none
    | some v ↦
        if leb point.source_ts anchor.source_ts
        then none
        else some (
          quot (v -ℤ a -ℤ pos dev) (point.source_ts - anchor.source_ts),
          quot (v -ℤ a +ℤ pos dev) (point.source_ts - anchor.source_ts),
        )
  ]
]

abbrev swing : Slope → Slope → Option (Slope × Slope) → Slope × Slope
swing upper lower none = (upper, lower)
swing upper lower (some pair) = (max_slope upper pair.0, min_slope lower pair.1)

-- The loops over points in `_rebuild_cone` and in `push`.
unfoldable pub swing_all : ℕ → Sample → Slope → Slope → List Sample → Slope × Slope
unfolding slopes max_slope min_slope
swing_all dev anchor upper lower [] = (upper, lower)
swing_all dev anchor upper lower (p ∷ ps) =
    let next = swing upper lower (slopes dev anchor p) in swing_all dev anchor next.0 next.1 ps

-- `_witnesses_between`
unfoldable pub witnesses_between : List Sample → Sample → Sample → List Sample
witnesses_between witness anchor target =
    keep_if (λ w. ltb anchor.source_ts w.source_ts && ltb w.source_ts target.source_ts) witness

-- One round of the loop of `_within_bound`, multiplied out by the span:
-- `abs(point - (anchor + slope * offset)) <= comp_dev + 1e-12`.
unfoldable pub near_line : ℕ → ℤ → ℤ → ℕ → ℕ → Sample → Bool
unfolding ◌-ℤ◌ ◌*ℤ◌
near_line dev a t since span point = elim point.value [
  | none ↦ false
  | some v ↦
      leb (abs ((v -ℤ a) *ℤ pos span -ℤ (t -ℤ a) *ℤ sub_ℕ point.source_ts since)) ((dev + 1) * span)
]

unfoldable pub all_near : ℕ → ℤ → ℤ → ℕ → ℕ → List Sample → Bool
unfolding near_line
all_near dev a t since span [] = true
all_near dev a t since span (p ∷ ps) =
    if near_line dev a t since span p then all_near dev a t since span ps else false

-- `_within_bound`
unfoldable pub within_bound : ℕ → List Sample → Sample → Sample → List Sample → Bool
unfolding all_near witnesses_between
within_bound dev witness anchor target discarded = elim anchor.value [
  | none ↦ false
  | some a ↦ elim target.value [
    | none ↦ false
    | some t ↦
        if leb target.source_ts anchor.source_ts
        then false
        else all_near dev a t anchor.source_ts (target.source_ts - anchor.source_ts)
            (discarded ++ witnesses_between witness anchor target)
  ]
]

-- The test of `_choose` at one index.
unfoldable pub fits_at : ℕ → List Sample → Sample → List Sample → ℕ → Bool
unfolding within_bound
fits_at dev witness anchor segment index = elim (get_elem? segment index) [
  | none ↦ false
  | some target ↦ within_bound dev witness anchor target (take index segment)
]

-- The loop of `_choose`, from an index down to 1.
unfoldable pub choose_from : ℕ → List Sample → Sample → List Sample → ℕ → ℕ
unfolding fits_at
choose_from dev witness anchor segment zero = 0
choose_from dev witness anchor segment (suc i) =
    if fits_at dev witness anchor segment (suc i)
    then suc i
    else choose_from dev witness anchor segment i

-- `_choose`
unfoldable pub choose : SwingingDoor → Sample → ℕ
unfolding choose_from deviation
choose d anchor =
    choose_from (deviation d.comp_dev) d.witness anchor d.segment (length d.segment - 2)

-- `_reset`, with `_rebuild_cone`.
unfoldable pub reset : SwingingDoor → Sample → List Sample → SwingingDoor
unfolding swing_all deviation
reset d anchor remaining =
    let cone = swing_all (deviation d.comp_dev) anchor neg_inf pos_inf remaining in
    record d {
      anchor = some anchor;
      segment = remaining;
      witness = keep_if (λ w. ltb anchor.source_ts w.source_ts) d.witness;
      upper = cone.0;
      lower = cone.1;
    }

-- Archive the chosen point of the segment and restart the corridor there. The index is in range
-- whenever the segment is not empty (`choose-lt`).
unfoldable pub archive_chosen : SwingingDoor → Sample → SwingingDoor × List (Sample × Reason)
unfolding choose reset
archive_chosen d anchor = elim (get_elem? d.segment (choose d anchor)) [
  | none ↦ (d, [])
  | some archived ↦
      (reset d archived (drop (suc (choose d anchor)) d.segment), (archived, by_swinging_door) ∷ [])
]

-- Whether `_drain_segment` may end with the last point of the segment.
unfoldable pub may_finish : SwingingDoor → Sample → Bool
unfolding within_bound deviation
may_finish d last = elim d.anchor [
  | none ↦ true
  | some anchor ↦
      length d.segment == 1
      || within_bound (deviation d.comp_dev) d.witness anchor last
          (take (length d.segment - 1) d.segment)
]

abbrev pub then_emit :
    List (Sample × Reason)
    → SwingingDoor × List (Sample × Reason)
    → SwingingDoor × List (Sample × Reason)
then_emit out r = (r.0, out ++ r.1)

-- The loop of `_drain_segment`. Each round takes a point off the segment, so its length is fuel
-- enough.
unfoldable pub drain_rounds : ℕ → SwingingDoor → Reason → SwingingDoor × List (Sample × Reason)
unfolding archive_chosen may_finish
drain_rounds zero d final_reason = (d, [])
drain_rounds (suc fuel) d final_reason = elim (last? d.segment) [
  | none ↦ (d, [])
  | some last ↦ elim d.anchor [
    | none ↦ (record d { segment = []; anchor = some last }, (last, final_reason) ∷ [])
    | some anchor ↦ elim (may_finish d last) [
      | true ↦ (record d { segment = []; anchor = some last }, (last, final_reason) ∷ [])
      | false ↦
          let step = archive_chosen d anchor in
          then_emit step.1 (drain_rounds fuel step.0 final_reason)
    ]
  ]
]

-- `_drain_segment`
unfoldable pub drain_segment : SwingingDoor → Reason → SwingingDoor × List (Sample × Reason)
unfolding drain_rounds
drain_segment d final_reason = drain_rounds (length d.segment) d final_reason

-- The doors swung by the raw samples up to a new one, and by it.
unfoldable pub corridor : SwingingDoor → Sample → Sample → Slope × Slope
unfolding swing_all deviation witnesses_between
corridor d anchor sample =
    swing_all (deviation d.comp_dev) anchor d.upper d.lower
      (witnesses_between d.witness anchor sample ++ sample ∷ [])

-- `push` for a sample inside the corridor's time: append it, swing the doors, archive if they close.
unfoldable pub extend : SwingingDoor → Sample → Sample → SwingingDoor × List (Sample × Reason)
unfolding corridor archive_chosen leb_slope
extend d anchor sample =
    let e : SwingingDoor = record d { segment = d.segment ++ sample ∷ [] } in
    let cone = corridor d anchor sample in
    if leb_slope cone.0 cone.1
    then (record e { upper = cone.0; lower = cone.1 }, [])
    else archive_chosen e anchor

-- `push` for a sample that nothing forces.
unfoldable pub push_unforced :
    SwingingDoor → Sample → Sample → SwingingDoor × List (Sample × Reason)
unfolding slopes extend reset
push_unforced d anchor sample = elim d.comp_dev [
  | none ↦ (reset d sample [], (sample, by_swinging_door) ∷ [])
  | some dev ↦ elim (slopes dev anchor sample) [
    | none ↦ (
      reset d sample [],
      (sample, if is_none sample.value then by_non_numeric else by_timestamp) ∷ [],
    )
    | some pair ↦ extend d anchor sample
  ]
]

-- `push` once there is an anchor.
unfoldable pub push_after :
    SwingingDoor → Sample → Sample → Option Reason → SwingingDoor × List (Sample × Reason)
unfolding drain_segment reset push_unforced
push_after d anchor sample none = push_unforced d anchor sample
push_after d anchor sample (some forced) =
    let drained = drain_segment d by_swinging_door in
    (reset drained.0 sample [], drained.1 ++ (sample, forced) ∷ [])

-- `SwingingDoor.push`
unfoldable pub door_push : SwingingDoor → Sample → SwingingDoor × List (Sample × Reason)
unfolding reset push_after forced_since
door_push d sample =
    let e : SwingingDoor = record d { previous = some sample } in
    elim d.anchor [
      | none ↦ (reset e sample [], (sample, by_first) ∷ [])
      | some anchor ↦ push_after e anchor sample (forced_since d.max_time anchor sample d.previous)
    ]

-- `SwingingDoor.flush`
unfoldable pub door_flush : SwingingDoor → SwingingDoor × List (Sample × Reason)
unfolding drain_segment
door_flush d = drain_segment d by_flush
