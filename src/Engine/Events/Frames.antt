-- ===== src/Engine/Events/Frames.antt =====
-- engine/events.py, `detect`: the shape of the frames it returns.
use kpcl_hardware.Common.{
  ℕ, ◌+◌, ◌<◌, true, false, ◌≡◌, refl, ◌∙◌, inl, inr, Option, none, some, List, [], ◌∷◌, ◌++◌, ltb,
  ltb→lt, Option-cases, All, All-append, if_elim,
}
use kpcl_hardware.Common.Dict.{Dict, get, set, get_or}
use kpcl_hardware.Engine.Events.{
  EventTemplate, MilestoneSpec, Frame, Status, open_frame, closed, aborted, Reading, Observation,
  Machine, held, feed, new_debouncer, feed_milestones, end_frame, is_after, inside_frame, observe,
  observe_all, start_machine, with_open, detect, sort_stream, merge_series,
}

-- A frame ends as its status says: a closed one after its start, an aborted one after its allowed
-- duration, an open one not at all.
pub data Proper (t : EventTemplate) (f : Frame) : Type 0 where
  ended : (at : ℕ) → f.status ≡ closed → f.end_ts ≡ some at → f.start_ts < at → Proper t f
  abandoned :
      (at : ℕ)
      → f.status ≡ aborted
      → f.end_ts ≡ some at
      → f.start_ts + t.max_duration < at
      → Proper t f
  ongoing : f.status ≡ open_frame → f.end_ts ≡ none → Proper t f

record Open (f : Frame) : Type 0 where
  status_is : f.status ≡ open_frame
  end_is : f.end_ts ≡ none

record Orderly (t : EventTemplate) (m : Machine) : Type 0 where
  finished : All (Proper t) m.frames
  current_open : (f : Frame) → m.current ≡ some f → Open f

-- The milestones' loop leaves the frame's span and the finished frames alone.
record Milestones (m : Machine) (f : Frame) (r : Machine × Frame) : Type 0 where
  frames_is : r.0.frames ≡ m.frames
  start_is : r.1.start_ts ≡ f.start_ts
  end_is : r.1.end_ts ≡ f.end_ts
  status_is : r.1.status ≡ f.status

feed_milestones-Milestones :
    (ts : ℕ) (m : Machine) (specs : List MilestoneSpec) (f : Frame)
    → Milestones m f (feed_milestones ts m specs f)
unfolding feed_milestones
feed_milestones-Milestones ts m [] f = record {
  frames_is = refl;
  start_is = refl;
  end_is = refl;
  status_is = refl;
}
feed_milestones-Milestones ts m (spec ∷ specs) f =
    let h = held m spec.trigger in
    let d = get_or (get spec.name m.milestone_debouncers) (new_debouncer spec.trigger false) in
    let fed = feed d ts h.0 h.1 in
    let next : Machine = record m {
      milestone_debouncers = set spec.name fed.0 m.milestone_debouncers;
    } in
    elim (Option-cases fed.1) [
      | inl e ↦
          let r = feed_milestones-Milestones ts next specs f in
          rw (e, feed_milestones)
            (record {
              frames_is = r.frames_is;
              start_is = r.start_is;
              end_is = r.end_is;
              status_is = r.status_is;
            })
      | inr (at, e) ↦
          let g : Frame = record f {
            milestones =
                f.milestones
                ++ record {
                  name = spec.name;
                  ts = at;
                  value = h.0;
                  quality = h.1;
                  sort_order = spec.sort_order;
                }
                  ∷ [];
          } in
          let r = feed_milestones-Milestones ts next specs g in
          rw (e, feed_milestones)
            (record {
              frames_is = r.frames_is;
              start_is = r.start_is;
              end_is = r.end_is;
              status_is = r.status_is;
            })
    ]

end_frame-Orderly :
    (t : EventTemplate) (series : Dict (List Reading)) (m : Machine) (f : Frame) (status : Status)
    (at : ℕ)
    → All (Proper t) m.frames
    → ((s : Dict _) (ms : List _)
        → Proper t (record f { end_ts = some at; status = status; summary = s; milestones = ms }))
    → Orderly t (end_frame series m f status at)
unfolding end_frame
end_frame-Orderly t series m f status at h p = record {
  finished = All-append (Proper t) m.frames _ h (p _ _, tt);
  current_open = λ g e. cc;
}

after_some : (o : Option ℕ) (start d : ℕ) → is_after o start ≡ true → start < get_or o d
after_some none start d h = cc
after_some (some e) start d h = ltb→lt start e h

inside_frame-Orderly :
    (t : EventTemplate) (series : Dict (List Reading)) (ts : ℕ) (m : Machine) (f : Frame)
    → All (Proper t) m.frames
    → Open f
    → Orderly t (inside_frame t series ts m f)
unfolding inside_frame
inside_frame-Orderly t series ts m f h o =
    let r = feed_milestones ts m t.milestones f in
    let same = feed_milestones-Milestones ts m t.milestones f in
    let held_end = held r.0 t.finish in
    let fed = feed r.0.end_debounce ts held_end.0 held_end.1 in
    let n : Machine = record (r.0) { end_debounce = fed.0; current = some r.1 } in
    let done : All (Proper t) n.frames = rw same.frames_is h in
    if_elim (Orderly t) (is_after fed.1 r.1.start_ts)
      (λ e.
        end_frame-Orderly t series n r.1 closed (get_or fed.1 ts) done
          (λ s ms. ended (get_or fed.1 ts) refl refl (after_some fed.1 r.1.start_ts ts e)))
      (λ e.
        if_elim (Orderly t) (ltb (r.1.start_ts + t.max_duration) ts)
          (λ late.
            end_frame-Orderly t series n r.1 aborted ts done
              (λ s ms. abandoned ts refl refl (ltb→lt (r.1.start_ts + t.max_duration) ts late)))
          (λ in_time. record {
            finished = done;
            current_open = λ g e.
                let same_frame : r.1 ≡ g = cc in
                rw (← same_frame) (record {
                  status_is = same.status_is ∙ o.status_is;
                  end_is = same.end_is ∙ o.end_is;
                });
          }))

observe-Orderly :
    (t : EventTemplate) (element_id : ℕ) (series : Dict (List Reading)) (m : Machine)
    (o : Observation)
    → Orderly t m
    → Orderly t (observe t element_id series m o)
unfolding observe
observe-Orderly t element_id series m o h =
    let seen : Machine = record m { latest = set o.attribute o.reading m.latest } in
    let held_start = held seen t.start in
    let fed = feed seen.start_debounce o.reading.ts held_start.0 held_start.1 in
    let waiting : Machine = record seen { start_debounce = fed.0 } in
    elim (Option-cases m.current) [
      | inr (f, e) ↦
          rw (e, observe)
            (inside_frame-Orderly t series o.reading.ts seen f h.finished (h.current_open f e))
      | inl e ↦ elim (Option-cases fed.1) [
        | inl q ↦
            rw (e, q, observe)
              (record { finished = h.finished; current_open = λ f w. h.current_open f w })
        | inr (began, q) ↦
            rw (e, q, observe)
              (inside_frame-Orderly t series o.reading.ts _ _ h.finished
                (record { status_is = refl; end_is = refl }))
      ]
    ]

observe_all-Orderly :
    (t : EventTemplate) (element_id : ℕ) (series : Dict (List Reading)) (m : Machine)
    (os : List Observation)
    → Orderly t m
    → Orderly t (observe_all t element_id series m os)
unfolding observe_all
observe_all-Orderly t element_id series m [] h = h
observe_all-Orderly t element_id series m (o ∷ os) h =
    observe_all-Orderly t element_id series (observe t element_id series m o) os
      (observe-Orderly t element_id series m o h)

record AllProper (t : EventTemplate) (fs : List Frame) : Type 0 where
  proper : All (Proper t) fs

with_open-AllProper :
    (t : EventTemplate) (series : Dict (List Reading)) (m : Machine)
    → Orderly t m
    → AllProper t (with_open series m)
unfolding with_open
with_open-AllProper t series m h = elim (Option-cases m.current) [
  | inl e ↦ rw (e, with_open) (record { proper = h.finished })
  | inr (f, e) ↦
      let o = h.current_open f e in
      rw (e, with_open)
        (record {
          proper = All-append (Proper t) m.frames _ h.finished (ongoing o.status_is o.end_is, tt);
        })
]

start_machine-Orderly : (t : EventTemplate) → Orderly t (start_machine t)
unfolding start_machine
start_machine-Orderly t = record { finished = tt; current_open = λ f e. cc }

-- Whatever the readings, every frame that detection returns is closed strictly after its start,
-- aborted after more than its template's longest duration, or open with no end.
pub detect-Proper :
    (t : EventTemplate) (element_id : ℕ) (series : Dict (List Reading))
    → All (Proper t) (detect t element_id series)
unfolding detect
detect-Proper t element_id series =
    (with_open-AllProper t series _ (
      observe_all-Orderly t element_id series (start_machine t) (sort_stream (merge_series series))
        (start_machine-Orderly t))).proper
