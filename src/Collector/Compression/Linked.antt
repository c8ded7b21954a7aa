-- ===== src/Collector/Compression/Linked.antt =====
-- collector/compression.py: how the two stages remember the sample before.
use kpcl_hardware.Common.{
  ℕ, ◌+◌, Bool, true, false, ◌≡◌, refl, Option, none, some, List, [], ◌∷◌, ◌++◌, ◌&&◌, ltb, ◌∙◌,
  sym, arith, if_elim,
}
use kpcl_hardware.Collector.Model.{Sample}
use kpcl_hardware.Collector.Compression.Filter.{
  Reason, ExceptionFilter, by_exception, is_none, or_else, inside_deadband, forced_since,
  forced_reason, max_time_elapsed, held_before, report_or_hold, filter_push,
}
use kpcl_hardware.Collector.Compression.Door.{SwingingDoor, observe_raw, door_push}
use kpcl_hardware.Collector.Compression.TwoStage.{
  Archived, Stats, Compressor, new_compressor, push_reported, push, push_all,
}
use kpcl_hardware.Collector.Compression.Forced.{door_push-Ready}

-- The filter once `p` was its newest sample: what it holds and what it last reported have the
-- quality of `p`.
pub record Same (p : Sample) (f : ExceptionFilter) : Type 0 where
  pub raw : f.previous ≡ some p
  pub last : Sample
  pub reported : f.last_reported ≡ some last
  pub last_quality : last.quality ≡ p.quality
  pub held_quality : (h : Sample) → f.held ≡ some h → h.quality ≡ p.quality

-- The door was last given a sample of the quality of `p`.
pub record Given (p : Sample) (d : SwingingDoor) : Type 0 where
  pub previous : Sample
  pub remembered : d.previous ≡ some previous
  pub quality : previous.quality ≡ p.quality
  pub anchor : Sample
  pub anchored : d.anchor ≡ some anchor

pub record Linked (p : Sample) (c : Compressor) : Type 0 where
  pub filter : Same p c.exception
  pub door : Given p c.door

pub Given-door_push : (d : SwingingDoor) (s : Sample) → Given s (door_push d s).0
Given-door_push d s =
    let r = door_push-Ready d s in
    record {
      previous = s;
      remembered = r.remembered;
      quality = refl;
      anchor = r.anchor;
      anchored = r.anchored;
    }

-- The reports of one push, as the door sees them: the newest sample, alone or after one of the
-- quality of `p`, or nothing.
pub data Reported (p s : Sample) : List (Sample × Reason) → Type 0 where
  nothing : s.quality ≡ p.quality → is_none s.value ≡ false → Reported p s []
  alone : (why : Reason) → Reported p s ((s, why) ∷ [])
  after :
      (h : Sample) (r why : Reason) → h.quality ≡ p.quality → Reported p s ((h, r) ∷ (s, why) ∷ [])

-- A sample that nothing forces has a value, and the quality of the one before it.
unforced-quality :
    (max_time : Option ℕ) (since s p : Sample)
    → is_none (forced_since max_time since s (some p)) ≡ true
    → (s.quality ≡ p.quality) × (is_none s.value ≡ false)
unfolding forced_since forced_reason max_time_elapsed
unforced-quality none since s p h = ground arith
unforced-quality (some m) since s p h = ground arith

pub record Pushed (p s : Sample) (r : ExceptionFilter × List (Sample × Reason)) : Type 0 where
  pub same : Same s r.0
  pub reports : Reported p s r.1

breakout-Reported :
    (p s : Sample) (held : Option Sample) (why : Reason)
    → ((h : Sample) → held ≡ some h → h.quality ≡ p.quality)
    → Reported p s (held_before held s ++ (s, why) ∷ [])
unfolding held_before
breakout-Reported p s none why q = alone why
breakout-Reported p s (some h) why q =
    if_elim (λ out. Reported p s (out ++ (s, why) ∷ [])) (ltb h.source_ts s.source_ts)
      (λ e. after h by_exception why (q h refl)) (λ e. alone why)

report_or_hold-Pushed :
    (f : ExceptionFilter) (p last s : Sample) (forced : Option Reason)
    → Same p f
    → f.last_reported ≡ some last
    → (is_none forced ≡ true → (s.quality ≡ p.quality) × (is_none s.value ≡ false))
    → Pushed p s (report_or_hold (record f { previous = some s }) last s forced)
unfolding report_or_hold
report_or_hold-Pushed f p last s forced h k q =
    if_elim (Pushed p s) (is_none forced && inside_deadband f.exc_dev s.value last.value)
      (λ e.
        let same_quality : s.quality ≡ p.quality = (q (and_left (is_none forced) _ e)).0 in
        record {
          same = record {
            raw = refl;
            last = h.last;
            reported = h.reported;
            last_quality = h.last_quality ∙ sym same_quality;
            held_quality = λ x w. let same : s ≡ x = cc in rw (← same) refl;
          };
          reports = nothing same_quality (q (and_left (is_none forced) _ e)).1;
        })
      (λ e. record {
        same = record {
          raw = refl;
          last = s;
          reported = refl;
          last_quality = refl;
          held_quality = λ x w. cc;
        };
        reports = breakout-Reported p s f.held (or_else forced by_exception) h.held_quality;
      })
  where
    and_left : (a b : Bool) → (a && b) ≡ true → a ≡ true
    and_left true b w = refl
    and_left false b w = w

pub filter_push-Pushed :
    (f : ExceptionFilter) (p s : Sample) → Same p f → Pushed p s (filter_push f s)
unfolding filter_push
filter_push-Pushed f p s h =
    rw (h.reported, h.raw, filter_push)
      (report_or_hold-Pushed f p h.last s (forced_since f.max_time h.last s (some p)) h h.reported
        (unforced-quality f.max_time h.last s p))

-- What the door makes of those reports.
pub record Passed (s : Sample) (r : SwingingDoor × Stats × List Archived) : Type 0 where
  pub given : Given s r.0

pub push_reported-Passed :
    (d : SwingingDoor) (st : Stats) (p s : Sample) (reps : List (Sample × Reason))
    → Given p d
    → Reported p s reps
    → Passed s (push_reported d st reps)
unfolding push_reported
push_reported-Passed d st p s reps g (nothing q v) = record {
  given = record {
    previous = g.previous;
    remembered = g.remembered;
    quality = g.quality ∙ sym q;
    anchor = g.anchor;
    anchored = g.anchored;
  };
}
push_reported-Passed d st p s reps g (alone why) = record { given = Given-door_push d s }
push_reported-Passed d st p s reps g (after h r why q) = record {
  given = Given-door_push (door_push d h).0 s;
}

pub Given-observe_raw : (d : SwingingDoor) (p s : Sample) → Given p d → Given p (observe_raw d s)
unfolding observe_raw
Given-observe_raw d p s g = record {
  previous = g.previous;
  remembered = g.remembered;
  quality = g.quality;
  anchor = g.anchor;
  anchored = g.anchored;
}

push-Linked : (c : Compressor) (p s : Sample) → Linked p c → Linked s (push c s).0
unfolding push observe_raw
push-Linked c p s h =
    let f = filter_push-Pushed c.exception p s h.filter in
    let st : Stats = record c.stats { received = c.stats.received + 1 } in
    record {
      filter = f.same;
      door =
          (push_reported-Passed (observe_raw c.door s) st p s (filter_push c.exception s).1
            (Given-observe_raw c.door p s h.door) f.reports).given;
    }

new_filter-fresh :
    (exc_dev comp_dev max_time_ms : Option ℕ) {c : Compressor}
    → new_compressor exc_dev comp_dev max_time_ms ≡ some c
    → c.exception.last_reported ≡ none
unfolding new_compressor
new_filter-fresh exc_dev comp_dev max_time_ms h = ground arith

-- The first sample links the stages.
first-Linked :
    (exc_dev comp_dev max_time_ms : Option ℕ) (p : Sample) {c : Compressor}
    → new_compressor exc_dev comp_dev max_time_ms ≡ some c
    → Linked p (push c p).0
unfolding push filter_push push_reported
first-Linked exc_dev comp_dev max_time_ms p {c} h =
    let fresh = new_filter-fresh exc_dev comp_dev max_time_ms h in
    rw (fresh, filter_push)
      (record {
        filter = record {
          raw = refl;
          last = p;
          reported = refl;
          last_quality = refl;
          held_quality = λ x w. cc;
        };
        door = Given-door_push (observe_raw c.door p) p;
      })

push_all-Linked :
    (c : Compressor) (p q : Sample) (xs : List Sample)
    → Linked q c
    → Linked p (push_all c (xs ++ p ∷ [])).0
unfolding push_all
push_all-Linked c p q [] h = push-Linked c q p h
push_all-Linked c p q (x ∷ xs) h = push_all-Linked (push c x).0 p x xs (push-Linked c q x h)

-- A compressor that has been given a series whose last sample is `p` links its stages by `p`.
pub series-Linked :
    (exc_dev comp_dev max_time_ms : Option ℕ) (xs : List Sample) (p : Sample) {c : Compressor}
    → new_compressor exc_dev comp_dev max_time_ms ≡ some c
    → Linked p (push_all c (xs ++ p ∷ [])).0
unfolding push_all
series-Linked exc_dev comp_dev max_time_ms [] p h = first-Linked exc_dev comp_dev max_time_ms p h
series-Linked exc_dev comp_dev max_time_ms (x ∷ xs) p {c} h =
    push_all-Linked (push c x).0 p x xs (first-Linked exc_dev comp_dev max_time_ms x h)
