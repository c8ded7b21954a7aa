-- ===== src/Collector/Compression/Flush.antt =====
-- `TwoStageCompressor.push` and `flush`, and `compress`, of collector/compression.py: where the
-- newest sample of a series is.
use mathlib.Core.List.{map-append, append-nil}
use kpcl_hardware.Common.{
  ℕ, ◌+◌, ◌≡◌, refl, ◌⊎◌, inl, inr, Option, none, some, List, [], ◌∷◌, ◌++◌, last?, arith,
  Option-cases, if_elim, In, In-append_left, In-append_right, ◌&&◌,
}
use kpcl_hardware.Collector.Model.{Sample}
use kpcl_hardware.Collector.Compression.Filter.{
  Reason, ExceptionFilter, by_first, by_exception, is_none, or_else, inside_deadband, forced_since,
  held_before, report_or_hold, filter_push, release_held,
}
use kpcl_hardware.Collector.Compression.Door.{SwingingDoor, observe_raw, door_push, door_flush}
use kpcl_hardware.Collector.Compression.TwoStage.{
  Archived, Stats, Compressor, new_compressor, tally, wrap, push_reported, push, push_held, flush,
  push_all, compress,
}
use kpcl_hardware.Collector.Compression.Order.{outs}
use kpcl_hardware.Collector.Compression.Selection.{samples_of, samples_of-wrap}
use kpcl_hardware.Collector.Compression.Last.{door_push-Kept, door_flush-Emits}

-- The filter holds its newest sample, or has reported it last and holds nothing.
pub record Newest (s : Sample) (r : ExceptionFilter × List (Sample × Reason)) : Type 0 where
  pub newest :
      (r.0.held ≡ some s)
      ⊎ ((r.0.held ≡ none)
          × ((pre : List (Sample × Reason)) × (why : Reason) × (r.1 ≡ pre ++ (s, why) ∷ [])))

report_or_hold-Newest :
    (f : ExceptionFilter) (last s : Sample) (forced : Option Reason)
    → Newest s (report_or_hold f last s forced)
unfolding report_or_hold
report_or_hold-Newest f last s forced =
    if_elim (Newest s) (is_none forced && inside_deadband f.exc_dev s.value last.value)
      (λ e. record { newest = inl refl })
      (λ e. record {
        newest = inr (refl, (held_before f.held s, or_else forced by_exception, refl));
      })

pub filter_push-Newest : (f : ExceptionFilter) (s : Sample) → Newest s (filter_push f s)
unfolding filter_push
filter_push-Newest f s = elim (Option-cases f.last_reported) [
  | inl e ↦ rw (e, filter_push) (record { newest = inr (refl, ([], by_first, refl)) })
  | inr (last, e) ↦
      rw (e, filter_push)
        (report_or_hold-Newest (record f { previous = some s }) last s
          (forced_since f.max_time last s f.previous))
]

-- A sample is among the archived ones, or ends the door's segment.
record Held (s : Sample) (r : SwingingDoor × Stats × List Archived) : Type 0 where
  safe : In s (samples_of r.2) ⊎ (last? r.0.segment ≡ some s)

push_reported-Held :
    (d : SwingingDoor) (st : Stats) (pre : List (Sample × Reason)) (s : Sample) (why : Reason)
    → Held s (push_reported d st (pre ++ (s, why) ∷ []))
unfolding push_reported
push_reported-Held d st [] s why = elim (door_push-Kept d s).safe [
  | inl out ↦ record { safe = inl (rw map-append (In-append_left [] (rw samples_of-wrap out))) }
  | inr kept ↦ record { safe = inr kept }
]
push_reported-Held d st ((t, r) ∷ pre) s why =
    let pushed = door_push d t in
    let counted = tally (record st { reported = st.reported + 1 }) pushed.1 in
    elim (push_reported-Held pushed.0 counted pre s why).safe [
      | inl out ↦ record {
        safe = inl (rw map-append (In-append_right (samples_of (wrap pushed.1)) out));
      }
      | inr kept ↦ record { safe = inr kept }
    ]

-- A sample that the compressor has not archived yet, and that its `flush` will.
abbrev pub Waits : Sample → Compressor → Type 0
Waits s c =
    (c.exception.held ≡ some s) ⊎ ((c.exception.held ≡ none) × (last? c.door.segment ≡ some s))

push-Waits : (c : Compressor) (s : Sample) → In s (samples_of (push c s).1) ⊎ Waits s (push c s).0
unfolding push
push-Waits c s =
    let filtered = filter_push c.exception s in
    let door = observe_raw c.door s in
    let st : Stats = record c.stats { received = c.stats.received + 1 } in
    elim (filter_push-Newest c.exception s).newest [
      | inl held ↦ inr (inl held)
      | inr (empty, (pre, why, e)) ↦ elim (push_reported-Held door st pre s why).safe [
        | inl out ↦ inl (rw e out)
        | inr kept ↦ inr (inr (empty, rw e kept))
      ]
    ]

flush-Waits : (c : Compressor) (s : Sample) → Waits s c → In s (samples_of (flush c).1)
unfolding flush release_held push_held
flush-Waits c s (inl held) =
    let pushed = door_push c.door s in
    rw (held, map-append, samples_of-wrap, samples_of-wrap)
      (elim (door_push-Kept c.door s).safe [
        | inl out ↦ In-append_left (outs (door_flush pushed.0).1) out
        | inr kept ↦ In-append_right (outs pushed.1) (door_flush-Emits pushed.0 s kept)
      ])
flush-Waits c s (inr (empty, kept)) = rw (empty, samples_of-wrap) (door_flush-Emits c.door s kept)

push_all-Waits :
    (c : Compressor) (xs : List Sample) (s : Sample)
    → In s (samples_of (push_all c (xs ++ s ∷ [])).1) ⊎ Waits s (push_all c (xs ++ s ∷ [])).0
unfolding push_all
push_all-Waits c [] s = elim (push-Waits c s) [
  | inl out ↦ inl (rw append-nil out)
  | inr waits ↦ inr waits
]
push_all-Waits c (x ∷ xs) s = elim (push_all-Waits (push c x).0 xs s) [
  | inl out ↦ inl (rw map-append (In-append_right (samples_of (push c x).1) out))
  | inr waits ↦ inr waits
]

run-last :
    (c : Compressor) (xs : List Sample) (s : Sample)
    → In s (samples_of ((push_all c (xs ++ s ∷ [])).1 ++ (flush (push_all c (xs ++ s ∷ [])).0).1))
run-last c xs s =
    let r = push_all c (xs ++ s ∷ []) in
    rw map-append (elim (push_all-Waits c xs s) [
      | inl out ↦ In-append_left (samples_of (flush r.0).1) out
      | inr waits ↦ In-append_right (samples_of r.1) (flush-Waits r.0 s waits)
    ])

-- Whatever the deadbands and the timestamps, the last sample of a series is archived.
pub compress-last :
    (xs : List Sample) (s : Sample) (exc_dev comp_dev max_time_ms : Option ℕ) {out : List Archived}
    {st : Stats}
    → compress (xs ++ s ∷ []) exc_dev comp_dev max_time_ms ≡ some (out, st)
    → In s (samples_of out)
unfolding compress
compress-last xs s exc_dev comp_dev max_time_ms {out} {st} h =
    elim (Option-cases (new_compressor exc_dev comp_dev max_time_ms)) [
      | inl e ↦ cc
      | inr (c, e) ↦
          let all = xs ++ s ∷ [] in
          let made : (push_all c all).1 ++ (flush (push_all c all).0).1 ≡ out = ground arith in
          rw (← made) (run-last c xs s)
    ]
