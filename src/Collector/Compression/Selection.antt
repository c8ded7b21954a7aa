-- ===== src/Collector/Compression/Selection.antt =====
-- `TwoStageCompressor` and `compress` of collector/compression.py: the order of what is archived.
use mathlib.Core.List.Sublist
use mathlib.Core.List.{
  Sublist, append-nil, append_assoc, map-append, sublist-append_left, sublist-append_right,
}
use kpcl_hardware.Common.{
  ℕ, ◌+◌, ◌≡◌, arith, refl, inl, inr, Option, none, some, List, [], ◌∷◌, ◌++◌, map, ltb, ◌&&◌,
  Option-cases, if_elim,
}
use kpcl_hardware.Collector.Model.{Sample}
use kpcl_hardware.Collector.Compression.Filter.{
  Reason, ExceptionFilter, is_none, inside_deadband, forced_since, held_before, report_or_hold,
  filter_push, release_held,
}
use kpcl_hardware.Collector.Compression.Door.{
  SwingingDoor, observe_raw, door_push, door_flush, new_door,
}
use kpcl_hardware.Collector.Compression.TwoStage.{
  Archived, Stats, Compressor, new_compressor, tally, wrap, push_reported, push, push_held, flush,
  push_all, compress,
}
use kpcl_hardware.Collector.Compression.Order.{outs, door_push-Keeps, door_flush-Keeps}

abbrev pub samples_of : List Archived → List Sample
samples_of = map (λ a. a.sample)

abbrev listed : Option Sample → List Sample
listed none = []
listed (some s) = s ∷ []

-- The samples that a compressor was given and may still archive.
abbrev pub pending : Compressor → List Sample
pending c = c.door.segment ++ listed c.exception.held

pub samples_of-wrap : (out : List (Sample × Reason)) → samples_of (wrap out) ≡ outs out
samples_of-wrap [] = refl
samples_of-wrap (p ∷ out) = rw (samples_of-wrap out)

-- What the filter reports, followed by what it holds, is a selection.
record Reports (given : List Sample) (r : ExceptionFilter × List (Sample × Reason)) : Type 0 where
  reported : Sublist (outs r.1 ++ listed r.0.held) given

held_before-sublist :
    (held : Option Sample) (s : Sample) → Sublist (outs (held_before held s)) (listed held)
unfolding held_before
held_before-sublist none s = Sublist.refl []
held_before-sublist (some h) s =
    if_elim (λ out. Sublist (outs out) (h ∷ [])) (ltb h.source_ts s.source_ts)
      (λ e. Sublist.refl (h ∷ [])) (λ e. Sublist.cons h (Sublist.refl []))

report_or_hold-Reports :
    (f : ExceptionFilter) (last s : Sample) (forced : Option Reason)
    → Reports (listed f.held ++ s ∷ []) (report_or_hold f last s forced)
unfolding report_or_hold
report_or_hold-Reports f last s forced =
    if_elim (Reports (listed f.held ++ s ∷ []))
      (is_none forced && inside_deadband f.exc_dev s.value last.value)
      (λ e. record { reported = sublist-append_right (listed f.held) (s ∷ []) })
      (λ e. record {
        reported =
            rw (append-nil, map-append)
              (Sublist.append (held_before-sublist f.held s) (Sublist.refl (s ∷ [])));
      })

filter_push-Reports :
    (f : ExceptionFilter) (s : Sample) → Reports (listed f.held ++ s ∷ []) (filter_push f s)
unfolding filter_push
filter_push-Reports f s = elim (Option-cases f.last_reported) [
  | inl e ↦
      rw (e, filter_push) (record { reported = sublist-append_right (listed f.held) (s ∷ []) })
  | inr (last, e) ↦
      rw (e, filter_push)
        (report_or_hold-Reports (record f { previous = some s }) last s
          (forced_since f.max_time last s f.previous))
]

-- The door's outputs over a list of reported samples, followed by its segment, are a selection.
push_reported-sublist :
    (d : SwingingDoor) (st : Stats) (reps : List (Sample × Reason))
    → Sublist
        (samples_of (push_reported d st reps).2 ++ (push_reported d st reps).0.segment)
        (d.segment ++ outs reps)
unfolding push_reported
push_reported-sublist d st [] = rw append-nil (Sublist.refl d.segment)
push_reported-sublist d st ((s, r) ∷ reps) =
    let pushed = door_push d s in
    let counted = tally (record st { reported = st.reported + 1 }) pushed.1 in
    let rest = push_reported-sublist pushed.0 counted reps in
    rw (map-append, samples_of-wrap, append_assoc)
      (Sublist.trans (Sublist.append (Sublist.refl (outs pushed.1)) rest) (
        rw
          (
            ← append_assoc (outs pushed.1) pushed.0.segment (outs reps),
            ← append_assoc d.segment (s ∷ []) (outs reps),
          )
          (Sublist.append (door_push-Keeps d s).kept (Sublist.refl (outs reps)))))

push-sublist :
    (c : Compressor) (s : Sample)
    → Sublist (samples_of (push c s).1 ++ pending (push c s).0) (pending c ++ s ∷ [])
unfolding push observe_raw
push-sublist c s =
    let filtered = filter_push c.exception s in
    let door =
      push_reported-sublist (observe_raw c.door s)
        (record c.stats { received = c.stats.received + 1 }) filtered.1 in
    let held = listed filtered.0.held in
    rw (← append_assoc) (
      Sublist.trans (Sublist.append door (Sublist.refl held)) (
        rw (append_assoc, append_assoc)
          (Sublist.append (Sublist.refl c.door.segment)
            (filter_push-Reports c.exception s).reported)))

push_all-sublist :
    (c : Compressor) (xs : List Sample)
    → Sublist (samples_of (push_all c xs).1 ++ pending (push_all c xs).0) (pending c ++ xs)
unfolding push_all
push_all-sublist c [] = rw append-nil (Sublist.refl (pending c))
push_all-sublist c (s ∷ xs) =
    let pushed = push c s in
    rw (map-append, append_assoc)
      (Sublist.trans
        (Sublist.append (Sublist.refl (samples_of pushed.1)) (push_all-sublist pushed.0 xs))
        (rw
          (
            ← append_assoc (samples_of pushed.1) (pending pushed.0) xs,
            ← append_assoc (pending c) (s ∷ []) xs,
          )
          (Sublist.append (push-sublist c s) (Sublist.refl xs))))

push_held-sublist :
    (d : SwingingDoor) (st : Stats) (held : Option Sample)
    → Sublist
        (samples_of (push_held d st held).2 ++ (push_held d st held).0.segment)
        (d.segment ++ listed held)
unfolding push_held
push_held-sublist d st none = rw append-nil (Sublist.refl d.segment)
push_held-sublist d st (some h) = rw samples_of-wrap (door_push-Keeps d h).kept

flush-sublist : (c : Compressor) → Sublist (samples_of (flush c).1) (pending c)
unfolding flush release_held
flush-sublist c =
    let h = push_held c.door c.stats c.exception.held in
    rw (map-append, samples_of-wrap)
      (Sublist.trans
        (Sublist.append (Sublist.refl (samples_of h.2)) (
          Sublist.trans (sublist-append_left (outs (door_flush h.0).1) (door_flush h.0).0.segment)
            (door_flush-Keeps h.0).kept))
        (push_held-sublist c.door c.stats c.exception.held))

run-sublist :
    (c : Compressor) (xs : List Sample)
    → Sublist (samples_of ((push_all c xs).1 ++ (flush (push_all c xs).0).1)) (pending c ++ xs)
run-sublist c xs =
    let pushed = push_all c xs in
    rw map-append (
      Sublist.trans (Sublist.append (Sublist.refl (samples_of pushed.1)) (flush-sublist pushed.0))
        (push_all-sublist c xs))

-- A new compressor holds nothing.
new_compressor-pending :
    (exc_dev comp_dev max_time_ms : Option ℕ) {c : Compressor}
    → new_compressor exc_dev comp_dev max_time_ms ≡ some c
    → pending c ≡ []
unfolding new_compressor new_door
new_compressor-pending exc_dev comp_dev max_time_ms h = ground arith

-- Whatever the deadbands and the timestamps, the archived samples of a series are samples of the
-- series, unchanged, in their order, and none is archived more often than it came in.
pub compress-sublist :
    (xs : List Sample) (exc_dev comp_dev max_time_ms : Option ℕ) {out : List Archived} {st : Stats}
    → compress xs exc_dev comp_dev max_time_ms ≡ some (out, st)
    → Sublist (samples_of out) xs
unfolding compress
compress-sublist xs exc_dev comp_dev max_time_ms {out} {st} h =
    elim (Option-cases (new_compressor exc_dev comp_dev max_time_ms)) [
      | inl e ↦ cc
      | inr (c, e) ↦
          let made : (push_all c xs).1 ++ (flush (push_all c xs).0).1 ≡ out = ground arith in
          let start : pending c ≡ [] = new_compressor-pending exc_dev comp_dev max_time_ms e in
          rw (← made) (rw start at (run-sublist c xs))
    ]
