-- ===== src/Collector/Compression/Exceptions.antt =====
-- collector/compression.py: a change of quality and a missing value in both stages.
use kpcl_hardware.Common.{
  ℕ, ◌+◌, true, ◌≡◌, ◌≢◌, refl, ◌⊎◌, inl, inr, Option, none, some, List, [], ◌∷◌, ◌++◌, ◌==◌, leb,
  ◌∙◌, arith, Bool-cases, In, here, there, In-append_left, In-append_right,
}
use kpcl_hardware.Collector.Model.{Sample}
use kpcl_hardware.Collector.Compression.Filter.{
  Reason, is_none, is_forced, forced_reason, filter_push, by_quality_change, by_timestamp,
  by_non_numeric,
}
use kpcl_hardware.Collector.Compression.Door.{SwingingDoor, observe_raw, door_push}
use kpcl_hardware.Collector.Compression.TwoStage.{
  Archived, Stats, Compressor, new_compressor, wrap, push_reported, push, push_all,
}
use kpcl_hardware.Collector.Compression.Forced.{door_push-Out}
use kpcl_hardware.Collector.Compression.Linked.{
  Given, Reported, nothing, alone, after, filter_push-Pushed, Given-door_push, Given-observe_raw,
  series-Linked,
}

-- A sample that the code calls an exception whatever the deadbands: its quality changed, or it has
-- no value.
abbrev pub Breaks : Sample → Sample → Type 0
Breaks p s = (s.quality ≢ p.quality) ⊎ (s.value ≡ none)

-- A sample is archived, for one of the forced reasons.
pub record ForcedOut (s : Sample) (archived : List Archived) : Type 0 where
  pub why : Reason
  pub forced : is_forced why ≡ true
  pub present : In (record { sample = s; reason = why }) archived

Breaks-forced_reason :
    (p s q : Sample)
    → Breaks p s
    → q.quality ≡ p.quality
    → (why : Reason) × (forced_reason s (some q) ≡ some why) × (is_forced why ≡ true)
unfolding forced_reason is_forced
Breaks-forced_reason p s q b e = elim (Bool-cases (s.quality == q.quality)) [
  | inl same ↦ elim (Bool-cases (leb s.source_ts q.source_ts)) [
    | inl early ↦ (by_timestamp, ground arith, refl)
    | inr later ↦ (by_non_numeric, ground arith, refl)
  ]
  | inr change ↦ (by_quality_change, ground arith, refl)
]

In-wrap :
    (s : Sample) (why : Reason) {out : List (Sample × Reason)}
    → In (s, why) out
    → In (record { sample = s; reason = why }) (wrap out)
In-wrap s why (here e) = here (λ i. record { sample = (e i).0; reason = (e i).1 })
In-wrap s why (there h) = there (In-wrap s why h)

-- A forced sample that reaches the door is archived.
door_push-ForcedOut :
    (d : SwingingDoor) (p s : Sample) (rest : List Archived)
    → Given p d
    → Breaks p s
    → ForcedOut s (wrap (door_push d s).1 ++ rest)
door_push-ForcedOut d p s rest g b =
    let (why, forced, listed) = Breaks-forced_reason p s g.previous b g.quality in
    let out = door_push-Out d s g.anchor g.previous why g.anchored g.remembered forced in
    record { why = why; forced = listed; present = In-append_left rest (In-wrap s why out.out) }

push_reported-ForcedOut :
    (d : SwingingDoor) (st : Stats) (p s : Sample) (reps : List (Sample × Reason))
    → Given p d
    → Breaks p s
    → Reported p s reps
    → ForcedOut s (push_reported d st reps).2
unfolding push_reported
push_reported-ForcedOut d st p s reps g (inl change) (nothing q v) = absurd (change q)
push_reported-ForcedOut d st p s reps g (inr empty) (nothing q v) =
    let none_here : is_none s.value ≡ true = rw empty refl in cc
push_reported-ForcedOut d st p s reps g b (alone why) = door_push-ForcedOut d p s [] g b
push_reported-ForcedOut d st p s reps g b (after h r why q) =
    let b' : Breaks h s = elim b [ inl c ↦ inl (λ e. c (e ∙ q)) | inr v ↦ inr v ] in
    let f = door_push-ForcedOut (door_push d h).0 h s [] (Given-door_push d h) b' in
    record {
      why = f.why;
      forced = f.forced;
      present = In-append_right (wrap (door_push d h).1) f.present;
    }

-- In a running compressor, whatever its deadbands, a sample whose quality differs from that of the
-- raw sample before it, or that carries no value, is archived at once, for a forced reason.
pub push-ForcedOut :
    (exc_dev comp_dev max_time_ms : Option ℕ) (xs : List Sample) (p s : Sample) {c : Compressor}
    → new_compressor exc_dev comp_dev max_time_ms ≡ some c
    → Breaks p s
    → ForcedOut s (push (push_all c (xs ++ p ∷ [])).0 s).1
unfolding push
push-ForcedOut exc_dev comp_dev max_time_ms xs p s {c} h b =
    let r = (push_all c (xs ++ p ∷ [])).0 in
    let linked = series-Linked exc_dev comp_dev max_time_ms xs p h in
    let f = filter_push-Pushed r.exception p s linked.filter in
    push_reported-ForcedOut (observe_raw r.door s)
      (record r.stats { received = r.stats.received + 1 }) p s (filter_push r.exception s).1
      (Given-observe_raw r.door p s linked.door) b f.reports
