-- ===== src/Collector/Compression/Forced.antt =====
-- collector/compression.py: the exceptions in stage two, which compares a sample with the last one that
-- it was given.
use kpcl_hardware.Common.{
  ℕ, suc, ◌≡◌, refl, inl, inr, Option, none, some, List, [], ◌∷◌, ◌++◌, ◌∙◌, length, last?,
  get_elem?, Bool-cases, Option-cases, if_elim, In, here, In-append_right,
}
use kpcl_hardware.Collector.Model.{Sample}
use kpcl_hardware.Collector.Compression.Slope.{leb_slope}
use kpcl_hardware.Collector.Compression.Filter.{
  Reason, by_swinging_door, forced_since, forced_reason,
}
use kpcl_hardware.Collector.Compression.Door.{
  SwingingDoor, door_push, reset, archive_chosen, choose, drain_rounds, drain_segment, may_finish,
  corridor, extend, push_unforced, push_after, slopes,
}

-- After a step the door has an anchor and the given previous sample.
pub record Ready (previous : Option Sample) (r : SwingingDoor × List (Sample × Reason))
    : Type 0 where
  pub anchor : Sample
  pub anchored : r.0.anchor ≡ some anchor
  pub remembered : r.0.previous ≡ previous

archive_chosen-Ready :
    (d : SwingingDoor) (a anchor : Sample)
    → d.anchor ≡ some anchor
    → Ready d.previous (archive_chosen d a)
unfolding archive_chosen reset
archive_chosen-Ready d a anchor h = elim (Option-cases (get_elem? d.segment (choose d a))) [
  | inl e ↦ rw (e, archive_chosen) (record { anchor = anchor; anchored = h; remembered = refl })
  | inr (b, e) ↦ rw (e, archive_chosen) (record { anchor = b; anchored = refl; remembered = refl })
]

record Remembers (previous : Option Sample) (r : SwingingDoor × List (Sample × Reason))
    : Type 0 where
  pub remembered : r.0.previous ≡ previous

archive_chosen-Remembers :
    (d : SwingingDoor) (a : Sample) → Remembers d.previous (archive_chosen d a)
unfolding archive_chosen reset
archive_chosen-Remembers d a = elim (Option-cases (get_elem? d.segment (choose d a))) [
  | inl e ↦ rw (e, archive_chosen) (record { remembered = refl })
  | inr (b, e) ↦ rw (e, archive_chosen) (record { remembered = refl })
]

drain_rounds-Remembers :
    (fuel : ℕ) (d : SwingingDoor) (r : Reason) → Remembers d.previous (drain_rounds fuel d r)
unfolding drain_rounds
drain_rounds-Remembers ℕ.zero d r = record { remembered = refl }
drain_rounds-Remembers (suc fuel) d r = elim (Option-cases (last? d.segment)) [
  | inl e ↦ rw (e, drain_rounds) (record { remembered = refl })
  | inr (last, e) ↦ elim (Option-cases d.anchor) [
    | inl q ↦ rw (e, q, drain_rounds) (record { remembered = refl })
    | inr (anchor, q) ↦ elim (Bool-cases (may_finish d last)) [
      | inl f ↦ rw (e, q, f, drain_rounds) (record { remembered = refl })
      | inr f ↦
          let step = archive_chosen d anchor in
          rw (e, q, f, drain_rounds)
            (record {
              remembered =
                  (drain_rounds-Remembers fuel step.0 r).remembered
                  ∙ (archive_chosen-Remembers d anchor).remembered;
            })
    ]
  ]
]

extend-Ready :
    (d : SwingingDoor) (anchor s : Sample)
    → d.anchor ≡ some anchor
    → Ready d.previous (extend d anchor s)
unfolding extend
extend-Ready d anchor s h =
    if_elim (Ready d.previous) (leb_slope (corridor d anchor s).0 (corridor d anchor s).1)
      (λ e. record { anchor = anchor; anchored = h; remembered = refl })
      (λ e. archive_chosen-Ready (record d { segment = d.segment ++ s ∷ [] }) anchor anchor h)

push_unforced-Ready :
    (d : SwingingDoor) (anchor s : Sample)
    → d.anchor ≡ some anchor
    → Ready d.previous (push_unforced d anchor s)
unfolding push_unforced reset
push_unforced-Ready d anchor s h = elim (Option-cases d.comp_dev) [
  | inl e ↦ rw (e, push_unforced) (record { anchor = s; anchored = refl; remembered = refl })
  | inr (dev, e) ↦ elim (Option-cases (slopes dev anchor s)) [
    | inl q ↦ rw (e, q, push_unforced) (record { anchor = s; anchored = refl; remembered = refl })
    | inr (pair, q) ↦ rw (e, q, push_unforced) (extend-Ready d anchor s h)
  ]
]

push_after-Ready :
    (d : SwingingDoor) (anchor s : Sample) (forced : Option Reason)
    → d.anchor ≡ some anchor
    → Ready d.previous (push_after d anchor s forced)
unfolding push_after reset drain_segment
push_after-Ready d anchor s none h = push_unforced-Ready d anchor s h
push_after-Ready d anchor s (some r) h = record {
  anchor = s;
  anchored = refl;
  remembered = (drain_rounds-Remembers (length d.segment) d by_swinging_door).remembered;
}

pub door_push-Ready : (d : SwingingDoor) (s : Sample) → Ready (some s) (door_push d s)
unfolding door_push reset
door_push-Ready d s = elim (Option-cases d.anchor) [
  | inl e ↦ rw (e, door_push) (record { anchor = s; anchored = refl; remembered = refl })
  | inr (anchor, e) ↦
      rw (e, door_push)
        (push_after-Ready (record d { previous = some s }) anchor s
          (forced_since d.max_time anchor s d.previous) e)
]

-- A sample that is forced against the door's previous one is put out for that reason.
pub record Out (s : Sample) (why : Reason) (r : SwingingDoor × List (Sample × Reason))
    : Type 0 where
  pub out : In (s, why) r.1

pub door_push-Out :
    (d : SwingingDoor) (s anchor previous : Sample) (why : Reason)
    → d.anchor ≡ some anchor
    → d.previous ≡ some previous
    → forced_reason s (some previous) ≡ some why
    → Out s why (door_push d s)
unfolding door_push push_after forced_since
door_push-Out d s anchor previous why h k f =
    let e : SwingingDoor = record d { previous = some s } in
    rw (h, k, f, door_push, forced_since)
      (record { out = In-append_right (drain_segment e by_swinging_door).1 (here refl) })
