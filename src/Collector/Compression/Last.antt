-- ===== src/Collector/Compression/Last.antt =====
-- collector/compression.py: the newest point in the door's segment, and `_drain_segment`.
use mathlib.Core.List.{map-append}
use kpcl_hardware.Common.{
  ℕ, zero, suc, ◌-◌, ◌≤◌, ◌<◌, ◌≡◌, ◌≢◌, refl, ◌⊎◌, inl, inr, Option, none, some, List, [], ◌∷◌,
  ◌++◌, length, drop, get_elem?, last?, arith, Bool-cases, Option-cases, if_elim, In, here,
  In-append_left, In-append_right, length-drop,
}
use kpcl_hardware.Collector.Model.{Sample}
use kpcl_hardware.Collector.Compression.Slope.{leb_slope}
use kpcl_hardware.Collector.Compression.Filter.{Reason, by_swinging_door, by_flush, forced_since}
use kpcl_hardware.Collector.Compression.Door.{
  SwingingDoor, choose_from, choose, fits_at, archive_chosen, may_finish, drain_rounds,
  drain_segment, corridor, extend, push_unforced, push_after, door_push, door_flush, reset, slopes,
  deviation,
}
use kpcl_hardware.Collector.Compression.Order.{outs}

last?-append {ℓ} : {A : Type ℓ} (xs : List A) (a : A) → last? (xs ++ a ∷ []) ≡ some a
last?-append [] a = refl
last?-append (x ∷ []) a = refl
last?-append (x ∷ y ∷ xs) a = last?-append (y ∷ xs) a

-- A point taken out of a list is its last one, or leaves the last one behind.
last?-drop {ℓ} :
    {A : Type ℓ} (xs : List A) (i : ℕ) {a s : A}
    → last? xs ≡ some s
    → get_elem? xs i ≡ some a
    → (s ≡ a) ⊎ (last? (drop (suc i) xs) ≡ some s)
last?-drop [] i h e = cc
last?-drop (x ∷ []) zero h e = inl cc
last?-drop (x ∷ []) (suc i) h e = cc
last?-drop (x ∷ y ∷ xs) zero h e = inr h
last?-drop (x ∷ y ∷ xs) (suc i) h e = last?-drop (y ∷ xs) i h e

get_elem?-lt {ℓ} : {A : Type ℓ} (xs : List A) (i : ℕ) → i < length xs → get_elem? xs i ≢ none
get_elem?-lt [] i h = absurd (omega arith)
get_elem?-lt (x ∷ xs) zero h = λ e. cc
get_elem?-lt (x ∷ xs) (suc i) h = get_elem?-lt xs i (omega arith)

last?-pos {ℓ} : {A : Type ℓ} (xs : List A) {s : A} → last? xs ≡ some s → 0 < length xs
last?-pos [] h = cc
last?-pos (x ∷ xs) h = omega arith

choose_from-le :
    (dev : ℕ) (w : List Sample) (anchor : Sample) (seg : List Sample) (n : ℕ)
    → choose_from dev w anchor seg n ≤ n
unfolding choose_from
choose_from-le dev w anchor seg zero = omega arith
choose_from-le dev w anchor seg (suc n) =
    if_elim (λ k. k ≤ suc n) (fits_at dev w anchor seg (suc n)) (λ e. omega arith)
      (λ e. omega (arith, choose_from-le dev w anchor seg n))

-- The index of `_choose` is in range: the segment's lookup cannot fail.
pub choose-lt :
    (d : SwingingDoor) (anchor : Sample) → 0 < length d.segment → choose d anchor < length d.segment
unfolding choose
choose-lt d anchor h =
    omega (
      arith,
      choose_from-le (deviation d.comp_dev) d.witness anchor d.segment (length d.segment - 2),
    )

-- What became of a sample that was the door's newest: it is out, or it ends the segment.
pub record Kept (s : Sample) (r : SwingingDoor × List (Sample × Reason)) : Type 0 where
  pub safe : In s (outs r.1) ⊎ (last? r.0.segment ≡ some s)

archive_chosen-Kept :
    (d : SwingingDoor) (anchor s : Sample)
    → last? d.segment ≡ some s
    → Kept s (archive_chosen d anchor)
unfolding archive_chosen reset
archive_chosen-Kept d anchor s h = elim (Option-cases (get_elem? d.segment (choose d anchor))) [
  | inl e ↦
      absurd
        (get_elem?-lt d.segment (choose d anchor) (choose-lt d anchor (last?-pos d.segment h)) e)
  | inr (a, e) ↦ elim (last?-drop d.segment (choose d anchor) h e) [
    | inl q ↦ rw (e, archive_chosen) (record { safe = inl (here q) })
    | inr q ↦ rw (e, archive_chosen) (record { safe = inr q })
  ]
]

-- Each round of the drain shortens the segment.
record Shorter (n : ℕ) (r : SwingingDoor × List (Sample × Reason)) : Type 0 where
  shorter : length r.0.segment < n

archive_chosen-Shorter :
    (d : SwingingDoor) (anchor : Sample)
    → 0 < length d.segment
    → Shorter (length d.segment) (archive_chosen d anchor)
unfolding archive_chosen reset
archive_chosen-Shorter d anchor h = elim (Option-cases (get_elem? d.segment (choose d anchor))) [
  | inl e ↦ absurd (get_elem?-lt d.segment (choose d anchor) (choose-lt d anchor h) e)
  | inr (a, e) ↦
      rw (e, archive_chosen)
        (record { shorter = omega (arith, length-drop (suc (choose d anchor)) d.segment) })
]

pub record Emptied (r : SwingingDoor × List (Sample × Reason)) : Type 0 where
  pub emptied : r.0.segment ≡ []

last?-none {ℓ} : {A : Type ℓ} (xs : List A) → last? xs ≡ none → xs ≡ []
last?-none [] h = refl
last?-none (x ∷ []) h = cc
last?-none {A = A} (x ∷ y ∷ xs) h = absurd (go y xs h)
  where
    go : (y : A) (xs : List A) → last? (y ∷ xs) ≡ none → ⊥
    go y [] h = cc
    go y (z ∷ zs) h = go z zs h

-- As many rounds as the segment has points are enough.
drain_rounds-Emptied :
    (fuel : ℕ) (d : SwingingDoor) (r : Reason)
    → length d.segment ≤ fuel
    → Emptied (drain_rounds fuel d r)
unfolding drain_rounds
drain_rounds-Emptied zero d r h = record { emptied = no_points d.segment h }
  where
    no_points : (xs : List Sample) → length xs ≤ 0 → xs ≡ []
    no_points [] h = refl
    no_points (x ∷ xs) h = absurd (omega arith)
drain_rounds-Emptied (suc fuel) d r h = elim (Option-cases (last? d.segment)) [
  | inl e ↦ rw (e, drain_rounds) (record { emptied = last?-none d.segment e })
  | inr (last, e) ↦ elim (Option-cases d.anchor) [
    | inl q ↦ rw (e, q, drain_rounds) (record { emptied = refl })
    | inr (anchor, q) ↦ elim (Bool-cases (may_finish d last)) [
      | inl f ↦ rw (e, q, f, drain_rounds) (record { emptied = refl })
      | inr f ↦
          let less = archive_chosen-Shorter d anchor (last?-pos d.segment e) in
          let rest =
            drain_rounds-Emptied fuel (archive_chosen d anchor).0 r (omega (arith, less.shorter)) in
          rw (e, q, f, drain_rounds) (record { emptied = rest.emptied })
    ]
  ]
]

record Emits (s : Sample) (r : SwingingDoor × List (Sample × Reason)) : Type 0 where
  emitted : In s (outs r.1)

drain_rounds-Emits :
    (fuel : ℕ) (d : SwingingDoor) (r : Reason) (s : Sample)
    → length d.segment ≤ fuel
    → last? d.segment ≡ some s
    → Emits s (drain_rounds fuel d r)
unfolding drain_rounds
drain_rounds-Emits zero d r s h k = absurd (omega (arith, last?-pos d.segment k))
drain_rounds-Emits (suc fuel) d r s h k = elim (Option-cases d.anchor) [
  | inl q ↦ rw (k, q, drain_rounds) (record { emitted = here refl })
  | inr (anchor, q) ↦ elim (Bool-cases (may_finish d s)) [
    | inl f ↦ rw (k, q, f, drain_rounds) (record { emitted = here refl })
    | inr f ↦
        let step = archive_chosen d anchor in
        let less = archive_chosen-Shorter d anchor (last?-pos d.segment k) in
        rw (k, q, f, drain_rounds)
          (record {
            emitted = rw map-append (elim ((archive_chosen-Kept d anchor s k).safe) [
              | inl out ↦ In-append_left _ out
              | inr kept ↦
                  In-append_right (outs step.1)
                    (drain_rounds-Emits fuel step.0 r s (omega (arith, less.shorter)) kept).emitted
            ]);
          })
  ]
]

-- `_drain_segment` ends with the segment empty, and puts out the point that ended it.
pub drain_segment-Emptied : (d : SwingingDoor) (r : Reason) → Emptied (drain_segment d r)
unfolding drain_segment
drain_segment-Emptied d r = drain_rounds-Emptied (length d.segment) d r (omega arith)

drain_segment-Emits :
    (d : SwingingDoor) (r : Reason) (s : Sample)
    → last? d.segment ≡ some s
    → Emits s (drain_segment d r)
unfolding drain_segment
drain_segment-Emits d r s k = drain_rounds-Emits (length d.segment) d r s (omega arith) k

pub door_flush-Emits :
    (d : SwingingDoor) (s : Sample) → last? d.segment ≡ some s → In s (outs (door_flush d).1)
unfolding door_flush
door_flush-Emits d s k = (drain_segment-Emits d by_flush s k).emitted

extend-Kept : (d : SwingingDoor) (anchor s : Sample) → Kept s (extend d anchor s)
unfolding extend
extend-Kept d anchor s =
    if_elim (Kept s) (leb_slope (corridor d anchor s).0 (corridor d anchor s).1)
      (λ h. record { safe = inr (last?-append d.segment s) })
      (λ h.
        archive_chosen-Kept (record d { segment = d.segment ++ s ∷ [] }) anchor s
          (last?-append d.segment s))

push_unforced-Kept : (d : SwingingDoor) (anchor s : Sample) → Kept s (push_unforced d anchor s)
unfolding push_unforced reset
push_unforced-Kept d anchor s = elim (Option-cases d.comp_dev) [
  | inl e ↦ rw (e, push_unforced) (record { safe = inl (here refl) })
  | inr (dev, e) ↦ elim (Option-cases (slopes dev anchor s)) [
    | inl q ↦ rw (e, q, push_unforced) (record { safe = inl (here refl) })
    | inr (pair, q) ↦ rw (e, q, push_unforced) (extend-Kept d anchor s)
  ]
]

push_after-Kept :
    (d : SwingingDoor) (anchor s : Sample) (forced : Option Reason)
    → Kept s (push_after d anchor s forced)
unfolding push_after
push_after-Kept d anchor s none = push_unforced-Kept d anchor s
push_after-Kept d anchor s (some forced) = record {
  safe =
      inl (rw map-append (In-append_right (outs (drain_segment d by_swinging_door).1) (here refl)));
}

-- A pushed sample is archived at once or ends the open segment.
pub door_push-Kept : (d : SwingingDoor) (s : Sample) → Kept s (door_push d s)
unfolding door_push reset
door_push-Kept d s = elim (Option-cases d.anchor) [
  | inl e ↦ rw (e, door_push) (record { safe = inl (here refl) })
  | inr (anchor, e) ↦
      rw (e, door_push)
        (push_after-Kept (record d { previous = some s }) anchor s
          (forced_since d.max_time anchor s d.previous))
]
