-- ===== src/Collector/Compression/Order.antt =====
-- collector/compression.py: the order of what the door puts out.
use mathlib.Core.List.Sublist
use mathlib.Core.List.{
  Sublist, append-nil, append_assoc, map-append, sublist-append_left, sublist-append_right,
}
use kpcl_hardware.Common.{
  ℕ, zero, suc, ◌≡◌, inl, inr, Option, none, some, List, [], ◌∷◌, ◌++◌, map, length, drop,
  get_elem?, last?, Bool-cases, Option-cases, if_elim,
}
use kpcl_hardware.Collector.Model.{Sample}
use kpcl_hardware.Collector.Compression.Slope.{leb_slope}
use kpcl_hardware.Collector.Compression.Filter.{
  Reason, by_swinging_door, by_first, by_flush, forced_since,
}
use kpcl_hardware.Collector.Compression.Door.{
  SwingingDoor, choose, archive_chosen, may_finish, drain_rounds, drain_segment, corridor, extend,
  push_unforced, push_after, door_push, door_flush, reset, slopes, then_emit,
}

abbrev pub outs : List (Sample × Reason) → List Sample
outs = map (λ p. p.0)

get_elem?-sublist {ℓ} :
    {A : Type ℓ} (xs : List A) (i : ℕ) (a : A)
    → get_elem? xs i ≡ some a
    → Sublist (a ∷ drop (suc i) xs) xs
get_elem?-sublist [] i a e = cc
get_elem?-sublist (x ∷ xs) zero a e = let h : x ≡ a = cc in rw h (Sublist.refl _)
get_elem?-sublist (x ∷ xs) (suc i) a e = Sublist.cons x (get_elem?-sublist xs i a e)

last?-sublist {ℓ} : {A : Type ℓ} (xs : List A) (a : A) → last? xs ≡ some a → Sublist (a ∷ []) xs
last?-sublist [] a e = cc
last?-sublist (x ∷ []) a e = let h : x ≡ a = cc in rw h (Sublist.refl _)
last?-sublist (x ∷ y ∷ xs) a e = Sublist.cons x (last?-sublist (y ∷ xs) a e)

-- What a step puts out, followed by what the door still holds, is a selection of `seg`.
pub record Keeps (seg : List Sample) (r : SwingingDoor × List (Sample × Reason)) : Type 0 where
  pub kept : Sublist (outs r.1 ++ r.0.segment) seg

archive_chosen-Keeps :
    (d : SwingingDoor) (anchor : Sample) → Keeps d.segment (archive_chosen d anchor)
unfolding archive_chosen reset
archive_chosen-Keeps d anchor = elim (Option-cases (get_elem? d.segment (choose d anchor))) [
  | inl e ↦ rw (e, archive_chosen) (record { kept = Sublist.refl _ })
  | inr (a, e) ↦
      rw (e, archive_chosen) (record { kept = get_elem?-sublist d.segment (choose d anchor) a e })
]

then_emit-Keeps :
    (out : List (Sample × Reason)) (r : SwingingDoor × List (Sample × Reason)) (w s : List Sample)
    → Sublist (outs out ++ w) s
    → Keeps w r
    → Keeps s (then_emit out r)
then_emit-Keeps out r w s h k = record {
  kept =
      rw (map-append, append_assoc)
        (Sublist.trans (Sublist.append (Sublist.refl (outs out)) k.kept) h);
}

drain_rounds-Keeps :
    (fuel : ℕ) (d : SwingingDoor) (r : Reason) → Keeps d.segment (drain_rounds fuel d r)
unfolding drain_rounds
drain_rounds-Keeps zero d r = record { kept = Sublist.refl _ }
drain_rounds-Keeps (suc fuel) d r = elim (Option-cases (last? d.segment)) [
  | inl e ↦ rw (e, drain_rounds) (record { kept = Sublist.refl _ })
  | inr (last, e) ↦ elim (Option-cases d.anchor) [
    | inl q ↦ rw (e, q, drain_rounds) (record { kept = last?-sublist d.segment last e })
    | inr (anchor, q) ↦ elim (Bool-cases (may_finish d last)) [
      | inl f ↦ rw (e, q, f, drain_rounds) (record { kept = last?-sublist d.segment last e })
      | inr f ↦
          rw (e, q, f, drain_rounds)
            (then_emit-Keeps (archive_chosen d anchor).1 _ (archive_chosen d anchor).0.segment _
              (archive_chosen-Keeps d anchor).kept
              (drain_rounds-Keeps fuel (archive_chosen d anchor).0 r))
    ]
  ]
]

pub drain_segment-Keeps : (d : SwingingDoor) (r : Reason) → Keeps d.segment (drain_segment d r)
unfolding drain_segment
drain_segment-Keeps d r = drain_rounds-Keeps (length d.segment) d r

extend-Keeps :
    (d : SwingingDoor) (anchor s : Sample) → Keeps (d.segment ++ s ∷ []) (extend d anchor s)
unfolding extend
extend-Keeps d anchor s =
    if_elim (Keeps (d.segment ++ s ∷ []))
      (leb_slope (corridor d anchor s).0 (corridor d anchor s).1)
      (λ h. record { kept = Sublist.refl _ })
      (λ h. archive_chosen-Keeps (record d { segment = d.segment ++ s ∷ [] }) anchor)

-- A door that is reset at a sample has put that sample out.
reset-Keeps :
    (d : SwingingDoor) (seg : List Sample) (s : Sample) (r : Reason)
    → Keeps (seg ++ s ∷ []) (reset d s [], (s, r) ∷ [])
unfolding reset
reset-Keeps d seg s r = record { kept = sublist-append_right seg (s ∷ []) }

push_unforced-Keeps :
    (d : SwingingDoor) (anchor s : Sample) → Keeps (d.segment ++ s ∷ []) (push_unforced d anchor s)
unfolding push_unforced
push_unforced-Keeps d anchor s = elim (Option-cases d.comp_dev) [
  | inl e ↦ rw (e, push_unforced) (reset-Keeps d d.segment s _)
  | inr (dev, e) ↦ elim (Option-cases (slopes dev anchor s)) [
    | inl q ↦ rw (e, q, push_unforced) (reset-Keeps d d.segment s _)
    | inr (pair, q) ↦ rw (e, q, push_unforced) (extend-Keeps d anchor s)
  ]
]

push_after-Keeps :
    (d : SwingingDoor) (anchor s : Sample) (forced : Option Reason)
    → Keeps (d.segment ++ s ∷ []) (push_after d anchor s forced)
unfolding push_after reset
push_after-Keeps d anchor s none = push_unforced-Keeps d anchor s
push_after-Keeps d anchor s (some forced) = record {
  kept =
      rw (append-nil, map-append)
        (Sublist.append
          (Sublist.trans (sublist-append_left _ _) (drain_segment-Keeps d by_swinging_door).kept)
          (Sublist.refl (s ∷ [])));
}

pub door_push-Keeps : (d : SwingingDoor) (s : Sample) → Keeps (d.segment ++ s ∷ []) (door_push d s)
unfolding door_push
door_push-Keeps d s = elim (Option-cases d.anchor) [
  | inl e ↦ rw (e, door_push) (reset-Keeps (record d { previous = some s }) d.segment s by_first)
  | inr (anchor, e) ↦
      rw (e, door_push)
        (push_after-Keeps (record d { previous = some s }) anchor s
          (forced_since d.max_time anchor s d.previous))
]

pub door_flush-Keeps : (d : SwingingDoor) → Keeps d.segment (door_flush d)
unfolding door_flush
door_flush-Keeps d = drain_segment-Keeps d by_flush
