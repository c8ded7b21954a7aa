-- ===== src/Collector/Compression/Bound.antt =====
-- collector/compression.py: the reconstruction bound of `_choose`. A line between two samples is
-- compared with a third by multiplying out, so no quotient is rounded.
use kpcl_hardware.Common.{
  ℕ, zero, suc, ◌+◌, ◌-◌, ◌*◌, ◌≤◌, ◌<◌, Bool, true, false, ◌≡◌, refl, ◌⊎◌, inl, inr, some, List,
  ◌++◌, length, take, get_elem?, leb, leb→le, arith, Bool-cases, Option-cases, if◌then◌else◌, In,
  here, there,
}
use kpcl_hardware.Common.Int.{ℤ, pos, sub_ℕ, ◌-ℤ◌, ◌*ℤ◌, abs}
use kpcl_hardware.Collector.Model.{Sample}
use kpcl_hardware.Collector.Compression.Door.{
  SwingingDoor, deviation, near_line, all_near, within_bound, witnesses_between, fits_at,
  choose_from, choose,
}

-- The value of `p` is within `dev` + 10⁻¹² of the straight line from `anchor` to `target`.
pub record Near (dev : ℕ) (anchor target p : Sample) : Type 0 where
  pub from : ℤ
  pub to : ℤ
  pub at : ℤ
  pub from_value : anchor.value ≡ some from
  pub to_value : target.value ≡ some to
  pub at_value : p.value ≡ some at
  pub forward : anchor.source_ts < target.source_ts
  pub within :
      abs (
        (at -ℤ from) *ℤ pos (target.source_ts - anchor.source_ts)
        -ℤ (to -ℤ from) *ℤ sub_ℕ p.source_ts anchor.source_ts)
      ≤ (dev + 1) * (target.source_ts - anchor.source_ts)

near_line-within :
    (dev : ℕ) (a t : ℤ) (since span : ℕ) (p : Sample)
    → near_line dev a t since span p ≡ true
    → (v : ℤ) × (p.value ≡ some v)
      × (abs ((v -ℤ a) *ℤ pos span -ℤ (t -ℤ a) *ℤ sub_ℕ p.source_ts since) ≤ (dev + 1) * span)
unfolding near_line
near_line-within dev a t since span p h = elim (Option-cases p.value) [
  | inl e ↦ let no_value : false ≡ true = rw (e, near_line) at h in cc
  | inr (v, e) ↦ (v, e, leb→le _ _ (rw (e, near_line) at h))
]

all_near-In :
    (dev : ℕ) (a t : ℤ) (since span : ℕ) {p : Sample} {ps : List Sample}
    → all_near dev a t since span ps ≡ true
    → In p ps
    → near_line dev a t since span p ≡ true
unfolding all_near
all_near-In dev a t since span h (here {x = x} e) = rw e (ground arith)
all_near-In dev a t since span h (there {x = x} {xs = xs} k) =
    all_near-In dev a t since span (ground arith) k

within_bound-Near :
    (dev : ℕ) (witness : List Sample) (anchor target : Sample) (discarded : List Sample)
    {p : Sample}
    → within_bound dev witness anchor target discarded ≡ true
    → In p (discarded ++ witnesses_between witness anchor target)
    → Near dev anchor target p
unfolding within_bound
within_bound-Near dev witness anchor target discarded {p} h k = elim (Option-cases anchor.value) [
  | inl e ↦ let no_value : false ≡ true = rw (e, within_bound) at h in cc
  | inr (a, ea) ↦ elim (Option-cases target.value) [
    | inl e ↦ let no_value : false ≡ true = rw (ea, e, within_bound) at h in cc
    | inr (t, et) ↦
        let span = target.source_ts - anchor.source_ts in
        let seen = discarded ++ witnesses_between witness anchor target in
        let facts : (anchor.source_ts < target.source_ts)
            × (all_near dev a t anchor.source_ts span seen ≡ true) =
          later_near (rw (ea, et, within_bound) at h) in
        let near =
          near_line-within dev a t anchor.source_ts span p
            (all_near-In dev a t anchor.source_ts span facts.1 k) in
        record {
          from = a;
          to = t;
          at = near.0;
          from_value = ea;
          to_value = et;
          at_value = near.1;
          forward = facts.0;
          within = near.2;
        }
  ]
]
  where
    later_near : {x y : ℕ} {b : Bool} → (if leb y x then false else b) ≡ true → (x < y) × (b ≡ true)
    later_near h = ground arith

choose_from-fits :
    (dev : ℕ) (witness : List Sample) (anchor : Sample) (seg : List Sample) (n : ℕ)
    → let i = choose_from dev witness anchor seg n in
      (i ≡ 0) ⊎ (fits_at dev witness anchor seg i ≡ true)
unfolding choose_from
choose_from-fits dev witness anchor seg zero = inl refl
choose_from-fits dev witness anchor seg (suc n) =
    elim (Bool-cases (fits_at dev witness anchor seg (suc n))) [
      | inl e ↦ rw e (inr e)
      | inr e ↦ rw e (choose_from-fits dev witness anchor seg n)
    ]

-- `_choose` returns the first point of the open segment, or a point such that every earlier point of the
-- segment, and every raw sample between the anchor and it, is no further from the line from the anchor
-- to it than CompDev and the code's tolerance of 1e-12 together.
pub choose-Near :
    (d : SwingingDoor) (anchor : Sample)
    → (choose d anchor ≡ 0)
      ⊎ ((target : Sample) × (get_elem? d.segment (choose d anchor) ≡ some target)
          × ((p : Sample)
              → In p (take (choose d anchor) d.segment ++ witnesses_between d.witness anchor target)
              → Near (deviation d.comp_dev) anchor target p))
unfolding choose fits_at
choose-Near d anchor =
    let dev = deviation d.comp_dev in
    elim (choose_from-fits dev d.witness anchor d.segment (length d.segment - 2)) [
      | inl e ↦ inl e
      | inr fits ↦ elim (Option-cases (get_elem? d.segment (choose d anchor))) [
        | inl e ↦ let no_point : false ≡ true = rw (e, fits_at) at fits in cc
        | inr (target, e) ↦ inr (
          target,
          e,
          λ p k.
              within_bound-Near dev d.witness anchor target (take (choose d anchor) d.segment)
                (rw (e, fits_at) at fits) k,
        )
      ]
    ]
