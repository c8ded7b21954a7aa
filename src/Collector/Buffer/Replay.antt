-- ===== src/Collector/Buffer/Replay.antt =====
-- collector/buffer.py, `take`: the order of the rows.
use kpcl_hardware.Common.{
  ℕ, zero, suc, ◌≤◌, true, false, ◌≡◌, refl, ◌⊎◌, inl, inr, List, [], ◌∷◌, take, arith, In, here,
  there, All, All-In, All-take, if_elim,
}
use kpcl_hardware.Collector.Buffer.{Row, Buffer, row_before, place, sort_rows, take_oldest}

abbrev NotLater : Row → Row → Type 0
NotLater r q = r.sample.source_ts ≤ q.sample.source_ts

-- Ascending source time, from any row to all that follow it.
abbrev pub IsAscending : List Row → Type 0
IsAscending [] = Unit
IsAscending (r ∷ rs) = All (λ q. r.sample.source_ts ≤ q.sample.source_ts) rs × IsAscending rs

row_before-true : (r q : Row) → row_before r q ≡ true → NotLater r q
unfolding row_before
row_before-true r q h = ground arith

row_before-false : (r q : Row) → row_before r q ≡ false → NotLater q r
unfolding row_before
row_before-false r q h = ground arith

All-place : (P : Row → Type 0) (r : Row) (rs : List Row) → P r → All P rs → All P (place r rs)
unfolding place
All-place P r [] h k = (h, tt)
All-place P r (q ∷ qs) h k =
    if_elim (All P) (row_before r q) (λ e. (h, k)) (λ e. (k.0, All-place P r qs h k.1))

All-weaken : (r q : Row) (rs : List Row) → NotLater r q → All (NotLater q) rs → All (NotLater r) rs
All-weaken r q [] h k = tt
All-weaken r q (x ∷ xs) h k = (omega arith, All-weaken r q xs h k.1)

place-IsAscending : (r : Row) (rs : List Row) → IsAscending rs → IsAscending (place r rs)
unfolding place
place-IsAscending r [] h = (tt, tt)
place-IsAscending r (q ∷ qs) h =
    if_elim IsAscending (row_before r q)
      (λ e. let le = row_before-true r q e in ((le, All-weaken r q qs le h.0), h))
      (λ e. (All-place (NotLater q) r qs (row_before-false r q e) h.0, place-IsAscending r qs h.1))

sort_rows-IsAscending : (rs : List Row) → IsAscending (sort_rows rs)
unfolding sort_rows
sort_rows-IsAscending [] = tt
sort_rows-IsAscending (r ∷ rs) = place-IsAscending r (sort_rows rs) (sort_rows-IsAscending rs)

In-place_self : (r : Row) (rs : List Row) → In r (place r rs)
unfolding place
In-place_self r [] = here refl
In-place_self r (q ∷ qs) =
    if_elim (In r) (row_before r q) (λ e. here refl) (λ e. there (In-place_self r qs))

In-place : (r : Row) {x : Row} {rs : List Row} → In x rs → In x (place r rs)
unfolding place
In-place r {x} (here {x = q} {xs = qs} e) =
    if_elim (In x) (row_before r q) (λ t. there (here e)) (λ t. here e)
In-place r {x} (there {x = q} {xs = qs} h) =
    if_elim (In x) (row_before r q) (λ t. there (there h)) (λ t. there (In-place r h))

In-sort_rows : {x : Row} {rs : List Row} → In x rs → In x (sort_rows rs)
unfolding sort_rows
In-sort_rows (here {x = r} {xs = rs} e) = rw e (In-place_self r (sort_rows rs))
In-sort_rows (there {x = r} {xs = rs} h) = In-place r (In-sort_rows h)

take-IsAscending : (n : ℕ) (rs : List Row) → IsAscending rs → IsAscending (take n rs)
take-IsAscending zero rs h = tt
take-IsAscending (suc n) [] h = tt
take-IsAscending (suc n) (r ∷ rs) h = (All-take _ n rs h.0, take-IsAscending n rs h.1)

-- What was not taken is not older than what was.
taken_first :
    (n : ℕ) (q : Row) (rs : List Row)
    → IsAscending rs
    → In q rs
    → In q (take n rs) ⊎ All (λ r. r.sample.source_ts ≤ q.sample.source_ts) (take n rs)
taken_first zero q rs h k = inr tt
taken_first (suc n) q [] h k = inr tt
taken_first (suc n) q (r ∷ rs) h (here e) = inl (here e)
taken_first (suc n) q (r ∷ rs) h (there k) = elim (taken_first n q rs h.1 k) [
  | inl t ↦ inl (there t)
  | inr t ↦ inr (All-In (λ x. r.sample.source_ts ≤ x.sample.source_ts) h.0 k, t)
]

-- `take` returns rows in ascending source time, and every buffered row is among them or is no older
-- than any of them.
pub take_oldest-IsAscending :
    (b : Buffer) (limit : ℕ)
    → IsAscending (take_oldest b limit)
      × ((q : Row)
          → In q b.rows
          → In q (take_oldest b limit)
            ⊎ All (λ r. r.sample.source_ts ≤ q.sample.source_ts) (take_oldest b limit))
unfolding take_oldest
take_oldest-IsAscending b limit =
    let sorted = sort_rows-IsAscending b.rows in
    (
      take-IsAscending limit (sort_rows b.rows) sorted,
      λ q h. taken_first limit q (sort_rows b.rows) sorted (In-sort_rows h),
    )
