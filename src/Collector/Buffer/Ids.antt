-- ===== src/Collector/Buffer/Ids.antt =====
-- collector/buffer.py: the ids of the rows.
use kpcl_hardware.Common.{
  ℕ, zero, suc, ◌+◌, ◌-◌, ◌≤◌, ◌<◌, Bool, true, not, ◌≡◌, refl, ◌⊎◌, inl, inr, List, [], ◌∷◌, ◌++◌,
  leb, ◌==◌, take, drop, length, any_of, keep_if, map, ==_iff, In-keep_if, arith, In, here, there,
  All, All-In, All-append, All-drop, if_elim, Bool-cases,
}
use kpcl_hardware.Collector.Model.{Sample}
use kpcl_hardware.Collector.Buffer.{
  Row, Buffer, same_key, insert_or_ignore, insert_all, enforce_bound, append, forget, sort_rows,
  place, row_before, take_oldest,
}

abbrev pub IdsAscend : List Row → Type 0
IdsAscend [] = Unit
IdsAscend (r ∷ rs) = All (λ q. r.id < q.id) rs × IdsAscend rs

-- Ids ascend, and the next one is above them all.
abbrev pub IdsBelow : ℕ → List Row → Type 0
IdsBelow next rs = All (λ (q : Row). q.id < next) rs

pub record IdsValid (b : Buffer) : Type 0 where
  pub ascend : IdsAscend b.rows
  pub below : IdsBelow b.next_id b.rows

IdsAscend-append :
    (rs : List Row) (r : Row) → IdsAscend rs → IdsBelow r.id rs → IdsAscend (rs ++ r ∷ [])
IdsAscend-append [] r h k = (tt, tt)
IdsAscend-append (q ∷ qs) r h k =
    (All-append _ qs (r ∷ []) h.0 (k.0, tt), IdsAscend-append qs r h.1 k.1)

IdsBelow-weaken : (n m : ℕ) (rs : List Row) → n ≤ m → IdsBelow n rs → IdsBelow m rs
IdsBelow-weaken n m [] h k = tt
IdsBelow-weaken n m (r ∷ rs) h k = (omega arith, IdsBelow-weaken n m rs h k.1)

record Numbered (r : ℕ × List Row) : Type 0 where
  ascend : IdsAscend r.1
  below : IdsBelow r.0 r.1

insert_or_ignore-Numbered :
    (n : ℕ) (rows : List Row) (s : Sample)
    → Numbered (n, rows)
    → Numbered (insert_or_ignore n rows s)
unfolding insert_or_ignore
insert_or_ignore-Numbered n rows s h =
    if_elim Numbered (any_of (same_key s) rows) (λ e. h)
      (λ e. record {
        ascend = IdsAscend-append rows (record { id = n; sample = s }) h.ascend h.below;
        below =
            All-append _ rows _ (IdsBelow-weaken n (n + 1) rows (omega arith) h.below)
              (omega arith, tt);
      })

insert_all-Numbered :
    (n : ℕ) (rows : List Row) (ss : List Sample)
    → Numbered (n, rows)
    → Numbered (insert_all n rows ss)
unfolding insert_all
insert_all-Numbered n rows [] h = h
insert_all-Numbered n rows (s ∷ ss) h =
    let r = insert_or_ignore n rows s in
    insert_all-Numbered r.0 r.1 ss (insert_or_ignore-Numbered n rows s h)

IdsAscend-drop : (n : ℕ) (rs : List Row) → IdsAscend rs → IdsAscend (drop n rs)
IdsAscend-drop zero rs h = h
IdsAscend-drop (suc n) [] h = h
IdsAscend-drop (suc n) (r ∷ rs) h = IdsAscend-drop n rs h.1

record ValidAfter (r : Buffer × ℕ) : Type 0 where
  valid : IdsValid r.0

enforce_bound-ValidAfter : (b : Buffer) (t : ℕ) → IdsValid b → ValidAfter (enforce_bound b t)
unfolding enforce_bound
enforce_bound-ValidAfter b t h =
    let excess = length b.rows - b.max_rows in
    if_elim ValidAfter (leb (length b.rows) b.max_rows) (λ e. record { valid = h })
      (λ e. record {
        valid = record {
          ascend = IdsAscend-drop excess b.rows h.ascend;
          below = All-drop _ excess b.rows h.below;
        };
      })

-- If the ids ascend and the next one is above them all, `append` keeps it so.
pub append-IdsValid :
    (b : Buffer) (ss : List Sample) (t : ℕ) → IdsValid b → IdsValid (append b ss t).0
unfolding append
append-IdsValid b [] t h = h
append-IdsValid b (s ∷ ss) t h =
    let inserted = insert_all b.next_id b.rows (s ∷ ss) in
    let start : Numbered (b.next_id, b.rows) = record { ascend = h.ascend; below = h.below } in
    let n = insert_all-Numbered b.next_id b.rows (s ∷ ss) start in
    let v =
      enforce_bound-ValidAfter (record b { rows = inserted.1; next_id = inserted.0 }) t
        (record { ascend = n.ascend; below = n.below }) in
    record { ascend = v.valid.ascend; below = v.valid.below }

All-keep_if {ℓ κ} :
    {A : Type ℓ} (P : A → Type κ) (p : A → Bool) (xs : List A) → All P xs → All P (keep_if p xs)
All-keep_if P p [] h = tt
All-keep_if P p (x ∷ xs) h =
    if_elim (All P) (p x) (λ e. (h.0, All-keep_if P p xs h.1)) (λ e. All-keep_if P p xs h.1)

IdsAscend-keep_if : (p : Row → Bool) (rs : List Row) → IdsAscend rs → IdsAscend (keep_if p rs)
IdsAscend-keep_if p [] h = tt
IdsAscend-keep_if p (r ∷ rs) h =
    if_elim IdsAscend (p r) (λ e. (All-keep_if _ p rs h.0, IdsAscend-keep_if p rs h.1))
      (λ e. IdsAscend-keep_if p rs h.1)

pub forget-IdsValid : (b : Buffer) (ids : List ℕ) → IdsValid b → IdsValid (forget b ids)
unfolding forget
forget-IdsValid b ids h = record {
  ascend = IdsAscend-keep_if _ b.rows h.ascend;
  below = All-keep_if _ _ b.rows h.below;
}

-- An id names one row.
pub same_row : {r q : Row} {rs : List Row} → IdsAscend rs → In r rs → In q rs → r.id ≡ q.id → r ≡ q
same_row h (here e) (here f) k = rw (e, f) refl
same_row {r} {q} h (here {x = x} {xs = xs} e) (there l) k =
    let lt : x.id < q.id = All-In (λ (y : Row). x.id < y.id) h.0 l in
    let same : x.id ≡ q.id = rw e at k in absurd (omega arith)
same_row {r} {q} h (there {x = x} {xs = xs} l) (here f) k =
    let lt : x.id < r.id = All-In (λ (y : Row). x.id < y.id) h.0 l in
    let same : r.id ≡ x.id = rw f at k in absurd (omega arith)
same_row h (there l) (there m) k = same_row h.1 l m k

In-under_head :
    {x r q : Row} {zs qs : List Row} → In x (q ∷ zs) → (In x zs → In x (r ∷ qs)) → In x (r ∷ q ∷ qs)
In-under_head (here e) f = there (here e)
In-under_head {r = r} {q = q} {qs = qs} (there l) f = second (f l)
  where
    second : {y : Row} → In y (r ∷ qs) → In y (r ∷ q ∷ qs)
    second (here e) = here e
    second (there m) = there (there m)

In-of_place : (r : Row) {x : Row} (rs : List Row) → In x (place r rs) → In x (r ∷ rs)
unfolding place
In-of_place r [] h = h
In-of_place r {x} (q ∷ qs) h = elim (Bool-cases (row_before r q)) [
  | inl e ↦ rw e at h
  | inr e ↦ In-under_head (rw e at h) (In-of_place r qs)
]

In-of_sort : {x : Row} (rs : List Row) → In x (sort_rows rs) → In x rs
unfolding sort_rows
In-of_sort [] h = h
In-of_sort (r ∷ rs) h = step (In-of_place r (sort_rows rs) h) (In-of_sort rs)
  where
    step : {y : Row} → In y (r ∷ sort_rows rs) → (In y (sort_rows rs) → In y rs) → In y (r ∷ rs)
    step (here e) f = here e
    step (there l) f = there (f l)

In-of_take {ℓ} : {A : Type ℓ} {x : A} (n : ℕ) (xs : List A) → In x (take n xs) → In x xs
In-of_take zero xs h = elim h [ ]
In-of_take (suc n) [] h = h
In-of_take (suc n) (y ∷ xs) (here e) = here e
In-of_take (suc n) (y ∷ xs) (there h) = there (In-of_take n xs h)

-- What `take` returns is in the buffer.
pub In-of_take_oldest : (b : Buffer) (n : ℕ) {x : Row} → In x (take_oldest b n) → In x b.rows
unfolding take_oldest
In-of_take_oldest b n h = In-of_sort b.rows (In-of_take n (sort_rows b.rows) h)

-- `forget` drops only rows of the given ids.
pub In-forget :
    (b : Buffer) (ids : List ℕ) {x : Row}
    → In x b.rows
    → In x (forget b ids).rows ⊎ (any_of (λ i. x.id == i) ids ≡ true)
unfolding forget
In-forget b ids {x} h = elim (Bool-cases (any_of (λ i. x.id == i) ids)) [
  | inl e ↦ inr e
  | inr e ↦ inl (In-keep_if (λ r. not (any_of (λ i. r.id == i) ids)) h (rw e refl))
]

-- An id on a list of taken rows is that of a taken row.
pub id_taken :
    (n : ℕ) (rs : List Row)
    → any_of (λ i. n == i) (map (λ r. r.id) rs) ≡ true
    → (r : Row) × In r rs × (n ≡ r.id)
id_taken n [] h = cc
id_taken n (r ∷ rs) h = elim (Bool-cases (n == r.id)) [
  | inl e ↦ (r, here refl, (==_iff n r.id).0 e)
  | inr e ↦ let (q, l, k) = id_taken n rs (rw e at h) in (q, there l, k)
]
