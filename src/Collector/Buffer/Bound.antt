-- ===== src/Collector/Buffer/Bound.antt =====
-- collector/buffer.py, `append`: the bound, and what becomes of the rows beyond it.
use mathlib.Core.List.{append-nil}
use kpcl_hardware.Common.{
  ℕ, suc, ◌+◌, ◌-◌, ◌≤◌, Bool, true, ◌≡◌, refl, ◌⊎◌, inl, inr, List, [], ◌∷◌, ◌++◌, leb, length,
  take, any_of, arith, Bool-cases, In, here, there, In-append, In-append_left, In-append_right,
  length-drop, take-append-drop, if_elim,
}
use kpcl_hardware.Collector.Model.{Sample}
use kpcl_hardware.Collector.Buffer.{
  Row, LossRow, Buffer, same_key, insert_or_ignore, insert_all, number_losses, group_rows,
  enforce_bound, append, depth,
}
use kpcl_hardware.Collector.Buffer.Loss.{count_lost, count_lost-group_rows, Covers}
use kpcl_hardware.Collector.Buffer.Ledger.{group_rows-covers}

abbrev pub count_ledger : List (ℕ × LossRow) → ℕ
count_ledger [] = 0
count_ledger ((i, g) ∷ gs) = g.samples + count_ledger gs

count_ledger-append :
    (xs ys : List (ℕ × LossRow)) → count_ledger (xs ++ ys) ≡ count_ledger xs + count_ledger ys
count_ledger-append [] ys = omega arith
count_ledger-append ((i, g) ∷ xs) ys = omega (arith, count_ledger-append xs ys)

count_ledger-number :
    (n : ℕ) (gs : List LossRow) → count_ledger (number_losses n gs) ≡ count_lost gs
unfolding number_losses
count_ledger-number n [] = refl
count_ledger-number n (g ∷ gs) = omega (arith, count_ledger-number (n + 1) gs)

length-take-sub {ℓ} : {A : Type ℓ} (n : ℕ) (xs : List A) → n ≤ length xs → length (take n xs) ≡ n
length-take-sub ℕ.zero xs h = refl
length-take-sub (suc n) [] h = absurd (omega arith)
length-take-sub (suc n) (x ∷ xs) h = omega (arith, length-take-sub n xs)

-- What `_enforce_bound` leaves and reports.
pub record Accounts (b : Buffer) (r : Buffer × ℕ) : Type 0 where
  pub bounded : depth r.0 ≤ b.max_rows
  pub same_bound : r.0.max_rows ≡ b.max_rows
  pub balance : depth r.0 + r.1 ≡ depth b
  pub ledger : count_ledger r.0.lost ≡ count_ledger b.lost + r.1

enforce_bound-Accounts : (b : Buffer) (t : ℕ) → Accounts b (enforce_bound b t)
unfolding enforce_bound
enforce_bound-Accounts b t =
    let excess = length b.rows - b.max_rows in
    let groups = group_rows t (take excess b.rows) in
    if_elim (Accounts b) (leb (length b.rows) b.max_rows)
      (λ e. record {
        bounded = ground arith;
        same_bound = refl;
        balance = omega arith;
        ledger = omega arith;
      })
      (λ e. record {
        bounded = omega (arith, length-drop excess b.rows);
        same_bound = refl;
        balance = ground (arith, length-drop excess b.rows);
        ledger =
            rw (count_ledger-append, count_ledger-number, count_lost-group_rows)
              (ap_add (count_ledger b.lost) (length-take-sub excess b.rows (omega arith)));
      })
  where
    ap_add : (k : ℕ) {x y : ℕ} → x ≡ y → k + x ≡ k + y
    ap_add k e = omega arith

-- If the depth is within the bound, `append` keeps it so, and its count of discarded rows is the depth
-- that is missing, the growth of `overflowed` and the samples that the loss ledger gained.
pub append-Accounts :
    (b : Buffer) (ss : List Sample) (t : ℕ)
    → depth b ≤ b.max_rows
    → let r = append b ss t in
      (depth r.0 ≤ r.0.max_rows)
      × (depth r.0 + r.1 ≡ length (insert_all b.next_id b.rows ss).1)
      × (r.0.overflowed ≡ b.overflowed + r.1)
      × (count_ledger r.0.lost ≡ count_ledger b.lost + r.1)
unfolding append insert_all
append-Accounts b [] t h = (h, omega arith, omega arith, omega arith)
append-Accounts b (s ∷ ss) t h =
    let inserted = insert_all b.next_id b.rows (s ∷ ss) in
    let full : Buffer = record b { rows = inserted.1; next_id = inserted.0 } in
    let a = enforce_bound-Accounts full t in (rw a.same_bound a.bounded, a.balance, refl, a.ledger)

-- A row of the loss ledger covers the row.
pub record CoveredBy (lost : List (ℕ × LossRow)) (r : Row) : Type 0 where
  pub number : ℕ
  pub loss : LossRow
  pub listed : In (number, loss) lost
  pub covers : Covers loss r

In-number_losses :
    {g : LossRow} (n : ℕ) {gs : List LossRow} → In g gs → (k : ℕ) × In (k, g) (number_losses n gs)
unfolding number_losses
In-number_losses n (here {x = x} e) = (n, here (λ i. (n, e i)))
In-number_losses n (there h) = let (k, l) = In-number_losses (n + 1) h in (k, there l)

-- What became of a row that the table held before the bound was enforced.
record Settled (row : Row) (r : Buffer × ℕ) : Type 0 where
  settled : In row r.0.rows ⊎ CoveredBy r.0.lost row

enforce_bound-Settled :
    (b : Buffer) (t : ℕ) (row : Row) → In row b.rows → Settled row (enforce_bound b t)
unfolding enforce_bound
enforce_bound-Settled b t row h =
    let excess = length b.rows - b.max_rows in
    let groups = group_rows t (take excess b.rows) in
    if_elim (Settled row) (leb (length b.rows) b.max_rows) (λ e. record { settled = inl h })
      (λ e. record {
        settled =
            elim (In-append (take excess b.rows) (rw (← take-append-drop excess b.rows) at h)) [
              | inl gone ↦
                  let c = group_rows-covers t gone in
                  let (k, l) = In-number_losses b.next_loss c.listed in
                  inr (record {
                    number = k;
                    loss = c.group;
                    listed = In-append_right b.lost l;
                    covers = c.covers;
                  })
              | inr kept ↦ inl kept
            ];
      })

-- A row under the key of a sample: the sample's own, or the one that its insertion met.
pub record HasKey (s : Sample) (rows : List Row) : Type 0 where
  pub row : Row
  pub listed : In row rows
  pub tag_is : row.sample.tag_id ≡ s.tag_id
  pub ts_is : row.sample.source_ts ≡ s.source_ts

any_of-In {ℓ} :
    {A : Type ℓ} (p : A → Bool) (xs : List A)
    → any_of p xs ≡ true
    → (x : A) × In x xs × (p x ≡ true)
any_of-In p [] h = cc
any_of-In p (x ∷ xs) h = elim (Bool-cases (p x)) [
  | inl e ↦ (x, here refl, e)
  | inr e ↦ let (y, l, q) = any_of-In p xs (rw e at h) in (y, there l, q)
]

insert_or_ignore-HasKey :
    (n : ℕ) (rows : List Row) (s : Sample) → HasKey s (insert_or_ignore n rows s).1
unfolding insert_or_ignore same_key
insert_or_ignore-HasKey n rows s =
    if_elim (λ (r : ℕ × List Row). HasKey s r.1) (any_of (same_key s) rows)
      (λ e.
        let (row, l, k) = any_of-In (same_key s) rows e in
        record { row = row; listed = l; tag_is = ground arith; ts_is = ground arith })
      (λ e. record {
        row = record { id = n; sample = s };
        listed = In-append_right rows (here refl);
        tag_is = refl;
        ts_is = refl;
      })

insert_or_ignore-In :
    (n : ℕ) (rows : List Row) (s : Sample) {r : Row}
    → In r rows
    → In r (insert_or_ignore n rows s).1
unfolding insert_or_ignore
insert_or_ignore-In n rows s {r} h =
    if_elim (λ (q : ℕ × List Row). In r q.1) (any_of (same_key s) rows) (λ e. h)
      (λ e. In-append_left _ h)

pub insert_all-In :
    (n : ℕ) (rows : List Row) (ss : List Sample) {r : Row}
    → In r rows
    → In r (insert_all n rows ss).1
unfolding insert_all
insert_all-In n rows [] h = h
insert_all-In n rows (s ∷ ss) h =
    let r = insert_or_ignore n rows s in insert_all-In r.0 r.1 ss (insert_or_ignore-In n rows s h)

pub insert_all-HasKey :
    {s : Sample} (n : ℕ) (rows : List Row) {ss : List Sample}
    → In s ss
    → HasKey s (insert_all n rows ss).1
unfolding insert_all
insert_all-HasKey n rows (here {x = x} {xs = xs} e) =
    let r = insert_or_ignore n rows x in
    let k = insert_or_ignore-HasKey n rows x in
    record {
      row = k.row;
      listed = insert_all-In r.0 r.1 xs k.listed;
      tag_is = rw e k.tag_is;
      ts_is = rw e k.ts_is;
    }
insert_all-HasKey n rows (there {x = x} {xs = xs} h) =
    let r = insert_or_ignore n rows x in insert_all-HasKey r.0 r.1 h

-- Where a sample's row is: in the buffer, or covered by the loss ledger.
pub record Accounted (s : Sample) (b : Buffer) : Type 0 where
  pub row : Row
  pub tag_is : row.sample.tag_id ≡ s.tag_id
  pub ts_is : row.sample.source_ts ≡ s.source_ts
  pub settled : In row b.rows ⊎ CoveredBy b.lost row

-- A row that the table has when the bound is enforced.
pub inserted-Settled :
    (b : Buffer) (ss : List Sample) (t : ℕ) {row : Row}
    → In row (insert_all b.next_id b.rows ss).1
    → In row (append b ss t).0.rows ⊎ CoveredBy (append b ss t).0.lost row
unfolding append insert_all
inserted-Settled b [] t h = inl h
inserted-Settled b (x ∷ xs) t {row} h =
    let inserted = insert_all b.next_id b.rows (x ∷ xs) in
    let full : Buffer = record b { rows = inserted.1; next_id = inserted.0 } in
    (enforce_bound-Settled full t row h).settled

pub append-Accounted :
    (b : Buffer) (ss : List Sample) (t : ℕ) {s : Sample} → In s ss → Accounted s (append b ss t).0
append-Accounted b ss t {s} h =
    let k = insert_all-HasKey b.next_id b.rows h in
    record {
      row = k.row;
      tag_is = k.tag_is;
      ts_is = k.ts_is;
      settled = inserted-Settled b ss t k.listed;
    }

-- A row of the buffer stays there under `append`, or the loss ledger covers it.
pub append-Settled :
    (b : Buffer) (ss : List Sample) (t : ℕ) {row : Row}
    → In row b.rows
    → In row (append b ss t).0.rows ⊎ CoveredBy (append b ss t).0.lost row
append-Settled b ss t h = inserted-Settled b ss t (insert_all-In b.next_id b.rows ss h)

CoveredBy-append :
    {r : Row} {lost : List (ℕ × LossRow)} (more : List (ℕ × LossRow))
    → CoveredBy lost r
    → CoveredBy (lost ++ more) r
CoveredBy-append more c = record {
  number = c.number;
  loss = c.loss;
  listed = In-append_left more c.listed;
  covers = c.covers;
}

-- `append` only adds to the loss ledger.
record LedgerGrows (b : Buffer) (r : Buffer × ℕ) : Type 0 where
  more : List (ℕ × LossRow)
  lost_is : r.0.lost ≡ b.lost ++ more

enforce_bound-LedgerGrows : (b : Buffer) (t : ℕ) → LedgerGrows b (enforce_bound b t)
unfolding enforce_bound
enforce_bound-LedgerGrows b t =
    let groups = group_rows t (take (length b.rows - b.max_rows) b.rows) in
    if_elim (LedgerGrows b) (leb (length b.rows) b.max_rows)
      (λ e. record { more = []; lost_is = rw append-nil refl })
      (λ e. record { more = number_losses b.next_loss groups; lost_is = refl })

pub append-CoveredBy :
    (b : Buffer) (ss : List Sample) (t : ℕ) {r : Row}
    → CoveredBy b.lost r
    → CoveredBy (append b ss t).0.lost r
unfolding append
append-CoveredBy b [] t c = c
append-CoveredBy b (x ∷ xs) t c =
    let inserted = insert_all b.next_id b.rows (x ∷ xs) in
    let g = enforce_bound-LedgerGrows (record b { rows = inserted.1; next_id = inserted.0 }) t in
    rw g.lost_is (CoveredBy-append g.more c)
