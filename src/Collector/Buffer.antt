-- ===== src/Collector/Buffer.antt =====
-- collector/buffer.py: the bounded store-and-forward buffer. A SQLite table is the list of its rows
-- in the order of their ids, which AUTOINCREMENT makes the order of insertion; each SQL statement of
-- the source is the list function that it denotes. A transaction that raises is rolled back.
pub mod Loss
pub mod Ledger
pub mod Bound
pub mod Ids
pub mod Replay
use kpcl_hardware.Common.{
  ℕ, zero, suc, ◌+◌, ◌-◌, ◌*◌, Bool, true, false, not, ◌&&◌, Option, none, some, List, [], ◌∷◌,
  ◌++◌, ltb, leb, ◌==◌, if◌then◌else◌, length, take, drop, keep_if, any_of, map,
}
use kpcl_hardware.Collector.Model.{Sample}

-- A row of `buffered`; `to_us` and `from_us` are the identity on timestamps in microseconds.
pub record Row : Type 0 where
  pub id : ℕ
  pub sample : Sample

-- A row of `lost`; its reason is always 'buffer_overflow'.
pub record LossRow : Type 0 where
  pub run : Option ℕ
  pub tag_id : ℕ
  pub first_us : ℕ
  pub last_us : ℕ
  pub first_seq : Option ℕ
  pub last_seq : Option ℕ
  pub samples : ℕ
  pub detected_us : ℕ

-- `warn_num / warn_den` is warn_fraction.
pub record Buffer : Type 0 where
  pub max_rows : ℕ
  pub warn_num : ℕ
  pub warn_den : ℕ
  pub rows : List Row
  pub next_id : ℕ
  pub lost : List (ℕ × LossRow)
  pub next_loss : ℕ
  pub overflowed : ℕ
  pub warned : Bool

abbrev pub eq_opt : Option ℕ → Option ℕ → Bool
eq_opt none none = true
eq_opt (some a) (some b) = a == b
eq_opt _ _ = false

-- The row's key clashes with the UNIQUE (tag_id, source_us) of the table.
unfoldable pub same_key : Sample → Row → Bool
same_key s r = r.sample.tag_id == s.tag_id && r.sample.source_ts == s.source_ts

-- One INSERT OR IGNORE.
unfoldable pub insert_or_ignore : ℕ → List Row → Sample → ℕ × List Row
unfolding same_key
insert_or_ignore next rows s =
    if any_of (same_key s) rows
    then (next, rows)
    else (next + 1, rows ++ record { id = next; sample = s } ∷ [])

-- The `executemany` of `append`.
unfoldable pub insert_all : ℕ → List Row → List Sample → ℕ × List Row
unfolding insert_or_ignore
insert_all next rows [] = (next, rows)
insert_all next rows (s ∷ ss) = let r = insert_or_ignore next rows s in insert_all r.0 r.1 ss

-- SQL's min and max of a column, which pass over NULL.
unfoldable pub min_opt : Option ℕ → Option ℕ → Option ℕ
min_opt none b = b
min_opt (some a) none = some a
min_opt (some a) (some b) = some (if leb a b then a else b)

unfoldable pub max_opt : Option ℕ → Option ℕ → Option ℕ
max_opt none b = b
max_opt (some a) none = some a
max_opt (some a) (some b) = some (if leb a b then b else a)

-- One row joins its group of GROUP BY run, tag_id.
unfoldable pub same_group : Row → LossRow → Bool
same_group r g = eq_opt g.run r.sample.run && g.tag_id == r.sample.tag_id

unfoldable pub widen : Row → LossRow → LossRow
unfolding min_opt max_opt
widen r g = record g {
  first_us = if leb g.first_us r.sample.source_ts then g.first_us else r.sample.source_ts;
  last_us = if leb g.last_us r.sample.source_ts then r.sample.source_ts else g.last_us;
  first_seq = min_opt g.first_seq r.sample.seq;
  last_seq = max_opt g.last_seq r.sample.seq;
  samples = g.samples + 1;
}

unfoldable pub new_group : ℕ → Row → LossRow
new_group detected r = record {
  run = r.sample.run;
  tag_id = r.sample.tag_id;
  first_us = r.sample.source_ts;
  last_us = r.sample.source_ts;
  first_seq = r.sample.seq;
  last_seq = r.sample.seq;
  samples = 1;
  detected_us = detected;
}

unfoldable pub add_to_groups : ℕ → Row → List LossRow → List LossRow
unfolding same_group widen new_group
add_to_groups detected r [] = new_group detected r ∷ []
add_to_groups detected r (g ∷ gs) =
    if same_group r g then widen r g ∷ gs else g ∷ add_to_groups detected r gs

-- The SELECT ... GROUP BY of `_enforce_bound`.
unfoldable pub group_rows : ℕ → List Row → List LossRow
unfolding add_to_groups
group_rows detected [] = []
group_rows detected (r ∷ rs) = add_to_groups detected r (group_rows detected rs)

unfoldable pub number_losses : ℕ → List LossRow → List (ℕ × LossRow)
number_losses next [] = []
number_losses next (g ∷ gs) = (next, g) ∷ number_losses (next + 1) gs

-- `_enforce_bound`, at the clock's reading `detected`: the buffer and how many rows went.
unfoldable pub enforce_bound : Buffer → ℕ → Buffer × ℕ
unfolding group_rows number_losses
enforce_bound b detected =
    let excess = length b.rows - b.max_rows in
    let groups = group_rows detected (take excess b.rows) in
    if leb (length b.rows) b.max_rows then (b, 0) else (
      record b {
        rows = drop excess b.rows;
        lost = b.lost ++ number_losses b.next_loss groups;
        next_loss = b.next_loss + length groups;
      },
      excess,
    )

-- `append`
unfoldable pub append : Buffer → List Sample → ℕ → Buffer × ℕ
unfolding insert_all enforce_bound
append b [] detected = (b, 0)
append b (s ∷ ss) detected =
    let inserted = insert_all b.next_id b.rows (s ∷ ss) in
    let bounded = enforce_bound (record b { rows = inserted.1; next_id = inserted.0 }) detected in
    (record (bounded.0) { overflowed = b.overflowed + bounded.1 }, bounded.1)

abbrev pub depth : Buffer → ℕ
depth b = length b.rows

-- `fraction_full >= warn_fraction`; an unbounded buffer (max_rows = 0) reads 0.0.
unfoldable pub over_threshold : Buffer → Bool
over_threshold b =
    if b.max_rows == 0
    then b.warn_num == 0
    else leb (b.warn_num * b.max_rows) (depth b * b.warn_den)

-- `over_high_water`
unfoldable pub over_high_water : Buffer → Buffer × Bool
unfolding over_threshold
over_high_water b =
    if over_threshold b && not b.warned
    then (record b { warned = true }, true)
    else if not (over_threshold b)
    then (record b { warned = false }, false)
    else (b, false)

-- ORDER BY source_us, id
unfoldable pub row_before : Row → Row → Bool
row_before r q =
    if ltb r.sample.source_ts q.sample.source_ts
    then true
    else r.sample.source_ts == q.sample.source_ts && leb r.id q.id

unfoldable pub place : Row → List Row → List Row
unfolding row_before
place r [] = r ∷ []
place r (q ∷ qs) = if row_before r q then r ∷ q ∷ qs else q ∷ place r qs

unfoldable pub sort_rows : List Row → List Row
unfolding place
sort_rows [] = []
sort_rows (r ∷ rs) = place r (sort_rows rs)

-- `take`
unfoldable pub take_oldest : Buffer → ℕ → List Row
unfolding sort_rows
take_oldest b limit = take limit (sort_rows b.rows)

-- `forget`: DELETE WHERE id = ? for each id.
unfoldable pub forget : Buffer → List ℕ → Buffer
forget b ids = record b { rows = keep_if (λ r. not (any_of (λ i. r.id == i) ids)) b.rows }

-- `pending_losses`
unfoldable pub pending_losses : Buffer → ℕ
pending_losses b = length b.lost

-- `forget_losses`
unfoldable pub forget_losses : Buffer → List ℕ → Buffer
forget_losses b ids = record b { lost = keep_if (λ l. not (any_of (λ i. l.0 == i) ids)) b.lost }
