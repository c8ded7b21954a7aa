-- ===== src/Collector/Buffer/Loss.antt =====
-- collector/buffer.py, `_enforce_bound`: what the loss ledger says of the discarded rows.
use kpcl_hardware.Common.{
  ℕ, suc, ◌+◌, ◌≤◌, true, ◌≡◌, refl, Option, none, some, List, [], ◌∷◌, leb, length, arith,
  if◌then◌else◌,
}
use kpcl_hardware.Collector.Buffer.{
  Row, LossRow, eq_opt, same_group, widen, min_opt, max_opt, new_group, add_to_groups, group_rows,
}

abbrev pub count_lost : List LossRow → ℕ
count_lost [] = 0
count_lost (g ∷ gs) = g.samples + count_lost gs

count_lost-add_to_groups :
    (t : ℕ) (r : Row) (gs : List LossRow) → count_lost (add_to_groups t r gs) ≡ suc (count_lost gs)
unfolding add_to_groups widen new_group
count_lost-add_to_groups t r [] = omega arith
count_lost-add_to_groups t r (g ∷ gs) = ground (arith, count_lost-add_to_groups t r gs)

-- The ledger's counts add up to the rows that were grouped.
pub count_lost-group_rows : (t : ℕ) (rs : List Row) → count_lost (group_rows t rs) ≡ length rs
unfolding group_rows
count_lost-group_rows t [] = refl
count_lost-group_rows t (r ∷ rs) =
    omega (arith, count_lost-add_to_groups t r (group_rows t rs), count_lost-group_rows t rs)

eq_opt→eq : (a b : Option ℕ) → eq_opt a b ≡ true → a ≡ b
eq_opt→eq none none h = refl
eq_opt→eq (some a) (some b) h = ground arith
eq_opt→eq none (some b) h = cc
eq_opt→eq (some a) none h = cc

-- A number lies between two optional bounds, both of which are there.
pub record Between (lo hi : Option ℕ) (n : ℕ) : Type 0 where
  pub low : ℕ
  pub high : ℕ
  pub lo_is : lo ≡ some low
  pub hi_is : hi ≡ some high
  pub from_low : low ≤ n
  pub to_high : n ≤ high

-- A ledger row speaks for a buffered row: its run and tag, a span of time that contains its
-- timestamp, and a span of sequence numbers that contains its number.
pub record Covers (g : LossRow) (r : Row) : Type 0 where
  pub run_is : g.run ≡ r.sample.run
  pub tag_is : g.tag_id ≡ r.sample.tag_id
  pub after_first : g.first_us ≤ r.sample.source_ts
  pub before_last : r.sample.source_ts ≤ g.last_us
  pub seq_in : (n : ℕ) → r.sample.seq ≡ some n → Between g.first_seq g.last_seq n

widen_seq :
    (lo hi new : Option ℕ) (n : ℕ) → Between lo hi n → Between (min_opt lo new) (max_opt hi new) n
unfolding min_opt max_opt
widen_seq lo hi none n b = record {
  low = b.low;
  high = b.high;
  lo_is = rw (b.lo_is, min_opt) refl;
  hi_is = rw (b.hi_is, max_opt) refl;
  from_low = b.from_low;
  to_high = b.to_high;
}
widen_seq lo hi (some m) n b = record {
  low = if leb b.low m then b.low else m;
  high = if leb b.high m then m else b.high;
  lo_is = rw (b.lo_is, min_opt) refl;
  hi_is = rw (b.hi_is, max_opt) refl;
  from_low = ground (arith, b.from_low);
  to_high = ground (arith, b.to_high);
}

-- A new number lies in the widened span, if the old span is whole or empty.
abbrev pub Paired : Option ℕ → Option ℕ → Type 0
Paired none none = Unit
Paired (some a) (some b) = Unit
Paired _ _ = ⊥

new_seq :
    (lo hi : Option ℕ) (n : ℕ)
    → Paired lo hi
    → Between (min_opt lo (some n)) (max_opt hi (some n)) n
unfolding min_opt max_opt
new_seq none none n p = record {
  low = n;
  high = n;
  lo_is = refl;
  hi_is = refl;
  from_low = omega arith;
  to_high = omega arith;
}
new_seq (some a) (some b) n p = record {
  low = if leb a n then a else n;
  high = if leb b n then n else b;
  lo_is = refl;
  hi_is = refl;
  from_low = ground arith;
  to_high = ground arith;
}
new_seq none (some b) n p = absurd p
new_seq (some a) none n p = absurd p

pub widen-Paired : (lo hi new : Option ℕ) → Paired lo hi → Paired (min_opt lo new) (max_opt hi new)
unfolding min_opt max_opt
widen-Paired none none none p = tt
widen-Paired none none (some m) p = tt
widen-Paired (some a) (some b) none p = tt
widen-Paired (some a) (some b) (some m) p = tt
widen-Paired none (some b) new p = absurd p
widen-Paired (some a) none new p = absurd p

abbrev pub GroupPaired : LossRow → Type 0
GroupPaired g = Paired g.first_seq g.last_seq

pub Covers-widen : (g : LossRow) (r q : Row) → Covers g q → Covers (widen r g) q
unfolding widen
Covers-widen g r q c = record {
  run_is = c.run_is;
  tag_is = c.tag_is;
  after_first = ground (arith, c.after_first);
  before_last = ground (arith, c.before_last);
  seq_in = λ n e. widen_seq g.first_seq g.last_seq r.sample.seq n (c.seq_in n e);
}

pub widen-Covers :
    (g : LossRow) (r : Row) → same_group r g ≡ true → GroupPaired g → Covers (widen r g) r
unfolding widen same_group
widen-Covers g r h p = record {
  run_is = eq_opt→eq g.run r.sample.run (ground arith);
  tag_is = ground arith;
  after_first = ground arith;
  before_last = ground arith;
  seq_in = λ n e. rw e (new_seq g.first_seq g.last_seq n p);
}

pub new_group-Covers : (t : ℕ) (r : Row) → Covers (new_group t r) r
unfolding new_group
new_group-Covers t r = record {
  run_is = refl;
  tag_is = refl;
  after_first = omega arith;
  before_last = omega arith;
  seq_in = λ n e. record {
    low = n;
    high = n;
    lo_is = e;
    hi_is = e;
    from_low = omega arith;
    to_high = omega arith;
  };
}
