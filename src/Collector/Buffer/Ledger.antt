-- ===== src/Collector/Buffer/Ledger.antt =====
-- collector/buffer.py, `_enforce_bound`: the discarded rows and the rows of the ledger.
use kpcl_hardware.Common.{ℕ, refl, Option, none, some, List, [], ◌∷◌, In, here, there, All, if_elim}
use kpcl_hardware.Collector.Buffer.{
  Row, LossRow, same_group, widen, new_group, add_to_groups, group_rows,
}
use kpcl_hardware.Collector.Buffer.Loss.{
  Covers, GroupPaired, Paired, Covers-widen, widen-Covers, new_group-Covers, widen-Paired,
}

pub record CoveredIn (gs : List LossRow) (r : Row) : Type 0 where
  pub group : LossRow
  pub listed : In group gs
  pub covers : Covers group r

new_group-GroupPaired : (t : ℕ) (r : Row) → GroupPaired (new_group t r)
unfolding new_group
new_group-GroupPaired t r = same_both r.sample.seq
  where
    same_both : (o : Option ℕ) → Paired o o
    same_both none = tt
    same_both (some n) = tt

add_to_groups-Paired :
    (t : ℕ) (r : Row) (gs : List LossRow)
    → All GroupPaired gs
    → All GroupPaired (add_to_groups t r gs)
unfolding add_to_groups widen
add_to_groups-Paired t r [] h = (new_group-GroupPaired t r, tt)
add_to_groups-Paired t r (g ∷ gs) h =
    if_elim (All GroupPaired) (same_group r g)
      (λ e. (widen-Paired g.first_seq g.last_seq r.sample.seq h.0, h.1))
      (λ e. (h.0, add_to_groups-Paired t r gs h.1))

group_rows-Paired : (t : ℕ) (rs : List Row) → All GroupPaired (group_rows t rs)
unfolding group_rows
group_rows-Paired t [] = tt
group_rows-Paired t (r ∷ rs) = add_to_groups-Paired t r (group_rows t rs) (group_rows-Paired t rs)

CoveredIn-there :
    {r : Row} (g : LossRow) {gs : List LossRow} → CoveredIn gs r → CoveredIn (g ∷ gs) r
CoveredIn-there g c = record { group = c.group; listed = there c.listed; covers = c.covers }

-- The row that joins is covered.
add_to_groups-covers :
    (t : ℕ) (r : Row) (gs : List LossRow) → All GroupPaired gs → CoveredIn (add_to_groups t r gs) r
unfolding add_to_groups
add_to_groups-covers t r [] h = record {
  group = new_group t r;
  listed = here refl;
  covers = new_group-Covers t r;
}
add_to_groups-covers t r (g ∷ gs) h =
    if_elim (λ l. CoveredIn l r) (same_group r g)
      (λ e. record { group = widen r g; listed = here refl; covers = widen-Covers g r e h.0 })
      (λ e. CoveredIn-there g (add_to_groups-covers t r gs h.1))

-- A row that was covered stays covered.
add_to_groups-keeps :
    (t : ℕ) (r q : Row) {g : LossRow} {gs : List LossRow}
    → In g gs
    → Covers g q
    → CoveredIn (add_to_groups t r gs) q
unfolding add_to_groups
add_to_groups-keeps t r q (here {x = x} {xs = xs} e) c =
    if_elim (λ l. CoveredIn l q) (same_group r x)
      (λ s. record {
        group = widen r x;
        listed = here refl;
        covers = Covers-widen x r q (rw e at c);
      })
      (λ s. record { group = x; listed = here refl; covers = rw e at c })
add_to_groups-keeps t r q {g = g} (there {x = x} {xs = xs} k) c =
    if_elim (λ l. CoveredIn l q) (same_group r x)
      (λ s. record { group = g; listed = there k; covers = c })
      (λ s. CoveredIn-there x (add_to_groups-keeps t r q k c))

pub group_rows-covers : (t : ℕ) {r : Row} {rs : List Row} → In r rs → CoveredIn (group_rows t rs) r
unfolding group_rows
group_rows-covers t {r = r} (here {x = x} {xs = xs} e) =
    rw e (add_to_groups-covers t x (group_rows t xs) (group_rows-Paired t xs))
group_rows-covers t {r = r} (there {x = x} {xs = xs} k) =
    let c = group_rows-covers t k in add_to_groups-keeps t x r c.listed c.covers
