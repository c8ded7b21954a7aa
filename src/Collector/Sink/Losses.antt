-- ===== src/Collector/Sink/Losses.antt =====
-- collector/sink.py, `write_losses`: the ranges that the archive has.
use kpcl_hardware.Common.{
  true, ◌≡◌, refl, inl, inr, List, [], ◌∷◌, any_of, In, here, there, arith, Bool-cases,
  In-append_left, In-append_right, if_elim,
}
use kpcl_hardware.Collector.Buffer.{LossRow}
use kpcl_hardware.Collector.Sink.{same_range, insert_loss, insert_losses, HasRange}

same_range-HasRange :
    (g : LossRow) (table : List LossRow) → any_of (same_range g) table ≡ true → HasRange g table
unfolding same_range
same_range-HasRange g [] h = cc
same_range-HasRange g (r ∷ table) h = elim (Bool-cases (same_range g r)) [
  | inl e ↦ record { row = r; listed = here refl; tag_is = ground arith; first_is = ground arith }
  | inr e ↦
      let a = same_range-HasRange g table (rw e at h) in
      record { row = a.row; listed = there a.listed; tag_is = a.tag_is; first_is = a.first_is }
]

insert_loss-In :
    (table : List LossRow) (g : LossRow) {x : LossRow} → In x table → In x (insert_loss table g)
unfolding insert_loss
insert_loss-In table g {x} h =
    if_elim (In x) (any_of (same_range g) table) (λ e. h) (λ e. In-append_left (g ∷ []) h)

insert_loss-HasRange : (table : List LossRow) (g : LossRow) → HasRange g (insert_loss table g)
unfolding insert_loss
insert_loss-HasRange table g =
    if_elim (HasRange g) (any_of (same_range g) table) (same_range-HasRange g table) (λ e. record {
      row = g;
      listed = In-append_right table (here refl);
      tag_is = refl;
      first_is = refl;
    })

-- A range that the archive has stays as it is.
insert_losses-In :
    (table gs : List LossRow) {x : LossRow} → In x table → In x (insert_losses table gs)
unfolding insert_losses
insert_losses-In table [] h = h
insert_losses-In table (g ∷ gs) h =
    insert_losses-In (insert_loss table g) gs (insert_loss-In table g h)

pub HasRange-insert_losses :
    {g : LossRow} (table gs : List LossRow) → HasRange g table → HasRange g (insert_losses table gs)
HasRange-insert_losses table gs h = record {
  row = h.row;
  listed = insert_losses-In table gs h.listed;
  tag_is = h.tag_is;
  first_is = h.first_is;
}

-- A range that was sent, or one of its tag and first timestamp, is in the archive.
pub insert_losses-HasRange :
    {g : LossRow} (table : List LossRow) {gs : List LossRow}
    → In g gs
    → HasRange g (insert_losses table gs)
unfolding insert_losses
insert_losses-HasRange {g} table (here {x = x} {xs = xs} e) =
    let h = HasRange-insert_losses (insert_loss table x) xs (insert_loss-HasRange table x) in
    record { row = h.row; listed = h.listed; tag_is = rw e h.tag_is; first_is = rw e h.first_is }
insert_losses-HasRange table (there {x = x} {xs = xs} h) =
    insert_losses-HasRange (insert_loss table x) h
