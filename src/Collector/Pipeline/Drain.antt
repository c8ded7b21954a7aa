-- ===== src/Collector/Pipeline/Drain.antt =====
-- collector/pipeline.py, `drain` and `_forward_losses`: rows and loss rows on their way to the archive.
use kpcl_hardware.Common.{
  ℕ, true, ◌≡◌, refl, ◌∙◌, sym, ap, ◌⊎◌, inl, inr, List, [], ◌∷◌, map, ◌==◌, In, here, there,
  if_elim,
}
use kpcl_hardware.Collector.Model.{Sample}
use kpcl_hardware.Collector.Buffer
use kpcl_hardware.Collector.Buffer.{Row, LossRow, Buffer}
use kpcl_hardware.Collector.Buffer.Ids.{IdsValid, same_row, In-forget, id_taken}
use kpcl_hardware.Collector.Sink.{
  Archives, Reply, committed, unavailable, unacknowledged, write, insert_losses,
}
use kpcl_hardware.Collector.Sink.Losses.{HasRange-insert_losses, insert_losses-HasRange}
use kpcl_hardware.Collector.Sink.Idempotent.{write_samples-In, write_samples-Archives}
use kpcl_hardware.Collector.Pipeline.{
  Pipeline, take_queued, forward_losses, buffer_queued, arrived_while_draining, forget_rows,
}
use kpcl_hardware.Collector.Pipeline.Keep.{Kept, queued, buffered, archived, lost_here, lost_sent}
use kpcl_hardware.Collector.Pipeline.Secure.{Carries, Sound, Flying, buffer_batch-Sound}

-- The rows of one archive are all in another.
abbrev Grown : List Sample → List Sample → Type 0
Grown a b = (x : Sample) → In x a → In x b

write-Grown :
    (reply : Reply) (archive batch : List Sample) → Grown archive (write reply archive batch).0
unfolding write
write-Grown reply archive [] x h = h
write-Grown committed archive (s ∷ ss) x h = write_samples-In archive (s ∷ ss) h
write-Grown unavailable archive (s ∷ ss) x h = h
write-Grown unacknowledged archive (s ∷ ss) x h = write_samples-In archive (s ∷ ss) h

-- A write that the caller saw succeed has put every key of the batch into the archive.
pub write-Archives :
    (reply : Reply) (archive batch : List Sample) {s : Sample}
    → (write reply archive batch).1 ≡ true
    → In s batch
    → Archives s.tag_id s.source_ts (write reply archive batch).0
unfolding write
write-Archives reply archive [] e h = elim h [ ]
write-Archives committed archive (s ∷ ss) e h = write_samples-Archives archive h
write-Archives unavailable archive (s ∷ ss) e h = cc
write-Archives unacknowledged archive (s ∷ ss) e h = cc

Kept-archive :
    {tag ts : ℕ} {p : Pipeline} (archive : List Sample)
    → Grown p.archive archive
    → Kept tag ts p
    → Kept tag ts (record p { archive = archive })
Kept-archive archive g (queued s l t u) = queued s l t u
Kept-archive archive g (buffered r l t u) = buffered r l t u
Kept-archive archive g (archived a) =
    archived (record { row = a.row; listed = g a.row a.listed; tag_is = a.tag_is; ts_is = a.ts_is })
Kept-archive archive g (lost_here r c t u) = lost_here r c t u
Kept-archive archive g (lost_sent r h l c t u) = lost_sent r h l c t u

pub write-Sound :
    {tag ts : ℕ} {p : Pipeline} (reply : Reply) (batch : List Sample)
    → Sound tag ts p
    → Sound tag ts (record p { archive = (write reply p.archive batch).0 })
write-Sound {p = p} reply batch s = record {
  ids = s.ids;
  kept = Kept-archive (write reply p.archive batch).0 (write-Grown reply p.archive batch) s.kept;
}

pub In-map {ℓ κ} :
    {A : Type ℓ} {B : Type κ} (f : A → B) {x : A} {xs : List A} → In x xs → In (f x) (map f xs)
In-map f (here e) = here (ap f e)
In-map f (there h) = there (In-map f h)

Kept-sent :
    {tag ts : ℕ} {p : Pipeline} (b : Buffer)
    → b.rows ≡ p.buffer.rows
    → Kept tag ts p
    → Kept tag ts (record p {
      collector_loss = insert_losses p.collector_loss (map (λ l. l.1) p.buffer.lost);
      buffer = b;
    })
Kept-sent b e (queued s l t u) = queued s l t u
Kept-sent b e (buffered r l t u) = buffered r (rw e l) t u
Kept-sent b e (archived a) = archived a
Kept-sent {p = p} b e (lost_here r c t u) =
    lost_sent r c.loss (insert_losses-HasRange p.collector_loss (In-map (λ l. l.1) c.listed))
      c.covers t u
Kept-sent {p = p} b e (lost_sent r g l c t u) =
    lost_sent r g (HasRange-insert_losses p.collector_loss _ l) c t u

pub forward_losses-Sound :
    {tag ts : ℕ} (p : Pipeline) (reply : Reply)
    → Sound tag ts p
    → Sound tag ts (forward_losses p reply)
unfolding forward_losses Buffer.forget_losses
forward_losses-Sound {tag} {ts} p reply s =
    if_elim (Sound tag ts) (Buffer.pending_losses p.buffer == 0) (λ e. s) (λ e. answer reply)
  where
    sent : Pipeline
    sent = record p {
      collector_loss = insert_losses p.collector_loss (map (λ l. l.1) p.buffer.lost);
    }

    cleared : Buffer
    cleared = Buffer.forget_losses p.buffer (map (λ l. l.0) p.buffer.lost)

    answer :
        (r : Reply)
        → Sound tag ts (elim r [
          | committed ↦ record sent { buffer = cleared }
          | unavailable ↦ p
          | unacknowledged ↦ sent
        ])
    answer committed = record {
      ids = record { ascend = s.ids.ascend; below = s.ids.below };
      kept = Kept-sent cleared refl s.kept;
    }
    answer unavailable = s
    answer unacknowledged = record { ids = s.ids; kept = Kept-sent p.buffer refl s.kept }

pub Flying-take :
    (tag ts : ℕ) (p : Pipeline) → Sound tag ts p → Flying tag ts p.incoming (take_queued p).0
unfolding take_queued
Flying-take tag ts p s = record { ids = s.ids; kept = taken s.kept }
  where
    taken : Kept tag ts p → Kept tag ts (record p { incoming = [] }) ⊎ Carries tag ts p.incoming
    taken (queued x l t u) = inr (record { sample = x; listed = l; tag_is = t; ts_is = u })
    taken (buffered r l t u) = inl (buffered r l t u)
    taken (archived a) = inl (archived a)
    taken (lost_here r c t u) = inl (lost_here r c t u)
    taken (lost_sent r g l c t u) = inl (lost_sent r g l c t u)

pub List-cases {ℓ} :
    {A : Type ℓ} (xs : List A) → (xs ≡ []) ⊎ ((x : A) × (rest : List A) × (xs ≡ x ∷ rest))
List-cases [] = inl refl
List-cases (x ∷ xs) = inr (x, xs, refl)

pub buffer_queued-Sound :
    {tag ts : ℕ} (p : Pipeline) (now : ℕ) → Sound tag ts p → Sound tag ts (buffer_queued p now)
unfolding buffer_queued
buffer_queued-Sound {tag} {ts} p now s = elim (List-cases p.incoming) [
  | inl e ↦ rw (e, buffer_queued) s
  | inr (x, xs, e) ↦
      rw (e, buffer_queued)
        (buffer_batch-Sound tag ts (take_queued p).0 (x ∷ xs) arrived_while_draining now
          (rw e at (Flying-take tag ts p s)))
]

-- Forgetting the rows whose keys the archive has.
pub forget_rows-Kept :
    {tag ts : ℕ} (p : Pipeline) (rows : List Row) (now : ℕ)
    → IdsValid p.buffer
    → ((r : Row)
        → In r rows
        → In r p.buffer.rows × Archives r.sample.tag_id r.sample.source_ts p.archive)
    → Kept tag ts p
    → Kept tag ts (forget_rows p rows now)
unfolding forget_rows Buffer.forget
forget_rows-Kept p rows now v stored (queued s l t u) = queued s l t u
forget_rows-Kept p rows now v stored (buffered r l t u) =
    elim (In-forget p.buffer (map (λ x. x.id) rows) l) [
      | inl k ↦ buffered r k t u
      | inr e ↦
          let (q, m, same) = id_taken r.id rows e in
          let row_is : r ≡ q = same_row v.ascend l (stored q m).0 same in
          let a = (stored q m).1 in
          archived (record {
            row = a.row;
            listed = a.listed;
            tag_is = a.tag_is ∙ (ap (λ (x : Row). x.sample.tag_id) (sym row_is) ∙ t);
            ts_is = a.ts_is ∙ (ap (λ (x : Row). x.sample.source_ts) (sym row_is) ∙ u);
          })
    ]
forget_rows-Kept p rows now v stored (archived a) = archived a
forget_rows-Kept p rows now v stored (lost_here r c t u) = lost_here r c t u
forget_rows-Kept p rows now v stored (lost_sent r g l c t u) = lost_sent r g l c t u
