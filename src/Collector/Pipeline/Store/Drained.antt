-- ===== src/Collector/Pipeline/Store/Drained.antt =====
-- collector/pipeline.py, `drain` and `_buffer`, on the store of the archive and the buffer together.
use kpcl_hardware.Common.{
  ℕ, ◌+◌, ◌≡◌, ◌∙◌, refl, ap, true, false, Bool, Option, List, [], ◌∷◌, map, ◌==◌, length, All, In,
  keep_if, here, there, Bool-cases, ◌⊎◌, inl, inr, if_elim,
}
use kpcl_hardware.Collector.Model.{Sample}
use kpcl_hardware.Collector.Buffer
use kpcl_hardware.Collector.Buffer.{Row, Buffer}
use kpcl_hardware.Collector.Buffer.Ids.{IdsValid, forget-IdsValid, In-of_take_oldest}
use kpcl_hardware.Collector.Sink.{
  Reply, committed, unavailable, unacknowledged, write, write_samples,
}
use kpcl_hardware.Collector.Pipeline.Drain.{List-cases}
use kpcl_hardware.Collector.Pipeline.Secure.{set_link-SameStores}
use kpcl_hardware.Collector.Pipeline.{
  Pipeline, Round, DrainEnd, emptied, interrupted, waiting, forget_rows, write_rows, end_round,
  drain_loop, on_samples, finish_drain, forward_losses, drain, set_link, emit, buffer_drain_started,
}
use kpcl_hardware.Collector.Pipeline.Empty.{buffer_queued-none, forward_losses-rows}
use kpcl_hardware.Collector.Pipeline.Store.{
  found, or_else, samples, or_else_assoc, OneEach, taken-or_else-rows, taken-or_else-left,
}
use kpcl_hardware.Collector.Pipeline.Store.Insert.{found-write_samples}

-- What the store has under a key: the archive's row, or else the buffer's.
unfoldable pub visible : ℕ → ℕ → Pipeline → Option Sample
unfolding found or_else
visible tag ts p = or_else (found tag ts p.archive) (found tag ts (samples p.buffer.rows))

-- No sample arrives while the round's write is awaited; the archive may answer in any way.
pub record Quiet (r : Round) : Type 0 where
  pub quiet : r.arrivals ≡ []

-- The buffer's table: no key twice, and ids in order.
pub record Tabled (b : Buffer) : Type 0 where
  pub one_each : OneEach b.rows
  pub ids : IdsValid b

-- Two pipelines with the same store.
record Same (p q : Pipeline) : Type 0 where
  archive_is : q.archive ≡ p.archive
  rows_is : q.buffer.rows ≡ p.buffer.rows

Same-visible : (tag ts : ℕ) {p q : Pipeline} → Same p q → visible tag ts q ≡ visible tag ts p
unfolding visible
Same-visible tag ts s = rw (s.archive_is, s.rows_is) refl

losses_archive : (p : Pipeline) (reply : Reply) → (forward_losses p reply).archive ≡ p.archive
unfolding forward_losses
losses_archive p committed = elim (Bool-cases (Buffer.pending_losses p.buffer == 0)) [
  | inl e ↦ rw e refl
  | inr e ↦ rw e refl
]
losses_archive p unavailable = elim (Bool-cases (Buffer.pending_losses p.buffer == 0)) [
  | inl e ↦ rw e refl
  | inr e ↦ rw e refl
]
losses_archive p unacknowledged = elim (Bool-cases (Buffer.pending_losses p.buffer == 0)) [
  | inl e ↦ rw e refl
  | inr e ↦ rw e refl
]

forward_losses-Same : (p : Pipeline) (reply : Reply) → Same p (forward_losses p reply)
forward_losses-Same p reply = record {
  archive_is = losses_archive p reply;
  rows_is = forward_losses-rows p reply;
}

In_under :
    {x : Row} (r : Row) (rows : List Row) {qs : List Row}
    → In x (r ∷ qs)
    → (In x qs → In x rows)
    → In x (r ∷ rows)
In_under r rows (here e) f = here e
In_under r rows (there l) f = there (f l)

In-of_keep_if : (p : Row → Bool) {x : Row} (rows : List Row) → In x (keep_if p rows) → In x rows
In-of_keep_if p [] l = l
In-of_keep_if p {x} (r ∷ rows) l = elim (Bool-cases (p r)) [
  | inl e ↦ In_under r rows (rw e at l) (In-of_keep_if p rows)
  | inr e ↦ there (In-of_keep_if p rows (rw e at l))
]

forget-Tabled : (b : Buffer) (is : List ℕ) → Tabled b → Tabled (Buffer.forget b is)
unfolding Buffer.forget
forget-Tabled b is t = record {
  one_each = λ tag ts r q l m k j.
      t.one_each tag ts r q (In-of_keep_if _ b.rows l) (In-of_keep_if _ b.rows m) k j;
  ids = forget-IdsValid b is t.ids;
}

Reply-cases : (r : Reply) → (r ≡ committed) ⊎ (r ≡ unavailable) ⊎ (r ≡ unacknowledged)
Reply-cases committed = inl refl
Reply-cases unavailable = inr (inl refl)
Reply-cases unacknowledged = inr (inr refl)

module _ (tag ts : ℕ) where
  -- A batch of buffered rows that the archive has, with or without the buffer forgetting it.
  written_left :
      (archive : List Sample) (b : Buffer) (taken : List Row)
      → Tabled b
      → ((x : Row) → In x taken → In x b.rows)
      → or_else
          (found tag ts (write_samples archive (samples taken)))
          (found tag ts (samples (Buffer.forget b (map (λ r. r.id) taken)).rows))
        ≡ or_else (found tag ts archive) (found tag ts (samples b.rows))
  unfolding Buffer.forget
  written_left archive b taken t part = rw (found-write_samples tag ts archive (samples taken)) (
      or_else_assoc (found tag ts archive) (found tag ts (samples taken)) _
      ∙ ap (or_else (found tag ts archive))
          (taken-or_else-left tag ts b.rows taken t.one_each t.ids.ascend part))

  written_kept :
      (archive : List Sample) (b : Buffer) (taken : List Row)
      → Tabled b
      → ((x : Row) → In x taken → In x b.rows)
      → or_else
          (found tag ts (write_samples archive (samples taken)))
          (found tag ts (samples b.rows))
        ≡ or_else (found tag ts archive) (found tag ts (samples b.rows))
  written_kept archive b taken t part = rw (found-write_samples tag ts archive (samples taken)) (
      or_else_assoc (found tag ts archive) (found tag ts (samples taken)) _
      ∙ ap (or_else (found tag ts archive))
          (taken-or_else-rows tag ts b.rows taken t.one_each t.ids.ascend part))

  unlinked_visible : (p : Pipeline) → visible tag ts (set_link p false) ≡ visible tag ts p
  unlinked_visible p =
      let s = set_link-SameStores p false in
      Same-visible tag ts
        (record { archive_is = s.archive_is; rows_is = ap (λ (b : Buffer). b.rows) s.buffer_is })

  drain_loop-visible :
      (rounds : List Round) (p : Pipeline) (replayed : ℕ)
      → p.incoming ≡ []
      → All Quiet rounds
      → Tabled p.buffer
      → visible tag ts (drain_loop rounds p replayed).0 ≡ visible tag ts p
  unfolding drain_loop end_round write_rows on_samples write forget_rows visible
  drain_loop-visible [] p replayed i u t = refl
  drain_loop-visible (r ∷ rounds) p replayed i u t =
      rw (buffer_queued-none p r.now i)
        (elim (List-cases (Buffer.take_oldest p.buffer p.batch_size)) [
          | inl e ↦ rw e refl
          | inr (x, xs, e) ↦
              let part : (y : Row) → In y (x ∷ xs) → In y p.buffer.rows =
                λ y l. In-of_take_oldest p.buffer p.batch_size (rw e l) in
              elim (Reply-cases r.reply) [
                | inl c ↦
                    rw (e, u.0.quiet, c)
                      (drain_loop-visible rounds _ (replayed + length (x ∷ xs)) i u.1
                          (forget-Tabled p.buffer (map (λ y. y.id) (x ∷ xs)) t)
                        ∙ written_left p.archive p.buffer (x ∷ xs) t part)
                | inr (inl c) ↦
                    rw (e, u.0.quiet, c) (unlinked_visible (record p { archive = p.archive }))
                | inr (inr c) ↦
                    rw (e, u.0.quiet, c)
                      (unlinked_visible
                          (record p { archive = write_samples p.archive (samples (x ∷ xs)) })
                        ∙ written_kept p.archive p.buffer (x ∷ xs) t part)
              ]
        ])

  finish_drain-visible :
      (r : Pipeline × DrainEnd × ℕ) (reply : Reply)
      → visible tag ts (finish_drain r reply) ≡ visible tag ts r.0
  unfolding finish_drain visible
  finish_drain-visible (p, emptied, n) reply =
      Same-visible tag ts (forward_losses-Same (record p { draining = false }) reply)
  finish_drain-visible (p, interrupted, n) reply = refl
  finish_drain-visible (p, waiting, n) reply = refl

-- Whatever the archive answers, and if no sample is queued or arrives, a drain leaves what the archive and
-- the buffer together have under a key as it was, the archive's row before the buffer's; the buffer has no
-- key twice, and its ids ascend.
pub drain-visible :
    (tag ts : ℕ) (p : Pipeline) (rounds : List Round) (reply : Reply)
    → p.incoming ≡ []
    → All Quiet rounds
    → Tabled p.buffer
    → visible tag ts (drain p rounds reply) ≡ visible tag ts p
unfolding drain visible
drain-visible tag ts p rounds reply i u t =
    let started : Pipeline =
      emit (record p { draining = true }) (buffer_drain_started (Buffer.depth p.buffer)) in
    if_elim (λ (q : Pipeline). visible tag ts q ≡ visible tag ts p) (Buffer.depth p.buffer == 0)
      (λ e. Same-visible tag ts (forward_losses-Same p reply))
      (λ e.
        finish_drain-visible tag ts (drain_loop rounds started 0) reply
        ∙ drain_loop-visible tag ts rounds started 0 i u t)
