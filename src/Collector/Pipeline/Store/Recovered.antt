-- ===== src/Collector/Pipeline/Store/Recovered.antt =====
-- collector/pipeline.py: a batch that was buffered and then drained, against the same batch written at
-- once.
use kpcl_hardware.Common.{ℕ, ◌+◌, ◌≤◌, ◌<◌, ◌≡◌, ◌∙◌, sym, ap, List, [], ◌∷◌, length, All, arith}
use kpcl_hardware.Collector.Model.{Sample}
use kpcl_hardware.Collector.Buffer.{Row}
use kpcl_hardware.Collector.Buffer.Ids.{append-IdsValid}
use kpcl_hardware.Collector.Sink.{Reply, write_samples}
use kpcl_hardware.Collector.Pipeline.{Pipeline, Round, BufferReason, buffer_batch, drain}
use kpcl_hardware.Collector.Pipeline.Keep.{buffer_batch-Buffers}
use kpcl_hardware.Collector.Pipeline.Secure.{IdsValid-warned}
use kpcl_hardware.Collector.Pipeline.Empty.{Undisturbed, drain-Empties}
use kpcl_hardware.Collector.Pipeline.Store.{found, or_else, samples, or_else_assoc}
use kpcl_hardware.Collector.Pipeline.Store.Insert.{
  found-write_samples, samples-append_lem, append-OneEach, length-append_lem, or_else-none,
}
use kpcl_hardware.Collector.Pipeline.Store.Drained.{Quiet, Tabled, visible, drain-visible}

Undisturbed-Quiet : (rounds : List Round) → All Undisturbed rounds → All Quiet rounds
Undisturbed-Quiet [] u = tt
Undisturbed-Quiet (r ∷ rounds) u = (record { quiet = u.0.quiet }, Undisturbed-Quiet rounds u.1)

-- A drain that empties the buffer leaves the whole store in the archive.
drain-found :
    (tag ts : ℕ) (p : Pipeline) (rounds : List Round) (reply : Reply)
    → p.incoming ≡ []
    → 0 < p.batch_size
    → All Undisturbed rounds
    → length p.buffer.rows < length rounds
    → Tabled p.buffer
    → found tag ts (drain p rounds reply).archive ≡ visible tag ts p
unfolding visible found
drain-found tag ts p rounds reply i n u h t =
    let empty = (drain-Empties p rounds reply i n u h).1 in
    let all : visible tag ts (drain p rounds reply)
        ≡ or_else (found tag ts (drain p rounds reply).archive) (found tag ts []) =
      ap
        (λ (rows : List Row).
          or_else (found tag ts (drain p rounds reply).archive) (found tag ts (samples rows)))
        empty in
    sym (or_else-none (found tag ts (drain p rounds reply).archive))
    ∙ sym all
    ∙ drain-visible tag ts p rounds reply i (Undisturbed-Quiet rounds u) t

module _ (p : Pipeline) (batch : List Sample) (reason : BufferReason) (now : ℕ)
    (room : length p.buffer.rows + length batch ≤ p.buffer.max_rows) where
  buffer_batch-Tabled : Tabled p.buffer → Tabled (buffer_batch p batch reason now).buffer
  buffer_batch-Tabled t =
      let h = buffer_batch-Buffers p batch reason now in
      rw h.buffer_is (record {
        one_each = append-OneEach p.buffer batch now room t.one_each;
        ids = IdsValid-warned _ h.warned (append-IdsValid p.buffer batch now t.ids);
      })

  buffer_batch-visible :
      (tag ts : ℕ)
      → visible tag ts (buffer_batch p batch reason now)
        ≡ found tag ts (write_samples (write_samples p.archive (samples p.buffer.rows)) batch)
  unfolding visible
  buffer_batch-visible tag ts =
      let h = buffer_batch-Buffers p batch reason now in
      rw
        (
          h.archive_is,
          h.buffer_is,
          samples-append_lem p.buffer batch now room,
          found-write_samples tag ts (samples p.buffer.rows) batch,
          found-write_samples tag ts (write_samples p.archive (samples p.buffer.rows)) batch,
          found-write_samples tag ts p.archive (samples p.buffer.rows),
        )
        (sym (or_else_assoc (found tag ts p.archive) _ _))

-- A batch that `_buffer` has room for, drained while the archive commits every batch and no sample is
-- queued or arrives, is in the archive as if the old rows and then the batch had been written at once: the
-- same sample under every tag and source timestamp; a drain takes at least one row at a time, has rounds
-- enough, and starts from a buffer that has no key twice and whose ids ascend.
pub drain-buffer_batch :
    (tag ts : ℕ) (p : Pipeline) (batch : List Sample) (reason : BufferReason) (now : ℕ)
    (rounds : List Round) (reply : Reply)
    → p.incoming ≡ []
    → 0 < p.batch_size
    → length p.buffer.rows + length batch ≤ p.buffer.max_rows
    → Tabled p.buffer
    → All Undisturbed rounds
    → length p.buffer.rows + length batch < length rounds
    → found tag ts (drain (buffer_batch p batch reason now) rounds reply).archive
      ≡ found tag ts (write_samples (write_samples p.archive (samples p.buffer.rows)) batch)
drain-buffer_batch tag ts p batch reason now rounds reply i n room t u h =
    let q = buffer_batch p batch reason now in
    let b = buffer_batch-Buffers p batch reason now in
    let few : length q.buffer.rows ≤ length p.buffer.rows + length batch =
      rw b.buffer_is (length-append_lem p.buffer batch now room) in
    drain-found tag ts q rounds reply (b.incoming_is ∙ i) (rw b.batch_size_is n) u (omega arith)
      (buffer_batch-Tabled p batch reason now room t)
    ∙ buffer_batch-visible p batch reason now room tag ts
