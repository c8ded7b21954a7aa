-- ===== src/Collector/Pipeline/Store/Lost.antt =====
-- collector/buffer.py, `append`: which sample a key has afterwards, in the buffer or in the loss ledger.
use kpcl_hardware.Common.{ℕ, ◌≡◌, ◌∙◌, sym, ap, true, ◌⊎◌, inl, inr, some, List, ◌++◌, In, arith}
use kpcl_hardware.Collector.Model.{Sample}
use kpcl_hardware.Collector.Buffer.{Row, Buffer, append, insert_all}
use kpcl_hardware.Collector.Buffer.Bound.{CoveredBy, inserted-Settled, insert_all-HasKey}
use kpcl_hardware.Collector.Pipeline.Store.{
  has_key, found, samples, found-append, found_row, missing_key,
}
use kpcl_hardware.Collector.Pipeline.Store.Insert.{samples-insert_all, found-write_samples}

-- The row of a sample's key, whose sample is the first one of the key among the rows that there were and
-- the batch; the buffer has it, or the loss ledger covers it.
pub record Recorded (b : Buffer) (batch : List Sample) (s : Sample) (after : Buffer) : Type 0 where
  pub row : Row
  pub first_is : found s.tag_id s.source_ts (samples b.rows ++ batch) ≡ some row.sample
  pub settled : In row after.rows ⊎ CoveredBy after.lost row

found-insert_all :
    (tag ts n : ℕ) (rows : List Row) (ss : List Sample)
    → found tag ts (samples (insert_all n rows ss).1) ≡ found tag ts (samples rows ++ ss)
found-insert_all tag ts n rows ss =
    ap (found tag ts) (samples-insert_all n rows ss)
    ∙ found-write_samples tag ts (samples rows) ss
    ∙ sym (found-append tag ts (samples rows) ss)

has_key_lem :
    (r s : Sample)
    → r.tag_id ≡ s.tag_id
    → r.source_ts ≡ s.source_ts
    → has_key s.tag_id s.source_ts r ≡ true
unfolding has_key
has_key_lem r s t u = ground arith

-- For every sample given to `append`, the row of its tag and timestamp, which holds the sample of
-- the older row or else the first such sample of the batch, is in the buffer afterwards, or a loss
-- row has its run and its tag, and a span of time and of sequence numbers in which its own lie.
pub append-Recorded :
    (b : Buffer) (ss : List Sample) (t : ℕ) {s : Sample}
    → In s ss
    → Recorded b ss s (append b ss t).0
append-Recorded b ss t {s} h =
    let table = (insert_all b.next_id b.rows ss).1 in
    let same = found-insert_all s.tag_id s.source_ts b.next_id b.rows ss in
    elim (found_row s.tag_id s.source_ts table) [
      | inl f ↦ record {
        row = f.row;
        first_is = sym same ∙ f.is_found;
        settled = inserted-Settled b ss t f.listed;
      }
      | inr n ↦
          let k = insert_all-HasKey b.next_id b.rows h in
          let no = missing_key s.tag_id s.source_ts table k.listed n in
          let yes = has_key_lem k.row.sample s k.tag_is k.ts_is in cc
    ]
