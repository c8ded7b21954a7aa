-- ===== src/Collector/Sink.antt =====
-- collector/sink.py: what the archive keeps of what is written to it. The archive's table is the list
-- of its rows; `INSERT ... ON CONFLICT (tag_id, source_ts) DO NOTHING` is the function below.
pub mod Idempotent
pub mod Losses
use kpcl_hardware.Common.{
  ℕ, Bool, true, false, ◌&&◌, ◌≡◌, refl, List, [], ◌∷◌, ◌++◌, ◌==◌, if◌then◌else◌, any_of, In, here,
  there, arith, Bool-cases, In-append_left, In-append_right,
}
use kpcl_hardware.Collector.Model.{Sample}
use kpcl_hardware.Collector.Buffer.{LossRow}

unfoldable pub conflicts : Sample → Sample → Bool
conflicts s row = row.tag_id == s.tag_id && row.source_ts == s.source_ts

-- INSERT of one sample.
unfoldable pub insert_sample : List Sample → Sample → List Sample
unfolding conflicts
insert_sample archive s = if any_of (conflicts s) archive then archive else archive ++ s ∷ []

-- The `executemany` of `ArchiveSink.write`, once it is committed.
unfoldable pub write_samples : List Sample → List Sample → List Sample
unfolding insert_sample
write_samples archive [] = archive
write_samples archive (s ∷ ss) = write_samples (insert_sample archive s) ss

unfoldable pub same_range : LossRow → LossRow → Bool
same_range g row = row.tag_id == g.tag_id && row.first_us == g.first_us

-- INSERT_LOSS of one range: ON CONFLICT (tag_id, first_source_ts) DO NOTHING.
unfoldable pub insert_loss : List LossRow → LossRow → List LossRow
unfolding same_range
insert_loss table g = if any_of (same_range g) table then table else table ++ g ∷ []

-- The `executemany` of `ArchiveSink.write_losses`, once it is committed.
unfoldable pub insert_losses : List LossRow → List LossRow → List LossRow
unfolding insert_loss
insert_losses table [] = table
insert_losses table (g ∷ gs) = insert_losses (insert_loss table g) gs

-- How a call of the sink ends: committed, or raised as SinkUnavailable with nothing written, or
-- raised although the archive had committed and only its answer was lost.
pub data Reply : Type 0 where
  committed unavailable unacknowledged : Reply

-- `write`: the archive afterwards, and whether the caller saw it succeed. An empty batch touches
-- nothing and succeeds.
unfoldable pub write : Reply → List Sample → List Sample → List Sample × Bool
unfolding write_samples
write reply archive [] = (archive, true)
write committed archive (s ∷ ss) = (write_samples archive (s ∷ ss), true)
write unavailable archive (s ∷ ss) = (archive, false)
write unacknowledged archive (s ∷ ss) = (write_samples archive (s ∷ ss), false)

-- A key is in the archive.
pub record Archives (tag ts : ℕ) (archive : List Sample) : Type 0 where
  pub row : Sample
  pub listed : In row archive
  pub tag_is : row.tag_id ≡ tag
  pub ts_is : row.source_ts ≡ ts

-- The archive has a range of that tag and first timestamp: the range itself, or the one whose row
-- absorbed it.
pub record HasRange (g : LossRow) (table : List LossRow) : Type 0 where
  pub row : LossRow
  pub listed : In row table
  pub tag_is : row.tag_id ≡ g.tag_id
  pub first_is : row.first_us ≡ g.first_us
