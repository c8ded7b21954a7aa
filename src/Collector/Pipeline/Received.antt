-- ===== src/Collector/Pipeline/Received.antt =====
-- collector/pipeline.py: from the reception of a sample on.
use kpcl_hardware.Common.{◌≡◌}
use kpcl_hardware.Collector.Pipeline.{Pipeline}

-- What `note_quality` leaves alone.
record SameQueue (p q : Pipeline) : Type 0 where
  buffer_is : q.buffer ≡ p.buffer
  compressors_is : q.compressors ≡ p.compressors
