-- ===== src/Collector/Pipeline/Steps.antt =====
-- collector/pipeline.py: the steps of the pipeline in any order, with any behaviour of the archive.
use kpcl_hardware.Common.{ℕ, ◌+◌, ◌≡◌, List, [], ◌++◌}
use kpcl_hardware.Collector.Model.{Sample}
use kpcl_hardware.Collector.Sink.{Reply}
use kpcl_hardware.Collector.Pipeline.{
  Pipeline, Round, Forward, on_sample, drain, forward_round, flush_to_buffer,
}
use kpcl_hardware.Collector.Pipeline.Cancel.{Cancel, cancel_forwarder}

-- The steps of a running collector, with the samples that a step loses: a sample arrives, the forwarder
-- makes a round, the buffer is drained, the forwarder is cancelled, the memory is flushed.
pub data Step : Pipeline → List Sample → Pipeline → Type 0 where
  receive : (p : Pipeline) (now : ℕ) (s : Sample) → Step p [] (on_sample p now s)
  forward : (p : Pipeline) (f : Forward) → Step p [] (forward_round p f)
  replay : (p : Pipeline) (rounds : List Round) (reply : Reply) → Step p [] (drain p rounds reply)
  cancel : (p : Pipeline) (k : Cancel) → Step p (cancel_forwarder p k).1 (cancel_forwarder p k).0
  flush : (p : Pipeline) (now : ℕ) → Step p [] (flush_to_buffer p now).0

-- Any number of steps, and the samples that they lost.
pub data Reach (p : Pipeline) : List Sample → Pipeline → Type 0 where
  start : Reach p [] p
  next :
      {q r : Pipeline} {before gone all : List Sample}
      → Reach p before q
      → Step q gone r
      → all ≡ before ++ gone
      → Reach p all r

-- How often the forwarder is cancelled.
abbrev cancels_of : {p q : Pipeline} {gone : List Sample} → Step p gone q → ℕ
cancels_of (receive p now s) = 0
cancels_of (forward p f) = 0
cancels_of (replay p rounds reply) = 0
cancels_of (cancel p k) = 1
cancels_of (flush p now) = 0

abbrev pub cancels : {p q : Pipeline} {gone : List Sample} → Reach p gone q → ℕ
cancels start = 0
cancels (next r st e) = cancels r + cancels_of st
