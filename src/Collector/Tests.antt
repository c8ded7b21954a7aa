-- ===== src/Collector/Tests.antt =====
-- Runs of the collector's model on small inputs.
use mathlib.Core.List.{Sublist}
use kpcl_hardware.Common.{
  arith, ℕ, ◌+◌, ◌≤◌, ◌⊎◌, ◌≡◌, refl, inl, true, false, Option, none, some, List, [], ◌∷◌, ◌++◌, In,
  here, All, length, take, get_elem?,
}
use kpcl_hardware.Common.Int.{ℤ, pos}
use kpcl_hardware.Collector.Model.{Sample}
use kpcl_hardware.Collector.Compression.Slope.{neg_inf, pos_inf}
use kpcl_hardware.Collector.Compression.Door.{SwingingDoor, choose, deviation, witnesses_between}
use kpcl_hardware.Collector.Compression.TwoStage.{
  Archived, Stats, Compressor, compress, new_compressor, push_all, push,
}
use kpcl_hardware.Collector.Compression.Selection.{samples_of, compress-sublist}
use kpcl_hardware.Collector.Compression.Flush.{compress-last}
use kpcl_hardware.Collector.Compression.Exceptions.{ForcedOut, push-ForcedOut}
use kpcl_hardware.Collector.Compression.Bound.{Near, choose-Near}
use kpcl_hardware.Collector.Buffer.{Row, Buffer, append, depth, insert_all, take_oldest}
use kpcl_hardware.Collector.Buffer.Bound.{count_ledger, append-Accounts}
use kpcl_hardware.Collector.Buffer.Replay.{IsAscending, take_oldest-IsAscending}
use kpcl_hardware.Collector.Sink.{write_samples, unavailable, committed, unacknowledged}
use kpcl_hardware.Collector.Sink.Idempotent.{write_samples-write_samples}
use kpcl_hardware.Collector.Pipeline.{Pipeline, on_sample, forward_round, Forward}
use kpcl_hardware.Collector.Pipeline.Store.Lost.{Recorded, append-Recorded}
use kpcl_hardware.Collector.Pipeline.Cancel.{collecting, cancel_forwarder}

abbrev sample : ℕ → ℤ → ℕ → Sample
sample ts v quality = record {
  tag_id = 7;
  tag_name = "unit1.MW";
  source_ts = ts;
  server_ts = none;
  value = some v;
  quality = quality;
  seq = none;
  run = none;
}

abbrev ramp : List Sample
ramp =
    sample 0 (pos 10) 0
    ∷ sample 1000 (pos 20) 0
    ∷ sample 2000 (pos 30) 0
    ∷ sample 3000 (pos 90) 0
    ∷ []

abbrev newest : Sample
newest = sample 4000 (pos 91) 0

abbrev no_stats : Stats
no_stats = record { received = 0; reported = 0; archived = 0; forced = 0; by_reason = λ r. 0 }

abbrev or_nothing : Option (List Archived × Stats) → List Archived × Stats
or_nothing none = ([], no_stats)
or_nothing (some r) = r

abbrev result : List Archived × Stats
result = or_nothing (compress (ramp ++ newest ∷ []) (some 1) (some 2) (some 60_000))

result_times :
    samples_of result.0
    ≡ sample 0 (pos 10) 0 ∷ sample 2000 (pos 30) 0 ∷ sample 3000 (pos 90) 0 ∷ newest ∷ []
unfolding compress
result_times = refl

result_is :
    compress (ramp ++ newest ∷ []) (some 1) (some 2) (some 60_000) ≡ some (result.0, result.1)
unfolding compress
result_is = refl

compress-sublist_example : Sublist (samples_of result.0) (ramp ++ newest ∷ [])
compress-sublist_example =
    compress-sublist (ramp ++ newest ∷ []) (some 1) (some 2) (some 60_000) result_is

compress-last_example : In newest (samples_of result.0)
compress-last_example = compress-last ramp newest (some 1) (some 2) (some 60_000) result_is

abbrev new_pair : Option Compressor
new_pair = new_compressor (some 1) (some 2) (some 60_000)

abbrev or_blank : Option Compressor → Compressor
or_blank none = record {
  exception = record {
    exc_dev = none;
    max_time = none;
    last_reported = none;
    held = none;
    previous = none;
  };
  door = record {
    comp_dev = none;
    max_time = none;
    anchor = none;
    segment = [];
    witness = [];
    upper = neg_inf;
    lower = pos_inf;
    previous = none;
  };
  stats = no_stats;
}
or_blank (some c) = c

abbrev fresh : Compressor
fresh = or_blank new_pair

fresh_is : new_compressor (some 1) (some 2) (some 60_000) ≡ some fresh
unfolding new_compressor
fresh_is = refl

abbrev bad_reading : Sample
bad_reading = sample 4000 (pos 91) 2_147_483_648

push-ForcedOut_example :
    ForcedOut bad_reading (push (push_all fresh (ramp ++ newest ∷ [])).0 bad_reading).1
push-ForcedOut_example =
    push-ForcedOut (some 1) (some 2) (some 60_000) ramp newest bad_reading fresh_is (inl (λ e. cc))

abbrev bent_door : SwingingDoor
bent_door = record (fresh.door) {
  anchor = some (sample 0 (pos 10) 0);
  segment = sample 1000 (pos 20) 0 ∷ sample 2000 (pos 30) 0 ∷ sample 3000 (pos 90) 0 ∷ [];
  witness = sample 1500 (pos 25) 0 ∷ [];
}

bent_choice : choose bent_door (sample 0 (pos 10) 0) ≡ 1
unfolding choose new_compressor
bent_choice = refl

choose-Near_example :
    (choose bent_door (sample 0 (pos 10) 0) ≡ 0)
    ⊎ ((target : Sample) × (get_elem? bent_door.segment (choose bent_door (sample 0 (pos 10) 0))
          ≡ some target)
        × ((p : Sample)
            → In p (
                take (choose bent_door (sample 0 (pos 10) 0)) bent_door.segment
                ++ witnesses_between bent_door.witness (sample 0 (pos 10) 0) target)
            → Near (deviation bent_door.comp_dev) (sample 0 (pos 10) 0) target p))
choose-Near_example = choose-Near bent_door (sample 0 (pos 10) 0)

abbrev small : Buffer
small = record {
  max_rows = 2;
  warn_num = 4;
  warn_den = 5;
  rows = [];
  next_id = 1;
  lost = [];
  next_loss = 1;
  overflowed = 0;
  warned = false;
}

small_full : depth (append small ramp 9000).0 ≡ 2
unfolding append
small_full = refl

small_lost : (append small ramp 9000).1 ≡ 2
unfolding append
small_lost = refl

append-Accounts_example :
    let r = append small ramp 9000 in
    (depth r.0 ≤ r.0.max_rows)
    × (depth r.0 + r.1 ≡ length (insert_all small.next_id small.rows ramp).1)
    × (r.0.overflowed ≡ small.overflowed + r.1)
    × (count_ledger r.0.lost ≡ count_ledger small.lost + r.1)
append-Accounts_example = append-Accounts small ramp 9000 (omega arith)

append-Recorded_example : Recorded small ramp (sample 0 (pos 10) 0) (append small ramp 9000).0
append-Recorded_example = append-Recorded small ramp 9000 (here refl)

abbrev shuffled : Buffer
shuffled = record small {
  rows =
      record { id = 1; sample = sample 2000 (pos 30) 0 }
      ∷ record { id = 2; sample = sample 0 (pos 10) 0 }
      ∷ [];
  next_id = 3;
}

take_oldest-IsAscending_example :
    IsAscending (take_oldest shuffled 1)
    × ((q : Row)
        → In q shuffled.rows
        → In q (take_oldest shuffled 1)
          ⊎ All (λ r. r.sample.source_ts ≤ q.sample.source_ts) (take_oldest shuffled 1))
take_oldest-IsAscending_example = take_oldest-IsAscending shuffled 1

write_samples-write_samples_example :
    write_samples (write_samples (sample 0 (pos 5) 0 ∷ []) ramp) ramp
    ≡ write_samples (sample 0 (pos 5) 0 ∷ []) ramp
write_samples-write_samples_example = write_samples-write_samples (sample 0 (pos 5) 0 ∷ []) ramp

abbrev running : Pipeline
running = record {
  batch_size = 10;
  run_id = some 3;
  archive = [];
  collector_loss = [];
  buffer = small;
  emitted = [];
  incoming = newest ∷ [];
  link_up = true;
  draining = false;
  received = 1;
  forwarded = 0;
  buffered = 0;
  drained = 0;
  duplicate_ts = 0;
  compressed_out = 0;
  last_forward = none;
  seq = [];
  last_ts = [];
  last_quality = [];
  rate_window = [];
  compressors = [];
}

-- The archive is away, then back after its answer to the first write is lost.
abbrev failing : Forward
failing = record {
  more = 0;
  reply = unacknowledged;
  now = 5000;
  connects = false;
  rounds = [];
  loss_reply = unavailable;
}

abbrev reconnecting : Forward
reconnecting = record failing { reply = committed; connects = true }

abbrev failed : Pipeline
failed = forward_round running failing

failed_stores : (length failed.archive ≡ 1) × (depth failed.buffer ≡ 1) × (failed.link_up ≡ false)
unfolding forward_round
failed_stores = (refl, refl, refl)

abbrev recovering : Pipeline
recovering = forward_round (on_sample failed 6000 bad_reading) reconnecting

-- The forwarder is cancelled with a batch of one sample in hand, and the rest is flushed.
abbrev stopped : Pipeline
stopped = (cancel_forwarder (on_sample recovering 7000 newest) (collecting 1)).0

-- A sample arrives while the queue is not empty, and the write of both fails.
abbrev buffering : Pipeline
buffering = forward_round (on_sample running 4500 bad_reading) (record failing { more = 1 })
