-- ===== src/Collector/Pipeline.antt =====
-- collector/pipeline.py: receive, compress, number, forward, buffer, drain. An await is a point where
-- the environment acts: what it does there (the sink's answer, the samples that arrive, the clock)
-- is an argument. Logging is left out; what is emitted on the event stream is kept.
pub mod Keep
pub mod Secure
pub mod Drain
pub mod NoLoss
pub mod Cancel
pub mod Steps
pub mod Received
pub mod Empty
pub mod Store
mod Tests
use Prim.Native.String.{String}
use kpcl_hardware.Common.{
  ℕ, zero, suc, ◌+◌, ◌-◌, Bool, true, false, not, ◌&&◌, Option, none, some, List, [], ◌∷◌, ◌++◌,
  map, leb, ◌==◌, if◌then◌else◌, length, take, drop, keep_if,
}
use kpcl_hardware.Common.Int.{ℤ}
use kpcl_hardware.Common.Dict.{Dict, get, set, get_or}
use kpcl_hardware.Collector.Model.{Sample, QualityClass, quality_class}
use kpcl_hardware.Collector.Compression.TwoStage
use kpcl_hardware.Collector.Compression.TwoStage.{Archived, Compressor}
use kpcl_hardware.Collector.Buffer
use kpcl_hardware.Collector.Buffer.{Row, LossRow, Buffer}
use kpcl_hardware.Collector.Sink.{
  Reply, write, insert_losses, committed, unavailable, unacknowledged,
}

pub data BufferReason : Type 0 where
  link_down forward_failed arrived_while_draining shutdown_flush : BufferReason

-- What `stream.emit` is called with (collector/events.py names the kinds).
pub data Event : Type 0 where
  quality_changed : String → ℕ → ℕ → QualityClass → ℕ → Event
  value_received : String → Option ℤ → ℕ → ℕ → Option ℕ → Event
  value_buffered : ℕ → ℕ → BufferReason → Event
  buffer_overflow : ℕ → ℕ → Event
  buffer_high_water : ℕ → Event
  link_state : Bool → Event
  value_forwarded : ℕ → Event
  buffer_drain_started : ℕ → Event
  buffer_drained : ℕ → ℕ → Event

-- `archive` and `collector_loss` are the far side of the sink: two tables of the archive.
pub record Pipeline : Type 0 where
  pub batch_size : ℕ
  pub run_id : Option ℕ
  pub archive : List Sample
  pub collector_loss : List LossRow
  pub buffer : Buffer
  pub emitted : List Event
  pub incoming : List Sample
  pub link_up : Bool
  pub draining : Bool
  pub received : ℕ
  pub forwarded : ℕ
  pub buffered : ℕ
  pub drained : ℕ
  pub duplicate_ts : ℕ
  pub compressed_out : ℕ
  pub last_forward : Option ℕ
  pub seq : Dict ℕ
  pub last_ts : Dict ℕ
  pub last_quality : Dict ℕ
  pub rate_window : List ℕ
  pub compressors : Dict Compressor

abbrev pub emit : Pipeline → Event → Pipeline
emit p e = record p { emitted = p.emitted ++ e ∷ [] }

-- `_admit`
unfoldable pub admit : Pipeline → Sample → Pipeline
unfolding get set
admit p s =
    let n = get_or (get s.tag_id p.seq) 0 + 1 in
    record p {
      seq = set s.tag_id n p.seq;
      incoming = p.incoming ++ record s { seq = some n; run = p.run_id } ∷ [];
    }

unfoldable pub admit_all : Pipeline → List Archived → Pipeline
unfolding admit
admit_all p [] = p
admit_all p (k ∷ ks) = admit_all (admit p k.sample) ks

-- The quality-change event of `on_sample`.
unfoldable pub note_quality : Pipeline → Sample → Pipeline
unfolding get set quality_class
note_quality p s =
    let q : Pipeline = elim (get s.tag_id p.last_quality) [
      | none ↦ p
      | some was ↦
          if was == s.quality
          then p
          else emit p (quality_changed s.tag_name was s.quality (quality_class s) s.source_ts)
    ] in
    record q { last_quality = set s.tag_id s.quality p.last_quality }

-- `if not archived: self.compressed_out += 1`
unfoldable pub count_compressed : Pipeline → List Archived → Pipeline
count_compressed p [] = record p { compressed_out = p.compressed_out + 1 }
count_compressed p (k ∷ ks) = p

-- The end of `on_sample`: through the tag's compressor, if it has one.
unfoldable pub compress_or_admit : Pipeline → Sample → Pipeline
unfolding get set admit admit_all count_compressed
compress_or_admit p s = elim (get s.tag_id p.compressors) [
  | none ↦ admit p s
  | some c ↦
      let pushed = TwoStage.push c s in
      let q : Pipeline = record p { compressors = set s.tag_id pushed.0 p.compressors } in
      admit_all (count_compressed q pushed.1) pushed.1
]

abbrev pub seen_before : Pipeline → Sample → Bool
seen_before p s = elim (get s.tag_id p.last_ts) [ none ↦ false | some ts ↦ ts == s.source_ts ]

-- `on_sample`, at the clock's reading `now`.
unfoldable pub on_sample : Pipeline → ℕ → Sample → Pipeline
unfolding get set note_quality compress_or_admit
on_sample p now s =
    let q : Pipeline = record p {
      received = p.received + 1;
      rate_window = p.rate_window ++ now ∷ [];
    } in
    let taken : Pipeline = record q { last_ts = set s.tag_id s.source_ts q.last_ts } in
    if seen_before q s
    then (record q { duplicate_ts = q.duplicate_ts + 1 })
    else compress_or_admit
        (emit (note_quality taken s)
          (value_received s.tag_name s.value s.quality s.source_ts s.server_ts))
        s

unfoldable pub on_samples : Pipeline → ℕ → List Sample → Pipeline
unfolding on_sample
on_samples p now [] = p
on_samples p now (s ∷ ss) = on_samples (on_sample p now s) now ss

-- `_collect_batch`, when `more` further samples could be had before the linger ran out; `none` while
-- the queue is empty and it waits.
unfoldable pub collect_batch : Pipeline → ℕ → Option (Pipeline × List Sample)
collect_batch p more = elim p.incoming [
  | [] ↦ none
  | first ∷ rest ↦
      let n = if leb more (p.batch_size - 1) then more else p.batch_size - 1 in
      some (record p { incoming = drop n rest }, first ∷ take n rest)
]

-- `_take_queued`
unfoldable pub take_queued : Pipeline → Pipeline × List Sample
take_queued p = (record p { incoming = [] }, p.incoming)

-- The warning at the end of `_buffer`.
unfoldable pub warn_high_water : Pipeline → Pipeline
unfolding Buffer.over_high_water
warn_high_water p =
    let w = Buffer.over_high_water p.buffer in
    let q : Pipeline = record p { buffer = w.0 } in
    if w.1 then emit q (buffer_high_water (Buffer.depth w.0)) else q

-- `_buffer`
unfoldable pub buffer_batch : Pipeline → List Sample → BufferReason → ℕ → Pipeline
unfolding Buffer.append warn_high_water
buffer_batch p batch reason now =
    let r = Buffer.append p.buffer batch now in
    let q : Pipeline =
      emit (record p { buffer = r.0; buffered = p.buffered + length batch })
        (value_buffered (length batch) (Buffer.depth r.0) reason) in
    warn_high_water (if r.1 == 0 then q else emit q (buffer_overflow r.1 r.0.overflowed))

abbrev pub same_bool : Bool → Bool → Bool
same_bool true b = b
same_bool false b = not b

-- `_set_link`
unfoldable pub set_link : Pipeline → Bool → Pipeline
set_link p up =
    if same_bool up p.link_up then p else emit (record p { link_up = up }) (link_state up)

-- `_forward_losses`
unfoldable pub forward_losses : Pipeline → Reply → Pipeline
unfolding Buffer.pending_losses Buffer.forget_losses insert_losses
forward_losses p reply =
    let sent : Pipeline = record p {
      collector_loss = insert_losses p.collector_loss (map (λ l. l.1) p.buffer.lost);
    } in
    if Buffer.pending_losses p.buffer == 0 then p else elim reply [
      | committed ↦ record sent {
        buffer = Buffer.forget_losses p.buffer (map (λ l. l.0) p.buffer.lost);
      }
      | unavailable ↦ p
      | unacknowledged ↦ sent
    ]

-- What the environment does while `drain` awaits one write: the answer, the samples that arrive, and
-- the clock.
pub record Round : Type 0 where
  pub reply : Reply
  pub arrivals : List Sample
  pub now : ℕ

pub data DrainEnd : Type 0 where
  emptied interrupted waiting : DrainEnd

-- The live samples of one round of `drain` go into the buffer.
unfoldable pub buffer_queued : Pipeline → ℕ → Pipeline
unfolding take_queued buffer_batch
buffer_queued p now = elim p.incoming [
  | [] ↦ p
  | s ∷ ss ↦ buffer_batch (take_queued p).0 (s ∷ ss) arrived_while_draining now
]

-- A drained batch that the archive has: forget it and count it.
unfoldable pub forget_rows : Pipeline → List Row → ℕ → Pipeline
unfolding Buffer.forget
forget_rows p rows now = record p {
  buffer = Buffer.forget p.buffer (map (λ r. r.id) rows);
  drained = p.drained + length rows;
  last_forward = some now;
}

-- The write of one drained batch: the pipeline after it, and whether it was seen to succeed.
unfoldable pub write_rows : Pipeline → Round → List Row → Pipeline × Bool
unfolding write on_samples
write_rows p r rows =
    let w = write r.reply p.archive (map (λ x. x.sample) rows) in
    (on_samples (record p { archive = w.0 }) r.now r.arrivals, w.1)

-- How a round of `drain` ends; `next` is what the rounds after it make of a committed batch.
unfoldable pub end_round :
    Pipeline → Round → List Row → ℕ → Pipeline × DrainEnd × ℕ → Pipeline × DrainEnd × ℕ
unfolding write_rows set_link
end_round p r [] replayed next = (p, emptied, replayed)
end_round p r (x ∷ xs) replayed next =
    let w = write_rows p r (x ∷ xs) in
    if w.1 then next else (set_link w.0 false, interrupted, replayed)

-- The loop of `drain`: a round for each answer, `waiting` when none has come yet. `replayed` counts.
unfoldable pub drain_loop : List Round → Pipeline → ℕ → Pipeline × DrainEnd × ℕ
unfolding buffer_queued Buffer.take_oldest write_rows forget_rows end_round
drain_loop [] p replayed = (p, waiting, replayed)
drain_loop (r ∷ rounds) p replayed =
    let q = buffer_queued p r.now in
    let rows = Buffer.take_oldest q.buffer q.batch_size in
    let next =
      drain_loop rounds (forget_rows (write_rows q r rows).0 rows r.now) (replayed + length rows) in
    end_round q r rows replayed next

-- The end of `drain`, once its loop has ended: `reply` answers the loss rows.
unfoldable pub finish_drain : Pipeline × DrainEnd × ℕ → Reply → Pipeline
unfolding forward_losses
finish_drain r reply =
    let p : Pipeline = record (r.0) { draining = false } in
    elim r.1 [
      | emptied ↦
          let q = forward_losses p reply in emit q (buffer_drained r.2 (Buffer.depth q.buffer))
      | interrupted ↦ p
      | waiting ↦ r.0
    ]

-- `drain`
unfoldable pub drain : Pipeline → List Round → Reply → Pipeline
unfolding drain_loop finish_drain forward_losses
drain p rounds reply =
    let d = Buffer.depth p.buffer in
    let started : Pipeline = emit (record p { draining = true }) (buffer_drain_started d) in
    if d == 0 then forward_losses p reply else finish_drain (drain_loop rounds started 0) reply

-- `_try_recover`: `up` says whether `connect` succeeds.
unfoldable pub try_recover : Pipeline → Bool → List Round → Reply → Pipeline
unfolding set_link drain
try_recover p up rounds reply = if up then drain (set_link p true) rounds reply else p

-- What the environment does in one round of `run_forwarder`.
pub record Forward : Type 0 where
  pub more : ℕ
  pub reply : Reply
  pub now : ℕ
  pub connects : Bool
  pub rounds : List Round
  pub loss_reply : Reply

-- A collected batch: written, or buffered if the link is down or the write fails.
unfoldable pub forward_batch : Pipeline → List Sample → Forward → Pipeline
unfolding buffer_batch try_recover write set_link forward_losses
forward_batch p batch f =
    let w = write f.reply p.archive batch in
    let written : Pipeline = record p { archive = w.0 } in
    if not p.link_up
    then try_recover (buffer_batch p batch link_down f.now) f.connects f.rounds f.loss_reply
    else if w.1
    then forward_losses
        (emit (record written { forwarded = p.forwarded + length batch; last_forward = some f.now })
          (value_forwarded (length batch)))
        f.loss_reply
    else buffer_batch (set_link written false) batch forward_failed f.now

-- One round of `run_forwarder`, which waits while the queue is empty.
unfoldable pub forward_round : Pipeline → Forward → Pipeline
unfolding collect_batch forward_batch
forward_round p f = elim (collect_batch p f.more) [
  | none ↦ p
  | some (q, batch) ↦ forward_batch q batch f
]

-- The compressors' turn in `flush_to_buffer`.
unfoldable pub flush_compressors : Dict Compressor → Pipeline → Pipeline
unfolding set admit_all
flush_compressors [] p = p
flush_compressors ((tag, c) ∷ cs) p =
    let flushed = TwoStage.flush c in
    flush_compressors cs
      (admit_all (record p { compressors = set tag flushed.0 p.compressors }) flushed.1)

-- `flush_to_buffer`: the pipeline and how many samples went to the buffer.
unfoldable pub flush_to_buffer : Pipeline → ℕ → Pipeline × ℕ
unfolding flush_compressors take_queued buffer_batch
flush_to_buffer p now =
    let q = flush_compressors p.compressors p in
    elim q.incoming [
      | [] ↦ (q, 0)
      | s ∷ ss ↦ (buffer_batch (take_queued q).0 (s ∷ ss) shutdown_flush now, length (s ∷ ss))
    ]

-- `samples_per_second` over a window, as a count: the window's older stamps go.
unfoldable pub samples_in_window : Pipeline → ℕ → ℕ → Pipeline × ℕ
samples_in_window p now window =
    let kept = keep_if (λ t. leb now (t + window)) p.rate_window in
    (record p { rate_window = kept }, length kept)
