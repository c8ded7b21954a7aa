-- ===== src/Collector/Pipeline/Keep.antt =====
-- collector/pipeline.py: where a sample that was decided for the archive can be.
use mathlib.Core.List.{append-nil, append_assoc}
use kpcl_hardware.Common.{
  ℕ, ◌+◌, Bool, true, false, not, ◌≡◌, refl, ◌∙◌, ap, inl, inr, List, [], ◌∷◌, ◌++◌, ◌==◌, ◌&&◌,
  length, Bool-cases, Option-cases, In, In-append_left, if_elim,
}
use kpcl_hardware.Common.Dict.{Dict, get, set}
use kpcl_hardware.Collector.Model.{Sample}
use kpcl_hardware.Collector.Compression.TwoStage
use kpcl_hardware.Collector.Compression.TwoStage.{Archived, Compressor}
use kpcl_hardware.Collector.Buffer
use kpcl_hardware.Collector.Buffer.{Row, LossRow, Buffer}
use kpcl_hardware.Collector.Buffer.Loss.{Covers}
use kpcl_hardware.Collector.Buffer.Bound.{CoveredBy}
use kpcl_hardware.Collector.Sink.{Archives, HasRange}
use kpcl_hardware.Collector.Pipeline.{
  Pipeline, Event, BufferReason, emit, admit, admit_all, note_quality, compress_or_admit,
  seen_before, on_sample, on_samples, flush_compressors, count_compressed, buffer_batch,
  warn_high_water, buffer_overflow, value_buffered, value_received,
}

-- Where the sample of a tag and a source timestamp is: in the queue, in the buffer, in the archive, in
-- the span of a loss row of the buffer, or in that of a loss row that was sent. The archive then has
-- that range, or the one of its tag and first timestamp that came before it and absorbed it.
pub data Kept (tag ts : ℕ) (p : Pipeline) : Type 0 where
  queued : (s : Sample) → In s p.incoming → s.tag_id ≡ tag → s.source_ts ≡ ts → Kept tag ts p
  buffered :
      (r : Row)
      → In r p.buffer.rows
      → r.sample.tag_id ≡ tag
      → r.sample.source_ts ≡ ts
      → Kept tag ts p
  archived : Archives tag ts p.archive → Kept tag ts p
  lost_here :
      (r : Row)
      → CoveredBy p.buffer.lost r
      → r.sample.tag_id ≡ tag
      → r.sample.source_ts ≡ ts
      → Kept tag ts p
  lost_sent :
      (r : Row) (g : LossRow)
      → HasRange g p.collector_loss
      → Covers g r
      → r.sample.tag_id ≡ tag
      → r.sample.source_ts ≡ ts
      → Kept tag ts p

-- A step that only adds to the queue.
pub record Queues (p q : Pipeline) : Type 0 where
  pub extra : List Sample
  pub incoming_is : q.incoming ≡ p.incoming ++ extra
  pub buffer_is : q.buffer ≡ p.buffer
  pub archive_is : q.archive ≡ p.archive
  pub sent_is : q.collector_loss ≡ p.collector_loss

pub Queues-Kept : {tag ts : ℕ} {p q : Pipeline} → Queues p q → Kept tag ts p → Kept tag ts q
Queues-Kept h (queued s l t u) = queued s (rw h.incoming_is (In-append_left h.extra l)) t u
Queues-Kept h (buffered r l t u) = buffered r (rw h.buffer_is l) t u
Queues-Kept h (archived a) = archived (rw h.archive_is a)
Queues-Kept h (lost_here r c t u) = lost_here r (rw h.buffer_is c) t u
Queues-Kept h (lost_sent r g l c t u) = lost_sent r g (rw h.sent_is l) c t u

Queues-same :
    (p q : Pipeline)
    → q.incoming ≡ p.incoming
    → q.buffer ≡ p.buffer
    → q.archive ≡ p.archive
    → q.collector_loss ≡ p.collector_loss
    → Queues p q
Queues-same p q a b c d = record {
  extra = [];
  incoming_is = rw append-nil a;
  buffer_is = b;
  archive_is = c;
  sent_is = d;
}

pub Queues-trans : {p q r : Pipeline} → Queues p q → Queues q r → Queues p r
Queues-trans {p} h k = record {
  extra = h.extra ++ k.extra;
  incoming_is = rw (k.incoming_is, h.incoming_is) (append_assoc p.incoming h.extra k.extra);
  buffer_is = k.buffer_is ∙ h.buffer_is;
  archive_is = k.archive_is ∙ h.archive_is;
  sent_is = k.sent_is ∙ h.sent_is;
}

admit-Queues : (p : Pipeline) (s : Sample) → Queues p (admit p s)
unfolding admit
admit-Queues p s = record {
  extra = _;
  incoming_is = refl;
  buffer_is = refl;
  archive_is = refl;
  sent_is = refl;
}

admit_all-Queues : (p : Pipeline) (ks : List Archived) → Queues p (admit_all p ks)
unfolding admit_all
admit_all-Queues p [] = Queues-same p p refl refl refl refl
admit_all-Queues p (k ∷ ks) =
    Queues-trans (admit-Queues p k.sample) (admit_all-Queues (admit p k.sample) ks)

count_compressed-Queues : (p : Pipeline) (ks : List Archived) → Queues p (count_compressed p ks)
unfolding count_compressed
count_compressed-Queues p [] = Queues-same p _ refl refl refl refl
count_compressed-Queues p (k ∷ ks) = Queues-same p p refl refl refl refl

compress_or_admit-Queues : (p : Pipeline) (s : Sample) → Queues p (compress_or_admit p s)
unfolding compress_or_admit
compress_or_admit-Queues p s = elim (Option-cases (get s.tag_id p.compressors)) [
  | inl e ↦ rw (e, compress_or_admit) (admit-Queues p s)
  | inr (c, e) ↦
      let pushed = TwoStage.push c s in
      let q : Pipeline = record p { compressors = set s.tag_id pushed.0 p.compressors } in
      rw (e, compress_or_admit)
        (Queues-trans (Queues-same p q refl refl refl refl) (
          Queues-trans (count_compressed-Queues q pushed.1)
            (admit_all-Queues (count_compressed q pushed.1) pushed.1)))
]

note_quality-Queues : (p : Pipeline) (s : Sample) → Queues p (note_quality p s)
unfolding note_quality
note_quality-Queues p s = elim (Option-cases (get s.tag_id p.last_quality)) [
  | inl e ↦ rw (e, note_quality) (Queues-same p _ refl refl refl refl)
  | inr (was, e) ↦ elim (Bool-cases (was == s.quality)) [
    | inl same ↦ rw (e, same, note_quality) (Queues-same p _ refl refl refl refl)
    | inr other ↦ rw (e, other, note_quality) (Queues-same p _ refl refl refl refl)
  ]
]

pub on_sample-Queues : (p : Pipeline) (now : ℕ) (s : Sample) → Queues p (on_sample p now s)
unfolding on_sample
on_sample-Queues p now s =
    let q : Pipeline = record p {
      received = p.received + 1;
      rate_window = p.rate_window ++ now ∷ [];
    } in
    let taken : Pipeline = record q { last_ts = set s.tag_id s.source_ts q.last_ts } in
    let told =
      emit (note_quality taken s)
        (value_received s.tag_name s.value s.quality s.source_ts s.server_ts) in
    if_elim (Queues p) (seen_before q s) (λ e. Queues-same p _ refl refl refl refl)
      (λ e. Queues-trans (Queues-same p taken refl refl refl refl) (
        Queues-trans (note_quality-Queues taken s) (
          Queues-trans (Queues-same (note_quality taken s) told refl refl refl refl)
            (compress_or_admit-Queues told s))))

pub on_samples-Queues : (p : Pipeline) (now : ℕ) (ss : List Sample) → Queues p (on_samples p now ss)
unfolding on_samples
on_samples-Queues p now [] = Queues-same p p refl refl refl refl
on_samples-Queues p now (s ∷ ss) =
    Queues-trans (on_sample-Queues p now s) (on_samples-Queues (on_sample p now s) now ss)

pub flush_compressors-Queues :
    (cs : Dict Compressor) (p : Pipeline) → Queues p (flush_compressors cs p)
unfolding flush_compressors
flush_compressors-Queues [] p = Queues-same p p refl refl refl refl
flush_compressors-Queues ((tag, c) ∷ cs) p =
    let flushed = TwoStage.flush c in
    let q : Pipeline = record p { compressors = set tag flushed.0 p.compressors } in
    Queues-trans (Queues-same p q refl refl refl refl) (
      Queues-trans (admit_all-Queues q flushed.1)
        (flush_compressors-Queues cs (admit_all q flushed.1)))

-- What `_buffer` does to the stores: the batch goes through `append`, all else stays.
pub record Buffers (p : Pipeline) (batch : List Sample) (now : ℕ) (q : Pipeline) : Type 0 where
  pub warned : Bool
  pub incoming_is : q.incoming ≡ p.incoming
  pub buffer_is : q.buffer ≡ record (Buffer.append p.buffer batch now).0 { warned = warned }
  pub archive_is : q.archive ≡ p.archive
  pub sent_is : q.collector_loss ≡ p.collector_loss
  pub batch_size_is : q.batch_size ≡ p.batch_size

record Warned (b : Buffer) (r : Buffer × Bool) : Type 0 where
  warned : Bool
  buffer_is : r.0 ≡ record b { warned = warned }

over_high_water-Warned : (b : Buffer) → Warned b (Buffer.over_high_water b)
unfolding Buffer.over_high_water
over_high_water-Warned b =
    if_elim (Warned b) (Buffer.over_threshold b && not b.warned)
      (λ e. record { warned = true; buffer_is = refl })
      (λ e.
        if_elim (Warned b) (not (Buffer.over_threshold b))
          (λ f. record { warned = false; buffer_is = refl })
          (λ f. record { warned = b.warned; buffer_is = refl }))

warn_high_water-Buffers :
    (p x : Pipeline) (batch : List Sample) (now : ℕ)
    → Buffers p batch now x
    → Buffers p batch now (warn_high_water x)
unfolding warn_high_water
warn_high_water-Buffers p x batch now h =
    let w = Buffer.over_high_water x.buffer in
    let same = over_high_water-Warned x.buffer in
    let b : w.0 ≡ record (Buffer.append p.buffer batch now).0 { warned = same.warned } =
      same.buffer_is ∙ ap (λ (y : Buffer). record y { warned = same.warned }) h.buffer_is in
    if_elim (Buffers p batch now) w.1
      (λ e. record {
        warned = same.warned;
        incoming_is = h.incoming_is;
        buffer_is = b;
        archive_is = h.archive_is;
        sent_is = h.sent_is;
        batch_size_is = h.batch_size_is;
      })
      (λ e. record {
        warned = same.warned;
        incoming_is = h.incoming_is;
        buffer_is = b;
        archive_is = h.archive_is;
        sent_is = h.sent_is;
        batch_size_is = h.batch_size_is;
      })

-- The pipeline right after the append, with any events told.
appended-Buffers :
    (p : Pipeline) (batch : List Sample) (now : ℕ) (events : List Event)
    → Buffers p batch now (record p {
      buffer = (Buffer.append p.buffer batch now).0;
      buffered = p.buffered + length batch;
      emitted = events;
    })
appended-Buffers p batch now events = record {
  warned = (Buffer.append p.buffer batch now).0.warned;
  incoming_is = refl;
  buffer_is = refl;
  archive_is = refl;
  sent_is = refl;
  batch_size_is = refl;
}

pub buffer_batch-Buffers :
    (p : Pipeline) (batch : List Sample) (reason : BufferReason) (now : ℕ)
    → Buffers p batch now (buffer_batch p batch reason now)
unfolding buffer_batch
buffer_batch-Buffers p batch reason now =
    let r = Buffer.append p.buffer batch now in
    let told = p.emitted ++ value_buffered (length batch) (Buffer.depth r.0) reason ∷ [] in
    let q : Pipeline = record p {
      buffer = r.0;
      buffered = p.buffered + length batch;
      emitted = told;
    } in
    let loud = emit q (buffer_overflow r.1 r.0.overflowed) in
    if_elim (λ (x : Pipeline). Buffers p batch now (warn_high_water x)) (r.1 == 0)
      (λ e. warn_high_water-Buffers p q batch now (appended-Buffers p batch now told))
      (λ e.
        warn_high_water-Buffers p loud batch now
          (appended-Buffers p batch now (told ++ buffer_overflow r.1 r.0.overflowed ∷ [])))
