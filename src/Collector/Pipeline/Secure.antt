-- ===== src/Collector/Pipeline/Secure.antt =====
-- collector/pipeline.py: where the samples of a batch are while a step has them in hand.
use kpcl_hardware.Common.{ℕ, Bool, ◌≡◌, refl, ◌∙◌, ◌⊎◌, inl, inr, List, In, if_elim}
use kpcl_hardware.Collector.Model.{Sample}
use kpcl_hardware.Collector.Buffer.{Buffer}
use kpcl_hardware.Collector.Buffer.Bound.{append-Accounted, append-Settled, append-CoveredBy}
use kpcl_hardware.Collector.Buffer.Ids.{IdsValid, append-IdsValid}
use kpcl_hardware.Collector.Pipeline.{Pipeline, BufferReason, buffer_batch, set_link, same_bool}
use kpcl_hardware.Collector.Pipeline.Keep.{
  Kept, queued, buffered, archived, lost_here, lost_sent, Queues, Queues-Kept, Buffers,
  buffer_batch-Buffers,
}

-- A sample of that key in a list.
pub record Carries (tag ts : ℕ) (batch : List Sample) : Type 0 where
  pub sample : Sample
  pub listed : In sample batch
  pub tag_is : sample.tag_id ≡ tag
  pub ts_is : sample.source_ts ≡ ts

-- Kept, with the ids of the buffer in order.
pub record Sound (tag ts : ℕ) (p : Pipeline) : Type 0 where
  pub ids : IdsValid p.buffer
  pub kept : Kept tag ts p

-- Kept, or in the hands of the step that took the batch off the queue.
pub record Flying (tag ts : ℕ) (batch : List Sample) (p : Pipeline) : Type 0 where
  pub ids : IdsValid p.buffer
  pub kept : Kept tag ts p ⊎ Carries tag ts batch

Kept-append :
    (tag ts : ℕ) (p q : Pipeline) (batch : List Sample) (now : ℕ)
    → Buffers p batch now q
    → Kept tag ts p
    → Kept tag ts q
Kept-append tag ts p q batch now h (queued s l t u) = queued s (rw h.incoming_is l) t u
Kept-append tag ts p q batch now h (buffered r l t u) = elim (append-Settled p.buffer batch now l) [
  | inl k ↦ buffered r (rw h.buffer_is k) t u
  | inr c ↦ lost_here r (rw h.buffer_is c) t u
]
Kept-append tag ts p q batch now h (archived a) = archived (rw h.archive_is a)
Kept-append tag ts p q batch now h (lost_here r c t u) =
    lost_here r (rw h.buffer_is (append-CoveredBy p.buffer batch now c)) t u
Kept-append tag ts p q batch now h (lost_sent r g l c t u) = lost_sent r g (rw h.sent_is l) c t u

Carries-append :
    (tag ts : ℕ) (p q : Pipeline) (batch : List Sample) (now : ℕ)
    → Buffers p batch now q
    → Carries tag ts batch
    → Kept tag ts q
Carries-append tag ts p q batch now h c =
    let a = append-Accounted p.buffer batch now c.listed in
    elim a.settled [
      | inl l ↦ buffered a.row (rw h.buffer_is l) (a.tag_is ∙ c.tag_is) (a.ts_is ∙ c.ts_is)
      | inr l ↦ lost_here a.row (rw h.buffer_is l) (a.tag_is ∙ c.tag_is) (a.ts_is ∙ c.ts_is)
    ]

pub IdsValid-warned : (b : Buffer) (w : Bool) → IdsValid b → IdsValid (record b { warned = w })
IdsValid-warned b w h = record { ascend = h.ascend; below = h.below }

-- `_buffer` secures the batch, and keeps the rest.
pub buffer_batch-Sound :
    (tag ts : ℕ) (p : Pipeline) (batch : List Sample) (reason : BufferReason) (now : ℕ)
    → Flying tag ts batch p
    → Sound tag ts (buffer_batch p batch reason now)
buffer_batch-Sound tag ts p batch reason now f =
    let h = buffer_batch-Buffers p batch reason now in
    let q = buffer_batch p batch reason now in
    record {
      ids = rw h.buffer_is (IdsValid-warned _ h.warned (append-IdsValid p.buffer batch now f.ids));
      kept = elim f.kept [
        | inl k ↦ Kept-append tag ts p q batch now h k
        | inr c ↦ Carries-append tag ts p q batch now h c
      ];
    }

pub Sound-Queues : {tag ts : ℕ} {p q : Pipeline} → Queues p q → Sound tag ts p → Sound tag ts q
Sound-Queues h s = record { ids = rw h.buffer_is s.ids; kept = Queues-Kept h s.kept }

-- A step that leaves the stores alone.
pub record SameStores (p q : Pipeline) : Type 0 where
  pub incoming_is : q.incoming ≡ p.incoming
  pub buffer_is : q.buffer ≡ p.buffer
  pub archive_is : q.archive ≡ p.archive
  pub sent_is : q.collector_loss ≡ p.collector_loss

pub SameStores-refl : (p : Pipeline) → SameStores p p
SameStores-refl p = record {
  incoming_is = refl;
  buffer_is = refl;
  archive_is = refl;
  sent_is = refl;
}

SameStores-Kept : {tag ts : ℕ} {p q : Pipeline} → SameStores p q → Kept tag ts p → Kept tag ts q
SameStores-Kept h (queued s l t u) = queued s (rw h.incoming_is l) t u
SameStores-Kept h (buffered r l t u) = buffered r (rw h.buffer_is l) t u
SameStores-Kept h (archived a) = archived (rw h.archive_is a)
SameStores-Kept h (lost_here r c t u) = lost_here r (rw h.buffer_is c) t u
SameStores-Kept h (lost_sent r g l c t u) = lost_sent r g (rw h.sent_is l) c t u

pub SameStores-Sound :
    {tag ts : ℕ} {p q : Pipeline} → SameStores p q → Sound tag ts p → Sound tag ts q
SameStores-Sound h s = record { ids = rw h.buffer_is s.ids; kept = SameStores-Kept h s.kept }

pub set_link-SameStores : (p : Pipeline) (up : Bool) → SameStores p (set_link p up)
unfolding set_link
set_link-SameStores p up =
    if_elim (SameStores p) (same_bool up p.link_up) (λ e. SameStores-refl p)
      (λ e. record { incoming_is = refl; buffer_is = refl; archive_is = refl; sent_is = refl })
