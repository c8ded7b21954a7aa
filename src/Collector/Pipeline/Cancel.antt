-- ===== src/Collector/Pipeline/Cancel.antt =====
-- collector/main.py, the stop: what the forwarder task of collector/pipeline.py leaves behind when it is
-- cancelled. A batch that it holds is a local variable and is gone with the task.
use kpcl_hardware.Common.{
  ℕ, ◌≤◌, ◌-◌, suc, ◌≡◌, refl, true, false, not, some, none, List, [], ◌∷◌, ◌==◌, leb,
  if◌then◌else◌, take, drop, ◌⊎◌, inl, inr, In-append, take-append-drop, if_elim,
}
use kpcl_hardware.Collector.Model.{Sample}
use kpcl_hardware.Collector.Buffer
use kpcl_hardware.Collector.Buffer.{Buffer}
use kpcl_hardware.Collector.Sink.{Reply, committed, unavailable, unacknowledged, write}
use kpcl_hardware.Collector.Pipeline.{
  Pipeline, Round, Forward, DrainEnd, emptied, interrupted, waiting, emit, buffer_batch, set_link,
  collect_batch, buffer_queued, write_rows, drain_loop, forward_losses, link_down,
  buffer_drain_started,
}
use kpcl_hardware.Collector.Pipeline.Keep.{Kept, queued, buffered, archived, lost_here, lost_sent}
use kpcl_hardware.Collector.Pipeline.Secure.{
  Carries, Sound, Flying, buffer_batch-Sound, SameStores-Sound, set_link-SameStores,
}
use kpcl_hardware.Collector.Pipeline.Drain.{
  write-Sound, forward_losses-Sound, buffer_queued-Sound, List-cases,
}
use kpcl_hardware.Collector.Pipeline.NoLoss.{write_rows-Sound, drain_loop-Sound}

-- Where `task.cancel()` finds `run_forwarder`: in `_collect_batch` with that many samples taken; or in
-- the round that a `Forward` describes, which awaits the write of its batch, the reconnection, a write
-- of the drain, described by the `Round` after those that are over, or the write of the losses.
pub data Cancel : Type 0 where
  collecting : ℕ → Cancel
  at_work : Forward → Round → Cancel

-- The task that is cancelled sees no answer.
unfoldable pub unanswered : Reply → Reply
unanswered committed = unacknowledged
unanswered unavailable = unavailable
unanswered unacknowledged = unacknowledged

-- What a cancelled `drain` leaves, once the rounds that were over are gone through.
unfoldable pub stop_drain : Pipeline × DrainEnd × ℕ → Round → Reply → Pipeline
unfolding buffer_queued Buffer.take_oldest write_rows forward_losses unanswered
stop_drain (p, waiting, n) r reply =
    let q = buffer_queued p r.now in
    record ((write_rows q r (Buffer.take_oldest q.buffer q.batch_size)).0) { draining = false }
stop_drain (p, emptied, n) r reply =
    forward_losses (record p { draining = false }) (unanswered reply)
stop_drain (p, interrupted, n) r reply = record p { draining = false }

unfoldable pub cancel_drain : Pipeline → List Round → Round → Reply → Pipeline
unfolding stop_drain drain_loop forward_losses unanswered
cancel_drain p rounds r reply =
    let d = Buffer.depth p.buffer in
    let started : Pipeline = emit (record p { draining = true }) (buffer_drain_started d) in
    if d == 0
    then forward_losses p (unanswered reply)
    else stop_drain (drain_loop rounds started 0) r reply

unfoldable pub cancel_recover : Pipeline → Forward → Round → Pipeline
unfolding set_link cancel_drain
cancel_recover p f r =
    if f.connects then cancel_drain (set_link p true) f.rounds r f.loss_reply else p

-- A round that holds a batch, and the samples that are gone.
unfoldable pub cancel_batch : Pipeline → List Sample → Forward → Round → Pipeline × List Sample
unfolding buffer_batch cancel_recover write
cancel_batch p batch f r =
    if not p.link_up
    then (cancel_recover (buffer_batch p batch link_down f.now) f r, [])
    else (record p { archive = (write f.reply p.archive batch).0 }, batch)

-- `task.cancel()`: the pipeline, and the samples that are gone.
unfoldable pub cancel_forwarder : Pipeline → Cancel → Pipeline × List Sample
unfolding collect_batch cancel_batch
cancel_forwarder p (collecting n) =
    let taken = if leb n p.batch_size then n else p.batch_size in
    (record p { incoming = drop taken p.incoming }, take taken p.incoming)
cancel_forwarder p (at_work f r) = elim (collect_batch p f.more) [
  | none ↦ (p, [])
  | some (q, batch) ↦ cancel_batch q batch f r
]

stop_drain-Sound :
    {tag ts : ℕ} (p : Pipeline) (end : DrainEnd) (n : ℕ) (r : Round) (reply : Reply)
    → Sound tag ts p
    → Sound tag ts (stop_drain (p, end, n) r reply)
unfolding stop_drain
stop_drain-Sound p waiting n r reply s =
    let q = buffer_queued p r.now in
    SameStores-Sound
      (record { incoming_is = refl; buffer_is = refl; archive_is = refl; sent_is = refl })
      (write_rows-Sound q r (Buffer.take_oldest q.buffer q.batch_size)
        (buffer_queued-Sound p r.now s))
stop_drain-Sound p emptied n r reply s =
    forward_losses-Sound (record p { draining = false }) (unanswered reply)
      (SameStores-Sound
        (record { incoming_is = refl; buffer_is = refl; archive_is = refl; sent_is = refl }) s)
stop_drain-Sound p interrupted n r reply s =
    SameStores-Sound
      (record { incoming_is = refl; buffer_is = refl; archive_is = refl; sent_is = refl }) s

cancel_recover-Sound :
    {tag ts : ℕ} (p : Pipeline) (f : Forward) (r : Round)
    → Sound tag ts p
    → Sound tag ts (cancel_recover p f r)
unfolding cancel_recover cancel_drain
cancel_recover-Sound {tag} {ts} p f r s =
    let q = set_link p true in
    let d = Buffer.depth q.buffer in
    let started : Pipeline = emit (record q { draining = true }) (buffer_drain_started d) in
    let looped = drain_loop f.rounds started 0 in
    let qs = SameStores-Sound (set_link-SameStores p true) s in
    if_elim (Sound tag ts) f.connects
      (λ e.
        if_elim (Sound tag ts) (d == 0) (λ e. forward_losses-Sound q (unanswered f.loss_reply) qs)
          (λ e. stop_drain-Sound looped.0 looped.1 looped.2 r f.loss_reply (
            drain_loop-Sound f.rounds started 0 (
              SameStores-Sound
                (record { incoming_is = refl; buffer_is = refl; archive_is = refl; sent_is = refl })
                qs))))
      (λ e. s)

-- The samples that are taken off the queue and those that are left are what the queue held.
pub take-Flying :
    {tag ts : ℕ} (p : Pipeline) (n : ℕ)
    → Sound tag ts p
    → Flying tag ts (take n p.incoming) (record p { incoming = drop n p.incoming })
take-Flying {tag} {ts} p n s = record { ids = s.ids; kept = taken s.kept }
  where
    taken :
        Kept tag ts p
        → Kept tag ts (record p { incoming = drop n p.incoming })
          ⊎ Carries tag ts (take n p.incoming)
    taken (queued x l t u) =
        elim (In-append (take n p.incoming) (rw (← take-append-drop n p.incoming) at l)) [
          | inl k ↦ inr (record { sample = x; listed = k; tag_is = t; ts_is = u })
          | inr k ↦ inl (queued x k t u)
        ]
    taken (buffered r l t u) = inl (buffered r l t u)
    taken (archived a) = inl (archived a)
    taken (lost_here r c t u) = inl (lost_here r c t u)
    taken (lost_sent r g l c t u) = inl (lost_sent r g l c t u)

-- What a cancellation leaves of a sample: it is kept, or it is gone with the batch.
abbrev pub Left : ℕ → ℕ → Pipeline × List Sample → Type 0
Left tag ts r = Sound tag ts r.0 ⊎ Carries tag ts r.1

Flying-Left :
    {tag ts : ℕ} {p : Pipeline} {batch : List Sample}
    → Flying tag ts batch p
    → Left tag ts (p, batch)
Flying-Left h = elim h.kept [ inl k ↦ inl (record { ids = h.ids; kept = k }) | inr c ↦ inr c ]

cancel_batch-Left :
    {tag ts : ℕ} (p : Pipeline) (batch : List Sample) (f : Forward) (r : Round)
    → Flying tag ts batch p
    → Left tag ts (cancel_batch p batch f r)
unfolding cancel_batch
cancel_batch-Left {tag} {ts} p batch f r h =
    if_elim (Left tag ts) (not p.link_up)
      (λ e. inl (
        cancel_recover-Sound (buffer_batch p batch link_down f.now) f r
          (buffer_batch-Sound tag ts p batch link_down f.now h)))
      (λ e. elim h.kept [
        | inl k ↦ inl (write-Sound f.reply batch (record { ids = h.ids; kept = k }))
        | inr c ↦ inr c
      ])

pub cancel_forwarder-Left :
    {tag ts : ℕ} (p : Pipeline) (k : Cancel) → Sound tag ts p → Left tag ts (cancel_forwarder p k)
unfolding cancel_forwarder collect_batch
cancel_forwarder-Left p (collecting n) s =
    Flying-Left (take-Flying p (if leb n p.batch_size then n else p.batch_size) s)
cancel_forwarder-Left {tag} {ts} p (at_work f r) s = elim (List-cases p.incoming) [
  | inl e ↦ rw (e, cancel_forwarder, collect_batch) (inl s)
  | inr (first, rest, e) ↦
      let n = if leb f.more (p.batch_size - 1) then f.more else p.batch_size - 1 in
      rw (e, cancel_forwarder, collect_batch)
        (cancel_batch-Left (record p { incoming = drop n rest }) (first ∷ take n rest) f r
          (rw e at (take-Flying p (suc n) s)))
]

-- The samples are the first ones of the queue, no more of them than the limit.
pub record FrontOf (limit : ℕ) (queue gone : List Sample) : Type 0 where
  pub count : ℕ
  pub few : count ≤ limit
  pub front : gone ≡ take count queue
