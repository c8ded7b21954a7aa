-- ===== src/Collector/Pipeline/NoLoss.antt =====
-- collector/pipeline.py: the rounds of `drain`, and `_try_recover`.
use kpcl_hardware.Common.{
  ℕ, ◌+◌, Bool, true, false, ◌≡◌, refl, List, [], ◌∷◌, map, ◌==◌, length, In, if_elim,
}
use kpcl_hardware.Collector.Buffer
use kpcl_hardware.Collector.Buffer.{Row, Buffer}
use kpcl_hardware.Collector.Buffer.Ids.{forget-IdsValid, In-of_take_oldest}
use kpcl_hardware.Collector.Sink.{Archives, Reply, write}
use kpcl_hardware.Collector.Pipeline.{
  Pipeline, Round, DrainEnd, emptied, interrupted, waiting, emit, set_link, forward_losses,
  buffer_queued, forget_rows, write_rows, end_round, drain_loop, finish_drain, drain,
  buffer_drained, buffer_drain_started, try_recover,
}
use kpcl_hardware.Collector.Pipeline.Keep.{on_samples-Queues}
use kpcl_hardware.Collector.Pipeline.Secure.{
  Sound, Sound-Queues, SameStores, SameStores-Sound, set_link-SameStores,
}
use kpcl_hardware.Collector.Pipeline.Drain.{
  write-Archives, write-Sound, forward_losses-Sound, buffer_queued-Sound, forget_rows-Kept, In-map,
}

-- The pipeline that a loop of `drain` leaves is sound.
record SoundEnd (tag ts : ℕ) (r : Pipeline × DrainEnd × ℕ) : Type 0 where
  sound : Sound tag ts r.0

pub write_rows-Sound :
    {tag ts : ℕ} (p : Pipeline) (r : Round) (rows : List Row)
    → Sound tag ts p
    → Sound tag ts (write_rows p r rows).0
unfolding write_rows
write_rows-Sound p r rows s =
    let batch = map (λ (x : Row). x.sample) rows in
    Sound-Queues
      (on_samples-Queues (record p { archive = (write r.reply p.archive batch).0 }) r.now
        r.arrivals)
      (write-Sound r.reply batch s)

-- After a write that was seen to succeed the taken rows are still buffered, and archived.
write_rows-stored :
    (p : Pipeline) (r : Round) (rows : List Row)
    → ((x : Row) → In x rows → In x p.buffer.rows)
    → (write_rows p r rows).1 ≡ true
    → (x : Row) → In x rows
    → In x (write_rows p r rows).0.buffer.rows
      × Archives x.sample.tag_id x.sample.source_ts (write_rows p r rows).0.archive
unfolding write_rows
write_rows-stored p r rows taken ok x l =
    let batch = map (λ (x : Row). x.sample) rows in
    let w = write r.reply p.archive batch in
    let queues = on_samples-Queues (record p { archive = w.0 }) r.now r.arrivals in
    (
      rw queues.buffer_is (taken x l),
      rw queues.archive_is
          (write-Archives r.reply p.archive batch ok (In-map (λ (y : Row). y.sample) l)),
    )

forget_rows-Sound :
    {tag ts : ℕ} (p : Pipeline) (rows : List Row) (now : ℕ)
    → ((r : Row)
        → In r rows
        → In r p.buffer.rows × Archives r.sample.tag_id r.sample.source_ts p.archive)
    → Sound tag ts p
    → Sound tag ts (forget_rows p rows now)
unfolding forget_rows
forget_rows-Sound p rows now stored s = record {
  ids = forget-IdsValid p.buffer (map (λ r. r.id) rows) s.ids;
  kept = forget_rows-Kept p rows now s.ids stored s.kept;
}

end_round-SoundEnd :
    {tag ts : ℕ} (p : Pipeline) (r : Round) (rows : List Row) (replayed : ℕ)
    (next : Pipeline × DrainEnd × ℕ)
    → Sound tag ts p
    → ((write_rows p r rows).1 ≡ true → SoundEnd tag ts next)
    → SoundEnd tag ts (end_round p r rows replayed next)
unfolding end_round
end_round-SoundEnd p r [] replayed next s k = record { sound = s }
end_round-SoundEnd {tag} {ts} p r (x ∷ xs) replayed next s k =
    let w = write_rows p r (x ∷ xs) in
    if_elim (SoundEnd tag ts) w.1 k (λ e. record {
      sound = SameStores-Sound (set_link-SameStores w.0 false) (write_rows-Sound p r (x ∷ xs) s);
    })

drain_loop-SoundEnd :
    {tag ts : ℕ} (rounds : List Round) (p : Pipeline) (replayed : ℕ)
    → Sound tag ts p
    → SoundEnd tag ts (drain_loop rounds p replayed)
unfolding drain_loop
drain_loop-SoundEnd [] p replayed s = record { sound = s }
drain_loop-SoundEnd (r ∷ rounds) p replayed s =
    let q = buffer_queued p r.now in
    let rows = Buffer.take_oldest q.buffer q.batch_size in
    let qs = buffer_queued-Sound p r.now s in
    let w = (write_rows q r rows).0 in
    end_round-SoundEnd q r rows replayed
      (drain_loop rounds (forget_rows w rows r.now) (replayed + length rows)) qs
      (λ ok. drain_loop-SoundEnd rounds (forget_rows w rows r.now) (replayed + length rows) (
        forget_rows-Sound w rows r.now
          (write_rows-stored q r rows (λ x l. In-of_take_oldest q.buffer q.batch_size l) ok)
          (write_rows-Sound q r rows qs)))

-- Telling an event, or a change of the flags and counters, keeps a pipeline sound.
quiet : {tag ts : ℕ} (p q : Pipeline) → SameStores p q → Sound tag ts p → Sound tag ts q
quiet p q h s = SameStores-Sound h s

finish_drain-Sound :
    {tag ts : ℕ} (p : Pipeline) (end : DrainEnd) (n : ℕ) (reply : Reply)
    → Sound tag ts p
    → Sound tag ts (finish_drain (p, end, n) reply)
unfolding finish_drain
finish_drain-Sound p emptied n reply s =
    let q : Pipeline = record p { draining = false } in
    let r = forward_losses q reply in
    quiet r (emit r (buffer_drained n (Buffer.depth r.buffer)))
      (record { incoming_is = refl; buffer_is = refl; archive_is = refl; sent_is = refl })
      (forward_losses-Sound q reply (
        quiet p q
          (record { incoming_is = refl; buffer_is = refl; archive_is = refl; sent_is = refl }) s))
finish_drain-Sound p interrupted n reply s =
    quiet p _ (record { incoming_is = refl; buffer_is = refl; archive_is = refl; sent_is = refl }) s
finish_drain-Sound p waiting n reply s = s

pub drain-Sound :
    {tag ts : ℕ} (p : Pipeline) (rounds : List Round) (reply : Reply)
    → Sound tag ts p
    → Sound tag ts (drain p rounds reply)
unfolding drain
drain-Sound {tag} {ts} p rounds reply s =
    let d = Buffer.depth p.buffer in
    let started : Pipeline = emit (record p { draining = true }) (buffer_drain_started d) in
    let r = drain_loop rounds started 0 in
    if_elim (Sound tag ts) (d == 0) (λ e. forward_losses-Sound p reply s)
      (λ e.
        finish_drain-Sound r.0 r.1 r.2 reply
          (drain_loop-SoundEnd rounds started 0 (
            quiet p started
              (record { incoming_is = refl; buffer_is = refl; archive_is = refl; sent_is = refl })
              s)).sound)

pub try_recover-Sound :
    {tag ts : ℕ} (p : Pipeline) (up : Bool) (rounds : List Round) (reply : Reply)
    → Sound tag ts p
    → Sound tag ts (try_recover p up rounds reply)
unfolding try_recover
try_recover-Sound {tag} {ts} p up rounds reply s =
    if_elim (Sound tag ts) up
      (λ e.
        drain-Sound (set_link p true) rounds reply
          (SameStores-Sound (set_link-SameStores p true) s))
      (λ e. s)

pub drain_loop-Sound :
    {tag ts : ℕ} (rounds : List Round) (p : Pipeline) (replayed : ℕ)
    → Sound tag ts p
    → Sound tag ts (drain_loop rounds p replayed).0
drain_loop-Sound rounds p replayed s = (drain_loop-SoundEnd rounds p replayed s).sound
