-- ===== src/Collector/Pipeline/Empty.antt =====
-- collector/pipeline.py, `drain`: how far it gets while the archive commits and nothing arrives.
use kpcl_hardware.Common.{
  ℕ, zero, suc, ◌+◌, ◌≤◌, ◌<◌, ◌≡◌, ◌∙◌, refl, sym, ap, true, false, Bool, not, List, [], ◌∷◌, map,
  ◌==◌, length, take, keep_if, any_of, In, here, there, All, arith, Bool-cases, inl, inr, if_elim,
  ==_iff,
}
use kpcl_hardware.Collector.Buffer
use kpcl_hardware.Collector.Buffer.{Row, Buffer}
use kpcl_hardware.Collector.Buffer.Ids.{In-of_take_oldest}
use kpcl_hardware.Collector.Sink.{
  Reply, committed, unavailable, unacknowledged, write, insert_losses,
}
use kpcl_hardware.Collector.Pipeline.Drain.{List-cases}
use kpcl_hardware.Collector.Pipeline.{
  Pipeline, Round, DrainEnd, emptied, interrupted, waiting, buffer_queued, forget_rows, write_rows,
  end_round, drain_loop, on_samples, finish_drain, forward_losses, drain,
}

-- The archive commits the write of the round, and no sample arrives meanwhile.
pub record Undisturbed (r : Round) : Type 0 where
  pub commits : r.reply ≡ committed
  pub quiet : r.arrivals ≡ []

length-keep_if {ℓ} : {A : Type ℓ} (p : A → Bool) (xs : List A) → length (keep_if p xs) ≤ length xs
length-keep_if p [] = omega arith
length-keep_if p (x ∷ xs) = elim (Bool-cases (p x)) [
  | inl e ↦ rw e (omega (arith, length-keep_if p xs))
  | inr e ↦ rw e (omega (arith, length-keep_if p xs))
]

-- A list that loses a member gets shorter.
length-keep_if_lt {ℓ} :
    {A : Type ℓ} (p : A → Bool) {x : A} (xs : List A)
    → In x xs
    → p x ≡ false
    → length (keep_if p xs) < length xs
length-keep_if_lt p [] i h = elim i [ ]
length-keep_if_lt p (y ∷ xs) (here e) h =
    let out : p y ≡ false = rw (← e) h in rw out (omega (arith, length-keep_if p xs))
length-keep_if_lt p (y ∷ xs) (there i) h = elim (Bool-cases (p y)) [
  | inl e ↦ rw e (omega (arith, length-keep_if_lt p xs i h))
  | inr e ↦ rw e (omega (arith, length-keep_if p xs))
]

any_of_first : (x : Row) (xs : List Row) → any_of (λ i. x.id == i) (map (λ r. r.id) (x ∷ xs)) ≡ true
any_of_first x xs = ground arith

-- Forgetting what was taken leaves fewer rows.
forget-shorter :
    (b : Buffer) (n : ℕ) (x : Row) (xs : List Row)
    → Buffer.take_oldest b n ≡ x ∷ xs
    → length (Buffer.forget b (map (λ r. r.id) (x ∷ xs))).rows < length b.rows
unfolding Buffer.forget
forget-shorter b n x xs e =
    length-keep_if_lt (λ r. not (any_of (λ i. r.id == i) (map (λ r. r.id) (x ∷ xs)))) {x = x} b.rows
      (In-of_take_oldest b n (rw e (here refl))) (ap not (any_of_first x xs))

length-place : (r : Row) (rs : List Row) → length (Buffer.place r rs) ≡ suc (length rs)
unfolding Buffer.place
length-place r [] = refl
length-place r (q ∷ qs) = elim (Bool-cases (Buffer.row_before r q)) [
  | inl e ↦ rw e refl
  | inr e ↦ rw e (ap suc (length-place r qs))
]

length-sort_rows : (rs : List Row) → length (Buffer.sort_rows rs) ≡ length rs
unfolding Buffer.sort_rows
length-sort_rows [] = refl
length-sort_rows (r ∷ rs) = length-place r (Buffer.sort_rows rs) ∙ ap suc (length-sort_rows rs)

none_taken {ℓ} : {A : Type ℓ} (n : ℕ) (xs : List A) → 0 < n → take n xs ≡ [] → length xs ≡ 0
none_taken zero xs h e = absurd (omega arith)
none_taken (suc n) [] h e = refl
none_taken (suc n) (x ∷ xs) h e = cc

pub none_left {ℓ} : {A : Type ℓ} (xs : List A) → length xs ≡ 0 → xs ≡ []
none_left [] e = refl
none_left (x ∷ xs) e = absurd (omega arith)

-- A buffer from which nothing is taken is empty.
take_oldest-none : (b : Buffer) (n : ℕ) → 0 < n → Buffer.take_oldest b n ≡ [] → b.rows ≡ []
unfolding Buffer.take_oldest
take_oldest-none b n h e =
    none_left b.rows (sym (length-sort_rows b.rows) ∙ none_taken n (Buffer.sort_rows b.rows) h e)

-- What the loop of `drain` leaves when it ends by itself.
pub record Empties (r : Pipeline × DrainEnd × ℕ) : Type 0 where
  pub ends : r.1 ≡ emptied
  pub empty : r.0.buffer.rows ≡ []

pub buffer_queued-none : (p : Pipeline) (now : ℕ) → p.incoming ≡ [] → buffer_queued p now ≡ p
unfolding buffer_queued
buffer_queued-none p now e = simp (e, buffer_queued) refl

drain_loop-Empties :
    (rounds : List Round) (p : Pipeline) (replayed : ℕ)
    → p.incoming ≡ []
    → 0 < p.batch_size
    → All Undisturbed rounds
    → length p.buffer.rows < length rounds
    → Empties (drain_loop rounds p replayed)
unfolding drain_loop end_round write_rows on_samples write forget_rows
drain_loop-Empties [] p replayed i n u h = absurd (omega arith)
drain_loop-Empties (r ∷ rounds) p replayed i n u h =
    rw (buffer_queued-none p r.now i)
      (elim (List-cases (Buffer.take_oldest p.buffer p.batch_size)) [
        | inl e ↦ rw e (record { ends = refl; empty = take_oldest-none p.buffer p.batch_size n e })
        | inr (x, xs, e) ↦
            let fewer = forget-shorter p.buffer p.batch_size x xs e in
            rw (e, u.0.commits, u.0.quiet)
              (drain_loop-Empties rounds _ (replayed + length (x ∷ xs)) i n u.1 (omega arith))
      ])

pub forward_losses-rows :
    (p : Pipeline) (reply : Reply) → (forward_losses p reply).buffer.rows ≡ p.buffer.rows
unfolding forward_losses Buffer.forget_losses
forward_losses-rows p reply =
    if_elim (λ (q : Pipeline). q.buffer.rows ≡ p.buffer.rows) (Buffer.pending_losses p.buffer == 0)
      (λ e. refl) (λ e. answer reply)
  where
    answer :
        (r : Reply)
        → (elim r as (λ x. Pipeline) [
          | committed ↦ record p {
            collector_loss = insert_losses p.collector_loss (map (λ l. l.1) p.buffer.lost);
            buffer = record (p.buffer) {
              lost =
                  keep_if
                    (λ l. not (any_of (λ i. l.0 == i) (map (λ l. l.0) p.buffer.lost)))
                    p.buffer.lost;
            };
          }
          | unavailable ↦ p
          | unacknowledged ↦ record p {
            collector_loss = insert_losses p.collector_loss (map (λ l. l.1) p.buffer.lost);
          }
        ]).buffer.rows
          ≡ p.buffer.rows
    answer committed = refl
    answer unavailable = refl
    answer unacknowledged = refl

finish_drain-empty :
    (r : Pipeline × DrainEnd × ℕ) (reply : Reply)
    → Empties r
    → (finish_drain r reply).buffer.rows ≡ []
unfolding finish_drain
finish_drain-empty (p, emptied, n) reply e =
    forward_losses-rows (record p { draining = false }) reply ∙ e.empty
finish_drain-empty (p, interrupted, n) reply e = e.empty
finish_drain-empty (p, waiting, n) reply e = e.empty

-- While the archive commits every batch and no sample is queued or arrives, a drain that takes at least
-- one row at a time ends by itself, after no more batches than there are rows and one look at the empty
-- buffer, and leaves the buffer empty.
pub drain-Empties :
    (p : Pipeline) (rounds : List Round) (reply : Reply)
    → p.incoming ≡ []
    → 0 < p.batch_size
    → All Undisturbed rounds
    → length p.buffer.rows < length rounds
    → Empties (drain_loop rounds p 0) × ((drain p rounds reply).buffer.rows ≡ [])
unfolding drain
drain-Empties p rounds reply i n u h = (
  drain_loop-Empties rounds p 0 i n u h,
  if_elim (λ (q : Pipeline). q.buffer.rows ≡ []) (Buffer.depth p.buffer == 0)
      (λ e. forward_losses-rows p reply ∙ none_left p.buffer.rows ((==_iff _ 0).0 e))
      (λ e. finish_drain-empty _ reply (drain_loop-Empties rounds _ 0 i n u h)),
)
