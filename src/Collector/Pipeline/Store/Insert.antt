-- ===== src/Collector/Pipeline/Store/Insert.antt =====
-- collector/sink.py and collector/buffer.py: both INSERTs, on the store.
use kpcl_hardware.Common.{
  ℕ, ◌+◌, ◌≤◌, ◌≡◌, ◌∙◌, refl, sym, ap, true, false, Option, none, some, List, [], ◌∷◌, ◌++◌,
  length, leb, any_of, In, here, there, arith, Bool-cases, inl, inr, if_elim, In-append,
  length-append,
}
use kpcl_hardware.Collector.Model.{Sample}
use kpcl_hardware.Collector.Buffer.{
  Row, Buffer, same_key, insert_or_ignore, insert_all, enforce_bound, append,
}
use kpcl_hardware.Collector.Sink.{conflicts, insert_sample, write_samples}
use kpcl_hardware.Collector.Pipeline.Store.{
  has_key, found, or_else, samples, or_else_assoc, found-append, OneEach,
}

-- A key of a sample that clashes is found already.
found-conflicts :
    (tag ts : ℕ) (archive : List Sample) (s : Sample)
    → any_of (conflicts s) archive ≡ true
    → or_else (found tag ts archive) (found tag ts (s ∷ [])) ≡ found tag ts archive
unfolding found has_key or_else conflicts
found-conflicts tag ts [] s h = cc
found-conflicts tag ts (a ∷ archive) s h = ground (arith, found-conflicts tag ts archive s)

found-insert_sample :
    (tag ts : ℕ) (archive : List Sample) (s : Sample)
    → found tag ts (insert_sample archive s)
      ≡ or_else (found tag ts archive) (found tag ts (s ∷ []))
unfolding insert_sample
found-insert_sample tag ts archive s = elim (Bool-cases (any_of (conflicts s) archive)) [
  | inl e ↦ rw e (sym (found-conflicts tag ts archive s e))
  | inr e ↦ rw e (found-append tag ts archive (s ∷ []))
]

pub or_else-none : (a : Option Sample) → or_else a none ≡ a
unfolding or_else
or_else-none none = refl
or_else-none (some a) = refl

-- What the archive holds after a batch: what it held, or else the batch's first sample of the key.
pub found-write_samples :
    (tag ts : ℕ) (archive ss : List Sample)
    → found tag ts (write_samples archive ss) ≡ or_else (found tag ts archive) (found tag ts ss)
unfolding write_samples found
found-write_samples tag ts archive [] = sym (or_else-none (found tag ts archive))
found-write_samples tag ts archive (s ∷ ss) =
    found-write_samples tag ts (insert_sample archive s) ss
    ∙ ap (λ (o : Option Sample). or_else o (found tag ts ss)) (found-insert_sample tag ts archive s)
    ∙ or_else_assoc (found tag ts archive) (found tag ts (s ∷ [])) (found tag ts ss)
    ∙ ap (or_else (found tag ts archive)) (sym (found-append tag ts (s ∷ []) ss))

any_of-samples :
    (s : Sample) (rows : List Row) → any_of (conflicts s) (samples rows) ≡ any_of (same_key s) rows
unfolding conflicts same_key
any_of-samples s [] = refl
any_of-samples s (r ∷ rows) = rw (any_of-samples s rows) refl

samples-append : (rows qs : List Row) → samples (rows ++ qs) ≡ samples rows ++ samples qs
samples-append [] qs = refl
samples-append (r ∷ rows) qs = rw (samples-append rows qs) refl

samples-insert_or_ignore :
    (n : ℕ) (rows : List Row) (s : Sample)
    → samples (insert_or_ignore n rows s).1 ≡ insert_sample (samples rows) s
unfolding insert_or_ignore insert_sample
samples-insert_or_ignore n rows s =
    rw (any_of-samples s rows) (elim (Bool-cases (any_of (same_key s) rows)) [
      | inl e ↦ rw e refl
      | inr e ↦ rw e (samples-append rows _)
    ])

-- The buffer's statement and the archive's are the same one.
pub samples-insert_all :
    (n : ℕ) (rows : List Row) (ss : List Sample)
    → samples (insert_all n rows ss).1 ≡ write_samples (samples rows) ss
unfolding insert_all write_samples
samples-insert_all n rows [] = refl
samples-insert_all n rows (s ∷ ss) =
    let r = insert_or_ignore n rows s in
    samples-insert_all r.0 r.1 ss
    ∙ ap (λ (a : List Sample). write_samples a ss) (samples-insert_or_ignore n rows s)

length-insert_or_ignore :
    (n : ℕ) (rows : List Row) (s : Sample) → length (insert_or_ignore n rows s).1 ≤ length rows + 1
unfolding insert_or_ignore
length-insert_or_ignore n rows s =
    let added : Row = record { id = n; sample = s } in
    if_elim (λ (x : ℕ × List Row). length x.1 ≤ length rows + 1) (any_of (same_key s) rows)
      (λ e. omega arith) (λ e. omega (arith, length-append rows (added ∷ [])))

length-insert_all :
    (n : ℕ) (rows : List Row) (ss : List Sample)
    → length (insert_all n rows ss).1 ≤ length rows + length ss
unfolding insert_all
length-insert_all n rows [] = omega arith
length-insert_all n rows (s ∷ ss) =
    let r = insert_or_ignore n rows s in
    omega (arith, length-insert_all r.0 r.1 ss, length-insert_or_ignore n rows s)

-- With room for all of them, `append` puts its samples where the archive would have put them.
pub samples-append_lem :
    (b : Buffer) (ss : List Sample) (now : ℕ)
    → length b.rows + length ss ≤ b.max_rows
    → samples (append b ss now).0.rows ≡ write_samples (samples b.rows) ss
unfolding append enforce_bound write_samples
samples-append_lem b [] now h = refl
samples-append_lem b (s ∷ ss) now h =
    let fits = length-insert_all b.next_id b.rows (s ∷ ss) in
    let le : leb (length (insert_all b.next_id b.rows (s ∷ ss)).1) b.max_rows ≡ true =
      ground arith in
    rw le (samples-insert_all b.next_id b.rows (s ∷ ss))

-- A row and a sample of one key clash.
clash :
    (tag ts : ℕ) {r : Row} (rows : List Row) (s : Sample)
    → In r rows
    → has_key tag ts r.sample ≡ true
    → has_key tag ts s ≡ true
    → any_of (same_key s) rows ≡ true
unfolding has_key same_key
clash tag ts [] s l k j = elim l [ ]
clash tag ts {r} (q ∷ rows) s (here e) k j =
    let key : has_key tag ts q.sample ≡ true = rw (← e) k in ground arith
clash tag ts (q ∷ rows) s (there l) k j = let rest = clash tag ts rows s l k j in ground arith

In_single : {r q : Row} → In r (q ∷ []) → r ≡ q
In_single (here e) = e
In_single (there l) = elim l [ ]

OneEach-add :
    (rows : List Row) (added : Row)
    → OneEach rows
    → any_of (same_key added.sample) rows ≡ false
    → OneEach (rows ++ added ∷ [])
OneEach-add rows added one e tag ts r q l m k j = elim (In-append rows {ys = added ∷ []} l) [
  | inl old ↦ elim (In-append rows {ys = added ∷ []} m) [
    | inl too ↦ one tag ts r q old too k j
    | inr new ↦ let hit = clash tag ts rows added.sample old k (rw (← In_single new) j) in cc
  ]
  | inr new ↦ elim (In-append rows {ys = added ∷ []} m) [
    | inl old ↦ let hit = clash tag ts rows added.sample old j (rw (← In_single new) k) in cc
    | inr too ↦ In_single new ∙ sym (In_single too)
  ]
]

insert_or_ignore-OneEach :
    (n : ℕ) (rows : List Row) (s : Sample) → OneEach rows → OneEach (insert_or_ignore n rows s).1
unfolding insert_or_ignore
insert_or_ignore-OneEach n rows s one =
    if_elim (λ (x : ℕ × List Row). OneEach x.1) (any_of (same_key s) rows) (λ e. one)
      (λ e. OneEach-add rows (record { id = n; sample = s }) one e)

insert_all-OneEach :
    (n : ℕ) (rows : List Row) (ss : List Sample) → OneEach rows → OneEach (insert_all n rows ss).1
unfolding insert_all
insert_all-OneEach n rows [] one = one
insert_all-OneEach n rows (s ∷ ss) one =
    let r = insert_or_ignore n rows s in
    insert_all-OneEach r.0 r.1 ss (insert_or_ignore-OneEach n rows s one)

-- The table's UNIQUE constraint, after an `append` with room.
pub append-OneEach :
    (b : Buffer) (ss : List Sample) (now : ℕ)
    → length b.rows + length ss ≤ b.max_rows
    → OneEach b.rows
    → OneEach (append b ss now).0.rows
unfolding append enforce_bound
append-OneEach b [] now h one = one
append-OneEach b (s ∷ ss) now h one =
    let fits = length-insert_all b.next_id b.rows (s ∷ ss) in
    let le : leb (length (insert_all b.next_id b.rows (s ∷ ss)).1) b.max_rows ≡ true =
      ground arith in
    rw le (insert_all-OneEach b.next_id b.rows (s ∷ ss) one)

-- With room, `append` adds at most what it is given.
pub length-append_lem :
    (b : Buffer) (ss : List Sample) (now : ℕ)
    → length b.rows + length ss ≤ b.max_rows
    → length (append b ss now).0.rows ≤ length b.rows + length ss
unfolding append enforce_bound
length-append_lem b [] now h = omega arith
length-append_lem b (s ∷ ss) now h =
    let fits = length-insert_all b.next_id b.rows (s ∷ ss) in
    let le : leb (length (insert_all b.next_id b.rows (s ∷ ss)).1) b.max_rows ≡ true =
      ground arith in
    rw le fits
