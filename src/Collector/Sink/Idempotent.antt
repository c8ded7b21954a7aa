-- ===== src/Collector/Sink/Idempotent.antt =====
-- collector/sink.py: writing a batch again, and what the archive has of it.
use kpcl_hardware.Common.{
  Bool, true, ◌≡◌, refl, inl, inr, List, [], ◌∷◌, ◌++◌, any_of, In, here, there, arith, Bool-cases,
  In-append_left, if_elim,
}
use kpcl_hardware.Collector.Model.{Sample}
use kpcl_hardware.Collector.Sink.{conflicts, insert_sample, write_samples, Archives}

any_of-append_left {ℓ} :
    {A : Type ℓ} (p : A → Bool) (xs ys : List A) → any_of p xs ≡ true → any_of p (xs ++ ys) ≡ true
any_of-append_left p [] ys h = cc
any_of-append_left p (x ∷ xs) ys h = ground (arith, any_of-append_left p xs ys)

any_of-last {ℓ} :
    {A : Type ℓ} (p : A → Bool) (xs : List A) (a : A) → p a ≡ true → any_of p (xs ++ a ∷ []) ≡ true
any_of-last p [] a h = rw h refl
any_of-last p (x ∷ xs) a h = ground (arith, any_of-last p xs a h)

conflicts_self : (s : Sample) → conflicts s s ≡ true
unfolding conflicts
conflicts_self s = ground arith

insert_sample-holds :
    (archive : List Sample) (s t : Sample)
    → any_of (conflicts t) archive ≡ true
    → any_of (conflicts t) (insert_sample archive s) ≡ true
unfolding insert_sample
insert_sample-holds archive s t h =
    if_elim (λ a. any_of (conflicts t) a ≡ true) (any_of (conflicts s) archive) (λ e. h)
      (λ e. any_of-append_left (conflicts t) archive (s ∷ []) h)

insert_sample_self :
    (archive : List Sample) (s : Sample) → any_of (conflicts s) (insert_sample archive s) ≡ true
unfolding insert_sample
insert_sample_self archive s =
    if_elim (λ a. any_of (conflicts s) a ≡ true) (any_of (conflicts s) archive) (λ e. e)
      (λ e. any_of-last (conflicts s) archive s (conflicts_self s))

write_samples-holds :
    (archive ss : List Sample) (t : Sample)
    → any_of (conflicts t) archive ≡ true
    → any_of (conflicts t) (write_samples archive ss) ≡ true
unfolding write_samples
write_samples-holds archive [] t h = h
write_samples-holds archive (s ∷ ss) t h =
    write_samples-holds (insert_sample archive s) ss t (insert_sample-holds archive s t h)

-- Every key of the list is in the archive.
abbrev Holds : List Sample → List Sample → Type 0
Holds archive [] = Unit
Holds archive (s ∷ ss) = (any_of (conflicts s) archive ≡ true) × Holds archive ss

Holds-write : (archive ss : List Sample) → Holds (write_samples archive ss) ss
unfolding write_samples
Holds-write archive [] = tt
Holds-write archive (s ∷ ss) = (
  write_samples-holds (insert_sample archive s) ss s (insert_sample_self archive s),
  Holds-write (insert_sample archive s) ss,
)

write_held : (archive ss : List Sample) → Holds archive ss → write_samples archive ss ≡ archive
unfolding write_samples insert_sample
write_held archive [] h = refl
write_held archive (s ∷ ss) h = rw h.0 (write_held archive ss h.1)

-- Writing a batch a second time leaves the archive as it is: a replay after a lost answer cannot
-- duplicate or change a row.
pub write_samples-write_samples :
    (archive ss : List Sample)
    → write_samples (write_samples archive ss) ss ≡ write_samples archive ss
write_samples-write_samples archive ss =
    write_held (write_samples archive ss) ss (Holds-write archive ss)

pub any_of-In_key :
    (archive : List Sample) (s : Sample)
    → any_of (conflicts s) archive ≡ true
    → Archives s.tag_id s.source_ts archive
unfolding conflicts
any_of-In_key [] s h = cc
any_of-In_key (r ∷ rs) s h = elim (Bool-cases (conflicts s r)) [
  | inl e ↦ record { row = r; listed = here refl; tag_is = ground arith; ts_is = ground arith }
  | inr e ↦
      let a = any_of-In_key rs s (rw e at h) in
      record { row = a.row; listed = there a.listed; tag_is = a.tag_is; ts_is = a.ts_is }
]

insert_sample-In :
    (archive : List Sample) (s : Sample) {x : Sample}
    → In x archive
    → In x (insert_sample archive s)
unfolding insert_sample
insert_sample-In archive s {x} h =
    if_elim (In x) (any_of (conflicts s) archive) (λ e. h) (λ e. In-append_left (s ∷ []) h)

-- A stored row is never changed or removed by a later write.
pub write_samples-In :
    (archive ss : List Sample) {x : Sample} → In x archive → In x (write_samples archive ss)
unfolding write_samples
write_samples-In archive [] h = h
write_samples-In archive (s ∷ ss) h =
    write_samples-In (insert_sample archive s) ss (insert_sample-In archive s h)

-- Every sample of a written batch has its tag and source timestamp in the archive.
pub write_samples-Archives :
    {s : Sample} (archive : List Sample) {ss : List Sample}
    → In s ss
    → Archives s.tag_id s.source_ts (write_samples archive ss)
unfolding write_samples
write_samples-Archives {s} archive (here {x = x} {xs = xs} e) =
    let a = any_of-In_key (insert_sample archive x) x (insert_sample_self archive x) in
    record {
      row = a.row;
      listed = write_samples-In (insert_sample archive x) xs a.listed;
      tag_is = rw e a.tag_is;
      ts_is = rw e a.ts_is;
    }
write_samples-Archives archive (there {x = x} {xs = xs} h) =
    write_samples-Archives (insert_sample archive x) h
