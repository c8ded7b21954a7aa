-- ===== src/Engine/Events/Debounce.antt =====
-- engine/events.py, `_Debouncer`: what it means that a trigger has fired.
use mathlib.Core.List.{append_assoc}
use kpcl_hardware.Common.{
  ℕ, ◌+◌, ◌≤◌, Bool, true, false, not, ◌≡◌, refl, ◌∙◌, sym, ap, Option, none, some, List, [], ◌∷◌,
  ◌++◌, leb, ◌||◌, leb→le, arith, All, All-append, if_elim, if◌then◌else◌, last?,
}
use kpcl_hardware.Common.Dict.{get_or}
use kpcl_hardware.Engine.Events.{
  Trigger, Debouncer, Reading, satisfied_by, is_good_quality, new_debouncer, confirm, feed,
}

-- A reading that the trigger counts: Good, and the condition holds.
abbrev pub Counts : Trigger → Reading → Type 0
Counts t r = (is_good_quality r.quality ≡ true) × (satisfied_by t r.value ≡ true)

-- The debouncer fed with readings in turn, until it first fires.
unfoldable pub feed_all : Debouncer → List Reading → Debouncer × Option ℕ
unfolding feed
feed_all d [] = (d, none)
feed_all d (r ∷ rs) =
    let fed = feed d r.ts r.value r.quality in
    let rest = feed_all fed.0 rs in elim fed.1 [ none ↦ rest | some t ↦ (fed.0, some t) ]

-- Why a trigger fired at `t`: the readings split into those before, and an unbroken run that begins
-- at `t`, all of it Good and satisfying, and ends at least the debounce later; the rest was not needed.
pub record Sustained (t : Trigger) (at : ℕ) (rs : List Reading) : Type 0 where
  pub before : List Reading
  pub first : Reading
  pub run : List Reading
  pub last : Reading
  pub after : List Reading
  pub split : rs ≡ before ++ ((first ∷ run) ++ after)
  pub begins : first.ts ≡ at
  pub ends : last? (first ∷ run) ≡ some last
  pub unbroken : All (Counts t) (first ∷ run)
  pub long_enough : at + t.debounce ≤ last.ts

-- What a debouncer that has not fired knows of the readings that it was fed.
data Knows (t : Trigger) (d : Debouncer) (fed : List Reading) : Type 0 where
  idle : d.trigger ≡ t → d.fired ≡ false → d.true_since ≡ none → Knows t d fed
  running :
      (before : List Reading) (first : Reading) (run : List Reading)
      → d.trigger ≡ t
      → d.fired ≡ false
      → d.true_since ≡ some first.ts
      → fed ≡ before ++ (first ∷ run)
      → All (Counts t) (first ∷ run)
      → Knows t d fed

-- The outcome of one feed: it fires on a sustained run, or goes on.
data Fed (t : Trigger) (fed : List Reading) (r : Reading) (res : Debouncer × Option ℕ)
    : Type 0 where
  fires :
      (before : List Reading) (first : Reading) (run : List Reading)
      → res.1 ≡ some first.ts
      → fed ++ r ∷ [] ≡ before ++ (first ∷ run)
      → All (Counts t) (first ∷ run)
      → last? (first ∷ run) ≡ some r
      → first.ts + t.debounce ≤ r.ts
      → Fed t fed r res
  goes_on : res.1 ≡ none → Knows t res.0 (fed ++ r ∷ []) → Fed t fed r res

last?-snoc {ℓ} : {A : Type ℓ} (x : A) (xs : List A) (a : A) → last? ((x ∷ xs) ++ a ∷ []) ≡ some a
last?-snoc x [] a = refl
last?-snoc x (y ∷ xs) a = last?-snoc y xs a

confirm-Fed :
    (t : Trigger) (d : Debouncer) (fed : List Reading) (r : Reading) (before : List Reading)
    (first : Reading) (run : List Reading) (since : ℕ)
    → since ≡ first.ts
    → d.trigger ≡ t
    → d.fired ≡ false
    → fed ++ r ∷ [] ≡ before ++ (first ∷ run)
    → All (Counts t) (first ∷ run)
    → last? (first ∷ run) ≡ some r
    → Fed t fed r (confirm d since r.ts)
unfolding confirm
confirm-Fed t d fed r before first run since w e f s u l =
    if_elim (Fed t fed r) (leb (since + d.trigger.debounce) r.ts)
      (λ long.
        fires before first run (rw w refl) s u l
          (rw (← w, ← e) (leb→le (since + d.trigger.debounce) r.ts long)))
      (λ short. goes_on refl (running before first run e f (rw w refl) s u))

both_true : {a b : Bool} → (not a || not b) ≡ false → (a ≡ true) × (b ≡ true)
both_true h = ground arith

-- The split of `feed` on its tests, for a debouncer that has not fired.
feed-cases :
    (P : Debouncer × Option ℕ → Type 0) (d : Debouncer) (r : Reading)
    → d.fired ≡ false
    → ((q : Bool) → P (record d { seen_false = q; true_since = none }, none))
    → (Counts d.trigger r → P (d, none))
    → (Counts d.trigger r → P (confirm d (get_or d.true_since r.ts) r.ts))
    → P (feed d r.ts r.value r.quality)
unfolding feed
feed-cases P d r f none_counts unseen seen =
    if_elim P d.fired (λ e. let no : false ≡ true = sym f ∙ e in cc)
      (λ e.
        if_elim P (not (is_good_quality r.quality) || not (satisfied_by d.trigger r.value))
          (λ no_count. none_counts (if is_good_quality r.quality then true else d.seen_false))
          (λ counts.
            if_elim P (not d.seen_false) (λ u. unseen (both_true counts))
              (λ u. seen (both_true counts))))

feed-Fed :
    (t : Trigger) (d : Debouncer) (fed : List Reading) (r : Reading)
    → Knows t d fed
    → Fed t fed r (feed d r.ts r.value r.quality)
feed-Fed t d fed r (idle e f s) =
    feed-cases (Fed t fed r) d r f (λ q. goes_on refl (idle e f refl))
      (λ counts. goes_on refl (idle e f s))
      (λ counts.
        confirm-Fed t d fed r fed r [] (get_or d.true_since r.ts) (ap (λ o. get_or o r.ts) s) e f
          refl (rw e at counts, tt) refl)
feed-Fed t d fed r (running before first run e f s u k) =
    let joined : fed ++ r ∷ [] ≡ before ++ (first ∷ (run ++ r ∷ [])) =
      rw u (append_assoc before (first ∷ run) (r ∷ [])) in
    let grown : Counts d.trigger r → All (Counts t) (first ∷ (run ++ r ∷ [])) =
      λ c. All-append (Counts t) (first ∷ run) (r ∷ []) k (rw e at c, tt) in
    feed-cases (Fed t fed r) d r f (λ q. goes_on refl (idle e f refl))
      (λ counts. goes_on refl (running before first (run ++ r ∷ []) e f s joined (grown counts)))
      (λ counts.
        confirm-Fed t d fed r before first (run ++ r ∷ []) (get_or d.true_since r.ts)
          (ap (λ o. get_or o r.ts) s) e f joined (grown counts) (last?-snoc first run r))

feed_all-from :
    (t : Trigger) (d : Debouncer) (fed rs : List Reading) {at : ℕ}
    → Knows t d fed
    → (feed_all d rs).1 ≡ some at
    → Sustained t at (fed ++ rs)
unfolding feed_all
feed_all-from t d fed [] k h = cc
feed_all-from t d fed (r ∷ rs) {at} k h = elim (feed-Fed t d fed r k) [
  | fires before first run e s u l long ↦
      let at_first : first.ts ≡ at = fired_at e (rw (e, feed_all) at h) in
      record {
        before = before;
        first = first;
        run = run;
        last = r;
        after = rs;
        split =
            rw (← append_assoc before (first ∷ run) rs, ← s) (sym (append_assoc fed (r ∷ []) rs));
        begins = at_first;
        ends = l;
        unbroken = u;
        long_enough = rw (← at_first) long;
      }
  | goes_on e n ↦ rw append_assoc at (
      feed_all-from t (feed d r.ts r.value r.quality).0 (fed ++ r ∷ []) rs n
        (rw (e, feed_all) at h))
]
  where
    fired_at : {a b : ℕ} {o : Option ℕ} → o ≡ some a → some a ≡ some b → a ≡ b
    fired_at e h = cc

-- A debouncer fires only on a condition that held on every reading of an unbroken run of Good
-- readings, for at least the debounce; and the instant that it reports is the run's first timestamp,
-- not the one at which it became sure.
pub feed_all-Sustained :
    (t : Trigger) (require_edge : Bool) (rs : List Reading) {at : ℕ}
    → (feed_all (new_debouncer t require_edge) rs).1 ≡ some at
    → Sustained t at rs
unfolding new_debouncer
feed_all-Sustained t require_edge rs h =
    feed_all-from t (new_debouncer t require_edge) [] rs (idle refl refl refl) h
