-- ===== src/Collector/Session/Sequence.antt =====
-- collector/session.py, `PublishSequence`: what the count of missed messages means.
use kpcl_hardware.Common.{
  ℕ, ◌+◌, ◌≡◌, refl, ◌∙◌, ap, Bool, true, false, Bool-cases, inl, inr, ltb, some, List, [], ◌∷◌,
  ◌==◌, if◌then◌else◌, ◌||◌, not, ==_iff, arith,
}
use kpcl_hardware.Common.Dict.{get, set, get-set}
use kpcl_hardware.Collector.Session.{PublishSequence, Message, observe_message, observe}

-- The messages of a subscription that bring a number for the first time, going by the number that is
-- expected next.
unfoldable pub count_new : ℕ → ℕ → List Message → ℕ
unfolding observe_message
count_new sub expected [] = 0
count_new sub expected (m ∷ ms) =
    let skip = count_new sub expected ms in
    let rest =
      count_new sub (observe_message (some expected) m.sequence_number m.keep_alive).0 ms in
    if not (m.subscription_id == sub)
    then skip
    else if m.keep_alive || ltb m.sequence_number expected
    then rest
    else 1 + rest

-- The messages of a subscription that are reported missed.
unfoldable pub count_gaps : ℕ → PublishSequence → List Message → ℕ
unfolding observe
count_gaps sub last [] = 0
count_gaps sub last (m ∷ ms) =
    let r = observe last m in
    let rest = count_gaps sub r.0 ms in if m.subscription_id == sub then r.1 + rest else rest

unfoldable pub observe_all : PublishSequence → List Message → PublishSequence
unfolding observe
observe_all last [] = last
observe_all last (m ∷ ms) = observe_all (observe last m).0 ms

-- One message of the subscription: the next number grows by what is missed and by what is new.
step_adds :
    (expected n : ℕ) (keep_alive : Bool)
    → (observe_message (some expected) n keep_alive).0
      ≡ expected
        + (observe_message (some expected) n keep_alive).1
        + (if keep_alive || ltb n expected then 0 else 1)
unfolding observe_message
step_adds expected n true = ground arith
step_adds expected n false = ground arith

get-set_other : (k j v : ℕ) (d : PublishSequence) → (k == j) ≡ false → get j (set k v d) ≡ get j d
get-set_other k j v d h = rw (get-set, h) refl

get-set_same : (k j v : ℕ) (d : PublishSequence) → (k == j) ≡ true → get j (set k v d) ≡ some v
get-set_same k j v d h = rw (get-set, h) refl

add_up :
    (next expected missed gaps new : ℕ) (old : Bool)
    → next ≡ expected + missed + (if old then 0 else 1)
    → next + gaps + new ≡ expected + (missed + gaps) + (if old then new else 1 + new)
add_up next expected missed gaps new true h = omega arith
add_up next expected missed gaps new false h = omega arith

-- The numbers of a subscription are accounted for: over any interleaving of messages, the number that
-- it expects next grows by the messages reported missed and by those that brought a new number.
pub observe_all-adds :
    (sub expected : ℕ) (last : PublishSequence) (ms : List Message)
    → get sub last ≡ some expected
    → get sub (observe_all last ms)
      ≡ some (expected + count_gaps sub last ms + count_new sub expected ms)
unfolding observe_all count_gaps count_new observe
observe_all-adds sub expected last [] h = h ∙ ap some (omega arith)
observe_all-adds sub expected last (m ∷ ms) h = elim (Bool-cases (m.subscription_id == sub)) [
  | inl e ↦
      let same : m.subscription_id ≡ sub = (==_iff m.subscription_id sub).0 e in
      let known : get m.subscription_id last ≡ some expected = rw same h in
      let r = observe_message (some expected) m.sequence_number m.keep_alive in
      let next : PublishSequence = set m.subscription_id r.0 last in
      let ih = observe_all-adds sub r.0 next ms (get-set_same m.subscription_id sub r.0 last e) in
      let s = step_adds expected m.sequence_number m.keep_alive in
      rw (known, e)
        (ih
          ∙ ap some (
              add_up r.0 expected r.1 (count_gaps sub next ms) (count_new sub r.0 ms)
                (m.keep_alive || ltb m.sequence_number expected) s))
  | inr e ↦
      let r = observe_message (get m.subscription_id last) m.sequence_number m.keep_alive in
      rw e (
        observe_all-adds sub expected (set m.subscription_id r.0 last) ms
          (get-set_other m.subscription_id sub r.0 last e ∙ h))
]
