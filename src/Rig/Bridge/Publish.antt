-- ===== src/Rig/Bridge/Publish.antt =====
-- sim/bridge.py, `poll_once` and `_mark_all_bad`: what the address space holds after a poll.
use mathlib.Core.Path.{subst}
use Prim.Native.String.{String}
use kpcl_hardware.Common.{
  ℕ, ◌&&◌, ◌+◌, ◌≤◌, ◌<◌, ◌≡◌, ◌∙◌, ap, refl, Bool, true, false, Option, none, some, List, [], ◌∷◌,
  if◌then◌else◌, get_elem?, length, arith, suc, zero, if_elim, not,
}
use kpcl_hardware.Common.Text.{same_text}
use kpcl_hardware.Rig.Registers.{has_bit, status_word}
use kpcl_hardware.Rig.Bridge.{
  Bridge, Nodes, NodeValue, Answer, answered, as_data_value, tags, publish, publish_null,
  publish_readings, readings, publish_all, mark_all_bad, lose, poll_once, raises, error_reply,
  point_readings, digital_readings, count_poll, Failure, raised, unreachable, modbus_exception,
}
use kpcl_hardware.Rig.Decoding.{
  Codes, Decoded, Digital, Point, decode, decode_from, decode_word, refusal, decode_digital,
  ReadReason, current, vibration, hub_temp, ambient_temp, supply, rig_running, relay_1, relay_2,
  boolean,
}

-- The tags of the nodes, in order.
abbrev pub names {ℓ} : {V : Type ℓ} → List (String × V) → List String
names [] = []
names ((tag, v) ∷ rest) = tag ∷ names rest

-- Nodes that all hold the same value.
unfoldable pub filled : NodeValue → List String → Nodes
filled v [] = []
filled v (tag ∷ rest) = (tag, some v) ∷ filled v rest

-- Nodes that hold what was read at an instant.
unfoldable pub settled : ℕ → List (String × Option Decoded) → Nodes
settled ts [] = []
settled ts ((tag, none) ∷ rest) = (tag, none) ∷ settled ts rest
settled ts ((tag, some d) ∷ rest) = (tag, some (as_data_value ts d)) ∷ settled ts rest

-- No text of the list is the given one.
abbrev Differs : String → List String → Type 0
Differs tag [] = Unit
Differs tag (t ∷ ts) = (same_text tag t ≡ false) × Differs tag ts

abbrev Distinct : List String → Type 0
Distinct [] = Unit
Distinct (t ∷ ts) = (same_text t t ≡ true) × Differs t ts × Distinct ts

publish_own :
    (tag : String) (v : NodeValue) (old : Option NodeValue) (ns : Nodes)
    → same_text tag tag ≡ true
    → publish tag v ((tag, old) ∷ ns) ≡ (tag, some v) ∷ ns
unfolding publish
publish_own tag v old ns h = rw h refl

publish_past :
    (tag name : String) (v : NodeValue) (old : Option NodeValue) (ns : Nodes)
    → same_text name tag ≡ false
    → publish tag v ((name, old) ∷ ns) ≡ (name, old) ∷ publish tag v ns
unfolding publish
publish_past tag name v old ns h = rw h refl

publish_null-past :
    (q ts : ℕ) (tag : String) (v : Option NodeValue) (xs : List String) (ns : Nodes)
    → Differs tag xs
    → publish_null q ts xs ((tag, v) ∷ ns) ≡ (tag, v) ∷ publish_null q ts xs ns
unfolding publish_null
publish_null-past q ts tag v [] ns h = refl
publish_null-past q ts tag v (x ∷ xs) ns h =
    rw (publish_past x tag _ v ns h.0) (publish_null-past q ts tag v xs _ h.1)

publish_null-filled :
    (q ts : ℕ) (ns : Nodes)
    → Distinct (names ns)
    → publish_null q ts (names ns) ns
      ≡ filled (record { value = none; quality = q; source_ts = ts }) (names ns)
unfolding publish_null filled
publish_null-filled q ts [] d = refl
publish_null-filled q ts ((tag, v) ∷ ns) d =
    ap (publish_null q ts (names ns)) (publish_own tag _ v ns d.0)
    ∙ publish_null-past q ts tag _ (names ns) ns d.1
    ∙ ap (λ r. (tag, some (record { value = none; quality = q; source_ts = ts })) ∷ r)
        (publish_null-filled q ts ns d.2)

-- Every reading was decoded.
abbrev pub AllDecoded : List (String × Option Decoded) → Type 0
AllDecoded [] = Unit
AllDecoded ((tag, o) ∷ rest) = ((d : Decoded) × (o ≡ some d)) × AllDecoded rest

-- What the loop leaves behind a node that it does not write.
abbrev behind : String × Option NodeValue → Nodes × Bool → Nodes × Bool
behind node (ns, whole) = (node ∷ ns, whole)

publish_readings-past :
    (ts : ℕ) (tag : String) (v : Option NodeValue) (rs : List (String × Option Decoded))
    (ns : Nodes)
    → Differs tag (names rs)
    → publish_readings ts rs ((tag, v) ∷ ns) ≡ behind (tag, v) (publish_readings ts rs ns)
unfolding publish_readings
publish_readings-past ts tag v [] ns h = refl
publish_readings-past ts tag v ((x, none) ∷ rs) ns h = refl
publish_readings-past ts tag v ((x, some d) ∷ rs) ns h =
    rw (publish_past x tag _ v ns h.0) (publish_readings-past ts tag v rs _ h.1)

publish_readings-settled :
    (ts : ℕ) (rs : List (String × Option Decoded)) (ns : Nodes)
    → names ns ≡ names rs
    → Distinct (names rs)
    → AllDecoded rs
    → publish_readings ts rs ns ≡ (settled ts rs, true)
unfolding publish_readings settled
publish_readings-settled ts [] [] h d a = refl
publish_readings-settled ts [] ((tag, v) ∷ ns) h d a = cc
publish_readings-settled ts ((x, o) ∷ rs) [] h d a = cc
publish_readings-settled ts ((x, none) ∷ rs) ((tag, v) ∷ ns) h d a = cc
publish_readings-settled ts ((x, some r) ∷ rs) ((tag, v) ∷ ns) h d a =
    let same : tag ≡ x = cc in
    let rest : names ns ≡ names rs = cc in
    rw same (
      ap (publish_readings ts rs) (publish_own x (as_data_value ts r) v ns d.0)
      ∙ publish_readings-past ts x (some (as_data_value ts r)) rs ns d.1
      ∙ ap (behind (x, some (as_data_value ts r))) (publish_readings-settled ts rs ns rest d.2 a.1))

tags-Distinct : Distinct tags
unfolding same_text
tags-Distinct = (
  refl,
  (refl, (refl, (refl, (refl, (refl, (refl, (refl, tt))))))),
  (
    refl,
    (refl, (refl, (refl, (refl, (refl, (refl, tt)))))),
    (
      refl,
      (refl, (refl, (refl, (refl, (refl, tt))))),
      (
        refl,
        (refl, (refl, (refl, (refl, tt)))),
        (
          refl,
          (refl, (refl, (refl, tt))),
          (refl, (refl, (refl, tt)), (refl, (refl, tt), (refl, tt, tt))),
        ),
      ),
    ),
  ),
)

mark_all_bad-filled :
    (q ts : ℕ) (f : Failure) (b : Bridge)
    → names b.nodes ≡ tags
    → (mark_all_bad q f ts b).nodes
      ≡ filled (record { value = none; quality = q; source_ts = ts }) tags
unfolding mark_all_bad
mark_all_bad-filled q ts f b h =
    subst
      (λ (xs : List String).
        publish_null q ts xs b.nodes
        ≡ filled (record { value = none; quality = q; source_ts = ts }) xs)
      h (publish_null-filled q ts b.nodes (rw h tags-Distinct))

abbrev again : Bridge → Bridge
again b = record b { failures = b.failures + 1 }

-- The read came back.
abbrev pub is_answered {ℓ} : {A : Type ℓ} → Answer A → Bool
is_answered (answered a) = true
is_answered (raises text) = false
is_answered error_reply = false

-- A poll that cannot connect, or whose reads do not both answer, leaves every node with no value, the
-- code for lost communication and the instant of the poll, answers false, and counts no poll; it counts
-- a failure if it could connect.
pub poll_once-Lost :
    (codes : Codes) (ts : ℕ) (connected : Bool) (registers : Answer (List ℕ))
    (discretes : Answer (List Bool)) (b : Bridge)
    → names b.nodes ≡ tags
    → (connected && is_answered registers && is_answered discretes) ≡ false
    → let r = poll_once codes ts connected registers discretes b in
      (r.0.nodes
        ≡ filled (record { value = none; quality = codes.no_communication; source_ts = ts }) tags)
      × (r.1 ≡ some false)
      × (r.0.polls ≡ b.polls)
      × (r.0.failures ≡ (if connected then b.failures + 1 else b.failures))
unfolding poll_once lose mark_all_bad
poll_once-Lost codes ts false registers discretes b h k =
    (mark_all_bad-filled codes.no_communication ts unreachable b h, refl, refl, refl)
poll_once-Lost codes ts true (raises text) discretes b h k =
    (mark_all_bad-filled codes.no_communication ts (raised text) (again b) h, refl, refl, refl)
poll_once-Lost codes ts true error_reply (raises text) b h k =
    (mark_all_bad-filled codes.no_communication ts (raised text) (again b) h, refl, refl, refl)
poll_once-Lost codes ts true (answered words) (raises text) b h k =
    (mark_all_bad-filled codes.no_communication ts (raised text) (again b) h, refl, refl, refl)
poll_once-Lost codes ts true error_reply error_reply b h k =
    (mark_all_bad-filled codes.no_communication ts modbus_exception (again b) h, refl, refl, refl)
poll_once-Lost codes ts true error_reply (answered bits) b h k =
    (mark_all_bad-filled codes.no_communication ts modbus_exception (again b) h, refl, refl, refl)
poll_once-Lost codes ts true (answered words) error_reply b h k =
    (mark_all_bad-filled codes.no_communication ts modbus_exception (again b) h, refl, refl, refl)
poll_once-Lost codes ts true (answered words) (answered bits) b h k = cc

held : {A : Type 0} (xs : List A) (i : ℕ) → i < length xs → (a : A) × (get_elem? xs i ≡ some a)
held [] i h = absurd (omega arith)
held (x ∷ xs) zero h = (x, refl)
held (x ∷ xs) (suc i) h = held xs i (omega arith)

decode-decoded :
    (codes : Codes) (p : Point) (words : List ℕ) (status : ℕ)
    → p.register < length words
    → (d : Decoded) × (decode codes p words status ≡ some d)
unfolding decode decode_from
decode-decoded codes p words status h = by_parts (refusal codes p status) (held words p.register h)
  where
    by_parts :
        (o : Option (ℕ × ReadReason))
        → (w : (a : ℕ) × (get_elem? words p.register ≡ some a))
        → (d : Decoded) × (decode_from codes p o (get_elem? words p.register) ≡ some d)
    by_parts (some (q, why)) w = (_, refl)
    by_parts none (a, e) = (decode_word codes p a, rw e refl)

decode_digital-decoded :
    (codes : Codes) (d : Digital) (bits : List Bool) (status : ℕ)
    → d.bit < length bits
    → (r : Decoded) × (decode_digital codes d bits status ≡ some r)
unfolding decode_digital
decode_digital-decoded codes d bits status h =
    let w = held bits d.bit h in
    if_elim (λ o. (r : Decoded) × (o ≡ some r)) (not (has_bit status d.fitted_bit)) (λ e. (_, refl))
      (λ e.
        (record { value = some (boolean w.0); quality = codes.good; reason = none }, rw w.1 refl))

readings-AllDecoded :
    (codes : Codes) (words : List ℕ) (bits : List Bool) (status : ℕ)
    → 8 ≤ length words
    → 3 ≤ length bits
    → AllDecoded (readings codes words bits status)
unfolding readings point_readings digital_readings
readings-AllDecoded codes words bits status h k =
    both (decode-decoded codes current words status (omega arith)) (
      both (decode-decoded codes vibration words status (omega arith)) (
        both (decode-decoded codes hub_temp words status (omega arith)) (
          both (decode-decoded codes ambient_temp words status (omega arith)) (
            both (decode-decoded codes supply words status (omega arith)) (
              both (decode_digital-decoded codes rig_running bits status (omega arith)) (
                both (decode_digital-decoded codes relay_1 bits status (omega arith))
                  (both (decode_digital-decoded codes relay_2 bits status (omega arith)) tt)))))))
  where
    both : {P Q : Type 0} → P → Q → P × Q
    both p q = (p, q)

-- A poll whose two reads answer with at least eight words and three bits publishes every tag: each
-- node holds, in the order of the tags, what its own reading was decoded to with the status word of
-- that read, under the instant of the poll, whatever it held before; the poll is counted and answers
-- true.
pub poll_once-settled :
    (codes : Codes) (ts : ℕ) (words : List ℕ) (bits : List Bool) (b : Bridge)
    → names b.nodes ≡ tags
    → 8 ≤ length words
    → 3 ≤ length bits
    → (status : ℕ) × (get_elem? words status_word ≡ some status)
      × (poll_once codes ts true (answered words) (answered bits) b ≡ (
        record b {
          nodes = settled ts (readings codes words bits status);
          polls = b.polls + 1;
          last_failure = none;
        },
        some true,
      ))
unfolding poll_once publish_all
poll_once-settled codes ts words bits b h k l =
    let s = held words status_word (omega arith) in
    (
      s.0,
      s.1,
      rw s.1 (
          ap (count_poll codes b) (
            publish_readings-settled ts (readings codes words bits s.0) b.nodes h tags-Distinct
              (readings-AllDecoded codes words bits s.0 k l))),
    )
