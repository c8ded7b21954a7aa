-- ===== src/Collector/Session/Handling.antt =====
-- collector/session.py, `handle`: the counts of samples delivered and of values refused.
use kpcl_hardware.Common.{
  ℕ, ◌+◌, ◌≡◌, refl, sym, ap, Bool, true, false, Option-cases, option_elim, not, inl, inr, if_elim,
  Option, none, some, List, [], ◌∷◌, ◌++◌, length, length-append, arith,
}
use kpcl_hardware.Common.Int.{ℤ}
use kpcl_hardware.Common.Dict.{Dict, get}
use kpcl_hardware.Collector.Model.{Sample}
use kpcl_hardware.Collector.Session.{
  Handler, IngressCounts, DataValue, Tag, DropCounter, dropped_no_source_ts, dropped_no_status,
  dropped_unstorable, as_float, handle, handle_tag, drop_value, deliver, count_drop,
}

-- A DataValue as asyncua delivers it: when, for which node.
pub record Notification : Type 0 where
  pub now : ℕ
  pub node : ℕ
  pub value : DataValue

unfoldable pub handle_all : Handler → List Notification → Handler
unfolding handle
handle_all h [] = h
handle_all h (n ∷ ns) = handle_all (handle h n.now n.node n.value) ns

-- The notifications of nodes that have a tag.
unfoldable pub one_if_known : Dict Tag → ℕ → ℕ
one_if_known tags node = elim (get node tags) [ none ↦ 0 | some tag ↦ 1 ]

unfoldable pub count_known : Dict Tag → List Notification → ℕ
unfolding one_if_known
count_known tags [] = 0
count_known tags (n ∷ ns) = one_if_known tags n.node + count_known tags ns

unfoldable pub count_refused : IngressCounts → ℕ
count_refused c = c.no_source_ts + c.no_status + c.unstorable

-- The sample says of its source what the DataValue said, and adds nothing.
pub record Faithful (tag : Tag) (dv : DataValue) (s : Sample) : Type 0 where
  pub tag_is : (s.tag_id ≡ tag.id) × (s.tag_name ≡ tag.name)
  pub source_is : dv.source_ts ≡ some s.source_ts
  pub server_is : s.server_ts ≡ dv.server_ts
  pub quality_is : dv.status ≡ some s.quality
  pub value_is : as_float dv.payload ≡ (s.value, true)
  pub unnumbered : (s.seq ≡ none) × (s.run ≡ none)

-- What `handle` does for a tag: one drop that is counted, or one faithful sample.
pub data Handled (tag : Tag) (dv : DataValue) (h r : Handler) : Type 0 where
  refused :
      r.delivered ≡ h.delivered
      → count_refused r.counts ≡ 1 + count_refused h.counts
      → r.last_seen ≡ h.last_seen
      → r.tag_by_node ≡ h.tag_by_node
      → Handled tag dv h r
  accepted :
      (s : Sample)
      → r.delivered ≡ h.delivered ++ s ∷ []
      → Faithful tag dv s
      → count_refused r.counts ≡ count_refused h.counts
      → r.tag_by_node ≡ h.tag_by_node
      → Handled tag dv h r

drop_value-Handled :
    (tag : Tag) (dv : DataValue) (h : Handler) (c : DropCounter)
    → Handled tag dv h (drop_value h c tag.name)
unfolding drop_value count_drop count_refused
drop_value-Handled tag dv h dropped_no_source_ts = refused refl (omega arith) refl refl
drop_value-Handled tag dv h dropped_no_status = refused refl (omega arith) refl refl
drop_value-Handled tag dv h dropped_unstorable = refused refl (omega arith) refl refl

deliver-Handled :
    (tag : Tag) (dv : DataValue) (h : Handler) (now : ℕ) (value : Option ℤ) (source_ts : ℕ)
    (server_ts : Option ℕ) (quality : ℕ)
    → dv.source_ts ≡ some source_ts
    → dv.server_ts ≡ server_ts
    → dv.status ≡ some quality
    → as_float dv.payload ≡ (value, true)
    → Handled tag dv h (deliver h tag now value source_ts server_ts quality)
unfolding deliver count_refused
deliver-Handled tag dv h now value source_ts none quality a b c d =
    accepted _ refl
      (record {
        tag_is = (refl, refl);
        source_is = a;
        server_is = sym b;
        quality_is = c;
        value_is = d;
        unnumbered = (refl, refl);
      })
      refl refl
deliver-Handled tag dv h now value source_ts (some t) quality a b c d =
    accepted _ refl
      (record {
        tag_is = (refl, refl);
        source_is = a;
        server_is = sym b;
        quality_is = c;
        value_is = d;
        unnumbered = (refl, refl);
      })
      refl refl

storable : (r : Option ℤ × Bool) → r.1 ≡ true → r ≡ (r.0, true)
storable (v, true) h = refl
storable (v, false) h = cc

from_not : {b : Bool} → not b ≡ false → b ≡ true
from_not {b = true} h = refl
from_not {b = false} h = sym h

pub handle_tag-Handled :
    (h : Handler) (now : ℕ) (tag : Tag) (dv : DataValue)
    → Handled tag dv h (handle_tag h now tag dv)
unfolding handle_tag
handle_tag-Handled h now tag dv =
    option_elim (Handled tag dv h) dv.source_ts
      (λ e. drop_value-Handled tag dv h dropped_no_source_ts)
      (λ ts a.
        option_elim (Handled tag dv h) dv.status
          (λ e. drop_value-Handled tag dv h dropped_no_status)
          (λ q c.
            if_elim (Handled tag dv h) (not (as_float dv.payload).1)
              (λ e. drop_value-Handled tag dv h dropped_unstorable)
              (λ e.
                deliver-Handled tag dv h now (as_float dv.payload).0 ts dv.server_ts q a refl c
                  (storable (as_float dv.payload) (from_not e)))))

-- The samples delivered and the values refused grow by `n` in all.
record Adds (n : ℕ) (h r : Handler) : Type 0 where
  total :
      length r.delivered + count_refused r.counts
      ≡ n + (length h.delivered + count_refused h.counts)
  tags : r.tag_by_node ≡ h.tag_by_node

Handled-Adds : (tag : Tag) (dv : DataValue) (h r : Handler) → Handled tag dv h r → Adds 1 h r
Handled-Adds tag dv h r (refused d c l t) = record { total = rw (d, c) (omega arith); tags = t }
Handled-Adds tag dv h r (accepted s d f c t) = record {
  total = rw (d, c) (longer h.delivered s (count_refused h.counts));
  tags = t;
}
  where
    longer :
        (xs : List Sample) (s : Sample) (k : ℕ) → length (xs ++ s ∷ []) + k ≡ 1 + (length xs + k)
    longer xs s k = rw length-append (omega arith)

handle-Adds :
    (h : Handler) (now node : ℕ) (dv : DataValue)
    → Adds (one_if_known h.tag_by_node node) h (handle h now node dv)
unfolding handle one_if_known
handle-Adds h now node dv = elim (Option-cases (get node h.tag_by_node)) [
  | inl e ↦ rw (e, handle, one_if_known) (record { total = omega arith; tags = refl })
  | inr (tag, e) ↦
      rw (e, handle, one_if_known) (Handled-Adds tag dv h _ (handle_tag-Handled h now tag dv))
]

-- Every DataValue that arrives for a node of a known tag is delivered as one sample or counted by one
-- of the three drop counters: over any list of them, the two add up to their number.
pub handle_all-adds :
    (h : Handler) (ns : List Notification)
    → length (handle_all h ns).delivered + count_refused (handle_all h ns).counts
      ≡ length h.delivered + count_refused h.counts + count_known h.tag_by_node ns
unfolding handle_all count_known
handle_all-adds h [] = omega arith
handle_all-adds h (n ∷ ns) =
    let a = handle-Adds h n.now n.node n.value in
    let r = handle h n.now n.node n.value in
    let ih = handle_all-adds r ns in
    let same : count_known r.tag_by_node ns ≡ count_known h.tag_by_node ns =
      ap (λ d. count_known d ns) a.tags in
    let total = a.total in omega arith
