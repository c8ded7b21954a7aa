-- ===== src/Sim/Ledger.antt =====
-- sim/ledger.py: the simulator's record of what it published. Timestamps are microseconds, values
-- integers in units of 10⁻¹² or None, and the `tags` of None and of [] are both [].
pub mod Series
pub mod Window
mod Tests
use Prim.Native.String.{String}
use kpcl_hardware.Common.{
  ℕ, zero, suc, ◌+◌, ◌-◌, ◌/◌, ◌%◌, ◌^◌, Bool, true, false, not, ◌&&◌, Option, none, some, List, [],
  ◌∷◌, ◌++◌, ltb, leb, ◌==◌, if◌then◌else◌, length, take, drop, last?, any_of,
}
use kpcl_hardware.Common.Int.{ℤ, eqb_ℤ}
use kpcl_hardware.Common.Dict.{get_or}
use kpcl_hardware.Common.Text.{same_text}
use kpcl_hardware.Omf.Receiver.{entry, with_entry}

-- What a subscription sees of a write: its value and its status.
pub record Delivered : Type 0 where
  pub value : Option ℤ
  pub status : ℕ

pub record Ledger : Type 0 where
  pub retention_us : ℕ
  pub started_us : ℕ
  pub reported : List (String × List ℕ)
  pub last : List (String × Delivered)
  pub writes : ℕ

abbrev pub new_ledger : ℕ → ℕ → Ledger
new_ledger retention_us now = record {
  retention_us = retention_us;
  started_us = now;
  reported = [];
  last = [];
  writes = 0;
}

-- `(status >> 30) & 3 == BAD`
unfoldable pub is_bad : ℕ → Bool
is_bad status = ((status / 2 ^ 30) % 4) == 2

unfoldable pub delivered : Option ℤ → ℕ → Delivered
unfolding is_bad
delivered value status = record { value = if is_bad status then none else value; status = status }

unfoldable pub equal_values : Option ℤ → Option ℤ → Bool
equal_values none none = true
equal_values (some a) (some b) = eqb_ℤ a b
equal_values _ _ = false

-- `self._last.get(tag) == delivered`
unfoldable pub same_delivered : Option Delivered → Delivered → Bool
unfolding equal_values
same_delivered none d = false
same_delivered (some p) d = equal_values p.value d.value && p.status == d.status

-- The positions that `bisect` documents for a series in ascending order.
unfoldable pub bisect_left : List ℕ → ℕ → ℕ
bisect_left [] x = 0
bisect_left (y ∷ ys) x = let rest = bisect_left ys x in if ltb y x then suc rest else 0

unfoldable pub bisect_right : List ℕ → ℕ → ℕ
bisect_right [] x = 0
bisect_right (y ∷ ys) x = let rest = bisect_right ys x in if leb y x then suc rest else 0

-- `_prune`; a cutoff below 0 keeps all, as 0 does.
unfoldable pub prune : ℕ → List ℕ → List ℕ
unfolding bisect_left
prune retention series = drop (bisect_left series (get_or (last? series) 0 - retention)) series

-- The end of `record`: the series with one more timestamp.
unfoldable pub add_time : ℕ → List ℕ → ℕ → List ℕ
unfolding prune
add_time retention series ts =
    let longer = series ++ ts ∷ [] in
    if length longer % 1024 == 0 then prune retention longer else longer

pub record Write : Type 0 where
  pub tag : String
  pub value : Option ℤ
  pub status : ℕ
  pub source_ts : ℕ

abbrev pub series_of : String → Ledger → List ℕ
series_of tag l = get_or (entry tag l.reported) []

-- `record`: the ledger, and whether a subscription must report the write.
unfoldable pub note_write : Ledger → Write → Ledger × Bool
unfolding delivered same_delivered entry with_entry add_time
note_write l w =
    let d = delivered w.value w.status in
    let counted : Ledger = record l { writes = l.writes + 1 } in
    if same_delivered (entry w.tag l.last) d then (counted, false) else (
      record counted {
        last = with_entry w.tag d l.last;
        reported =
            with_entry w.tag (add_time l.retention_us (series_of w.tag l) w.source_ts) l.reported;
      },
      true,
    )

unfoldable pub note_writes : Ledger → List Write → Ledger
unfolding note_write
note_writes l [] = l
note_writes l (w ∷ ws) = note_writes (note_write l w).0 ws

-- `series[bisect_left(series, lo):bisect_right(series, hi)]`
unfoldable pub slice_between : ℕ → ℕ → List ℕ → List ℕ
unfolding bisect_left bisect_right
slice_between lo hi series = drop (bisect_left series lo) (take (bisect_right series hi) series)

-- The loop of `window`.
unfoldable pub series_between :
    List (String × List ℕ) → ℕ → ℕ → List String → List (String × List ℕ)
unfolding slice_between same_text
series_between [] lo hi tags = []
series_between ((tag, series) ∷ rest) lo hi [] =
    (tag, slice_between lo hi series) ∷ series_between rest lo hi []
series_between ((tag, series) ∷ rest) lo hi (t ∷ tags) =
    let others = series_between rest lo hi (t ∷ tags) in
    if any_of (λ u. same_text u tag) (t ∷ tags)
    then (tag, slice_between lo hi series) ∷ others
    else others

-- `window`
abbrev pub window : Ledger → ℕ → ℕ → List String → List (String × List ℕ)
window l since until tags = series_between l.reported since until tags

unfoldable pub min_first : List (String × List ℕ) → Option ℕ
min_first [] = none
min_first ((tag, []) ∷ rest) = min_first rest
min_first ((tag, t ∷ ts) ∷ rest) = elim (min_first rest) [
  | none ↦ some t
  | some u ↦ some (if leb t u then t else u)
]

-- `oldest_us`
abbrev pub oldest_us : Ledger → Option ℕ
oldest_us l = min_first l.reported
