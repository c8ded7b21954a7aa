-- ===== src/Engine/Quality/Evaluate.antt =====
-- engine/quality.py, `evaluate_tag`. The rows of the tag, of its rules and of its history, and the
-- newest archived value of another tag, are arguments; a standing note only lengthens a text.
use Prim.Native.String.{String}
use kpcl_hardware.Common.{
  ℕ, ◌-◌, Bool, true, false, ◌&&◌, Option, none, some, List, [], ◌∷◌, ◌++◌, ltb, ◌==◌,
  if◌then◌else◌, any_of, last?,
}
use kpcl_hardware.Common.Int.{ℤ, leb_ℤ}
use kpcl_hardware.Engine.Quality
use kpcl_hardware.Engine.Quality.{
  StatusCodes, severity, RuleType, Flag, Health, HistoryRow, check_range, check_rate_of_change,
  check_cross_tag, check_frozen, check_stale,
}

pub record CrossTag : Type 0 where
  pub other_tag : Option String
  pub ratio : ℤ
  pub tolerance : ℤ
  pub gate_tag : Option String
  pub gate_min : Option ℤ

-- The enabled rules of one tag, with the defaults filled in.
pub record Rules : Type 0 where
  pub range : Bool
  pub rate_of_change : Option (Option ℤ)
  pub cross_tag : Option CrossTag
  pub frozen : Option (ℕ × ℤ)
  pub stale : Option ℕ

unfoldable pub rule_code : RuleType → ℕ
rule_code Quality.range = 0
rule_code Quality.rate_of_change = 1
rule_code Quality.cross_tag = 2
rule_code Quality.frozen_rule = 3
rule_code Quality.stale_rule = 4

-- `add`
unfoldable pub flag_if : RuleType → ℕ → Option ℕ → List Flag
flag_if rule at none = []
flag_if rule at (some code) =
    record { source_ts = at; rule_type = rule; computed_quality = code } ∷ []

module _ (codes : StatusCodes) where
  unfoldable pub range_flags : Option ℤ → Option ℤ → List HistoryRow → List Flag
  unfolding flag_if check_range
  range_flags low high [] = []
  range_flags low high (r ∷ rs) =
      flag_if Quality.range r.ts (check_range codes r.value low high) ++ range_flags low high rs

  -- Over `zip(history, history[1:])`.
  unfoldable pub rate_flags : ℤ → HistoryRow → List HistoryRow → List Flag
  unfolding flag_if check_rate_of_change
  rate_flags limit before [] = []
  rate_flags limit before (r ∷ rs) =
      flag_if Quality.rate_of_change r.ts
        (check_rate_of_change codes r.value before.value (r.ts - before.ts) limit)
      ++ rate_flags limit r rs

-- The operating state in which the cross-tag rule holds.
unfoldable pub in_regime : CrossTag → (String → Option (Option ℤ)) → Bool
in_regime c latest = elim c.gate_tag [
  | none ↦ true
  | some gate ↦ elim c.gate_min [
    | none ↦ true
    | some least ↦ elim (latest gate) [
      | none ↦ false
      | some found ↦ elim found [ none ↦ false | some v ↦ leb_ℤ least v ]
    ]
  ]
]

module _ (codes : StatusCodes) where
  unfoldable pub cross_flags : CrossTag → (String → Option (Option ℤ)) → HistoryRow → List Flag
  unfolding flag_if check_cross_tag in_regime
  cross_flags c latest last = elim c.other_tag [
    | none ↦ []
    | some other ↦
        if in_regime c latest
        then elim (latest other) [
          | none ↦ []
          | some found ↦
              flag_if Quality.cross_tag last.ts
                (check_cross_tag codes last.value found c.ratio c.tolerance)
        ]
        else []
  ]

  -- Every rule in turn, over a history that begins with `first` and ends with `last`.
  unfoldable pub all_flags :
      Rules
      → Option ℤ
      → Option ℤ
      → (String → Option (Option ℤ))
      → ℕ
      → HistoryRow
      → List HistoryRow
      → HistoryRow
      → List Flag
  unfolding range_flags rate_flags cross_flags flag_if check_frozen check_stale
  all_flags rules low high latest now first rest last =
      (if rules.range then range_flags codes low high (first ∷ rest) else [])
      ++ (elim rules.rate_of_change [
        | none ↦ []
        | some limit ↦ elim limit [ none ↦ [] | some most ↦ rate_flags codes most first rest ]
      ])
      ++ (elim rules.cross_tag [ none ↦ [] | some c ↦ cross_flags c latest last ])
      ++ (elim rules.frozen [
        | none ↦ []
        | some (window, tolerance) ↦
            flag_if Quality.frozen_rule last.ts (check_frozen codes (first ∷ rest) window tolerance)
      ])
      ++ (elim rules.stale [
        | none ↦ []
        | some most ↦ flag_if Quality.stale_rule last.ts (check_stale codes (some last.ts) now most)
      ])

-- Python's `max(..., key=severity)`, which keeps the first of equals.
unfoldable pub worst_of : ℕ → List Flag → ℕ
unfolding severity
worst_of code [] = code
worst_of code (f ∷ fs) =
    worst_of
      (if ltb (severity code) (severity f.computed_quality) then f.computed_quality else code) fs

-- `max(..., key=severity, default=GOOD)`
unfoldable pub worst_flag : ℕ → List Flag → ℕ
unfolding worst_of
worst_flag good [] = good
worst_flag good (f ∷ fs) = worst_of f.computed_quality fs

unfoldable pub has_rule : RuleType → List Flag → Bool
unfolding rule_code
has_rule rule flags = any_of (λ f. rule_code f.rule_type == rule_code rule) flags

-- `history[-1]`
abbrev pub newest : HistoryRow → Option HistoryRow → HistoryRow
newest first none = first
newest first (some last) = last

module _ (codes : StatusCodes) where
  -- The health of a tag that has a history.
  unfoldable pub health_of : HistoryRow → List Flag → Health
  unfolding worst_flag has_rule severity
  health_of last flags = record {
    last_source_ts = some last.ts;
    is_bad = severity last.quality == 2;
    is_stale = has_rule Quality.stale_rule flags;
    is_frozen = has_rule Quality.frozen_rule flags;
    is_missing = false;
    is_out_of_range =
        any_of (λ f. rule_code f.rule_type == rule_code Quality.range && f.source_ts == last.ts)
          flags;
    is_comm_failed = last.quality == codes.stale;
    source_quality = some last.quality;
    computed_quality = worst_flag codes.good flags;
  }

  -- `evaluate_tag`, for a tag that exists.
  unfoldable pub evaluate_tag :
      Rules
      → Option ℤ
      → Option ℤ
      → (String → Option (Option ℤ))
      → ℕ
      → List HistoryRow
      → List Flag × Health
  unfolding all_flags health_of
  evaluate_tag rules low high latest now [] = (
    [],
    record {
      last_source_ts = none;
      is_bad = false;
      is_stale = false;
      is_frozen = false;
      is_missing = true;
      is_out_of_range = false;
      is_comm_failed = false;
      source_quality = none;
      computed_quality = codes.stale;
    },
  )
  evaluate_tag rules low high latest now (first ∷ rest) =
      let last = newest first (last? rest) in
      let flags = all_flags codes rules low high latest now first rest last in
      (flags, health_of last flags)
