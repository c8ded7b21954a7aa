-- ===== src/Engine/Quality/Worst.antt =====
-- engine/quality.py, `evaluate_tag`: the computed quality and the flags.
use Prim.Native.String.{String}
use kpcl_hardware.Common.{ℕ, ◌≤◌, ◌≡◌, ◌≢◌, true, false, List, [], ◌∷◌, ◌⊎◌, In, All}
use kpcl_hardware.Engine.Quality.{StatusCodes, severity, Flag, Health, HistoryRow}

-- A code no milder than that of any flag, and borne by one of them.
record Worst (code : ℕ) (fs : List Flag) (r : ℕ) : Type 0 where
  start : severity code ≤ severity r
  flags : All (λ (f : Flag). severity f.computed_quality ≤ severity r) fs
  from : (r ≡ code) ⊎ ((f : Flag) × In f fs × (f.computed_quality ≡ r))

-- What the health says of the flags.
pub record Judged (codes : StatusCodes) (history : List HistoryRow) (r : List Flag × Health)
    : Type 0 where
  pub worst : All (λ (f : Flag). severity f.computed_quality ≤ severity r.1.computed_quality) r.0
  pub reason :
      (history ≡ []) × (r.0 ≡ []) × (r.1.computed_quality ≡ codes.stale)
      ⊎ (history ≢ []) × (r.0 ≡ []) × (r.1.computed_quality ≡ codes.good)
      ⊎ ((f : Flag) × In f r.0 × (f.computed_quality ≡ r.1.computed_quality))
  pub missing :
      (history ≡ []) × (r.1.is_missing ≡ true)
      ⊎ ((first : HistoryRow) × (rest : List HistoryRow) × (history ≡ first ∷ rest)
          × (r.1.is_missing ≡ false))
