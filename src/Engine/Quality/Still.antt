-- ===== src/Engine/Quality/Still.antt =====
-- engine/quality.py, `check_frozen`: what it takes for a tag to be called frozen.
use kpcl_hardware.Common.{
  ℕ, ◌+◌, ◌≤◌, ◌≡◌, refl, true, false, option_elim, if_elim, Option, none, some, List, [], ◌∷◌, ltb,
  if◌then◌else◌, arith, In, here, there, last?,
}
use kpcl_hardware.Common.Int.{ℤ, ◌≤ℤ◌, ◌-ℤ◌, leb_ℤ→≤ℤ, ltb_ℤ, -ℤ_parts}
use kpcl_hardware.Engine.Quality.{
  StatusCodes, HistoryRow, max_of, min_of, is_still, window_values, check_frozen,
}

≤ℤ_trans : (a b c : ℤ) → a ≤ℤ b → b ≤ℤ c → a ≤ℤ c
≤ℤ_trans a b c h k = omega arith

max_of-start : (m : ℤ) (vs : List ℤ) → m ≤ℤ max_of m vs
unfolding max_of
max_of-start m [] = omega arith
max_of-start m (v ∷ vs) =
    ≤ℤ_trans m (if ltb_ℤ m v then v else m) _ (larger m v)
      (max_of-start (if ltb_ℤ m v then v else m) vs)
  where
    larger : (m v : ℤ) → m ≤ℤ (if ltb_ℤ m v then v else m)
    larger m v = ground arith

max_of-In : (m : ℤ) {v : ℤ} (vs : List ℤ) → In v vs → v ≤ℤ max_of m vs
unfolding max_of
max_of-In m [] h = elim h [ ]
max_of-In m {v} (w ∷ vs) (here e) =
    rw e (≤ℤ_trans w (if ltb_ℤ m w then w else m) _ (second m w) (max_of-start _ vs))
  where
    second : (m w : ℤ) → w ≤ℤ (if ltb_ℤ m w then w else m)
    second m w = ground arith
max_of-In m (w ∷ vs) (there h) = max_of-In (if ltb_ℤ m w then w else m) vs h

min_of-start : (m : ℤ) (vs : List ℤ) → min_of m vs ≤ℤ m
unfolding min_of
min_of-start m [] = omega arith
min_of-start m (v ∷ vs) =
    ≤ℤ_trans _ (if ltb_ℤ v m then v else m) m (min_of-start (if ltb_ℤ v m then v else m) vs)
      (smaller m v)
  where
    smaller : (m v : ℤ) → (if ltb_ℤ v m then v else m) ≤ℤ m
    smaller m v = ground arith

min_of-In : (m : ℤ) {v : ℤ} (vs : List ℤ) → In v vs → min_of m vs ≤ℤ v
unfolding min_of
min_of-In m [] h = elim h [ ]
min_of-In m {v} (w ∷ vs) (here e) =
    rw e (≤ℤ_trans _ (if ltb_ℤ w m then w else m) w (min_of-start _ vs) (second m w))
  where
    second : (m w : ℤ) → (if ltb_ℤ w m then w else m) ≤ℤ w
    second m w = ground arith
min_of-In m (w ∷ vs) (there h) = min_of-In (if ltb_ℤ w m then w else m) vs h

difference : (a b lo hi t : ℤ) → a ≤ℤ hi → lo ≤ℤ b → (hi -ℤ lo) ≤ℤ t → (a -ℤ b) ≤ℤ t
difference a b lo hi t h k l = let p = -ℤ_parts hi lo in let q = -ℤ_parts a b in omega arith

max_of-all : (v : ℤ) {a : ℤ} (vs : List ℤ) → In a (v ∷ vs) → a ≤ℤ max_of v vs
max_of-all v vs (here e) = rw e (max_of-start v vs)
max_of-all v vs (there h) = max_of-In v vs h

min_of-all : (v : ℤ) {a : ℤ} (vs : List ℤ) → In a (v ∷ vs) → min_of v vs ≤ℤ a
min_of-all v vs (here e) = rw e (min_of-start v vs)
min_of-all v vs (there h) = min_of-In v vs h

-- A still list: no two values of it are further apart than the tolerance.
is_still-apart :
    (vs : List ℤ) (tolerance a b : ℤ)
    → is_still vs tolerance ≡ true
    → In a vs
    → In b vs
    → (a -ℤ b) ≤ℤ tolerance
unfolding is_still
is_still-apart [] t a b h k l = elim k [ ]
is_still-apart (v ∷ []) t a b h k l = cc
is_still-apart (v ∷ w ∷ vs) t a b h k l =
    difference a b (min_of v (w ∷ vs)) (max_of v (w ∷ vs)) t (max_of-all v (w ∷ vs) k)
      (min_of-all v (w ∷ vs) l) (leb_ℤ→≤ℤ _ t h)

-- Why a tag is called frozen: its history reaches back over the whole window, and no two values that
-- were there in the window are further apart than the tolerance.
pub record Frozen (rows : List HistoryRow) (max_age : ℕ) (tolerance : ℤ) : Type 0 where
  pub first : HistoryRow
  pub rest : List HistoryRow
  pub last : HistoryRow
  pub begins : rows ≡ first ∷ rest
  pub ends : last? rest ≡ some last
  pub reaches : first.ts + max_age ≤ last.ts
  pub apart :
      (a b : ℤ)
      → In a (window_values rows last.ts max_age)
      → In b (window_values rows last.ts max_age)
      → (a -ℤ b) ≤ℤ tolerance

-- A tag is called frozen only when its history reaches back over the whole window and no two values
-- of the window are further apart than the tolerance.
pub check_frozen-Frozen :
    (codes : StatusCodes) (rows : List HistoryRow) (max_age : ℕ) (tolerance : ℤ) {code : ℕ}
    → check_frozen codes rows max_age tolerance ≡ some code
    → Frozen rows max_age tolerance
unfolding check_frozen
check_frozen-Frozen codes [] max_age tolerance h = cc
check_frozen-Frozen codes (first ∷ rest) max_age tolerance {code} h =
    option_elim (λ (r : Option ℕ). r ≡ some code → Frozen (first ∷ rest) max_age tolerance)
      (last? rest) (λ e k. no_code k)
      (λ last e.
        if_elim (λ (r : Option ℕ). r ≡ some code → Frozen (first ∷ rest) max_age tolerance)
          (ltb last.ts (first.ts + max_age)) (λ short k. no_code k)
          (λ long.
            if_elim (λ (r : Option ℕ). r ≡ some code → Frozen (first ∷ rest) max_age tolerance)
              (is_still (window_values (first ∷ rest) last.ts max_age) tolerance)
              (λ still k. record {
                first = first;
                rest = rest;
                last = last;
                begins = refl;
                ends = e;
                reaches = not_short last.ts (first.ts + max_age) long;
                apart = λ a b l r. is_still-apart _ tolerance a b still l r;
              })
              (λ moves k. no_code k)))
      h
  where
    no_code : {X : Type 0} → none ≡ some code → X
    no_code e = cc

    not_short : (a b : ℕ) → ltb a b ≡ false → b ≤ a
    not_short a b h = ground arith
