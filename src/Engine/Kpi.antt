-- ===== src/Engine/Kpi.antt =====
-- engine/kpi.py: the evaluation of an equation over named inputs, and the quality of its result.
-- Python's floats and the calls on them are a parameter, and the syntax tree that `ast.parse` makes is
-- the input of `safe_eval`; a parse error is `none`. Texts of reasons are left out.
pub mod Honest
use Prim.Native.String.{String}
use kpcl_hardware.Common.{
  ℕ, Bool, true, false, not, ◌&&◌, ◌||◌, Option, none, some, List, [], ◌∷◌, ◌++◌, ◌==◌,
  if◌then◌else◌, any_of,
}
use kpcl_hardware.Common.Text.{same_text}
use kpcl_hardware.Engine.Quality.{severity}

-- The keys of `_BINOPS`, `_UNARY` and `_CALLS`.
pub data BinaryOp : Type 0 where
  add sub mult div pow mod_op floor_div : BinaryOp

pub data UnaryOp : Type 0 where
  plus minus : UnaryOp

pub data Call : Type 0 where
  abs_call min_call max_call round_call : Call

-- Floats: `binary`, `unary` and `call` are `none` where Python raises, or where a power is complex,
-- which is no float.
pub record Floats : Type 1 where
  pub Float : Type 0
  pub is_zero : Float → Bool
  pub is_less : Float → Float → Bool
  pub binary : BinaryOp → Float → Float → Option Float
  pub unary : UnaryOp → Float → Option Float
  pub call : Call → List Float → Option Float

-- A node of the tree. `forbidden` is every node that `walk` refuses: another literal, operator or
-- call, a keyword argument, and any other kind of node.
mutual
  pub data Expr (F : Type 0) : Type 0 where
    constant : F → Expr F
    name : String → Expr F
    binary : BinaryOp → Expr F → Expr F → Expr F
    unary : UnaryOp → Expr F → Expr F
    call : Call → Exprs F → Expr F
    forbidden : Expr F

  pub data Exprs (F : Type 0) : Type 0 where
    no_more : Exprs F
    argument : Expr F → Exprs F → Exprs F

-- How an evaluation ends: with a value, with one of the module's two errors, or with another exception.
pub data Outcome (V : Type 0) : Type 0 where
  value : V → Outcome V
  division_by_zero equation_error other_exception : Outcome V

abbrev pub and_then : {V W : Type 0} → Outcome V → (V → Outcome W) → Outcome W
and_then (value v) f = f v
and_then division_by_zero f = division_by_zero
and_then equation_error f = equation_error
and_then other_exception f = other_exception

abbrev pub or_raise : {V : Type 0} → Option V → Outcome V
or_raise none = other_exception
or_raise (some v) = value v

-- The operators whose right side is tested for zero.
unfoldable pub divides : BinaryOp → Bool
divides div = true
divides mod_op = true
divides floor_div = true
divides add = false
divides sub = false
divides mult = false
divides pow = false

unfoldable pub look_up : {V : Type 0} → String → List (String × V) → Option V
unfolding same_text
look_up key [] = none
look_up key ((k, v) ∷ rest) = if same_text k key then some v else look_up key rest

module _ (fl : Floats) where
  -- `op(left, right)`, once both sides are known.
  unfoldable pub apply_binary : BinaryOp → fl.Float → fl.Float → Outcome fl.Float
  unfolding divides
  apply_binary op left right =
      if divides op && fl.is_zero right
      then division_by_zero
      else or_raise (fl.binary op left right)

  unfoldable mutual
    unfolding look_up apply_binary

    -- `walk`
    pub walk : List (String × fl.Float) → Expr fl.Float → Outcome fl.Float
    walk names (constant v) = value v
    walk names (name x) = elim (look_up x names) [ none ↦ equation_error | some v ↦ value v ]
    walk names (binary op a b) =
        let right = walk names b in
        and_then (walk names a) (λ left. and_then right (λ r. apply_binary op left r))
    walk names (unary op a) = and_then (walk names a) (λ v. or_raise (fl.unary op v))
    walk names (call c args) = and_then (walk_all names args) (λ vs. or_raise (fl.call c vs))
    walk names forbidden = equation_error

    pub walk_all : List (String × fl.Float) → Exprs fl.Float → Outcome (List fl.Float)
    walk_all names no_more = value []
    walk_all names (argument a rest) =
        let others = walk_all names rest in
        and_then (walk names a) (λ v. and_then others (λ vs. value (v ∷ vs)))

  -- `safe_eval`
  unfoldable pub safe_eval : Option (Expr fl.Float) → List (String × fl.Float) → Outcome fl.Float
  safe_eval none names = equation_error
  safe_eval (some tree) names = walk names tree

-- The status codes that asyncua names; Good is 0.
pub record KpiCodes : Type 0 where
  pub bad_input : ℕ
  pub bad_no_data : ℕ
  pub bad_divide : ℕ
  pub uncertain_input : ℕ
  pub uncertain_validity : ℕ

module _ (fl : Floats) where
  -- `InputValue`, as `_resolve_inputs` found it.
  pub record InputValue : Type 0 where
    pub variable : String
    pub value : Option fl.Float
    pub quality : ℕ

  -- The part of `KpiDefinition` that `compute` reads.
  pub record KpiDefinition : Type 0 where
    pub equation : Option (Expr fl.Float)
    pub constants : List (String × fl.Float)
    pub validity_low : Option fl.Float
    pub validity_high : Option fl.Float

  pub record KpiResult : Type 0 where
    pub quality : ℕ
    pub value : Option fl.Float

  -- `severity(i.quality) == 2 or i.value is None`
  unfoldable pub is_bad_input : InputValue → Bool
  unfolding severity
  is_bad_input i = severity i.quality == 2 || (elim i.value [ none ↦ true | some v ↦ false ])

  unfoldable pub is_uncertain_input : InputValue → Bool
  unfolding severity
  is_uncertain_input i = severity i.quality == 1

  -- `{i.variable: float(i.value) for i in inputs}`
  unfoldable pub input_names : List InputValue → List (String × fl.Float)
  input_names [] = []
  input_names (i ∷ rest) =
      let more = input_names rest in elim i.value [ none ↦ more | some v ↦ (i.variable, v) ∷ more ]

  unfoldable pub is_outside : KpiDefinition → fl.Float → Bool
  is_outside d v =
      (elim d.validity_low [ none ↦ false | some low ↦ fl.is_less v low ])
      || (elim d.validity_high [ none ↦ false | some high ↦ fl.is_less high v ])

  -- A result without a value.
  abbrev pub withheld : ℕ → Option KpiResult
  withheld quality = some (record { quality = quality; value = none })

  -- The end of `compute`, once the equation has been evaluated; `none` is an exception that escapes.
  unfoldable pub judge : KpiCodes → KpiDefinition → Outcome fl.Float → Option KpiResult
  unfolding is_outside
  judge codes d (value v) =
      if is_outside d v
      then withheld codes.uncertain_validity
      else some (record { quality = 0; value = some v })
  judge codes d division_by_zero = withheld codes.bad_divide
  judge codes d equation_error = withheld codes.bad_no_data
  judge codes d other_exception = none

  -- A constant takes the place of an input of the same name.
  unfoldable pub names_of : KpiDefinition → List InputValue → List (String × fl.Float)
  unfolding input_names
  names_of d inputs = d.constants ++ input_names inputs

  -- `compute`, for the inputs that were found.
  unfoldable pub compute : KpiCodes → KpiDefinition → List InputValue → Option KpiResult
  unfolding is_bad_input is_uncertain_input names_of safe_eval judge
  compute codes d inputs =
      if any_of is_bad_input inputs
      then withheld codes.bad_input
      else if any_of is_uncertain_input inputs
      then withheld codes.uncertain_input
      else judge codes d (safe_eval fl d.equation (names_of d inputs))
