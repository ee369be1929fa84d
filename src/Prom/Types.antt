-- ===== src/Prom/Types.antt =====
-- The shapes of src/prometheus.rs, and those of the syntax tree of the crate promql-parser that it
-- matches on.
use skaldberg.Base.{ℕ, Bool, Option, List}
use skaldberg.Base.Int.{ℤ}
use skaldberg.BTreeMap.{BTreeMap}
use skaldberg.Text.{Text}

abbrev pub Labels : Type 0
Labels = BTreeMap Text Text

-- One entry per output series
pub record InstantPoint (F : Type 0) : Type 0 where
  pub metric_name : Text
  pub labels : Labels
  pub ts_us : ℤ
  pub value : F

pub record RangePoints (F : Type 0) : Type 0 where
  pub metric_name : Text
  pub labels : Labels
  pub points : List (ℤ × F)

pub record SeriesRow (F : Type 0) : Type 0 where
  pub metric_name : Text
  pub labels : Labels
  pub ts_us : ℤ
  pub value : F

pub data BinOp : Type 0 where
  add : BinOp
  sub : BinOp
  mul : BinOp
  div : BinOp
  mod_ : BinOp
  pow : BinOp
  eq : BinOp
  ne : BinOp
  lt : BinOp
  le : BinOp
  gt : BinOp
  ge : BinOp

pub data RangeFnOp : Type 0 where
  rate : RangeFnOp
  irate : RangeFnOp
  increase : RangeFnOp
  delta : RangeFnOp

pub data AggOp : Type 0 where
  sum : AggOp
  avg : AggOp
  min : AggOp
  max : AggOp
  count : AggOp

-- `by (...)` and `without (...)`
pub data LabelModifier : Type 0 where
  include : List Text → LabelModifier
  exclude : List Text → LabelModifier

-- A regular expression is what it matches.
pub data MatchOp : Type 0 where
  equal : MatchOp
  not_equal : MatchOp
  re : (Text → Bool) → MatchOp
  not_re : (Text → Bool) → MatchOp

pub record Matcher : Type 0 where
  pub name : Text
  pub op : MatchOp
  pub value : Text

pub record VectorSelector : Type 0 where
  pub name : Option Text
  pub matchers : List Matcher

-- The constructors of `Expr` that the code matches on, and one for all others; the duration of a
-- matrix selector is its microseconds.
mutual
  pub data Expr (F : Type 0) : Type 0 where
    vector_selector : VectorSelector → Expr F
    matrix_selector : VectorSelector → ℕ → Expr F
    number_literal : F → Expr F
    call : Text → Exprs F → Expr F
    aggregate : ℕ → Param F → Option LabelModifier → Expr F → Expr F
    binary : ℕ → Expr F → Expr F → Option Bool → Expr F
    paren : Expr F → Expr F
    unary : Expr F → Expr F
    subquery : Expr F → Expr F
    other : Expr F

  pub data Exprs (F : Type 0) : Type 0 where
    nil : Exprs F
    cons : Expr F → Exprs F → Exprs F

  -- The optional parameter of an aggregation
  pub data Param (F : Type 0) : Type 0 where
    absent : Param F
    given : Expr F → Param F

pub data QueryKind (F : Type 0) : Type 0 where
  selector : VectorSelector → QueryKind F
  range_fn : (sel : VectorSelector) (range_us : ℤ) (op : RangeFnOp) → QueryKind F
  aggregate_kind : (op : AggOp) (modifier : Option LabelModifier) (inner : Expr F) → QueryKind F
  histogram_quantile : (quantile : F) (inner : Expr F) → QueryKind F
  top_k : (n : ℕ) (top : Bool) (modifier : Option LabelModifier) (inner : Expr F) → QueryKind F
  binary_kind : (op : BinOp) (lhs rhs : Expr F) (return_bool : Bool) → QueryKind F
