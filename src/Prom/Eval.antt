-- ===== src/Prom/Eval.antt =====
-- `evaluate_instant` and `evaluate_range` of src/prometheus.rs. The two have one shape, over points
-- and over series: which plan runs as SQL, and what is done to the answers of the subexpressions.
-- The recursion is on fuel.
pub mod Instant
pub mod Range
pub mod Size
pub mod Total
pub mod Labels
use skaldberg.Base.{
  ℕ, zero, suc, Bool, true, false, ◌&&◌, Option, none, some, List, [], ◌∷◌, if◌then◌else◌, Result,
  ok, err,
}
use skaldberg.Base.Int.{ℤ}
use skaldberg.Float.{Float}
use skaldberg.Prom.Types.{VectorSelector, RangeFnOp, AggOp, BinOp, LabelModifier, Expr, QueryKind}
use skaldberg.Prom.Select.{aggregate_can_push_down}
use skaldberg.Prom.Query.{Tokens, detect_query_kind, pure_selector, literal}
use skaldberg.Prom.Binary.{scalar_vector_pair}
use skaldberg.Prom.Engine.{PromError}

-- An evaluation, `none` when the fuel ran out
abbrev pub Run : Type 0 → Type 0
Run B = Option (Result PromError B)

-- What follows a `?`, where it cannot fail
abbrev pub and_then : {A B : Type 0} → Run A → (A → B) → Run B
and_then none g = none
and_then (some (err e)) g = some (err e)
and_then (some (ok a)) g = some (ok (g a))

-- `Side` and `SideR`
pub data Side (A F : Type 0) : Type 0 where
  scalar : F → Side A F
  vector : List A → Side A F

-- The functions that the evaluator calls, at an instant or over a range; a result of one is a list of
-- points or of series.
pub record Backend (A F : Type 0) : Type 0 where
  pub selector : VectorSelector → Result PromError (List A)
  pub range_fn : VectorSelector → ℤ → RangeFnOp → Result PromError (List A)
  pub aggregate : VectorSelector → AggOp → Option LabelModifier → Result PromError (List A)
  pub aggregate_over_rangefn :
      VectorSelector → ℤ → RangeFnOp → AggOp → Option LabelModifier → Result PromError (List A)
  pub aggregate_points : List A → AggOp → Option LabelModifier → List A
  pub quantile_over_rangefn : VectorSelector → ℤ → RangeFnOp → F → Result PromError (List A)
  pub quantile_points : List A → F → List A
  pub topk : VectorSelector → ℕ → Bool → Option LabelModifier → Result PromError (List A)
  pub topk_over_rangefn :
      VectorSelector → ℤ → RangeFnOp → ℕ → Bool → Option LabelModifier → Result PromError (List A)
  pub topk_points : List A → ℕ → Bool → Option LabelModifier → List A
  pub scalar_vector : F → VectorSelector → BinOp → Bool → Bool → Result PromError (List A)
  pub vector_vector : VectorSelector → VectorSelector → BinOp → Bool → Result PromError (List A)
  pub apply_scalar_vector : F → List A → BinOp → Bool → Bool → List A
  pub apply_vector_vector : List A → List A → BinOp → Bool → List A

module _ {A F : Type 0} (b : Backend A F) where
  -- The arms of `match (left, right)`
  unfoldable pub apply_sides : Side A F → Side A F → BinOp → Bool → List A
  apply_sides (Side.scalar s) (Side.vector pts) op return_bool =
      b.apply_scalar_vector s pts op return_bool true
  apply_sides (Side.vector pts) (Side.scalar s) op return_bool =
      b.apply_scalar_vector s pts op return_bool false
  apply_sides (Side.vector lpts) (Side.vector rpts) op return_bool =
      b.apply_vector_vector lpts rpts op return_bool
  apply_sides (Side.scalar s) (Side.scalar s') op return_bool = []

module _ {A F : Type 0} where
  -- `eval_side_instant` and `eval_side_range`
  unfoldable pub eval_side : (Expr F → Run (List A)) → Expr F → Run (Side A F)
  eval_side evaluate expr = elim (literal expr) [
    | some x ↦ some (ok (Side.scalar x))
    | none ↦ and_then (evaluate expr) Side.vector
  ]

  -- Both sides, the left one first
  abbrev pub on_sides :
      Run (Side A F) → Run (Side A F) → (Side A F → Side A F → List A) → Run (List A)
  on_sides none right apply = none
  on_sides (some (err e)) right apply = some (err e)
  on_sides (some (ok left)) right apply = and_then right (apply left)

module _ {F : Type 0} ⦃f : Float F⦄ where
  -- `quantile.is_finite() && quantile > 0.0 && quantile < 1.0`
  abbrev pub is_inner_quantile : F → Bool
  is_inner_quantile q = f.is_finite q && (f.flt f.zero q && f.flt q f.one)

module _ {F : Type 0} where
  -- `Some(QueryKind::RangeFn { .. })`
  abbrev pub range_fn_part : Option (QueryKind F) → Option (VectorSelector × ℤ × RangeFnOp)
  range_fn_part (some (QueryKind.range_fn sel range_us op)) = some (sel, range_us, op)
  range_fn_part kind = none

module _ {A F : Type 0} ⦃f : Float F⦄ (t : Tokens) (b : Backend A F)
    (evaluate : Expr F → Run (List A)) where
  -- The plan of an aggregation or of `topk`: SQL for a selector, SQL for a range function, and
  -- otherwise a function of the answer for the inner expression
  unfoldable pub push_down :
      Option LabelModifier
      → Expr F
      → (VectorSelector → Result PromError (List A))
      → (VectorSelector → ℤ → RangeFnOp → Result PromError (List A))
      → (List A → List A)
      → Run (List A)
  unfolding aggregate_can_push_down pure_selector detect_query_kind
  push_down modifier inner on_selector on_range_fn on_points =
      let in_memory = and_then (evaluate inner) on_points in
      if aggregate_can_push_down modifier
      then elim (pure_selector inner) [
        | some sel ↦ some (on_selector sel)
        | none ↦ elim (range_fn_part (detect_query_kind t inner)) [
          | some (sel, range_us, fn_op) ↦ some (on_range_fn sel range_us fn_op)
          | none ↦ in_memory
        ]
      ]
      else in_memory

  unfoldable pub eval_quantile : F → Expr F → Run (List A)
  unfolding detect_query_kind
  eval_quantile quantile inner =
      let in_memory = and_then (evaluate inner) (λ pts. b.quantile_points pts quantile) in
      if is_inner_quantile quantile
      then elim (range_fn_part (detect_query_kind t inner)) [
        | some (sel, range_us, fn_op) ↦ some (b.quantile_over_rangefn sel range_us fn_op quantile)
        | none ↦ in_memory
      ]
      else in_memory

  -- `binary_instant_eval` and `binary_range_eval`
  unfoldable pub binary_eval : Expr F → Expr F → BinOp → Bool → Run (List A)
  unfolding scalar_vector_pair pure_selector eval_side apply_sides
  binary_eval lhs rhs op return_bool =
      let in_memory =
        on_sides (eval_side evaluate lhs) (eval_side evaluate rhs)
          (λ left right. apply_sides b left right op return_bool) in
      elim (scalar_vector_pair lhs rhs) [
        | some (x, sel, scalar_on_left) ↦ some (b.scalar_vector x sel op return_bool scalar_on_left)
        | none ↦ elim (pure_selector lhs) [
          | none ↦ in_memory
          | some lsel ↦ elim (pure_selector rhs) [
            | none ↦ in_memory
            | some rsel ↦ some (b.vector_vector lsel rsel op return_bool)
          ]
        ]
      ]

  -- The arms of the evaluator
  unfoldable pub eval_kind : QueryKind F → Run (List A)
  unfolding push_down eval_quantile binary_eval
  eval_kind (QueryKind.selector sel) = some (b.selector sel)
  eval_kind (QueryKind.range_fn sel range_us op) = some (b.range_fn sel range_us op)
  eval_kind (QueryKind.aggregate_kind op modifier inner) =
      push_down modifier inner (λ sel. b.aggregate sel op modifier)
        (λ sel range_us fn_op. b.aggregate_over_rangefn sel range_us fn_op op modifier)
        (λ pts. b.aggregate_points pts op modifier)
  eval_kind (QueryKind.histogram_quantile quantile inner) = eval_quantile quantile inner
  eval_kind (QueryKind.top_k n top modifier inner) =
      push_down modifier inner (λ sel. b.topk sel n top modifier)
        (λ sel range_us fn_op. b.topk_over_rangefn sel range_us fn_op n top modifier)
        (λ pts. b.topk_points pts n top modifier)
  eval_kind (QueryKind.binary_kind op lhs rhs return_bool) = binary_eval lhs rhs op return_bool

module _ {A F : Type 0} ⦃f : Float F⦄ (t : Tokens) (b : Backend A F) where
  unfoldable pub evaluate : (fuel : ℕ) → Expr F → Run (List A)
  unfolding detect_query_kind eval_kind
  evaluate zero expr = none
  evaluate (suc fuel) expr = elim (detect_query_kind t expr) [
    | none ↦ some (ok [])
    | some kind ↦ eval_kind t b (evaluate fuel) kind
  ]
