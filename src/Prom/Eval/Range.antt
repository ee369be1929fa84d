-- ===== src/Prom/Eval/Range.antt =====
-- `evaluate_range` of src/prometheus.rs.
use skaldberg.Base.{ℕ, List}
use skaldberg.Base.Int.{ℤ}
use skaldberg.Float.{Float}
use skaldberg.Prom.Types.{Expr, RangePoints}
use skaldberg.Prom.Query.{Tokens}
use skaldberg.Prom.Aggregate.{aggregate_range_points}
use skaldberg.Prom.Aggregate.TopkRange.{topk_range_points}
use skaldberg.Prom.Binary.{apply_scalar_vector_range, apply_vector_vector_range}
use skaldberg.Prom.Histogram.{histogram_quantile_range}
use skaldberg.Prom.Engine.{Database, range_selector}
use skaldberg.Prom.Engine.RangeFn.{range_range_fn_via_sql}
use skaldberg.Prom.Engine.RangeAggregate.{
  range_aggregate_via_sql, range_aggregate_over_rangefn_via_sql,
}
use skaldberg.Prom.Engine.Quantile.{range_histogram_quantile_via_sql}
use skaldberg.Prom.Engine.Topk.{range_topk_via_sql, range_topk_over_rangefn_via_sql}
use skaldberg.Prom.Engine.Binary.{scalar_vector_range_via_sql, vector_vector_range_via_sql}
use skaldberg.Prom.Eval.{Run, Backend, evaluate}

module _ {P F : Type 0} ⦃f : Float F⦄ (db : Database P F) where
  abbrev pub range_backend : (start_us end_us step_us : ℤ) → Backend (RangePoints F) F
  range_backend start_us end_us step_us = record {
    selector = λ sel. range_selector db sel start_us end_us;
    range_fn = λ sel range_us op. range_range_fn_via_sql db sel range_us op start_us end_us step_us;
    aggregate = λ sel op modifier. range_aggregate_via_sql db sel op modifier start_us end_us;
    aggregate_over_rangefn = λ sel range_us fn_op op modifier.
        range_aggregate_over_rangefn_via_sql db sel range_us fn_op op modifier start_us end_us
          step_us;
    aggregate_points = λ series op modifier. aggregate_range_points series op modifier;
    quantile_over_rangefn = λ sel range_us fn_op quantile.
        range_histogram_quantile_via_sql db sel range_us fn_op quantile start_us end_us step_us;
    quantile_points = λ series quantile. histogram_quantile_range series quantile;
    topk = λ sel n top modifier. range_topk_via_sql db sel n top modifier start_us end_us;
    topk_over_rangefn = λ sel range_us fn_op n top modifier.
        range_topk_over_rangefn_via_sql db sel range_us fn_op n top modifier start_us end_us
          step_us;
    topk_points = λ series n top modifier. topk_range_points series n top modifier;
    scalar_vector = λ scalar sel op return_bool scalar_on_left.
        scalar_vector_range_via_sql db scalar sel op return_bool scalar_on_left start_us end_us;
    vector_vector = λ lsel rsel op return_bool.
        vector_vector_range_via_sql db lsel rsel op return_bool start_us end_us;
    apply_scalar_vector = λ s series op return_bool scalar_on_left.
        apply_scalar_vector_range s series op return_bool scalar_on_left;
    apply_vector_vector = λ l r op return_bool. apply_vector_vector_range l r op return_bool;
  }

  unfoldable pub evaluate_range :
      Tokens → (fuel : ℕ) → Expr F → (start_us end_us step_us : ℤ) → Run (List (RangePoints F))
  unfolding evaluate
  evaluate_range t fuel expr start_us end_us step_us =
      evaluate t (range_backend start_us end_us step_us) fuel expr
