-- ===== src/Prom/Eval/Instant.antt =====
-- `evaluate_instant` of src/prometheus.rs.
use skaldberg.Base.{ℕ, List}
use skaldberg.Base.Int.{ℤ}
use skaldberg.Float.{Float}
use skaldberg.Prom.Types.{Expr, InstantPoint}
use skaldberg.Prom.Query.{Tokens}
use skaldberg.Prom.Aggregate.{aggregate_instant_points, topk_instant_points}
use skaldberg.Prom.Binary.{apply_scalar_vector_instant, apply_vector_vector_instant}
use skaldberg.Prom.Histogram.{histogram_quantile_instant}
use skaldberg.Prom.Engine.{Database, instant_selector}
use skaldberg.Prom.Engine.RangeFn.{instant_range_fn_via_sql}
use skaldberg.Prom.Engine.Aggregate.{
  instant_aggregate_via_sql, instant_aggregate_over_rangefn_via_sql,
}
use skaldberg.Prom.Engine.Quantile.{instant_histogram_quantile_via_sql}
use skaldberg.Prom.Engine.Topk.{instant_topk_via_sql, instant_topk_over_rangefn_via_sql}
use skaldberg.Prom.Engine.Binary.{scalar_vector_instant_via_sql, vector_vector_instant_via_sql}
use skaldberg.Prom.Eval.{Run, Backend, evaluate}

module _ {P F : Type 0} ⦃f : Float F⦄ (db : Database P F) where
  abbrev pub instant_backend : ℤ → Backend (InstantPoint F) F
  instant_backend time_us = record {
    selector = λ sel. instant_selector db sel time_us;
    range_fn = λ sel range_us op. instant_range_fn_via_sql db sel range_us op time_us;
    aggregate = λ sel op modifier. instant_aggregate_via_sql db sel op modifier time_us;
    aggregate_over_rangefn = λ sel range_us fn_op op modifier.
        instant_aggregate_over_rangefn_via_sql db sel range_us fn_op op modifier time_us;
    aggregate_points = λ pts op modifier. aggregate_instant_points pts op modifier time_us;
    quantile_over_rangefn = λ sel range_us fn_op quantile.
        instant_histogram_quantile_via_sql db sel range_us fn_op quantile time_us;
    quantile_points = λ pts quantile. histogram_quantile_instant pts quantile time_us;
    topk = λ sel n top modifier. instant_topk_via_sql db sel n top modifier time_us;
    topk_over_rangefn = λ sel range_us fn_op n top modifier.
        instant_topk_over_rangefn_via_sql db sel range_us fn_op n top modifier time_us;
    topk_points = λ pts n top modifier. topk_instant_points pts n top modifier;
    scalar_vector = λ scalar sel op return_bool scalar_on_left.
        scalar_vector_instant_via_sql db scalar sel op return_bool scalar_on_left time_us;
    vector_vector = λ lsel rsel op return_bool.
        vector_vector_instant_via_sql db lsel rsel op return_bool time_us;
    apply_scalar_vector = λ s pts op return_bool scalar_on_left.
        apply_scalar_vector_instant s pts op return_bool scalar_on_left;
    apply_vector_vector =
        λ lpts rpts op return_bool. apply_vector_vector_instant lpts rpts op return_bool;
  }

  unfoldable pub evaluate_instant : Tokens → (fuel : ℕ) → Expr F → ℤ → Run (List (InstantPoint F))
  unfolding evaluate
  evaluate_instant t fuel expr time_us = evaluate t (instant_backend time_us) fuel expr
