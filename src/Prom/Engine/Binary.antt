-- ===== src/Prom/Engine/Binary.antt =====
-- The binary operators of src/prometheus.rs that run as SQL: a number and a selector, and two
-- selectors.
use skaldberg.Base.{Bool, List, [], ◌∷◌, ◌++◌, if◌then◌else◌, Result, ◌>>=◌}
use skaldberg.Base.Int.{ℤ, ◌-ℤ◌, wrap_i64}
use skaldberg.Text.{Text, lit}
use skaldberg.Float.{Float}
use skaldberg.Prom.Types.{VectorSelector, Matcher, InstantPoint, RangePoints, BinOp}
use skaldberg.Prom.Select.{
  label_filters_for_selector, selector_predicates, join, cmp_op_sql, binop_value_sql,
}
use skaldberg.Prom.Binary.{filters}
use skaldberg.Prom.Engine.{
  PromError, Database, conditions, time_between, run, lookback_us, as_timestamp_us,
}
use skaldberg.Prom.Engine.Decode.{keeps_passing, keeps_not_null, instant_batches, decode_series}
use skaldberg.Prom.Engine.BinarySql.{
  scalar_vector_sql, side_ctes_sql, vector_vector_sql, side_range_ctes_sql, vector_vector_range_sql,
  scalar_vector_range_sql,
}

module _ {F : Type 0} ⦃f : Float F⦄ where
  unfoldable pub f64_sql_lit : F → Text
  f64_sql_lit v = lit "CAST(" ++ (f.debug v ++ lit " AS DOUBLE)")

unfoldable pub cmp_op_sql_pair : BinOp → Text
unfolding cmp_op_sql
cmp_op_sql_pair op = lit "j.lhs_v " ++ (cmp_op_sql op ++ lit " j.rhs_v")

-- `(metric_sel, value_sel, extra_where)`: a filter keeps the name and the value of a row, and adds
-- its condition.
unfoldable pub selection :
    (op : BinOp) (return_bool : Bool) (kept lhs_sql rhs_sql condition : Text) → Text × Text × Text
unfolding binop_value_sql
selection op return_bool kept lhs_sql rhs_sql condition =
    if filters op return_bool
    then (lit "s.metric_name", kept, lit " AND (" ++ (condition ++ lit ")"))
    else (lit "''", binop_value_sql op lhs_sql rhs_sql return_bool, [])

-- `(lhs_sql, rhs_sql)`
abbrev pub sides : Text → Text → Bool → Text × Text
sides scalar_lit value scalar_on_left =
    if scalar_on_left then (scalar_lit, value) else (value, scalar_lit)

-- The selection where one side is a number
abbrev pub scalar_selection : BinOp → Bool → Text → Text × Text → Text × Text × Text
scalar_selection op return_bool value (lhs_sql, rhs_sql) =
    selection op return_bool value lhs_sql rhs_sql
      (lhs_sql ++ (lit " " ++ (cmp_op_sql op ++ (lit " " ++ rhs_sql))))

-- The selection where the sides are joined
abbrev pub pair_selection : BinOp → Bool → Text × Text × Text
pair_selection op return_bool =
    selection op return_bool (lit "j.lhs_v") (lit "j.lhs_v") (lit "j.rhs_v") (cmp_op_sql_pair op)

abbrev pub where_of : VectorSelector → Text → Text
where_of sel time_window_clause =
    lit "WHERE " ++ join (lit " AND ") (selector_predicates sel ++ (time_window_clause ∷ []))

unfoldable pub vector_side_ctes :
    (side : Text) → VectorSelector → (time_window_clause : Text) → Text
unfolding side_ctes_sql selector_predicates
vector_side_ctes side sel time_window_clause = side_ctes_sql side (where_of sel time_window_clause)

unfoldable pub vector_side_range_ctes :
    (side : Text) → VectorSelector → (time_window_clause : Text) → Text
unfolding side_range_ctes_sql selector_predicates
vector_side_range_ctes side sel time_window_clause =
    side_range_ctes_sql side (where_of sel time_window_clause)

-- The filters of both selectors
abbrev pub both_filters : VectorSelector → VectorSelector → List Matcher
both_filters lsel rsel = label_filters_for_selector lsel ++ label_filters_for_selector rsel

module _ {P F : Type 0} ⦃f : Float F⦄ (db : Database P F) where
  unfoldable pub scalar_vector_instant_via_sql :
      F → VectorSelector → BinOp → Bool → Bool → ℤ → Result PromError (List (InstantPoint F))
  unfolding scalar_vector_sql f64_sql_lit selection conditions run instant_batches
  scalar_vector_instant_via_sql scalar sel op return_bool scalar_on_left time_us =
      let from_us = wrap_i64 (time_us -ℤ lookback_us) in
      let window_where = lit " WHERE " ++ conditions db sel from_us time_us in
      let both = sides (f64_sql_lit scalar) (lit "l.value") scalar_on_left in
      let (metric_sel, value_sel, extra_where) =
        scalar_selection op return_bool (lit "l.value") both in
      run db (scalar_vector_sql window_where metric_sel value_sel extra_where)
      >>= instant_batches (keeps_passing (label_filters_for_selector sel)) time_us

  unfoldable pub scalar_vector_range_via_sql :
      F → VectorSelector → BinOp → Bool → Bool → ℤ → ℤ → Result PromError (List (RangePoints F))
  unfolding scalar_vector_range_sql f64_sql_lit selection conditions run decode_series
      as_timestamp_us
  scalar_vector_range_via_sql scalar sel op return_bool scalar_on_left start_us end_us =
      let where_clause = lit " WHERE " ++ conditions db sel start_us end_us in
      let both = sides (f64_sql_lit scalar) (lit "sa.value") scalar_on_left in
      let (metric_sel, value_sel, extra_where) =
        scalar_selection op return_bool (lit "sa.value") both in
      run db (scalar_vector_range_sql where_clause metric_sel value_sel extra_where)
      >>= decode_series (keeps_passing (label_filters_for_selector sel)) as_timestamp_us

module _ {P F : Type 0} (db : Database P F) where
  unfoldable pub vector_vector_instant_via_sql :
      VectorSelector → VectorSelector → BinOp → Bool → ℤ → Result PromError (List (InstantPoint F))
  unfolding vector_vector_sql vector_side_ctes selection cmp_op_sql_pair time_between run
      instant_batches
  vector_vector_instant_via_sql lsel rsel op return_bool time_us =
      let from_us = wrap_i64 (time_us -ℤ lookback_us) in
      let time_window = time_between db from_us time_us in
      let (metric_sel, value_sel, extra_where) = pair_selection op return_bool in
      run db (
        vector_vector_sql (vector_side_ctes (lit "lhs") lsel time_window)
          (vector_side_ctes (lit "rhs") rsel time_window) metric_sel value_sel extra_where)
      >>= instant_batches (keeps_not_null (both_filters lsel rsel)) time_us

  unfoldable pub vector_vector_range_via_sql :
      VectorSelector
      → VectorSelector
      → BinOp
      → Bool
      → ℤ
      → ℤ
      → Result PromError (List (RangePoints F))
  unfolding vector_vector_range_sql vector_side_range_ctes selection cmp_op_sql_pair time_between
      run decode_series as_timestamp_us
  vector_vector_range_via_sql lsel rsel op return_bool start_us end_us =
      let time_window = time_between db start_us end_us in
      let (metric_sel, value_sel, extra_where) = pair_selection op return_bool in
      run db (
        vector_vector_range_sql (vector_side_range_ctes (lit "lhs") lsel time_window)
          (vector_side_range_ctes (lit "rhs") rsel time_window) metric_sel value_sel extra_where)
      >>= decode_series (keeps_not_null (both_filters lsel rsel)) as_timestamp_us
