-- ===== src/Prom/Engine/RangeFn.antt =====
-- `instant_range_fn_via_sql` and `range_range_fn_via_sql` of src/prometheus.rs.
use skaldberg.Base.{ℕ, zero, suc, List, [], ◌∷◌, ◌++◌, map, if◌then◌else◌, Result, ok, err, ◌>>=◌}
use skaldberg.Base.Int.{ℤ, ◌-ℤ◌, ◌+ℤ◌, wrap_i64, saturate_i64, ltb_ℤ}
use skaldberg.Order.{list_ord, nat_ord}
use skaldberg.Text.{Text, lit, show_ℤ}
use skaldberg.Float.{Float}
use skaldberg.Prom.Types.{VectorSelector, InstantPoint, RangePoints, RangeFnOp}
use skaldberg.Prom.Select.{label_filters_for_selector, join}
use skaldberg.Prom.Engine.{PromError, bad_data, Database, as_int64, conditions, run}
use skaldberg.Prom.Engine.Decode.{keeps, instant_batches, decode_series}
use skaldberg.Prom.Engine.Sql.{build_range_fn_sql, build_range_range_fn_sql}

abbrev pub max_range_evals : ℕ
max_range_evals = 11_000

-- The loop that lists the evaluation times: `left` more of them are allowed.
unfoldable pub eval_times : (left : ℕ) (t end_us step_us : ℤ) → Result PromError (List ℤ)
eval_times zero t end_us step_us = if ltb_ℤ end_us t then ok [] else err bad_data
eval_times (suc left) t end_us step_us =
    let later = eval_times left (saturate_i64 (t +ℤ step_us)) end_us step_us in
    if ltb_ℤ end_us t then ok [] else (later >>= λ evals. ok (t ∷ evals))

-- `({v})` for each of the times
abbrev pub values_clause : List ℤ → Text
values_clause evals = join (lit ", ") (map (λ v. lit "(" ++ (show_ℤ v ++ lit ")")) evals)

module _ {P F : Type 0} (db : Database P F) where
  -- What the queries over range functions do first: the evaluation times, nothing if there are none,
  -- and the parts of the statement that come of them and of the window.
  unfoldable pub at_evals :
      {A : Type 0}
      → VectorSelector
      → (range_us start_us end_us : ℤ) → ((values sample_where : Text) → Result PromError (List A))
      → List ℤ
      → Result PromError (List A)
  unfolding conditions
  at_evals sel range_us start_us end_us query [] = ok []
  at_evals sel range_us start_us end_us query (t ∷ more) =
      let global_lo = saturate_i64 (start_us -ℤ range_us) in
      query (values_clause (t ∷ more)) (conditions db sel global_lo end_us)

  unfoldable pub over_evals :
      {A : Type 0}
      → VectorSelector
      → (range_us start_us end_us step_us : ℤ)
      → ((values sample_where : Text) → Result PromError (List A))
      → Result PromError (List A)
  unfolding at_evals eval_times
  over_evals sel range_us start_us end_us step_us query =
      eval_times max_range_evals start_us end_us step_us
      >>= at_evals sel range_us start_us end_us query

module _ {P F : Type 0} ⦃f : Float F⦄ (db : Database P F) where
  unfoldable pub instant_range_fn_via_sql :
      VectorSelector → ℤ → RangeFnOp → ℤ → Result PromError (List (InstantPoint F))
  unfolding conditions run instant_batches build_range_fn_sql
  instant_range_fn_via_sql sel range_us op time_us =
      let from_us = wrap_i64 (time_us -ℤ range_us) in
      let where_clause = lit "WHERE " ++ conditions db sel from_us time_us in
      run db (build_range_fn_sql op where_clause)
      >>= instant_batches (keeps (label_filters_for_selector sel)) time_us

  unfoldable pub range_range_fn_via_sql :
      VectorSelector → ℤ → RangeFnOp → ℤ → ℤ → ℤ → Result PromError (List (RangePoints F))
  unfolding over_evals run decode_series build_range_range_fn_sql as_int64
  range_range_fn_via_sql sel range_us op start_us end_us step_us =
      over_evals db sel range_us start_us end_us step_us (λ values sample_where.
        run db (build_range_range_fn_sql op range_us values sample_where)
        >>= decode_series (keeps (label_filters_for_selector sel)) as_int64)
