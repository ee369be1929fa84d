-- ===== src/Prom/Engine/RetainedRange.antt =====
-- The labels of the aggregates over a range that run as SQL in src/prometheus.rs.
use skaldberg.Base.{
  ◌≡◌, refl, true, false, Option, none, some, List, [], ◌∷◌, All, ok, >>=-eq-ok, ok-inj, Result,
}
use skaldberg.Base.Int.{ℤ}
use skaldberg.Text.{Text}
use skaldberg.Float.{Float}
use skaldberg.Prom.Types.{VectorSelector, RangePoints, RangeFnOp, AggOp, LabelModifier}
use skaldberg.Prom.Select.{modifier_excluded_keys, aggregate_group_keys}
use skaldberg.Prom.Engine.{PromError, Database, as_int64, as_timestamp_us, run}
use skaldberg.Prom.Engine.RangeFn.{at_evals, over_evals, eval_times, max_range_evals}
use skaldberg.Prom.Engine.RangeAggregate.{
  range_aggregate_via_sql, range_aggregate_without_via_sql, range_aggregate_over_rangefn_via_sql,
  range_aggregate_over_rangefn_without_via_sql, query_by, query_without,
}
use skaldberg.Prom.Aggregate.{is_listed}
use skaldberg.Prom.Aggregate.Kept.{keeps_label}
use skaldberg.Prom.Engine.Retained.{retain_not-AreKept}
use skaldberg.Prom.Engine.GroupedKept.{IsRetainedSeries, decode_by-All, decode_without-All}

module _ {P F : Type 0} (db : Database P F) {A : Type 0} (Good : A → Type 0) where
  at_evals-All :
      (sel : VectorSelector) (range_us start_us end_us : ℤ)
      (query : Text → Text → Result PromError (List A)) (evals : List ℤ) (out : List A)
      → ((values sample_where : Text) (o : List A) → query values sample_where ≡ ok o → All Good o)
      → at_evals db sel range_us start_us end_us query evals ≡ ok out
      → All Good out
  unfolding at_evals
  at_evals-All sel range_us start_us end_us query [] out g h = rw (← ok-inj h) tt
  at_evals-All sel range_us start_us end_us query (t ∷ more) out g h = g _ _ out h

  -- What holds of all that the statement gives holds of all that the query returns.
  pub over_evals-All :
      (sel : VectorSelector) (range_us start_us end_us step_us : ℤ)
      (query : Text → Text → Result PromError (List A)) (out : List A)
      → ((values sample_where : Text) (o : List A) → query values sample_where ≡ ok o → All Good o)
      → over_evals db sel range_us start_us end_us step_us query ≡ ok out
      → All Good out
  unfolding over_evals
  over_evals-All sel range_us start_us end_us step_us query out g h =
      let (evals, e, h₁) = >>=-eq-ok (eval_times max_range_evals start_us end_us step_us) _ out h in
      at_evals-All sel range_us start_us end_us query evals out g h₁

module _ {P F : Type 0} ⦃f : Float F⦄ (db : Database P F) where
  -- Every series that an aggregate of a selector over a range returns has no metric name, at least one
  -- point, and only labels that the aggregation keeps.
  pub range_aggregate_via_sql-All :
      (sel : VectorSelector) (op : AggOp) (modifier : Option LabelModifier) (start_us end_us : ℤ)
      (out : List (RangePoints F))
      → range_aggregate_via_sql db sel op modifier start_us end_us ≡ ok out
      → All (IsRetainedSeries modifier) out
  unfolding range_aggregate_via_sql range_aggregate_without_via_sql modifier_excluded_keys
      aggregate_group_keys
  range_aggregate_via_sql-All sel op none start_us end_us out h =
      let (batches, e, h₁) = >>=-eq-ok (run db _) _ out h in
      decode_by-All false as_timestamp_us none [] (λ k n. refl) batches out h₁
  range_aggregate_via_sql-All sel op (some (LabelModifier.include ls)) start_us end_us out h =
      let (batches, e, h₁) = >>=-eq-ok (run db _) _ out h in
      decode_by-All false as_timestamp_us (some (LabelModifier.include ls)) ls (λ k n. n) batches
        out h₁
  range_aggregate_via_sql-All sel op (some (LabelModifier.exclude ls)) start_us end_us out h =
      let (batches, e, h₁) = >>=-eq-ok (run db _) _ out h in
      decode_without-All false as_timestamp_us (some (LabelModifier.exclude ls)) ls
        (retain_not-AreKept ls) batches out h₁

  query_by-All :
      (modifier : Option LabelModifier) (group_keys : List Text)
      → ((k : Text) → keeps_label modifier k ≡ false → is_listed k group_keys ≡ false)
      → (range_us : ℤ) (fn_op : RangeFnOp) (op : AggOp) (values sample_where : Text)
        (out : List (RangePoints F))
      → query_by db range_us fn_op op group_keys values sample_where ≡ ok out
      → All (IsRetainedSeries modifier) out
  unfolding query_by
  query_by-All modifier group_keys listed range_us fn_op op values sample_where out h =
      let (batches, e₁, h₁) = >>=-eq-ok (run db _) _ out h in
      decode_by-All true as_int64 modifier group_keys listed batches out h₁

  query_without-All :
      (excluded : List Text) (range_us : ℤ) (fn_op : RangeFnOp) (op : AggOp)
      (values sample_where : Text) (out : List (RangePoints F))
      → query_without db range_us fn_op op excluded values sample_where ≡ ok out
      → All (IsRetainedSeries (some (LabelModifier.exclude excluded))) out
  unfolding query_without
  query_without-All excluded range_us fn_op op values sample_where out h =
      let (batches, e₁, h₁) = >>=-eq-ok (run db _) _ out h in
      decode_without-All true as_int64 (some (LabelModifier.exclude excluded)) excluded
        (retain_not-AreKept excluded) batches out h₁

  -- The same of an aggregate of a range function.
  pub range_aggregate_over_rangefn_via_sql-All :
      (sel : VectorSelector) (range_us : ℤ) (fn_op : RangeFnOp) (op : AggOp)
      (modifier : Option LabelModifier) (start_us end_us step_us : ℤ) (out : List (RangePoints F))
      → range_aggregate_over_rangefn_via_sql db sel range_us fn_op op modifier start_us end_us
          step_us
        ≡ ok out
      → All (IsRetainedSeries modifier) out
  unfolding range_aggregate_over_rangefn_via_sql range_aggregate_over_rangefn_without_via_sql
      modifier_excluded_keys aggregate_group_keys
  range_aggregate_over_rangefn_via_sql-All sel range_us fn_op op none start_us end_us step_us out
        h =
      over_evals-All db (IsRetainedSeries none) sel range_us start_us end_us step_us
        (query_by db range_us fn_op op []) out
        (query_by-All none [] (λ k n. refl) range_us fn_op op) h
  range_aggregate_over_rangefn_via_sql-All sel range_us fn_op op (some (LabelModifier.include ls))
        start_us end_us step_us out h =
      over_evals-All db (IsRetainedSeries (some (LabelModifier.include ls))) sel range_us start_us
        end_us step_us (query_by db range_us fn_op op ls) out
        (query_by-All (some (LabelModifier.include ls)) ls (λ k n. n) range_us fn_op op) h
  range_aggregate_over_rangefn_via_sql-All sel range_us fn_op op (some (LabelModifier.exclude ls))
        start_us end_us step_us out h =
      over_evals-All db (IsRetainedSeries (some (LabelModifier.exclude ls))) sel range_us start_us
        end_us step_us (query_without db range_us fn_op op ls) out
        (query_without-All ls range_us fn_op op) h
