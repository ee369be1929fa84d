-- ===== src/Prom/Eval/Labels.antt =====
-- The labels of the answer for an aggregation, at an instant and over a range, whichever way
-- src/prometheus.rs evaluates it.
use skaldberg.Base.{
  ◌≡◌, refl, ℕ, zero, suc, Bool, true, false, Bool-cases, inl, inr, Option, none, some,
  Option-cases, List, [], ◌∷◌, All, All-append, All-map, map, Result, ok, err, ok-inj, some-inj,
  is_empty, arith,
}
use skaldberg.Base.Int.{ℤ}
use skaldberg.Order.{list_ord, nat_ord, pair_ord, int_ord}
use skaldberg.BTreeMap.{BTreeMap}
use skaldberg.BTreeMap.Sums.{AllKeys}
use skaldberg.Float.{Float}
use skaldberg.Prom.Types.{
  Labels, Expr, QueryKind, InstantPoint, RangePoints, AggOp, RangeFnOp, LabelModifier,
  VectorSelector,
}
use skaldberg.Prom.Ops.{apply_agg}
use skaldberg.Prom.Select.{aggregate_can_push_down}
use skaldberg.Prom.Query.{Tokens, detect_query_kind, pure_selector}
use skaldberg.Prom.Aggregate.{
  aggregate_instant_points, aggregate_range_points, aggregate_groups, aggregate_group,
  retained_labels, group_by, all_points,
}
use skaldberg.Prom.Aggregate.Kept.{AreKept, retained_labels-AreKept, group_by-AllKeys}
use skaldberg.Prom.Engine.{PromError, Database}
use skaldberg.Prom.Engine.Retained.{
  IsRetained, instant_aggregate_via_sql-All, instant_aggregate_over_rangefn_via_sql-All,
}
use skaldberg.Prom.Engine.GroupedKept.{IsRetainedSeries}
use skaldberg.Prom.Engine.RetainedRange.{
  range_aggregate_via_sql-All, range_aggregate_over_rangefn_via_sql-All,
}
use skaldberg.Prom.Eval.{Run, Backend, and_then, range_fn_part, evaluate, eval_kind, push_down}
use skaldberg.Prom.Eval.Instant.{instant_backend, evaluate_instant}
use skaldberg.Prom.Eval.Range.{range_backend, evaluate_range}

module _ {F : Type 0} ⦃f : Float F⦄ (modifier : Option LabelModifier) where
  groups_at-All :
      (op : AggOp) (time_us : ℤ) (groups : BTreeMap Labels (List F))
      → AllKeys (AreKept modifier) groups
      → All (IsRetained time_us false modifier) (
          map
            (λ (labels, values). record {
              metric_name = [];
              labels = labels;
              ts_us = time_us;
              value = apply_agg op values;
            })
            groups)
  groups_at-All op time_us [] a = tt
  groups_at-All op time_us ((labels, values) ∷ groups) a =
      ((refl, refl, a.0, λ e. absurd (ground arith)), groups_at-All op time_us groups a.1)

  aggregate_instant_points-IsRetained :
      (inner : List (InstantPoint F)) (op : AggOp) (time_us : ℤ)
      → All (IsRetained time_us false modifier) (aggregate_instant_points inner op modifier time_us)
  unfolding aggregate_instant_points
  aggregate_instant_points-IsRetained inner op time_us = groups_at-All op time_us _ (
      group_by-AllKeys (AreKept modifier)
        (λ (p : InstantPoint F). retained_labels p.labels modifier)
        (λ (p : InstantPoint F). p.value) (λ p. retained_labels-AreKept modifier p.labels) inner []
        tt)

  aggregate_group-All :
      (op : AggOp) (labels : Labels) (members : List (RangePoints F))
      → AreKept modifier labels
      → All (IsRetainedSeries modifier) (aggregate_group op labels members)
  unfolding aggregate_group
  aggregate_group-All op labels members k =
      let points : List (ℤ × F) =
        map (λ (ts, values). (ts, apply_agg op values)) (group_by (all_points members) []) in
      elim (Bool-cases (is_empty points)) [
        | inl e ↦ rw (e, aggregate_group) tt
        | inr e ↦ rw (e, aggregate_group) ((refl, k, e), tt)
      ]

  aggregate_groups-All :
      (op : AggOp) (groups : BTreeMap Labels (List (RangePoints F)))
      → AllKeys (AreKept modifier) groups
      → All (IsRetainedSeries modifier) (aggregate_groups op groups)
  unfolding aggregate_groups
  aggregate_groups-All op [] a = tt
  aggregate_groups-All op ((labels, members) ∷ groups) a =
      All-append (IsRetainedSeries modifier) (aggregate_group op labels members)
        (aggregate_groups op groups) (aggregate_group-All op labels members a.0)
        (aggregate_groups-All op groups a.1)

  aggregate_range_points-All :
      (inner : List (RangePoints F)) (op : AggOp)
      → All (IsRetainedSeries modifier) (aggregate_range_points inner op modifier)
  unfolding aggregate_range_points
  aggregate_range_points-All inner op = aggregate_groups-All op _ (
      group_by-AllKeys (AreKept modifier) (λ (p : RangePoints F). retained_labels p.labels modifier)
        (λ (p : RangePoints F). p) (λ p. retained_labels-AreKept modifier p.labels) inner [] tt)

module _ {A F : Type 0} ⦃f : Float F⦄ (t : Tokens) (b : Backend A F) (Good : A → Type 0) where
  and_then-All :
      (run : Run (List A)) (g : List A → List A) (out : List A)
      → ((pts : List A) → All Good (g pts))
      → and_then run g ≡ some (ok out)
      → All Good out
  and_then-All none g out h e = absurd (ground (arith, e))
  and_then-All (some (err x)) g out h e = absurd (ground (arith, e))
  and_then-All (some (ok pts)) g out h e =
      let same : g pts ≡ out = ok-inj (some-inj e) in rw (← same) (h pts)

  push_down-All :
      (run : Expr F → Run (List A)) (modifier : Option LabelModifier) (inner : Expr F)
      (on_selector : VectorSelector → Result PromError (List A))
      (on_range_fn : VectorSelector → ℤ → RangeFnOp → Result PromError (List A))
      (on_points : List A → List A) (out : List A)
      → ((sel : VectorSelector) (o : List A) → on_selector sel ≡ ok o → All Good o)
      → ((sel : VectorSelector) (range_us : ℤ) (fn_op : RangeFnOp) (o : List A)
          → on_range_fn sel range_us fn_op ≡ ok o
          → All Good o)
      → ((pts : List A) → All Good (on_points pts))
      → push_down t b run modifier inner on_selector on_range_fn on_points ≡ some (ok out)
      → All Good out
  unfolding push_down
  push_down-All run modifier inner on_selector on_range_fn on_points out hs hr hp h =
      elim (Bool-cases (aggregate_can_push_down modifier)) [
        | inr e ↦ and_then-All (run inner) on_points out hp (rw (e, push_down) at h)
        | inl e ↦
            let h₁ = rw (e, push_down) at h in
            elim (Option-cases (pure_selector inner)) [
              | inr (sel, p) ↦ hs sel out (some-inj (rw p at h₁))
              | inl p ↦
                  let h₂ = rw p at h₁ in
                  elim (Option-cases (range_fn_part (detect_query_kind t inner))) [
                    | inl q ↦ and_then-All (run inner) on_points out hp (rw q at h₂)
                    | inr ((sel, range_us, fn_op), q) ↦
                        hr sel range_us fn_op out (some-inj (rw q at h₂))
                  ]
            ]
      ]

  evaluate-All :
      (fuel : ℕ) (e : Expr F) (op : AggOp) (modifier : Option LabelModifier) (inner : Expr F)
      (out : List A)
      → detect_query_kind t e ≡ some (QueryKind.aggregate_kind op modifier inner)
      → ((sel : VectorSelector) (o : List A) → b.aggregate sel op modifier ≡ ok o → All Good o)
      → ((sel : VectorSelector) (range_us : ℤ) (fn_op : RangeFnOp) (o : List A)
          → b.aggregate_over_rangefn sel range_us fn_op op modifier ≡ ok o
          → All Good o)
      → ((pts : List A) → All Good (b.aggregate_points pts op modifier))
      → evaluate t b fuel e ≡ some (ok out)
      → All Good out
  unfolding evaluate eval_kind
  evaluate-All zero e op modifier inner out k hs hr hp h = absurd (ground (arith, h))
  evaluate-All (suc fuel) e op modifier inner out k hs hr hp h =
      push_down-All (evaluate t b fuel) modifier inner _ _ _ out hs hr hp (rw (k, evaluate) at h)

module _ {P F : Type 0} ⦃f : Float F⦄ (db : Database P F) (t : Tokens) where
  weaken :
      (only_finite : Bool) (modifier : Option LabelModifier) (time_us : ℤ)
      (out : List (InstantPoint F))
      → All (IsRetained time_us only_finite modifier) out
      → All (IsRetained time_us false modifier) out
  weaken only_finite modifier time_us out a =
      All-map (IsRetained time_us only_finite modifier) (IsRetained time_us false modifier) out
        (λ p (name, time, kept, finite). (name, time, kept, λ e. absurd (ground arith))) a

  -- For any expression that is an aggregation, whether it runs as SQL over a selector or a range
  -- function or over the points of its inner expression: every point of an answer has no metric name,
  -- stands at the time of the query, and has only labels that the aggregation keeps, those listed in
  -- `by (...)`, none that is listed in `without (...)`, and none at all if there is no modifier.
  pub evaluate_instant-IsRetained :
      (fuel : ℕ) (e : Expr F) (time_us : ℤ) (op : AggOp) (modifier : Option LabelModifier)
      (inner : Expr F) (out : List (InstantPoint F))
      → detect_query_kind t e ≡ some (QueryKind.aggregate_kind op modifier inner)
      → evaluate_instant db t fuel e time_us ≡ some (ok out)
      → All (IsRetained time_us false modifier) out
  unfolding evaluate_instant
  evaluate_instant-IsRetained fuel e time_us op modifier inner out k h =
      evaluate-All t (instant_backend db time_us) (IsRetained time_us false modifier) fuel e op
        modifier inner out k
        (λ sel o g. instant_aggregate_via_sql-All db sel op modifier time_us o g)
        (λ sel range_us fn_op o g. weaken true modifier time_us o (
          instant_aggregate_over_rangefn_via_sql-All db sel range_us fn_op op modifier time_us o g))
        (λ pts. aggregate_instant_points-IsRetained modifier pts op time_us) h

  -- For any expression that is an aggregation, whether it runs over a range as SQL over a selector or
  -- a range function or over the series of its inner expression: every series of an answer has no
  -- metric name, at least one point, and only labels that the aggregation keeps, those listed in
  -- `by (...)`, none that is listed in `without (...)`, and none at all if there is no modifier.
  pub evaluate_range-IsRetained :
      (fuel : ℕ) (e : Expr F) (start_us end_us step_us : ℤ) (op : AggOp)
      (modifier : Option LabelModifier) (inner : Expr F) (out : List (RangePoints F))
      → detect_query_kind t e ≡ some (QueryKind.aggregate_kind op modifier inner)
      → evaluate_range db t fuel e start_us end_us step_us ≡ some (ok out)
      → All (IsRetainedSeries modifier) out
  unfolding evaluate_range
  evaluate_range-IsRetained fuel e start_us end_us step_us op modifier inner out k h =
      evaluate-All t (range_backend db start_us end_us step_us) (IsRetainedSeries modifier) fuel e
        op modifier inner out k
        (λ sel o g. range_aggregate_via_sql-All db sel op modifier start_us end_us o g)
        (λ sel range_us fn_op o g.
          range_aggregate_over_rangefn_via_sql-All db sel range_us fn_op op modifier start_us end_us
            step_us o g)
        (λ pts. aggregate_range_points-All modifier pts op) h
