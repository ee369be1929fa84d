-- ===== src/Prom/Aggregate/Instant.antt =====
-- What an aggregation of src/prometheus.rs computes for each group.
use skaldberg.Base.{◌≡◌, refl, ap, Option, List, [], ◌∷◌, map, All}
use skaldberg.Base.Int.{ℤ}
use skaldberg.Order.{list_ord, nat_ord, pair_ord}
use skaldberg.Float.{Float}
use skaldberg.BTreeMap.{BTreeMap}
use skaldberg.Prom.Types.{Labels, InstantPoint, LabelModifier, AggOp}
use skaldberg.Prom.Ops.{apply_agg}
use skaldberg.Prom.Aggregate.{retained_labels, aggregate_instant_points}
use skaldberg.Prom.Aggregate.Groups.{values_at, group_by-All}

module _ {F : Type 0} ⦃f : Float F⦄ where
  -- The points with the labels that they are grouped by
  abbrev pub keyed : Option LabelModifier → List (InstantPoint F) → List (Labels × F)
  keyed modifier inner = map (λ p. (retained_labels p.labels modifier, p.value)) inner

  -- The point of the result is the aggregate over exactly its group, at the query's time.
  abbrev pub IsAggregate :
      AggOp → Option LabelModifier → ℤ → List (InstantPoint F) → InstantPoint F → Type 0
  IsAggregate op modifier time_us inner p =
      (p.value ≡ apply_agg op (values_at p.labels (keyed modifier inner)))
      × (p.ts_us ≡ time_us)
      × (p.metric_name ≡ [])

  points-IsAggregate :
      (inner : List (InstantPoint F)) (op : AggOp) (modifier : Option LabelModifier) (time_us : ℤ)
      (groups : BTreeMap Labels (List F))
      → All (λ (k, vs). vs ≡ values_at k (keyed modifier inner)) groups
      → All (IsAggregate op modifier time_us inner) (
          map
            (λ (labels, values). record {
              metric_name = [];
              labels = labels;
              ts_us = time_us;
              value = apply_agg op values;
            })
            groups)
  points-IsAggregate inner op modifier time_us [] a = tt
  points-IsAggregate inner op modifier time_us ((k, vs) ∷ groups) a =
      ((ap (apply_agg op) a.0, refl, refl), points-IsAggregate inner op modifier time_us groups a.1)

  -- Every point that an aggregation of an instant vector returns is the aggregate of the values of
  -- all input points whose retained labels are its labels, in their order, and of no others; it is at
  -- the query's time and has no name.
  pub aggregate_instant_points-All :
      (inner : List (InstantPoint F)) (op : AggOp) (modifier : Option LabelModifier) (time_us : ℤ)
      → All
          (IsAggregate op modifier time_us inner)
          (aggregate_instant_points inner op modifier time_us)
  unfolding aggregate_instant_points
  aggregate_instant_points-All inner op modifier time_us =
      points-IsAggregate inner op modifier time_us _ (group_by-All (keyed modifier inner))
