-- ===== src/Prom/Binary.antt =====
-- The binary operators over evaluated points (src/prometheus.rs).
pub mod Matching
use skaldberg.Base.{
  ℕ, Bool, true, false, not, ◌&&◌, Option, none, some, List, [], ◌∷◌, ◌++◌, if◌then◌else◌, is_empty,
}
use skaldberg.Base.Int.{ℤ, int_laws}
use skaldberg.Order.{list_ord, nat_ord, pair_ord, int_ord}
use skaldberg.BTreeMap.{BTreeMap, insert, get, from_iter}
use skaldberg.Text.{Text}
use skaldberg.Float.{Float}
use skaldberg.Prom.Types.{Labels, InstantPoint, RangePoints, BinOp, Expr, VectorSelector}
use skaldberg.Prom.Ops.{is_comparison, comparison_passes, apply_bin_value}
use skaldberg.Prom.Query.{pure_selector, or_else, literal}

-- A comparison without `bool` filters.
abbrev pub filters : BinOp → Bool → Bool
filters op return_bool = is_comparison op && not return_bool

-- `filter_map`
abbrev pub filter_map : {A B : Type 0} → (A → Option B) → List A → List B
filter_map g [] = []
filter_map g (x ∷ xs) = elim (g x) [ none ↦ filter_map g xs | some y ↦ y ∷ filter_map g xs ]

module _ {F : Type 0} ⦃f : Float F⦄ where
  abbrev pub operands : F → F → Bool → F × F
  operands scalar v scalar_on_left = if scalar_on_left then (scalar, v) else (v, scalar)

  unfoldable pub scalar_point : F → BinOp → Bool → Bool → InstantPoint F → Option (InstantPoint F)
  scalar_point scalar op return_bool scalar_on_left p =
      let (a, b) = operands scalar p.value scalar_on_left in
      if filters op return_bool
      then (if comparison_passes a b op then some p else none)
      else some (record p { value = apply_bin_value a b op; metric_name = [] })

  unfoldable pub apply_scalar_vector_instant :
      F → List (InstantPoint F) → BinOp → Bool → Bool → List (InstantPoint F)
  apply_scalar_vector_instant scalar pts op return_bool scalar_on_left =
      filter_map (scalar_point scalar op return_bool scalar_on_left) pts

  unfoldable pub scalar_sample : F → BinOp → Bool → Bool → ℤ × F → Option (ℤ × F)
  scalar_sample scalar op return_bool scalar_on_left (ts, v) =
      let (a, b) = operands scalar v scalar_on_left in
      if filters op return_bool
      then (if comparison_passes a b op then some (ts, v) else none)
      else some (ts, apply_bin_value a b op)

  unfoldable pub apply_scalar_vector_range :
      F → List (RangePoints F) → BinOp → Bool → Bool → List (RangePoints F)
  apply_scalar_vector_range scalar [] op return_bool scalar_on_left = []
  apply_scalar_vector_range scalar (s ∷ series) op return_bool scalar_on_left =
      let points = filter_map (scalar_sample scalar op return_bool scalar_on_left) s.points in
      let rest = apply_scalar_vector_range scalar series op return_bool scalar_on_left in
      let name = if filters op return_bool then s.metric_name else [] in
      if is_empty points then rest else record s { points = points; metric_name = name } ∷ rest

  -- The index of the right side by its full label sets
  unfoldable pub index_points :
      List (InstantPoint F) → BTreeMap Labels (InstantPoint F) → BTreeMap Labels (InstantPoint F)
  index_points [] index = index
  index_points (r ∷ rhs) index = index_points rhs (insert r.labels r index)

  unfoldable pub match_point :
      BinOp → Bool → InstantPoint F → InstantPoint F → Option (InstantPoint F)
  match_point op return_bool l r =
      if filters op return_bool
      then (if comparison_passes l.value r.value op then some l else none)
      else some (record l { metric_name = []; value = apply_bin_value l.value r.value op })

  unfoldable pub apply_vector_vector_instant :
      List (InstantPoint F) → List (InstantPoint F) → BinOp → Bool → List (InstantPoint F)
  apply_vector_vector_instant lhs rhs op return_bool =
      let rhs_index = index_points rhs [] in
      filter_map
        (λ l. elim (get l.labels rhs_index) [
          | none ↦ none
          | some r ↦ match_point op return_bool l r
        ])
        lhs

  unfoldable pub index_series :
      List (RangePoints F) → BTreeMap Labels (BTreeMap ℤ F) → BTreeMap Labels (BTreeMap ℤ F)
  index_series [] index = index
  index_series (r ∷ rhs) index = index_series rhs (insert r.labels (from_iter r.points []) index)

  unfoldable pub match_sample : BinOp → Bool → BTreeMap ℤ F → ℤ × F → Option (ℤ × F)
  match_sample op return_bool r_pts (ts, lv) = elim (get ts r_pts) [
    | none ↦ none
    | some rv ↦
        if filters op return_bool
        then (if comparison_passes lv rv op then some (ts, lv) else none)
        else some (ts, apply_bin_value lv rv op)
  ]

  unfoldable pub match_series :
      BinOp → Bool → BTreeMap Labels (BTreeMap ℤ F) → RangePoints F → Option (RangePoints F)
  match_series op return_bool rhs_index l = elim (get l.labels rhs_index) [
    | none ↦ none
    | some r_pts ↦
        let new_points = filter_map (match_sample op return_bool r_pts) l.points in
        if is_empty new_points
        then none
        else some (record l {
          metric_name = if filters op return_bool then l.metric_name else [];
          points = new_points;
        })
  ]

  unfoldable pub apply_vector_vector_range :
      List (RangePoints F) → List (RangePoints F) → BinOp → Bool → List (RangePoints F)
  apply_vector_vector_range lhs rhs op return_bool =
      filter_map (match_series op return_bool (index_series rhs [])) lhs

  -- A literal that is finite
  abbrev pub pick_scalar : Expr F → Option F
  pick_scalar e = elim (literal e) [ none ↦ none | some x ↦ if f.is_finite x then some x else none ]

  abbrev pub scalar_side : Expr F → Expr F → Bool → Option (F × VectorSelector × Bool)
  scalar_side scalar vector scalar_on_left = elim (pick_scalar scalar) [
    | none ↦ none
    | some x ↦ elim (pure_selector vector) [
      | none ↦ none
      | some sel ↦ some (x, sel, scalar_on_left)
    ]
  ]

  unfoldable pub scalar_vector_pair : Expr F → Expr F → Option (F × VectorSelector × Bool)
  scalar_vector_pair lhs rhs = or_else (scalar_side lhs rhs true) (scalar_side rhs lhs false)
