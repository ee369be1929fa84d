-- ===== src/Prom/Ops.antt =====
-- The operators of src/prometheus.rs.
use skaldberg.Base.{Bool, true, false, not, List, [], ◌∷◌, length, is_empty, if◌then◌else◌}
use skaldberg.Float.{Float}
use skaldberg.Prom.Types.{BinOp, AggOp}

unfoldable pub is_comparison : BinOp → Bool
is_comparison BinOp.add = false
is_comparison BinOp.sub = false
is_comparison BinOp.mul = false
is_comparison BinOp.div = false
is_comparison BinOp.mod_ = false
is_comparison BinOp.pow = false
is_comparison BinOp.eq = true
is_comparison BinOp.ne = true
is_comparison BinOp.lt = true
is_comparison BinOp.le = true
is_comparison BinOp.gt = true
is_comparison BinOp.ge = true

module _ {F : Type 0} ⦃f : Float F⦄ where
  -- `f64::from(u8::from(b))`
  abbrev pub of_bool : Bool → F
  of_bool true = f.one
  of_bool false = f.zero

  unfoldable pub apply_bin_value : F → F → BinOp → F
  apply_bin_value a b BinOp.add = f.add a b
  apply_bin_value a b BinOp.sub = f.sub a b
  apply_bin_value a b BinOp.mul = f.mul a b
  apply_bin_value a b BinOp.div = f.div a b
  apply_bin_value a b BinOp.mod_ = f.rem a b
  apply_bin_value a b BinOp.pow = f.powf a b
  apply_bin_value a b BinOp.eq = of_bool (f.feq a b)
  apply_bin_value a b BinOp.ne = of_bool (not (f.feq a b))
  apply_bin_value a b BinOp.lt = of_bool (f.flt a b)
  apply_bin_value a b BinOp.le = of_bool (f.fle a b)
  apply_bin_value a b BinOp.gt = of_bool (f.flt b a)
  apply_bin_value a b BinOp.ge = of_bool (f.fle b a)

  unfoldable pub comparison_passes : F → F → BinOp → Bool
  comparison_passes a b BinOp.add = true
  comparison_passes a b BinOp.sub = true
  comparison_passes a b BinOp.mul = true
  comparison_passes a b BinOp.div = true
  comparison_passes a b BinOp.mod_ = true
  comparison_passes a b BinOp.pow = true
  comparison_passes a b BinOp.eq = f.feq a b
  comparison_passes a b BinOp.ne = not (f.feq a b)
  comparison_passes a b BinOp.lt = f.flt a b
  comparison_passes a b BinOp.le = f.fle a b
  comparison_passes a b BinOp.gt = f.flt b a
  comparison_passes a b BinOp.ge = f.fle b a

  fold_by : (F → F → F) → F → List F → F
  fold_by g acc [] = acc
  fold_by g acc (x ∷ xs) = fold_by g (g acc x) xs

  unfoldable pub apply_agg : AggOp → List F → F
  unfolding fold_by
  apply_agg AggOp.sum values = f.sum values
  apply_agg AggOp.avg values =
      if is_empty values then f.zero else f.div (f.sum values) (f.of_count (length values))
  apply_agg AggOp.min values = fold_by f.fmin f.infinity values
  apply_agg AggOp.max values = fold_by f.fmax f.neg_infinity values
  apply_agg AggOp.count values = f.of_count (length values)

  -- `partial_cmp(..).unwrap_or(Equal)` of a stable sort: whether `a` must come behind `b`
  unfoldable pub after : Bool → F → F → Bool
  after top a b = if top then f.flt a b else f.flt b a
