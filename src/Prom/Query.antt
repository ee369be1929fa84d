-- ===== src/Prom/Query.antt =====
-- How src/prometheus.rs picks a plan for an expression. The token numbers of the crate promql-parser
-- are a parameter.
use skaldberg.Base.{
  ℕ, Bool, false, ◌&&◌, ◌||◌, Option, none, some, List, [], ◌∷◌, ◌==◌, leb, ◌+◌, if◌then◌else◌, map,
  ◌≡◌, Option-cases, inl, inr,
}
use skaldberg.Base.Int.{pos, wrap_i64}
use skaldberg.Order.{◌=?◌, list_ord, nat_ord}
use skaldberg.Text.{Text, lit}
use skaldberg.Float.{Float}
use skaldberg.Prom.Types.{
  BinOp, AggOp, RangeFnOp, LabelModifier, VectorSelector, Expr, Exprs, Param, QueryKind,
}

pub record Tokens : Type 0 where
  pub t_topk : ℕ
  pub t_bottomk : ℕ
  pub t_sum : ℕ
  pub t_avg : ℕ
  pub t_min : ℕ
  pub t_max : ℕ
  pub t_count : ℕ
  pub t_add : ℕ
  pub t_sub : ℕ
  pub t_mul : ℕ
  pub t_div : ℕ
  pub t_mod : ℕ
  pub t_pow : ℕ
  pub t_eqlc : ℕ
  pub t_neq : ℕ
  pub t_lss : ℕ
  pub t_lte : ℕ
  pub t_gtr : ℕ
  pub t_gte : ℕ

-- `to_ascii_lowercase`
abbrev pub lower : ℕ → ℕ
lower c = if leb b'A' c && leb c b'Z' then c + 32 else c

abbrev pub to_ascii_lowercase : Text → Text
to_ascii_lowercase s = map lower s

abbrev pub eq_ignore_ascii_case : Text → Text → Bool
eq_ignore_ascii_case a b = to_ascii_lowercase a =? to_ascii_lowercase b

-- The first arm whose test holds.
abbrev pub pick {ℓ} : {A : Type ℓ} → List (Bool × A) → Option A
pick [] = none
pick ((b, a) ∷ arms) = let rest = pick arms in if b then some a else rest

unfoldable pub parse_range_fn_op : Text → Option RangeFnOp
parse_range_fn_op name =
    let n = to_ascii_lowercase name in
    pick (
      (n =? lit "rate", RangeFnOp.rate)
      ∷ (n =? lit "irate", RangeFnOp.irate)
      ∷ (n =? lit "increase", RangeFnOp.increase)
      ∷ (n =? lit "delta", RangeFnOp.delta)
      ∷ [])

unfoldable pub parse_bin_op : Tokens → ℕ → Option BinOp
parse_bin_op t id = pick (
    (id == t.t_add, BinOp.add)
    ∷ (id == t.t_sub, BinOp.sub)
    ∷ (id == t.t_mul, BinOp.mul)
    ∷ (id == t.t_div, BinOp.div)
    ∷ (id == t.t_mod, BinOp.mod_)
    ∷ (id == t.t_pow, BinOp.pow)
    ∷ (id == t.t_eqlc, BinOp.eq)
    ∷ (id == t.t_neq, BinOp.ne)
    ∷ (id == t.t_lss, BinOp.lt)
    ∷ (id == t.t_lte, BinOp.le)
    ∷ (id == t.t_gtr, BinOp.gt)
    ∷ (id == t.t_gte, BinOp.ge)
    ∷ [])

unfoldable pub parse_agg_op : Tokens → ℕ → Option AggOp
parse_agg_op t id = pick (
    (id == t.t_sum, AggOp.sum)
    ∷ (id == t.t_avg, AggOp.avg)
    ∷ (id == t.t_min, AggOp.min)
    ∷ (id == t.t_max, AggOp.max)
    ∷ (id == t.t_count, AggOp.count)
    ∷ [])

abbrev pub or_else {ℓ} : {A : Type ℓ} → Option A → Option A → Option A
or_else none y = y
or_else (some x) y = some x

module _ {F : Type 0} where
  unfoldable mutual
    pub extract_selector : Expr F → Option VectorSelector
    extract_selector (Expr.vector_selector v) = some v
    extract_selector (Expr.matrix_selector v range) = some v
    extract_selector (Expr.number_literal x) = none
    extract_selector (Expr.call name args) = find_selector args
    extract_selector (Expr.aggregate id param modifier e) = extract_selector e
    extract_selector (Expr.binary id lhs rhs m) =
        or_else (extract_selector lhs) (extract_selector rhs)
    extract_selector (Expr.paren e) = extract_selector e
    extract_selector (Expr.unary e) = extract_selector e
    extract_selector (Expr.subquery e) = extract_selector e
    extract_selector Expr.other = none

    pub find_selector : Exprs F → Option VectorSelector
    find_selector Exprs.nil = none
    find_selector (Exprs.cons e es) = or_else (extract_selector e) (find_selector es)

  unfoldable pub pure_selector : Expr F → Option VectorSelector
  pure_selector (Expr.vector_selector v) = some v
  pure_selector (Expr.paren e) = pure_selector e
  pure_selector e = none

  abbrev pub literal : Expr F → Option F
  literal (Expr.number_literal x) = some x
  literal e = none

  abbrev pub param_literal : Param F → Option F
  param_literal Param.absent = none
  param_literal (Param.given e) = literal e

  -- The arguments when there are exactly two, the first a literal
  abbrev pub quantile_args : Exprs F → Option (F × Expr F)
  quantile_args Exprs.nil = none
  quantile_args (Exprs.cons e Exprs.nil) = none
  quantile_args (Exprs.cons e (Exprs.cons e' Exprs.nil)) = elim (literal e) [
    | none ↦ none
    | some q ↦ some (q, e')
  ]
  quantile_args (Exprs.cons e (Exprs.cons e' (Exprs.cons e'' es))) = none

  -- The first argument when it is a matrix selector
  abbrev pub matrix_arg : Exprs F → Option (VectorSelector × ℕ)
  matrix_arg Exprs.nil = none
  matrix_arg (Exprs.cons (Expr.matrix_selector v range) es) = some (v, range)
  matrix_arg (Exprs.cons e es) = none

module _ {F : Type 0} ⦃f : Float F⦄ (t : Tokens) where
  abbrev pub topk_count : F → ℕ
  topk_count x = if f.is_finite x && f.flt f.zero x then f.as_usize x else 0

  unfoldable pub detect_topk : ℕ → Param F → Option LabelModifier → Expr F → Option (QueryKind F)
  detect_topk id param modifier e =
      if (id == t.t_topk) || (id == t.t_bottomk)
      then elim (param_literal param) [
        | none ↦ none
        | some x ↦ some (QueryKind.top_k (topk_count x) (id == t.t_topk) modifier e)
      ]
      else none

  unfoldable pub detect_aggregate :
      ℕ → Param F → Option LabelModifier → Expr F → Option (QueryKind F)
  detect_aggregate id param modifier e =
      or_else (detect_topk id param modifier e) (elim (parse_agg_op t id) [
        | none ↦ none
        | some op ↦ some (QueryKind.aggregate_kind op modifier e)
      ])

  unfoldable pub detect_call : Text → Exprs F → Option (QueryKind F)
  detect_call name args =
      let quantile : Option (QueryKind F) = elim (quantile_args args) [
        | none ↦ none
        | some (q, e) ↦ some (QueryKind.histogram_quantile q e)
      ] in
      let range : Option (QueryKind F) = elim (parse_range_fn_op name) [
        | none ↦ none
        | some op ↦ elim (matrix_arg args) [
          | none ↦ none
          | some (v, range_us) ↦ some (QueryKind.range_fn v (wrap_i64 (pos range_us)) op)
        ]
      ] in
      or_else (if eq_ignore_ascii_case name (lit "histogram_quantile") then quantile else none)
        range

  -- The recognizers, before the fall-back to the first selector
  unfoldable pub recognize : Expr F → Option (QueryKind F)
  recognize (Expr.aggregate id param modifier e) = detect_aggregate id param modifier e
  recognize (Expr.binary id lhs rhs m) = elim (parse_bin_op t id) [
    | none ↦ none
    | some op ↦ some (QueryKind.binary_kind op lhs rhs (elim m [ none ↦ false | some b ↦ b ]))
  ]
  recognize (Expr.call name args) = detect_call name args
  recognize e = none

  unfoldable pub detect_query_kind : Expr F → Option (QueryKind F)
  detect_query_kind e =
      or_else (recognize e)
        (elim (extract_selector e) [ none ↦ none | some v ↦ some (QueryKind.selector v) ])

  -- An expression that has a selector anywhere the walk looks gets a plan: the caller's fall-back
  -- never refuses what `extract_selector` would still draw.
  pub detect_query_kind-total :
      (e : Expr F) (v : VectorSelector)
      → extract_selector e ≡ some v
      → (k : QueryKind F) × (detect_query_kind e ≡ some k)
  unfolding detect_query_kind
  detect_query_kind-total e v h = elim (Option-cases (recognize e)) [
    | inl n ↦ (QueryKind.selector v, rw (n, h, detect_query_kind))
    | inr (k, n) ↦ (k, rw (n, detect_query_kind))
  ]
