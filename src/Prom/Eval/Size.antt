-- ===== src/Prom/Eval/Size.antt =====
-- The plan that src/prometheus.rs picks for an expression evaluates proper parts of it.
use skaldberg.Base.{
  ℕ, suc, ◌+◌, ◌<◌, Bool, true, false, inl, inr, Option, none, some, Option-cases, arith,
  if◌then◌else◌,
}
use skaldberg.Text.{Text, lit}
use skaldberg.Float.{Float}
use skaldberg.Prom.Types.{Expr, Exprs, Param, QueryKind, LabelModifier, BinOp}
use skaldberg.Prom.Query.{
  Tokens, detect_query_kind, recognize, detect_call, detect_aggregate, detect_topk, or_else,
  quantile_args, parse_agg_op, parse_bin_op, extract_selector, literal, eq_ignore_ascii_case,
  parse_range_fn_op, matrix_arg,
}

module _ {F : Type 0} where
  -- The number of nodes of an expression
  unfoldable mutual
    pub size : Expr F → ℕ
    size (Expr.vector_selector v) = 1
    size (Expr.matrix_selector v range) = 1
    size (Expr.number_literal x) = 1
    size (Expr.call name args) = suc (size_args args)
    size (Expr.aggregate id param modifier e) = suc (size_param param + size e)
    size (Expr.binary id lhs rhs m) = suc (size lhs + size rhs)
    size (Expr.paren e) = suc (size e)
    size (Expr.unary e) = suc (size e)
    size (Expr.subquery e) = suc (size e)
    size Expr.other = 1

    pub size_args : Exprs F → ℕ
    size_args Exprs.nil = 0
    size_args (Exprs.cons e es) = size e + size_args es

    pub size_param : Param F → ℕ
    size_param Param.absent = 0
    size_param (Param.given e) = size e

  -- The nodes of the expressions that a plan evaluates
  abbrev pub kind_size : QueryKind F → ℕ
  kind_size (QueryKind.selector sel) = 0
  kind_size (QueryKind.range_fn sel range_us op) = 0
  kind_size (QueryKind.aggregate_kind op modifier inner) = size inner
  kind_size (QueryKind.histogram_quantile q inner) = size inner
  kind_size (QueryKind.top_k n top modifier inner) = size inner
  kind_size (QueryKind.binary_kind op lhs rhs return_bool) = size lhs + size rhs

  abbrev pub Fits : ℕ → Option (QueryKind F) → Type 0
  Fits n none = Unit
  Fits n (some kind) = kind_size kind < n

  or_else-Fits : (n : ℕ) (x y : Option (QueryKind F)) → Fits n x → Fits n y → Fits n (or_else x y)
  or_else-Fits n none y p q = q
  or_else-Fits n (some kind) y p q = p

  if-Fits :
      (n : ℕ) (b : Bool) (x : Option (QueryKind F)) → Fits n x → Fits n (if b then x else none)
  if-Fits n true x p = p
  if-Fits n false x p = tt

  pub size_pos : (e : Expr F) → 0 < size e
  unfolding size
  size_pos (Expr.vector_selector v) = omega arith
  size_pos (Expr.matrix_selector v range) = omega arith
  size_pos (Expr.number_literal x) = omega arith
  size_pos (Expr.call name args) = omega arith
  size_pos (Expr.aggregate id param modifier e) = omega arith
  size_pos (Expr.binary id lhs rhs m) = omega arith
  size_pos (Expr.paren e) = omega arith
  size_pos (Expr.unary e) = omega arith
  size_pos (Expr.subquery e) = omega arith
  size_pos Expr.other = omega arith

  binary-Fits :
      (n : ℕ) (lhs rhs : Expr F) (return_bool : Bool) (op : Option BinOp)
      → size lhs + size rhs < n
      → Fits n
          (elim op [ none ↦ none | some o ↦ some (QueryKind.binary_kind o lhs rhs return_bool) ])
  binary-Fits n lhs rhs return_bool none h = tt
  binary-Fits n lhs rhs return_bool (some op) h = h

  quantile-Fits :
      (args : Exprs F)
      → Fits (suc (size_args args)) (elim (quantile_args args) [
        | none ↦ none
        | some (q, e) ↦ some (QueryKind.histogram_quantile q e)
      ])
  unfolding size
  quantile-Fits Exprs.nil = tt
  quantile-Fits (Exprs.cons e Exprs.nil) = tt
  quantile-Fits (Exprs.cons e (Exprs.cons e' Exprs.nil)) = elim (Option-cases (literal e)) [
    | inl h ↦ rw h tt
    | inr (x, h) ↦ rw h (omega arith)
  ]
  quantile-Fits (Exprs.cons e (Exprs.cons e' (Exprs.cons e'' es))) = tt

module _ {F : Type 0} ⦃f : Float F⦄ (t : Tokens) where
  detect_topk-Fits :
      (n id : ℕ) (param : Param F) (modifier : Option LabelModifier) (e : Expr F)
      → size e < n
      → Fits n (detect_topk t id param modifier e)
  unfolding detect_topk
  detect_topk-Fits n id param modifier e h = ground arith

  detect_aggregate-Fits :
      (n id : ℕ) (param : Param F) (modifier : Option LabelModifier) (e : Expr F)
      → size e < n
      → Fits n (detect_aggregate t id param modifier e)
  unfolding detect_aggregate
  detect_aggregate-Fits n id param modifier e h =
      or_else-Fits n _ _ (detect_topk-Fits n id param modifier e h)
        (elim (Option-cases (parse_agg_op t id)) [ inl p ↦ rw p tt | inr (op, p) ↦ rw p h ])

  detect_call-Fits :
      (name : Text) (args : Exprs F) → Fits (suc (size_args args)) (detect_call t name args)
  unfolding detect_call
  detect_call-Fits name args =
      or_else-Fits (suc (size_args args)) _ _
        (if-Fits (suc (size_args args)) (eq_ignore_ascii_case name (lit "histogram_quantile")) _
          (quantile-Fits args))
        (elim (Option-cases (parse_range_fn_op name)) [
          | inl p ↦ rw p tt
          | inr (op, p) ↦ elim (Option-cases (matrix_arg args)) [
            | inl m ↦ rw (p, m) tt
            | inr ((v, range_us), m) ↦ rw (p, m) (omega arith)
          ]
        ])

  recognize-Fits : (e : Expr F) → Fits (size e) (recognize t e)
  unfolding recognize size
  recognize-Fits (Expr.vector_selector v) = tt
  recognize-Fits (Expr.matrix_selector v range) = tt
  recognize-Fits (Expr.number_literal x) = tt
  recognize-Fits (Expr.call name args) = detect_call-Fits name args
  recognize-Fits (Expr.aggregate id param modifier e) =
      detect_aggregate-Fits (suc (size_param param + size e)) id param modifier e (omega arith)
  recognize-Fits (Expr.binary id lhs rhs m) =
      binary-Fits (suc (size lhs + size rhs)) lhs rhs (elim m [ none ↦ false | some b ↦ b ])
        (parse_bin_op t id) (omega arith)
  recognize-Fits (Expr.paren e) = tt
  recognize-Fits (Expr.unary e) = tt
  recognize-Fits (Expr.subquery e) = tt
  recognize-Fits Expr.other = tt

  -- A plan evaluates less than the expression that it is for.
  pub detect_query_kind-Fits : (e : Expr F) → Fits (size e) (detect_query_kind t e)
  unfolding detect_query_kind
  detect_query_kind-Fits e =
      or_else-Fits (size e) (recognize t e) _ (recognize-Fits e)
        (elim (Option-cases (extract_selector e)) [
          | inl p ↦ rw p tt
          | inr (v, p) ↦ rw p (size_pos e)
        ])
