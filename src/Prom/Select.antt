-- ===== src/Prom/Select.antt =====
-- Label matching and the text that src/prometheus.rs puts into SQL. A `format!` is concatenation.
pub mod Escape
pub mod Pushdown
use skaldberg.Base.{
  ℕ, Bool, true, false, not, ◌&&◌, Option, none, some, List, [], ◌∷◌, ◌++◌, ◌==◌, if◌then◌else◌,
  keep_if, map,
}
use skaldberg.Order.{◌=?◌, list_ord, nat_ord}
use skaldberg.BTreeMap.{get_or, get}
use skaldberg.Text.{Text, lit}
use skaldberg.Prom.Types.{Labels, MatchOp, Matcher, VectorSelector, LabelModifier, AggOp, BinOp}
use skaldberg.Prom.Ops.{is_comparison}

-- `s.replace('\'', "''")`
unfoldable pub sql_escape : Text → Text
sql_escape [] = []
sql_escape (c ∷ s) = if c == b'\'' then b'\'' ∷ (b'\'' ∷ sql_escape s) else c ∷ sql_escape s

abbrev pub is_name : Matcher → Bool
is_name m = m.name =? lit "__name__"

-- `matches!(m.op, MatchOp::Equal)`, and whether the match is left to Rust
abbrev pub is_equal : MatchOp → Bool
is_equal MatchOp.equal = true
is_equal MatchOp.not_equal = false
is_equal (MatchOp.re p) = false
is_equal (MatchOp.not_re p) = false

abbrev pub is_regex : MatchOp → Bool
is_regex MatchOp.equal = false
is_regex MatchOp.not_equal = false
is_regex (MatchOp.re p) = true
is_regex (MatchOp.not_re p) = true

abbrev pub find_name : List Matcher → Option Text
find_name [] = none
find_name (m ∷ ms) =
    let rest = find_name ms in if is_name m && is_equal m.op then some m.value else rest

unfoldable pub effective_metric_name : VectorSelector → Option Text
effective_metric_name sel = elim sel.name [ some n ↦ some n | none ↦ find_name sel.matchers ]

unfoldable pub predicate_of : Matcher → List Text
predicate_of m =
    let key = sql_escape m.name in
    let val = sql_escape m.value in
    if is_name m then [] else elim m.op [
      | MatchOp.equal ↦
          (lit "element_at(s.labels, '" ++ (key ++ (lit "')[1] = '" ++ (val ++ lit "'")))) ∷ []
      | MatchOp.not_equal ↦
          (lit "COALESCE(element_at(s.labels, '"
            ++ (key ++ (lit "')[1], '') != '" ++ (val ++ lit "'"))))
          ∷ []
      | MatchOp.re p ↦ []
      | MatchOp.not_re p ↦ []
    ]

unfoldable pub predicates_of : List Matcher → List Text
predicates_of [] = []
predicates_of (m ∷ ms) = predicate_of m ++ predicates_of ms

unfoldable pub selector_predicates : VectorSelector → List Text
selector_predicates sel = elim (effective_metric_name sel) [
  | none ↦ predicates_of sel.matchers
  | some name ↦
      (lit "s.metric_name = '" ++ (sql_escape name ++ lit "'")) ∷ predicates_of sel.matchers
]

unfoldable pub label_filters_for_selector : VectorSelector → List Matcher
label_filters_for_selector sel =
    keep_if (λ m. is_regex m.op) (keep_if (λ m. not (is_name m)) sel.matchers)

unfoldable pub match_label : Labels → Matcher → Bool
match_label labels m =
    let v = get_or [] m.name labels in
    elim m.op [
      | MatchOp.equal ↦ v =? m.value
      | MatchOp.not_equal ↦ not (v =? m.value)
      | MatchOp.re p ↦ p v
      | MatchOp.not_re p ↦ not (p v)
    ]

-- `join`
abbrev pub join : Text → List Text → Text
join sep [] = []
join sep (s ∷ []) = s
join sep (s ∷ t ∷ ss) = s ++ (sep ++ join sep (t ∷ ss))

unfoldable pub quoted_keys_list : List Text → Text
quoted_keys_list keys = join (lit ", ") (map (λ k. lit "'" ++ (sql_escape k ++ lit "'")) keys)

unfoldable pub modifier_excluded_keys : Option LabelModifier → Option (List Text)
modifier_excluded_keys none = none
modifier_excluded_keys (some (LabelModifier.include ls)) = none
modifier_excluded_keys (some (LabelModifier.exclude ls)) = some ls

unfoldable pub aggregate_group_keys : Option LabelModifier → List Text
aggregate_group_keys none = []
aggregate_group_keys (some (LabelModifier.include ls)) = ls
aggregate_group_keys (some (LabelModifier.exclude ls)) = []

unfoldable pub aggregate_can_push_down : Option LabelModifier → Bool
aggregate_can_push_down none = true
aggregate_can_push_down (some (LabelModifier.include ls)) = true
aggregate_can_push_down (some (LabelModifier.exclude ls)) = true

unfoldable pub agg_call_sql : AggOp → Text → Text
agg_call_sql AggOp.sum value_expr = lit "SUM(" ++ (value_expr ++ lit ")")
agg_call_sql AggOp.avg value_expr = lit "AVG(" ++ (value_expr ++ lit ")")
agg_call_sql AggOp.min value_expr = lit "MIN(" ++ (value_expr ++ lit ")")
agg_call_sql AggOp.max value_expr = lit "MAX(" ++ (value_expr ++ lit ")")
agg_call_sql AggOp.count value_expr = lit "CAST(COUNT(*) AS DOUBLE)"

unfoldable pub cmp_op_sql : BinOp → Text
cmp_op_sql BinOp.add = lit "="
cmp_op_sql BinOp.sub = lit "="
cmp_op_sql BinOp.mul = lit "="
cmp_op_sql BinOp.div = lit "="
cmp_op_sql BinOp.mod_ = lit "="
cmp_op_sql BinOp.pow = lit "="
cmp_op_sql BinOp.eq = lit "="
cmp_op_sql BinOp.ne = lit "<>"
cmp_op_sql BinOp.lt = lit "<"
cmp_op_sql BinOp.le = lit "<="
cmp_op_sql BinOp.gt = lit ">"
cmp_op_sql BinOp.ge = lit ">="

infix_sql : Text → Text → Text → Text
infix_sql lhs op rhs = lit "(" ++ (lhs ++ (lit ") " ++ (op ++ (lit " (" ++ (rhs ++ lit ")")))))

arithmetic_sql : BinOp → Text → Text → Text
arithmetic_sql BinOp.add lhs rhs = infix_sql lhs (lit "+") rhs
arithmetic_sql BinOp.sub lhs rhs = infix_sql lhs (lit "-") rhs
arithmetic_sql BinOp.mul lhs rhs = infix_sql lhs (lit "*") rhs
arithmetic_sql BinOp.div lhs rhs = infix_sql lhs (lit "/") rhs
arithmetic_sql BinOp.mod_ lhs rhs = infix_sql lhs (lit "%") rhs
arithmetic_sql BinOp.pow lhs rhs = lit "power((" ++ (lhs ++ (lit "), (" ++ (rhs ++ lit "))")))
arithmetic_sql op lhs rhs = lit "CAST(0.0 AS DOUBLE)"

unfoldable pub binop_value_sql : BinOp → Text → Text → Bool → Text
unfolding arithmetic_sql infix_sql
binop_value_sql op lhs rhs return_bool =
    if is_comparison op && return_bool
    then lit "CAST(CASE WHEN "
      ++ (lhs
          ++ (lit " "
              ++ (cmp_op_sql op ++ (lit " " ++ (rhs ++ lit " THEN 1.0 ELSE 0.0 END AS DOUBLE)")))))
    else arithmetic_sql op lhs rhs
