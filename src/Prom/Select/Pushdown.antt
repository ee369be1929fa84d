-- ===== src/Prom/Select/Pushdown.antt =====
-- The matchers of a selector that go to SQL and those that stay in Rust (src/prometheus.rs). What a
-- row's SQL condition comes to is a parameter.
use skaldberg.Base.{
  ◌≡◌, Bool, true, false, not, ◌&&◌, none, some, List, [], ◌++◌, all, if◌then◌else◌, keep_if,
  is_empty,
}
use skaldberg.Order.{◌=?◌, list_ord, nat_ord}
use skaldberg.BTreeMap.{get}
use skaldberg.Text.{Text, lit}
use skaldberg.Prom.Types.{Labels, MatchOp, Matcher}
use skaldberg.Prom.Select.{sql_escape, is_name, is_regex, predicate_of, match_label}

-- The row has the label, with that value.
abbrev pub has_value : Labels → Text → Text → Bool
has_value labels k v = elim (get k labels) [ none ↦ false | some u ↦ u =? v ]

abbrev pub lacks_value : Labels → Text → Text → Bool
lacks_value labels k v = elim (get k labels) [ none ↦ not ([] =? v) | some u ↦ not (u =? v) ]

-- How DataFusion decides a condition for a row with these labels, `holds`: an element that is not
-- there is NULL, which equals nothing and which COALESCE replaces.
abbrev pub IsRead : (Text → Bool) → Labels → Text → Text → MatchOp → Type 0
IsRead holds labels k v MatchOp.equal =
    holds (
      lit "element_at(s.labels, '"
      ++ (sql_escape k ++ (lit "')[1] = '" ++ (sql_escape v ++ lit "'"))))
    ≡ has_value labels k v
IsRead holds labels k v MatchOp.not_equal =
    holds (
      lit "COALESCE(element_at(s.labels, '"
      ++ (sql_escape k ++ (lit "')[1], '') != '" ++ (sql_escape v ++ lit "'"))))
    ≡ lacks_value labels k v
IsRead holds labels k v (MatchOp.re p) = Unit
IsRead holds labels k v (MatchOp.not_re p) = Unit

-- An equality matcher asks for a value.
abbrev pub AsksForValue : Text → MatchOp → Type 0
AsksForValue v MatchOp.equal = is_empty v ≡ false
AsksForValue v MatchOp.not_equal = Unit
AsksForValue v (MatchOp.re p) = Unit
AsksForValue v (MatchOp.not_re p) = Unit

-- A matcher on the name is left to the metric's condition.
abbrev pub labelled : List Matcher → List Matcher
labelled ms = keep_if (λ m. not (is_name m)) ms

module _ (holds : Text → Bool) (labels : Labels) where
  -- What SQL and the filter in Rust together say of one matcher
  decides : Matcher → Bool
  decides m = all holds (predicate_of m) && (if is_regex m.op then match_label labels m else true)
