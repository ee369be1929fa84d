-- ===== src/Prom/Catalog.antt =====
-- The endpoints of src/prometheus.rs for the catalog: `labels`, `label_values` and `series`. The
-- decoding of a query string is a parameter.
pub mod Firsts
pub mod Once
use skaldberg.Base.{
  Bool, true, Option, none, some, List, [], ◌∷◌, ◌++◌, map, if◌then◌else◌, is_empty, Result, ok,
  err, ◌>>=◌,
}
use skaldberg.Order.{◌=?◌, list_ord, nat_ord}
use skaldberg.BTreeMap.{BTreeMap, contains_key, insert, from_iter, keys}
use skaldberg.Text.{Text, lit}
use skaldberg.Prom.Types.{Labels, Matcher, VectorSelector, Expr}
use skaldberg.Prom.Query.{extract_selector}
use skaldberg.Prom.Select.{sql_escape, effective_metric_name, label_filters_for_selector, join}
use skaldberg.Prom.Json.{series_metric_obj}
use skaldberg.Prom.Aggregate.{series_key}
use skaldberg.Prom.Engine.{
  PromError, bad_data, Cell, Entries, Column, Database, labels_to_btree, column, as_utf8, as_map,
  run, passes,
}

-- A `BTreeSet`: the keys of a map
abbrev pub Texts : Type 0
Texts = BTreeMap Text Bool

abbrev pub labels_sql : Text
labels_sql =
    lit
      "SELECT DISTINCT k FROM (SELECT unnest(map_keys(s.labels)) AS k FROM iceberg.skaldberg.series s) ORDER BY k"

unfoldable pub label_values_sql : Text → Text
unfolding sql_escape
label_values_sql name =
    if name =? lit "__name__"
    then lit "SELECT DISTINCT metric_name AS v FROM iceberg.skaldberg.series ORDER BY v"
    else (let escaped = sql_escape name in
        lit "SELECT DISTINCT element_at(labels, '"
        ++ (escaped
            ++ (lit "')[1] AS v FROM iceberg.skaldberg.series WHERE element_at(labels, '"
                ++ (escaped ++ lit "')[1] IS NOT NULL ORDER BY v"))))

-- The loop over the rows: what is not null
unfoldable pub not_null : List (Cell Text) → List Text
not_null [] = []
not_null (c ∷ cells) = let rest = not_null cells in if c.is_null then rest else c.value ∷ rest

module _ {F : Type 0} where
  unfoldable pub text_batches : List (List (Column F)) → Result PromError (List Text)
  unfolding not_null column as_utf8
  text_batches [] = ok []
  text_batches (batch ∷ batches) = (column 0 batch >>= as_utf8) >>= λ cells.
      text_batches batches >>= λ more. ok (not_null cells ++ more)

module _ {P F : Type 0} (db : Database P F) where
  unfoldable pub labels : Result PromError (List Text)
  unfolding run text_batches
  labels = run db labels_sql >>= λ batches. text_batches batches >>= λ ks.
      ok (keys (from_iter (map (λ k. (k, true)) ks) (insert (lit "__name__") true [])))

  unfoldable pub label_values : Text → Result PromError (List Text)
  unfolding run text_batches label_values_sql
  label_values name = run db (label_values_sql name) >>= text_batches

-- `seen` and `out`
pub record Found : Type 0 where
  pub seen : Texts
  pub out : List (BTreeMap Text Text)

unfoldable pub add_series : Text → Labels → Found → Found
unfolding series_key series_metric_obj
add_series m lbls found =
    let key = series_key m lbls in
    if contains_key key found.seen then found else record {
      seen = insert key true found.seen;
      out = found.out ++ (series_metric_obj m lbls ∷ []);
    }

unfoldable pub series_sql : VectorSelector → Text
unfolding effective_metric_name sql_escape
series_sql sel =
    lit "SELECT s.metric_name, s.labels FROM iceberg.skaldberg.series s"
    ++ (elim (effective_metric_name sel) [
      | none ↦ []
      | some name ↦ lit " WHERE s.metric_name = '" ++ (sql_escape name ++ lit "'")
    ])

-- The loops over rows and batches
unfoldable pub series_rows :
    List Matcher → List (Cell Text) → List (Cell Entries) → Found → Result PromError Found
unfolding labels_to_btree add_series
series_rows label_filters (m ∷ metrics) (l ∷ labels) found = labels_to_btree l >>= λ lbls.
    series_rows label_filters metrics labels
      (if passes label_filters lbls then add_series m.value lbls found else found)
series_rows label_filters _ _ found = ok found

module _ {F : Type 0} where
  unfoldable pub series_batches :
      List Matcher → List (List (Column F)) → Found → Result PromError Found
  unfolding series_rows column as_utf8 as_map
  series_batches label_filters [] found = ok found
  series_batches label_filters (batch ∷ batches) found = (column 0 batch >>= as_utf8) >>= λ metrics.
      (column 1 batch >>= as_map) >>= λ labels.
      series_rows label_filters metrics labels found >>= λ found'.
      series_batches label_filters batches found'

-- `parse(&q).ok()` and `form_urlencoded::parse`
pub record CatalogParsers (F : Type 0) : Type 0 where
  pub parse : Text → Option (Expr F)
  pub form_urlencoded : Text → List (Text × Text)

-- `v` of each `match[]=v`
abbrev pub matches_of : List (Text × Text) → List Text
matches_of [] = []
matches_of ((k, v) ∷ pairs) =
    let rest = matches_of pairs in if k =? lit "match[]" then v ∷ rest else rest

module _ {P F : Type 0} (ps : CatalogParsers F) (db : Database P F) where
  unfoldable pub parse_series_matches : Text → List Text
  parse_series_matches raw = matches_of (ps.form_urlencoded raw)

  -- What is done for one expression: nothing if it has no selector
  unfoldable pub series_of : Expr F → Found → Result PromError Found
  unfolding extract_selector series_sql run series_batches label_filters_for_selector
  series_of expr found = elim (extract_selector expr) [
    | none ↦ ok found
    | some sel ↦ run db (series_sql sel) >>= λ batches.
        series_batches (label_filters_for_selector sel) batches found
  ]

  unfoldable pub series_all : List Text → Found → Result PromError Found
  unfolding series_of
  series_all [] found = ok found
  series_all (q ∷ matches) found = elim (ps.parse q) [
    | none ↦ err bad_data
    | some expr ↦ series_of expr found >>= series_all matches
  ]

  unfoldable pub series : Option Text → Result PromError (List (BTreeMap Text Text))
  unfolding series_all parse_series_matches
  series qs =
      let raw : Text = elim qs [ none ↦ [] | some s ↦ s ] in
      series_all (parse_series_matches raw) (record { seen = []; out = [] }) >>= λ found.
      ok found.out
