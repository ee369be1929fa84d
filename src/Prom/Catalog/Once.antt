-- ===== src/Prom/Catalog/Once.antt =====
-- `series` of src/prometheus.rs lists every series that its statements find once.
use skaldberg.Base.{
  ◌≡◌, refl, ap, sym, ◌∙◌, Bool, true, false, Bool-cases, inl, inr, Option, none, some,
  Option-cases, List, [], ◌∷◌, ◌++◌, map, Result, ok, err, ◌>>=◌, not, keep_if, keep_if-true,
  keep_if-false, if◌then◌else◌,
}
use mathlib.Core.List.{append_assoc, append-nil}
use skaldberg.Order.{list_ord, nat_ord}
use skaldberg.BTreeMap.{BTreeMap, get, insert, contains_key}
use skaldberg.BTreeMap.Laws.{HasDistinctKeys}
use skaldberg.Text.{Text}
use skaldberg.Prom.Types.{Labels, Matcher, Expr}
use skaldberg.Prom.Query.{extract_selector}
use skaldberg.Prom.Select.{label_filters_for_selector}
use skaldberg.Prom.Json.{series_metric_obj}
use skaldberg.Prom.Aggregate.{series_key}
use skaldberg.Prom.Engine.{
  PromError, bad_data, Cell, Entries, Column, Database, labels_to_btree, column, as_utf8, as_map,
  run, passes,
}
use skaldberg.Prom.Catalog.{
  Found, add_series, series_rows, series_batches, series_sql, CatalogParsers, series_of, series_all,
  series, parse_series_matches,
}
use skaldberg.Prom.Catalog.Firsts.{firsts, keyed, unseen, firsts-unseen, firsts-HasDistinctKeys}

abbrev pub Row : Type 0
Row = Text × Labels

abbrev pub key_of : Row → Text
key_of (m, lbls) = series_key m lbls

abbrev pub objects : List Row → List (BTreeMap Text Text)
objects rows = map (λ (m, lbls). series_metric_obj m lbls) rows

abbrev pub Rows : Type 0
Rows = Result PromError (List Row)

-- The rows of a batch whose labels pass the filters
abbrev pub rows_in : List Matcher → List (Cell Text) → List (Cell Entries) → Rows
rows_in label_filters (m ∷ metrics) (l ∷ labels) = labels_to_btree l >>= λ lbls.
    rows_in label_filters metrics labels >>= λ rest.
    ok ((if passes label_filters lbls then (m.value, lbls) ∷ [] else []) ++ rest)
rows_in label_filters _ _ = ok []

abbrev pub rows_of_batches : {F : Type 0} → List Matcher → List (List (Column F)) → Rows
rows_of_batches label_filters [] = ok []
rows_of_batches label_filters (batch ∷ batches) = (column 0 batch >>= as_utf8) >>= λ metrics.
    (column 1 batch >>= as_map) >>= λ labels. rows_in label_filters metrics labels >>= λ rows.
    rows_of_batches label_filters batches >>= λ more. ok (rows ++ more)

module _ {P F : Type 0} (ps : CatalogParsers F) (db : Database P F) where
  -- The rows that the statement for an expression finds and the filters pass
  abbrev pub rows_of : Expr F → Rows
  rows_of expr = elim (extract_selector expr) [
    | none ↦ ok []
    | some sel ↦ run db (series_sql sel) >>= λ batches.
        rows_of_batches (label_filters_for_selector sel) batches
  ]

  -- The rows of one expression after the other
  abbrev pub rows_of_all : List Text → Rows
  rows_of_all [] = ok []
  rows_of_all (q ∷ matches) = elim (ps.parse q) [
    | none ↦ err bad_data
    | some expr ↦ rows_of expr >>= λ rows. rows_of_all matches >>= λ more. ok (rows ++ more)
  ]

abbrev pub query_string : Option Text → Text
query_string qs = elim qs [ none ↦ [] | some s ↦ s ]

abbrev nothing : Found
nothing = record { seen = []; out = [] }

add_rows : List Row → Found → Found
add_rows [] found = found
add_rows ((m, lbls) ∷ rows) found = add_rows rows (add_series m lbls found)

add_rows-append :
    (rows more : List Row) (found : Found)
    → add_rows (rows ++ more) found ≡ add_rows more (add_rows rows found)
unfolding add_rows
add_rows-append [] more found = refl
add_rows-append ((m, lbls) ∷ rows) more found = add_rows-append rows more (add_series m lbls found)

add_series-seen :
    (m : Text) (lbls : Labels) (found : Found)
    → contains_key (series_key m lbls) found.seen ≡ true
    → add_series m lbls found ≡ found
unfolding add_series
add_series-seen m lbls found e = rw (e, add_series) refl

abbrev found_too : Text → Labels → Found → Found
found_too m lbls found = record {
  seen = insert (series_key m lbls) true found.seen;
  out = found.out ++ (series_metric_obj m lbls ∷ []);
}

add_series-unseen :
    (m : Text) (lbls : Labels) (found : Found)
    → contains_key (series_key m lbls) found.seen ≡ false
    → add_series m lbls found ≡ found_too m lbls found
unfolding add_series
add_series-unseen m lbls found e = rw (e, add_series) refl

-- Adding rows adds the objects of the first of each key, among those that were not seen.
add_rows-firsts :
    (rows : List Row) (found : Found)
    → (add_rows rows found).out
      ≡ found.out ++ objects (firsts key_of (keep_if (unseen key_of found.seen) rows))
unfolding add_rows
add_rows-firsts [] found = sym (append-nil found.out)
add_rows-firsts ((m, lbls) ∷ rows) found =
    let fresh = unseen key_of found.seen in
    elim (Bool-cases (contains_key (series_key m lbls) found.seen)) [
      | inl e ↦
          ap (λ (x : Found). (add_rows rows x).out) (add_series-seen m lbls found e)
          ∙ add_rows-firsts rows found
          ∙ ap (λ l. found.out ++ objects (firsts key_of l))
              (sym (keep_if-false fresh (m, lbls) rows (ap not e)))
      | inr e ↦
          ap (λ (x : Found). (add_rows rows x).out) (add_series-unseen m lbls found e)
          ∙ add_rows-firsts rows (found_too m lbls found)
          ∙ append_assoc found.out (series_metric_obj m lbls ∷ []) _
          ∙ ap (λ l. found.out ++ (series_metric_obj m lbls ∷ objects l))
              (firsts-unseen key_of (m, lbls) found.seen rows)
          ∙ ap (λ l. found.out ++ objects (firsts key_of l))
              (sym (keep_if-true fresh (m, lbls) rows (ap not e)))
    ]

keep_if-unseen : (rows : List Row) → keep_if (unseen key_of nothing.seen) rows ≡ rows
unfolding get
keep_if-unseen [] = refl
keep_if-unseen (row ∷ rows) = ap (◌∷◌ row) (keep_if-unseen rows)

from_nothing :
    (rows : List Row)
    → ◌≡◌ {A = Result PromError (List (BTreeMap Text Text))}
        (ok (add_rows rows nothing).out)
        (ok (objects (firsts key_of rows)))
from_nothing rows =
    ap ok (add_rows-firsts rows nothing ∙ ap (λ l. objects (firsts key_of l)) (keep_if-unseen rows))

module _ {A B : Type 0} where
  >>=-ext :
      (r : Result PromError A) (f g : A → Result PromError B)
      → ((a : A) → f a ≡ g a)
      → (r >>= f) ≡ (r >>= g)
  >>=-ext (ok a) f g h = h a
  >>=-ext (err e) f g h = refl

  >>=_assoc :
      {C : Type 0} (r : Result PromError A) (f : A → Result PromError B)
      (g : B → Result PromError C)
      → ((r >>= f) >>= g) ≡ (r >>= λ a. f a >>= g)
  >>=_assoc (ok a) f g = refl
  >>=_assoc (err e) f g = refl

-- What is found from `found` on, when the rows are these
abbrev find_in : Rows → Found → Result PromError Found
find_in rows found = rows >>= λ rs. ok (add_rows rs found)

find_in-append :
    (r s : Rows) (found : Found)
    → (find_in r found >>= find_in s)
      ≡ find_in (r >>= λ rows. s >>= λ more. ok (rows ++ more)) found
find_in-append (err e) s found = refl
find_in-append (ok rows) (err e) found = refl
find_in-append (ok rows) (ok more) found = ap ok (sym (add_rows-append rows more found))

add_rows-passing :
    (b : Bool) (m : Text) (lbls : Labels) (found : Found)
    → (if b then add_series m lbls found else found)
      ≡ add_rows (if b then (m, lbls) ∷ [] else []) found
unfolding add_rows
add_rows-passing true m lbls found = refl
add_rows-passing false m lbls found = refl

series_rows_lem :
    (label_filters : List Matcher) (metrics : List (Cell Text)) (labels : List (Cell Entries))
    (found : Found)
    → series_rows label_filters metrics labels found
      ≡ find_in (rows_in label_filters metrics labels) found
unfolding series_rows add_rows
series_rows_lem label_filters [] labels found = refl
series_rows_lem label_filters (m ∷ metrics) [] found = refl
series_rows_lem label_filters (m ∷ metrics) (l ∷ labels) found =
    let rest = rows_in label_filters metrics labels in
    >>=-ext (labels_to_btree l) _ _ (λ lbls.
      let head : List Row = if passes label_filters lbls then (m.value, lbls) ∷ [] else [] in
      ap (series_rows label_filters metrics labels)
        (add_rows-passing (passes label_filters lbls) m.value lbls found)
      ∙ series_rows_lem label_filters metrics labels (add_rows head found)
      ∙ find_in-append (ok head) rest found)
    ∙ sym (>>=_assoc (labels_to_btree l) _ _)

module _ {F : Type 0} where
  series_batches_lem :
      (label_filters : List Matcher) (batches : List (List (Column F))) (found : Found)
      → series_batches label_filters batches found
        ≡ find_in (rows_of_batches label_filters batches) found
  unfolding series_batches add_rows
  series_batches_lem label_filters [] found = refl
  series_batches_lem label_filters (batch ∷ batches) found =
      >>=-ext (column 0 batch >>= as_utf8) _ _ (λ metrics.
        >>=-ext (column 1 batch >>= as_map) _ _ (λ labels.
          let rows = rows_in label_filters metrics labels in
          ap (λ r. r >>= series_batches label_filters batches)
            (series_rows_lem label_filters metrics labels found)
          ∙ >>=-ext (find_in rows found) _ _ (series_batches_lem label_filters batches)
          ∙ find_in-append rows (rows_of_batches label_filters batches) found)
        ∙ sym (>>=_assoc (column 1 batch >>= as_map) _ _))
      ∙ sym (>>=_assoc (column 0 batch >>= as_utf8) _ _)

module _ {P F : Type 0} (ps : CatalogParsers F) (db : Database P F) where
  series_of_lem :
      (expr : Expr F) (found : Found)
      → series_of ps db expr found ≡ find_in (rows_of ps db expr) found
  unfolding series_of add_rows
  series_of_lem expr found = elim (Option-cases (extract_selector expr)) [
    | inl e ↦ rw (e, series_of) (rw (e, rows_of) refl)
    | inr (sel, e) ↦
        rw (e, series_of)
          (rw (e, rows_of)
            (>>=-ext (run db (series_sql sel)) _ _
                (λ batches. series_batches_lem (label_filters_for_selector sel) batches found)
              ∙ sym (>>=_assoc (run db (series_sql sel)) _ _)))
  ]

  series_all_lem :
      (matches : List Text) (found : Found)
      → series_all ps db matches found ≡ find_in (rows_of_all ps db matches) found
  unfolding series_all add_rows
  series_all_lem [] found = refl
  series_all_lem (q ∷ matches) found = elim (Option-cases (ps.parse q)) [
    | inl e ↦ rw (e, series_all) (rw (e, rows_of_all) refl)
    | inr (expr, e) ↦
        rw (e, series_all)
          (rw (e, rows_of_all)
            (ap (λ r. r >>= series_all ps db matches) (series_of_lem expr found)
              ∙ >>=-ext (find_in (rows_of ps db expr) found) _ _ (series_all_lem matches)
              ∙ find_in-append (rows_of ps db expr) (rows_of_all ps db matches) found))
  ]

  -- The series endpoint, whether it answers or fails: its answer has one object for each key among
  -- the rows that the statements of its expressions find and the label filters pass, in the order of
  -- the rows, the one of the first row with the key; no two of these rows have one key. It fails
  -- exactly if these rows cannot be had, with the same error.
  pub series-firsts :
      (qs : Option Text)
      → (series ps db qs ≡ (
          rows_of_all ps db (parse_series_matches ps db (query_string qs)) >>= λ rows.
          ok (objects (firsts key_of rows))))
        × ((rows : List Row) → HasDistinctKeys (keyed key_of (firsts key_of rows)))
  unfolding series
  series-firsts qs = (
    ap (λ r. r >>= λ found. ok found.out)
          (series_all_lem (parse_series_matches ps db (query_string qs)) nothing)
        ∙ >>=_assoc (rows_of_all ps db (parse_series_matches ps db (query_string qs))) _ _
        ∙ >>=-ext (rows_of_all ps db (parse_series_matches ps db (query_string qs))) _ _
            from_nothing,
    firsts-HasDistinctKeys key_of,
  )
