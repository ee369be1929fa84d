-- ===== src/Ingest/Flush/Columns.antt =====
-- The rows of the series of a day, the columns that the loops of `build_samples_batch` make of them
-- (src/ingest/flush.rs), and their order.
use skaldberg.Base.{◌≡◌, refl, ap, ◌∙◌, List, [], ◌∷◌, ◌++◌, map, arith, Ordering}
use mathlib.Core.List.{append_assoc, append-nil}
use skaldberg.Base.Int.{ℤ}
use skaldberg.Order.{int_ord, pair_ord}
use skaldberg.Sort.{sort_by_key, Ascends, AtMost, sort_by_key-Ascends}
use skaldberg.BTreeMap.{BTreeMap}
use skaldberg.BTreeMap.Laws.{IsSorted, Above}
use skaldberg.Ingest.Flush.{push_points, push_series}

map-append : {A B : Type 0} (f : A → B) (xs ys : List A) → map f (xs ++ ys) ≡ map f xs ++ map f ys
map-append f [] ys = refl
map-append f (x ∷ xs) ys = ap (◌∷◌ (f x)) (map-append f xs ys)

module _ {F : Type 0} where
  -- A row is a series, a time and a value.
  abbrev pub rows_of_series : ℤ → List (ℤ × F) → List (ℤ × (ℤ × F))
  rows_of_series sid [] = []
  rows_of_series sid (p ∷ points) = (sid, p) ∷ rows_of_series sid points

  abbrev pub rows_of : BTreeMap ℤ (List (ℤ × F)) → List (ℤ × (ℤ × F))
  rows_of [] = []
  rows_of ((sid, points) ∷ by_series) =
      rows_of_series sid (sort_by_key (λ (ts, v). ts) points) ++ rows_of by_series

  abbrev pub row_key : ℤ × (ℤ × F) → ℤ × ℤ
  row_key (sid, (ts, v)) = (sid, ts)

  abbrev pub series_ids : List (ℤ × (ℤ × F)) → List ℤ
  series_ids rows = map (λ (sid, p). sid) rows

  abbrev pub timestamps : List (ℤ × (ℤ × F)) → List ℤ
  timestamps rows = map (λ (sid, (ts, v)). ts) rows

  abbrev pub values : List (ℤ × (ℤ × F)) → List F
  values rows = map (λ (sid, (ts, v)). v) rows

  -- The columns `a`, `b`, `c` with some rows behind them
  abbrev pub with_rows : List ℤ × List ℤ × List F → List (ℤ × (ℤ × F)) → List ℤ × List ℤ × List F
  with_rows (a, b, c) rows = (a ++ series_ids rows, b ++ timestamps rows, c ++ values rows)

  with_rows-append :
      (columns : List ℤ × List ℤ × List F) (xs ys : List (ℤ × (ℤ × F)))
      → with_rows (with_rows columns xs) ys ≡ with_rows columns (xs ++ ys)
  with_rows-append (a, b, c) xs ys = cc (
    append_assoc a (series_ids xs) (series_ids ys),
    append_assoc b (timestamps xs) (timestamps ys),
    append_assoc c (values xs) (values ys),
    map-append (λ (sid, p). sid) xs ys,
    map-append (λ (sid, (ts, v)). ts) xs ys,
    map-append (λ (sid, (ts, v)). v) xs ys,
  )

  push_points-rows :
      (sid : ℤ) (points : List (ℤ × F)) (columns : List ℤ × List ℤ × List F)
      → push_points sid points columns ≡ with_rows columns (rows_of_series sid points)
  unfolding push_points
  push_points-rows sid [] (a, b, c) = cc (append-nil a, append-nil b, append-nil c)
  push_points-rows sid (p ∷ points) columns =
      push_points-rows sid points (with_rows columns ((sid, p) ∷ []))
      ∙ with_rows-append columns ((sid, p) ∷ []) (rows_of_series sid points)

  pub push_series-rows :
      (by_series : BTreeMap ℤ (List (ℤ × F))) (columns : List ℤ × List ℤ × List F)
      → push_series by_series columns ≡ with_rows columns (rows_of by_series)
  unfolding push_series
  push_series-rows [] (a, b, c) = cc (append-nil a, append-nil b, append-nil c)
  push_series-rows ((sid, points) ∷ by_series) columns =
      let sorted = sort_by_key (λ (ts, v). ts) points in
      ap (push_series by_series) (push_points-rows sid sorted columns)
      ∙ push_series-rows by_series (with_rows columns (rows_of_series sid sorted))
      ∙ with_rows-append columns (rows_of_series sid sorted) (rows_of by_series)

  -- Order
  AtMost-append :
      (k : ℤ × ℤ) (xs ys : List (ℤ × (ℤ × F)))
      → AtMost row_key k xs
      → AtMost row_key k ys
      → AtMost row_key k (xs ++ ys)
  AtMost-append k [] ys hx hy = hy
  AtMost-append k (x ∷ xs) ys hx hy = (hx.0, AtMost-append k xs ys hx.1 hy)

  AtMost-other_series :
      (sid ts j : ℤ) (points : List (ℤ × F))
      → int_ord.cmp sid j ≡ Ordering.lt
      → AtMost row_key (sid, ts) (rows_of_series j points)
  AtMost-other_series sid ts j [] h = tt
  AtMost-other_series sid ts j ((t, v) ∷ points) h =
      (λ e. ground (arith, h), AtMost-other_series sid ts j points h)

  AtMost-rows :
      (sid ts : ℤ) (m : BTreeMap ℤ (List (ℤ × F)))
      → Above sid m
      → AtMost row_key (sid, ts) (rows_of m)
  AtMost-rows sid ts [] h = tt
  AtMost-rows sid ts ((j, points) ∷ m) h =
      AtMost-append (sid, ts) (rows_of_series j (sort_by_key (λ (ts, v). ts) points)) (rows_of m)
        (AtMost-other_series sid ts j (sort_by_key (λ (ts, v). ts) points) h.0)
        (AtMost-rows sid ts m h.1)

  AtMost-same_series :
      (sid ts : ℤ) (points : List (ℤ × F))
      → AtMost (λ (t, v). t) ts points
      → AtMost row_key (sid, ts) (rows_of_series sid points)
  AtMost-same_series sid ts [] h = tt
  AtMost-same_series sid ts ((t, v) ∷ points) h =
      (λ e. h.0 (ground (arith, e, int_ord.cmp_refl sid)), AtMost-same_series sid ts points h.1)

  Ascends-append :
      (sid : ℤ) (points : List (ℤ × F)) (m : BTreeMap ℤ (List (ℤ × F)))
      → Ascends (λ (t, v). t) points
      → Above sid m
      → Ascends row_key (rows_of m)
      → Ascends row_key (rows_of_series sid points ++ rows_of m)
  Ascends-append sid [] m h a r = r
  Ascends-append sid ((t, v) ∷ points) m h a r = (
    AtMost-append (sid, t) (rows_of_series sid points) (rows_of m)
        (AtMost-same_series sid t points h.0) (AtMost-rows sid t m a),
    Ascends-append sid points m h.1 a r,
  )

  pub rows_of-Ascends : (m : BTreeMap ℤ (List (ℤ × F))) → IsSorted m → Ascends row_key (rows_of m)
  rows_of-Ascends [] s = tt
  rows_of-Ascends ((sid, points) ∷ m) s =
      Ascends-append sid (sort_by_key (λ (ts, v). ts) points) m
        (sort_by_key-Ascends (λ (t, v). t) points) s.0 (rows_of-Ascends m s.1)
