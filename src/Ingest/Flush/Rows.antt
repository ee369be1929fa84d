-- ===== src/Ingest/Flush/Rows.antt =====
-- The rows of a batch of samples (`build_samples_batch` of src/ingest/flush.rs).
use skaldberg.Base.{
  ◌≡◌, refl, ap, sym, ◌∙◌, subst, Bool, Bool-cases, ◌&&◌, List, [], ◌∷◌, ◌++◌, map, arith, keep_if,
  inl, inr, length, length-append, if◌then◌else◌,
}
use mathlib.Core.List.{append-nil}
use skaldberg.Base.Int.{ℤ}
use skaldberg.Order.{int_ord, pair_ord, ◌=?◌, =?-eq}
use skaldberg.Sort.{sort_by_key, Ascends, keep_if-sort_by_key, length-sort_by_key}
use skaldberg.BTreeMap.{BTreeMap, get_or, get}
use skaldberg.BTreeMap.Laws.{IsSorted, Above}
use skaldberg.Ingest.Buffer.Invariant.{points_in}
use skaldberg.Ingest.Flush.{Arrow, build_samples_batch}
use skaldberg.Ingest.Flush.Columns.{
  rows_of_series, rows_of, row_key, series_ids, timestamps, values, push_series-rows,
  rows_of-Ascends,
}

module _ {F : Type 0} where
  -- The values at a series and a time, in the order of the rows
  abbrev pub values_of : ℤ → ℤ → List (ℤ × (ℤ × F)) → List F
  values_of sid ts [] = []
  values_of sid ts ((i, (t, v)) ∷ rows) =
      let rest = values_of sid ts rows in if sid =? i && ts =? t then v ∷ rest else rest

  abbrev pub values_at : ℤ → List (ℤ × F) → List F
  values_at ts [] = []
  values_at ts ((t, v) ∷ points) =
      let rest = values_at ts points in if ts =? t then v ∷ rest else rest

  values_of-append :
      (sid ts : ℤ) (xs ys : List (ℤ × (ℤ × F)))
      → values_of sid ts (xs ++ ys) ≡ values_of sid ts xs ++ values_of sid ts ys
  values_of-append sid ts [] ys = refl
  values_of-append sid ts ((i, (t, v)) ∷ xs) ys = ground (arith, values_of-append sid ts xs ys)

  values_of-series :
      (sid ts j : ℤ) (points : List (ℤ × F))
      → values_of sid ts (rows_of_series j points) ≡ (if sid =? j then values_at ts points else [])
  values_of-series sid ts j [] = ground arith
  values_of-series sid ts j ((t, v) ∷ points) = ground (arith, values_of-series sid ts j points)

  values_at-keep_if :
      (ts : ℤ) (points : List (ℤ × F))
      → values_at ts points ≡ map (λ (t, v). v) (keep_if (λ (t, v). ts =? t) points)
  values_at-keep_if ts [] = refl
  values_at-keep_if ts ((t, v) ∷ points) = ground (arith, values_at-keep_if ts points)

  values_at-sort_by_key :
      (ts : ℤ) (points : List (ℤ × F))
      → values_at ts (sort_by_key (λ (t, v). t) points) ≡ values_at ts points
  values_at-sort_by_key ts points =
      values_at-keep_if ts (sort_by_key (λ (t, v). t) points)
      ∙ ap (map (λ (t, v). v)) (keep_if-sort_by_key (λ (t, v). t) ts points)
      ∙ sym (values_at-keep_if ts points)

  values_of-Above :
      (sid ts : ℤ) (m : BTreeMap ℤ (List (ℤ × F))) → Above sid m → values_of sid ts (rows_of m) ≡ []
  values_of-Above sid ts [] h = refl
  values_of-Above sid ts ((j, points) ∷ m) h =
      let sorted = sort_by_key (λ (ts, v). ts) points in
      ground (
        arith,
        values_of-append sid ts (rows_of_series j sorted) (rows_of m),
        values_of-series sid ts j sorted,
        values_of-Above sid ts m h.1,
        h.0,
      )

  values_of-rows :
      (sid ts : ℤ) (m : BTreeMap ℤ (List (ℤ × F)))
      → IsSorted m
      → values_of sid ts (rows_of m) ≡ values_at ts (get_or [] sid m)
  unfolding get
  values_of-rows sid ts [] s = refl
  values_of-rows sid ts ((j, points) ∷ m) s =
      let sorted = sort_by_key (λ (ts, v). ts) points in
      elim (Bool-cases (sid =? j)) [
        | inl e ↦
            let above : Above sid m = subst (λ i. Above i m) (sym (=?-eq sid j e)) s.0 in
            rw (e, get_or)
              (cc (
                values_of-append sid ts (rows_of_series j sorted) (rows_of m),
                values_of-series sid ts j sorted,
                ap (λ (b : Bool). if b then values_at ts sorted else []) e,
                values_of-Above sid ts m above,
                append-nil (values_at ts sorted),
                values_at-sort_by_key ts points,
              ))
        | inr e ↦
            rw (e, get_or)
              (cc (
                values_of-append sid ts (rows_of_series j sorted) (rows_of m),
                values_of-series sid ts j sorted,
                ap (λ (b : Bool). if b then values_at ts sorted else []) e,
                values_of-rows sid ts m s.1,
              ))
      ]

  length-rows_of_series :
      (sid : ℤ) (points : List (ℤ × F)) → length (rows_of_series sid points) ≡ length points
  length-rows_of_series sid [] = refl
  length-rows_of_series sid (p ∷ points) = omega (arith, length-rows_of_series sid points)

  length-rows_of : (m : BTreeMap ℤ (List (ℤ × F))) → length (rows_of m) ≡ points_in m
  length-rows_of [] = refl
  length-rows_of ((sid, points) ∷ m) =
      let sorted = sort_by_key (λ (ts, v). ts) points in
      omega (
        arith,
        length-append (rows_of_series sid sorted) (rows_of m),
        length-rows_of_series sid sorted,
        length-sort_by_key (λ ((ts, v) : ℤ × F). ts) points,
        length-rows_of m,
      )

  -- For series in key order: the batch is made of three columns of one length that are those of rows,
  -- one for each point. The rows ascend by series and, within a series, by time, and for every series
  -- and time the values are those of its points, in the order in which these came.
  pub build_samples_batch-rows :
      {B R : Type 0} (arrow : Arrow F B R) (by_series : BTreeMap ℤ (List (ℤ × F)))
      → IsSorted by_series
      → (rows : List (ℤ × (ℤ × F))) × (build_samples_batch arrow by_series
          ≡ arrow.samples_batch (series_ids rows) (timestamps rows) (values rows))
        × Ascends row_key rows
        × (length rows ≡ points_in by_series)
        × ((sid ts : ℤ) → values_of sid ts rows ≡ values_at ts (get_or [] sid by_series))
  unfolding build_samples_batch
  build_samples_batch-rows arrow by_series s = (
    rows_of by_series,
    ap (λ (a, b, c). arrow.samples_batch a b c) (push_series-rows by_series ([], [], [])),
    rows_of-Ascends by_series s,
    length-rows_of by_series,
    λ sid ts. values_of-rows sid ts by_series s,
  )
