-- ===== src/Prom/Engine/Latest.antt =====
-- `instant_selector` of src/prometheus.rs keeps the latest row of each series.
use skaldberg.Base.{
  ◌≡◌, refl, ap, sym, ◌∙◌, true, false, Bool-cases, inl, inr, Option, none, some, List, [], ◌∷◌,
  arith, if◌then◌else◌, ◌⊎◌, map, subst, ok,
}
use skaldberg.Base.Int.{ℤ, ltb_ℤ, ◌≤ℤ◌, ◌-ℤ◌, wrap_i64}
use skaldberg.Order.{list_ord, nat_ord, ◌=?◌, =?-eq}
use skaldberg.BTreeMap.{BTreeMap, get}
use skaldberg.BTreeMap.Laws.{get-insert, IsSorted, insert-IsSorted}
use skaldberg.Text.{Text}
use skaldberg.Prom.Types.{SeriesRow, VectorSelector}
use skaldberg.Prom.Aggregate.{series_key}
use skaldberg.Prom.Engine.{
  Database, point_of, keep_row, keep_latest, run_selector_query, instant_selector, lookback_us,
}

true-ne-false : true ≡ false → ⊥
true-ne-false h = cc

module _ {F : Type 0} where
  abbrev key_of : SeriesRow F → Text
  key_of r = series_key r.metric_name r.labels

  -- One round of the loop at the key `k`: the row kept for it, from the one kept before
  abbrev later_of : Option (SeriesRow F) → SeriesRow F → SeriesRow F
  later_of none r = r
  later_of (some prev) r = if ltb_ℤ prev.ts_us r.ts_us then r else prev

  -- The row of the latest time among those of the key `k`, the first of those
  abbrev pub latest_of : Text → List (SeriesRow F) → Option (SeriesRow F) → Option (SeriesRow F)
  latest_of k [] best = best
  latest_of k (r ∷ rows) best =
      latest_of k rows
        (if k =? series_key r.metric_name r.labels then some (later_of best r) else best)

  get-keep_row :
      (k : Text) (r : SeriesRow F) (m : BTreeMap Text (SeriesRow F))
      → get k (keep_row r m) ≡ (if k =? key_of r then some (later_of (get k m) r) else get k m)
  unfolding keep_row
  get-keep_row k r m = ground (arith, get-insert k (key_of r) r m, =?-eq k (key_of r))

  get-keep_latest :
      (k : Text) (rows : List (SeriesRow F)) (m : BTreeMap Text (SeriesRow F))
      → get k (keep_latest rows m) ≡ latest_of k rows (get k m)
  unfolding keep_latest
  get-keep_latest k [] m = refl
  get-keep_latest k (r ∷ rows) m =
      get-keep_latest k rows (keep_row r m) ∙ ap (latest_of k rows) (get-keep_row k r m)

  keep_row-IsSorted :
      (r : SeriesRow F) (m : BTreeMap Text (SeriesRow F)) → IsSorted m → IsSorted (keep_row r m)
  unfolding keep_row
  keep_row-IsSorted r m s = ground (arith, insert-IsSorted (key_of r) r m s)

  keep_latest-IsSorted :
      (rows : List (SeriesRow F)) (m : BTreeMap Text (SeriesRow F))
      → IsSorted m
      → IsSorted (keep_latest rows m)
  unfolding keep_latest
  keep_latest-IsSorted [] m s = s
  keep_latest-IsSorted (r ∷ rows) m s =
      keep_latest-IsSorted rows (keep_row r m) (keep_row-IsSorted r m s)

  -- The row is one of those of the key `k`.
  abbrev pub IsAmong : Text → SeriesRow F → List (SeriesRow F) → Type 0
  IsAmong k best [] = ⊥
  IsAmong k best (r ∷ rows) =
      ((k =? series_key r.metric_name r.labels ≡ true) × (best ≡ r)) ⊎ IsAmong k best rows

  -- The row is at least as late as all those of the key `k`.
  abbrev pub IsLatest : Text → SeriesRow F → List (SeriesRow F) → Type 0
  IsLatest k best [] = Unit
  IsLatest k best (r ∷ rows) =
      (k =? series_key r.metric_name r.labels ≡ true → r.ts_us ≤ℤ best.ts_us) × IsLatest k best rows

  -- What is kept for the key `k`
  abbrev pub Kept : Text → List (SeriesRow F) → Option (SeriesRow F) → Type 0
  Kept k rows none = (r : SeriesRow F) → ¬ IsAmong k r rows
  Kept k rows (some best) = IsAmong k best rows × IsLatest k best rows

  -- The same, with the row `b` kept before
  KeptFrom : Text → SeriesRow F → List (SeriesRow F) → Option (SeriesRow F) → Type 0
  KeptFrom k b rows none = ⊥
  KeptFrom k b rows (some best) =
      (IsAmong k best rows ⊎ (best ≡ b)) × IsLatest k best rows × (b.ts_us ≤ℤ best.ts_us)

  KeptFrom-later :
      (k : Text) (r b b' : SeriesRow F) (rows : List (SeriesRow F)) (x : Option (SeriesRow F))
      → ((k =? key_of r ≡ true) × (b' ≡ r)) ⊎ (b' ≡ b)
      → (k =? key_of r ≡ true → r.ts_us ≤ℤ b'.ts_us)
      → b.ts_us ≤ℤ b'.ts_us
      → KeptFrom k b' rows x
      → KeptFrom k b (r ∷ rows) x
  unfolding KeptFrom
  KeptFrom-later k r b b' rows none which h le kept = kept
  KeptFrom-later k r b b' rows (some best) which h le (among, latest, le') = (
    elim among [
      | inl a ↦ inl (inr a)
      | inr e ↦ elim which [ inl (c, e') ↦ inl (inl (c, e ∙ e')) | inr e' ↦ inr (e ∙ e') ]
    ],
    (λ c. omega (arith, h c), latest),
    omega arith,
  )

  latest_of-from :
      (k : Text) (rows : List (SeriesRow F)) (b : SeriesRow F)
      → KeptFrom k b rows (latest_of k rows (some b))
  unfolding KeptFrom
  latest_of-from k [] b = (inr refl, tt, omega arith)
  latest_of-from k (r ∷ rows) b = elim (Bool-cases (k =? key_of r)) [
    | inr e ↦ rw e (
        KeptFrom-later k r b b rows (latest_of k rows (some b)) (inr refl)
          (λ c. absurd (true-ne-false (sym c ∙ e))) (omega arith) (latest_of-from k rows b))
    | inl e ↦ elim (Bool-cases (ltb_ℤ b.ts_us r.ts_us)) [
      | inl l ↦ rw e (
          rw l (
            KeptFrom-later k r b r rows (latest_of k rows (some r)) (inl (e, refl))
              (λ c. omega arith) (ground arith) (latest_of-from k rows r)))
      | inr l ↦ rw e (
          rw l (
            KeptFrom-later k r b b rows (latest_of k rows (some b)) (inr refl) (λ c. ground arith)
              (omega arith) (latest_of-from k rows b)))
    ]
  ]

  -- No row is kept before.
  KeptFrom-first :
      (k : Text) (r : SeriesRow F) (rows : List (SeriesRow F)) (x : Option (SeriesRow F))
      → k =? key_of r ≡ true
      → KeptFrom k r rows x
      → Kept k (r ∷ rows) x
  unfolding KeptFrom
  KeptFrom-first k r rows none e kept = absurd kept
  KeptFrom-first k r rows (some best) e (among, latest, le) =
      (elim among [ inl a ↦ inr a | inr e' ↦ inl (e, e') ], (λ c. le, latest))

  Kept-later :
      (k : Text) (r : SeriesRow F) (rows : List (SeriesRow F)) (x : Option (SeriesRow F))
      → k =? key_of r ≡ false
      → Kept k rows x
      → Kept k (r ∷ rows) x
  Kept-later k r rows none e kept =
      λ b among. elim among [ inl (c, e') ↦ true-ne-false (sym c ∙ e) | inr a ↦ kept b a ]
  Kept-later k r rows (some best) e (among, latest) =
      (inr among, (λ c. absurd (true-ne-false (sym c ∙ e)), latest))

  latest_of-Kept : (k : Text) (rows : List (SeriesRow F)) → Kept k rows (latest_of k rows none)
  latest_of-Kept k [] = λ r a. a
  latest_of-Kept k (r ∷ rows) = elim (Bool-cases (k =? key_of r)) [
    | inl e ↦ rw e (KeptFrom-first k r rows (latest_of k rows (some r)) e (latest_of-from k rows r))
    | inr e ↦ rw e (Kept-later k r rows (latest_of k rows none) e (latest_of-Kept k rows))
  ]

module _ {P F : Type 0} (db : Database P F) where
  -- When the selector's rows of the five minutes up to the time are read: the answer has one point
  -- for each key of a series, in the keys' order. For every key, this is a row of the key that is at
  -- least as late as all others of it, and a key without a point has no row.
  pub instant_selector-Kept :
      (sel : VectorSelector) (time_us : ℤ) (rows : List (SeriesRow F))
      → run_selector_query db sel (wrap_i64 (time_us -ℤ lookback_us)) time_us ≡ ok rows
      → (kept : BTreeMap Text (SeriesRow F)) × (instant_selector db sel time_us
          ≡ ok (map (λ (k, r). point_of r) kept))
        × IsSorted kept
        × ((k : Text) → Kept k rows (get k kept))
  unfolding instant_selector get
  instant_selector-Kept sel time_us rows h = (
    keep_latest rows [],
    rw (h, instant_selector) refl,
    keep_latest-IsSorted rows [] tt,
    λ k. subst (Kept k rows) (sym (get-keep_latest k rows [])) (latest_of-Kept k rows),
  )
