-- ===== src/Ingest/RemoteWrite/Flatten.antt =====
-- `flatten_write_request` of src/ingest/remote_write.rs: its samples and its counts.
use skaldberg.Base.{
  ℕ, ◌+◌, ◌%◌, ◌^◌, ◌≡◌, refl, ap, sym, ◌∙◌, Option, none, some, List, [], ◌∷◌, ◌++◌, arith, length,
  length-append, map, is_empty, inl, inr, Option-cases, if◌then◌else◌,
}
use mathlib.Core.List.{append_assoc, append-nil}
use skaldberg.Text.{Text, lit}
use skaldberg.Ingest.Types.{RawSample}
use skaldberg.Ingest.RemoteWrite.{
  Label, Sample, TimeSeries, WriteRequest, ConversionStats, scan_labels, metric_of, push_samples,
  push_series, push_all, flatten_write_request,
}
use skaldberg.Ingest.RemoteWrite.Labels.{
  last_value, IsLabelsOf, scan_labels-IsLabelsOf, scan_labels-name,
}

-- The last label `__name__`, unless its value is empty
abbrev pub series_name : List Label → Option Text
series_name ls = elim (last_value (lit "__name__") ls) [
  | none ↦ none
  | some m ↦ if is_empty m then none else some m
]

metric_of_lem :
    (o : Option Text)
    → metric_of o ≡ (elim o [ none ↦ none | some m ↦ if is_empty m then none else some m ])
metric_of_lem none = refl
metric_of_lem (some []) = refl
metric_of_lem (some (c ∷ m)) = refl

scan_labels-series_name : (ls : List Label) → metric_of (scan_labels ls none []).0 ≡ series_name ls
scan_labels-series_name ls =
    metric_of_lem (scan_labels ls none []).0
    ∙ ap
        (λ (o : Option Text). elim o as (λ x. Option Text) [
          | none ↦ none
          | some m ↦ if is_empty m then none else some m
        ])
        (scan_labels-name ls)

abbrev Out : Type 0 → Type 0
Out F = List (RawSample F) × ConversionStats

module _ {F : Type 0} where
  abbrev pub raw_of : Text → List (Text × Text) → Sample F → RawSample F
  raw_of m labels s = record { metric = m; labels = labels; ts = s.timestamp; value = s.value }

  -- What one series becomes: nothing without a name, and else one sample for each of its samples.
  abbrev pub IsFlat : TimeSeries F → List (RawSample F) → Type 0
  IsFlat ts raws = elim (series_name ts.labels) [
    | none ↦ raws ≡ []
    | some m ↦
        (labels : List (Text × Text)) × IsLabelsOf ts.labels labels
        × (raws ≡ map (raw_of m labels) ts.samples)
  ]

  -- One series after the other
  abbrev pub AreFlat : List (TimeSeries F) → List (RawSample F) → Type 0
  AreFlat [] out = out ≡ []
  AreFlat (ts ∷ timeseries) out =
      (raws : List (RawSample F)) × (rest : List (RawSample F)) × (out ≡ raws ++ rest)
      × IsFlat ts raws
      × AreFlat timeseries rest

  -- The number of series without a name
  abbrev pub unnamed : List (TimeSeries F) → ℕ
  unnamed [] = 0
  unnamed (ts ∷ timeseries) =
      (elim (series_name ts.labels) [ none ↦ 1 | some m ↦ 0 ]) + unnamed timeseries

  abbrev Pushed : Out F → List (RawSample F) → ℕ → Out F → Type 0
  Pushed (out, stats) raws dropped (out', stats') =
      (out' ≡ out ++ raws)
      × (stats'.series_total ≡ stats.series_total)
      × ((n : ℕ)
          → stats.series_dropped_no_name ≡ n % 2 ^ 64
          → stats'.series_dropped_no_name ≡ (n + dropped) % 2 ^ 64)
      × ((n : ℕ)
          → stats.samples_emitted ≡ n % 2 ^ 64
          → stats'.samples_emitted ≡ (n + length raws) % 2 ^ 64)

  push_samples-Pushed :
      (m : Text) (labels : List (Text × Text)) (samples : List (Sample F)) (out : Out F)
      → Pushed out (map (raw_of m labels) samples) 0 (push_samples m labels samples out)
  unfolding push_samples
  push_samples-Pushed m labels [] (out, stats) =
      (sym (append-nil out), refl, λ n h. omega (arith, h), λ n h. omega (arith, h))
  push_samples-Pushed m labels (s ∷ samples) (out, stats) =
      let (h₁, h₂, h₃, h₄) = push_samples-Pushed m labels samples (
        out ++ (raw_of m labels s ∷ []),
        record stats { samples_emitted = (stats.samples_emitted + 1) % 2 ^ 64 },
      ) in
      (
        h₁ ∙ append_assoc out (raw_of m labels s ∷ []) (map (raw_of m labels) samples),
        h₂,
        h₃,
        λ n h. omega (arith, h₄ (n + 1) (omega (arith, h))),
      )

  push_series-Pushed :
      (ts : TimeSeries F) (out : Out F)
      → (raws : List (RawSample F)) × IsFlat ts raws
        × Pushed out raws (unnamed (ts ∷ [])) (push_series ts out)
  unfolding push_series
  push_series-Pushed ts (out, stats) =
      let named = scan_labels-series_name ts.labels in
      elim (Option-cases (series_name ts.labels)) [
        | inl e ↦
            rw (e, IsFlat)
              (rw (named ∙ e, push_series)
                (
                  [],
                  refl,
                  (sym (append-nil out), refl, λ n h. omega (arith, h), λ n h. omega (arith, h)),
                ))
        | inr (m, e) ↦
            let labels = (scan_labels ts.labels none []).1 in
            rw (e, IsFlat)
              (rw (named ∙ e, push_series)
                (
                  map (raw_of m labels) ts.samples,
                  (labels, scan_labels-IsLabelsOf ts.labels, refl),
                  push_samples-Pushed m labels ts.samples (out, stats),
                ))
      ]

  push_all-Pushed :
      (timeseries : List (TimeSeries F)) (out : Out F)
      → (raws : List (RawSample F)) × AreFlat timeseries raws
        × Pushed out raws (unnamed timeseries) (push_all timeseries out)
  unfolding push_all
  push_all-Pushed [] (out, stats) =
      ([], refl, (sym (append-nil out), refl, λ n h. omega (arith, h), λ n h. omega (arith, h)))
  push_all-Pushed (ts ∷ timeseries) (out, stats) =
      let (raws, flat, (h₁, h₂, h₃, h₄)) = push_series-Pushed ts (out, stats) in
      let (rest, flats, (k₁, k₂, k₃, k₄)) =
        push_all-Pushed timeseries (push_series ts (out, stats)) in
      (
        raws ++ rest,
        (raws, rest, refl, flat, flats),
        (
          k₁ ∙ ap (λ l. l ++ rest) h₁ ∙ append_assoc out raws rest,
          k₂ ∙ h₂,
          λ n h. omega (arith, k₃ (n + unnamed (ts ∷ [])) (h₃ n h)),
          λ n h. omega (arith, k₄ (n + length raws) (h₄ n h), length-append raws rest),
        ),
      )

  -- What `flatten_write_request` returns, for every request. The samples are those of the series
  -- with a name, in the order of the request, each with its time and its value, under the value of
  -- its series' last `__name__` and with the labels of its series whose names do not start with
  -- `__`, each once and with its last value; a series without a name or with an empty one gives
  -- none. `series_total` is the number of series, `series_dropped_no_name` that of the series
  -- without a name and `samples_emitted` that of the samples returned, as numbers of 64 bits.
  pub flatten_write_request-AreFlat :
      (req : WriteRequest F)
      → AreFlat req.timeseries (flatten_write_request req).0
        × ((flatten_write_request req).1.series_total ≡ length req.timeseries % 2 ^ 64)
        × ((flatten_write_request req).1.series_dropped_no_name ≡ unnamed req.timeseries % 2 ^ 64)
        × ((flatten_write_request req).1.samples_emitted
            ≡ length (flatten_write_request req).0 % 2 ^ 64)
  unfolding flatten_write_request
  flatten_write_request-AreFlat req =
      let (raws, flat, (h₁, h₂, h₃, h₄)) = push_all-Pushed req.timeseries (
        [],
        record {
          series_total = length req.timeseries % 2 ^ 64;
          series_dropped_no_name = 0;
          samples_emitted = 0;
        },
      ) in
      (
        rw h₁ flat,
        h₂,
        h₃ 0 refl ∙ omega arith,
        h₄ 0 refl ∙ ap (λ n. n % 2 ^ 64) (omega arith ∙ ap length (sym h₁)),
      )
