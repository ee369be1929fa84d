-- ===== src/Ingest/Flush/Atomic.antt =====
-- What a flush of src/ingest/flush.rs leaves in the two tables, when it succeeds and when it fails.
use skaldberg.Base.{
  ◌≡◌, refl, sym, ◌∙◌, Bool-cases, Option, none, some, if◌then◌else◌, List, [], ◌++◌, inl, inr,
  is_empty, Result, ok, err, eq-nil_of_is_empty,
}
use mathlib.Core.List.{append-nil}
use skaldberg.Base.Int.{ℤ}
use skaldberg.Order.{int_ord}
use skaldberg.Ingest.Buffer.{Chrono, Snapshot}
use skaldberg.Ingest.Flush.{
  Arrow, Table, FlushResult, FlushError, flush_samples_failed, flush_series_failed, flush_samples,
  flush_series, flush,
}
use skaldberg.Ingest.Flush.Writes.{
  IsTable, Wrote, day_batches, series_batches, flush_samples-Wrote, flush_series-Wrote,
}

module _ {D F B R S File : Type 0} ⦃c : Chrono D⦄ (num_days : D → D → ℤ) (arrow : Arrow F B R)
    (samples : Table S (ℤ × B) File) (series : Table S R File) (sample_rows : S → List (ℤ × B))
    (series_rows : S → List R) where
  -- What a flush of `snap` in the state `s` has done: all of both, or nothing, or the samples alone.
  abbrev pub Flushed : Snapshot D F → S → Result FlushError FlushResult × S → Type 0
  Flushed snap s (ok res, s') =
      (new : List (ℤ × B)) × (new_series : List R) × (day_batches num_days arrow snap.by_day
        ≡ some new)
      × (series_batches arrow snap.new_series ≡ some new_series)
      × (sample_rows s' ≡ sample_rows s ++ new)
      × (series_rows s' ≡ series_rows s ++ new_series)
  Flushed snap s (err flush_samples_failed, s') =
      (sample_rows s' ≡ sample_rows s) × (series_rows s' ≡ series_rows s)
  Flushed snap s (err flush_series_failed, s') =
      (new : List (ℤ × B)) × (day_batches num_days arrow snap.by_day ≡ some new)
      × (sample_rows s' ≡ sample_rows s ++ new)
      × (series_rows s' ≡ series_rows s)

  first_write-Wrote :
      (snap : Snapshot D F) (s : S)
      → IsTable samples sample_rows series_rows
      → Wrote samples sample_rows series_rows (day_batches num_days arrow snap.by_day) s (
          if is_empty snap.by_day
          then (some [], s)
          else flush_samples num_days arrow samples series snap.by_day s)
  first_write-Wrote snap s law = elim (Bool-cases (is_empty snap.by_day)) [
    | inl e ↦
        rw (eq-nil_of_is_empty snap.by_day e) ([], refl, sym (append-nil (sample_rows s)), refl)
    | inr e ↦ rw e (
        flush_samples-Wrote num_days arrow samples series sample_rows series_rows law snap.by_day s)
  ]

  second_write-Wrote :
      (snap : Snapshot D F) (s : S)
      → IsTable series series_rows sample_rows
      → Wrote series series_rows sample_rows (series_batches arrow snap.new_series) s (
          if is_empty snap.new_series
          then (some [], s)
          else flush_series num_days arrow samples series snap.new_series s)
  second_write-Wrote snap s law = elim (Bool-cases (is_empty snap.new_series)) [
    | inl e ↦ rw e ([], refl, sym (append-nil (series_rows s)), refl)
    | inr e ↦ rw e (
        flush_series-Wrote num_days arrow samples series series_rows sample_rows law snap.new_series
          _ s (λ b f. rw f refl))
  ]

  both-Flushed :
      (snap : Snapshot D F) (s s₁ : S) (files : List File) (r : Option (List File) × S)
      → Wrote samples sample_rows series_rows
          (day_batches num_days arrow snap.by_day)
          s
          (some files, s₁)
      → Wrote series series_rows sample_rows (series_batches arrow snap.new_series) s₁ r
      → (res : FlushResult)
      → Flushed snap s
          (elim r.0 [ none ↦ (err flush_series_failed, r.1) | some series_files ↦ (ok res, r.1) ])
  both-Flushed snap s s₁ files (none, s') (new, d, k, o) (k', o') res = (new, d, o' ∙ k, k' ∙ o)
  both-Flushed snap s s₁ files (some more, s') (new, d, k, o) (new_series, d', k', o') res =
      (new, new_series, d, d', o' ∙ k, cc (k', o))

  first-Flushed :
      (snap : Snapshot D F) (s : S) (first : Option (List File) × S) (res : List File → FlushResult)
      → IsTable series series_rows sample_rows
      → Wrote samples sample_rows series_rows (day_batches num_days arrow snap.by_day) s first
      → Flushed snap s (elim first.0 [
        | none ↦ (err flush_samples_failed, first.1)
        | some files ↦
            let second =
              (if is_empty snap.new_series
                then (some [], first.1)
                else flush_series num_days arrow samples series snap.new_series first.1) in
            elim second.0 [
              | none ↦ (err flush_series_failed, second.1)
              | some series_files ↦ (ok (res files), second.1)
            ]
      ])
  first-Flushed snap s (none, s₁) res law w = w
  first-Flushed snap s (some files, s₁) res law w =
      both-Flushed snap s s₁ files _ w (second_write-Wrote snap s₁ law) (res files)

  -- For tables that change only by a commit that succeeds, and then by the files' contents: a flush
  -- that succeeds adds to the samples one batch for each day of the snapshot, in order, and to the
  -- series one batch of the new series, if there are any. A flush that fails changes the samples
  -- and the series not at all, or adds all of the samples and leaves the series.
  pub flush-Flushed :
      (snap : Snapshot D F) (s : S)
      → IsTable samples sample_rows series_rows
      → IsTable series series_rows sample_rows
      → Flushed snap s (flush num_days arrow samples series snap s)
  unfolding flush
  flush-Flushed snap s law law' = first-Flushed snap s _ _ law' (first_write-Wrote snap s law)
