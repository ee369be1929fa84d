-- ===== src/Ingest/Buffer/Points.antt =====
-- The points that the buffer of src/ingest/buffer.rs holds, by day and series.
use skaldberg.Base.{
  ℕ, ◌≡◌, sym, true, false, ◌&&◌, List, [], ◌∷◌, ◌++◌, arith, Bool-cases, inl, inr, ltb,
}
use mathlib.Core.List.{append-nil, append_assoc}
use skaldberg.Base.Int.{ℤ}
use skaldberg.Order.{Ord, int_ord, ◌=?◌, =?-eq}
use skaldberg.BTreeMap.{get_or, entry_or}
use skaldberg.BTreeMap.Laws.{get_or-entry_or}
use skaldberg.Ingest.Types.{ValidatedSample}
use skaldberg.Ingest.Buffer.{
  Buffer, Chrono, ByDay, day_of_us, insert_one, insert_each, insert_batch,
}

module _ {D F : Type 0} ⦃o : Ord D⦄ where
  -- The points of a series on a day, in the order in which they came.
  abbrev pub points_at : D → ℤ → ByDay D F → List (ℤ × F)
  points_at day id by_day = get_or [] id (get_or [] day by_day)

module _ {D F : Type 0} ⦃o : Ord D⦄ ⦃c : Chrono D⦄ where
  -- The samples of a batch that belong to a series on a day.
  abbrev pub points_for : D → ℤ → List (ValidatedSample F) → List (ℤ × F)
  points_for day id [] = []
  points_for day id (s ∷ samples) = elim (day =? day_of_us s.ts_us && id =? s.series_id) [
    | true ↦ (s.ts_us, s.value) ∷ points_for day id samples
    | false ↦ points_for day id samples
  ]

  pub points_at-insert_one :
      (day : D) (id : ℤ) (s : ValidatedSample F) (b : Buffer D F)
      → points_at day id (insert_one s b).by_day
        ≡ points_at day id b.by_day ++ points_for day id (s ∷ [])
  unfolding insert_one
  points_at-insert_one day id s b =
      let add = λ (points : List (ℤ × F)). points ++ ((s.ts_us, s.value) ∷ []) in
      let day' : D = day_of_us s.ts_us in
      ground (
        arith,
        get_or-entry_or [] day day' (entry_or [] s.series_id add) b.by_day,
        get_or-entry_or [] id s.series_id add (get_or [] day' b.by_day),
        =?-eq day day',
        =?-eq id s.series_id,
        append-nil (points_at day id b.by_day),
      )

  points_for-cons :
      (day : D) (id : ℤ) (s : ValidatedSample F) (samples : List (ValidatedSample F))
      → points_for day id (s ∷ samples) ≡ points_for day id (s ∷ []) ++ points_for day id samples
  points_for-cons day id s samples = ground arith

  points_at-insert_each :
      (day : D) (id : ℤ) (samples : List (ValidatedSample F)) (b : Buffer D F)
      → points_at day id (insert_each samples b).by_day
        ≡ points_at day id b.by_day ++ points_for day id samples
  unfolding insert_each
  points_at-insert_each day id [] b = sym (append-nil _)
  points_at-insert_each day id (s ∷ samples) b = cc (
    points_at-insert_each day id samples (insert_one s b),
    points_at-insert_one day id s b,
    points_for-cons day id s samples,
    append_assoc (points_at day id b.by_day) (points_for day id (s ∷ []))
        (points_for day id samples),
  )

  -- For every day and series, the points that the buffer holds after a batch are those it held
  -- before, followed by the batch's samples of that series on that UTC day, in the batch's order:
  -- none is lost, none is added or moved to another series or day.
  pub points_at-insert_batch :
      (day : D) (id : ℤ) (record_seq : ℕ) (samples : List (ValidatedSample F)) (b : Buffer D F)
      → points_at day id (insert_batch record_seq samples b).by_day
        ≡ points_at day id b.by_day ++ points_for day id samples
  unfolding insert_batch
  points_at-insert_batch day id record_seq samples b =
      elim (Bool-cases (ltb b.max_record_seq record_seq)) [
        | inl e ↦
            rw e (points_at-insert_each day id samples (record b { max_record_seq = record_seq }))
        | inr e ↦ rw e (points_at-insert_each day id samples b)
      ]
