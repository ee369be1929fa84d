-- ===== src/Ingest/Buffer/Series.antt =====
-- Which series the buffer of src/ingest/buffer.rs reports as new.
use skaldberg.Base.{
  ℕ, ◌≡◌, refl, true, false, ◌||◌, List, [], ◌∷◌, arith, Bool-cases, inl, inr, none, some, Option,
  if◌then◌else◌, ltb,
}
use skaldberg.Base.Int.{ℤ}
use skaldberg.Order.{Ord, int_ord, ◌=?◌, =?-eq, =?_refl}
use skaldberg.HashSet.{contains, contains-add_all}
use skaldberg.BTreeMap.{BTreeMap, get, keys, contains_key}
use skaldberg.BTreeMap.Laws.{get-insert}
use skaldberg.Ingest.Types.{ValidatedSample}
use skaldberg.Ingest.Buffer.{
  Buffer, Chrono, NewSeriesEntry, insert_one, insert_each, insert_batch, take_snapshot,
}

module _ {F : Type 0} where
  abbrev pub entry_of : ValidatedSample F → NewSeriesEntry
  entry_of s = record { series_id = s.series_id; metric = s.metric; labels = s.labels }

  -- The entry of the first sample of a series in a batch.
  abbrev pub first_seen : ℤ → List (ValidatedSample F) → Option NewSeriesEntry
  first_seen id [] = none
  first_seen id (s ∷ samples) = elim (id =? s.series_id) [
    | true ↦ some (entry_of s)
    | false ↦ first_seen id samples
  ]

-- `x`, or `y` where `x` is absent
abbrev pub or_else {ℓ} : {A : Type ℓ} → Option A → Option A → Option A
or_else (some a) y = some a
or_else none y = y

contains-keys : (id : ℤ) (m : BTreeMap ℤ NewSeriesEntry) → contains id (keys m) ≡ contains_key id m
unfolding contains get
contains-keys id [] = refl
contains-keys id ((j, e) ∷ m) = ground (arith, contains-keys id m)

module _ {D F : Type 0} ⦃o : Ord D⦄ ⦃c : Chrono D⦄ where
  pub known-insert_one :
      (s : ValidatedSample F) (b : Buffer D F) → (insert_one s b).known_series ≡ b.known_series
  unfolding insert_one
  known-insert_one s b = refl

  pub new-insert_one :
      (id : ℤ) (s : ValidatedSample F) (b : Buffer D F)
      → get id (insert_one s b).new_series
        ≡ or_else
            (get id b.new_series)
            (if contains id b.known_series then none else first_seen id (s ∷ []))
  unfolding insert_one
  new-insert_one id s b = ground (
    arith,
    get-insert id s.series_id (entry_of s) b.new_series,
    =?-eq id s.series_id,
    =?_refl s.series_id,
  )

  known-insert_each :
      (samples : List (ValidatedSample F)) (b : Buffer D F)
      → (insert_each samples b).known_series ≡ b.known_series
  unfolding insert_each
  known-insert_each [] b = refl
  known-insert_each (s ∷ samples) b =
      cc (known-insert_each samples (insert_one s b), known-insert_one s b)

  pub known-insert_batch :
      (record_seq : ℕ) (samples : List (ValidatedSample F)) (b : Buffer D F)
      → (insert_batch record_seq samples b).known_series ≡ b.known_series
  unfolding insert_batch
  known-insert_batch record_seq samples b = elim (Bool-cases (ltb b.max_record_seq record_seq)) [
    | inl e ↦ rw e (known-insert_each samples (record b { max_record_seq = record_seq }))
    | inr e ↦ rw e (known-insert_each samples b)
  ]

  new-insert_each :
      (id : ℤ) (samples : List (ValidatedSample F)) (b : Buffer D F)
      → get id (insert_each samples b).new_series
        ≡ or_else
            (get id b.new_series)
            (if contains id b.known_series then none else first_seen id samples)
  unfolding insert_each
  new-insert_each id [] b = ground arith
  new-insert_each id (s ∷ samples) b = ground (
    arith,
    new-insert_each id samples (insert_one s b),
    new-insert_one id s b,
    known-insert_one s b,
  )

  -- After a batch the catalog row that the buffer holds for a series is the one it held before; or
  -- else, if the series is not known, that of the first sample of the series in the batch; and
  -- there is none for a series that is known or does not occur.
  pub new-insert_batch :
      (id : ℤ) (record_seq : ℕ) (samples : List (ValidatedSample F)) (b : Buffer D F)
      → get id (insert_batch record_seq samples b).new_series
        ≡ or_else
            (get id b.new_series)
            (if contains id b.known_series then none else first_seen id samples)
  unfolding insert_batch
  new-insert_batch id record_seq samples b = elim (Bool-cases (ltb b.max_record_seq record_seq)) [
    | inl e ↦ rw e (new-insert_each id samples (record b { max_record_seq = record_seq }))
    | inr e ↦ rw e (new-insert_each id samples b)
  ]

  pub known-take_snapshot :
      (id : ℤ) (b : Buffer D F)
      → contains id (take_snapshot b).1.known_series
        ≡ (contains_key id b.new_series || contains id b.known_series)
  unfolding take_snapshot
  known-take_snapshot id b =
      rw (contains-add_all id (keys b.new_series) b.known_series, contains-keys id b.new_series)

  new-take_snapshot : (id : ℤ) (b : Buffer D F) → get id (take_snapshot b).1.new_series ≡ none
  unfolding take_snapshot get
  new-take_snapshot id b = refl

  snapshot-new : (b : Buffer D F) → (take_snapshot b).0.new_series ≡ b.new_series
  unfolding take_snapshot
  snapshot-new b = refl

  -- A series whose catalog row went out with a snapshot is not reported again: whatever batch is
  -- inserted after `take`, the buffer has no new row for it.
  pub take_snapshot-insert_batch :
      (id : ℤ) (e : NewSeriesEntry) (record_seq : ℕ) (samples : List (ValidatedSample F))
      (b : Buffer D F)
      → get id (take_snapshot b).0.new_series ≡ some e
      → get id (insert_batch record_seq samples (take_snapshot b).1).new_series ≡ none
  take_snapshot-insert_batch id e record_seq samples b h = ground (
    arith,
    new-insert_batch id record_seq samples (take_snapshot b).1,
    known-take_snapshot id b,
    new-take_snapshot id b,
    snapshot-new b,
  )
