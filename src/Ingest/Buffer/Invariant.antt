-- ===== src/Ingest/Buffer/Invariant.antt =====
-- The invariant of the buffer of src/ingest/buffer.rs, and that its operations keep it.
use skaldberg.Base.{
  ℕ, ◌+◌, ◌*◌, ◌%◌, ◌^◌, ◌≡◌, refl, true, false, ◌||◌, List, [], ◌∷◌, ◌++◌, arith, Bool-cases, inl,
  inr, some, length, length-append, ltb, is_empty, ne-nil_of_is_empty, eq-nil_of_is_empty,
}
use skaldberg.Base.Int.{ℤ}
use skaldberg.Order.{Ord, int_ord, ◌=?◌, =?-eq}
use skaldberg.HashSet.{contains}
use skaldberg.BTreeMap.{BTreeMap, get, get_or, contains_key, entry_or}
use skaldberg.BTreeMap.Laws.{IsSorted, insert-IsSorted}
use skaldberg.BTreeMap.Sums.{sum_by, sum_by-entry_or, AllValues, AllValues-insert, AllValues-get_or}
use skaldberg.Ingest.Types.{ValidatedSample}
use skaldberg.Ingest.Buffer.{
  Buffer, Chrono, ByDay, NewSeriesEntry, day_of_us, insert_one, insert_each, insert_batch,
  with_known_series, take_snapshot,
}
use skaldberg.Ingest.Buffer.Points.{points_at, points_at-insert_one}
use skaldberg.Ingest.Buffer.Series.{entry_of, known-insert_one, new-insert_one}

abbrev pub points_in : {F : Type 0} → BTreeMap ℤ (List (ℤ × F)) → ℕ
points_in by_series = sum_by length by_series

abbrev pub total : {D F : Type 0} → ByDay D F → ℕ
total by_day = sum_by points_in by_day

module _ {D F : Type 0} ⦃o : Ord D⦄ where
  -- The keys ascend, the counters count the points (as `usize`), every series with a point is
  -- known or has a new row, and a new row is for a series that is not known, under its own id.
  pub record IsValid (b : Buffer D F) : Type 0 where
    pub days : IsSorted b.by_day
    pub series : AllValues IsSorted b.by_day
    pub rows : IsSorted b.new_series
    pub count : b.sample_count ≡ total b.by_day % 2 ^ 64
    pub bytes : b.bytes_estimate ≡ 32 * total b.by_day % 2 ^ 64
    pub catalogued :
        (day : D) (id : ℤ)
        → ¬ (points_at day id b.by_day ≡ [])
        → (contains id b.known_series || contains_key id b.new_series) ≡ true
    pub fresh :
        (id : ℤ) (e : NewSeriesEntry)
        → get id b.new_series ≡ some e
        → contains id b.known_series ≡ false
    pub own_id : (id : ℤ) (e : NewSeriesEntry) → get id b.new_series ≡ some e → e.series_id ≡ id

module _ {D F : Type 0} ⦃o : Ord D⦄ ⦃c : Chrono D⦄ where
  total-insert_one :
      (s : ValidatedSample F) (b : Buffer D F)
      → IsValid b
      → total (insert_one s b).by_day ≡ total b.by_day + 1
  unfolding insert_one
  total-insert_one s b v =
      let add : List (ℤ × F) → List (ℤ × F) = λ points. points ++ ((s.ts_us, s.value) ∷ []) in
      let day : D = day_of_us s.ts_us in
      let by_series : BTreeMap ℤ (List (ℤ × F)) = get_or [] day b.by_day in
      let sorted = AllValues-get_or IsSorted [] day b.by_day tt v.series in
      omega (
        arith,
        sum_by-entry_or points_in [] day (entry_or [] s.series_id add) b.by_day refl v.days,
        sum_by-entry_or length [] s.series_id add by_series refl sorted,
        length-append (get_or [] s.series_id by_series) ((s.ts_us, s.value) ∷ []),
      )

  by_day-insert_one :
      (s : ValidatedSample F) (b : Buffer D F)
      → IsValid b
      → IsSorted (insert_one s b).by_day × AllValues IsSorted (insert_one s b).by_day
  unfolding insert_one
  by_day-insert_one s b v =
      let add : List (ℤ × F) → List (ℤ × F) = λ points. points ++ ((s.ts_us, s.value) ∷ []) in
      let day : D = day_of_us s.ts_us in
      let by_series : BTreeMap ℤ (List (ℤ × F)) = get_or [] day b.by_day in
      (
        insert-IsSorted day (entry_or [] s.series_id add by_series) b.by_day v.days,
        AllValues-insert IsSorted day (entry_or [] s.series_id add by_series) b.by_day
            (insert-IsSorted s.series_id (add (get_or [] s.series_id by_series)) by_series
              (AllValues-get_or IsSorted [] day b.by_day tt v.series))
            v.series,
      )

  counters-insert_one :
      (s : ValidatedSample F) (b : Buffer D F)
      → ((insert_one s b).sample_count ≡ (b.sample_count + 1) % 2 ^ 64)
        × ((insert_one s b).bytes_estimate ≡ (b.bytes_estimate + 32) % 2 ^ 64)
  unfolding insert_one
  counters-insert_one s b = (refl, refl)

  rows-insert_one :
      (s : ValidatedSample F) (b : Buffer D F)
      → IsSorted b.new_series
      → IsSorted (insert_one s b).new_series
  unfolding insert_one
  rows-insert_one s b h = ground (arith, insert-IsSorted s.series_id (entry_of s) b.new_series h)

  catalogued-insert_one :
      (s : ValidatedSample F) (b : Buffer D F) (day : D) (id : ℤ)
      → IsValid b
      → ¬ (points_at day id (insert_one s b).by_day ≡ [])
      → (contains id (insert_one s b).known_series || contains_key id (insert_one s b).new_series)
        ≡ true
  catalogued-insert_one s b day id v h = elim (Bool-cases (is_empty (points_at day id b.by_day))) [
    | inr some_before ↦ ground (
      arith,
      known-insert_one s b,
      new-insert_one id s b,
      v.catalogued day id (ne-nil_of_is_empty (points_at day id b.by_day) some_before),
    )
    | inl none_before ↦ elim (Bool-cases (id =? s.series_id)) [
      | inl same ↦ ground (arith, known-insert_one s b, new-insert_one id s b)
      | inr other ↦ absurd (
          h (
            ground (
              arith,
              points_at-insert_one day id s b,
              eq-nil_of_is_empty (points_at day id b.by_day) none_before,
            )))
    ]
  ]

  pub insert_one-IsValid :
      (s : ValidatedSample F) (b : Buffer D F) → IsValid b → IsValid (insert_one s b)
  insert_one-IsValid s b v = record {
    days = (by_day-insert_one s b v).0;
    series = (by_day-insert_one s b v).1;
    rows = rows-insert_one s b v.rows;
    count = omega (arith, total-insert_one s b v, counters-insert_one s b, v.count);
    bytes = omega (arith, total-insert_one s b v, counters-insert_one s b, v.bytes);
    catalogued = λ day id h. catalogued-insert_one s b day id v h;
    fresh = λ id e h. ground (arith, known-insert_one s b, new-insert_one id s b, v.fresh id e);
    own_id = λ id e h. ground (arith, new-insert_one id s b, v.own_id id e, =?-eq id s.series_id);
  }

  pub insert_each-IsValid :
      (samples : List (ValidatedSample F)) (b : Buffer D F)
      → IsValid b
      → IsValid (insert_each samples b)
  unfolding insert_each
  insert_each-IsValid [] b v = v
  insert_each-IsValid (s ∷ samples) b v =
      insert_each-IsValid samples (insert_one s b) (insert_one-IsValid s b v)

  -- The sequence number alone changes.
  renumbered-IsValid :
      (n : ℕ) (b : Buffer D F) → IsValid b → IsValid (record b { max_record_seq = n })
  renumbered-IsValid n b v = record {
    days = v.days;
    series = v.series;
    rows = v.rows;
    count = v.count;
    bytes = v.bytes;
    catalogued = v.catalogued;
    fresh = v.fresh;
    own_id = v.own_id;
  }

  -- A batch keeps the invariant of the buffer: days, series and new rows stay in strictly ascending
  -- key order, `sample_count` is the number of points and `bytes_estimate` 32 times that, both as
  -- `usize`, every series that has a point is known or has a new row, and new rows are for unknown
  -- series only, each under its own id.
  pub insert_batch-IsValid :
      (record_seq : ℕ) (samples : List (ValidatedSample F)) (b : Buffer D F)
      → IsValid b
      → IsValid (insert_batch record_seq samples b)
  unfolding insert_batch
  insert_batch-IsValid record_seq samples b v =
      elim (Bool-cases (ltb b.max_record_seq record_seq)) [
        | inl e ↦ rw e (insert_each-IsValid samples _ (renumbered-IsValid record_seq b v))
        | inr e ↦ rw e (insert_each-IsValid samples b v)
      ]

module _ {D F : Type 0} ⦃o : Ord D⦄ where
  -- A buffer that starts with known series satisfies the invariant.
  pub with_known_series-IsValid : (seed : List ℤ) → IsValid (with_known_series {D = D} {F = F} seed)
  unfolding with_known_series get
  with_known_series-IsValid seed = record {
    days = tt;
    series = tt;
    rows = tt;
    count = refl;
    bytes = refl;
    catalogued = λ day id h. absurd (h refl);
    fresh = λ id e h. cc;
    own_id = λ id e h. cc;
  }

  -- `take` leaves a buffer that satisfies the invariant.
  pub take_snapshot-IsValid : (b : Buffer D F) → IsValid (take_snapshot b).1
  unfolding take_snapshot get
  take_snapshot-IsValid b = record {
    days = tt;
    series = tt;
    rows = tt;
    count = refl;
    bytes = refl;
    catalogued = λ day id h. absurd (h refl);
    fresh = λ id e h. cc;
    own_id = λ id e h. cc;
  }
