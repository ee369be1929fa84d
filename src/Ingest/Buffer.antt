-- ===== src/Ingest/Buffer.antt =====
-- src/ingest/buffer.rs: the accumulator between the log and the tables. A day is a `NaiveDate` of
-- chrono, taken with its order and the two calls of chrono as a parameter. `usize` wraps at 2^64.
pub mod Points
pub mod Series
pub mod Invariant
use skaldberg.Base.{
  ℕ, ◌+◌, ◌*◌, ◌%◌, ◌^◌, Bool, not, ◌&&◌, Option, none, some, List, [], ◌∷◌, ◌++◌, ◌==◌, ltb,
  if◌then◌else◌,
}
use skaldberg.Base.Int.{ℤ, div_euclid, rem_euclid}
use skaldberg.Order.{Ord, int_ord}
use skaldberg.HashSet.{HashSet, contains, add_all}
use skaldberg.BTreeMap.{BTreeMap, insert, contains_key, entry_or, keys, get}
use skaldberg.Text.{Text}
use skaldberg.Ingest.Types.{ValidatedSample}

-- chrono: `DateTime::from_timestamp(secs, nanos).map(|dt| dt.date_naive())`, and 1970-01-01.
pub record Chrono (D : Type 0) : Type 0 where
  pub from_timestamp : ℤ → ℕ → Option D
  pub epoch : D

abbrev pub bytes_per_sample : ℕ
bytes_per_sample = 32

pub record NewSeriesEntry : Type 0 where
  pub series_id : ℤ
  pub metric : Text
  pub labels : BTreeMap Text Text

abbrev pub ByDay : Type 0 → Type 0 → Type 0
ByDay D F = BTreeMap D (BTreeMap ℤ (List (ℤ × F)))

pub record Buffer (D F : Type 0) : Type 0 where
  pub by_day : ByDay D F
  pub new_series : BTreeMap ℤ NewSeriesEntry
  pub known_series : HashSet
  pub bytes_estimate : ℕ
  pub sample_count : ℕ
  pub max_record_seq : ℕ

pub record Snapshot (D F : Type 0) : Type 0 where
  pub by_day : ByDay D F
  pub new_series : BTreeMap ℤ NewSeriesEntry
  pub bytes_estimate : ℕ
  pub sample_count : ℕ
  pub max_record_seq : ℕ

module _ {D F : Type 0} where
  unfoldable pub with_known_series : List ℤ → Buffer D F
  unfolding add_all
  with_known_series seed = record {
    by_day = [];
    new_series = [];
    known_series = add_all seed [];
    bytes_estimate = 0;
    sample_count = 0;
    max_record_seq = 0;
  }

  unfoldable pub new : Buffer D F
  unfolding with_known_series
  new = with_known_series []

  -- `is_empty`
  unfoldable pub has_no_samples : Buffer D F → Bool
  has_no_samples b = b.sample_count == 0

  -- `take`
  unfoldable pub take_snapshot : Buffer D F → Snapshot D F × Buffer D F
  unfolding add_all
  take_snapshot b = (
    record {
      by_day = b.by_day;
      new_series = b.new_series;
      bytes_estimate = b.bytes_estimate;
      sample_count = b.sample_count;
      max_record_seq = b.max_record_seq;
    },
    record {
      by_day = [];
      new_series = [];
      known_series = add_all (keys b.new_series) b.known_series;
      bytes_estimate = 0;
      sample_count = 0;
      max_record_seq = 0;
    },
  )

unfoldable pub day_of_us : {D : Type 0} ⦃c : Chrono D⦄ → ℤ → D
unfolding div_euclid rem_euclid
day_of_us ⦃c⦄ ts_us =
    let s = div_euclid ts_us 1_000_000 in
    let ns = rem_euclid ts_us 1_000_000 * 1_000 % 2 ^ 32 in
    elim (c.from_timestamp s ns) [ some date ↦ date | none ↦ c.epoch ]

module _ {D F : Type 0} ⦃o : Ord D⦄ ⦃c : Chrono D⦄ where
  unfoldable pub insert_one : ValidatedSample F → Buffer D F → Buffer D F
  unfolding insert get contains
  insert_one s b = record b {
    new_series =
        if not (contains s.series_id b.known_series) && not (contains_key s.series_id b.new_series)
        then insert s.series_id
            (record { series_id = s.series_id; metric = s.metric; labels = s.labels }) b.new_series
        else b.new_series;
    by_day =
        entry_or [] (day_of_us s.ts_us)
          (entry_or [] s.series_id (λ points. points ++ ((s.ts_us, s.value) ∷ []))) b.by_day;
    bytes_estimate = (b.bytes_estimate + bytes_per_sample) % 2 ^ 64;
    sample_count = (b.sample_count + 1) % 2 ^ 64;
  }

  unfoldable pub insert_each : List (ValidatedSample F) → Buffer D F → Buffer D F
  unfolding insert_one
  insert_each [] b = b
  insert_each (s ∷ samples) b = insert_each samples (insert_one s b)

  unfoldable pub insert_batch : ℕ → List (ValidatedSample F) → Buffer D F → Buffer D F
  unfolding insert_each
  insert_batch record_seq samples b =
      insert_each samples
        (if ltb b.max_record_seq record_seq then record b { max_record_seq = record_seq } else b)
