-- ===== src/Ingest/Validate/SeriesId.antt =====
-- The series id of src/ingest/validate.rs: its range, and that it does not depend on the order in
-- which a request lists its labels.
use skaldberg.Base.{ℕ, ◌/◌, ◌^◌, ◌<◌, ◌≡◌, ◌∙◌, List, ◌∷◌, ◌++◌, ok, arith, refl}
use skaldberg.Base.Int.{pos, neg_part, pos_part, wrap_i64-eq_self}
use skaldberg.Order.{nat_ord, list_ord}
use skaldberg.BTreeMap.{BTreeMap, get}
use skaldberg.BTreeMap.Laws.{HasDistinctKeys, from_iter-order_irrelevant}
use skaldberg.BTreeMap.Entries.{All-get, All-of_get}
use skaldberg.Text.{Text}
use skaldberg.Float.{Float}
use skaldberg.Ingest.Types.{RawSample, ValidatedSample}
use skaldberg.Ingest.Validate.{derive_series_id, label_bytes, validate}
use skaldberg.Ingest.Validate.Outcome.{IsClock, IsLabel, validate_iff}

-- `xxh3_64` returns a `u64`.
abbrev pub IsHash64 : (List ℕ → ℕ) → Type 0
IsHash64 xxh3_64 = (bytes : List ℕ) → xxh3_64 bytes < 2 ^ 64

-- For a hash of 64 bits the id is the upper 63 bits of the hash of the metric and the labels, and
-- so neither negative nor beyond the range of an `i64`.
pub derive_series_id_range :
    (xxh3_64 : List ℕ → ℕ) (metric : Text) (labels : BTreeMap Text Text)
    → IsHash64 xxh3_64
    → (neg_part (derive_series_id xxh3_64 metric labels) ≡ 0)
      × (pos_part (derive_series_id xxh3_64 metric labels) < 2 ^ 63)
unfolding derive_series_id
derive_series_id_range xxh3_64 metric labels h =
    rw
      (wrap_i64-eq_self (pos (xxh3_64 (metric ++ (0 ∷ label_bytes labels)) / 2))
        (omega (arith, h (metric ++ (0 ∷ label_bytes labels)))))
      (refl, omega (arith, h (metric ++ (0 ∷ label_bytes labels))))

module _ {F : Type 0} ⦃f : Float F⦄ (xxh3_64 : List ℕ → ℕ) (raw : RawSample F)
    (labels' : List (Text × Text)) (now : ℕ) where
  -- A request's labels are a `HashMap`, which is iterated in any order. Under a clock before the
  -- year 287000, if `validate` accepts a sample then it accepts it with its labels in any other
  -- order, with the same result: the same series id, labels, timestamp and value.
  pub validate-label_order :
      (s : ValidatedSample F)
      → IsClock now
      → HasDistinctKeys raw.labels
      → HasDistinctKeys labels'
      → ((k : Text) → get k raw.labels ≡ get k labels')
      → validate xxh3_64 raw (pos now) ≡ ok s
      → validate xxh3_64 (record raw { labels = labels' }) (pos now) ≡ ok s
  validate-label_order s c d d' same h =
      let (a, e) = (validate_iff xxh3_64 raw now s c).0 h in
      let sorted = from_iter-order_irrelevant raw.labels labels' d d' same in
      let raw' : RawSample F = record raw { labels = labels' } in
      (validate_iff xxh3_64 raw' now s c).1 (
        record {
          name = a.name;
          labels =
              All-of_get IsLabel labels' d'
                (λ k v p. All-get IsLabel raw.labels k v a.labels (same k ∙ p));
          finite = a.finite;
          window = a.window;
        },
        cc (e, sorted),
      )
