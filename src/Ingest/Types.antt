-- ===== src/Ingest/Types.antt =====
-- src/ingest/types.rs: the request and response shapes, and the sample that cleared validation.
use skaldberg.Base.{ℕ, List}
use skaldberg.Base.Int.{ℤ}
use skaldberg.Text.{Text}
use skaldberg.BTreeMap.{BTreeMap}

-- `labels` is a `HashMap`: its entries in the order in which the map is iterated.
pub record RawSample (F : Type 0) : Type 0 where
  pub metric : Text
  pub labels : List (Text × Text)
  pub ts : ℤ
  pub value : F

pub record IngestRequest (F : Type 0) : Type 0 where
  pub samples : List (RawSample F)

pub record ValidatedSample (F : Type 0) : Type 0 where
  pub series_id : ℤ
  pub metric : Text
  pub labels : BTreeMap Text Text
  pub ts_us : ℤ
  pub value : F

pub record RejectedSample : Type 0 where
  pub index : ℕ
  pub reason : Text

pub record IngestResponse : Type 0 where
  pub accepted : ℕ
  pub rejected : List RejectedSample
