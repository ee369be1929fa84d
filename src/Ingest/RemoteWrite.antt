-- ===== src/Ingest/RemoteWrite.antt =====
-- src/ingest/remote_write.rs: Prometheus Remote-Write 1.0. The snappy and protobuf decoders (the
-- crates snap and prost) are a parameter. A `HashMap` is its entries, in an order of iteration.
pub mod Labels
pub mod Flatten
pub mod Decode
use skaldberg.Base.{
  ℕ, ◌+◌, ◌*◌, ◌%◌, ◌^◌, Bool, true, false, Option, none, some, List, [], ◌∷◌, ◌++◌, ltb,
  if◌then◌else◌, length, Result, ok, err, map_err, ◌>>=◌, is_empty,
}
use skaldberg.Base.Int.{ℤ}
use skaldberg.Order.{◌=?◌, list_ord, nat_ord}
use skaldberg.Text.{Text, lit, starts_with}
use skaldberg.Ingest.Types.{RawSample}

abbrev pub max_decompressed_bytes : ℕ
max_decompressed_bytes = 32 * 1024 * 1024

pub record Label : Type 0 where
  pub name : Text
  pub value : Text

pub record Sample (F : Type 0) : Type 0 where
  pub value : F
  pub timestamp : ℤ

pub record TimeSeries (F : Type 0) : Type 0 where
  pub labels : List Label
  pub samples : List (Sample F)

pub record WriteRequest (F : Type 0) : Type 0 where
  pub timeseries : List (TimeSeries F)

-- `S` and `P` are the errors of snap and of prost.
pub data DecodeError (S P : Type 0) : Type 0 where
  snappy : S → DecodeError S P
  too_large : (actual max : ℕ) → DecodeError S P
  protobuf : P → DecodeError S P

-- snap's `decompress_len` and `decompress_vec`, and prost's `WriteRequest::decode`
pub record Codec (F S P : Type 0) : Type 0 where
  pub decompress_len : List ℕ → Option ℕ
  pub decompress_vec : List ℕ → Result S (List ℕ)
  pub decode : List ℕ → Result P (WriteRequest F)

pub record ConversionStats : Type 0 where
  pub series_total : ℕ
  pub series_dropped_no_name : ℕ
  pub samples_emitted : ℕ

module _ {F S P : Type 0} (c : Codec F S P) where
  unfoldable pub check_size : List ℕ → Result (DecodeError S P) (List ℕ)
  check_size body =
      if ltb max_decompressed_bytes (length body)
      then err (too_large (length body) max_decompressed_bytes)
      else ok body

  -- Behind the check of the declared length
  unfoldable pub decode_body : List ℕ → Result (DecodeError S P) (WriteRequest F)
  decode_body compressed = do
    body ← map_err snappy (c.decompress_vec compressed)
    body ← check_size body
    map_err protobuf (c.decode body)

  unfoldable pub decode_write_request : List ℕ → Result (DecodeError S P) (WriteRequest F)
  decode_write_request compressed =
      let rest = decode_body compressed in
      elim (c.decompress_len compressed) [
        | none ↦ rest
        | some declared ↦
            if ltb max_decompressed_bytes declared
            then err (too_large declared max_decompressed_bytes)
            else rest
      ]

-- `HashMap::insert`
unfoldable pub insert_label : Text → Text → List (Text × Text) → List (Text × Text)
insert_label k v [] = (k, v) ∷ []
insert_label k v ((j, u) ∷ labels) =
    let rest = insert_label k v labels in if k =? j then (k, v) ∷ labels else (j, u) ∷ rest

-- The loop over the labels of a series: its metric so far and its labels so far.
unfoldable pub scan_labels :
    List Label → Option Text → List (Text × Text) → Option Text × List (Text × Text)
scan_labels [] metric labels = (metric, labels)
scan_labels (l ∷ ls) metric labels =
    let named = scan_labels ls (some l.value) labels in
    let dropped = scan_labels ls metric labels in
    let kept = scan_labels ls metric (insert_label l.name l.value labels) in
    if l.name =? lit "__name__"
    then named
    else if starts_with (lit "__") l.name
    then dropped
    else kept

-- `Some(m) if !m.is_empty() => m`
abbrev pub metric_of : Option Text → Option Text
metric_of none = none
metric_of (some []) = none
metric_of (some (c ∷ m)) = some (c ∷ m)

module _ {F : Type 0} where
  -- The loop over the samples of a series
  unfoldable pub push_samples :
      Text
      → List (Text × Text)
      → List (Sample F)
      → List (RawSample F) × ConversionStats
      → List (RawSample F) × ConversionStats
  push_samples metric labels [] out = out
  push_samples metric labels (s ∷ samples) (out, stats) = push_samples metric labels samples (
    out ++ (record { metric = metric; labels = labels; ts = s.timestamp; value = s.value } ∷ []),
    record stats { samples_emitted = (stats.samples_emitted + 1) % 2 ^ 64 },
  )

  unfoldable pub push_series :
      TimeSeries F → List (RawSample F) × ConversionStats → List (RawSample F) × ConversionStats
  push_series ts (out, stats) =
      let (metric, labels) = scan_labels ts.labels none [] in
      elim (metric_of metric) [
        | none ↦ (
          out,
          record stats { series_dropped_no_name = (stats.series_dropped_no_name + 1) % 2 ^ 64 },
        )
        | some m ↦ push_samples m labels ts.samples (out, stats)
      ]

  unfoldable pub push_all :
      List (TimeSeries F)
      → List (RawSample F) × ConversionStats
      → List (RawSample F) × ConversionStats
  push_all [] out = out
  push_all (ts ∷ timeseries) out = push_all timeseries (push_series ts out)

  unfoldable pub flatten_write_request : WriteRequest F → List (RawSample F) × ConversionStats
  flatten_write_request req = push_all req.timeseries (
    [],
    record {
      series_total = length req.timeseries % 2 ^ 64;
      series_dropped_no_name = 0;
      samples_emitted = 0;
    },
  )
