-- ===== src/Tables.antt =====
-- src/iceberg_table.rs: the two tables, their schemas, and that they are there when the service
-- starts. The catalog and the builders of schemas and partitions (the crate iceberg) are parameters.
-- Messages of errors are left out.
pub mod Ensure
mod Tests
use skaldberg.Base.{ℕ, Bool, true, false, Option, none, some, List, [], ◌∷◌, if◌then◌else◌}
use skaldberg.Text.{Text, lit}

abbrev pub namespace_name : Text
namespace_name = lit "skaldberg"

abbrev pub series_table : Text
series_table = lit "series"

abbrev pub samples_table : Text
samples_table = lit "samples"

pub data PrimitiveType : Type 0 where
  long : PrimitiveType
  string : PrimitiveType
  timestamp : PrimitiveType
  double : PrimitiveType

-- A map has the field ids of its keys and values, the values required or not.
pub data FieldType : Type 0 where
  primitive : PrimitiveType → FieldType
  map_type :
      (key_id : ℕ) (key : PrimitiveType) (value_id : ℕ) (value : PrimitiveType) (required : Bool)
      → FieldType

-- `NestedField::required`
pub record NestedField : Type 0 where
  pub id : ℕ
  pub name : Text
  pub field_type : FieldType

-- `field_ids` within the schemas
abbrev pub series_fields : List NestedField
series_fields =
    record { id = 1; name = lit "series_id"; field_type = FieldType.primitive PrimitiveType.long }
    ∷ record {
      id = 2;
      name = lit "metric_name";
      field_type = FieldType.primitive PrimitiveType.string;
    }
    ∷ record {
      id = 3;
      name = lit "labels";
      field_type = FieldType.map_type 4 PrimitiveType.string 5 PrimitiveType.string true;
    }
    ∷ []

abbrev pub samples_fields : List NestedField
samples_fields =
    record { id = 1; name = lit "series_id"; field_type = FieldType.primitive PrimitiveType.long }
    ∷ record {
      id = 2;
      name = lit "timestamp";
      field_type = FieldType.primitive PrimitiveType.timestamp;
    }
    ∷ record { id = 3; name = lit "value"; field_type = FieldType.primitive PrimitiveType.double }
    ∷ []

pub record TableCreation (Schema Spec : Type 0) : Type 0 where
  pub name : Text
  pub schema : Schema
  pub partition_spec : Option Spec

-- The builders; `day_partition schema id name` is the spec 0 with the transform `Day` of a field.
pub record Builders (Schema Spec : Type 0) : Type 0 where
  pub build_schema : List NestedField → Option Schema
  pub day_partition : Schema → ℕ → Text → Option Spec

-- The catalog on the state `S`; a Boolean is success, and a check that fails gives nothing.
pub record Catalog (S C : Type 0) : Type 0 where
  pub namespace_exists : Text → S → Option Bool
  pub create_namespace : Text → S → Bool × S
  pub table_exists : Text → Text → S → Option Bool
  pub create_table : Text → C → S → Bool × S

-- `IcebergTables`
pub record IcebergTables : Type 0 where
  pub namespace : Text
  pub series : Text × Text
  pub samples : Text × Text

abbrev pub the_tables : IcebergTables
the_tables = record {
  namespace = namespace_name;
  series = (namespace_name, series_table);
  samples = (namespace_name, samples_table);
}

module _ {Schema Spec : Type 0} (b : Builders Schema Spec) where
  abbrev pub series_iceberg_schema : Option Schema
  series_iceberg_schema = b.build_schema series_fields

  abbrev pub samples_iceberg_schema : Option Schema
  samples_iceberg_schema = b.build_schema samples_fields

  unfoldable pub build_series_creation : Option (TableCreation Schema Spec)
  build_series_creation = elim series_iceberg_schema [
    | none ↦ none
    | some schema ↦ some (record { name = series_table; schema = schema; partition_spec = none })
  ]

  unfoldable pub build_samples_creation : Option (TableCreation Schema Spec)
  build_samples_creation = elim samples_iceberg_schema [
    | none ↦ none
    | some schema ↦ elim (b.day_partition schema 2 (lit "timestamp_day")) [
      | none ↦ none
      | some spec ↦
          some (record { name = samples_table; schema = schema; partition_spec = some spec })
    ]
  ]

module _ {S C : Type 0} (catalog : Catalog S C) where
  unfoldable pub ensure_namespace : S → Bool × S
  ensure_namespace s = elim (catalog.namespace_exists namespace_name s) [
    | none ↦ (false, s)
    | some true ↦ (true, s)
    | some false ↦ catalog.create_namespace namespace_name s
  ]

  -- A table is created only if it is not there.
  unfoldable pub ensure_table : Text → Option C → S → Bool × S
  ensure_table name creation s = elim (catalog.table_exists namespace_name name s) [
    | none ↦ (false, s)
    | some true ↦ (true, s)
    | some false ↦ elim creation [
      | none ↦ (false, s)
      | some c ↦ catalog.create_table namespace_name c s
    ]
  ]

-- A `?`
abbrev pub and_step : {S A : Type 0} → Bool × S → (S → Option A × S) → Option A × S
and_step (done, s) next = if done then next s else (none, s)

module _ {S Schema Spec : Type 0} (b : Builders Schema Spec)
    (catalog : Catalog S (TableCreation Schema Spec)) where
  abbrev pub finish : S → Option IcebergTables × S
  finish s = (some the_tables, s)

  -- From the samples table on, and from the series table on
  abbrev pub ensure_samples : S → Option IcebergTables × S
  ensure_samples s =
      and_step (ensure_table catalog samples_table (build_samples_creation b) s) finish

  abbrev pub ensure_both : S → Option IcebergTables × S
  ensure_both s =
      and_step (ensure_table catalog series_table (build_series_creation b) s) ensure_samples

  unfoldable pub ensure_skaldberg_tables : S → Option IcebergTables × S
  unfolding ensure_namespace ensure_table build_series_creation build_samples_creation
  ensure_skaldberg_tables s = and_step (ensure_namespace catalog s) ensure_both
