-- ===== src/Tables/Tests.antt =====
-- The theorem about the tables of src/iceberg_table.rs, applied to a catalog in memory.
use skaldberg.Base.{
  ◌≡◌, refl, ap, sym, ℕ, Bool, true, false, Bool-cases, inl, inr, Option, none, some, List,
  some-inj, arith, if◌then◌else◌,
}
use skaldberg.Order.{◌=?◌, =?-eq, list_ord, nat_ord, =?_refl}
use skaldberg.Text.{Text}
use skaldberg.Tables.{
  namespace_name, NestedField, TableCreation, Builders, Catalog, the_tables,
  ensure_skaldberg_tables, build_series_creation, build_samples_creation,
}
use skaldberg.Tables.Ensure.{
  is_there, CatalogLaws, AllThere, Keeps, ensure_skaldberg_tables-AllThere,
}

abbrev Creation : Type 0
Creation = TableCreation (List NestedField) ℕ

abbrev builders : Builders (List NestedField) ℕ
builders = record {
  build_schema = λ fields. some fields;
  day_partition = λ schema id name. some id;
}

-- Whether the namespace is there, and its tables
abbrev State : Type 0
State = Bool × (Text → Option Creation)

abbrev with_table : Creation → State → State
with_table c (made, look) = (made, λ n. if n =? c.name then some c else look n)

abbrev memory : Catalog State Creation
memory = record {
  namespace_exists = λ n s. some s.0;
  create_namespace = λ n s. (true, (true, s.1));
  table_exists = λ ns n s. some (is_there (s.1 n));
  create_table = λ ns c s. if is_there (s.1 c.name) then (false, s) else (true, with_table c s);
}

create_table-made :
    (c : Creation) (s : State)
    → (memory.create_table namespace_name c s).0 ≡ true
    → ((memory.create_table namespace_name c s).1.0 ≡ s.0)
      × ((memory.create_table namespace_name c s).1.1 c.name ≡ some c)
      × ((n : Text) (v : Creation)
          → s.1 n ≡ some v
          → (memory.create_table namespace_name c s).1.1 n ≡ some v)
create_table-made c s h = elim (Bool-cases (is_there (s.1 c.name))) [
  | inl e ↦ absurd (ground (arith, rw e at h))
  | inr e ↦ rw e (
    refl,
    rw (=?_refl c.name) refl,
    λ n v l. elim (Bool-cases (n =? c.name)) [
      | inl f ↦ absurd (ground (arith, e, l, ap s.1 (=?-eq n c.name f)))
      | inr f ↦ rw f l
    ],
  )
]

abbrev memory_laws : CatalogLaws memory
memory_laws = record {
  has_namespace = λ s. s.0;
  look = λ s. s.1;
  check_namespace = λ s b h. sym (some-inj h);
  made_namespace = λ s h. (refl, λ n. refl);
  check_table = λ n s b h. sym (some-inj h);
  made_table = create_table-made;
}

abbrev empty : State
empty = (false, λ n. none)

ensure_skaldberg_tables-AllThere_example :
    let s' = (ensure_skaldberg_tables builders memory empty).1 in
    AllThere builders memory memory_laws s'
    × Keeps memory memory_laws empty s'
    × ((ensure_skaldberg_tables builders memory s').1 ≡ s')
unfolding ensure_skaldberg_tables build_series_creation build_samples_creation
ensure_skaldberg_tables-AllThere_example =
    ensure_skaldberg_tables-AllThere builders memory memory_laws empty the_tables refl
