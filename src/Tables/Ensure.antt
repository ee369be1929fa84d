-- ===== src/Tables/Ensure.antt =====
-- `ensure_skaldberg_tables` of src/iceberg_table.rs makes what is missing, and no more.
use skaldberg.Base.{
  ◌≡◌, refl, sym, ◌∙◌, Bool, true, false, inl, inr, Option, none, some, Option-cases, some-inj,
  arith, ap,
}
use skaldberg.Text.{Text, lit}
use skaldberg.Tables.{
  namespace_name, series_table, samples_table, TableCreation, Builders, Catalog, IcebergTables,
  and_step, finish, ensure_samples, ensure_both, series_iceberg_schema, samples_iceberg_schema,
  build_series_creation, build_samples_creation, ensure_namespace, ensure_table,
  ensure_skaldberg_tables,
}

abbrev pub is_there : {A : Type 0} → Option A → Bool
is_there none = false
is_there (some a) = true

-- What iceberg says of a catalog: `look` is what a table of the namespace was created as. A check that
-- succeeds tells what is there, and a creation that succeeds makes the namespace or the table, and
-- loses no other table.
pub record CatalogLaws {S Schema Spec : Type 0} (catalog : Catalog S (TableCreation Schema Spec))
    : Type 0 where
  pub has_namespace : S → Bool
  pub look : S → Text → Option (TableCreation Schema Spec)
  pub check_namespace :
      (s : S) (b : Bool) → catalog.namespace_exists namespace_name s ≡ some b → b ≡ has_namespace s
  pub made_namespace :
      (s : S)
      → (catalog.create_namespace namespace_name s).0 ≡ true
      → (has_namespace (catalog.create_namespace namespace_name s).1 ≡ true)
        × ((n : Text) → look (catalog.create_namespace namespace_name s).1 n ≡ look s n)
  pub check_table :
      (n : Text) (s : S) (b : Bool)
      → catalog.table_exists namespace_name n s ≡ some b
      → b ≡ is_there (look s n)
  pub made_table :
      (c : TableCreation Schema Spec) (s : S)
      → (catalog.create_table namespace_name c s).0 ≡ true
      → (has_namespace (catalog.create_table namespace_name c s).1 ≡ has_namespace s)
        × (look (catalog.create_table namespace_name c s).1 c.name ≡ some c)
        × ((n : Text) (v : TableCreation Schema Spec)
            → look s n ≡ some v
            → look (catalog.create_table namespace_name c s).1 n ≡ some v)

module _ {S A : Type 0} where
  and_step-some :
      (r : Bool × S) (next : S → Option A × S) (a : A)
      → (and_step r next).0 ≡ some a
      → (r.0 ≡ true) × (and_step r next ≡ next r.1)
  and_step-some (true, s) next a h = (refl, refl)
  and_step-some (false, s) next a h = absurd (ground (arith, h))

  and_step-same :
      (r : Bool × S) (next : S → Option A × S) (s : S)
      → r.1 ≡ s
      → (next s).1 ≡ s
      → (and_step r next).1 ≡ s
  and_step-same (true, s') next s h n = ap (λ u. (next u).1) h ∙ n
  and_step-same (false, s') next s h n = h

module _ {S Schema Spec : Type 0} (catalog : Catalog S (TableCreation Schema Spec))
    (law : CatalogLaws catalog) where
  abbrev pub There : Text → S → Type 0
  There n s = (c : TableCreation Schema Spec) × (law.look s n ≡ some c)

  -- No table is lost or changed.
  abbrev pub Keeps : S → S → Type 0
  Keeps s s' =
      (n : Text) (v : TableCreation Schema Spec) → law.look s n ≡ some v → law.look s' n ≡ some v

  there : (n : Text) (s : S) → true ≡ is_there (law.look s n) → There n s
  there n s h = elim (Option-cases (law.look s n)) [
    | inl e ↦ absurd (ground (arith, h, e))
    | inr (c, e) ↦ (c, e)
  ]

  ensure_namespace-Keeps :
      (s : S)
      → (ensure_namespace catalog s).0 ≡ true
      → (law.has_namespace (ensure_namespace catalog s).1 ≡ true)
        × Keeps s (ensure_namespace catalog s).1
  unfolding ensure_namespace
  ensure_namespace-Keeps s h = elim (Option-cases (catalog.namespace_exists namespace_name s)) [
    | inl e ↦ absurd (ground (arith, rw (e, ensure_namespace) at h))
    | inr (true, e) ↦ rw (e, ensure_namespace) (sym (law.check_namespace s true e), λ n v l. l)
    | inr (false, e) ↦
        let (made, same) = law.made_namespace s (rw (e, ensure_namespace) at h) in
        rw (e, ensure_namespace) (made, λ n v l. same n ∙ l)
  ]

  ensure_table-Keeps :
      (name : Text) (creation : Option (TableCreation Schema Spec)) (s : S)
      → ((c : TableCreation Schema Spec) → creation ≡ some c → c.name ≡ name)
      → (ensure_table catalog name creation s).0 ≡ true
      → (law.has_namespace (ensure_table catalog name creation s).1 ≡ law.has_namespace s)
        × There name (ensure_table catalog name creation s).1
        × Keeps s (ensure_table catalog name creation s).1
  unfolding ensure_table
  ensure_table-Keeps name creation s named h =
      elim (Option-cases (catalog.table_exists namespace_name name s)) [
        | inl e ↦ absurd (ground (arith, rw (e, ensure_table) at h))
        | inr (true, e) ↦
            rw (e, ensure_table) (refl, there name s (law.check_table name s true e), λ n v l. l)
        | inr (false, e) ↦ elim (Option-cases creation) [
          | inl m ↦ absurd (ground (arith, rw (m, ensure_table) at rw (e, ensure_table) at h))
          | inr (c, m) ↦
              let (kept, made, keeps) =
                law.made_table c s (rw (m, ensure_table) at rw (e, ensure_table) at h) in
              rw (e, ensure_table)
                (rw (m, ensure_table) (kept, (c, ap (law.look _) (sym (named c m)) ∙ made), keeps))
        ]
      ]

  -- What is there is left alone.
  ensure_namespace-same : (s : S) → law.has_namespace s ≡ true → (ensure_namespace catalog s).1 ≡ s
  unfolding ensure_namespace
  ensure_namespace-same s h = elim (Option-cases (catalog.namespace_exists namespace_name s)) [
    | inl e ↦ rw (e, ensure_namespace) refl
    | inr (true, e) ↦ rw (e, ensure_namespace) refl
    | inr (false, e) ↦ absurd (ground (arith, law.check_namespace s false e, h))
  ]

  ensure_table-same :
      (name : Text) (creation : Option (TableCreation Schema Spec)) (s : S)
      → There name s
      → (ensure_table catalog name creation s).1 ≡ s
  unfolding ensure_table
  ensure_table-same name creation s (c, h) =
      elim (Option-cases (catalog.table_exists namespace_name name s)) [
        | inl e ↦ rw (e, ensure_table) refl
        | inr (true, e) ↦ rw (e, ensure_table) refl
        | inr (false, e) ↦ absurd (ground (arith, law.check_table name s false e, h))
      ]

module _ {S Schema Spec : Type 0} (b : Builders Schema Spec)
    (catalog : Catalog S (TableCreation Schema Spec)) (law : CatalogLaws catalog) where
  build_series_creation-name :
      (c : TableCreation Schema Spec) → build_series_creation b ≡ some c → c.name ≡ series_table
  unfolding build_series_creation
  build_series_creation-name c h = elim (Option-cases (series_iceberg_schema b)) [
    | inl e ↦ absurd (ground (arith, rw (e, build_series_creation) at h))
    | inr (schema, e) ↦
        ap (λ (c : TableCreation Schema Spec). c.name)
          (sym (some-inj (rw (e, build_series_creation) at h)))
  ]

  build_samples_creation-name :
      (c : TableCreation Schema Spec) → build_samples_creation b ≡ some c → c.name ≡ samples_table
  unfolding build_samples_creation
  build_samples_creation-name c h = elim (Option-cases (samples_iceberg_schema b)) [
    | inl e ↦ absurd (ground (arith, rw (e, build_samples_creation) at h))
    | inr (schema, e) ↦
        let h₁ = rw (e, build_samples_creation) at h in
        elim (Option-cases (b.day_partition schema 2 (lit "timestamp_day"))) [
          | inl p ↦ absurd (ground (arith, rw p at h₁))
          | inr (spec, p) ↦
              ap (λ (c : TableCreation Schema Spec). c.name) (sym (some-inj (rw p at h₁)))
        ]
  ]

  -- Namespace and both tables are there.
  abbrev pub AllThere : S → Type 0
  AllThere s =
      (law.has_namespace s ≡ true)
      × There catalog law series_table s
      × There catalog law samples_table s

  ensure_skaldberg_tables-same : (s : S) → AllThere s → (ensure_skaldberg_tables b catalog s).1 ≡ s
  unfolding ensure_skaldberg_tables
  ensure_skaldberg_tables-same s (ns, series, samples) =
      and_step-same (ensure_namespace catalog s) (ensure_both b catalog) s
        (ensure_namespace-same catalog law s ns)
        (and_step-same (ensure_table catalog series_table (build_series_creation b) s)
          (ensure_samples b catalog) s
          (ensure_table-same catalog law series_table (build_series_creation b) s series)
          (and_step-same (ensure_table catalog samples_table (build_samples_creation b) s)
            (finish b catalog) s
            (ensure_table-same catalog law samples_table (build_samples_creation b) s samples)
            refl))

  -- For a catalog that iceberg's laws hold of: if the tables are ensured, then namespace and both
  -- tables are there, every table that was there before is as it was, and to ensure the tables again
  -- changes nothing, whether or not it succeeds.
  pub ensure_skaldberg_tables-AllThere :
      (s : S) (tables : IcebergTables)
      → (ensure_skaldberg_tables b catalog s).0 ≡ some tables
      → let s' = (ensure_skaldberg_tables b catalog s).1 in
        AllThere s' × Keeps catalog law s s' × ((ensure_skaldberg_tables b catalog s').1 ≡ s')
  unfolding ensure_skaldberg_tables
  ensure_skaldberg_tables-AllThere s tables h =
      let (d₀, e₀) = and_step-some (ensure_namespace catalog s) (ensure_both b catalog) tables h in
      let s₀ = (ensure_namespace catalog s).1 in
      let (ns, k₀) = ensure_namespace-Keeps catalog law s d₀ in
      let first = ensure_table catalog series_table (build_series_creation b) s₀ in
      let (d₁, e₁) =
        and_step-some first (ensure_samples b catalog) tables (ap (λ r. r.0) (sym e₀) ∙ h) in
      let (ns₁, (series, l₁), k₁) =
        ensure_table-Keeps catalog law series_table (build_series_creation b) s₀
          build_series_creation-name d₁ in
      let second = ensure_table catalog samples_table (build_samples_creation b) first.1 in
      let (d₂, e₂) =
        and_step-some second (finish b catalog) tables (ap (λ r. r.0) (sym (e₀ ∙ e₁)) ∙ h) in
      let (ns₂, samples, k₂) =
        ensure_table-Keeps catalog law samples_table (build_samples_creation b) first.1
          build_samples_creation-name d₂ in
      let same : (ensure_skaldberg_tables b catalog s).1 ≡ second.1 =
        ap (λ r. r.1) (e₀ ∙ (e₁ ∙ e₂)) in
      let all : AllThere second.1 =
        (ns₂ ∙ (ns₁ ∙ ns), (series, k₂ series_table series l₁), samples) in
      rw same
        (all, (λ n v l. k₂ n v (k₁ n v (k₀ n v l))), ensure_skaldberg_tables-same second.1 all)
