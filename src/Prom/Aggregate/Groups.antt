-- ===== src/Prom/Aggregate/Groups.antt =====
-- What the grouping of src/prometheus.rs puts under each key.
use skaldberg.Base.{◌≡◌, refl, sym, none, some, List, [], ◌∷◌, ◌++◌, arith, if◌then◌else◌, All}
use mathlib.Core.List.{append_assoc, append-nil}
use skaldberg.Order.{Ord, ◌=?◌, =?-eq}
use skaldberg.BTreeMap.{BTreeMap, get, get_or, entry_or}
use skaldberg.BTreeMap.Laws.{
  get_or-entry_or, IsSorted, insert-IsSorted, Above, get-below, HasDistinctKeys,
}
use skaldberg.BTreeMap.Entries.{All-of_get}
use skaldberg.Prom.Aggregate.{group_by}

module _ {ℓ κ} {K : Type ℓ} {V : Type κ} ⦃o : Ord K⦄ where
  -- The values of a key, in their order.
  abbrev pub values_at : K → List (K × V) → List V
  values_at k [] = []
  values_at k ((j, v) ∷ items) = let rest = values_at k items in if k =? j then v ∷ rest else rest

  pub get_or-group_by :
      (k : K) (items : List (K × V)) (groups : BTreeMap K (List V))
      → get_or [] k (group_by items groups) ≡ get_or [] k groups ++ values_at k items
  unfolding group_by
  get_or-group_by k [] groups = sym (append-nil (get_or [] k groups))
  get_or-group_by k ((j, v) ∷ items) groups =
      let add : List V → List V = λ values. values ++ (v ∷ []) in
      ground (
        arith,
        get_or-group_by k items (entry_or [] j add groups),
        get_or-entry_or [] k j add groups,
        append_assoc (get_or [] j groups) (v ∷ []) (values_at k items),
        =?-eq k j,
      )

  pub group_by-IsSorted :
      (items : List (K × V)) (groups : BTreeMap K (List V))
      → IsSorted groups
      → IsSorted (group_by items groups)
  unfolding group_by
  group_by-IsSorted [] groups s = s
  group_by-IsSorted ((j, v) ∷ items) groups s =
      group_by-IsSorted items _ (insert-IsSorted j (get_or [] j groups ++ (v ∷ [])) groups s)

  get-Above : (k : K) (m : BTreeMap K V) → Above k m → IsSorted m → get k m ≡ none
  unfolding get
  get-Above k [] a s = refl
  get-Above k ((j, w) ∷ n) a s = get-below k j w n a.0 s.0

  pub IsSorted-HasDistinctKeys : (m : BTreeMap K V) → IsSorted m → HasDistinctKeys m
  IsSorted-HasDistinctKeys [] s = tt
  IsSorted-HasDistinctKeys ((k, v) ∷ m) s = (get-Above k m s.0 s.1, IsSorted-HasDistinctKeys m s.1)

module _ {ℓ κ} {K : Type ℓ} {V : Type κ} ⦃o : Ord K⦄ where
  -- Every group holds the values of its key.
  pub group_by-All :
      (items : List (K × V)) → All (λ (k, vs). vs ≡ values_at k items) (group_by items [])
  unfolding get
  group_by-All items =
      All-of_get (λ (k, vs). vs ≡ values_at k items) (group_by items [])
        (IsSorted-HasDistinctKeys (group_by items []) (group_by-IsSorted items [] tt))
        (λ k vs e. found k vs e (get_or-group_by k items []))
    where
      found :
          (k : K) (vs : List V)
          → get k (group_by items []) ≡ some vs
          → get_or [] k (group_by items []) ≡ get_or [] k [] ++ values_at k items
          → vs ≡ values_at k items
      found k vs e h = rw (e, get_or) at h
