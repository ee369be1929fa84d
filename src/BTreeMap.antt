-- ===== src/BTreeMap.antt =====
-- `BTreeMap<K, V>` of the standard library, read as the sequence of its entries: what the code
-- uses of it is lookup, insertion, the entry API, removal, and iteration in key order.
pub mod Laws
pub mod Entries
pub mod Sums
use skaldberg.Base.{◌≡◌, Ordering, Bool, true, false, Option, none, some, List, [], ◌∷◌, map}
use skaldberg.Order.{Ord, ◌=?◌}

abbrev pub BTreeMap {ℓ κ} : Type ℓ → Type κ → Type (ℓ ⊔ κ)
BTreeMap K V = List (K × V)

module _ {ℓ κ} {K : Type ℓ} {V : Type κ} ⦃o : Ord K⦄ where
  -- `get`
  unfoldable pub get : K → BTreeMap K V → Option V
  get k [] = none
  get k ((j, v) ∷ m) = elim (k =? j) [ true ↦ some v | false ↦ get k m ]

  -- `contains_key`
  abbrev pub contains_key : K → BTreeMap K V → Bool
  contains_key k m = elim (get k m) [ none ↦ false | some v ↦ true ]

  -- `insert`: in key order, and over the value of an equal key.
  unfoldable pub insert : K → V → BTreeMap K V → BTreeMap K V
  insert k v [] = (k, v) ∷ []
  insert k v ((j, w) ∷ m) = elim (o.cmp k j) [
    | Ordering.lt ↦ (k, v) ∷ (j, w) ∷ m
    | Ordering.eq ↦ (j, v) ∷ m
    | Ordering.gt ↦ (j, w) ∷ insert k v m
  ]

  -- `remove`
  unfoldable pub remove : K → BTreeMap K V → BTreeMap K V
  remove k [] = []
  remove k ((j, w) ∷ m) = elim (k =? j) [ true ↦ m | false ↦ (j, w) ∷ remove k m ]

  abbrev pub get_or : V → K → BTreeMap K V → V
  get_or d k m = elim (get k m) [ none ↦ d | some v ↦ v ]

  -- `entry(k).or_insert(d)`, and then `f` in place
  abbrev pub entry_or : V → K → (V → V) → BTreeMap K V → BTreeMap K V
  entry_or d k f m = insert k (f (get_or d k m)) m

  -- `from_iter`: a later entry wins over an earlier one of its key.
  abbrev pub from_iter : List (K × V) → BTreeMap K V → BTreeMap K V
  from_iter [] m = m
  from_iter ((k, v) ∷ l) m = from_iter l (insert k v m)

abbrev pub keys {ℓ κ} : {K : Type ℓ} {V : Type κ} → BTreeMap K V → List K
keys m = map (λ (k, v). k) m
