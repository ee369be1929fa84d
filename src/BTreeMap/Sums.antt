-- ===== src/BTreeMap/Sums.antt =====
-- Sums over the values of a map, and predicates on its keys and values.
use skaldberg.Base.{ℕ, ◌+◌, ◌≡◌, none, some, Option, [], ◌∷◌, arith}
use skaldberg.Order.{Ord}
use skaldberg.BTreeMap.{BTreeMap, get, get_or, insert, entry_or}
use skaldberg.BTreeMap.Laws.{IsSorted, get-below}

module _ {ℓ κ} {K : Type ℓ} {V : Type κ} where
  abbrev pub sum_by : (V → ℕ) → BTreeMap K V → ℕ
  sum_by w [] = 0
  sum_by w ((k, v) ∷ m) = w v + sum_by w m

abbrev weight {κ} : {V : Type κ} → (V → ℕ) → Option V → ℕ
weight w none = 0
weight w (some v) = w v

module _ {ℓ κ} {K : Type ℓ} {V : Type κ} ⦃o : Ord K⦄ (w : V → ℕ) where
  sum_by-insert :
      (k : K) (v : V) (m : BTreeMap K V)
      → IsSorted m
      → sum_by w (insert k v m) + weight w (get k m) ≡ sum_by w m + w v
  unfolding insert get
  sum_by-insert k v [] s = omega arith
  sum_by-insert k v ((j, x) ∷ m) s =
      ground (arith, sum_by-insert k v m s.1, get-below k j x m, o.eq_of_cmp k j)

  pub sum_by-entry_or :
      (d : V) (k : K) (f : V → V) (m : BTreeMap K V)
      → w d ≡ 0
      → IsSorted m
      → sum_by w (entry_or d k f m) + w (get_or d k m) ≡ sum_by w m + w (f (get_or d k m))
  sum_by-entry_or d k f m z s = ground (arith, sum_by-insert k (f (get_or d k m)) m s)

module _ {ℓ κ μ} {K : Type ℓ} {V : Type κ} ⦃o : Ord K⦄ (P : V → Type μ) where
  -- Every value of the map satisfies `P`.
  abbrev pub AllValues : BTreeMap K V → Type μ
  AllValues [] = Unit
  AllValues ((k, v) ∷ m) = P v × AllValues m

  pub AllValues-insert :
      (k : K) (v : V) (m : BTreeMap K V) → P v → AllValues m → AllValues (insert k v m)
  unfolding insert
  AllValues-insert k v [] p a = (p, tt)
  AllValues-insert k v ((j, x) ∷ m) p a = ground (arith, AllValues-insert k v m)

  pub AllValues-get_or : (d : V) (k : K) (m : BTreeMap K V) → P d → AllValues m → P (get_or d k m)
  unfolding get
  AllValues-get_or d k [] p a = p
  AllValues-get_or d k ((j, x) ∷ m) p a = ground (arith, AllValues-get_or d k m p a.1)

module _ {ℓ κ μ} {K : Type ℓ} {V : Type κ} ⦃o : Ord K⦄ (P : K → Type μ) where
  -- Every key of the map satisfies `P`.
  abbrev pub AllKeys : BTreeMap K V → Type μ
  AllKeys [] = Unit
  AllKeys ((k, v) ∷ m) = P k × AllKeys m

  pub AllKeys-insert : (k : K) (v : V) (m : BTreeMap K V) → P k → AllKeys m → AllKeys (insert k v m)
  unfolding insert
  AllKeys-insert k v [] p a = (p, tt)
  AllKeys-insert k v ((j, x) ∷ m) p a = ground (arith, AllKeys-insert k v m)
