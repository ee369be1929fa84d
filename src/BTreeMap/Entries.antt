-- ===== src/BTreeMap/Entries.antt =====
-- What holds of all entries of a map, by its lookups.
use skaldberg.Base.{◌≡◌, subst, some, [], ◌∷◌, arith, All, Bool-cases, inl, inr}
use skaldberg.Order.{Ord, ◌=?◌, =?-eq}
use skaldberg.BTreeMap.{BTreeMap, get}
use skaldberg.BTreeMap.Laws.{HasDistinctKeys, get-head}

module _ {ℓ κ μ} {K : Type ℓ} {V : Type κ} ⦃o : Ord K⦄ (P : K × V → Type μ) where
  pub All-get : (l : BTreeMap K V) (k : K) (v : V) → All P l → get k l ≡ some v → P (k, v)
  unfolding get
  All-get [] k v a h = cc
  All-get ((j, w) ∷ l) k v a h = elim (Bool-cases (k =? j)) [
    | inl e ↦ let p : (j, w) ≡ (k, v) = ground (arith, =?-eq k j e) in subst P p a.0
    | inr e ↦ All-get l k v a.1 (ground arith)
  ]

  pub All-of_get :
      (l : BTreeMap K V)
      → HasDistinctKeys l
      → ((k : K) (v : V) → get k l ≡ some v → P (k, v))
      → All P l
  unfolding get
  All-of_get [] d h = tt
  All-of_get ((k, v) ∷ l) d h = (
    h k v (get-head k v l),
    All-of_get l d.1 (λ i w e. h i w (ground (arith, o.eq_of_cmp i k, d.0))),
  )
