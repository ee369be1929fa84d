-- ===== src/Prom/Catalog/Firsts.antt =====
-- The first row of each key, which is what the set `seen` of `series` in src/prometheus.rs leaves.
use skaldberg.Base.{
  ◌≡◌, refl, ap, sym, ◌∙◌, Bool, true, not, ◌&&◌, Bool-cases, inl, inr, none, List, [], ◌∷◌,
  keep_if, arith, map,
}
use skaldberg.Order.{Ord, ◌=?◌, =?-eq, =?_refl}
use skaldberg.BTreeMap.{BTreeMap, get, insert, contains_key}
use skaldberg.BTreeMap.Laws.{HasDistinctKeys, get-insert}

module _ {ℓ} {A : Type ℓ} where
  keep_if-swap :
      (p q : A → Bool) (xs : List A) → keep_if p (keep_if q xs) ≡ keep_if q (keep_if p xs)
  keep_if-swap p q [] = refl
  keep_if-swap p q (x ∷ xs) = ground (arith, keep_if-swap p q xs)

  -- What `p` keeps, `q` keeps.
  keep_if-inner :
      (p q : A → Bool) (xs : List A)
      → ((x : A) → p x ≡ true → q x ≡ true)
      → keep_if p (keep_if q xs) ≡ keep_if p xs
  keep_if-inner p q [] h = refl
  keep_if-inner p q (x ∷ xs) h = ground (arith, keep_if-inner p q xs h, h x)

  keep_if-both :
      (p q r : A → Bool) (xs : List A)
      → ((x : A) → r x ≡ (p x && q x))
      → keep_if r xs ≡ keep_if p (keep_if q xs)
  keep_if-both p q r [] h = refl
  keep_if-both p q r (x ∷ xs) h = ground (arith, keep_if-both p q r xs h, h x)

module _ {ℓ} {A K : Type ℓ} ⦃o : Ord K⦄ (key : A → K) where
  abbrev pub other_key : A → A → Bool
  other_key x y = not (key y =? key x)

  abbrev pub firsts : List A → List A
  firsts [] = []
  firsts (x ∷ xs) = x ∷ keep_if (other_key x) (firsts xs)

  firsts-keep_if :
      (p : K → Bool) (xs : List A)
      → firsts (keep_if (λ x. p (key x)) xs) ≡ keep_if (λ x. p (key x)) (firsts xs)
  firsts-keep_if p [] = refl
  firsts-keep_if p (x ∷ xs) = elim (Bool-cases (p (key x))) [
    | inl e ↦
        rw (e, keep_if)
          (ap (λ ys. x ∷ keep_if (other_key x) ys) (firsts-keep_if p xs)
            ∙ ap (◌∷◌ x) (keep_if-swap (other_key x) (λ y. p (key y)) (firsts xs)))
    | inr e ↦
        rw (e, keep_if)
          (firsts-keep_if p xs
            ∙ sym (
                keep_if-inner (λ y. p (key y)) (other_key x) (firsts xs)
                  (λ y h. ground (arith, h, e, =?-eq (key y) (key x)))))
  ]

  abbrev pub unseen : BTreeMap K Bool → A → Bool
  unseen seen x = not (contains_key (key x) seen)

  -- Behind a row that was not seen
  pub firsts-unseen :
      (x : A) (seen : BTreeMap K Bool) (xs : List A)
      → firsts (keep_if (unseen (insert (key x) true seen)) xs)
        ≡ keep_if (other_key x) (firsts (keep_if (unseen seen) xs))
  firsts-unseen x seen xs =
      ap firsts (
        keep_if-both (other_key x) (unseen seen) (unseen (insert (key x) true seen)) xs
          (λ y. ground (arith, get-insert (key y) (key x) true seen)))
      ∙ firsts-keep_if (λ k. not (k =? key x)) (keep_if (unseen seen) xs)

  abbrev pub keyed : List A → BTreeMap K A
  keyed xs = map (λ x. (key x, x)) xs

  get-keep_if :
      (k : K) (p : A → Bool) (xs : List A)
      → get k (keyed xs) ≡ none
      → get k (keyed (keep_if p xs)) ≡ none
  unfolding get
  get-keep_if k p [] h = refl
  get-keep_if k p (x ∷ xs) h = ground (arith, get-keep_if k p xs, h)

  get-other_key : (x : A) (xs : List A) → get (key x) (keyed (keep_if (other_key x) xs)) ≡ none
  unfolding get
  get-other_key x [] = refl
  get-other_key x (y ∷ ys) =
      ground (arith, get-other_key x ys, =?-eq (key x) (key y), =?_refl (key x))

  HasDistinctKeys-keep_if :
      (p : A → Bool) (xs : List A)
      → HasDistinctKeys (keyed xs)
      → HasDistinctKeys (keyed (keep_if p xs))
  HasDistinctKeys-keep_if p [] d = tt
  HasDistinctKeys-keep_if p (x ∷ xs) d = elim (Bool-cases (p x)) [
    | inl e ↦ rw (e, keep_if) (get-keep_if (key x) p xs d.0, HasDistinctKeys-keep_if p xs d.1)
    | inr e ↦ rw (e, keep_if) (HasDistinctKeys-keep_if p xs d.1)
  ]

  pub firsts-HasDistinctKeys : (xs : List A) → HasDistinctKeys (keyed (firsts xs))
  firsts-HasDistinctKeys [] = tt
  firsts-HasDistinctKeys (x ∷ xs) = (
    get-other_key x (firsts xs),
    HasDistinctKeys-keep_if (other_key x) (firsts xs) (firsts-HasDistinctKeys xs),
  )
