-- ===== src/Sort.antt =====
-- `sort_by_key` of the standard library, a stable sort, as an insertion sort.
use skaldberg.Base.{
  suc, ◌≡◌, refl, ap, ◌∙◌, List, [], ◌∷◌, Ordering, inl, inr, arith, keep_if, length,
}
use skaldberg.Order.{Ord, ◌=?◌, cmp_cases}

module _ {ℓ κ} {A : Type ℓ} {K : Type κ} ⦃o : Ord K⦄ (key : A → K) where
  -- In front of the first element whose key is not below that of `x`
  place : A → List A → List A
  place x [] = x ∷ []
  place x (y ∷ ys) =
      let rest = place x ys in
      elim (o.cmp (key x) (key y)) [ Ordering.gt ↦ y ∷ rest | _ ↦ x ∷ y ∷ ys ]

  unfoldable pub sort_by_key : List A → List A
  unfolding place
  sort_by_key [] = []
  sort_by_key (x ∷ xs) = place x (sort_by_key xs)

  -- `k` is above none of the keys.
  abbrev pub AtMost : K → List A → Type 0
  AtMost k [] = Unit
  AtMost k (y ∷ ys) = (¬ (o.cmp k (key y) ≡ Ordering.gt)) × AtMost k ys

  -- No key is below one before it.
  abbrev pub Ascends : List A → Type 0
  Ascends [] = Unit
  Ascends (x ∷ xs) = AtMost (key x) xs × Ascends xs

  le_trans :
      (a b c : K)
      → ¬ (o.cmp a b ≡ Ordering.gt)
      → ¬ (o.cmp b c ≡ Ordering.gt)
      → ¬ (o.cmp a c ≡ Ordering.gt)
  le_trans a b c h k e = ground (
    arith,
    o.eq_of_cmp a b,
    o.eq_of_cmp b c,
    o.lt_trans a b c,
    cmp_cases a b,
    cmp_cases b c,
    o.lt_of_gt a c,
    o.gt_of_lt b c,
    o.cmp_refl a,
    o.lt_trans c a b,
    o.cmp_refl c,
  )

  AtMost-trans : (a b : K) (ys : List A) → ¬ (o.cmp a b ≡ Ordering.gt) → AtMost b ys → AtMost a ys
  AtMost-trans a b [] h l = tt
  AtMost-trans a b (y ∷ ys) h l = (le_trans a b (key y) h l.0, AtMost-trans a b ys h l.1)

  AtMost-place :
      (k : K) (x : A) (ys : List A)
      → ¬ (o.cmp k (key x) ≡ Ordering.gt)
      → AtMost k ys
      → AtMost k (place x ys)
  unfolding place
  AtMost-place k x [] h l = (h, tt)
  AtMost-place k x (y ∷ ys) h l = elim (cmp_cases (key x) (key y)) [
    | inl e ↦ rw (e, place) (h, l)
    | inr (inl e) ↦ rw (e, place) (h, l)
    | inr (inr e) ↦ rw (e, place) (l.0, AtMost-place k x ys h l.1)
  ]

  place-Ascends : (x : A) (ys : List A) → Ascends ys → Ascends (place x ys)
  unfolding place
  place-Ascends x [] a = (tt, tt)
  place-Ascends x (y ∷ ys) a = elim (cmp_cases (key x) (key y)) [
    | inl e ↦
        let le : ¬ (o.cmp (key x) (key y) ≡ Ordering.gt) = λ g. ground arith in
        rw (e, place) ((le, AtMost-trans (key x) (key y) ys le a.0), a)
    | inr (inl e) ↦
        let le : ¬ (o.cmp (key x) (key y) ≡ Ordering.gt) = λ g. ground arith in
        rw (e, place) ((le, AtMost-trans (key x) (key y) ys le a.0), a)
    | inr (inr e) ↦
        let le : ¬ (o.cmp (key y) (key x) ≡ Ordering.gt) =
          λ g. ground (arith, o.lt_of_gt (key x) (key y)) in
        rw (e, place) (AtMost-place (key y) x ys le a.0, place-Ascends x ys a.1)
  ]

  pub sort_by_key-Ascends : (xs : List A) → Ascends (sort_by_key xs)
  unfolding sort_by_key
  sort_by_key-Ascends [] = tt
  sort_by_key-Ascends (x ∷ xs) = place-Ascends x (sort_by_key xs) (sort_by_key-Ascends xs)

  -- The elements of one key keep their order.
  keep_if-place :
      (k : K) (x : A) (ys : List A)
      → keep_if (λ y. k =? key y) (place x ys) ≡ keep_if (λ y. k =? key y) (x ∷ ys)
  unfolding place
  keep_if-place k x [] = refl
  keep_if-place k x (y ∷ ys) = ground (
    arith,
    keep_if-place k x ys,
    cmp_cases (key x) (key y),
    o.eq_of_cmp k (key x),
    o.eq_of_cmp k (key y),
    o.cmp_refl k,
  )

  pub keep_if-sort_by_key :
      (k : K) (xs : List A)
      → keep_if (λ y. k =? key y) (sort_by_key xs) ≡ keep_if (λ y. k =? key y) xs
  unfolding sort_by_key
  keep_if-sort_by_key k [] = refl
  keep_if-sort_by_key k (x ∷ xs) =
      ground (arith, keep_if-place k x (sort_by_key xs), keep_if-sort_by_key k xs)

  length-place : (x : A) (ys : List A) → length (place x ys) ≡ suc (length ys)
  unfolding place
  length-place x [] = refl
  length-place x (y ∷ ys) = ground (arith, length-place x ys)

  pub length-sort_by_key : (xs : List A) → length (sort_by_key xs) ≡ length xs
  unfolding sort_by_key
  length-sort_by_key [] = refl
  length-sort_by_key (x ∷ xs) = length-place x (sort_by_key xs) ∙ ap suc (length-sort_by_key xs)
