-- ===== src/BTreeMap/Laws.antt =====
-- The laws of `BTreeMap` that the components use.
use skaldberg.Base.{
  ◌≡◌, refl, sym, subst, Ordering, true, false, Option, none, some, [], ◌∷◌, inl, inr, arith,
}
use skaldberg.Order.{Ord, ◌=?◌, cmp_cases}
use skaldberg.BTreeMap.{BTreeMap, get, get_or, insert, entry_or, from_iter}

module _ {ℓ κ} {K : Type ℓ} {V : Type κ} ⦃o : Ord K⦄ where
  pub get-insert :
      (j k : K) (v : V) (m : BTreeMap K V)
      → get j (insert k v m) ≡ (elim (j =? k) [ true ↦ some v | false ↦ get j m ])
  unfolding get insert
  get-insert j k v [] = ground arith
  get-insert j k v ((i, w) ∷ m) = ground (
    arith,
    get-insert j k v m,
    o.eq_of_cmp j k,
    o.eq_of_cmp k i,
    o.eq_of_cmp j i,
    o.cmp_refl k,
    o.cmp_refl i,
  )

  pub get_or-entry_or :
      (d : V) (j k : K) (f : V → V) (m : BTreeMap K V)
      → get_or d j (entry_or d k f m)
        ≡ (elim (j =? k) [ true ↦ f (get_or d k m) | false ↦ get_or d j m ])
  get_or-entry_or d j k f m = ground (arith, get-insert j k (f (get_or d k m)) m)

  -- Every key of `m` is above `k`.
  abbrev pub Above : K → BTreeMap K V → Type 0
  Above k [] = Unit
  Above k ((j, w) ∷ m) = (o.cmp k j ≡ Ordering.lt) × Above k m

  -- The keys ascend strictly, so none occurs twice.
  abbrev pub IsSorted : BTreeMap K V → Type 0
  IsSorted [] = Unit
  IsSorted ((k, v) ∷ m) = Above k m × IsSorted m

  Above-trans : (j k : K) (m : BTreeMap K V) → o.cmp j k ≡ Ordering.lt → Above k m → Above j m
  Above-trans j k [] h a = tt
  Above-trans j k ((i, w) ∷ m) h a = (o.lt_trans j k i h a.0, Above-trans j k m h a.1)

  Above-insert :
      (j k : K) (v : V) (m : BTreeMap K V)
      → o.cmp j k ≡ Ordering.lt
      → Above j m
      → Above j (insert k v m)
  unfolding insert
  Above-insert j k v [] h a = (h, tt)
  Above-insert j k v ((i, w) ∷ m) h a = ground (arith, Above-insert j k v m)

  -- Insertion keeps the keys in strictly ascending order.
  pub insert-IsSorted : (k : K) (v : V) (m : BTreeMap K V) → IsSorted m → IsSorted (insert k v m)
  unfolding insert
  insert-IsSorted k v [] s = (tt, tt)
  insert-IsSorted k v ((i, w) ∷ m) s =
      ground (arith, insert-IsSorted k v m, o.lt_of_gt k i, Above-insert i k v m, Above-trans k i m)

  pub get-Above : (k : K) (m : BTreeMap K V) → Above k m → get k m ≡ none
  unfolding get
  get-Above k [] a = refl
  get-Above k ((j, w) ∷ m) a = ground (arith, get-Above k m a.1)

  pub get-head : (k : K) (v : V) (m : BTreeMap K V) → get k ((k, v) ∷ m) ≡ some v
  unfolding get
  get-head k v m = ground (arith, o.cmp_refl k)

  pub get-below :
      (k j : K) (w : V) (n : BTreeMap K V)
      → o.cmp k j ≡ Ordering.lt
      → Above j n
      → get k ((j, w) ∷ n) ≡ none
  get-below k j w n h a = get-Above k ((j, w) ∷ n) (h, Above-trans k j n h a)

  get-tail :
      (k : K) (v w : V) (m n : BTreeMap K V)
      → Above k m
      → Above k n
      → ((i : K) → get i ((k, v) ∷ m) ≡ get i ((k, w) ∷ n))
      → (i : K) → get i m ≡ get i n
  unfolding get
  get-tail k v w m n a b h i =
      ground (arith, h i, o.eq_of_cmp i k, get-Above k m a, get-Above k n b)

  -- Two maps in key order with the same lookups are the same sequence of entries.
  pub ext : (m n : BTreeMap K V) → IsSorted m → IsSorted n → ((k : K) → get k m ≡ get k n) → m ≡ n
  ext [] [] s t h = refl
  ext [] ((j, w) ∷ n) s t h = unfold get in ground (arith, h j, get-head j w n)
  ext ((k, v) ∷ m) [] s t h = unfold get in ground (arith, h k, get-head k v m)
  ext ((k, v) ∷ m) ((j, w) ∷ n) s t h = elim (cmp_cases k j) [
    | inl l ↦ ground (arith, h k, get-head k v m, get-below k j w n l t.0)
    | inr (inr g) ↦ ground (arith, h j, get-head j w n, get-below j k v m (o.lt_of_gt k j g) s.0)
    | inr (inl e) ↦
        let p = o.eq_of_cmp k j e in
        let tails = ext m n s.1 t.1 (
          get-tail k v w m n s.0 (subst (λ x. Above x n) (sym p) t.0)
            (subst (λ x. (i : K) → get i ((k, v) ∷ m) ≡ get i ((x, w) ∷ n)) (sym p) h)) in
        ground (arith, tails, p, h k, get-head k v m, get-head j w n)
  ]

  -- The entries that `from_iter` meets, by key: the last one of a key wins.
  abbrev pub last : K → BTreeMap K V → Option V
  last k [] = none
  last k ((j, v) ∷ l) = elim (last k l) [
    | some w ↦ some w
    | none ↦ elim (k =? j) [ true ↦ some v | false ↦ none ]
  ]

  pub get-from_iter :
      (k : K) (l m : BTreeMap K V)
      → get k (from_iter l m) ≡ (elim (last k l) [ some w ↦ some w | none ↦ get k m ])
  get-from_iter k [] m = refl
  get-from_iter k ((j, v) ∷ l) m =
      ground (arith, get-from_iter k l (insert j v m), get-insert k j v m)

  pub from_iter-IsSorted : (l m : BTreeMap K V) → IsSorted m → IsSorted (from_iter l m)
  from_iter-IsSorted [] m s = s
  from_iter-IsSorted ((j, v) ∷ l) m s =
      from_iter-IsSorted l (insert j v m) (insert-IsSorted j v m s)

  -- No two entries of a sequence have one key, as in the iteration of a `HashMap`.
  abbrev pub HasDistinctKeys : BTreeMap K V → Type κ
  HasDistinctKeys [] = Unit
  HasDistinctKeys ((k, v) ∷ l) = (get k l ≡ none) × HasDistinctKeys l

  pub last-eq-get : (k : K) (l : BTreeMap K V) → HasDistinctKeys l → last k l ≡ get k l
  unfolding get
  last-eq-get k [] d = refl
  last-eq-get k ((j, v) ∷ l) d = ground (arith, last-eq-get k l d.1, o.eq_of_cmp k j, d.0)

  -- A `HashMap`, in whatever order it is iterated, collects into one `BTreeMap`.
  pub from_iter-order_irrelevant :
      (l l' : BTreeMap K V)
      → HasDistinctKeys l
      → HasDistinctKeys l'
      → ((k : K) → get k l ≡ get k l')
      → from_iter l [] ≡ from_iter l' []
  from_iter-order_irrelevant l l' d d' h =
      ext (from_iter l []) (from_iter l' []) (from_iter-IsSorted l [] tt)
        (from_iter-IsSorted l' [] tt)
        (λ k. ground (
          arith,
          get-from_iter k l [],
          get-from_iter k l' [],
          last-eq-get k l d,
          last-eq-get k l' d',
          h k,
        ))
