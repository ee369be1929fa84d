-- ===== src/Prom/Aggregate/Sorted.antt =====
-- The stable sort and the cut of `topk` in src/prometheus.rs, for an order.
use skaldberg.Base.{
  ◌≡◌, refl, ◌∙◌, Bool, true, false, Bool-cases, inl, inr, List, [], ◌∷◌, All, keep_if, length,
  arith,
}
use skaldberg.Prom.Aggregate.{insert_by, sort_by}

module _ {A : Type 0} (is_after : A → A → Bool) where
  -- `is_after` orders what has `Q`: not both ways, and what is not behind stays not behind.
  abbrev pub Orders : (A → Type 0) → Type 0
  Orders Q =
      ((a b : A) → Q a → Q b → is_after a b ≡ true → is_after b a ≡ false)
      × ((a b c : A)
          → Q a
          → Q b
          → Q c
          → is_after a b ≡ false
          → is_after b c ≡ false
          → is_after a c ≡ false)

  -- None of the list must come in front of `x`.
  abbrev pub Leads : A → List A → Type 0
  Leads x ys = All (λ y. is_after x y ≡ false) ys

  abbrev pub Descends : List A → Type 0
  Descends [] = Unit
  Descends (x ∷ xs) = Leads x xs × Descends xs

  length-keep_if-insert_by :
      (p : A → Bool) (x : A) (ys : List A)
      → length (keep_if p (insert_by is_after x ys)) ≡ length (keep_if p (x ∷ ys))
  unfolding insert_by
  length-keep_if-insert_by p x [] = refl
  length-keep_if-insert_by p x (y ∷ ys) = ground (arith, length-keep_if-insert_by p x ys)

  pub length-keep_if-sort_by :
      (p : A → Bool) (xs : List A)
      → length (keep_if p (sort_by is_after xs)) ≡ length (keep_if p xs)
  unfolding sort_by
  length-keep_if-sort_by p [] = refl
  length-keep_if-sort_by p (x ∷ xs) =
      length-keep_if-insert_by p x (sort_by is_after xs)
      ∙ ground (arith, length-keep_if-sort_by p xs)

  module _ (Q : A → Type 0) where
    insert_by-All : (x : A) (ys : List A) → Q x → All Q ys → All Q (insert_by is_after x ys)
    unfolding insert_by
    insert_by-All x [] q a = (q, tt)
    insert_by-All x (y ∷ ys) q a = elim (Bool-cases (is_after x y)) [
      | inl e ↦ rw (e, insert_by) (a.0, insert_by-All x ys q a.1)
      | inr e ↦ rw (e, insert_by) (q, a)
    ]

    sort_by-All : (xs : List A) → All Q xs → All Q (sort_by is_after xs)
    unfolding sort_by
    sort_by-All [] a = tt
    sort_by-All (x ∷ xs) a = insert_by-All x (sort_by is_after xs) a.0 (sort_by-All xs a.1)

  Leads-insert_by :
      (z x : A) (ys : List A)
      → is_after z x ≡ false
      → Leads z ys
      → Leads z (insert_by is_after x ys)
  Leads-insert_by z x ys h l = insert_by-All (λ y. is_after z y ≡ false) x ys h l

  Leads-trans :
      (Q : A → Type 0) (x y : A) (ys : List A)
      → Orders Q
      → Q x
      → Q y
      → All Q ys
      → is_after x y ≡ false
      → Leads y ys
      → Leads x ys
  Leads-trans Q x y [] o qx qy a h l = tt
  Leads-trans Q x y (z ∷ ys) o qx qy a h l =
      (o.1 x y z qx qy a.0 h l.0, Leads-trans Q x y ys o qx qy a.1 h l.1)

  insert_by-Descends :
      (Q : A → Type 0) (x : A) (ys : List A)
      → Orders Q
      → Q x
      → All Q ys
      → Descends ys
      → Descends (insert_by is_after x ys)
  unfolding insert_by
  insert_by-Descends Q x [] o q a d = (tt, tt)
  insert_by-Descends Q x (y ∷ ys) o q a d = elim (Bool-cases (is_after x y)) [
    | inl e ↦
        rw (e, insert_by)
          (Leads-insert_by y x ys (o.0 x y q a.0 e) d.0, insert_by-Descends Q x ys o q a.1 d.1)
    | inr e ↦ rw (e, insert_by) ((e, Leads-trans Q x y ys o q a.0 a.1 e d.0), d)
  ]

  pub sort_by-Descends :
      (Q : A → Type 0) (xs : List A) → Orders Q → All Q xs → Descends (sort_by is_after xs)
  unfolding sort_by
  sort_by-Descends Q [] o a = tt
  sort_by-Descends Q (x ∷ xs) o a =
      insert_by-Descends Q x (sort_by is_after xs) o a.0 (sort_by-All Q xs a.1)
        (sort_by-Descends Q xs o a.1)
