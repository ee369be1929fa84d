-- ===== src/Order.antt =====
-- Rust's `Ord`, and its instances for numbers, pairs and sequences: a sequence compares
-- lexicographically, as `String` (by bytes), `Vec` and `BTreeMap` do.
use skaldberg.Base.{ℕ, ◌≡◌, ◌⊎◌, refl, Ordering, compare, arith, List, [], ◌∷◌, Bool, true, false}
use skaldberg.Base.Int.{ℤ, compare_ℤ}

pub record Ord {ℓ} (A : Type ℓ) : Type ℓ where
  pub cmp : A → A → Ordering
  pub cmp_refl : (a : A) → cmp a a ≡ Ordering.eq
  pub eq_of_cmp : (a b : A) → cmp a b ≡ Ordering.eq → a ≡ b
  pub gt_of_lt : (a b : A) → cmp a b ≡ Ordering.lt → cmp b a ≡ Ordering.gt
  pub lt_of_gt : (a b : A) → cmp a b ≡ Ordering.gt → cmp b a ≡ Ordering.lt
  pub lt_trans : (a b c : A) → cmp a b ≡ Ordering.lt → cmp b c ≡ Ordering.lt → cmp a c ≡ Ordering.lt

abbrev pub is_eq : Ordering → Bool
is_eq Ordering.eq = true
is_eq _ = false

abbrev pub is_lt : Ordering → Bool
is_lt Ordering.lt = true
is_lt _ = false

-- The second comparison decides where the first finds its arguments equal.
abbrev pub then_with : Ordering → Ordering → Ordering
then_with Ordering.eq r = r
then_with Ordering.lt r = Ordering.lt
then_with Ordering.gt r = Ordering.gt

abbrev pub cmp {ℓ} : {A : Type ℓ} ⦃o : Ord A⦄ → A → A → Ordering
cmp ⦃o⦄ = o.cmp

-- `a == b`
infix 50 ◌=?◌
abbrev pub ◌=?◌ {ℓ} : {A : Type ℓ} ⦃o : Ord A⦄ → A → A → Bool
◌=?◌ ⦃o⦄ a b = is_eq (o.cmp a b)

pub nat_lt_of_gt : (a b : ℕ) → compare a b ≡ Ordering.gt → compare b a ≡ Ordering.lt
nat_lt_of_gt a b h = ground arith

pub nat_gt_of_lt : (a b : ℕ) → compare a b ≡ Ordering.lt → compare b a ≡ Ordering.gt
nat_gt_of_lt a b h = ground arith

pub nat_lt_trans :
    (a b c : ℕ) → compare a b ≡ Ordering.lt → compare b c ≡ Ordering.lt → compare a c ≡ Ordering.lt
nat_lt_trans a b c h k = ground arith

pub nat_refl : (a : ℕ) → compare a a ≡ Ordering.eq
nat_refl a = ground arith

pub nat_eq : (a b : ℕ) → compare a b ≡ Ordering.eq → a ≡ b
nat_eq a b h = ground arith

instance abbrev pub nat_ord : Ord ℕ
nat_ord = record {
  cmp = compare;
  cmp_refl = nat_refl;
  eq_of_cmp = nat_eq;
  gt_of_lt = nat_gt_of_lt;
  lt_of_gt = nat_lt_of_gt;
  lt_trans = nat_lt_trans;
}

pub int_lt_of_gt : (a b : ℤ) → compare_ℤ a b ≡ Ordering.gt → compare_ℤ b a ≡ Ordering.lt
int_lt_of_gt a b h = ground arith

pub int_gt_of_lt : (a b : ℤ) → compare_ℤ a b ≡ Ordering.lt → compare_ℤ b a ≡ Ordering.gt
int_gt_of_lt a b h = ground arith

pub int_lt_trans :
    (a b c : ℤ)
    → compare_ℤ a b ≡ Ordering.lt
    → compare_ℤ b c ≡ Ordering.lt
    → compare_ℤ a c ≡ Ordering.lt
int_lt_trans a b c h k = ground arith

pub int_refl : (a : ℤ) → compare_ℤ a a ≡ Ordering.eq
int_refl a = ground arith

pub int_eq : (a b : ℤ) → compare_ℤ a b ≡ Ordering.eq → a ≡ b
int_eq a b h = ground arith

instance abbrev pub int_ord : Ord ℤ
int_ord = record {
  cmp = compare_ℤ;
  cmp_refl = int_refl;
  eq_of_cmp = int_eq;
  gt_of_lt = int_gt_of_lt;
  lt_of_gt = int_lt_of_gt;
  lt_trans = int_lt_trans;
}

module _ {ℓ} {A : Type ℓ} ⦃o : Ord A⦄ where
  pub cmp_cases :
      (a b : A) → (o.cmp a b ≡ Ordering.lt) ⊎ (o.cmp a b ≡ Ordering.eq) ⊎ (o.cmp a b ≡ Ordering.gt)
  cmp_cases a b = ground arith

  -- `a == b` decides equality.
  pub =?-eq : (a b : A) → a =? b ≡ true → a ≡ b
  =?-eq a b h = o.eq_of_cmp a b (ground arith)

  pub =?_refl : (a : A) → a =? a ≡ true
  =?_refl a = ground (arith, o.cmp_refl a)

  pub eq_of_ne_lt_gt : (a b : A) → o.cmp a b ≡ Ordering.lt → a =? b ≡ false
  eq_of_ne_lt_gt a b h = ground arith

  abbrev pub cmp_list : List A → List A → Ordering
  cmp_list [] [] = Ordering.eq
  cmp_list [] (y ∷ ys) = Ordering.lt
  cmp_list (x ∷ xs) [] = Ordering.gt
  cmp_list (x ∷ xs) (y ∷ ys) = then_with (o.cmp x y) (cmp_list xs ys)

  pub list_refl : (xs : List A) → cmp_list xs xs ≡ Ordering.eq
  list_refl [] = refl
  list_refl (x ∷ xs) = ground (arith, o.cmp_refl x, list_refl xs)

  pub list_eq : (xs ys : List A) → cmp_list xs ys ≡ Ordering.eq → xs ≡ ys
  list_eq [] [] h = refl
  list_eq [] (y ∷ ys) h = ground arith
  list_eq (x ∷ xs) [] h = ground arith
  list_eq (x ∷ xs) (y ∷ ys) h = ground (arith, o.eq_of_cmp x y, list_eq xs ys)

  pub list_gt_of_lt : (xs ys : List A) → cmp_list xs ys ≡ Ordering.lt → cmp_list ys xs ≡ Ordering.gt
  list_gt_of_lt [] [] h = ground arith
  list_gt_of_lt [] (y ∷ ys) h = refl
  list_gt_of_lt (x ∷ xs) [] h = ground arith
  list_gt_of_lt (x ∷ xs) (y ∷ ys) h =
      ground (arith, o.eq_of_cmp x y, o.cmp_refl y, o.gt_of_lt x y, list_gt_of_lt xs ys)

  pub list_lt_of_gt : (xs ys : List A) → cmp_list xs ys ≡ Ordering.gt → cmp_list ys xs ≡ Ordering.lt
  list_lt_of_gt [] [] h = ground arith
  list_lt_of_gt [] (y ∷ ys) h = ground arith
  list_lt_of_gt (x ∷ xs) [] h = refl
  list_lt_of_gt (x ∷ xs) (y ∷ ys) h =
      ground (arith, o.eq_of_cmp x y, o.cmp_refl y, o.lt_of_gt x y, list_lt_of_gt xs ys)

  pub list_lt_trans :
      (xs ys zs : List A)
      → cmp_list xs ys ≡ Ordering.lt
      → cmp_list ys zs ≡ Ordering.lt
      → cmp_list xs zs ≡ Ordering.lt
  list_lt_trans [] [] zs h k = ground arith
  list_lt_trans [] (y ∷ ys) [] h k = ground arith
  list_lt_trans [] (y ∷ ys) (z ∷ zs) h k = refl
  list_lt_trans (x ∷ xs) [] zs h k = ground arith
  list_lt_trans (x ∷ xs) (y ∷ ys) [] h k = ground arith
  list_lt_trans (x ∷ xs) (y ∷ ys) (z ∷ zs) h k = ground (
    arith,
    o.eq_of_cmp x y,
    o.eq_of_cmp y z,
    o.cmp_refl z,
    o.lt_trans x y z,
    list_lt_trans xs ys zs,
  )

instance abbrev pub list_ord {ℓ} : {A : Type ℓ} ⦃o : Ord A⦄ → Ord (List A)
list_ord = record {
  cmp = cmp_list;
  cmp_refl = list_refl;
  eq_of_cmp = list_eq;
  gt_of_lt = list_gt_of_lt;
  lt_of_gt = list_lt_of_gt;
  lt_trans = list_lt_trans;
}

module _ {ℓ κ} {A : Type ℓ} {B : Type κ} ⦃o : Ord A⦄ ⦃p : Ord B⦄ where
  abbrev pub cmp_pair : A × B → A × B → Ordering
  cmp_pair (a, b) (c, d) = then_with (o.cmp a c) (p.cmp b d)

  pub pair_refl : (x : A × B) → cmp_pair x x ≡ Ordering.eq
  pair_refl (a, b) = ground (arith, o.cmp_refl a, p.cmp_refl b)

  pub pair_eq : (x y : A × B) → cmp_pair x y ≡ Ordering.eq → x ≡ y
  pair_eq (a, b) (c, d) h = ground (arith, o.eq_of_cmp a c, p.eq_of_cmp b d)

  pub pair_gt_of_lt : (x y : A × B) → cmp_pair x y ≡ Ordering.lt → cmp_pair y x ≡ Ordering.gt
  pair_gt_of_lt (a, b) (c, d) h =
      ground (arith, o.eq_of_cmp a c, o.cmp_refl c, o.gt_of_lt a c, p.gt_of_lt b d)

  pub pair_lt_of_gt : (x y : A × B) → cmp_pair x y ≡ Ordering.gt → cmp_pair y x ≡ Ordering.lt
  pair_lt_of_gt (a, b) (c, d) h =
      ground (arith, o.eq_of_cmp a c, o.cmp_refl c, o.lt_of_gt a c, p.lt_of_gt b d)

  pub pair_lt_trans :
      (x y z : A × B)
      → cmp_pair x y ≡ Ordering.lt
      → cmp_pair y z ≡ Ordering.lt
      → cmp_pair x z ≡ Ordering.lt
  pair_lt_trans (a, b) (c, d) (e, f) h k =
      ground
        (arith, o.eq_of_cmp a c, o.eq_of_cmp c e, o.cmp_refl e, o.lt_trans a c e, p.lt_trans b d f)

instance abbrev pub pair_ord {ℓ κ} : {A : Type ℓ} {B : Type κ} ⦃o : Ord A⦄ ⦃p : Ord B⦄ → Ord (A × B)
pair_ord = record {
  cmp = cmp_pair;
  cmp_refl = pair_refl;
  eq_of_cmp = pair_eq;
  gt_of_lt = pair_gt_of_lt;
  lt_of_gt = pair_lt_of_gt;
  lt_trans = pair_lt_trans;
}
