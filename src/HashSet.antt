-- ===== src/HashSet.antt =====
-- `HashSet<i64>`: what the code uses of it is membership and insertion.
use skaldberg.Base.{◌≡◌, refl, Bool, true, false, ◌||◌, List, [], ◌∷◌, arith}
use skaldberg.Base.Int.{ℤ}
use skaldberg.Order.{◌=?◌, =?-eq, int_ord}

abbrev pub HashSet : Type 0
HashSet = List ℤ

unfoldable pub contains : ℤ → HashSet → Bool
contains x [] = false
contains x (y ∷ s) = x =? y || contains x s

unfoldable pub add : ℤ → HashSet → HashSet
unfolding contains
add x s = elim (contains x s) [ true ↦ s | false ↦ x ∷ s ]

unfoldable pub add_all : List ℤ → HashSet → HashSet
unfolding add
add_all [] s = s
add_all (x ∷ xs) s = add_all xs (add x s)

pub contains-add : (x y : ℤ) (s : HashSet) → contains x (add y s) ≡ (x =? y || contains x s)
unfolding contains add
contains-add x y s = ground (arith, =?-eq x y)

pub contains-add_all :
    (x : ℤ) (ys : List ℤ) (s : HashSet)
    → contains x (add_all ys s) ≡ (contains x ys || contains x s)
unfolding contains add_all
contains-add_all x [] s = refl
contains-add_all x (y ∷ ys) s = ground (arith, contains-add_all x ys (add y s), contains-add x y s)
