-- ===== src/Text/Prefix.antt =====
-- What `starts_with` decides.
use skaldberg.Base.{◌≡◌, ◌↔◌, refl, true, [], ◌∷◌, ◌++◌, arith}
use skaldberg.Text.{Text, starts_with}

abbrev pub HasPrefix : Text → Text → Type 0
HasPrefix p s = (rest : Text) × (s ≡ p ++ rest)

pub starts_with-HasPrefix : (p s : Text) → starts_with p s ≡ true → HasPrefix p s
unfolding starts_with
starts_with-HasPrefix [] s h = (s, refl)
starts_with-HasPrefix (a ∷ p) [] h = cc
starts_with-HasPrefix (a ∷ p) (b ∷ s) h =
    let (rest, e) = starts_with-HasPrefix p s (ground arith) in (rest, ground arith)

pub starts_with-append : (p rest : Text) → starts_with p (p ++ rest) ≡ true
unfolding starts_with
starts_with-append [] rest = refl
starts_with-append (a ∷ p) rest = ground (arith, starts_with-append p rest)

-- `starts_with` finds exactly the prefixes.
pub starts_with_iff : (p s : Text) → (starts_with p s ≡ true) ↔ HasPrefix p s
starts_with_iff p s = (starts_with-HasPrefix p s, λ (rest, e). rw e (starts_with-append p rest))
