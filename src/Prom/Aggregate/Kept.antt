-- ===== src/Prom/Aggregate/Kept.antt =====
-- The labels that an aggregation of src/prometheus.rs keeps.
use skaldberg.Base.{
  ◌≡◌, refl, Bool, false, not, ◌++◌, map, Bool-cases, inl, inr, Option, none, some, List, [], ◌∷◌,
  arith, keep_if,
}
use skaldberg.Order.{list_ord, nat_ord, pair_ord, ◌=?◌, =?-eq}
use skaldberg.BTreeMap.{BTreeMap, get, get_or}
use skaldberg.BTreeMap.Sums.{AllKeys, AllKeys-insert}
use skaldberg.Text.{Text}
use skaldberg.Prom.Types.{Labels, LabelModifier}
use skaldberg.Prom.Aggregate.{is_listed, retained_labels, group_by}

-- Whether the aggregation keeps the label `k`
abbrev pub keeps_label : Option LabelModifier → Text → Bool
keeps_label none k = false
keeps_label (some (LabelModifier.include ls)) k = is_listed k ls
keeps_label (some (LabelModifier.exclude ls)) k = not (is_listed k ls)

-- No label is among these that the aggregation drops.
abbrev pub AreKept : Option LabelModifier → Labels → Type 0
AreKept modifier labels = (k : Text) → keeps_label modifier k ≡ false → get k labels ≡ none

get-keep_if :
    (p : Text → Bool) (k : Text) (labels : Labels)
    → p k ≡ false
    → get k (keep_if (λ (j, v). p j) labels) ≡ none
unfolding get
get-keep_if p k [] h = refl
get-keep_if p k ((j, v) ∷ labels) h =
    let rest = get-keep_if p k labels h in
    elim (Bool-cases (p j)) [
      | inr e ↦ rw (e, get) rest
      | inl e ↦ elim (Bool-cases (k =? j)) [
        | inl f ↦ absurd (ground (arith, =?-eq k j f))
        | inr f ↦ rw (e, get) (rw (f, get) rest)
      ]
    ]

pub retained_labels-AreKept :
    (modifier : Option LabelModifier) (labels : Labels)
    → AreKept modifier (retained_labels labels modifier)
unfolding retained_labels get
retained_labels-AreKept none labels k h = refl
retained_labels-AreKept (some (LabelModifier.include ls)) labels k h =
    get-keep_if (λ j. is_listed j ls) k labels h
retained_labels-AreKept (some (LabelModifier.exclude ls)) labels k h =
    get-keep_if (λ j. not (is_listed j ls)) k labels h

-- The groups have the labels that the items are grouped by.
module _ {κ} {A V : Type 0} (P : Labels → Type κ) (key : A → Labels) (value : A → V)
    (good : (a : A) → P (key a)) where
  pub group_by-AllKeys :
      (items : List A) (groups : BTreeMap Labels (List V))
      → AllKeys P groups
      → AllKeys P (group_by (map (λ a. (key a, value a)) items) groups)
  unfolding group_by
  group_by-AllKeys [] groups g = g
  group_by-AllKeys (a ∷ items) groups g =
      group_by-AllKeys items _
        (AllKeys-insert P (key a) (get_or [] (key a) groups ++ (value a ∷ [])) groups (good a) g)
