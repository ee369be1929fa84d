-- ===== src/Ingest/Validate/Labels.antt =====
-- What the loop over the labels of src/ingest/validate.rs accepts, collects and reports.
use skaldberg.Base.{
  ◌≡◌, ◌⊎◌, refl, inl, inr, true, false, List, [], ◌∷◌, arith, All, subst, Bool-cases, ok, err,
}
use skaldberg.Order.{nat_ord, list_ord}
use skaldberg.BTreeMap.{BTreeMap, from_iter, insert}
use skaldberg.Text.{Text, lit, starts_with}
use skaldberg.Ingest.Validate.{
  ValidationError, reserved_label_name, invalid_label_name, is_valid_name, collect_labels,
}

-- A name that passes both tests of the loop.
abbrev pub Passes : Text × Text → Type 0
Passes (k, v) = (starts_with (lit "__") k ≡ false) × (is_valid_name k ≡ true)

abbrev pub Occurs : Text → List (Text × Text) → Type 0
Occurs k [] = ⊥
Occurs k ((j, v) ∷ l) = (j ≡ k) ⊎ Occurs k l

-- What an error of the loop says about the labels.
abbrev pub LabelFault : ValidationError → List (Text × Text) → Type 0
LabelFault (reserved_label_name k) l = Occurs k l × (starts_with (lit "__") k ≡ true)
LabelFault (invalid_label_name k) l = Occurs k l × (is_valid_name k ≡ false)
LabelFault _ l = ⊥

pub collect_labels-Passes :
    (l : List (Text × Text)) (m s : BTreeMap Text Text)
    → collect_labels l m ≡ ok s
    → (s ≡ from_iter l m) × All Passes l
unfolding collect_labels
collect_labels-Passes [] m s h = (ground arith, tt)
collect_labels-Passes ((k, v) ∷ l) m s h = ground (arith, collect_labels-Passes l (insert k v m) s)

pub collect_labels-from_iter :
    (l : List (Text × Text)) (m : BTreeMap Text Text)
    → All Passes l
    → collect_labels l m ≡ ok (from_iter l m)
unfolding collect_labels
collect_labels-from_iter [] m h = refl
collect_labels-from_iter ((k, v) ∷ l) m h =
    ground (arith, collect_labels-from_iter l (insert k v m) h.1)

LabelFault-cons :
    (e : ValidationError) (k v : Text) (l : List (Text × Text))
    → LabelFault e l
    → LabelFault e ((k, v) ∷ l)
LabelFault-cons (reserved_label_name j) k v l h = (inr h.0, h.1)
LabelFault-cons (invalid_label_name j) k v l h = (inr h.0, h.1)
LabelFault-cons _ k v l h = h

pub collect_labels-LabelFault :
    (l : List (Text × Text)) (m : BTreeMap Text Text) (e : ValidationError)
    → collect_labels l m ≡ err e
    → LabelFault e l
unfolding collect_labels
collect_labels-LabelFault [] m e h = cc
collect_labels-LabelFault ((k, v) ∷ l) m e h = elim (Bool-cases (starts_with (lit "__") k)) [
  | inl r ↦
      let p : reserved_label_name k ≡ e = ground arith in
      subst (λ e. LabelFault e ((k, v) ∷ l)) p (inl refl, r)
  | inr r ↦ elim (Bool-cases (is_valid_name k)) [
    | inl n ↦ LabelFault-cons e k v l (collect_labels-LabelFault l (insert k v m) e (ground arith))
    | inr n ↦
        let p : invalid_label_name k ≡ e = ground arith in
        subst (λ e. LabelFault e ((k, v) ∷ l)) p (inl refl, n)
  ]
]
