-- ===== src/Ingest/RemoteWrite/Labels.antt =====
-- The loop over the labels of a series in `flatten_write_request` of src/ingest/remote_write.rs.
use skaldberg.Base.{
  ◌≡◌, refl, ap, sym, ◌∙◌, Bool, true, false, Bool-cases, inl, inr, Option, none, some, List, [],
  ◌∷◌, if◌then◌else◌, arith,
}
use skaldberg.Order.{◌=?◌, =?-eq, =?_refl, list_ord, nat_ord}
use skaldberg.BTreeMap.{get}
use skaldberg.BTreeMap.Laws.{HasDistinctKeys}
use skaldberg.Text.{Text, lit, starts_with}
use skaldberg.Ingest.RemoteWrite.{Label, insert_label, scan_labels}

-- The value of the last label of that name
abbrev pub last_value : Text → List Label → Option Text
last_value k [] = none
last_value k (l ∷ ls) = elim (last_value k ls) [
  | some v ↦ some v
  | none ↦ if k =? l.name then some l.value else none
]

abbrev pub is_reserved : Text → Bool
is_reserved k = starts_with (lit "__") k

=?_flip : (k j : Text) → (k =? j) ≡ false → (j =? k) ≡ false
=?_flip k j e = ground (arith, =?-eq j k, =?_refl k)

-- `labels` holds each name that is not reserved once, with its last value, and no other name.
abbrev pub IsLabelsOf : List Label → List (Text × Text) → Type 0
IsLabelsOf ls labels =
    HasDistinctKeys labels
    × ((k : Text) → get k labels ≡ (if is_reserved k then none else last_value k ls))

abbrev first_some : Option Text → Option Text → Option Text
first_some none o = o
first_some (some v) o = some v

first_some_assoc :
    (a b c : Option Text) → first_some (first_some a b) c ≡ first_some a (first_some b c)
first_some_assoc none b c = refl
first_some_assoc (some v) b c = refl

first_some-none : (a : Option Text) → first_some a none ≡ a
first_some-none none = refl
first_some-none (some v) = refl

get-insert_label :
    (k j v : Text) (labels : List (Text × Text))
    → get k (insert_label j v labels) ≡ (if k =? j then some v else get k labels)
unfolding get insert_label
get-insert_label k j v [] = ground arith
get-insert_label k j v ((i, u) ∷ labels) =
    ground (arith, get-insert_label k j v labels, =?-eq j i, =?-eq k j, =?-eq k i)

HasDistinctKeys-insert_label :
    (j v : Text) (labels : List (Text × Text))
    → HasDistinctKeys labels
    → HasDistinctKeys (insert_label j v labels)
unfolding get insert_label
HasDistinctKeys-insert_label j v [] d = (refl, tt)
HasDistinctKeys-insert_label j v ((i, u) ∷ labels) d = elim (Bool-cases (j =? i)) [
  | inl e ↦ rw (e, insert_label) (rw (=?-eq j i e) d)
  | inr e ↦
      rw (e, insert_label)
        (
          get-insert_label i j v labels ∙ rw (=?_flip j i e) d.0,
          HasDistinctKeys-insert_label j v labels d.1,
        )
]

-- What the loop adds for the name `k`
abbrev added : Text → List Label → Option Text
added k ls = if is_reserved k then none else last_value k ls

added-cons :
    (k : Text) (l : Label) (ls : List Label)
    → added k (l ∷ ls) ≡ first_some (added k ls) (added k (l ∷ []))
added-cons k l ls = elim (Bool-cases (is_reserved k)) [
  | inl e ↦ rw e refl
  | inr e ↦ rw e (ground arith)
]

added-reserved : (k : Text) (l : Label) → is_reserved l.name ≡ true → added k (l ∷ []) ≡ none
added-reserved k l h = elim (Bool-cases (k =? l.name)) [
  | inl e ↦ let same : is_reserved k ≡ true = ap is_reserved (=?-eq k l.name e) ∙ h in rw same refl
  | inr e ↦ rw e (ground arith)
]

added-ordinary :
    (k : Text) (l : Label) (o : Option Text)
    → is_reserved l.name ≡ false
    → first_some (added k (l ∷ [])) o ≡ (if k =? l.name then some l.value else o)
added-ordinary k l o h = elim (Bool-cases (k =? l.name)) [
  | inl e ↦
      let same : is_reserved k ≡ false = ap is_reserved (=?-eq k l.name e) ∙ h in rw (same, e) refl
  | inr e ↦ rw e (ground arith)
]

is_reserved-name : (k : Text) → (k =? lit "__name__") ≡ true → is_reserved k ≡ true
unfolding starts_with
is_reserved-name k e = ap is_reserved (=?-eq k (lit "__name__") e)

-- A label that adds nothing, in front of labels that do what they do
skip_label :
    (k : Text) (l : Label) (ls : List Label) (o : Option Text)
    → is_reserved l.name ≡ true
    → first_some (added k ls) o ≡ first_some (added k (l ∷ ls)) o
skip_label k l ls o h =
    ap (λ a. first_some a o)
      (sym (added-cons k l ls ∙ rw (added-reserved k l h) (first_some-none (added k ls))))

scan_labels-get :
    (k : Text) (ls : List Label) (metric : Option Text) (labels : List (Text × Text))
    → get k (scan_labels ls metric labels).1 ≡ first_some (added k ls) (get k labels)
unfolding scan_labels
scan_labels-get k [] metric labels = ground arith
scan_labels-get k (l ∷ ls) metric labels = elim (Bool-cases (l.name =? lit "__name__")) [
  | inl e ↦
      rw (e, scan_labels)
        (scan_labels-get k ls (some l.value) labels
          ∙ skip_label k l ls (get k labels) (is_reserved-name l.name e))
  | inr e ↦ elim (Bool-cases (is_reserved l.name)) [
    | inl r ↦ rw (e, r) (scan_labels-get k ls metric labels ∙ skip_label k l ls (get k labels) r)
    | inr r ↦
        rw (e, r)
          (scan_labels-get k ls metric (insert_label l.name l.value labels)
            ∙ ap (first_some (added k ls)) (
                get-insert_label k l.name l.value labels
                ∙ sym (added-ordinary k l (get k labels) r))
            ∙ sym (first_some_assoc (added k ls) (added k (l ∷ [])) (get k labels))
            ∙ ap (λ a. first_some a (get k labels)) (sym (added-cons k l ls)))
  ]
]

scan_labels-HasDistinctKeys :
    (ls : List Label) (metric : Option Text) (labels : List (Text × Text))
    → HasDistinctKeys labels
    → HasDistinctKeys (scan_labels ls metric labels).1
unfolding scan_labels
scan_labels-HasDistinctKeys [] metric labels d = d
scan_labels-HasDistinctKeys (l ∷ ls) metric labels d =
    elim (Bool-cases (l.name =? lit "__name__")) [
      | inl e ↦ rw e (scan_labels-HasDistinctKeys ls (some l.value) labels d)
      | inr e ↦ elim (Bool-cases (is_reserved l.name)) [
        | inl r ↦ rw (e, r) (scan_labels-HasDistinctKeys ls metric labels d)
        | inr r ↦
            rw (e, r)
              (scan_labels-HasDistinctKeys ls metric (insert_label l.name l.value labels)
                (HasDistinctKeys-insert_label l.name l.value labels d))
      ]
    ]

-- The labels that the loop collects, from none on
pub scan_labels-IsLabelsOf : (ls : List Label) → IsLabelsOf ls (scan_labels ls none []).1
unfolding get
scan_labels-IsLabelsOf ls = (
  scan_labels-HasDistinctKeys ls none [] tt,
  λ k. scan_labels-get k ls none [] ∙ first_some-none (added k ls),
)

-- The last name, where the first label has the name or has another one
last_value-head :
    (k : Text) (l : Label) (ls : List Label) (o : Option Text)
    → (l.name =? k) ≡ true
    → first_some (last_value k ls) (some l.value) ≡ first_some (last_value k (l ∷ ls)) o
last_value-head k l ls o e =
    let flip : (k =? l.name) ≡ true =
      ap (λ j. j =? l.name) (sym (=?-eq l.name k e)) ∙ =?_refl l.name in
    ground (arith, flip)

last_value-tail :
    (k : Text) (l : Label) (ls : List Label) (o : Option Text)
    → (l.name =? k) ≡ false
    → first_some (last_value k ls) o ≡ first_some (last_value k (l ∷ ls)) o
last_value-tail k l ls o e = ground (arith, =?_flip l.name k e)

scan_labels-metric :
    (ls : List Label) (metric : Option Text) (labels : List (Text × Text))
    → (scan_labels ls metric labels).0 ≡ first_some (last_value (lit "__name__") ls) metric
unfolding scan_labels
scan_labels-metric [] metric labels = refl
scan_labels-metric (l ∷ ls) metric labels = elim (Bool-cases (l.name =? lit "__name__")) [
  | inl e ↦
      rw (e, scan_labels)
        (scan_labels-metric ls (some l.value) labels
          ∙ last_value-head (lit "__name__") l ls metric e)
  | inr e ↦
      let tail = last_value-tail (lit "__name__") l ls metric e in
      elim (Bool-cases (is_reserved l.name)) [
        | inl r ↦ rw (e, r) (scan_labels-metric ls metric labels ∙ tail)
        | inr r ↦
            rw (e, r) (scan_labels-metric ls metric (insert_label l.name l.value labels) ∙ tail)
      ]
]

pub scan_labels-name :
    (ls : List Label) → (scan_labels ls none []).0 ≡ last_value (lit "__name__") ls
scan_labels-name ls =
    scan_labels-metric ls none [] ∙ first_some-none (last_value (lit "__name__") ls)
