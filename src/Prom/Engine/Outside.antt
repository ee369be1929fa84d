-- ===== src/Prom/Engine/Outside.antt =====
-- What is not inside a literal in the SQL of src/prometheus.rs.
use skaldberg.Base.{
  ◌≡◌, refl, ap, ◌∙◌, Bool, true, false, not, Bool-cases, inl, inr, none, some, Option-cases, List,
  [], ◌∷◌, ◌++◌, ◌==◌, if◌then◌else◌, arith,
}
use skaldberg.Base.Int.{ℤ}
use skaldberg.Text.{Text, lit}
use skaldberg.Prom.Types.{MatchOp, Matcher, VectorSelector}
use skaldberg.Prom.Select.{
  sql_escape, is_name, effective_metric_name, predicate_of, predicates_of, selector_predicates,
  join,
}
use skaldberg.Prom.Engine.{Database, time_between, conditions, selector_sql}

-- The text outside of literals and whether the end is inside of one; quotes are left out. A doubled
-- quote leaves the literal and enters it again.
unfoldable pub outside : Bool → Text → Text × Bool
outside inside [] = ([], inside)
outside inside (c ∷ s) =
    let turned = outside (not inside) s in
    let (text, e) = outside inside s in
    if c == b'\'' then turned else if inside then (text, e) else (c ∷ text, e)

abbrev join_outside : Text → Text × Bool → Text × Bool
join_outside a (b, e) = (a ++ b, e)

outside-append :
    (inside : Bool) (s t : Text)
    → outside inside (s ++ t) ≡ join_outside (outside inside s).0 (outside (outside inside s).1 t)
unfolding outside
outside-append inside [] t = refl
outside-append inside (c ∷ s) t =
    ground (arith, outside-append inside s t, outside-append (not inside) s t)

-- An escaped text inside a literal stays inside.
outside-sql_escape : (s : Text) → outside true (sql_escape s) ≡ ([], true)
unfolding outside sql_escape
outside-sql_escape [] = refl
outside-sql_escape (c ∷ s) = ground (arith, outside-sql_escape s)

outside-quoted : (s rest : Text) → outside true (sql_escape s ++ rest) ≡ outside true rest
outside-quoted s rest =
    outside-append true (sql_escape s) rest
    ∙ ap (λ (x : Text × Bool). join_outside x.0 (outside x.1 rest)) (outside-sql_escape s)

-- What stands outside for a matcher
abbrev pub bare : Matcher → List Text
bare m = if is_name m then [] else elim m.op [
  | MatchOp.equal ↦ lit "element_at(s.labels, )[1] = " ∷ []
  | MatchOp.not_equal ↦ lit "COALESCE(element_at(s.labels, )[1], ) != " ∷ []
  | MatchOp.re p ↦ []
  | MatchOp.not_re p ↦ []
]

abbrev pub bare_each : List Matcher → List Text
bare_each [] = []
bare_each (m ∷ ms) = bare m ++ bare_each ms

abbrev pub bare_selector : VectorSelector → List Text
bare_selector sel = elim (effective_metric_name sel) [
  | none ↦ bare_each sel.matchers
  | some name ↦ lit "s.metric_name = " ∷ bare_each sel.matchers
]

-- Each text ends outside of literals, with the other outside.
abbrev Bares : List Text → List Text → Type 0
Bares [] [] = Unit
Bares (s ∷ ss) (t ∷ ts) = (outside false s ≡ (t, false)) × Bares ss ts
Bares [] (t ∷ ts) = ⊥
Bares (s ∷ ss) [] = ⊥

Bares-append : (ss ts us vs : List Text) → Bares ss ts → Bares us vs → Bares (ss ++ us) (ts ++ vs)
Bares-append [] [] us vs h k = k
Bares-append [] (b ∷ ts) us vs h k = absurd h
Bares-append (a ∷ ss) [] us vs h k = absurd h
Bares-append (a ∷ ss) (b ∷ ts) us vs h k = (h.0, Bares-append ss ts us vs h.1 k)

join-Bares :
    (ss ts : List Text)
    → Bares ss ts
    → outside false (join (lit " AND ") ss) ≡ (join (lit " AND ") ts, false)
unfolding outside
join-Bares [] [] h = refl
join-Bares [] (b ∷ ts) h = absurd h
join-Bares (a ∷ ss) [] h = absurd h
join-Bares (a ∷ []) (b ∷ []) h = h.0
join-Bares (a ∷ []) (b ∷ b' ∷ ts) h = absurd h.1
join-Bares (a ∷ a' ∷ ss) (b ∷ []) h = absurd h.1
join-Bares (a ∷ a' ∷ ss) (b ∷ b' ∷ ts) h =
    outside-append false a (lit " AND " ++ join (lit " AND ") (a' ∷ ss))
    ∙ ap
        (λ (x : Text × Bool).
          join_outside x.0 (outside x.1 (lit " AND " ++ join (lit " AND ") (a' ∷ ss))))
        h.0
    ∙ ap (λ (x : Text × Bool). join_outside b (join_outside (lit " AND ") x))
        (join-Bares (a' ∷ ss) (b' ∷ ts) h.1)

with_op : Matcher → MatchOp → Matcher
with_op m op = record m { op = op }

predicate_of_op-Bares :
    (m : Matcher) (op : MatchOp)
    → is_name m ≡ false
    → Bares (predicate_of (with_op m op)) (bare (with_op m op))
unfolding predicate_of outside with_op
predicate_of_op-Bares m MatchOp.equal e =
    rw (e, predicate_of)
      (rw (outside-quoted m.name (lit "')[1] = '" ++ (sql_escape m.value ++ lit "'")))
        (rw (outside-quoted m.value (lit "'")) (refl, tt)))
predicate_of_op-Bares m MatchOp.not_equal e =
    rw (e, predicate_of)
      (rw (outside-quoted m.name (lit "')[1], '') != '" ++ (sql_escape m.value ++ lit "'")))
        (rw (outside-quoted m.value (lit "'")) (refl, tt)))
predicate_of_op-Bares m (MatchOp.re p) e = rw (e, predicate_of) tt
predicate_of_op-Bares m (MatchOp.not_re p) e = rw (e, predicate_of) tt

predicate_of-Bares : (m : Matcher) → Bares (predicate_of m) (bare m)
unfolding predicate_of with_op
predicate_of-Bares m = elim (Bool-cases (is_name m)) [
  | inl e ↦ rw (e, predicate_of) tt
  | inr e ↦ predicate_of_op-Bares m m.op e
]

predicates_of-Bares : (ms : List Matcher) → Bares (predicates_of ms) (bare_each ms)
unfolding predicates_of
predicates_of-Bares [] = tt
predicates_of-Bares (m ∷ ms) =
    Bares-append (predicate_of m) (bare m) (predicates_of ms) (bare_each ms) (predicate_of-Bares m)
      (predicates_of-Bares ms)

name-Bares :
    (name : Text)
    → outside false (lit "s.metric_name = '" ++ (sql_escape name ++ lit "'"))
      ≡ (lit "s.metric_name = ", false)
unfolding outside
name-Bares name = rw (outside-quoted name (lit "'")) refl

selector_predicates-Bares :
    (sel : VectorSelector) → Bares (selector_predicates sel) (bare_selector sel)
unfolding selector_predicates
selector_predicates-Bares sel = elim (Option-cases (effective_metric_name sel)) [
  | inl e ↦ rw (e, selector_predicates) (rw (e, bare_selector) (predicates_of-Bares sel.matchers))
  | inr (name, e) ↦
      rw (e, selector_predicates)
        (rw (e, bare_selector) (name-Bares name, predicates_of-Bares sel.matchers))
]

module _ {P F : Type 0} (db : Database P F) (from_us to_us : ℤ) where
  -- A time in the form of chrono holds no quote.
  abbrev pub IsPlain : ℤ → Type 0
  IsPlain us = outside true (db.us_to_ts_lit us) ≡ ([], true)

  plain-append :
      (us : ℤ) (rest : Text)
      → IsPlain us
      → outside true (db.us_to_ts_lit us ++ rest) ≡ outside true rest
  plain-append us rest h =
      outside-append true (db.us_to_ts_lit us) rest
      ∙ ap (λ (x : Text × Bool). join_outside x.0 (outside x.1 rest)) h

  time_between-outside :
      IsPlain from_us
      → IsPlain to_us
      → outside false (time_between db from_us to_us)
        ≡ (lit "sa.timestamp BETWEEN TIMESTAMP  AND TIMESTAMP ", false)
  unfolding time_between outside
  time_between-outside h k =
      rw (plain-append from_us (lit "' AND TIMESTAMP '" ++ (db.us_to_ts_lit to_us ++ lit "'")) h)
        (rw (plain-append to_us (lit "'") k) refl)

  pub conditions-outside :
      (sel : VectorSelector)
      → IsPlain from_us
      → IsPlain to_us
      → outside false (conditions db sel from_us to_us) ≡ (
        join
            (lit " AND ")
            (bare_selector sel ++ (lit "sa.timestamp BETWEEN TIMESTAMP  AND TIMESTAMP " ∷ [])),
        false,
      )
  unfolding conditions
  conditions-outside sel h k =
      join-Bares (selector_predicates sel ++ (time_between db from_us to_us ∷ [])) _ (
        Bares-append (selector_predicates sel) (bare_selector sel)
          (time_between db from_us to_us ∷ []) _ (selector_predicates-Bares sel)
          (time_between-outside h k, tt))

  -- Whatever names and values the matchers have: outside of literals, the statement of a selector is
  -- its fixed text with one fixed condition for each matcher that SQL decides, chosen by the
  -- matcher's operator alone, and the statement ends outside of literals. (A time in the form of
  -- chrono has no quote.)
  pub selector_sql-outside :
      (sel : VectorSelector)
      → IsPlain from_us
      → IsPlain to_us
      → outside false (selector_sql db sel from_us to_us) ≡ (
        lit
              "SELECT s.metric_name, s.labels, sa.timestamp, sa.value\n         FROM iceberg.skaldberg.samples sa\n         JOIN iceberg.skaldberg.series s ON sa.series_id = s.series_id\n          WHERE "
            ++ (join
                  (lit " AND ")
                  (bare_selector sel ++ (lit "sa.timestamp BETWEEN TIMESTAMP  AND TIMESTAMP " ∷ []))
                ++ lit "\n         ORDER BY s.metric_name, sa.timestamp"),
        false,
      )
  unfolding selector_sql outside
  selector_sql-outside sel h k =
      let tail = lit "\n         ORDER BY s.metric_name, sa.timestamp" in
      let whole = outside-append false (conditions db sel from_us to_us) tail in
      rw whole (rw (conditions-outside sel h k) refl)
