-- ===== src/Prom/Select/Escape.antt =====
-- What is quoted into SQL by src/prometheus.rs reads back as it was.
use skaldberg.Base.{
  ℕ, ◌≡◌, refl, ap, Bool, true, false, Bool-cases, inl, inr, Option, none, some, [], ◌∷◌, ◌++◌,
  ◌==◌, if◌then◌else◌, arith, ==_iff,
}
use skaldberg.Text.{Text, starts_with}
use skaldberg.Prom.Select.{sql_escape}

abbrev pub push : ℕ → Option (Text × Text) → Option (Text × Text)
push c none = none
push c (some (text, rest)) = some (c ∷ text, rest)

-- The SQL reader behind an opening quote, and whether a quote has just been read: the text of the
-- literal and what follows it, or `none` for a literal that does not end. A doubled quote stands for
-- one.
unfoldable pub read_literal : Bool → Text → Option (Text × Text)
read_literal false [] = none
read_literal true [] = some ([], [])
read_literal false (c ∷ s) =
    let ended = read_literal true s in
    let more = read_literal false s in if c == b'\'' then ended else push c more
read_literal true (c ∷ s) =
    let more = read_literal false s in if c == b'\'' then push c more else some ([], c ∷ s)

read_literal-end :
    (rest : Text) → starts_with (b'\'' ∷ []) rest ≡ false → read_literal true rest ≡ some ([], rest)
unfolding read_literal starts_with
read_literal-end [] h = refl
read_literal-end (c ∷ rest) h = ground arith

-- Whatever a text holds, quotes included, its escaped form between single quotes is one SQL literal
-- that reads back as the text, and what follows it, unless it begins with a quote, stays outside.
pub read_literal-sql_escape :
    (s rest : Text)
    → starts_with (b'\'' ∷ []) rest ≡ false
    → read_literal false (sql_escape s ++ (b'\'' ∷ rest)) ≡ some (s, rest)
unfolding read_literal sql_escape
read_literal-sql_escape [] rest h = read_literal-end rest h
read_literal-sql_escape (c ∷ s) rest h = elim (Bool-cases (c == b'\'')) [
  | inl e ↦
      let quote : c ≡ b'\'' = (==_iff c (b'\'')).0 e in
      rw quote (ap (push (b'\'')) (read_literal-sql_escape s rest h))
  | inr e ↦ rw (e, read_literal) (rw (e) (ap (push c) (read_literal-sql_escape s rest h)))
]
