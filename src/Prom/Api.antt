-- ===== src/Prom/Api.antt =====
-- The queries of src/prometheus.rs: `instant_query_inner`, `range_query_inner`, and how they read
-- times and durations. The parser of PromQL and that of RFC 3339 times are parameters.
pub mod Durations
use skaldberg.Base.{
  ℕ, Bool, ◌&&◌, Option, none, some, List, [], ◌∷◌, ◌++◌, ◌==◌, leb, ltb, if◌then◌else◌, is_empty,
  Result, ok, err,
}
use skaldberg.Base.Int.{ℤ, pos, ltb_ℤ}
use skaldberg.BTreeMap.{BTreeMap}
use skaldberg.Text.{Text, lit}
use skaldberg.Text.Trim.{trim}
use skaldberg.Float.{Float}
use skaldberg.Prom.Types.{Expr}
use skaldberg.Prom.Query.{Tokens}
use skaldberg.Prom.Json.{instant_points_to_json, range_points_to_json}
use skaldberg.Prom.Engine.{PromError, bad_data, panicked, Database}
use skaldberg.Prom.Eval.{Run, and_then}
use skaldberg.Prom.Eval.Instant.{evaluate_instant}
use skaldberg.Prom.Eval.Range.{evaluate_range}
use skaldberg.Prom.Eval.Size.{size}

-- `parse(&query).ok()`, and the microseconds of `DateTime::parse_from_rfc3339`
pub record Parsers (F : Type 0) : Type 0 where
  pub parse : Text → Option (Expr F)
  pub parse_from_rfc3339 : Text → Option ℤ

pub record QueryParams : Type 0 where
  pub query : Text
  pub time : Option Text

pub record QueryRangeParams : Type 0 where
  pub query : Text
  pub start : Text
  pub end : Text
  pub step : Text

-- The object of an answer
pub record Success (R : Type 0) : Type 0 where
  pub result_type : Text
  pub result : List R

abbrev pub success_vector : {R : Type 0} → List R → Success R
success_vector result = record { result_type = lit "vector"; result = result }

abbrev pub success_matrix : {R : Type 0} → List R → Success R
success_matrix result = record { result_type = lit "matrix"; result = result }

-- `split_at(len - 1)` of a text that is not empty
unfoldable pub split_last : ℕ → Text → Text × ℕ
split_last c [] = ([], c)
split_last c (d ∷ cs) = let rest = split_last d cs in (c ∷ rest.0, rest.1)

-- The second and later bytes of a character
abbrev pub is_continuation : ℕ → Bool
is_continuation c = leb 128 c && ltb c 192

-- A `?`
abbrev pub or_return : {A B : Type 0} → Result PromError A → (A → Run B) → Run B
or_return (err e) g = some (err e)
or_return (ok a) g = g a

module _ {F : Type 0} ⦃f : Float F⦄ where
  -- `(x * 1_000_000.0) as i64`, for a scale
  abbrev pub scaled : F → ℕ → ℤ
  scaled x scale = f.as_i64 (f.mul x (f.of_count scale))

  abbrev pub parse_timestamp : Parsers F → Text → Result PromError ℤ
  parse_timestamp ps s = elim (f.parse s) [
    | some secs ↦ ok (scaled secs 1_000_000)
    | none ↦ elim (ps.parse_from_rfc3339 s) [ some us ↦ ok us | none ↦ err bad_data ]
  ]

  unfoldable pub in_unit : F → ℕ → Result PromError ℤ
  in_unit n unit =
      if unit == b's'
      then ok (scaled n 1_000_000)
      else if unit == b'm'
      then ok (scaled n 60_000_000)
      else if unit == b'h'
      then ok (scaled n 3_600_000_000)
      else if unit == b'd'
      then ok (scaled n 86_400_000_000)
      else err bad_data

module _ (F : Type 0) ⦃f : Float F⦄ where
  -- The number and the unit of a trimmed text; a last character of more than one byte is split.
  unfoldable pub with_unit : Text → Result PromError ℤ
  unfolding split_last in_unit
  with_unit [] = err bad_data
  with_unit (c ∷ cs) =
      let (num_str, unit) = split_last c cs in
      if is_continuation unit
      then err panicked
      else elim (f.parse num_str) [ none ↦ err bad_data | some n ↦ in_unit n unit ]

  unfoldable pub parse_duration_us : Text → Result PromError ℤ
  unfolding with_unit trim
  parse_duration_us s = elim (f.parse s) [
    | some secs ↦ ok (scaled secs 1_000_000)
    | none ↦ with_unit (trim s)
  ]

module _ {P F : Type 0} ⦃f : Float F⦄ (ps : Parsers F) (t : Tokens) (db : Database P F) where
  abbrev pub time_of : (now_us : ℤ) → Option Text → Result PromError ℤ
  time_of now_us none = ok now_us
  time_of now_us (some s) = parse_timestamp ps s

  abbrev pub parsed : Text → Result PromError (Expr F)
  parsed query = elim (ps.parse query) [ none ↦ err bad_data | some expr ↦ ok expr ]

  -- The fuel is the number of the expression's nodes.
  unfoldable pub instant_query_inner :
      (now_us : ℤ) → QueryParams → Run (Success (BTreeMap Text Text × (F × Text)))
  unfolding evaluate_instant instant_points_to_json size
  instant_query_inner now_us p = or_return (time_of now_us p.time) (λ time_us.
      or_return (parsed p.query) (λ expr.
        and_then (evaluate_instant db t (size expr) expr time_us)
          (λ points. success_vector (instant_points_to_json points))))

  unfoldable pub range_query_inner :
      QueryRangeParams → Run (Success (BTreeMap Text Text × List (F × Text)))
  unfolding evaluate_range range_points_to_json size parse_duration_us
  range_query_inner p = or_return (parse_timestamp ps p.start) (λ start_us.
      or_return (parse_timestamp ps p.end) (λ end_us.
        or_return (parse_duration_us F p.step) (λ step_us.
          if ltb_ℤ (pos 0) step_us
          then or_return (parsed p.query) (λ expr.
            and_then (evaluate_range db t (size expr) expr start_us end_us step_us)
              (λ series. success_matrix (range_points_to_json series)))
          else some (err bad_data))))
