-- ===== src/Http/Tests.antt =====
-- The theorems about the token check, `run_sql` and the times at concrete inputs.
use skaldberg.Base.{ℕ, ◌≡◌, ◌↔◌, ◌++◌, refl, some, List, [], ◌∷◌, map, take, length, ok, arith}
use skaldberg.Base.Int.{negsuc, pos, scale, ◌+ℤ◌}
use skaldberg.Text.{lit}
use skaldberg.Http.Auth.{require_bearer_token, next_runs, require_bearer_token_iff}
use skaldberg.Http.Sql.{Engine, SqlResponse, SqlRequest, run_sql, concat, is_cut, run_sql-rows}
use skaldberg.Http.Convert.{timestamp_parts, milliseconds, nanos, late_by, timestamp_parts-time}

require_bearer_token_iff_example :
    (require_bearer_token (λ v. some v) (some (lit "s3cret")) (some (lit "Bearer s3cret"))
      ≡ next_runs)
    ↔ ((v : List ℕ) × (some (lit "Bearer s3cret") ≡ some v)
        × (some v ≡ some (lit "Bearer " ++ lit "s3cret")))
require_bearer_token_iff_example =
    require_bearer_token_iff (λ v. some v) (lit "s3cret") (some (lit "Bearer s3cret"))

abbrev two_batches : List (List ℕ)
two_batches = (1 ∷ 2 ∷ []) ∷ (3 ∷ 4 ∷ []) ∷ []

abbrev engine : Engine Unit ℕ
engine = record {
  sql = λ s. some tt;
  schema = λ p. (lit "n", lit "Int64") ∷ [];
  collect = λ p. some two_batches;
}

abbrev request : SqlRequest
request = record { sql = lit "SELECT n"; max_rows = 3 }

run_sql-rows_example :
    (res : SqlResponse ℕ) × (run_sql engine (λ n. n) request ≡ ok res)
    × (res.rows ≡ map (λ n. n) (take 3 (concat two_batches)))
    × (res.meta.row_count ≡ length res.rows)
    × (res.meta.truncated ≡ is_cut 3 (length (concat two_batches)) two_batches)
run_sql-rows_example = run_sql-rows engine (λ n. n) request tt two_batches refl refl (omega arith)

-- 1.5 seconds before 1970
timestamp_parts-time_example :
    scale (timestamp_parts milliseconds (negsuc 1499)).0 1_000_000_000
      +ℤ pos (timestamp_parts milliseconds (negsuc 1499)).1
    ≡ scale (negsuc 1499) (nanos milliseconds) +ℤ pos (late_by milliseconds (negsuc 1499))
timestamp_parts-time_example = timestamp_parts-time milliseconds (negsuc 1499)
