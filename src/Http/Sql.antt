-- ===== src/Http/Sql.antt =====
-- `run_sql` of src/handlers.rs. DataFusion is a parameter: it plans a statement, tells the plan's
-- columns and collects its batches, each the list of its rows. The elapsed time is left out.
use skaldberg.Base.{
  ℕ, zero, suc, ◌+◌, ◌-◌, ◌≡◌, ◌≤◌, ◌<◌, ◌%◌, ◌^◌, refl, ap, ◌∙◌, sym, Bool, true, false,
  Bool-cases, Option, none, some, List, [], ◌∷◌, ◌++◌, map, take, length, length-append, ltb, ◌==◌,
  ◌||◌, ◌&&◌, is_empty, if◌then◌else◌, arith, Result, ok, err, inl, inr, length-take,
  take-append_ge, take-append_le,
}
use mathlib.Core.List.{append-nil}
use skaldberg.Text.{Text}

pub record Engine (P Row : Type 0) : Type 0 where
  pub sql : Text → Option P
  pub schema : P → List (Text × Text)
  pub collect : P → Option (List (List Row))

pub record SqlRequest : Type 0 where
  pub sql : Text
  pub max_rows : ℕ

abbrev pub default_max_rows : ℕ
default_max_rows = 100_000

-- `name`, `type`
pub record ColumnMeta : Type 0 where
  pub name : Text
  pub type_name : Text

pub record Meta : Type 0 where
  pub row_count : ℕ
  pub truncated : Bool

pub record SqlResponse (V : Type 0) : Type 0 where
  pub columns : List ColumnMeta
  pub rows : List V
  pub meta : Meta

pub data SqlError : Type 0 where
  sql_parse_plan : SqlError
  sql_execute : SqlError

module _ {Row : Type 0} where
  -- The loop over the batches: those kept, the count of their rows, and whether it stopped early
  unfoldable pub trim : ℕ → List (List Row) → ℕ → List (List Row) × (ℕ × Bool)
  trim max_rows [] row_count = ([], (row_count, false))
  trim max_rows (batch ∷ batches) row_count =
      let need = max_rows - row_count in
      let (trimmed, rest) = trim max_rows batches ((row_count + length batch) % 2 ^ 64) in
      if need == 0
      then ([], (row_count, true))
      else if ltb need (length batch)
      then (take need batch ∷ [], ((row_count + need) % 2 ^ 64, true))
      else (batch ∷ trimmed, rest)

  abbrev pub concat : List (List Row) → List Row
  concat [] = []
  concat (batch ∷ batches) = batch ++ concat batches

module _ {Row : Type 0} where
  take-nil : (n : ℕ) → take {A = Row} n [] ≡ []
  take-nil zero = refl
  take-nil (suc n) = refl

  length-map : {V : Type 0} (f : Row → V) (rows : List Row) → length (map f rows) ≡ length rows
  length-map f [] = refl
  length-map f (row ∷ rows) = omega (arith, length-map f rows)

  -- The last batch is there and has no rows.
  abbrev pub ends_empty : List (List Row) → Bool
  ends_empty [] = false
  ends_empty (batch ∷ []) = is_empty batch
  ends_empty (batch ∷ next ∷ batches) = ends_empty (next ∷ batches)

  -- There are more rows than `max_rows`, or as many and behind them a batch without rows.
  abbrev pub is_cut : ℕ → ℕ → List (List Row) → Bool
  is_cut max_rows total batches = ltb max_rows total || ((max_rows == total) && ends_empty batches)

  ends_empty-concat :
      (batch : List Row) (batches : List (List Row))
      → length (concat (batch ∷ batches)) ≡ 0
      → ends_empty (batch ∷ batches) ≡ true
  ends_empty-concat [] [] h = refl
  ends_empty-concat (row ∷ rows) [] h = absurd (ground (arith, h))
  ends_empty-concat batch (next ∷ batches) h =
      ends_empty-concat next batches
        (omega (arith, h, length-append batch (concat (next ∷ batches))))

  -- Nothing is cut at a batch that fits and leaves room, except behind it.
  is_cut-later :
      (max_rows row_count total : ℕ) (batch : List Row) (batches : List (List Row))
      → row_count < max_rows
      → total ≡ row_count + (length batch + length (concat batches))
      → is_cut max_rows total batches ≡ is_cut max_rows total (batch ∷ batches)
  is_cut-later max_rows row_count total [] [] h e = ground arith
  is_cut-later max_rows row_count total (row ∷ rows) [] h e = ground arith
  is_cut-later max_rows row_count total batch (next ∷ batches) h e = refl

  is_cut-full :
      (max_rows total : ℕ) (batch : List Row) (batches : List (List Row))
      → total ≡ max_rows + length (concat (batch ∷ batches))
      → is_cut max_rows total (batch ∷ batches) ≡ true
  is_cut-full max_rows total batch batches e =
      elim (Bool-cases (length (concat (batch ∷ batches)) == 0)) [
        | inl z ↦
            let zero_left : length (concat (batch ∷ batches)) ≡ 0 = ground arith in
            rw (ends_empty-concat batch batches zero_left) (ground arith)
        | inr z ↦ ground arith
      ]

  -- What the loop returns from `row_count` on
  abbrev Trimmed : ℕ → List (List Row) → ℕ → List (List Row) × (ℕ × Bool) → Type 0
  Trimmed max_rows batches row_count (trimmed, (n, truncated)) =
      (concat trimmed ≡ take (max_rows - row_count) (concat batches))
      × (n ≡ row_count + length (concat trimmed))
      × (truncated ≡ is_cut max_rows (row_count + length (concat batches)) batches)

  Trimmed-later :
      (max_rows row_count : ℕ) (batch : List Row) (batches : List (List Row))
      (r : List (List Row) × (ℕ × Bool))
      → row_count + length batch ≤ max_rows
      → row_count < max_rows
      → Trimmed max_rows batches (row_count + length batch) r
      → Trimmed max_rows (batch ∷ batches) row_count (batch ∷ r.0, r.1)
  Trimmed-later max_rows row_count batch batches (trimmed, (n, truncated)) h more
        (rows, count, cut) =
      let all = length-append batch (concat batches) in
      let less : (max_rows - row_count) - length batch ≡ max_rows - (row_count + length batch) =
        omega arith in
      (
        ap (◌++◌ batch) (rows ∙ ap (λ k. take k (concat batches)) (sym less))
            ∙ sym (take-append_ge (max_rows - row_count) batch (concat batches) (omega arith)),
        omega (arith, count, length-append batch (concat trimmed)),
        cut
            ∙ ap (λ total. is_cut max_rows total batches) (omega (arith, all))
            ∙ is_cut-later max_rows row_count (row_count + length (concat (batch ∷ batches))) batch
                batches more (omega (arith, all)),
      )

  trim-Trimmed :
      (max_rows row_count : ℕ) (batches : List (List Row))
      → row_count ≤ max_rows
      → row_count + length (concat batches) < 2 ^ 64
      → Trimmed max_rows batches row_count (trim max_rows batches row_count)
  unfolding trim
  trim-Trimmed max_rows row_count [] h b =
      (sym (take-nil (max_rows - row_count)), omega arith, ground arith)
  trim-Trimmed max_rows row_count (batch ∷ batches) h b =
      let all = length-append batch (concat batches) in
      let need = max_rows - row_count in
      elim (Bool-cases (need == 0)) [
        | inl e ↦
            let none_left : need ≡ 0 = ground arith in
            rw (e, trim)
              (
                ap (λ k. take k (batch ++ concat batches)) (sym none_left),
                omega arith,
                sym (
                    is_cut-full max_rows (row_count + length (concat (batch ∷ batches))) batch
                      batches (omega arith)),
              )
        | inr e ↦ elim (Bool-cases (ltb need (length batch))) [
          | inl f ↦
              let fits : need ≤ length batch = ground arith in
              rw (e, trim)
                (rw (f, trim)
                  (
                    append-nil (take need batch)
                        ∙ sym (take-append_le need batch (concat batches) fits),
                    omega (
                      arith,
                      length-take need batch fits,
                      ap length (append-nil (take need batch)),
                      all,
                    ),
                    ground (arith, all),
                  ))
          | inr f ↦
              let fits : length batch ≤ need = ground arith in
              let sum : (row_count + length batch) % 2 ^ 64 ≡ row_count + length batch =
                omega (arith, all) in
              rw (e, trim)
                (rw (f, trim)
                  (rw sum (
                    Trimmed-later max_rows row_count batch batches
                      (trim max_rows batches (row_count + length batch)) (omega arith)
                      (ground arith)
                      (trim-Trimmed max_rows (row_count + length batch) batches (omega arith)
                        (omega (arith, all))))))
        ]
      ]

module _ {P Row V : Type 0} (engine : Engine P Row) (to_json : Row → V) where
  abbrev response : P → List (List Row) × (ℕ × Bool) → SqlResponse V
  response df (trimmed, (row_count, truncated)) = record {
    columns =
        map (λ (name, type_name). record { name = name; type_name = type_name }) (engine.schema df);
    rows = map to_json (concat trimmed);
    meta = record { row_count = row_count; truncated = truncated };
  }

  unfoldable pub run_sql : SqlRequest → Result SqlError (SqlResponse V)
  unfolding trim
  run_sql req = elim (engine.sql req.sql) [
    | none ↦ err sql_parse_plan
    | some df ↦ elim (engine.collect df) [
      | none ↦ err sql_execute
      | some batches ↦ ok (response df (trim req.max_rows batches 0))
    ]
  ]

  -- When the statement is planned and run, and the result has fewer than 2^64 rows: the response has
  -- the first `max_rows` rows of the result, in order, and `row_count` is their number. `truncated`
  -- is set exactly if the result has more than `max_rows` rows, or exactly so many and a last batch
  -- without rows.
  pub run_sql-rows :
      (req : SqlRequest) (df : P) (batches : List (List Row))
      → engine.sql req.sql ≡ some df
      → engine.collect df ≡ some batches
      → length (concat batches) < 2 ^ 64
      → (res : SqlResponse V) × (run_sql req ≡ ok res)
        × (res.rows ≡ map to_json (take req.max_rows (concat batches)))
        × (res.meta.row_count ≡ length res.rows)
        × (res.meta.truncated ≡ is_cut req.max_rows (length (concat batches)) batches)
  unfolding run_sql
  run_sql-rows req df batches h k b =
      let (rows, count, cut) = trim-Trimmed req.max_rows 0 batches (omega arith) (omega arith) in
      (
        response df (trim req.max_rows batches 0),
        rw (h, run_sql) (rw (k, run_sql) refl),
        ap (map to_json) (rows ∙ ap (λ n. take n (concat batches)) (omega arith)),
        count ∙ omega arith ∙ sym (length-map to_json (concat (trim req.max_rows batches 0).0)),
        cut ∙ ap (λ total. is_cut req.max_rows total batches) (omega arith),
      )
