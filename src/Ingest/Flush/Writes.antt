-- ===== src/Ingest/Flush/Writes.antt =====
-- What the write to one table (`flush_samples`, `flush_series` of src/ingest/flush.rs) leaves in it.
use skaldberg.Base.{
  ◌≡◌, refl, sym, ◌∙◌, Bool, true, false, Bool-cases, Option, none, some, Option-cases,
  if◌then◌else◌, List, [], ◌∷◌, ◌++◌, inl, inr, is_empty,
}
use mathlib.Core.List.{append_assoc, append-nil}
use skaldberg.Base.Int.{ℤ}
use skaldberg.Order.{int_ord}
use skaldberg.BTreeMap.{BTreeMap}
use skaldberg.Ingest.Buffer.{Chrono, ByDay, NewSeriesEntry}
use skaldberg.Ingest.Flush.{
  Arrow, Table, close_and_commit, write_days, build_samples_batch, build_series_batch, epoch_days,
  flush_samples, flush_series,
}

-- What the code relies on of a table. `rows` are the batches that queries see, `staged` those written
-- since the table was loaded, and `contents` those in some files: only a commit that succeeds changes
-- what queries see, and it adds the files' contents. `other` stands for the other table's rows.
pub record IsTable {S B File O : Type 0} (t : Table S B File) (rows : S → List B) (other : S → O)
    : Type 0 where
  pub staged : S → List B
  pub contents : List File → List B
  pub load_keeps :
      (s : S) → (rows (t.load_table s).1 ≡ rows s) × (other (t.load_table s).1 ≡ other s)
  pub load_staged : (s : S) → (t.load_table s).0 ≡ true → staged (t.load_table s).1 ≡ []
  pub write_keeps :
      (b : B) (s : S) → (rows (t.write b s).1 ≡ rows s) × (other (t.write b s).1 ≡ other s)
  pub write_staged :
      (b : B) (s : S) → (t.write b s).0 ≡ true → staged (t.write b s).1 ≡ staged s ++ (b ∷ [])
  pub close_keeps : (s : S) → (rows (t.close s).1 ≡ rows s) × (other (t.close s).1 ≡ other s)
  pub close_contents :
      (s : S) (files : List File) → (t.close s).0 ≡ some files → contents files ≡ staged s
  pub commit_keeps : (files : List File) (s : S) → other (t.commit files s).1 ≡ other s
  pub commit_ok :
      (files : List File) (s : S)
      → (t.commit files s).0 ≡ true
      → rows (t.commit files s).1 ≡ rows s ++ contents files
  pub commit_err :
      (files : List File) (s : S)
      → (t.commit files s).0 ≡ false
      → rows (t.commit files s).1 ≡ rows s

module _ {S B File O : Type 0} (t : Table S B File) (rows : S → List B) (other : S → O) where
  -- The state `s'` after a write to a table in the state `s`: `built` are the batches that it was to
  -- add, if they could be built. The write returned files, or nothing.
  abbrev pub Wrote : Option (List B) → S → Option (List File) × S → Type 0
  Wrote built s (none, s') = (rows s' ≡ rows s) × (other s' ≡ other s)
  Wrote built s (some files, s') =
      (batches : List B) × (built ≡ some batches)
      × (rows s' ≡ rows s ++ batches)
      × (other s' ≡ other s)

  close_and_commit-Wrote :
      (law : IsTable t rows other) (built : Option (List B)) (s₀ s : S)
      → built ≡ some (law.staged s)
      → rows s ≡ rows s₀
      → other s ≡ other s₀
      → Wrote built s₀ (close_and_commit t s)
  unfolding close_and_commit
  close_and_commit-Wrote law built s₀ s b h o = elim (Option-cases (t.close s).0) [
    | inl e ↦ rw (e, close_and_commit) ((law.close_keeps s).0 ∙ h, (law.close_keeps s).1 ∙ o)
    | inr (files, e) ↦
        let s' = (t.close s).1 in
        let held = law.close_contents s files e in
        let kept = (law.close_keeps s).0 ∙ h in
        let other_kept = law.commit_keeps files s' ∙ (law.close_keeps s).1 ∙ o in
        elim (Bool-cases (t.commit files s').0) [
          | inl c ↦
              rw (e, close_and_commit)
                (rw c (law.staged s, b, cc (law.commit_ok files s' c, held, kept), other_kept))
          | inr c ↦ rw (e, close_and_commit) (rw c (law.commit_err files s' c ∙ kept, other_kept))
        ]
  ]

module _ {F B R : Type 0} (arrow : Arrow F B R) where
  -- One batch, if there is a series
  abbrev pub series_batches : BTreeMap ℤ NewSeriesEntry → Option (List R)
  series_batches new_series =
      if is_empty new_series
      then some []
      else elim (build_series_batch arrow new_series) [ none ↦ none | some b ↦ some (b ∷ []) ]

module _ {D F B R : Type 0} ⦃c : Chrono D⦄ (num_days : D → D → ℤ) (arrow : Arrow F B R) where
  -- One batch for each day, under the day's number
  abbrev pub day_batches : ByDay D F → Option (List (ℤ × B))
  day_batches [] = some []
  day_batches ((day, by_series) ∷ by_day) =
      let rest = day_batches by_day in
      elim (build_samples_batch arrow by_series) [
        | none ↦ none
        | some b ↦ elim rest [ none ↦ none | some bs ↦ some ((epoch_days num_days day, b) ∷ bs) ]
      ]

module _ {D F B R S File O : Type 0} ⦃c : Chrono D⦄ (num_days : D → D → ℤ) (arrow : Arrow F B R)
    (samples : Table S (ℤ × B) File) (series : Table S R File) where
  module _ (rows : S → List (ℤ × B)) (other : S → O) (law : IsTable samples rows other) where
    -- The days after those that are staged already
    abbrev Staged : ByDay D F → S → Bool × S → Type 0
    Staged by_day s (false, s') = (rows s' ≡ rows s) × (other s' ≡ other s)
    Staged by_day s (true, s') =
        (new : List (ℤ × B)) × (day_batches num_days arrow by_day ≡ some new)
        × (law.staged s' ≡ law.staged s ++ new)
        × (rows s' ≡ rows s)
        × (other s' ≡ other s)

    Staged-later :
        (day : D) (by_series : BTreeMap ℤ (List (ℤ × F))) (by_day : ByDay D F) (b : B) (s s₁ : S)
        (r : Bool × S)
        → build_samples_batch arrow by_series ≡ some b
        → law.staged s₁ ≡ law.staged s ++ ((epoch_days num_days day, b) ∷ [])
        → rows s₁ ≡ rows s
        → other s₁ ≡ other s
        → Staged by_day s₁ r
        → Staged ((day, by_series) ∷ by_day) s r
    Staged-later day by_series by_day b s s₁ (false, s') e h k o (k', o') = (k' ∙ k, o' ∙ o)
    Staged-later day by_series by_day b s s₁ (true, s') e h k o (new, d, st, k', o') = (
      (epoch_days num_days day, b) ∷ new,
      rw (e, day_batches) (rw d refl),
      cc (st, h, append_assoc (law.staged s) ((epoch_days num_days day, b) ∷ []) new),
      k' ∙ k,
      o' ∙ o,
    )

    write_days-Staged :
        (by_day : ByDay D F) (s : S)
        → Staged by_day s (write_days num_days arrow samples series by_day s)
    unfolding write_days
    write_days-Staged [] s = ([], refl, sym (append-nil (law.staged s)), refl, refl)
    write_days-Staged ((day, by_series) ∷ by_day) s =
        elim (Option-cases (build_samples_batch arrow by_series)) [
          | inl e ↦ rw (e, write_days) (refl, refl)
          | inr (b, e) ↦
              let batch : ℤ × B = (epoch_days num_days day, b) in
              let (k, o) = law.write_keeps batch s in
              elim (Bool-cases (samples.write batch s).0) [
                | inl w ↦
                    rw (e, write_days)
                      (rw (w, write_days)
                        (Staged-later day by_series by_day b s (samples.write batch s).1
                          (write_days num_days arrow samples series by_day
                            (samples.write batch s).1)
                          e (law.write_staged batch s w) k o
                          (write_days-Staged by_day (samples.write batch s).1)))
                | inr w ↦ rw (e, write_days) (rw (w, write_days) (k, o))
              ]
        ]

    Staged-Wrote :
        (by_day : ByDay D F) (s s₁ : S) (r : Bool × S)
        → law.staged s₁ ≡ []
        → rows s₁ ≡ rows s
        → other s₁ ≡ other s
        → Staged by_day s₁ r
        → Wrote samples rows other
            (day_batches num_days arrow by_day)
            s
            (elim r.0 [ false ↦ (none, r.1) | true ↦ close_and_commit samples r.1 ])
    Staged-Wrote by_day s s₁ (false, s') z k o (k', o') = (k' ∙ k, o' ∙ o)
    Staged-Wrote by_day s s₁ (true, s') z k o (new, d, st, k', o') =
        close_and_commit-Wrote samples rows other law (day_batches num_days arrow by_day) s s'
          (cc (d, st, z)) (k' ∙ k) (o' ∙ o)

    pub flush_samples-Wrote :
        (by_day : ByDay D F) (s : S)
        → Wrote samples rows other
            (day_batches num_days arrow by_day)
            s
            (flush_samples num_days arrow samples series by_day s)
    unfolding flush_samples
    flush_samples-Wrote by_day s =
        let s₁ = (samples.load_table s).1 in
        let (k, o) = law.load_keeps s in
        elim (Bool-cases (samples.load_table s).0) [
          | inl e ↦
              rw (e, flush_samples)
                (Staged-Wrote by_day s s₁ (write_days num_days arrow samples series by_day s₁)
                  (law.load_staged s e) k o (write_days-Staged by_day s₁))
          | inr e ↦ rw (e, flush_samples) (k, o)
        ]

  module _ (rows : S → List R) (other : S → O) (law : IsTable series rows other) where
    pub flush_series-Wrote :
        (new_series : BTreeMap ℤ NewSeriesEntry) (built : Option (List R)) (s : S)
        → ((b : R) → build_series_batch arrow new_series ≡ some b → built ≡ some (b ∷ []))
        → Wrote series rows other built s (flush_series num_days arrow samples series new_series s)
    unfolding flush_series
    flush_series-Wrote new_series built s one =
        let s₁ = (series.load_table s).1 in
        let (k, o) = law.load_keeps s in
        elim (Bool-cases (series.load_table s).0) [
          | inr e ↦ rw (e, flush_series) (k, o)
          | inl e ↦ elim (Option-cases (build_series_batch arrow new_series)) [
            | inl f ↦ rw (e, flush_series) (rw (f, flush_series) (k, o))
            | inr (b, f) ↦
                let s₂ = (series.write b s₁).1 in
                let (k', o') = law.write_keeps b s₁ in
                elim (Bool-cases (series.write b s₁).0) [
                  | inr w ↦ rw (e, flush_series) (rw (f, flush_series) (rw w (k' ∙ k, o' ∙ o)))
                  | inl w ↦
                      let staged : built ≡ some (law.staged s₂) =
                        cc (one b f, law.write_staged b s₁ w, law.load_staged s e) in
                      rw (e, flush_series)
                        (rw f (
                          rw w (
                            close_and_commit-Wrote series rows other law built s s₂ staged (k' ∙ k)
                              (o' ∙ o))))
                ]
          ]
        ]
