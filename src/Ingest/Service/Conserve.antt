-- ===== src/Ingest/Service/Conserve.antt =====
-- No sample is lost or doubled between the buffer and the snapshots (src/ingest/service.rs).
use skaldberg.Base.{
  ℕ, ◌≡◌, refl, ap, sym, ◌∙◌, Bool, Bool-cases, inl, inr, Option, none, some, List, [], ◌∷◌, ◌++◌,
  arith, some-inj, none-ne-some,
}
use mathlib.Core.List.{append_assoc, append-nil}
use skaldberg.Base.Int.{ℤ}
use skaldberg.Order.{Ord, int_ord}
use skaldberg.BTreeMap.{get}
use skaldberg.Ingest.Types.{ValidatedSample}
use skaldberg.Ingest.Buffer.{Chrono, Snapshot, has_no_samples, take_snapshot}
use skaldberg.Ingest.Buffer.Points.{points_at, points_for, points_at-insert_batch}
use skaldberg.Ingest.Wal.{Bytes}
use skaldberg.Ingest.Service.{IngestState, Json, buffer_batch, begin_flush, end_flush}
use skaldberg.Ingest.Service.System.{System, Step, persist, put, begin, finish, Reach, start, later}

module _ {D F : Type 0} where
  pub end_flush-buffer :
      (st : IngestState D F) (snap : Snapshot D F) (flushed : Bool)
      → (end_flush snap flushed st).1.buffer ≡ st.buffer
  unfolding end_flush
  end_flush-buffer st snap flushed = ground arith

module _ {D F : Type 0} ⦃o : Ord D⦄ (day : D) (id : ℤ) where
  abbrev pub taken_points : List (Snapshot D F × Bool) → List (ℤ × F)
  taken_points [] = []
  taken_points ((snap, flushed) ∷ taken) = points_at day id snap.by_day ++ taken_points taken

  abbrev pub flushing_points : Option (Snapshot D F) → List (ℤ × F)
  flushing_points none = []
  flushing_points (some snap) = points_at day id snap.by_day

  taken_points-append :
      (taken : List (Snapshot D F × Bool)) (snap : Snapshot D F) (flushed : Bool)
      → taken_points (taken ++ ((snap, flushed) ∷ []))
        ≡ taken_points taken ++ points_at day id snap.by_day
  taken_points-append [] snap flushed = append-nil _
  taken_points-append ((x, b) ∷ taken) snap flushed =
      ap (◌++◌ (points_at day id x.by_day)) (taken_points-append taken snap flushed)
      ∙ sym (
          append_assoc (points_at day id x.by_day) (taken_points taken)
            (points_at day id snap.by_day))

  -- A flush takes the whole buffer.
  begin_flush-points :
      (st : IngestState D F) (snap : Snapshot D F)
      → (begin_flush st).0 ≡ some snap
      → (points_at day id snap.by_day ≡ points_at day id st.buffer.by_day)
        × (points_at day id (begin_flush st).1.buffer.by_day ≡ [])
  unfolding begin_flush take_snapshot get
  begin_flush-points st snap h = elim (Bool-cases (has_no_samples st.buffer)) [
    | inl e ↦ absurd (none-ne-some (rw (e, begin_flush) at h))
    | inr e ↦
        let same : (take_snapshot st.buffer).0 ≡ snap = some-inj (rw (e, begin_flush) at h) in
        (ap (λ x. points_at day id x.by_day) (sym same), rw (e, begin_flush))
  ]

module _ {D F : Type 0} ⦃o : Ord D⦄ ⦃c : Chrono D⦄ (day : D) (id : ℤ) where
  points_for-append :
      (xs ys : List (ValidatedSample F))
      → points_for day id (xs ++ ys) ≡ points_for day id xs ++ points_for day id ys
  points_for-append [] ys = refl
  points_for-append (x ∷ xs) ys = ground (arith, points_for-append xs ys)

module _ {D F : Type 0} ⦃o : Ord D⦄ ⦃c : Chrono D⦄ (crc32 : Bytes → ℕ) (json : Json F) (day : D)
    (id : ℤ) (init : IngestState D F) where
  -- The points of the snapshots taken so far, of the one being written and of the buffer, in this
  -- order, are those of the first buffer and of the answered samples.
  abbrev pub Conserves : System D F → Type 0
  Conserves s =
      taken_points day id s.taken
        ++ (flushing_points day id s.flushing ++ points_at day id s.st.buffer.by_day)
      ≡ points_at day id init.buffer.by_day ++ points_for day id s.acked

  Step-Conserves : {s t : System D F} → Step crc32 json s t → Conserves s → Conserves t
  unfolding buffer_batch
  Step-Conserves (persist seq samples payload h₁ h₂ h₃ h₄ h₅) i = i
  Step-Conserves {s} (put seq samples before after h) i = cc (
    i,
    points_at-insert_batch day id seq samples s.st.buffer,
    points_for-append day id s.acked samples,
    append_assoc (taken_points day id s.taken)
        (flushing_points day id s.flushing ++ points_at day id s.st.buffer.by_day)
        (points_for day id samples),
    append_assoc (flushing_points day id s.flushing) (points_at day id s.st.buffer.by_day)
        (points_for day id samples),
    append_assoc (points_at day id init.buffer.by_day) (points_for day id s.acked)
        (points_for day id samples),
  )
  Step-Conserves {s} (begin snap h₁ h₂) i =
      let (same, none_left) = begin_flush-points day id s.st snap h₂ in
      cc (
        i,
        same,
        none_left,
        append-nil (points_at day id snap.by_day),
        ap (flushing_points day id) h₁,
      )
  Step-Conserves {s} (finish snap flushed h) i = cc (
    i,
    ap (flushing_points day id) h,
    ap (λ b. points_at day id b.by_day) (end_flush-buffer s.st snap flushed),
    taken_points-append day id s.taken snap flushed,
    append_assoc (taken_points day id s.taken) (points_at day id snap.by_day)
        (points_at day id s.st.buffer.by_day),
  )

  -- In every state that handlers and flusher reach from `init`, whatever the order of their steps and
  -- whether the flushes succeed or fail: for every day and series, the points in the snapshots whose
  -- flush has ended, then those in the snapshot being written, then those in the buffer, are the
  -- points that the buffer held at first and then those of the answered batches, each once and in
  -- order.
  pub Reach-Conserves : (s : System D F) → Reach crc32 json init s → Conserves s
  unfolding get
  Reach-Conserves s start = sym (append-nil (points_at day id init.buffer.by_day))
  Reach-Conserves s (later r st) = Step-Conserves st (Reach-Conserves _ r)
