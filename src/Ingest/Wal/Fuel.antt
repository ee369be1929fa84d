-- ===== src/Ingest/Wal/Fuel.antt =====
-- The replay of src/ingest/wal.rs ends: every record takes its frame from the bytes that are left.
use skaldberg.Base.{
  ℕ, zero, suc, ◌+◌, ◌<◌, ◌≡◌, refl, some, none, Option, List, [], ◌∷◌, arith, length, ok, err,
  Result, length-drop, inl, inr, leb→le, Option-cases,
}
use Prim.Native.Nat.add
use skaldberg.Ingest.Wal.{
  Bytes, Dir, read_exact, read_header, read_record, Read, Header, got, failed, end_of_file,
  WalRecord, WalReadError, WalIter, open_iter, next, next_file, collect, Collected, after, Item,
  yield, header_bytes, bytes_in, unread, read_all,
}

read_exact-length :
    (n : ℕ) (bytes taken rest : Bytes)
    → read_exact n bytes ≡ some (taken, rest)
    → length rest + n ≡ length bytes
unfolding read_exact
read_exact-length n bytes taken rest h =
    ground (arith, length-drop n bytes, leb→le n (length bytes))

read_header-length :
    (bytes : Bytes) (h : Header)
    → read_header bytes ≡ some h
    → length h.rest + header_bytes ≡ length bytes
unfolding read_header
read_header-length bytes h e = elim (Option-cases (read_exact header_bytes bytes)) [
  | inl p ↦ ground arith
  | inr ((hdr, rest), p) ↦ ground (arith, read_exact-length header_bytes bytes hdr rest p)
]

module _ (crc32 : Bytes → ℕ) where
  read_record-length :
      (bytes : Bytes) (r : WalRecord) (rest : Bytes)
      → read_record crc32 bytes ≡ got r rest
      → length rest < length bytes
  unfolding read_record
  read_record-length bytes r rest e = elim (Option-cases (read_header bytes)) [
    | inl p ↦ ground arith
    | inr (h, p) ↦ elim (Option-cases (read_exact h.payload_len h.rest)) [
      | inl q ↦ ground arith
      | inr ((payload, rest'), q) ↦ ground (
        arith,
        read_header-length bytes h p,
        read_exact-length h.payload_len h.rest payload rest' q,
      )
    ]
  ]

  yield-unread :
      (x : Read) (bytes : Bytes) (files : List Bytes) (more : Item crc32) (r : WalRecord)
      (it : WalIter)
      → read_record crc32 bytes ≡ x
      → (more ≡ (some (ok r), it) → unread it < bytes_in files)
      → yield crc32 x files more ≡ (some (ok r), it)
      → unread it < length bytes + bytes_in files
  yield-unread end_of_file bytes files more r it p h e = omega (arith, h e)
  yield-unread (failed w rest) bytes files more r it p h e = ground arith
  yield-unread (got r' rest) bytes files more r it p h e =
      ground (arith, read_record-length bytes r' rest p)

  next_file-unread :
      (files : List Bytes) (r : WalRecord) (it : WalIter)
      → next_file crc32 files ≡ (some (ok r), it)
      → unread it < bytes_in files
  unfolding next_file
  next_file-unread [] r it e = ground arith
  next_file-unread (bytes ∷ files) r it e =
      yield-unread (read_record crc32 bytes) bytes files (next_file crc32 files) r it refl
        (next_file-unread files r it) e

  next-unread :
      (it it' : WalIter) (r : WalRecord)
      → next crc32 it ≡ (some (ok r), it')
      → unread it' < unread it
  unfolding next
  next-unread it it' r e = elim (Option-cases it.current) [
    | inl p ↦ rw p (omega (arith, next_file-unread it.files r it' (rw p at e)))
    | inr (bytes, p) ↦ rw p (
        yield-unread (read_record crc32 bytes) bytes it.files (next_file crc32 it.files) r it' refl
          (next_file-unread it.files r it') (rw p at e))
  ]

  after_total :
      (x : Option (Result WalReadError WalRecord)) (more : Collected crc32)
      → ((r : WalRecord)
          → x ≡ some (ok r)
          → (c : List WalRecord × Option WalReadError) × (more ≡ some c))
      → (c : List WalRecord × Option WalReadError) × (after crc32 x more ≡ some c)
  after_total none more h = (([], none), refl)
  after_total (some (err e)) more h = (([], some e), refl)
  after_total (some (ok r)) more h = let ((recs, e), p) = h r refl in ((r ∷ recs, e), rw p)

  -- With more fuel than there are unread bytes the loop over the iterator ends, whatever the
  -- files hold.
  collect_total :
      (fuel : ℕ) (it : WalIter)
      → unread it < fuel
      → (c : List WalRecord × Option WalReadError) × (collect crc32 fuel it ≡ some c)
  unfolding collect
  collect_total zero it h = absurd (omega arith)
  collect_total (suc fuel) it h =
      let item = next crc32 it in
      after_total item.0 (collect crc32 fuel item.1)
        (λ r p. collect_total fuel item.1 (omega (arith, next-unread it item.1 r (ground arith))))

  -- Whatever bytes the files of the log directory hold, the replay ends: it collects records up to
  -- the end of the log or the first record that cannot be read.
  pub read_all_total :
      (dir : Dir) → (c : List WalRecord × Option WalReadError) × (read_all crc32 dir ≡ some c)
  unfolding read_all
  read_all_total dir = collect_total (suc (unread (open_iter dir))) (open_iter dir) (omega arith)

  after_mono :
      (x : Option (Result WalReadError WalRecord)) (more more' : Collected crc32)
      (c : List WalRecord × Option WalReadError)
      → ((d : List WalRecord × Option WalReadError) → more ≡ some d → more' ≡ some d)
      → after crc32 x more ≡ some c
      → after crc32 x more' ≡ some c
  after_mono none more more' c h e = e
  after_mono (some (err w)) more more' c h e = e
  after_mono (some (ok r)) none more' c h e = cc
  after_mono (some (ok r)) (some d) more' c h e = rw (h d refl) e

  collect-suc :
      (fuel : ℕ) (it : WalIter) (c : List WalRecord × Option WalReadError)
      → collect crc32 fuel it ≡ some c
      → collect crc32 (suc fuel) it ≡ some c
  unfolding collect
  collect-suc zero it c h = cc
  collect-suc (suc fuel) it c h =
      let item = next crc32 it in
      after_mono item.0 (collect crc32 fuel item.1) (collect crc32 (suc fuel) item.1) c
        (collect-suc fuel item.1) h

  -- More fuel does not change what is collected.
  pub collect_mono :
      (n fuel : ℕ) (it : WalIter) (c : List WalRecord × Option WalReadError)
      → collect crc32 fuel it ≡ some c
      → collect crc32 (n + fuel) it ≡ some c
  collect_mono zero fuel it c h = rw (add.zero fuel) h
  collect_mono (suc n) fuel it c h =
      rw (add.suc n fuel) (collect-suc (n + fuel) it c (collect_mono n fuel it c h))
