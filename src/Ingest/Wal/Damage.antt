-- ===== src/Ingest/Wal/Damage.antt =====
-- Frames of src/ingest/wal.rs that a crash cut off or that changed on disk.
use skaldberg.Base.{
  ℕ, ◌+◌, ◌-◌, ◌%◌, ◌^◌, ◌<◌, ◌≤◌, ◌≡◌, ap, sym, ◌∙◌, [], ◌++◌, arith, length, false, take,
  take-append_ge, length-take, leb, ◌==◌,
}
use mathlib.Core.List.{append_assoc, append-nil}
use skaldberg.Ingest.Wal.{
  Bytes, to_le_bytes, read_exact, read_header, frame, read_record, failed, end_of_file, WalRecord,
  header_bytes, truncated, crc_mismatch,
}
use skaldberg.Ingest.Wal.Reading.{read_exact-append}
use skaldberg.Ingest.Wal.Frames.{
  IsCrc32, Fits, header, header_of, header_of-append, length-header, read_header-header_of,
  frame-header_of,
}

module _ (crc32 : Bytes → ℕ) where
  -- A frame cut off within its header, and one cut off within its payload.
  pub read_record-short :
      (bytes : Bytes) → length bytes < header_bytes → read_record crc32 bytes ≡ end_of_file
  unfolding read_record read_header read_exact
  read_record-short bytes h =
      let small : leb header_bytes (length bytes) ≡ false = ground arith in
      rw (small, read_record, read_header, read_exact)

  pub read_record-torn :
      (r : WalRecord) (n : ℕ)
      → IsCrc32 crc32
      → Fits r
      → header_bytes ≤ n
      → n < header_bytes + length r.payload
      → read_record crc32 (take n (frame crc32 r.record_seq r.payload))
        ≡ failed (truncated r.record_seq (length r.payload)) []
  unfolding read_record read_exact
  read_record-torn r n hc (hs, hl) h₁ h₂ =
      let small : length r.payload % 2 ^ 32 ≡ length r.payload = omega arith in
      let sum = crc32 (to_le_bytes 8 r.record_seq ++ r.payload) in
      let head = header (length r.payload) sum r.record_seq in
      let cut = take (n - header_bytes) r.payload in
      let len : length head ≡ header_bytes = length-header (length r.payload) sum r.record_seq in
      let framed : frame crc32 r.record_seq r.payload ≡ head ++ r.payload =
        sym (append-nil (frame crc32 r.record_seq r.payload))
        ∙ frame-header_of crc32 r []
        ∙ header_of-append (length r.payload % 2 ^ 32) sum r.record_seq (r.payload ++ [])
        ∙ ap (λ l. header l sum r.record_seq ++ (r.payload ++ [])) small
        ∙ ap (◌++◌ head) (append-nil r.payload) in
      let torn : take n (frame crc32 r.record_seq r.payload)
          ≡ header_of (length r.payload) sum r.record_seq cut =
        ap (take n) framed
        ∙ take-append_ge n head r.payload (omega (arith, len))
        ∙ ap (λ k. head ++ take (n - k) r.payload) len
        ∙ sym (header_of-append (length r.payload) sum r.record_seq cut) in
      let cut_length = length-take (n - header_bytes) r.payload (omega arith) in
      let short : leb (length r.payload) (length cut) ≡ false = ground (arith, cut_length) in
      rw torn (
        rw (read_header-header_of (length r.payload) sum r.record_seq cut hl (hc _) hs, read_record)
          (rw (short, read_exact)))

  -- The frame of a record with another payload in the place of its own
  abbrev pub damaged : WalRecord → Bytes → Bytes
  damaged r payload =
      header (length r.payload) (crc32 (to_le_bytes 8 r.record_seq ++ r.payload)) r.record_seq
      ++ payload

  -- A frame whose payload was changed in place, so that its checksum no longer fits.
  pub read_record-corrupt :
      (r : WalRecord) (payload rest : Bytes)
      → IsCrc32 crc32
      → Fits r
      → length payload ≡ length r.payload
      → (crc32 (to_le_bytes 8 r.record_seq ++ payload)
          == crc32 (to_le_bytes 8 r.record_seq ++ r.payload))
        ≡ false
      → read_record crc32 (damaged r payload ++ rest) ≡ failed (crc_mismatch r.record_seq) rest
  unfolding read_record
  read_record-corrupt r payload rest hc (hs, hl) same differ =
      let sum = crc32 (to_le_bytes 8 r.record_seq ++ r.payload) in
      rw
        (
          append_assoc (header (length r.payload) sum r.record_seq) payload rest,
          ← header_of-append (length r.payload) sum r.record_seq (payload ++ rest),
        )
        (rw
          (
            read_header-header_of (length r.payload) sum r.record_seq (payload ++ rest) hl (hc _)
                hs,
            read_record,
          )
          (rw (read_exact-append (length r.payload) payload rest same, read_record) (rw differ)))
