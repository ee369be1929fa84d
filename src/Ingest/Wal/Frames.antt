-- ===== src/Ingest/Wal/Frames.antt =====
-- A frame of src/ingest/wal.rs reads back as its record.
use skaldberg.Base.{
  ℕ, ◌%◌, ◌^◌, ◌<◌, ◌≡◌, refl, some, ◌++◌, arith, length, take, drop, length-append, ==_refl,
}
use mathlib.Core.List.{append_assoc}
use skaldberg.Ingest.Wal.{
  Bytes, to_le_bytes, read_header, frame, read_record, got, WalRecord, header_bytes,
}
use skaldberg.Ingest.Wal.Reading.{length-to_le_bytes, from_le_bytes-to_le_bytes, read_exact-append}

-- `crc32fast` returns a `u32`.
abbrev pub IsCrc32 : (Bytes → ℕ) → Type 0
IsCrc32 crc32 = (bytes : Bytes) → crc32 bytes < 2 ^ 32

-- What `append` writes: a sequence number of 64 bits, and a payload of at most `u32::MAX` bytes.
abbrev pub Fits : WalRecord → Type 0
Fits r = (r.record_seq < 2 ^ 64) × (length r.payload < 2 ^ 32)

-- A header of three words.
unfoldable pub header_of : (n c s : ℕ) (rest : Bytes) → Bytes
header_of n c s rest = to_le_bytes 4 n ++ (to_le_bytes 4 c ++ (to_le_bytes 8 s ++ rest))

unfoldable pub header : (n c s : ℕ) → Bytes
header n c s = to_le_bytes 4 n ++ (to_le_bytes 4 c ++ to_le_bytes 8 s)

pub header_of-append : (n c s : ℕ) (rest : Bytes) → header_of n c s rest ≡ header n c s ++ rest
unfolding header_of header
header_of-append n c s rest = simp append_assoc

pub length-header : (n c s : ℕ) → length (header n c s) ≡ header_bytes
unfolding header
length-header n c s = omega (
  arith,
  length-append (to_le_bytes 4 n) (to_le_bytes 4 c ++ to_le_bytes 8 s),
  length-append (to_le_bytes 4 c) (to_le_bytes 8 s),
  length-to_le_bytes 4 n,
  length-to_le_bytes 4 c,
  length-to_le_bytes 8 s,
)

-- The three words of a header, at their offsets.
header_words :
    (n c s : ℕ)
    → (take 4 (header n c s) ≡ to_le_bytes 4 n)
      × (take 4 (drop 4 (header n c s)) ≡ to_le_bytes 4 c)
      × (take 8 (drop 8 (header n c s)) ≡ to_le_bytes 8 s)
unfolding header to_le_bytes
header_words n c s = (refl, refl, refl)

pub read_header-header_of :
    (n c s : ℕ) (rest : Bytes)
    → n < 2 ^ 32
    → c < 2 ^ 32
    → s < 2 ^ 64
    → read_header (header_of n c s rest)
      ≡ some (record { payload_len = n; crc = c; record_seq = s; rest = rest })
unfolding read_header
read_header-header_of n c s rest hn hc hs =
    let (w₁, w₂, w₃) = header_words n c s in
    rw (
      header_of-append n c s rest,
      read_exact-append header_bytes (header n c s) rest (length-header n c s),
      read_header,
      w₁,
      w₂,
      w₃,
      from_le_bytes-to_le_bytes 4 n hn,
      from_le_bytes-to_le_bytes 4 c hc,
      from_le_bytes-to_le_bytes 8 s hs,
    )

module _ (crc32 : Bytes → ℕ) where
  pub frame-header_of :
      (r : WalRecord) (rest : Bytes)
      → frame crc32 r.record_seq r.payload ++ rest
        ≡ header_of
            (length r.payload % 2 ^ 32)
            (crc32 (to_le_bytes 8 r.record_seq ++ r.payload))
            r.record_seq
            (r.payload ++ rest)
  unfolding header_of frame
  frame-header_of r rest = simp append_assoc

  -- Reading at the frame of a record gives the record, and goes on behind the frame.
  pub read_record-frame :
      (r : WalRecord) (rest : Bytes)
      → IsCrc32 crc32
      → Fits r
      → read_record crc32 (frame crc32 r.record_seq r.payload ++ rest) ≡ got r rest
  unfolding read_record
  read_record-frame r rest hc (hs, hl) =
      let small : length r.payload % 2 ^ 32 ≡ length r.payload = omega arith in
      rw (frame-header_of r rest, small)
        (rw
          (
            read_header-header_of (length r.payload)
                (crc32 (to_le_bytes 8 r.record_seq ++ r.payload)) r.record_seq (r.payload ++ rest)
                hl (hc _) hs,
            read_record,
          )
          (rw (read_exact-append (length r.payload) r.payload rest refl, read_record)
            (rw (==_refl (crc32 (to_le_bytes 8 r.record_seq ++ r.payload))))))

  pub read_header-frame :
      (r : WalRecord) (rest : Bytes)
      → IsCrc32 crc32
      → Fits r
      → read_header (frame crc32 r.record_seq r.payload ++ rest)
        ≡ some (record {
          payload_len = length r.payload;
          crc = crc32 (to_le_bytes 8 r.record_seq ++ r.payload);
          record_seq = r.record_seq;
          rest = r.payload ++ rest;
        })
  read_header-frame r rest hc (hs, hl) =
      let small : length r.payload % 2 ^ 32 ≡ length r.payload = omega arith in
      rw (frame-header_of r rest, small)
        (read_header-header_of (length r.payload) (crc32 (to_le_bytes 8 r.record_seq ++ r.payload))
          r.record_seq (r.payload ++ rest) hl (hc _) hs)
