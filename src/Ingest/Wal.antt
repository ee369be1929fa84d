-- ===== src/Ingest/Wal.antt =====
-- src/ingest/wal.rs: the write-ahead log. The directory is its `*.log` files by their number, which
-- is how the code lists them; a file is its bytes. `crc32fast` is a parameter. The outcome of the
-- system calls of an append is an argument: a write may stop short, a sync or an open may fail.
pub mod Reading
pub mod Frames
pub mod Replay
pub mod Fuel
pub mod ReplayAll
pub mod Log
pub mod Append
pub mod Scan
pub mod Truncate
pub mod Open
pub mod Damage
pub mod ReplayBroken
use skaldberg.Base.{
  ℕ, zero, suc, ◌+◌, ◌-◌, ◌*◌, ◌/◌, ◌%◌, ◌^◌, Bool, true, false, Option, none, some, List, [], ◌∷◌,
  ◌++◌, ◌==◌, ltb, leb, if◌then◌else◌, length, take, drop, Result, ok, err, map,
}
use skaldberg.Order.{nat_ord}
use skaldberg.BTreeMap.{BTreeMap, insert, entry_or, get, keys}

abbrev pub Bytes : Type 0
Bytes = List ℕ

abbrev pub Dir : Type 0
Dir = BTreeMap ℕ Bytes

abbrev pub header_bytes : ℕ
header_bytes = 4 + 4 + 8

abbrev pub default_rotation_bytes : ℕ
default_rotation_bytes = 64 * 1024 * 1024

pub data WalError : Type 0 where
  io : WalError
  payload_too_large : ℕ → WalError

pub data WalReadError : Type 0 where
  crc_mismatch : ℕ → WalReadError
  truncated : (record_seq payload_len : ℕ) → WalReadError

pub record WalRecord : Type 0 where
  pub record_seq : ℕ
  pub payload : Bytes

-- `file` is the file that the open handle appends to.
pub record WalWriter : Type 0 where
  pub dir : Dir
  pub file : ℕ
  pub file_seq : ℕ
  pub file_bytes : ℕ
  pub next_record_seq : ℕ
  pub rotation_bytes : ℕ

-- `to_le_bytes` of a word of `w` bytes, and `from_le_bytes`
unfoldable pub to_le_bytes : ℕ → ℕ → Bytes
to_le_bytes zero n = []
to_le_bytes (suc w) n = n % 256 ∷ to_le_bytes w (n / 256)

unfoldable pub from_le_bytes : Bytes → ℕ
from_le_bytes [] = 0
from_le_bytes (b ∷ bytes) = b + 256 * from_le_bytes bytes

-- `read_exact` of `n` bytes: what was read and what is left, or `none` at an early end.
unfoldable pub read_exact : ℕ → Bytes → Option (Bytes × Bytes)
read_exact n bytes = if leb n (length bytes) then some (take n bytes, drop n bytes) else none

-- The three words of a header, and the bytes behind it.
pub record Header : Type 0 where
  pub payload_len : ℕ
  pub crc : ℕ
  pub record_seq : ℕ
  pub rest : Bytes

unfoldable pub read_header : Bytes → Option Header
read_header bytes = elim (read_exact header_bytes bytes) [
  | none ↦ none
  | some (hdr, rest) ↦ some (record {
    payload_len = from_le_bytes (take 4 hdr);
    crc = from_le_bytes (take 4 (drop 4 hdr));
    record_seq = from_le_bytes (take 8 (drop 8 hdr));
    rest = rest;
  })
]

-- `scan_max_record_seq`: it stops at a short header or payload. Each round takes a header, so as
-- many rounds as there are bytes are enough.
unfoldable pub scan_loop : ℕ → ℕ → Bytes → ℕ
unfolding read_header
scan_loop zero max_seq bytes = max_seq
scan_loop (suc fuel) max_seq bytes = elim (read_header bytes) [
  | none ↦ max_seq
  | some h ↦ elim (read_exact h.payload_len h.rest) [
    | none ↦ max_seq
    | some (skip, rest) ↦
        scan_loop fuel (if ltb max_seq h.record_seq then h.record_seq else max_seq) rest
  ]
]

unfoldable pub scan_max_record_seq : Bytes → ℕ
unfolding scan_loop
scan_max_record_seq bytes = scan_loop (length bytes) 0 bytes

-- The largest `scan_max_record_seq + 1` over the files, or 1.
unfoldable pub scan_dir : ℕ → Dir → ℕ
unfolding scan_max_record_seq
scan_dir next [] = next
scan_dir next ((s, bytes) ∷ entries) =
    let m = (scan_max_record_seq bytes + 1) % 2 ^ 64 in
    scan_dir (if ltb next m then m else next) entries

-- The number of the last entry, or `d`.
unfoldable pub last_key : ℕ → Dir → ℕ
last_key d [] = d
last_key d ((s, bytes) ∷ entries) = last_key s entries

-- `OpenOptions::create(true).append(true)`: a file that is there keeps its bytes.
abbrev pub open_append : ℕ → Dir → Dir
open_append s dir = entry_or [] s (λ bytes. bytes) dir

abbrev pub bytes_of : ℕ → Dir → Bytes
bytes_of s dir = elim (get s dir) [ none ↦ [] | some bytes ↦ bytes ]

unfoldable pub open_with_rotation : Dir → ℕ → WalWriter
open_with_rotation dir rotation_bytes =
    let file_seq = last_key 0 dir in
    record {
      dir = open_append file_seq dir;
      file = file_seq;
      file_seq = file_seq;
      file_bytes = length (bytes_of file_seq dir);
      next_record_seq = scan_dir 1 dir;
      rotation_bytes = rotation_bytes;
    }

-- A write through the open handle. A file that was deleted takes the bytes with it.
unfoldable pub write : ℕ → Bytes → Dir → Dir
write s bytes dir = elim (get s dir) [ none ↦ dir | some old ↦ insert s (old ++ bytes) dir ]

-- How the system calls of one append end: all well; the write stops after `n` bytes; the sync
-- fails; or the new file of a rotation cannot be opened.
pub data Outcome : Type 0 where
  well : Outcome
  short_write : ℕ → Outcome
  sync_fails : Outcome
  open_fails : Outcome

unfoldable pub rotate : Bool → WalWriter → Result WalError (Unit {0}) × WalWriter
rotate opens w =
    let file_seq = (w.file_seq + 1) % 2 ^ 64 in
    if opens
    then (
      ok tt,
      record w {
        dir = open_append file_seq w.dir;
        file = file_seq;
        file_seq = file_seq;
        file_bytes = 0;
      },
    )
    else (err io, record w { file_seq = file_seq })

-- The loop of `truncate_through` over the files, and the files that it leaves.
unfoldable pub truncate_files : ℕ → ℕ → Dir → Dir
truncate_files current flushed_through_seq [] = []
truncate_files current flushed_through_seq ((s, bytes) ∷ entries) =
    let rest = truncate_files current flushed_through_seq entries in
    if s == current
    then (s, bytes) ∷ rest
    else if leb (scan_max_record_seq bytes) flushed_through_seq
    then rest
    else (s, bytes) ∷ rest

unfoldable pub truncate_through : ℕ → WalWriter → WalWriter
truncate_through flushed_through_seq w = record w {
  dir = truncate_files w.file_seq flushed_through_seq w.dir;
}

module _ (crc32 : Bytes → ℕ) where
  unfoldable pub frame : ℕ → Bytes → Bytes
  unfolding to_le_bytes
  frame record_seq payload =
      to_le_bytes 4 (length payload % 2 ^ 32)
      ++ (to_le_bytes 4 (crc32 (to_le_bytes 8 record_seq ++ payload))
          ++ (to_le_bytes 8 record_seq ++ payload))

  -- The frame is written and synced: count it, and rotate when the file is full.
  unfoldable pub finish_append : Bytes → Bool → WalWriter → Result WalError ℕ × WalWriter
  finish_append bytes opens w =
      let record_seq = w.next_record_seq in
      let w' : WalWriter = record w {
        dir = write w.file bytes w.dir;
        file_bytes = (w.file_bytes + length bytes) % 2 ^ 64;
        next_record_seq = (record_seq + 1) % 2 ^ 64;
      } in
      if leb w.rotation_bytes w'.file_bytes
      then (let (r, w'') = rotate opens w' in
          (elim r [ ok u ↦ ok record_seq | err e ↦ err e ], w''))
      else (ok record_seq, w')

  unfoldable pub append : Bytes → Outcome → WalWriter → Result WalError ℕ × WalWriter
  append payload outcome w =
      if ltb (2 ^ 32 - 1) (length payload)
      then (err (payload_too_large (length payload)), w)
      else (let bytes = frame w.next_record_seq payload in
          elim outcome [
            | short_write n ↦ (err io, record w { dir = write w.file (take n bytes) w.dir })
            | sync_fails ↦ (err io, record w { dir = write w.file bytes w.dir })
            | open_fails ↦ finish_append bytes false w
            | well ↦ finish_append bytes true w
          ])

-- One round of `WalIter::next` at an open file.
pub data Read : Type 0 where
  end_of_file : Read
  failed : WalReadError → Bytes → Read
  got : WalRecord → Bytes → Read

-- The iterator: the bytes left of the open file, and the files not yet opened.
pub record WalIter : Type 0 where
  pub current : Option Bytes
  pub files : List Bytes

unfoldable pub open_iter : Dir → WalIter
open_iter dir = record { current = none; files = map (λ (s, bytes). bytes) dir }

abbrev pub bytes_in : List Bytes → ℕ
bytes_in [] = 0
bytes_in (bytes ∷ files) = length bytes + bytes_in files

-- The bytes that an iterator has not read.
abbrev pub unread : WalIter → ℕ
unread it = elim it.current [ none ↦ 0 | some bytes ↦ length bytes ] + bytes_in it.files

module _ (crc32 : Bytes → ℕ) where
  unfoldable pub read_record : Bytes → Read
  read_record bytes = elim (read_header bytes) [
    | none ↦ end_of_file
    | some h ↦ elim (read_exact h.payload_len h.rest) [
      | none ↦ failed (truncated h.record_seq h.payload_len) []
      | some (payload, rest) ↦
          if crc32 (to_le_bytes 8 h.record_seq ++ payload) == h.crc
          then got (record { record_seq = h.record_seq; payload = payload }) rest
          else failed (crc_mismatch h.record_seq) rest
    ]
  ]

  abbrev pub Item : Type 0
  Item = Option (Result WalReadError WalRecord) × WalIter

  abbrev pub yield : Read → List Bytes → Item → Item
  yield end_of_file files more = more
  yield (failed e rest) files more = (some (err e), record { current = some rest; files = files })
  yield (got r rest) files more = (some (ok r), record { current = some rest; files = files })

  -- `next` with no file open
  unfoldable pub next_file : List Bytes → Item
  next_file [] = (none, record { current = none; files = [] })
  next_file (bytes ∷ files) = yield (read_record bytes) files (next_file files)

  unfoldable pub next : WalIter → Item
  next it = elim it.current [
    | none ↦ next_file it.files
    | some bytes ↦ yield (read_record bytes) it.files (next_file it.files)
  ]

  abbrev pub Collected : Type 0
  Collected = Option (List WalRecord × Option WalReadError)

  -- A round's item, before what the later rounds collect.
  abbrev pub after : Option (Result WalReadError WalRecord) → Collected → Collected
  after none more = some ([], none)
  after (some (err e)) more = some ([], some e)
  after (some (ok rec)) none = none
  after (some (ok rec)) (some (recs, e)) = some (rec ∷ recs, e)

  -- The records up to the end or the first error, as the loop of `replay_wal` takes them; `none` if
  -- the fuel runs out.
  unfoldable pub collect : ℕ → WalIter → Collected
  collect zero it = none
  collect (suc fuel) it = let item = next it in let more = collect fuel item.1 in after item.0 more

  -- Each record takes its header at least from the unread bytes, so this fuel is enough.
  unfoldable pub read_all : Dir → Collected
  unfolding collect open_iter
  read_all dir = collect (suc (unread (open_iter dir))) (open_iter dir)
