-- ===== src/Ingest/Fixtures.antt =====
-- Data for the tests: simple stand-ins for what src/ingest takes from its crates.
use skaldberg.Base.{
  ℕ, ◌+◌, ◌*◌, ◌-◌, Bool, true, false, none, some, List, [], ◌∷◌, ◌++◌, arith, length, ok, ltb, leb,
  ◌==◌, ◌≡◌, refl, Bool-cases, inl, inr,
}
use skaldberg.Base.Int.{ℤ, pos, div_euclid}
use skaldberg.Order.{int_ord, nat_ord, list_ord, =?-eq, ◌=?◌}
use skaldberg.BTreeMap.{get}
use skaldberg.Text.{Text, lit}
use skaldberg.Float.{Float}
use skaldberg.Ingest.Types.{RawSample, ValidatedSample}
use skaldberg.Ingest.Buffer.{Chrono, Buffer, with_known_series}
use skaldberg.Ingest.Wal.{Bytes, WalRecord, WalWriter}
use skaldberg.Ingest.Wal.Replay.{Log, encode}
use skaldberg.Ingest.Wal.Append.{Holds}
use skaldberg.Ingest.RemoteWrite.{Codec, WriteRequest}
use skaldberg.Ingest.Service.{Json, IngestState, replay_records}
use skaldberg.Ingest.Service.Recover.{IsDurable}
use skaldberg.Prom.Types.{InstantPoint}

-- Natural numbers, infinity and not-a-number.
pub data Num : Type 0 where
  nan : Num
  inf : Num
  fin : ℕ → Num

abbrev pub is_fin : Num → Bool
is_fin nan = false
is_fin inf = false
is_fin (fin n) = true

abbrev pub is_nan_num : Num → Bool
is_nan_num nan = true
is_nan_num inf = false
is_nan_num (fin n) = false

abbrev pub is_inf : Num → Bool
is_inf nan = false
is_inf inf = true
is_inf (fin n) = false

abbrev pub lift : (ℕ → ℕ → ℕ) → Num → Num → Num
lift f (fin a) (fin b) = fin (f a b)
lift f nan y = nan
lift f inf y = inf
lift f (fin a) nan = nan
lift f (fin a) inf = inf

abbrev pub test : (ℕ → ℕ → Bool) → Num → Num → Bool
test f (fin a) (fin b) = f a b
test f nan y = false
test f inf y = false
test f (fin a) nan = false
test f (fin a) inf = true

instance abbrev pub num_float : Float Num
num_float = record {
  zero = fin 0;
  one = fin 1;
  infinity = inf;
  neg_infinity = inf;
  is_finite = is_fin;
  is_nan = is_nan_num;
  is_infinite = is_inf;
  feq = test ◌==◌;
  flt = test ltb;
  fle = test leb;
  add = lift ◌+◌;
  sub = lift ◌-◌;
  mul = lift ◌*◌;
  div = λ x y. x;
  rem = λ x y. x;
  powf = λ x y. x;
  fmin = λ x y. x;
  fmax = λ x y. y;
  of_count = fin;
  as_usize = λ x. 0;
  parse = λ s. some (fin (length s));
  sum = λ values. fin (length values);
  of_i64 = λ n. fin 0;
  as_i64 = λ x. elim x [ fin n ↦ pos n | inf ↦ pos 0 | nan ↦ pos 0 ];
  show = λ x. [];
  debug = λ x. [];
}

-- Days as integers.
instance abbrev pub int_chrono : Chrono ℤ
int_chrono = record { from_timestamp = λ s ns. some (div_euclid s 86400); epoch = pos 0 }

abbrev pub hash : List ℕ → ℕ
hash bytes = length bytes

abbrev pub constant_hash : List ℕ → ℕ
constant_hash bytes = 9

abbrev pub good : RawSample Num
good = record {
  metric = lit "up";
  labels = (lit "job", lit "api") ∷ (lit "env", lit "dev") ∷ [];
  ts = pos 900;
  value = fin 3;
}

abbrev pub swapped : List (Text × Text)
swapped = (lit "env", lit "dev") ∷ (lit "job", lit "api") ∷ []

abbrev pub reserved : RawSample Num
reserved = record {
  metric = lit "up";
  labels = (lit "__x", lit "api") ∷ [];
  ts = pos 900;
  value = fin 3;
}

abbrev pub sample : ValidatedSample Num
sample = record {
  series_id = pos 5;
  metric = lit "up";
  labels = [];
  ts_us = pos 86_400_000_001;
  value = fin 3;
}

abbrev pub seeded : Buffer ℤ Num
seeded = with_known_series (pos 7 ∷ [])

abbrev pub crc : Bytes → ℕ
crc bytes = 0

abbrev pub first : WalRecord
first = record { record_seq = 1; payload = 10 ∷ 20 ∷ [] }

abbrev pub second : WalRecord
second = record { record_seq = 2; payload = [] }

-- A writer with one closed file and a full open one.
abbrev pub closed : Log
closed = (0, first ∷ []) ∷ []

abbrev pub writer : WalWriter
writer = record {
  dir = encode crc (closed ++ ((1, second ∷ []) ∷ []));
  file = 1;
  file_seq = 1;
  file_bytes = 16;
  next_record_seq = 3;
  rotation_bytes = 20;
}

pub writer-Holds : Holds crc writer closed (second ∷ [])
writer-Holds = record {
  dir = refl;
  file = refl;
  below = (omega arith, tt);
  fits = (((omega arith, omega arith), tt), tt);
  last_fits = ((omega arith, omega arith), tt);
  ascends = (omega arith, (omega arith, omega arith));
}

-- A batch is one byte of JSON.
abbrev pub json : Json Num
json = record {
  to_vec = λ samples. some (1 ∷ []);
  from_slice = λ bytes. elim bytes [ [] ↦ none | ◌∷◌ b more ↦ some (sample ∷ []) ];
}

abbrev pub fresh : IngestState ℤ Num
fresh = record {
  wal = record {
    dir = (0, []) ∷ [];
    file = 0;
    file_seq = 0;
    file_bytes = 0;
    next_record_seq = 1;
    rotation_bytes = 1000;
  };
  buffer = seeded;
  notified = false;
}

pub fresh-Holds : Holds crc fresh.wal [] []
fresh-Holds = record {
  dir = refl;
  file = refl;
  below = tt;
  fits = tt;
  last_fits = tt;
  ascends = omega arith;
}

pub fresh-IsDurable : IsDurable crc json seeded fresh
unfolding replay_records
fresh-IsDurable = record { closed = []; recs = []; holds = fresh-Holds; rebuilt = refl }

-- A body is its own decompression, and any body is the empty request.
abbrev pub codec : Codec Num (Unit {0}) (Unit {0})
codec = record {
  decompress_len = λ bytes. some (length bytes);
  decompress_vec = λ bytes. ok bytes;
  decode = λ bytes. ok (record { timeseries = [] });
}

abbrev pub write_request : WriteRequest Num
write_request = record {
  timeseries =
      record {
        labels =
            record { name = lit "__name__"; value = lit "up" }
            ∷ record { name = lit "__a"; value = lit "b" }
            ∷ [];
        samples = record { value = fin 3; timestamp = pos 900 } ∷ [];
      }
      ∷ [];
}

pub same_labels : (k : Text) → get k good.labels ≡ get k swapped
unfolding get
same_labels k = elim (Bool-cases (k =? lit "job")) [
  | inl e ↦ rw (=?-eq k (lit "job") e) refl
  | inr e ↦ elim (Bool-cases (k =? lit "env")) [
    | inl e' ↦ rw (=?-eq k (lit "env") e') refl
    | inr e' ↦ rw (e, e', get) (rw e)
  ]
]

abbrev pub point : Text → ℕ → InstantPoint Num
point env n = record {
  metric_name = lit "up";
  labels = (lit "env", env) ∷ (lit "job", lit "api") ∷ [];
  ts_us = pos 5;
  value = fin n;
}

abbrev pub points : List (InstantPoint Num)
points = point (lit "dev") 1 ∷ point (lit "live") 2 ∷ []
