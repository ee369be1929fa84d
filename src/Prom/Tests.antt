-- ===== src/Prom/Tests.antt =====
-- The theorems about src/prometheus.rs and src/handlers.rs applied to concrete inputs.
use skaldberg.Base.{
  List, ltb, arith, true, ◌<◌, ◌≡◌, refl, Bool, false, ◌||◌, Option, some, [], ◌∷◌, keep_if, All,
}
use skaldberg.Base.Int.{pos, wrap_i64, ◌-ℤ◌, ◌+ℤ◌, scale, saturate_i64}
use skaldberg.Order.{◌=?◌, list_ord, nat_ord, pair_ord, int_ord}
use skaldberg.Text.{Text, lit, starts_with}
use skaldberg.Ingest.Fixtures.{
  Num, fin, inf, nan, test, is_nan_num, good, num_float, int_chrono, point, points, crc, json, hash,
  fresh, reserved,
}
use skaldberg.Ingest.Validate.{
  validate, check_metric, check_ts, check_value, collect_labels, is_valid_name, display,
  reserved_label_name,
}
use skaldberg.Ingest.Buffer.{with_known_series}
use skaldberg.Ingest.Wal.{well, append, finish_append, frame}
use skaldberg.BTreeMap.{BTreeMap, insert, get_or}
use skaldberg.BTreeMap.Laws.{HasDistinctKeys}
use skaldberg.Ingest.Types.{IngestRequest, IngestResponse}
use skaldberg.Ingest.Service.{append_validated, backpressure_bytes, check_backpressure}
use skaldberg.Ingest.Handlers.{run_ingest, validate_each, append_accepted}
use skaldberg.Ingest.Handlers.Counts.{Reports, IsAppended, valid_of, run_ingest-ok}
use skaldberg.Prom.Types.{
  InstantPoint, Labels, BinOp, AggOp, LabelModifier, MatchOp, VectorSelector,
}
use skaldberg.Prom.Ops.{is_comparison}
use skaldberg.Prom.Aggregate.{aggregate_instant_points, topk_instant_points}
use skaldberg.Prom.Aggregate.Topk.{members_of, AreTop, topk_instant_points-AreTop}
use skaldberg.Prom.Aggregate.Instant.{IsAggregate, aggregate_instant_points-All}
use skaldberg.Prom.Binary.{apply_vector_vector_instant}
use skaldberg.Prom.Binary.Matching.{passes, apply_vector_vector_instant-filters}

abbrev sel : VectorSelector
sel = record {
  name = some (lit "up");
  matchers =
      record { name = lit "job"; op = MatchOp.equal; value = lit "api" }
      ∷ record { name = lit "env"; op = MatchOp.re (starts_with (lit "d")); value = lit "d.*" }
      ∷ record { name = lit "zone"; op = MatchOp.not_equal; value = lit "x" }
      ∷ [];
}

abbrev by_env : Option LabelModifier
by_env = some (LabelModifier.include (lit "env" ∷ []))

-- A series with a job and no zone, and its conditions
abbrev api : Labels
api = (lit "env", lit "dev") ∷ (lit "job", lit "api") ∷ []

abbrev read_api : Text → Bool
read_api s =
    (s =? lit "element_at(s.labels, 'job')[1] = 'api'")
    || (s =? lit "COALESCE(element_at(s.labels, 'zone')[1], '') != 'x'")

aggregate_instant_points-All_example :
    All
      (IsAggregate AggOp.max by_env (pos 9) points)
      (aggregate_instant_points points AggOp.max by_env (pos 9))
aggregate_instant_points-All_example = aggregate_instant_points-All points AggOp.max by_env (pos 9)

apply_vector_vector_instant-filters_example :
    apply_vector_vector_instant points (point (lit "dev") 0 ∷ []) BinOp.gt false
    ≡ keep_if (passes BinOp.gt (point (lit "dev") 0 ∷ [])) points
unfolding is_comparison
apply_vector_vector_instant-filters_example =
    apply_vector_vector_instant-filters BinOp.gt points (point (lit "dev") 0 ∷ []) refl

-- A request whose first sample has a reserved label
abbrev mixed : IngestRequest Num
mixed = record { samples = reserved ∷ good ∷ [] }

abbrev answer : IngestResponse
answer = record {
  accepted = 1;
  rejected = record { index = 0; reason = display (reserved_label_name (lit "__x")) } ∷ [];
}

run_ingest-ok_example :
    (fresh.buffer.bytes_estimate < backpressure_bytes)
    × Reports hash (pos 1000) mixed.samples answer
    × IsAppended crc json hash
        (pos 1000)
        well
        (valid_of hash (pos 1000) mixed.samples)
        fresh
        (run_ingest crc json hash (pos 1000) well mixed fresh).1
unfolding run_ingest validate_each append_accepted check_backpressure validate check_metric
    collect_labels is_valid_name starts_with with_known_series check_ts check_value insert
    append_validated append finish_append frame wrap_i64 ◌-ℤ◌ ◌+ℤ◌ scale saturate_i64
run_ingest-ok_example = run_ingest-ok crc json hash (pos 1000) well mixed fresh answer refl

lt_asym :
    (a b : Num)
    → is_nan_num a ≡ false
    → is_nan_num b ≡ false
    → test ltb a b ≡ true
    → test ltb b a ≡ false
lt_asym (fin a) (fin b) h k e = ground arith
lt_asym (fin a) inf h k e = refl
lt_asym (fin a) nan h k e = cc
lt_asym inf b h k e = cc
lt_asym nan b h k e = cc

not_lt_trans :
    (a b c : Num)
    → is_nan_num a ≡ false
    → is_nan_num b ≡ false
    → is_nan_num c ≡ false
    → test ltb a b ≡ false
    → test ltb b c ≡ false
    → test ltb a c ≡ false
not_lt_trans (fin a) (fin b) (fin c) h k l e d = ground arith
not_lt_trans (fin a) (fin b) inf h k l e d = cc
not_lt_trans (fin a) (fin b) nan h k l e d = cc
not_lt_trans (fin a) inf c h k l e d = cc
not_lt_trans (fin a) nan c h k l e d = cc
not_lt_trans inf b c h k l e d = refl
not_lt_trans nan b c h k l e d = cc

topk_instant_points-AreTop_example :
    (groups : BTreeMap Labels (List (InstantPoint Num))) × HasDistinctKeys groups
    × ((k : Labels) → get_or [] k groups ≡ members_of by_env k points)
    × AreTop 1 true groups (topk_instant_points points 1 true by_env)
topk_instant_points-AreTop_example =
    topk_instant_points-AreTop points 1 true by_env (lt_asym, not_lt_trans) (refl, (refl, tt))
