-- ===== src/Tests/Services.antt =====
-- common/kafka_helpers.py, common/profiles.py, common/datagen.py and common/iceberg_meta.py.
use spark_dev.Base.{
  ◌-◌, ◌==◌, Option, length, map, ◌+◌, ◌*◌, ◌/◌, ◌&&◌, ltb, ℕ, ◌≡◌, ◌≢◌, ◌≤◌, ◌<◌, ◌⊎◌, ◌^◌, suc,
  refl, Bool, true, none, some, List, [], ◌∷◌, All, String, arith,
}
use spark_dev.Base.Text.{Text, codes}
use spark_dev.Base.Dict.{update, insert, Dict, lookup, last_lookup, or_else}
use spark_dev.Base.Int.{ℤ, pos}
use spark_dev.Base.Effect.{returns, Surroundings}
use spark_dev.Kafka.Calls as Kafka
use spark_dev.Kafka.Topics.{ensure_topic, produce_events}
use spark_dev.Kafka.Lag.{lags}
use spark_dev.Kafka.Lag.Metric.{Reports, lags_measure}
use spark_dev.Kafka.Attempts.{Serves, ensure_topic_soft, events_after, flushed, produce_events_lem}
use spark_dev.Spark.Calls as Spark
use spark_dev.Spark.Profiles.{constrained, profiles, stringified, settings_of, apply_profile}
use spark_dev.Spark.Profiles.Applied.{last_set, as_setting, apply_profile_sets}
use spark_dev.Datagen.{FactRow, skewed_keys, key_dimension}
use spark_dev.Datagen.Joins.{Joins, skewed_keys_join, skewed_keys_none_hot}
use spark_dev.MetricsDiff.Stages.{Stage}
use spark_dev.MetricsDiff.Calls as Metrics
use spark_dev.MetricsDiff.Measure.{measure}
use spark_dev.MetricsDiff.Measure.Degrades.{Runs, measure_degrades}
use spark_dev.Table.{separator, widest, column_widths}
use spark_dev.Table.Health.{health_names, compare_health, health_aligned}
use spark_dev.IcebergMeta.{Size, Health, printed, rounded, human_from, IsNearest, human_from_lem}

-- two partitions, one of them never committed
lags_measure_example :
    Reports
      ((0, 12) ∷ (1, 7) ∷ [])
      ((0, 5) ∷ [])
      (0 ∷ 1 ∷ [])
      (lags ((0, 12) ∷ (1, 7) ∷ []) ((0, 5) ∷ []) (0 ∷ 1 ∷ []))
lags_measure_example = lags_measure ((0, 12) ∷ (1, 7) ∷ []) ((0, 5) ∷ []) (0 ∷ 1 ∷ [])

-- a broker that creates and deletes nothing
abbrev refusing : Surroundings Kafka.Call Kafka.Answer
refusing [] = none
refusing (Kafka.admin_create ts ∷ h) = none
refusing (Kafka.admin_delete ts ∷ h) = none
refusing (c ∷ h) = some Kafka.done

refusing-Serves : Serves refusing
refusing-Serves = record {
  opens = λ h. (Kafka.done, refl);
  closes = λ h. (Kafka.done, refl);
  sleeps = λ d h. (Kafka.done, refl);
}

ensure_topic_soft_example : (ensure_topic (codes "t") 1 none true refusing []).0 ≡ returns tt
ensure_topic_soft_example = ensure_topic_soft refusing refusing-Serves (codes "t") 1 none true []

abbrev produced : List Kafka.Call
unfolding produce_events
produced = (produce_events (codes "t") 2 none none true refusing []).1

produced_run : produce_events (codes "t") 2 none none true refusing [] ≡ (returns 2, produced)
unfolding produce_events
produced_run = refl

produce_events_lem_example :
    ((◌≡◌ {A = ℕ}) 2 2)
    × (produced
        ≡ Kafka.producer_close
          ∷ flushed true (events_after (codes "t") none none (Kafka.producer_open ∷ []) 2))
produce_events_lem_example =
    produce_events_lem refusing (codes "t") 2 none none true [] 2 produced produced_run

abbrev agreeing : Surroundings Spark.Call Spark.Answer
agreeing h = some Spark.done

abbrev overrides : Dict String
overrides = ("spark.sql.shuffle.partitions", "8") ∷ []

abbrev same_text : String → String
same_text s = s

abbrev configured : List Spark.Call
unfolding apply_profile
configured = (apply_profile same_text 1 "constrained" overrides agreeing []).1

configured_run :
    apply_profile same_text 1 "constrained" overrides agreeing []
    ≡ (returns (settings_of same_text constrained overrides), configured)
unfolding apply_profile lookup settings_of update insert
configured_run = refl

constrained_known : lookup "constrained" profiles ≡ some constrained
unfolding lookup
constrained_known = refl

apply_profile_sets_example :
    last_set 1 "spark.sql.shuffle.partitions" configured
    ≡ or_else
        (as_setting (
          or_else
            (last_lookup "spark.sql.shuffle.partitions" (stringified same_text overrides))
            (lookup "spark.sql.shuffle.partitions" constrained)))
        (last_set 1 "spark.sql.shuffle.partitions" [])
apply_profile_sets_example =
    apply_profile_sets same_text agreeing 1 "constrained" constrained overrides []
      (settings_of same_text constrained overrides) configured constrained_known configured_run
      "spark.sql.shuffle.partitions"

abbrev hash : ℕ → ℤ
hash i = pos (i * 37)

abbrev amount : ℕ → ℕ → ℕ
amount seed i = seed + i

-- fractions in thousandths
abbrev between : ℕ → Bool
between f = ltb 0 f && ltb f 1000

abbrev percent : ℕ → ℕ
percent f = f / 10

abbrev digits : ℕ → Text
digits i = (b'0' + i) ∷ []

skewed_keys_join_example :
    (rows : List (FactRow ℕ)) × (skewed_keys hash amount between percent 6 900 3 (pos 0)
      ≡ some rows)
    × All (Joins (key_dimension digits 4)) rows
skewed_keys_join_example =
    skewed_keys_join hash amount between percent digits 6 900 3 0 4 refl (omega arith) (omega arith)
      (omega arith)

skewed_keys_none_hot_example :
    (rows : List (FactRow ℕ)) × (skewed_keys hash amount between percent 6 4 3 (pos 0) ≡ some rows)
    × All (λ row. row.key ≢ some (pos 0)) rows
skewed_keys_none_hot_example =
    skewed_keys_none_hot hash amount between percent 6 4 3 refl refl (omega arith)

human_from_lem_example :
    (let s = human_from 1048575 0 4 in
      (s.unit ≤ 4)
      × ((1048575 < 1024 ^ suc s.unit) ⊎ (s.unit ≡ 4))
      × ((1024 ^ s.unit ≤ 1048575) ⊎ (s.unit ≡ 0))
      × IsNearest 10485750 (1024 ^ s.unit) s.tenths
      × ((s.tenths ≤ 10240) ⊎ (s.unit ≡ 4))
      × ((10 ≤ s.tenths) ⊎ (s.unit ≡ 0)))
human_from_lem_example = human_from_lem 1048575

-- One byte less than a mebibyte is printed as 1024.0 KB.
just_below : human_from 1048575 0 4 ≡ record { tenths = 10240; unit = 1 }
unfolding human_from printed rounded
just_below = refl

abbrev stage : ℕ → ℕ → Stage
stage id bytes = record {
  stage_id = some id;
  attempt_id = none;
  num_tasks = some 4;
  shuffle_read_bytes = some bytes;
  shuffle_write_bytes = none;
  memory_bytes_spilled = none;
  disk_bytes_spilled = none;
}

abbrev health : Health
health = record {
  label = "before";
  data_files = 3;
  total_bytes = 3000;
  avg_file_bytes = 1000;
  snapshot_count = 2;
  manifest_count = 1;
}

abbrev size_text : Option Size → Text
size_text s = codes "1.0 KB"

health_aligned_example :
    All
      (λ line.
        length line
        ≡ length (
            separator
              (widest (health_names codes size_text digits))
              (column_widths (map (λ (x : Health). codes x.label) (health ∷ [])))))
      (compare_health codes size_text digits (health ∷ []))
health_aligned_example =
    health_aligned codes size_text digits health []
      ((omega arith, omega arith, omega arith, omega arith, omega arith), tt)

-- whole seconds
abbrev seconds : Metrics.Floats
seconds = record {
  Float = ℕ;
  minus = λ a b. a - b;
  divide = λ a b. a / b;
  round = λ a n. a;
  is_zero = λ a. a == 0;
}

-- the clock and the action answer, nothing else does
abbrev alone : Surroundings Metrics.Call (Metrics.Answer ℕ)
alone [] = none
alone (Metrics.perf_counter ∷ h) = some (Metrics.instant 7)
alone (Metrics.action ∷ h) = some Metrics.done
alone (c ∷ h) = none

alone-Runs : Runs seconds alone
alone-Runs = record { ticks = λ h. (7, refl); acts = λ h. (Metrics.done, refl) }

measure_degrades_example :
    (m : Metrics.Metrics ℕ) × ((measure seconds true (codes "q1") alone []).0 ≡ returns m)
measure_degrades_example = measure_degrades seconds alone alone-Runs true (codes "q1") []
