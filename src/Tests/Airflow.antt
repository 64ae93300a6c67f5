-- ===== src/Tests/Airflow.antt =====
-- The tasks of the DAGs under airflow/dags.
use spark_dev.Base.{arith, ℕ, ◌≡◌, ◌↔◌, refl, inl, none, some, List, [], ◌∷◌, length}
use spark_dev.Base.Text.{Text, codes}
use spark_dev.Base.Int.{ℤ, pos}
use spark_dev.Airflow.Files.{Files, line_count, run_each}
use spark_dev.Airflow.Partitions.{
  TaskRun, replay, partition_path, append_partition, overwrite_partition,
}
use spark_dev.Airflow.Partitions.Replay.{last_hash, replay_converges, reruns_count, times}
use spark_dev.Airflow.Handoff.{produce_orders, consume_orders, marker_lines}
use spark_dev.Airflow.Handoff.Reads.{consume_orders-produce_orders}
use spark_dev.Airflow.Graph.{success}
use spark_dev.Airflow.Retries.{
  Attempts, default_args, flaky_extract, alert_on_retry, flaky_extract_recovers,
}

abbrev root : Text
root = codes "/repo"

abbrev march_1 : Text
march_1 = codes "2025-03-01"

abbrev march_2 : Text
march_2 = codes "2025-03-02"

abbrev hash : Text → ℤ
hash ds = pos (length ds)

abbrev shown : ℕ → Text
shown n = n ∷ []

abbrev no_files : {L : Type 0} → Files L
no_files q = none

-- another process gives the dates other hashes
abbrev salted : Text → ℤ
salted ds = pos 7

abbrev once : List TaskRun
once = record { hash = hash; ds = march_1 } ∷ record { hash = hash; ds = march_2 } ∷ []

abbrev again : List TaskRun
again = record { hash = salted; ds = march_2 } ∷ once

same_last : (ds : Text) → last_hash ds once ≡ last_hash ds again
unfolding last_hash
same_last ds = ground arith

replay_converges_example : replay root shown once no_files ≡ replay root shown again no_files
replay_converges_example = replay_converges root shown once again no_files same_last

reruns_count_example :
    (line_count
        (partition_path root (codes "overwrite_fixed") march_1)
        (times 2 (overwrite_partition root hash march_1) no_files)
      ≡ some 3)
    × (line_count
          (partition_path root (codes "append_broken") march_1)
          (times 2 (append_partition root hash march_1) no_files)
        ≡ some 6)
reruns_count_example = reruns_count root hash march_1 1 no_files

consume_orders-produce_orders_example :
    consume_orders root march_1 (run_each (produce_orders root) (march_1 ∷ march_2 ∷ []) no_files)
    ≡ some (marker_lines root march_1)
consume_orders-produce_orders_example =
    consume_orders-produce_orders root (march_1 ∷ march_2 ∷ []) march_1 no_files (inl refl)

flaky_extract_recovers_example :
    Attempts default_args "flaky_extract" flaky_extract 1
      (alert_on_retry "flaky_extract" 1 ∷ alert_on_retry "flaky_extract" 2 ∷ [])
      success
    ↔ ((alert_on_retry "flaky_extract" 1 ∷ alert_on_retry "flaky_extract" 2 ∷ []
          ≡ alert_on_retry "flaky_extract" 1 ∷ alert_on_retry "flaky_extract" 2 ∷ [])
        × (success ≡ success))
flaky_extract_recovers_example =
    flaky_extract_recovers
      (alert_on_retry "flaky_extract" 1 ∷ alert_on_retry "flaky_extract" 2 ∷ []) success
