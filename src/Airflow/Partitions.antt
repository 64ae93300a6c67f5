-- ===== src/Airflow/Partitions.antt =====
-- af1_idempotency.py and af3_catchup_backfill.py under airflow/dags: the tasks that write one
-- partition of a date.
-- A date is the text that `strftime` gives. Parameters are the directory `repo` that the files
-- stand under, Python's `hash` of a text in the process that runs the task, and `shown`, which
-- writes a number in decimal. Python salts `hash` anew for each process, so each run of
-- `write_partition` comes with the `hash` of its own process.
pub mod Replay
use spark_dev.Base.{ℕ, ◌+◌, ◌-◌, ◌%◌, String, List, [], ◌∷◌, ◌++◌, replicate}
use spark_dev.Base.Text.{Text, codes}
use spark_dev.Base.Int.{ℤ, pos, negsuc}
use spark_dev.Airflow.Files.{Files, ◌/◌, write, append, run_each}

-- Python's `n % 50`, which is never negative
abbrev pub mod_50 : ℤ → ℕ
mod_50 (pos n) = n % 50
mod_50 (negsuc n) = 49 - n % 50

-- a dict that `json.dumps` writes on a line
pub record Metric : Type 0 where
  pub dt : Text
  pub metric : String
  pub value : ℕ

module _ (repo : Text) where
  abbrev out_af1 : Text
  out_af1 = repo / codes ".tmp" / codes "af1_idempotency"

  unfoldable pub partition_path : Text → Text → Text
  partition_path kind ds = (out_af1 / kind / (codes "dt=" ++ ds)) / codes "data.jsonl"

  abbrev pub out_af3 : Text
  out_af3 = repo / codes ".tmp" / codes "af3_catchup"

  unfoldable pub data_path : Text → Text
  data_path ds = (out_af3 / (codes "dt=" ++ ds)) / codes "data.txt"

unfoldable pub rows_for_interval : (Text → ℤ) → Text → List Metric
rows_for_interval hash ds =
    replicate 3 record { dt = ds; metric = "orders"; value = 100 + mod_50 (hash ds) }

-- the two lines that `write_partition` writes
-- for the `hash` of the date
unfoldable pub data_lines : (ℕ → Text) → Text → ℤ → List Text
data_lines shown ds hashed =
    (codes "partition dt=" ++ ds)
    ∷ (codes "rows=3 metric=orders value=" ++ shown (100 + mod_50 hashed))
    ∷ []

-- a run of `write_partition`: the `hash` of its process and its date
pub record TaskRun : Type 0 where
  pub hash : Text → ℤ
  pub ds : Text

module _ (repo : Text) (hash : Text → ℤ) where
  unfoldable pub append_partition : Text → Files Metric → Files Metric
  append_partition ds =
      append (partition_path repo (codes "append_broken") ds) (rows_for_interval hash ds)

  unfoldable pub overwrite_partition : Text → Files Metric → Files Metric
  overwrite_partition ds =
      write (partition_path repo (codes "overwrite_fixed") ds) (rows_for_interval hash ds)

module _ (repo : Text) (shown : ℕ → Text) where
  unfoldable pub write_partition : TaskRun → Files Text → Files Text
  write_partition r = write (data_path repo r.ds) (data_lines shown r.ds (r.hash r.ds))

  -- the runs that catchup and backfill make, one after another
  unfoldable pub replay : List TaskRun → Files Text → Files Text
  replay runs files = run_each write_partition runs files
