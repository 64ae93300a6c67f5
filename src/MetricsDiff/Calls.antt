-- ===== src/MetricsDiff/Calls.antt =====
-- The calls of `measure` of common/metrics_diff.py to Spark, its REST API and the clock, what they
-- answer, and the metrics. Sleeps are in milliseconds.
use spark_dev.Base.{ℕ, Bool, Option, List}
use spark_dev.Base.Text.{Text}
use spark_dev.MetricsDiff.Stages.{Stage}

-- what `measure` does with Python's floats
pub record Floats : Type 1 where
  pub Float : Type 0
  pub minus : Float → Float → Float
  pub divide : Float → Float → Float
  -- `round(x, digits)`
  pub round : Float → ℕ → Float
  pub is_zero : Float → Bool

pub data Call : Type 0 where
  -- the three REST calls of an application
  applications : Call
  completed_stages : Text → Call
  task_summary : Text → ℕ → ℕ → Call
  add_tag remove_tag : Text → Call
  clear_tags : Call
  perf_counter : Call
  -- `fn()`
  action : Call
  sleep : ℕ → Call

pub record Summary (Float : Type 0) : Type 0 where
  pub executor_run_time : Option (List Float)
  pub peak_execution_memory : Option (List Float)

pub data Answer (Float : Type 0) : Type 0 where
  done : Answer Float
  app_ids : List Text → Answer Float
  stages : List Stage → Answer Float
  summary : Summary Float → Answer Float
  instant : Float → Answer Float

pub record Metrics (Float : Type 0) : Type 0 where
  pub label : Text
  pub tag : Text
  pub runtime_s : Float
  pub num_tasks : Option ℕ
  pub shuffle_read_bytes : Option ℕ
  pub shuffle_write_bytes : Option ℕ
  pub spill_mem_bytes : Option ℕ
  pub spill_disk_bytes : Option ℕ
  pub task_time_median_ms : Option Float
  pub task_time_max_ms : Option Float
  pub skew_ratio : Option Float
  pub peak_mem_max_bytes : Option Float
