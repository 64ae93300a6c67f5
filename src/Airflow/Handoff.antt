-- ===== src/Airflow/Handoff.antt =====
-- af5_sensor_modes.py, af8_xcom_limits.py and af9_assets_data_aware.py under airflow/dags: tasks that
-- leave a file for a later task. The parameter `repo` is the absolute path of the repository.
use spark_dev.Base.{
  ℕ, zero, suc, ◌+◌, ◌%◌, Bool, Option, none, some, String, List, [], ◌∷◌, ◌++◌, length,
}
use spark_dev.Base.Text.{Text, codes}
use spark_dev.Airflow.Files.{Files, ◌/◌, write, exists, line_count, run_each}
pub mod Reads

-- a row of the data set that `json.dumps` writes on a line
pub record Datum : Type 0 where
  pub dt : Text
  pub id : ℕ
  pub value : ℕ

-- the small dict that XCom carries
pub record Meta : Type 0 where
  pub rows : ℕ
  pub path : Text
  pub status : String

abbrev pub n_rows : ℕ
n_rows = 1000

-- the rows of the ids from `i` on, n of them
unfoldable pub rows_from : Text → ℕ → ℕ → List Datum
rows_from ds i zero = []
rows_from ds i (suc n) = record { dt = ds; id = i; value = 100 + i % 50 } ∷ rows_from ds (suc i) n

unfoldable pub dataset : Text → List Datum
dataset ds = rows_from ds 0 n_rows

-- `dumped_bytes` is the length of the data set's JSON, encoded.
unfoldable pub make_big_blob : (List Datum → ℕ) → Text → ℕ
make_big_blob dumped_bytes ds = dumped_bytes (dataset ds)

unfoldable pub summarize : Text → Meta
summarize ds = record {
  rows = length (dataset ds);
  path = codes "repo://af8/dt=" ++ ds;
  status = "ok";
}

module _ (repo : Text) where
  abbrev pub out_af8 : Text
  out_af8 = repo / codes ".tmp" / codes "af8"

  -- `write_dataset`: the path that it returns, and the files
  unfoldable pub write_dataset : Text → Files Datum → Text × Files Datum
  write_dataset ds files =
      let path = (out_af8 / (codes "dt=" ++ ds)) / codes "data.jsonl" in
      (path, write path (dataset ds) files)

  -- `read_dataset`: the number of rows that it prints, or an exception
  unfoldable pub read_dataset : Text → Files Datum → Option ℕ
  read_dataset path files = line_count path files

  abbrev pub out_af9 : Text
  out_af9 = repo / codes ".tmp" / codes "af9"

  unfoldable pub marker_path : Text → Text
  marker_path ds = out_af9 / (codes "orders_" ++ (ds ++ codes ".marker"))

  -- the line of a marker
  unfoldable pub marker_lines : Text → List Text
  marker_lines ds = (codes "orders produced for dt=" ++ ds) ∷ []

  unfoldable pub produce_orders : Text → Files Text → Files Text
  produce_orders ds = write (marker_path ds) (marker_lines ds)

  -- what `consume_orders` reads, if the marker is there
  unfoldable pub consume_orders : Text → Files Text → Option (List Text)
  consume_orders ds files = files (marker_path ds)

  abbrev out_af5 : Text
  out_af5 = repo / codes ".tmp" / codes "af5"

  abbrev pub signal : Text
  signal = out_af5 / codes "_SUCCESS"

  unfoldable pub signal_ready : Files Text → Bool
  signal_ready files = exists signal files

  unfoldable pub create_signal : Files Text → Files Text
  create_signal files = write signal (codes "ready" ∷ []) files

pub data Mode : Type 0 where
  poke : Mode
  reschedule : Mode

-- `PythonSensor(…)`: whether the condition holds, and the times in seconds
pub record Sensor : Type 0 where
  pub task_id : String
  pub python_callable : Files Text → Bool
  pub mode : Mode
  pub poke_interval : ℕ
  pub timeout : ℕ

unfoldable pub wait_poke : Text → Sensor
wait_poke repo = record {
  task_id = "wait_poke";
  python_callable = signal_ready repo;
  mode = poke;
  poke_interval = 2;
  timeout = 20;
}

unfoldable pub wait_reschedule : Text → Sensor
wait_reschedule repo = record {
  task_id = "wait_reschedule";
  python_callable = signal_ready repo;
  mode = reschedule;
  poke_interval = 2;
  timeout = 20;
}
