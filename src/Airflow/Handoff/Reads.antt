-- ===== src/Airflow/Handoff/Reads.antt =====
-- What the later task of af5_sensor_modes.py, af8_xcom_limits.py and af9_assets_data_aware.py under
-- airflow/dags finds.
use spark_dev.Base.{
  ℕ, zero, suc, true, false, Option, ◌≡◌, refl, ap, some, List, [], ◌∷◌, ◌++◌, length, In,
}
use spark_dev.Base.Text.{Text, codes}
use spark_dev.Airflow.Files.{Files, ◌/◌, exists, run_each, write_same, line_count-write, join_inj}
use spark_dev.Airflow.Files.Writes.{run_each_holds}
use spark_dev.Airflow.Handoff.{
  Datum, rows_from, dataset, n_rows, summarize, out_af8, write_dataset, read_dataset, out_af9,
  marker_path, marker_lines, produce_orders, consume_orders, signal, signal_ready, create_signal,
  wait_poke, wait_reschedule,
}
use mathlib.Core.List.{append_cancel_left, append_cancel_right}

length-rows_from : (ds : Text) (i n : ℕ) → length (rows_from ds i n) ≡ n
unfolding rows_from
length-rows_from ds i zero = refl
length-rows_from ds i (suc n) = ap suc (length-rows_from ds (suc i) n)

length-dataset : (ds : Text) → length (dataset ds) ≡ n_rows
unfolding dataset
length-dataset ds = length-rows_from ds 0 n_rows

module _ (repo : Text) where
  -- `read_dataset` counts as many rows at the path that `write_dataset` returns as the summary of
  -- the date says.
  pub read_dataset-write_dataset :
      (ds : Text) (files : Files Datum)
      → let (path, written) = write_dataset repo ds files in
        read_dataset repo path written ≡ some ((summarize ds).rows)
  unfolding write_dataset read_dataset summarize
  read_dataset-write_dataset ds files =
      line_count-write ((out_af8 repo / (codes "dt=" ++ ds)) / codes "data.jsonl") (dataset ds)
        files

  marker_path_inj : (a b : Text) → marker_path repo a ≡ marker_path repo b → a ≡ b
  unfolding marker_path
  marker_path_inj a b h = append_cancel_right a b (codes ".marker") (
      append_cancel_left (codes "orders_") (a ++ codes ".marker") (b ++ codes ".marker") (
        join_inj (out_af9 repo) (codes "orders_" ++ (a ++ codes ".marker"))
          (codes "orders_" ++ (b ++ codes ".marker")) h))

  -- After runs of `produce_orders` for some dates, `consume_orders` reads, for each of the dates,
  -- the marker of that date.
  pub consume_orders-produce_orders :
      (dates : List Text) (ds : Text) (files : Files Text)
      → In ds dates
      → consume_orders repo ds (run_each (produce_orders repo) dates files)
        ≡ some (marker_lines repo ds)
  unfolding consume_orders produce_orders
  consume_orders-produce_orders dates ds files m =
      run_each_holds (marker_path repo) (marker_lines repo) marker_path_inj dates files ds m

  signal_ready-create_signal :
      (files : Files Text) → signal_ready repo (create_signal repo files) ≡ true
  unfolding signal_ready create_signal exists
  signal_ready-create_signal files =
      ap (λ o. elim o [ Option.none ↦ false | Option.some _ ↦ true ])
        (write_same (signal repo) (codes "ready" ∷ []) files)

  -- Once the signal is made, the conditions of both sensors hold.
  pub sensors_pass :
      (files : Files Text)
      → ((wait_poke repo).python_callable (create_signal repo files) ≡ true)
        × ((wait_reschedule repo).python_callable (create_signal repo files) ≡ true)
  unfolding wait_poke wait_reschedule
  sensors_pass files = (signal_ready-create_signal files, signal_ready-create_signal files)
