-- ===== src/Airflow/Dags.antt =====
-- The DAGs that airflow/dags declares, those of Bash commands apart: the arguments of
-- `with DAG(…)`, and the tasks with what follows what, in the order in which they can run.
-- `python_task` is a task of a decorated function with the default trigger rule.
use spark_dev.Base.{Bool, true, false, none, some, String, List, [], ◌∷◌, ◌++◌}
use spark_dev.Airflow.Graph.{
  Dag, Graph, Task, Rule, all_success, all_done, none_failed_min_one_success, unscheduled, daily,
  on_asset, chain_from, fan_out, fan_in,
}
pub mod Pipelines
pub mod Promotion
pub mod Order

abbrev pub python_task : String → Task
python_task name = record { task_id = name; trigger_rule = all_success; bash_command = none }

abbrev pub af1 : Dag
af1 = record {
  dag_id = "af1_idempotency";
  start_date = (2025, 1, 1);
  schedule = daily;
  catchup = false;
  tags = "airflow-curriculum" ∷ "AF-1" ∷ "idempotency" ∷ [];
}

abbrev pub af1_graph : Graph
af1_graph = record {
  tasks = python_task "append_partition" ∷ python_task "overwrite_partition" ∷ [];
  edges = [];
}

abbrev pub af2 : Dag
af2 = record {
  dag_id = "af2_execution_model";
  start_date = (2025, 1, 1);
  schedule = daily;
  catchup = false;
  tags = "airflow-curriculum" ∷ "AF-2" ∷ "execution-model" ∷ "data-interval" ∷ [];
}

abbrev pub af2_graph : Graph
af2_graph = record {
  tasks = python_task "window_from_now" ∷ python_task "window_from_interval" ∷ [];
  edges = [];
}

abbrev pub af3 : Dag
af3 = record {
  dag_id = "af3_catchup_backfill";
  start_date = (2025, 3, 1);
  schedule = daily;
  catchup = true;
  tags = "airflow-curriculum" ∷ "AF-3" ∷ "catchup" ∷ "backfill" ∷ "idempotency" ∷ [];
}

abbrev pub af3_graph : Graph
af3_graph = record { tasks = python_task "write_partition" ∷ []; edges = [] }

abbrev pub af4 : Dag
af4 = record {
  dag_id = "af4_retries_sla";
  start_date = (2025, 1, 1);
  schedule = unscheduled;
  catchup = false;
  tags = "airflow-curriculum" ∷ "AF-4" ∷ "retries" ∷ "backoff" ∷ "deadline-alerting" ∷ [];
}

abbrev pub af4_graph : Graph
af4_graph = record {
  tasks = python_task "flaky_extract" ∷ python_task "downstream_load" ∷ [];
  edges = chain_from "flaky_extract" ("downstream_load" ∷ []);
}

abbrev pub af5 : Dag
af5 = record {
  dag_id = "af5_sensor_modes";
  start_date = (2025, 1, 1);
  schedule = unscheduled;
  catchup = false;
  tags = "airflow-curriculum" ∷ "AF-5" ∷ "sensors" ∷ "poke" ∷ "reschedule" ∷ "deferrable" ∷ [];
}

abbrev af5_sensors : List String
af5_sensors = "wait_poke" ∷ "wait_reschedule" ∷ []

abbrev pub af5_graph : Graph
af5_graph = record {
  tasks =
      python_task "create_signal"
      ∷ python_task "wait_poke"
      ∷ python_task "wait_reschedule"
      ∷ python_task "proceed"
      ∷ [];
  edges = fan_out "create_signal" af5_sensors ++ fan_in af5_sensors "proceed";
}

abbrev pub af6 : Dag
af6 = record {
  dag_id = "af6_trigger_rules_branching";
  start_date = (2025, 1, 1);
  schedule = unscheduled;
  catchup = false;
  tags = "airflow-curriculum" ∷ "AF-6" ∷ "branching" ∷ "trigger-rules" ∷ "short-circuit" ∷ [];
}

abbrev af6_arms : List String
af6_arms = "run_full_refresh" ∷ "run_incremental" ∷ []

abbrev join_after_branch : Task
join_after_branch = record {
  task_id = "join_after_branch";
  trigger_rule = none_failed_min_one_success;
  bash_command = none;
}

abbrev pub af6_graph : Graph
af6_graph = record {
  tasks =
      python_task "pick_branch"
      ∷ python_task "run_full_refresh"
      ∷ python_task "run_incremental"
      ∷ join_after_branch
      ∷ python_task "gate"
      ∷ python_task "after_gate"
      ∷ [];
  edges =
      fan_out "pick_branch" af6_arms
      ++ fan_in af6_arms "join_after_branch"
      ++ chain_from "gate" ("after_gate" ∷ []);
}

abbrev pub af7 : Dag
af7 = record {
  dag_id = "af7_dynamic_mapping";
  start_date = (2025, 1, 1);
  schedule = unscheduled;
  catchup = false;
  tags = "airflow-curriculum" ∷ "AF-7" ∷ "dynamic-mapping" ∷ "task-group" ∷ [];
}

abbrev pub af7_graph : Graph
af7_graph = record {
  tasks =
      python_task "ingest.list_tables"
      ∷ python_task "ingest.process"
      ∷ python_task "summarize"
      ∷ [];
  edges = chain_from "ingest.list_tables" ("ingest.process" ∷ "summarize" ∷ []);
}

abbrev pub af8 : Dag
af8 = record {
  dag_id = "af8_xcom_limits";
  start_date = (2025, 1, 1);
  schedule = unscheduled;
  catchup = false;
  tags = "airflow-curriculum" ∷ "AF-8" ∷ "xcom" ∷ "metadata-vs-payload" ∷ [];
}

abbrev pub af8_graph : Graph
af8_graph = record {
  tasks =
      python_task "make_big_blob"
      ∷ python_task "summarize"
      ∷ python_task "report_metadata"
      ∷ python_task "write_dataset"
      ∷ python_task "read_dataset"
      ∷ [];
  edges =
      chain_from "summarize" ("report_metadata" ∷ [])
      ++ chain_from "write_dataset" ("read_dataset" ∷ []);
}

abbrev orders_asset : String
orders_asset = "repo://af9/orders"

abbrev pub af9_producer : Dag
af9_producer = record {
  dag_id = "af9_assets_producer";
  start_date = (2025, 1, 1);
  schedule = daily;
  catchup = false;
  tags = "airflow-curriculum" ∷ "AF-9" ∷ "assets" ∷ "data-aware" ∷ "producer" ∷ [];
}

abbrev pub af9_consumer : Dag
af9_consumer = record {
  dag_id = "af9_assets_consumer";
  start_date = (2025, 1, 1);
  schedule = on_asset orders_asset;
  catchup = false;
  tags = "airflow-curriculum" ∷ "AF-9" ∷ "assets" ∷ "data-aware" ∷ "consumer" ∷ [];
}

abbrev pub example : Dag
example = record {
  dag_id = "example_dag";
  start_date = (2025, 1, 1);
  schedule = unscheduled;
  catchup = false;
  tags = "example" ∷ [];
}
