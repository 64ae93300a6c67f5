-- ===== src/Airflow/Dags/Pipelines.antt =====
-- af10_dbt_spark_e2e.py and cap1_e2e_pipeline.py under airflow/dags: the two DAGs of Bash commands.
-- The parameter `repo` is the absolute path of the repository.
use spark_dev.Base.{false, some, String, [], ◌∷◌, ◌++◌}
use spark_dev.Base.Text.{Text, codes}
use spark_dev.Airflow.Graph.{Dag, Graph, Task, all_success, all_done, unscheduled, chain_from}

-- `BashOperator(task_id=…, bash_command=…)`, with the default trigger rule
abbrev bash_task : String → Text → Task
bash_task name command = record {
  task_id = name;
  trigger_rule = all_success;
  bash_command = some command;
}

abbrev pub af10 : Dag
af10 = record {
  dag_id = "af10_dbt_spark_e2e";
  start_date = (2025, 1, 1);
  schedule = unscheduled;
  catchup = false;
  tags = "airflow-curriculum" ∷ "AF-10" ∷ "dbt" ∷ "spark" ∷ "e2e" ∷ [];
}

abbrev pub cap1 : Dag
cap1 = record {
  dag_id = "cap1_e2e_pipeline";
  start_date = (2025, 1, 1);
  schedule = unscheduled;
  catchup = false;
  tags = "airflow-curriculum" ∷ "CAP-1" ∷ "capstone" ∷ "e2e" ∷ [];
}

module _ (repo : Text) where
  abbrev pub dbt : Text
  dbt = codes "cd " ++ repo ++ codes "/dbt && set -a && . ./.env && set +a && uv run dbt"

  abbrev pub py : Text
  py =
      codes "cd "
      ++ repo
      ++ codes " && PYTHONPATH="
      ++ repo
      ++ codes " uv run python capstone/cap1_pipeline.py"

  abbrev dbt_build : Task
  dbt_build = bash_task "dbt_build" (
      dbt
      ++ codes " build -s stg_orders fct_orders stg_orders_quality orders_clean orders_quarantine")

  abbrev dbt_test : Task
  dbt_test = bash_task "dbt_test" (dbt ++ codes " test -s orders_clean orders_quarantine")

  abbrev ge_quality_gate : Task
  ge_quality_gate = bash_task "ge_quality_gate" (
      codes "cd "
      ++ repo
      ++ codes " && PYTHONPATH="
      ++ repo
      ++ codes " uv run python "
      ++ codes "dbt/quality/great_expectations/validate_table.py spark_catalog.marts.orders_clean")

  abbrev af10_cleanup : Task
  af10_cleanup =
      bash_task "cleanup"
        (codes "echo 'pipeline complete — real jobs would VACUUM/expire scratch tables here'")

  abbrev pub af10_graph : Graph
  af10_graph = record {
    tasks = dbt_build ∷ dbt_test ∷ ge_quality_gate ∷ af10_cleanup ∷ [];
    edges = chain_from "dbt_build" ("dbt_test" ∷ "ge_quality_gate" ∷ "cleanup" ∷ []);
  }

  abbrev dbt_marts : Task
  dbt_marts =
      bash_task "dbt_marts" (dbt ++ codes " build -s fct_orders orders_clean orders_quarantine")

  abbrev cap1_cleanup : Task
  cap1_cleanup = record {
    task_id = "cleanup";
    trigger_rule = all_done;
    bash_command = some (py ++ codes " cleanup");
  }

  abbrev pub cap1_graph : Graph
  cap1_graph = record {
    tasks =
        bash_task "cdc_ingest" (py ++ codes " ingest")
        ∷ bash_task "spark_transform" (py ++ codes " transform")
        ∷ bash_task "ge_gate" (py ++ codes " quality")
        ∷ dbt_marts
        ∷ dbt_test
        ∷ cap1_cleanup
        ∷ [];
    edges =
        chain_from "cdc_ingest" ("spark_transform" ∷ "ge_gate" ∷ "cleanup" ∷ [])
        ++ chain_from "dbt_marts" ("dbt_test" ∷ "cleanup" ∷ []);
  }
