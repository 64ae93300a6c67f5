-- ===== src/Airflow.antt =====
-- The DAGs under airflow/dags: the files that their tasks write, and the order and the rules by
-- which Airflow runs them.
pub mod Files
pub mod Partitions
pub mod Graph
pub mod Dags
pub mod Branching
pub mod Handoff
pub mod Mapping
pub mod Retries
pub mod Windows
