-- ===== src/Lib.antt =====
-- A model of spark-dev's Python code and what it guarantees. Paths are from the repository's
-- root.
--
-- Capstone: the stage `ingest` of capstone/cap1_pipeline.py, from the Kafka values to the
-- Iceberg mirror. Capstone/Events has the schemas and the projection to changes, Capstone/Latest
-- the window that keeps the newest change of an id, Capstone/Merge the MERGE statement, and
-- Capstone/Replica the contract: the source table's history and what a topic carries of it.
-- Spark's sort inside a window is a parameter (`Ranking`), of which only the order by LSN is
-- assumed. Capstone/Mart is the stage `transform`, Capstone/Quality the gate `quality` and that
-- of dbt/quality/great_expectations/validate_table.py, and Capstone/Stages the rest: the wait
-- for the snapshot, the live changes, cleanup's statements and the choice of a stage.
-- Capstone/EndToEnd puts `ingest` and the gate together.
--
-- Airflow: airflow/dags. Airflow/Files are the files that tasks write, Airflow/Partitions the
-- tasks of af1 and af3, Airflow/Windows those of af2, Airflow/Handoff those of af5, af8 and af9,
-- Airflow/Mapping those of af7, Airflow/Retries af4 and Airflow/Branching af6. Airflow/Graph
-- says what a DAG is and how a run of it ends; Airflow/Graph/Runs has the order in which a graph
-- can run; Airflow/Dags and Airflow/Dags/Pipelines list the DAGs. Airflow itself is a parameter
-- with the documented meaning of its trigger rules (`IsAirflow`), of skips and of retries.
--
-- Labs: notebooks. Under kafka, Labs/PoisonPill is poison_pill/kaf6_poison_pill.ipynb,
-- Labs/Delivery delivery_semantics/kaf5_delivery.ipynb, Labs/Checkpoints
-- checkpoints/str2_checkpoints.ipynb, Labs/Backpressure backpressure/str3_backpressure.ipynb,
-- Labs/ConsumerLag consumer_lag/kaf2_consumer_lag.ipynb, Labs/Rebalancing
-- consumer_groups/kaf3_rebalancing.ipynb, Labs/Retention retention/kaf4_retention.ipynb and
-- Labs/Watermarks the batch part of watermarking/str1_watermarking.ipynb. Labs/Topics has the
-- topics of kaf4 and of partitioning/kaf1_partitioning.ipynb. Labs/Deletes is
-- debezium/deletes_tombstones/cdc6_deletes.ipynb, Labs/UpsertPipeline is
-- debezium/cdc_to_iceberg/cdc7_upsert_pipeline.ipynb, which shares the capstone's statements,
-- Labs/Envelope debezium/event_envelope/cdc4_event_envelope.ipynb and Labs/WalGrowth
-- debezium/wal_growth/cdc5_wal_growth.ipynb; both are code over the calls of
-- common/cdc_helpers.py. Labs/SchemaEvolution is
-- debezium/schema_evolution/cdc8_schema_evolution.ipynb. Labs/OrphanFiles is
-- iceberg/orphan_files/lak4_orphan_files.ipynb, Labs/Salting spark/skew/spk1_data_skew.ipynb and
-- Labs/Caching spark/caching/spk8_caching.ipynb. Labs/Experiments has the profiles and the
-- measurements of the seven Spark notebooks spk1, spk2, spk4, spk5, spk6, spk9 and spk10.
--
-- Cdc: common/cdc_helpers.py. Cdc/Slot and Cdc/Config have the names and the connector's
-- configuration, Cdc/Postgres the database functions and the slots, Cdc/Connect the REST calls
-- and the polling loops, Cdc/Events the reading and counting of change events, and Cdc/Teardown
-- the teardown, which composes the others.
--
-- Kafka: common/kafka_helpers.py, with topics and producers in Kafka/Topics and offsets and lag
-- in Kafka/Lag. Spark: common/profiles.py in Spark/Profiles and common/spark_session.py in
-- Spark/Session. Datagen: common/datagen.py. IcebergMeta: the numbers of common/iceberg_meta.py.
-- MetricsDiff: `measure` of common/metrics_diff.py, with its calls in MetricsDiff/Calls and the
-- choice of stages in MetricsDiff/Stages. Table: the tables that these two print, in
-- Table/Health and Table/Runs. Polyglot: dbt/dbt-polyglot/src/dbt_polyglot, with the fix-ups in
-- Polyglot/Fixups, their meaning in three-valued logic in Polyglot/Meaning, and the transpiler
-- in Polyglot/Transpile.
--
-- Code that calls services is a function of the surroundings, which answer each call or raise,
-- and of the history of the calls that were made (Base/Effect). Base/Keeps, Base/Triple and
-- Base/Soft have the rules for what such code keeps, ensures and survives. What is assumed of a
-- service is a record: `Ticks` for the clock, `KeepsSlot` and `ListsSlot` for Postgres,
-- `RemovesOrphans` for Iceberg's removal of files, `Serves` for a Kafka client, `Runs` for the
-- measured action, `IsAvailableNow` and `IsBatched` for Spark's streams, `IsConsumer` for
-- Kafka's consumers, `IsAirflow` for Airflow, `IsValidator` for Great Expectations, `Sqlglot`
-- and `Unicode` for the libraries.
--
-- The loops of `drop_slot`, `reset_offsets` and `ensure_topic` run over their numbers of
-- retries. The loops that poll until a deadline have fuel, timeout / poll + 2 rounds: each round
-- but the last sleeps for the poll interval, so the deadline is past before the fuel is. Amounts
-- are in hundredths, durations in milliseconds, but those of Labs/OrphanFiles in seconds; ids
-- and log positions are naturals.
--
-- Not modelled: what is printed or displayed besides the two tables; the calls of `ingest` and
-- `cleanup` to Spark as one run; the waiting of af5's sensors, which is Airflow's; the stream of
-- str1; the other notebooks, which are mostly SQL and Spark calls; the SQL models of dbt; and
-- the containers' configuration.
pub mod Base
pub mod Labs
pub mod Airflow
pub mod Capstone
pub mod Cdc
pub mod Polyglot
pub mod Kafka
pub mod Spark
pub mod Datagen
pub mod IcebergMeta
pub mod MetricsDiff
pub mod Table
pub mod Tests
