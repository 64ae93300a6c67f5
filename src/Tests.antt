-- ===== src/Tests.antt =====
-- Runs of the model on concrete data, each through a theorem of the development.
mod Sorting
mod Validator
mod Capstone
mod Slots
mod Cdc
mod Polyglot
mod Services
mod Airflow
mod Graphs
mod Labs
mod Quality
mod Tables
mod Sessions
