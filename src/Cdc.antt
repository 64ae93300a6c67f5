-- ===== src/Cdc.antt =====
-- common/cdc_helpers.py: Postgres, Kafka Connect and Debezium for the change-data-capture track.
pub mod Slot
pub mod Config
pub mod Calls
pub mod Postgres
pub mod Connect
pub mod Events
pub mod Teardown
