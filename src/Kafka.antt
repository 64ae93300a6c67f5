-- ===== src/Kafka.antt =====
-- common/kafka_helpers.py: topics, producers and consumer lag.
pub mod Calls
pub mod Topics
pub mod Lag
pub mod Attempts
