-- ===== src/Spark.antt =====
-- common/profiles.py and common/spark_session.py: the settings of a Spark session and the session's
-- life.
pub mod Calls
pub mod Profiles
pub mod Session
