-- ===== src/Polyglot.antt =====
-- dbt/dbt-polyglot: transpiling dbt models to Spark SQL at compile time.
pub mod Fixups
pub mod Meaning
pub mod Transpile
pub mod Faithful
