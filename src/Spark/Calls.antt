-- ===== src/Spark/Calls.antt =====
-- The calls of common/profiles.py and common/spark_session.py to Spark, and what they answer.
use spark_dev.Base.{ℕ, Bool, String}
use spark_dev.Base.Effect.{Run}

pub data Setting : Type 0 where
  string : String → Setting
  flag : Bool → Setting
  number : ℕ → Setting

-- a session is the number that the builder gives it
pub data Call : Type 0 where
  -- `builder.remote(…).create()` and `.getOrCreate()`
  create_remote get_remote : String → Call
  -- the local builder's `getOrCreate()`
  get_local : Call
  conf_set : ℕ → String → Setting → Call
  conf_get : ℕ → String → Call
  -- `spark.range(1).count()`
  count_one : ℕ → Call
  -- `SparkSession._instantiatedSession = session`
  set_instantiated : ℕ → Call

pub data Answer : Type 0 where
  done : Answer
  session : ℕ → Answer
  value : String → Answer

abbrev pub Spark : Type 0 → Type 0
Spark A = Run Call Answer A
