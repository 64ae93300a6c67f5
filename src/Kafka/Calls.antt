-- ===== src/Kafka/Calls.antt =====
-- The calls of common/kafka_helpers.py to kafka-python and time, and what they answer. Durations are
-- in milliseconds.
use spark_dev.Base.{ℕ, Option, List}
use spark_dev.Base.Text.{Text}
use spark_dev.Base.Json.{Json}
use spark_dev.Base.Dict.{Dict}
use spark_dev.Base.Effect.{Run}

-- a `NewTopic`, with replication 1
pub record NewTopic : Type 0 where
  pub topic : Text
  pub num_partitions : ℕ
  pub configs : Dict Text

pub data Call : Type 0 where
  admin_open admin_close : Call
  admin_delete : List Text → Call
  admin_create : List NewTopic → Call
  list_offsets : Text → Call
  sleep : ℕ → Call
  producer_open producer_flush producer_close : Call
  -- topic, key, value
  send : Text → Option Json → Json → Call
  consumer_open consumer_close : Call
  partitions_for_topic : Text → Call
  -- partitions of a topic
  assign : Text → List ℕ → Call
  end_offsets : Text → List ℕ → Call

pub data Answer : Type 0 where
  done : Answer
  -- a set of partitions, or None
  partitions : Option (List ℕ) → Answer
  -- an offset for each partition of the topic
  offsets : List (ℕ × ℕ) → Answer
  -- the committed offset of each partition that has one
  committed_offsets : List (ℕ × ℕ) → Answer

abbrev pub Kafka : Type 0 → Type 0
Kafka A = Run Call Answer A
