-- ===== src/Cdc/Calls.antt =====
-- The calls of common/cdc_helpers.py to psycopg2, urllib, kafka-python and time, and what they
-- answer. Durations and instants are in milliseconds.
use spark_dev.Base.{ℕ, Bool, Option, List}
use spark_dev.Base.Text.{Text}
use spark_dev.Base.Json.{Json}
use spark_dev.Base.Dict.{Dict}
use spark_dev.Base.Effect.{Run}

pub data Method : Type 0 where
  get put delete : Method

pub data Call : Type 0 where
  -- `psycopg2.connect` and `autocommit`, `execute`, `fetchall`, `close`
  pg_open : Bool → Call
  pg_execute : Text → List Json → Call
  pg_fetchall : Call
  pg_close : Call
  -- `urlopen` of a method, a path below `CONNECT_URL`, a JSON body, and the time-out
  request : Method → Text → Option (Dict Text) → ℕ → Call
  -- `time.sleep`, `time.time`
  sleep : ℕ → Call
  now : Call
  -- `KafkaAdminClient`, `delete_topics`, `close`
  admin_open : Call
  admin_delete : List Text → Call
  admin_close : Call

pub data Answer : Type 0 where
  done : Answer
  instant : ℕ → Answer
  rows : List (List Json) → Answer
  -- a status and the parsed body, if there is one
  response : ℕ → Option Json → Answer
  -- `HTTPError`: its code and its text
  http_error : ℕ → Text → Answer

abbrev pub Cdc : Type 0 → Type 0
Cdc A = Run Call Answer A
