-- ===== src/Labs/Envelope.antt =====
-- debezium/event_envelope/cdc4_event_envelope.ipynb: two connectors on one table, one for the full
-- envelopes and one that unwraps them, and the change events of each kind. `unicode` is what Python
-- knows of characters; durations are in milliseconds.
pub mod Apart
pub mod Cleaned
use spark_dev.Base.{ℕ, Option, none, some, List, [], ◌∷◌, ◌++◌, true, try_then}
use spark_dev.Base.Text.{Text, codes}
use spark_dev.Base.Json.{Json, null, Fields, get_field}
use spark_dev.Base.Dict.{Dict}
use spark_dev.Base.Effect.{perform, pure, catch, finally, ◌>>=◌, ◌>>◌}
use spark_dev.Cdc.Calls.{sleep, admin_open, admin_delete, admin_close, Cdc}
use spark_dev.Cdc.Slot.{Unicode, safe_slot, topic_name}
use spark_dev.Cdc.Config.{debezium_pg_config}
use spark_dev.Cdc.Postgres.{drop_slot}
use spark_dev.Cdc.Connect.{delete_connector}
use spark_dev.Cdc.Teardown.{teardown}
use spark_dev.Cdc.Events.{Event}
use spark_dev.Labs.Deletes.{first_of}

abbrev pub table : Text
table = codes "cdc4_orders"

abbrev pub env_conn : Text
env_conn = codes "cdc4-orders"

abbrev pub unwrap_conn : Text
unwrap_conn = codes "cdc4-unwrap"

abbrev pub env_topic : Text
env_topic = topic_name table (codes "public")

abbrev pub unwrap_topic : Text
unwrap_topic = codes "dbz4u.public." ++ table

unfoldable pub drop_unwrap_topic : Cdc (Unit {0})
drop_unwrap_topic = do
  perform admin_open
  finally (catch (do perform (admin_delete (unwrap_topic ∷ [])); pure tt) (pure tt)) admin_close

-- the first cell: both connectors, their slots, the table and both topics
unfoldable pub clean_slate : Unicode → Cdc (Unit {0})
unfolding teardown delete_connector drop_slot drop_unwrap_topic
clean_slate unicode = do
  teardown unicode env_conn (some table) none true
  delete_connector unwrap_conn
  perform (sleep 2000)
  drop_slot (safe_slot unicode unwrap_conn) 5 1500
  drop_unwrap_topic

-- the last cell, in another order
unfoldable pub clean_up : Unicode → Cdc (Unit {0})
unfolding teardown delete_connector drop_slot drop_unwrap_topic
clean_up unicode = do
  delete_connector unwrap_conn
  perform (sleep 2000)
  drop_slot (safe_slot unicode unwrap_conn) 5 1500
  drop_unwrap_topic
  teardown unicode env_conn (some table) none true

unfoldable pub env_cfg : Unicode → Dict Text
unfolding debezium_pg_config
env_cfg unicode = debezium_pg_config unicode env_conn table none (codes "initial") none

abbrev pub unwrap_extra : Dict Text
unwrap_extra =
    ("topic.prefix", codes "dbz4u")
    ∷ ("transforms", codes "unwrap")
    ∷ ("transforms.unwrap.type", codes "io.debezium.transforms.ExtractNewRecordState")
    ∷ ("transforms.unwrap.drop.tombstones", codes "false")
    ∷ ("transforms.unwrap.delete.handling.mode", codes "rewrite")
    ∷ []

unfoldable pub unwrap_cfg : Unicode → Dict Text
unfolding debezium_pg_config
unwrap_cfg unicode =
    debezium_pg_config unicode unwrap_conn table none (codes "initial") (some unwrap_extra)

-- `first(op)` and what the loop over the operations prints of it: nothing is found, or the three
-- fields of the raw value
unfoldable pub first : Text → List Event → Option Event
unfolding first_of
first op events = first_of op events

-- `read_raw_values`: the values of the messages, decoded unless null or empty, and parsed unless null
unfoldable pub read_raw_value :
    (List ℕ → Option Text) → (Text → Option Json) → Option (List ℕ) → Option (Option Json)
read_raw_value decode loads none = some none
read_raw_value decode loads (some []) = some none
read_raw_value decode loads (some (b ∷ bs)) =
    try_then (decode (b ∷ bs)) (λ t. try_then (loads t) (λ v. some (some v)))

unfoldable pub read_raw_values :
    (List ℕ → Option Text)
    → (Text → Option Json)
    → List (Option (List ℕ))
    → Option (List (Option Json))
unfolding read_raw_value
read_raw_values decode loads [] = some []
read_raw_values decode loads (m ∷ ms) =
    try_then (read_raw_value decode loads m)
      (λ v. try_then (read_raw_values decode loads ms) (λ vs. some (v ∷ vs)))
