-- ===== src/Kafka/Topics.antt =====
-- `ensure_topic`, `delete_topic` and `produce_events` of common/kafka_helpers.py.
use spark_dev.Base.{
  ℕ, zero, suc, ◌+◌, Bool, true, false, Option, none, some, [], ◌∷◌, if◌then◌else◌,
}
use spark_dev.Base.Text.{Text, codes}
use spark_dev.Base.Json.{Json, number, object, no_fields, field}
use spark_dev.Base.Dict.{Dict}
use spark_dev.Base.Effect.{perform, pure, catch, finally, ◌>>=◌, ◌>>◌}
use spark_dev.Kafka.Calls.{
  NewTopic, admin_open, admin_close, admin_delete, admin_create, sleep, producer_open,
  producer_flush, producer_close, send, Kafka,
}

abbrev configs_or_empty : Option (Dict Text) → Dict Text
configs_or_empty none = []
configs_or_empty (some c) = c

abbrev pub new_topic : Text → ℕ → Option (Dict Text) → NewTopic
new_topic topic n configs = record {
  topic = topic;
  num_partitions = n;
  configs = configs_or_empty configs;
}

-- `try: delete_topics; sleep(1.0) except: pass`
unfoldable pub delete_first : Text → Kafka (Unit {0})
delete_first topic =
    catch (do perform (admin_delete (topic ∷ [])); perform (sleep 1000); pure tt) (pure tt)

-- the `try` in the loop: whether the topic was created
unfoldable pub try_create : NewTopic → Kafka Bool
try_create t = catch (do perform (admin_create (t ∷ [])); pure true) (pure false)

-- the `for attempt in range(5)` of `ensure_topic`; the sleep is in the `except`
unfoldable pub create_loop : NewTopic → ℕ → Kafka (Unit {0})
unfolding try_create
create_loop t zero = pure tt
create_loop t (suc n) = do
  created ← try_create t
  if created then pure tt else (do perform (sleep 1000); create_loop t n)

unfoldable pub ensure_topic : Text → ℕ → Option (Dict Text) → Bool → Kafka (Unit {0})
unfolding delete_first create_loop
ensure_topic topic num_partitions configs recreate = do
  perform admin_open
  finally
      (do
        (if recreate then delete_first topic else pure tt)
        create_loop (new_topic topic num_partitions configs) 5)
      admin_close

unfoldable pub delete_topic : Text → Kafka (Unit {0})
delete_topic topic = do
  perform admin_open
  finally (catch (do perform (admin_delete (topic ∷ [])); pure tt) (pure tt)) admin_close

-- the default value, `{"id": i, "v": i*1.0}`
abbrev default_value : ℕ → Json
default_value i = object (field (codes "id") (number i) (field (codes "v") (number i) no_fields))

abbrev pub value_at : Option (ℕ → Json) → ℕ → Json
value_at none i = default_value i
value_at (some f) i = f i

abbrev pub key_at : Option (ℕ → Option Json) → ℕ → Option Json
key_at none i = none
key_at (some f) i = f i

unfoldable pub send_loop :
    Text → Option (ℕ → Json) → Option (ℕ → Option Json) → ℕ → ℕ → Kafka (Unit {0})
send_loop topic value_fn key_fn i zero = pure tt
send_loop topic value_fn key_fn i (suc n) = do
  perform (send topic (key_at key_fn i) (value_at value_fn i))
  send_loop topic value_fn key_fn (i + 1) n

unfoldable pub produce_events :
    Text → ℕ → Option (ℕ → Json) → Option (ℕ → Option Json) → Bool → Kafka ℕ
unfolding send_loop
produce_events topic n value_fn key_fn flush = do
  perform producer_open
  send_loop topic value_fn key_fn 0 n
  (if flush then (do perform producer_flush; pure tt) else pure tt)
  perform producer_close
  pure n
