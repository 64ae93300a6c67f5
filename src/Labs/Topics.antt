-- ===== src/Labs/Topics.antt =====
-- The topics that kafka/retention/kaf4_retention.ipynb and
-- kafka/partitioning/kaf1_partitioning.ipynb make and fill, with `ensure_topic` and `produce_events`
-- of common/kafka_helpers.py, and how even their partitions are. `decimal` writes a number.
use spark_dev.Base.{
  ℕ, ◌*◌, ◌%◌, ◌/◌, ◌==◌, max, ◌≡◌, refl, true, Option, none, some, String, List, [], ◌∷◌, ◌++◌,
  map, if◌then◌else◌, leb, All,
}
use spark_dev.Base.Text.{Text, codes}
use spark_dev.Base.Json.{Json, number, text, object, no_fields, field}
use spark_dev.Base.Dict.{Dict, lookup}
use spark_dev.Base.Effect.{◌>>◌}
use spark_dev.Kafka.Calls.{Kafka}
use spark_dev.Kafka.Topics.{ensure_topic, produce_events}
use spark_dev.Kafka.Lag.{topic_end_offsets}

abbrev pub events_topic : Text
events_topic = codes "kaf4_events"

abbrev pub events_configs : Dict Text
events_configs =
    ("cleanup.policy", codes "delete")
    ∷ ("retention.ms", codes "60000")
    ∷ ("segment.ms", codes "1000")
    ∷ ("retention.bytes", codes "1048576")
    ∷ []

abbrev event_value : ℕ → Json
event_value i =
    object (field (codes "event_id") (number i) (field (codes "v") (number i) no_fields))

unfoldable pub make_events : Kafka ℕ
unfolding ensure_topic produce_events
make_events = do
  ensure_topic events_topic 1 (some events_configs) true
  produce_events events_topic 500 (some event_value) none true

abbrev pub state_topic : Text
state_topic = codes "kaf4_state"

abbrev pub state_configs : Dict Text
state_configs =
    ("cleanup.policy", codes "compact")
    ∷ ("segment.ms", codes "1000")
    ∷ ("min.cleanable.dirty.ratio", codes "0.01")
    ∷ ("delete.retention.ms", codes "1000")
    ∷ []

unfoldable pub make_state : Kafka (Unit {0})
unfolding ensure_topic
make_state = ensure_topic state_topic 1 (some state_configs) true

-- `cfg` of `topic_config`, from the names and values that the broker describes
unfoldable pub topic_config : Dict Text → Option (List String) → Dict (Option Text)
unfolding lookup
topic_config cfg none = map (λ entry. (entry.0, some entry.1)) cfg
topic_config cfg (some keys) = map (λ k. (k, lookup k cfg)) keys

-- The value that `topic_config` gives for a key that was asked for is the broker's.
pub topic_config_value :
    (cfg : Dict Text) (keys : List String)
    → All (λ entry. entry.1 ≡ lookup entry.0 cfg) (topic_config cfg (some keys))
unfolding topic_config
topic_config_value cfg [] = tt
topic_config_value cfg (k ∷ keys) = (refl, topic_config_value cfg keys)

abbrev pub orders_topic : Text
orders_topic = codes "kaf1_orders"

abbrev pub partitions : ℕ
partitions = 3

module _ (decimal : ℕ → Text) where
  -- nine keys of ten are the hot one
  unfoldable pub skewed_key : ℕ → Option Json
  skewed_key i =
      if i % 10 == 0 then some (text (codes "cust-" ++ decimal i)) else some (text (codes "HOT"))

  unfoldable pub balanced_key : ℕ → Option Json
  balanced_key i = some (text (codes "cust-" ++ decimal (i % 300)))

  unfoldable pub make_skewed : Kafka (List (ℕ × ℕ))
  unfolding produce_events topic_end_offsets
  make_skewed = do
    produce_events orders_topic 3000 none (some skewed_key) true
    topic_end_offsets orders_topic

  unfoldable pub make_balanced : Kafka (List (ℕ × ℕ))
  unfolding ensure_topic produce_events topic_end_offsets
  make_balanced = do
    ensure_topic orders_topic partitions none true
    produce_events orders_topic 3000 none (some balanced_key) true
    topic_end_offsets orders_topic

-- `min(d.values())` and `max(d.values())` of a dict that is not empty
abbrev pub least : ℕ → List (ℕ × ℕ) → ℕ
least n [] = n
least n ((p, m) ∷ d) = let rest = least n d in if leb m rest then m else rest

abbrev pub greatest : ℕ → List (ℕ × ℕ) → ℕ
greatest n [] = n
greatest n ((p, m) ∷ d) = max m (greatest n d)

-- The numbers that `spread` prints, the quotient in tenths; `min` of an empty dict raises.
unfoldable pub spread : List (ℕ × ℕ) → Option (ℕ × ℕ × ℕ)
spread [] = none
spread ((p, n) ∷ d) =
    let lo = least n d in let hi = greatest n d in some (lo, hi, hi * 10 / max lo 1)
