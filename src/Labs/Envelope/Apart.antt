-- ===== src/Labs/Envelope/Apart.antt =====
-- The two connectors of cdc4_event_envelope.ipynb keep apart.
use spark_dev.Base.{◌≡◌, refl, ap, some, ◌++◌, take}
use spark_dev.Base.Text.{Text, codes}
use spark_dev.Base.Dict.{lookup, update, insert}
use spark_dev.Cdc.Slot.{Unicode, sanitized, safe_slot, publication_name, drop_last_five}
use spark_dev.Cdc.Slot.Alphabet.{sanitized_ascii}
use spark_dev.Cdc.Config.{debezium_pg_config, base_config, slot_or_default}
use spark_dev.Labs.Envelope.{env_conn, unwrap_conn, unwrap_topic, env_cfg, unwrap_cfg}

env_sanitized : (u : Unicode) → sanitized u env_conn ≡ codes "cdc4_orders"
env_sanitized u = sanitized_ascii u env_conn refl

unwrap_sanitized : (u : Unicode) → sanitized u unwrap_conn ≡ codes "cdc4_unwrap"
unwrap_sanitized u = sanitized_ascii u unwrap_conn refl

abbrev slot_of : Text → Text
slot_of t = take 63 (t ++ codes "_slot")

abbrev publication_of : Text → Text
publication_of t = drop_last_five (slot_of t) ++ codes "_pub"

-- The connectors have slots and publications of their own, whatever the Unicode tables say of other
-- characters, and the second publishes to the topic that the notebook reads and deletes.
pub connectors_apart :
    (u : Unicode)
    → (lookup "slot.name" (env_cfg u) ≡ some (codes "cdc4_orders_slot"))
      × (lookup "slot.name" (unwrap_cfg u) ≡ some (codes "cdc4_unwrap_slot"))
      × (lookup "publication.name" (env_cfg u) ≡ some (codes "cdc4_orders_pub"))
      × (lookup "publication.name" (unwrap_cfg u) ≡ some (codes "cdc4_unwrap_pub"))
      × ((prefix included : Text) × (lookup "topic.prefix" (unwrap_cfg u) ≡ some prefix)
          × (lookup "table.include.list" (unwrap_cfg u) ≡ some included)
          × (prefix ++ codes "." ++ included ≡ unwrap_topic))
unfolding env_cfg unwrap_cfg debezium_pg_config base_config slot_or_default safe_slot
    publication_name drop_last_five update insert lookup
connectors_apart u = (
  ap (λ t. some (slot_of t)) (env_sanitized u),
  ap (λ t. some (slot_of t)) (unwrap_sanitized u),
  ap (λ t. some (publication_of t)) (env_sanitized u),
  ap (λ t. some (publication_of t)) (unwrap_sanitized u),
  (_, _, refl, refl, refl),
)
