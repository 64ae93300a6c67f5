-- ===== src/Cdc/Config.antt =====
-- `debezium_pg_config` of common/cdc_helpers.py: the settings of a connector, as a dict.
use spark_dev.Base.{◌≤◌, ◌≡◌, refl, ap, ◌∙◌, String, Option, none, some, [], ◌∷◌, ◌++◌, length, All}
use spark_dev.Base.Text.{Text, codes}
use spark_dev.Base.Dict.{Dict, lookup, update, last_lookup, or_else, lookup-update}
use spark_dev.Cdc.Slot.{Unicode, IsAscii, safe_slot, publication_name, topic_prefix, topic_name}
use spark_dev.Cdc.Slot.Alphabet.{IsSlotChar, safe_slot_legal}

-- `slot or _safe_slot(name)`: an empty text is replaced too
unfoldable pub slot_or_default : Unicode → Text → Option Text → Text
slot_or_default u name none = safe_slot u name
slot_or_default u name (some []) = safe_slot u name
slot_or_default u name (some (c ∷ cs)) = c ∷ cs

-- the literal `cfg`
unfoldable pub base_config : Unicode → Text → Text → Option Text → Text → Dict Text
unfolding slot_or_default
base_config u name table slot snapshot_mode =
    ("connector.class", codes "io.debezium.connector.postgresql.PostgresConnector")
    ∷ ("database.hostname", codes "postgres")
    ∷ ("database.port", codes "5432")
    ∷ ("database.user", codes "cdc")
    ∷ ("database.password", codes "cdc")
    ∷ ("database.dbname", codes "inventory")
    ∷ ("topic.prefix", topic_prefix)
    ∷ ("plugin.name", codes "pgoutput")
    ∷ ("slot.name", slot_or_default u name slot)
    ∷ ("publication.name", publication_name u name)
    ∷ ("publication.autocreate.mode", codes "filtered")
    ∷ ("table.include.list", codes "public." ++ table)
    ∷ ("snapshot.mode", snapshot_mode)
    ∷ ("tombstones.on.delete", codes "true")
    ∷ ("decimal.handling.mode", codes "double")
    ∷ ("key.converter", codes "org.apache.kafka.connect.json.JsonConverter")
    ∷ ("value.converter", codes "org.apache.kafka.connect.json.JsonConverter")
    ∷ ("key.converter.schemas.enable", codes "false")
    ∷ ("value.converter.schemas.enable", codes "false")
    ∷ []

abbrev extra_settings : Option (Dict Text) → Dict Text
extra_settings none = []
extra_settings (some e) = e

unfoldable pub debezium_pg_config :
    Unicode → Text → Text → Option Text → Text → Option (Dict Text) → Dict Text
unfolding base_config
debezium_pg_config u name table slot snapshot_mode extra =
    update (base_config u name table slot snapshot_mode) (extra_settings extra)

module _ (u : Unicode) (name table : Text) (slot : Option Text) (mode : Text) where
  base_slot :
      lookup "slot.name" (base_config u name table slot mode) ≡ some (slot_or_default u name slot)
  unfolding base_config lookup
  base_slot = refl

  base_topic :
      (lookup "topic.prefix" (base_config u name table slot mode) ≡ some topic_prefix)
      × (lookup "table.include.list" (base_config u name table slot mode)
          ≡ some (codes "public." ++ table))
  unfolding base_config lookup
  base_topic = (refl, refl)

  config_setting :
      (extra : Option (Dict Text)) (k : String)
      → lookup k (debezium_pg_config u name table slot mode extra)
        ≡ or_else
            (last_lookup k (extra_settings extra))
            (lookup k (base_config u name table slot mode))
  unfolding debezium_pg_config
  config_setting extra k =
      lookup-update k (base_config u name table slot mode) (extra_settings extra)

-- For an ASCII name and no slot of the caller's, a configuration whose extra settings leave the
-- slot alone names a legal replication slot.
pub config_slot_legal :
    (u : Unicode) (name table mode : Text) (extra : Option (Dict Text))
    → IsAscii name
    → last_lookup "slot.name" (extra_settings extra) ≡ none
    → (s : Text) × (lookup "slot.name" (debezium_pg_config u name table none mode extra) ≡ some s)
      × All IsSlotChar s
      × (length s ≤ 63)
config_slot_legal u name table mode extra a free =
    let (legal, short) = safe_slot_legal u name a in
    (
      safe_slot u name,
      config_setting u name table none mode extra "slot.name"
          ∙ (ap (λ o. or_else o (lookup "slot.name" (base_config u name table none mode))) free
              ∙ (base_slot u name table none mode ∙ (unfold slot_or_default in refl))),
      legal,
      short,
    )

-- A configuration whose extra settings leave them alone has the topic prefix and the captured table
-- that, joined by a dot, are the topic that `topic_name` gives for the table in the schema public.
pub config_topic :
    (u : Unicode) (name table mode : Text) (slot : Option Text) (extra : Option (Dict Text))
    → last_lookup "topic.prefix" (extra_settings extra) ≡ none
    → last_lookup "table.include.list" (extra_settings extra) ≡ none
    → (prefix included : Text) × (lookup "topic.prefix"
          (debezium_pg_config u name table slot mode extra)
        ≡ some prefix)
      × (lookup "table.include.list" (debezium_pg_config u name table slot mode extra)
          ≡ some included)
      × (prefix ++ codes "." ++ included ≡ topic_name table (codes "public"))
unfolding topic_name
config_topic u name table mode slot extra p q =
    let base = base_config u name table slot mode in
    (
      topic_prefix,
      codes "public." ++ table,
      config_setting u name table slot mode extra "topic.prefix"
          ∙ (ap (λ o. or_else o (lookup "topic.prefix" base)) p
              ∙ (base_topic u name table slot mode).0),
      config_setting u name table slot mode extra "table.include.list"
          ∙ (ap (λ o. or_else o (lookup "table.include.list" base)) q
              ∙ (base_topic u name table slot mode).1),
      refl,
    )
