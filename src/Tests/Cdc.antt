-- ===== src/Tests/Cdc.antt =====
-- common/cdc_helpers.py on a connector "a-b" and a database with one slot.
use spark_dev.Base.{
  ℕ, ◌≤◌, ◌≡◌, ◌≢◌, refl, Bool, true, Option, none, some, List, [], ◌∷◌, ◌++◌, map, length, All,
  arith,
}
use spark_dev.Base.Text.{Text, codes, text_eq}
use spark_dev.Base.Json.{get_field, Json, null, boolean, number, text, object, no_fields, field}
use spark_dev.Base.Effect.{returns}
use spark_dev.Cdc.Calls.{Call}
use spark_dev.Cdc.Slot.{
  Unicode, is_ascii_lower, is_ascii_digit, ascii_lower, safe_slot, publication_name,
}
use spark_dev.Cdc.Slot.Alphabet.{IsSlotChar, safe_slot_legal}
use spark_dev.Cdc.Slot.Publication.{names_collide}
use spark_dev.Cdc.Postgres.{pg_exec, pg_exec_many, seed_orders, drop_slot}
use spark_dev.Cdc.Postgres.Closing.{IsClosed, postgres_closes}
use spark_dev.Cdc.Connect.{wait_for_connector, connect_up}
use spark_dev.Cdc.Connect.Polling.{polling_ends}
use spark_dev.Cdc.Events.{
  Event, tombstone_event, read_cdc_events, op_counts, key_of, key_eq, text_key, number_key,
}
use spark_dev.Cdc.Events.Counts.{Counted, read_counts}
use spark_dev.Labs.Envelope.{clean_slate}
use spark_dev.Labs.Envelope.Cleaned.{Cleaned, clean_slate_asks}
use spark_dev.Cdc.Teardown.{teardown}
use spark_dev.Cdc.Teardown.Order.{AskedFor, teardown_asks}
use spark_dev.Tests.Slots.{services, services-Ticks}

-- Python on ASCII text
ascii : Unicode
ascii = record {
  lower = map ascii_lower;
  is_lower = is_ascii_lower;
  is_digit = is_ascii_digit;
  lower_ascii = λ s h. refl;
  is_lower_ascii = λ c h. refl;
  is_digit_ascii = λ c h. refl;
}

abbrev connector_name : Text
connector_name = codes "a-b"

safe_slot_legal_example :
    All IsSlotChar (safe_slot ascii connector_name) × (length (safe_slot ascii connector_name) ≤ 63)
safe_slot_legal_example =
    safe_slot_legal ascii connector_name (omega arith, (omega arith, (omega arith, tt)))

-- "a-b" and "a_b"
names_collide_example :
    (safe_slot ascii (codes "a" ++ b'-' ∷ codes "b")
      ≡ safe_slot ascii (codes "a" ++ b'_' ∷ codes "b"))
    × (publication_name ascii (codes "a" ++ b'-' ∷ codes "b")
        ≡ publication_name ascii (codes "a" ++ b'_' ∷ codes "b"))
names_collide_example =
    names_collide ascii (codes "a") (codes "b") b'-' b'_' (omega arith, tt) (omega arith, tt)
      (omega arith, refl) (omega arith, refl)

postgres_closes_example :
    ((sql : Text) (ps : List Json) (fetch : Bool)
      → IsClosed services (pg_exec sql ps fetch services []).1)
    × ((ss : List Text) → IsClosed services (pg_exec_many ss services []).1)
    × ((table : Text) (n : ℕ) (full : Bool)
        → IsClosed services (seed_orders table n full services []).1)
    × ((slot : Text) (retries wait : ℕ)
        → IsClosed services (drop_slot slot retries wait services []).1)
postgres_closes_example = postgres_closes services [] refl

polling_ends_example :
    ((wait_for_connector connector_name 60000 2000 services []).0 ≢ returns none)
    × ((connect_up 60000 services []).0 ≢ returns none)
polling_ends_example =
    polling_ends services services-Ticks connector_name 60000 2000 [] (omega arith)

abbrev torn_down : List Call
unfolding teardown services
torn_down = (teardown ascii connector_name (some (codes "orders")) none true services []).1

teardown_run :
    teardown ascii connector_name (some (codes "orders")) none true services []
    ≡ (returns tt, torn_down)
unfolding teardown services text_eq
teardown_run = refl

teardown_asks_example : AskedFor services connector_name (codes "orders") true torn_down
teardown_asks_example =
    teardown_asks services ascii connector_name b'o' (codes "rders") none true [] torn_down
      teardown_run

abbrev insert_json : Json
insert_json = object (field (codes "op") (text (codes "c")) no_fields)

abbrev insert_event : Event
insert_event = record { op = text (codes "c"); before = null; after = null; raw = some insert_json }

-- one insert and one tombstone
abbrev messages : List (Option (List ℕ))
messages = some (1 ∷ []) ∷ none ∷ []

abbrev decode : List ℕ → Option Text
decode bs = some bs

abbrev loads : Text → Option Json
loads t = some insert_json

messages_read : read_cdc_events decode loads messages ≡ some (insert_event ∷ tombstone_event ∷ [])
unfolding read_cdc_events get_field text_eq
messages_read = refl

abbrev counted : List Event
counted = insert_event ∷ tombstone_event ∷ []

read_counts_example : Counted messages counted (op_counts counted)
read_counts_example = read_counts decode loads messages counted messages_read

-- True is the number 1 as a key, and the text "1" is another one
scalar_keys :
    op_counts (
      map
        (λ j. record { op = j; before = null; after = null; raw = none })
        (number 1 ∷ text (codes "1") ∷ boolean true ∷ []))
    ≡ some ((number_key 1, 2) ∷ (text_key (codes "1"), 1) ∷ [])
unfolding op_counts key_of key_eq text_eq
scalar_keys = refl

abbrev cleaned : List Call
unfolding clean_slate services
cleaned = (clean_slate ascii services []).1

clean_slate_run : clean_slate ascii services [] ≡ (returns tt, cleaned)
unfolding clean_slate services text_eq
clean_slate_run = refl

clean_slate_asks_example : Cleaned services ascii cleaned
clean_slate_asks_example = clean_slate_asks services ascii [] cleaned clean_slate_run
