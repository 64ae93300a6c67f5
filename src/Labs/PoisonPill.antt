-- ===== src/Labs/PoisonPill.antt =====
-- kafka/poison_pill/kaf6_poison_pill.ipynb: a topic with unreadable messages, the batch that finds
-- them, and the stream that sends each row to the main table or to the dead letters.
-- Parameters are `dumps`, the JSON of a dict, and `from_json`, Spark's reading of a text by the
-- schema, which gives null for a text that does not parse, and `stamp`, the broker's time
-- of each offset. Amounts are in hundredths.
use spark_dev.Base.{
  ℕ, zero, suc, ◌+◌, ◌*◌, Bool, true, false, not, Option, none, some, String, List, [], ◌∷◌, ◌++◌,
  map, filter, length, ltb, if◌then◌else◌,
}
use spark_dev.Base.Text.{Text, codes}
pub mod Routing
pub mod Produced

-- the dict of a good event
pub record Order : Type 0 where
  pub id : ℕ
  pub amount : ℕ
  pub status : String

-- what the producers send: bytes, or a dict
pub data Value : Type 0 where
  order : Order → Value
  wrong_schema : String → ℕ → Value
  bytes : Text → Value

-- a row that Spark reads off the topic, with the value as text
pub record Message : Type 0 where
  pub value : Option Text
  pub topic : String
  pub partition : ℕ
  pub offset : ℕ
  pub timestamp : ℕ

-- the columns of `schema`, all nullable
pub record Parsed : Type 0 where
  pub id : Option ℕ
  pub amount : Option ℕ
  pub status : Option String

abbrev pub n_good : ℕ
n_good = 500

unfoldable pub good_value : ℕ → Value
good_value i = order record { id = i; amount = i * 150; status = "ok" }

-- the values of the ids from i on, n of them
unfoldable pub good_values : ℕ → ℕ → List Value
good_values i zero = []
good_values i (suc n) = good_value i ∷ good_values (suc i) n

abbrev pub poison : List Value
poison =
    bytes (codes "NOT-JSON-this-is-a-poison-pill")
    ∷ bytes (codes "{ broken json, no quotes }")
    ∷ wrong_schema "wrong schema" 990
    ∷ []

abbrev pub n_total : ℕ
n_total = n_good + length poison

-- the `value_serializer` of the second producer
unfoldable pub serialize : (Value → Text) → Value → Text
serialize dumps (bytes b) = b
serialize dumps (order o) = dumps (order o)
serialize dumps (wrong_schema oops amount) = dumps (wrong_schema oops amount)

-- the topic's one partition, from an offset on, as Spark reads it
unfoldable pub messages_from : (Value → Text) → (ℕ → ℕ) → ℕ → List Value → List Message
messages_from dumps stamp offset [] = []
messages_from dumps stamp offset (v ∷ values) =
    record {
      value = some (serialize dumps v);
      topic = "kaf6_orders";
      partition = 0;
      offset = offset;
      timestamp = stamp offset;
    }
    ∷ messages_from dumps stamp (suc offset) values

-- the topic when both producers are done
unfoldable pub produced : (Value → Text) → (ℕ → ℕ) → List Message
produced dumps stamp = messages_from dumps stamp 0 (good_values 0 n_good ++ poison)

-- SQL's `&` and `~`, where null is none
abbrev pub sql_and : Option Bool → Option Bool → Option Bool
sql_and (some false) b = some false
sql_and (some true) b = b
sql_and none (some false) = some false
sql_and none (some true) = none
sql_and none none = none

abbrev pub sql_not : Option Bool → Option Bool
sql_not none = none
sql_not (some b) = some (not b)

-- `filter` keeps the rows whose condition is true
abbrev pub is_true : Option Bool → Bool
is_true none = false
is_true (some b) = b

abbrev pub is_null : {A : Type 0} → Option A → Bool
is_null none = true
is_null (some a) = false

-- `F.length(value) > 0`
abbrev pub length_positive : Option Text → Option Bool
length_positive none = none
length_positive (some t) = some (ltb 0 (length t))

module _ (from_json : Text → Option Parsed) where
  -- `parsed`; a null value and a null struct have null columns
  unfoldable pub parsed_id : Message → Option ℕ
  parsed_id m = elim m.value [
    | none ↦ none
    | some t ↦ elim (from_json t) [ none ↦ none | some p ↦ p.id ]
  ]

  unfoldable pub is_poison : Message → Option Bool
  is_poison m =
      sql_and (sql_and (some (is_null (parsed_id m))) (some (not (is_null m.value))))
        (length_positive m.value)

  unfoldable pub detected_poison : List Message → ℕ
  detected_poison ms = length (filter (λ m. is_true (is_poison m)) ms)

  unfoldable pub detected_good : List Message → ℕ
  detected_good ms = length (filter (λ m. is_true (sql_not (is_poison m))) ms)

  -- the stream's flag, which is never null
  unfoldable pub poison_flag : Message → Bool
  poison_flag m = is_null (parsed_id m)

  -- the rows of the main table; `parsed` is not null where its id is not
  unfoldable pub clean_df : List Message → List (Option Parsed)
  clean_df ms =
      map (λ m. elim m.value [ none ↦ none | some t ↦ from_json t ])
        (filter (λ m. not (poison_flag m)) ms)

  -- the rows of the dead letters
  unfoldable pub dlq_df : List Message → List Message
  dlq_df ms = filter poison_flag ms

  unfoldable pub main_count : List Message → ℕ
  main_count ms = length (clean_df ms)

  unfoldable pub dlq_count : List Message → ℕ
  dlq_count ms = length (dlq_df ms)
