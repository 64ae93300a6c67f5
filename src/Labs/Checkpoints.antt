-- ===== src/Labs/Checkpoints.antt =====
-- kafka/checkpoints/str2_checkpoints.ipynb: a bounded stream that is run again and again with a
-- checkpoint.
-- The topic has one partition. Spark is the parameter `engine`: what a run with `availableNow` reads
-- from its checkpoint on, and where it leaves the checkpoint. `IsAvailableNow` has what it documents
-- of the options in use. `parse` is the reading of a value by the schema, which gives one row for
-- each value.
use spark_dev.Base.{
  ◌≡◌, ℕ, zero, suc, ◌+◌, ◌*◌, Bool, true, false, ◌&&◌, Option, none, some, String, List, [], ◌∷◌,
  ◌++◌, map, any, not, length, if◌then◌else◌, str_eq, ◌==◌, filter,
}
pub mod Once

-- the columns of `schema`; `v` in whole units
pub record Row : Type 0 where
  pub id : Option ℕ
  pub v : Option ℕ

abbrev pub drop {ℓ} : {A : Type ℓ} → ℕ → List A → List A
drop zero xs = xs
drop (suc n) [] = []
drop (suc n) (x ∷ xs) = drop n xs

-- the values on the topic, the offset of each checkpoint, and the rows of each table
pub record World (V : Type 0) : Type 0 where
  pub topic : List V
  pub checkpoints : String → Option ℕ
  pub tables : String → List Row

abbrev pub start_offset : Option ℕ → ℕ
start_offset none = 0
start_offset (some n) = n

-- a map with one place changed
abbrev pub set : {A : Type 0} → String → A → (String → A) → String → A
set k a f q = if str_eq k q then a else f q

pub record Engine (V : Type 0) : Type 0 where
  pub reads : Option ℕ → List V → List V
  pub leaves : Option ℕ → List V → ℕ

-- A run starts where its checkpoint stands, at the earliest offset when there is none, and drains
-- the topic.
pub record IsAvailableNow {V : Type 0} (engine : Engine V) : Type 0 where
  pub reads_rest :
      (offset : Option ℕ) (topic : List V)
      → engine.reads offset topic ≡ drop (start_offset offset) topic
  pub leaves_end : (offset : Option ℕ) (topic : List V) → engine.leaves offset topic ≡ length topic

unfoldable pub stream_query :
    {V : Type 0} → Engine V → (V → Row) → String → String → World V → World V
stream_query engine parse checkpoint table w = record {
  topic = w.topic;
  checkpoints =
      set checkpoint (some (engine.leaves (w.checkpoints checkpoint) w.topic)) w.checkpoints;
  tables =
      set table (w.tables table ++ map parse (engine.reads (w.checkpoints checkpoint) w.topic))
        w.tables;
}

-- the ids that are not null, each once
unfoldable pub distinct_ids : List Row → List ℕ
distinct_ids [] = []
distinct_ids (r ∷ rows) = elim r.id [
  | none ↦ distinct_ids rows
  | some i ↦ i ∷ filter (λ j. not (i == j)) (distinct_ids rows)
]

-- `COUNT(*)` and `COUNT(DISTINCT id)`
unfoldable pub counts : List Row → ℕ × ℕ
counts rows = (length rows, length (distinct_ids rows))

-- What the notebook does to the topic and the tables, in some order: it produces events, and it
-- runs the stream with a checkpoint and a table.
pub data Action (V : Type 0) : Type 0 where
  produce : List V → Action V
  run_stream : String → String → Action V

unfoldable pub act : {V : Type 0} → Engine V → (V → Row) → Action V → World V → World V
unfolding stream_query
act engine parse (produce values) w = record {
  topic = w.topic ++ values;
  checkpoints = w.checkpoints;
  tables = w.tables;
}
act engine parse (run_stream checkpoint table) w = stream_query engine parse checkpoint table w

unfoldable pub act_all : {V : Type 0} → Engine V → (V → Row) → List (Action V) → World V → World V
unfolding act
act_all engine parse [] w = w
act_all engine parse (a ∷ actions) w = act_all engine parse actions (act engine parse a w)
